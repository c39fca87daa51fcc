-- ===== src/Base/Table.antt =====
-- The rows of a database table under a text key: `session.get`, an update of the row that was
-- read, and the uniqueness of a key column. Rows are kept newest first.
use nervora.Base.Tests.{if◌then◌else◌}
use mathlib.Core.Path.{◌≡◌, refl}
use mathlib.Core.Bool.{Bool, true, false, not, ◌&&◌}
use mathlib.Core.Option.{Option, none, some}
use mathlib.Core.Option
use mathlib.Core.List.{List, [], ◌∷◌}
use native.Mathlib.Omega.{arith}
use Prim.Native.String.{String}
use text.Mathlib.Text.{◌==◌}
use text.Mathlib.TextEquality.{eq_iff}

module _ {A : Type 0} (key : A → String) where
  -- `session.get(Model, k)`
  unfoldable pub find : String → List A → Option A
  find k [] = none
  find k (r ∷ rs) = if key r == k then some r else find k rs

  -- Fields set on the row that `session.get(Model, k)` returned; without such a row, nothing.
  unfoldable pub update : String → (A → A) → List A → List A
  update k f [] = []
  update k f (r ∷ rs) = if key r == k then f r ∷ rs else r ∷ update k f rs

  -- Does the key column hold `k`?
  unfoldable pub has : String → List A → Bool
  has k [] = false
  has k (r ∷ rs) = if key r == k then true else has k rs

  -- A UNIQUE or PRIMARY KEY constraint on the key column.
  unfoldable pub unique : List A → Bool
  unfolding has
  unique [] = true
  unique (r ∷ rs) = not (has (key r) rs) && unique rs

  pub find-has : (k : String) (rs : List A) → has k rs ≡ false → find k rs ≡ none
  unfolding find has
  find-has k [] h = refl
  find-has k (r ∷ rs) h = ground (arith, find-has k rs)

  pub has_of_find : (k : String) (rs : List A) → find k rs ≡ none → has k rs ≡ false
  unfolding find has
  has_of_find k [] h = refl
  has_of_find k (r ∷ rs) h = ground (arith, has_of_find k rs)

  pub find-key : (k : String) (rs : List A) (r : A) → find k rs ≡ some r → key r ≡ k
  unfolding find
  find-key k [] r h = ground arith
  find-key k (x ∷ rs) r h = ground (arith, find-key k rs r, eq_iff (key x) k)

  module _ (f : A → A) (keeps : (r : A) → key (f r) ≡ key r) where
    -- An update that leaves the key alone is seen under its own key only.
    pub find-update :
        (j k : String) (rs : List A)
        → find j (update k f rs) ≡ (if k == j then Option.map f (find j rs) else find j rs)
    unfolding find update
    find-update j k [] = ground arith
    find-update j k (r ∷ rs) = ground (
      arith,
      keeps r,
      find-update j k rs,
      eq_iff (key r) k,
      eq_iff (key r) j,
      eq_iff (key (f r)) j,
      eq_iff k j,
    )

    pub has-update : (j k : String) (rs : List A) → has j (update k f rs) ≡ has j rs
    unfolding has update
    has-update j k [] = refl
    has-update j k (r ∷ rs) = ground (arith, keeps r, has-update j k rs)

    pub unique-update : (k : String) (rs : List A) → unique (update k f rs) ≡ unique rs
    unfolding unique has update
    unique-update k [] = refl
    unique-update k (r ∷ rs) = ground (arith, keeps r, has-update (key r) k rs, unique-update k rs)
