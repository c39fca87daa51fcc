-- ===== src/Base/Text.antt =====
-- Python text: f-strings, truth of a text, `in` on a sequence of texts, slices from the left.
use Prim.Native.Nat.{ℕ, zero, suc, Ordering}
use Prim.Native.String.{String}
use Prim.Native.String as Str
use mathlib.Core.Bool.{Bool, true, false, not, ◌||◌}
use mathlib.Core.Option.{Option, none, some}
use mathlib.Core.List.{List, [], ◌∷◌}
use text.Mathlib.Text.{◌==◌}

-- The parts of an f-string, joined.
abbrev pub fstring : List String → String
fstring [] = ""
fstring (s ∷ ss) = Str.◌++◌ s (fstring ss)

-- `bool(s)` of a text.
abbrev pub truthy : String → Bool
truthy s = not (s == "")

-- `x or y` where `x` is None or a text.
abbrev pub or_else : Option String → String → String
or_else none y = y
or_else (some x) y = elim (truthy x) [ true ↦ x | false ↦ y ]

-- `x in xs`.
unfoldable pub contains : List String → String → Bool
contains [] x = false
contains (y ∷ ys) x = y == x || contains ys x

-- `s[:n]`.
unfoldable pub slice_to : ℕ → String → String
slice_to zero s = ""
slice_to (suc n) String.[] = ""
slice_to (suc n) (String.◌∷◌ c s) = String.◌∷◌ c (slice_to n s)

-- `sorted(xs)`: texts compare by code points, and equal texts keep their order.
insert_sorted : String → List String → List String
insert_sorted x [] = x ∷ []
insert_sorted x (y ∷ ys) = elim (Str.compare x y) [
  | Ordering.gt ↦ y ∷ insert_sorted x ys
  | _ ↦ x ∷ y ∷ ys
]

unfoldable pub sorted : List String → List String
unfolding insert_sorted
sorted [] = []
sorted (x ∷ xs) = insert_sorted x (sorted xs)

-- The repr of a list of plain names, which hold no quote and no backslash.
repr_rest : List String → String
repr_rest [] = "]"
repr_rest (x ∷ xs) = fstring (", '" ∷ x ∷ "'" ∷ repr_rest xs ∷ [])

unfoldable pub repr_names : List String → String
unfolding repr_rest
repr_names [] = "[]"
repr_names (x ∷ xs) = fstring ("['" ∷ x ∷ "'" ∷ repr_rest xs ∷ [])
