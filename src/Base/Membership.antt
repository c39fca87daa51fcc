-- ===== src/Base/Membership.antt =====
-- `x in xs` of the code against membership, and lists that grow at the end.
use mathlib.Core.Path.{◌≡◌}
use mathlib.Core.Logic.{◌⊎◌, ◌↔◌, inr}
use mathlib.Core.Bool.{true}
use mathlib.Core.List.{List, [], ◌∷◌, ◌++◌}
use native.Mathlib.Omega.{arith}
use Prim.Native.String.{String}
use text.Mathlib.TextEquality.{eq_iff}
use nervora.Base.Lists.{Member}
use nervora.Base.Text.{contains}

module _ (x : String) where
  pub contains→Member : (xs : List String) → contains xs x ≡ true → Member x xs
  unfolding contains
  contains→Member [] h = ground arith
  contains→Member (y ∷ ys) h = ground (arith, contains→Member ys, eq_iff y x)

  pub Member→contains : (xs : List String) → Member x xs → contains xs x ≡ true
  unfolding contains
  Member→contains [] h = absurd h
  Member→contains (y ∷ ys) h = ground (arith, Member→contains ys, eq_iff y x)

  pub contains_iff : (xs : List String) → (contains xs x ≡ true) ↔ Member x xs
  contains_iff xs = (contains→Member xs, Member→contains xs)

  pub Member-append : (xs ys : List String) → Member x (xs ++ ys) ↔ (Member x xs ⊎ Member x ys)
  Member-append [] ys = (λ m. inr m, λ m. ground arith)
  Member-append (y ∷ xs) ys = ground (arith, Member-append xs ys)
