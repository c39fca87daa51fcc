-- ===== src/ReferenceTools/Equality.antt =====
-- Python's `==` on the values of packages/tool_registry/tools.py: numbers compare by value whatever
-- their type, lists by their items, and dicts whatever their order.
use Prim.Native.Nat.{◌*◌, ◌^◌}
use nervora.Base.{ℕ, suc, String, Bool, true, false, ◌&&◌, Option, none, some, ◌==◌, nat_eq}
use nervora.Json.{
  ℤ, pos, negsuc, Json, null, bool, int, float, str, list, dict, Items, nil, cons, Dict, end, entry,
  get,
}

-- The number m / 2 ^ k that a value is.
abbrev number_of : Json → Option (ℤ × ℕ)
number_of (bool false) = some (pos 0, 0)
number_of (bool true) = some (pos 1, 0)
number_of (int n) = some (n, 0)
number_of (float m k) = some (m, k)
number_of _ = none

abbrev fractions_eq : ℤ × ℕ → ℤ × ℕ → Bool
fractions_eq (pos m, j) (pos n, k) = nat_eq (m * 2 ^ k) (n * 2 ^ j)
fractions_eq (negsuc m, j) (negsuc n, k) = nat_eq (suc m * 2 ^ k) (suc n * 2 ^ j)
fractions_eq _ _ = false

-- `x == y` where `x` is a number.
abbrev number_eq : Option (ℤ × ℕ) → Option (ℤ × ℕ) → Bool
number_eq (some x) (some y) = fractions_eq x y
number_eq _ _ = false

-- `len(d)`
abbrev size : Dict → ℕ
size end = 0
size (entry k v d) = suc (size d)

abbrev is_null : Json → Bool
is_null null = true
is_null _ = false

abbrev is_text : String → Json → Bool
is_text s (str t) = s == t
is_text s _ = false

unfoldable mutual
  pub values_eq : Json → Json → Bool
  values_eq null y = is_null y
  values_eq (bool b) y = number_eq (number_of (bool b)) (number_of y)
  values_eq (int n) y = number_eq (number_of (int n)) (number_of y)
  values_eq (float m k) y = number_eq (number_of (float m k)) (number_of y)
  values_eq (str s) y = is_text s y
  values_eq (list xs) (list ys) = items_eq xs ys
  values_eq (list xs) _ = false
  values_eq (dict d) (dict e) = nat_eq (size d) (size e) && entries_in d e
  values_eq (dict d) _ = false

  pub items_eq : Items → Items → Bool
  items_eq nil nil = true
  items_eq (cons x xs) (cons y ys) = values_eq x y && items_eq xs ys
  items_eq _ _ = false

  -- Every key of the first dict is in the second one, with an equal value.
  pub entries_in : Dict → Dict → Bool
  entries_in end e = true
  entries_in (entry k v d) e =
      elim (get e k) [ none ↦ false | some w ↦ values_eq v w ] && entries_in d e
