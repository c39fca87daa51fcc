-- ===== src/Common/Hashing/Kinds.antt =====
-- The kind of a value in packages/common/ids.py by the first character of its text.
use Prim.Native.Char.{char}
use Prim.Native.String as Str
use Prim.Native.String.append
use nervora.Base.{
  ℕ, String, Bool, true, false, ◌≡◌, ◌≢◌, refl, ap, ◌∙◌, sym, arith, ◌||◌, nat_eq, if◌then◌else◌,
}
use nervora.Json.{
  ℤ, Json, null, bool, int, float, str, list, dict, Items, nil, cons, Dict, end, entry,
}
use nervora.Common.Hashing.{text}
use nervora.Common.Hashing.Quoting.{first_code, append-quoted}
use nervora.Common.Hashing.Decimals.{is_digit, int_text-first}
use nervora.Common.Hashing.Numbers.{PrintsFloats, float-first}
use nervora.Common.Hashing.Values.{
  append-list_nil, append-list_cons, append-dict_end, append-dict_entry,
}

-- Values of one kind; a bool is of the kind of its text.
pub data Alike : Json → Json → Type 0 where
  nulls : Alike null null
  bools : (b : Bool) → Alike (bool b) (bool b)
  ints : (m n : ℤ) → Alike (int m) (int n)
  floats : (m n : ℤ) (k l : ℕ) → Alike (float m k) (float n l)
  int_floats : (n m : ℤ) (k : ℕ) → Alike (int n) (float m k)
  float_ints : (m : ℤ) (k : ℕ) (n : ℤ) → Alike (float m k) (int n)
  strs : (s t : String) → Alike (str s) (str t)
  lists : (xs ys : Items) → Alike (list xs) (list ys)
  dicts : (d e : Dict) → Alike (dict d) (dict e)

-- The first character of a value's text, a minus for a number.
abbrev kind : Json → ℕ
kind null = 110
kind (bool true) = 116
kind (bool false) = 102
kind (int n) = 45
kind (float m k) = 45
kind (str s) = 34
kind (list xs) = 91
kind (dict d) = 123

abbrev kind_at : ℕ → ℕ
kind_at n = if is_digit n || nat_eq n 45 then 45 else n

alike : (v w : Json) → kind v ≡ kind w → Alike v w
alike null null h = nulls
alike (bool true) (bool true) h = bools true
alike (bool false) (bool false) h = bools false
alike (int m) (int n) h = ints m n
alike (str s) (str t) h = strs s t
alike (list xs) (list ys) h = lists xs ys
alike (dict d) (dict e) h = dicts d e
alike (float m k) (float n l) h = floats m n k l
alike (int n) (float m k) h = int_floats n m k
alike (float m k) (int n) h = float_ints m k n
alike v w h = ground (arith, h)

module _ (float_repr : ℤ → ℕ → String) (prints : PrintsFloats float_repr) where
  text-first :
      (v : Json) (x : String) → kind_at (first_code (Str.◌++◌ (text float_repr v) x)) ≡ kind v
  unfolding text
  text-first null x = rw (append.cons (char 110 tt) "ull" x) refl
  text-first (bool true) x = rw (append.cons (char 116 tt) "rue" x) refl
  text-first (bool false) x = rw (append.cons (char 102 tt) "alse" x) refl
  text-first (int n) x = ground (arith, int_text-first n x)
  text-first (float m k) x = ground (arith, float-first float_repr prints m k x)
  text-first (str s) x = rw (append-quoted s x) refl
  text-first (list nil) x = rw (append-list_nil float_repr x) refl
  text-first (list (cons v xs)) x = rw (append-list_cons float_repr v xs x) refl
  text-first (dict end) x = rw (append-dict_end float_repr x) refl
  text-first (dict (entry k v d)) x = rw (append-dict_entry float_repr k v d x) refl

  -- Values whose texts begin alike are of one kind.
  pub text-Alike :
      (v w : Json) (x y : String)
      → Str.◌++◌ (text float_repr v) x ≡ Str.◌++◌ (text float_repr w) y
      → Alike v w
  text-Alike v w x y h =
      alike v w (sym (text-first v x) ∙ ap (λ s. kind_at (first_code s)) h ∙ text-first w y)

  kind_open : (v : Json) → kind v ≢ 93
  kind_open (bool true) h = omega (arith, h)
  kind_open (bool false) h = omega (arith, h)
  kind_open v h = omega (arith, h)

  -- A value does not begin with a closing bracket.
  pub not_closed :
      (v : Json) (x y : String) → Str.◌++◌ (text float_repr v) x ≢ Str.◌∷◌ (char 93 tt) y
  not_closed v x y h = kind_open v (sym (text-first v x) ∙ ap (λ s. kind_at (first_code s)) h)
