-- ===== src/Common/Hashing/Numbers.antt =====
-- That the numbers in the JSON of packages/common/ids.py do not run into what follows them.
use Prim.Native.Nat.{◌/◌, ◌%◌}
use Prim.Native.Char.{char, code}
use Prim.Native.String as Str
use Prim.Native.String.append
use mathlib.Core.WellFounded.{Acc}
use native.Mathlib.Decide.{dec_lt}
use package.text.Mathlib.TextLemmas.{append-nil}
use nervora.Base.{
  ℕ, zero, suc, ◌<◌, String, Bool, true, false, List, [], ◌∷◌, ◌&&◌, ◌||◌, nat_eq, if◌then◌else◌,
  ◌≡◌, ◌≢◌, refl, ap, ◌∙◌, sym, arith,
}
use nervora.Json.{ℤ, pos, negsuc}
use nervora.Numbers.Positional.{digits, digits_before, text_of, below, lt_suc, le_of_not_lt}
use nervora.Numbers.Decimal.{decimal, tenth_lt, int_text}
use nervora.Common.Hashing.Escapes.{append_one}
use nervora.Common.Hashing.Quoting.{first_code}
use nervora.Common.Hashing.Decimals.{is_digit, int_text-injective, digit_code, dite_both}

-- A character of a number.
abbrev pub is_numeral : ℕ → Bool
is_numeral n = is_digit n || nat_eq n 43 || nat_eq n 45 || nat_eq n 46 || nat_eq n 101

abbrev pub are_numerals : String → Bool
are_numerals Str.[] = true
are_numerals (Str.◌∷◌ c s) = is_numeral (code c) && are_numerals s

-- A text with a point or an exponent.
abbrev pub is_pointed : String → Bool
is_pointed Str.[] = false
is_pointed (Str.◌∷◌ c s) = nat_eq (code c) 46 || nat_eq (code c) 101 || is_pointed s

-- The text does not go on with a number.
abbrev pub Ends : String → Type 0
Ends x = is_numeral (first_code x) ≡ false

-- The number at the front of a text, and what follows it.
unfoldable split_number : String → String × String
split_number Str.[] = ("", "")
split_number (Str.◌∷◌ c s) =
    let (t, x) = split_number s in
    if is_numeral (code c) then (Str.◌∷◌ c t, x) else ("", Str.◌∷◌ c s)

split_number-Ends : (x : String) → Ends x → split_number x ≡ ("", x)
unfolding split_number
split_number-Ends Str.[] h = refl
split_number-Ends (Str.◌∷◌ c s) h = ground (arith, h)

split_number-append :
    (t x : String) → are_numerals t ≡ true → Ends x → split_number (Str.◌++◌ t x) ≡ (t, x)
unfolding split_number
split_number-append Str.[] x h e = rw (append.nil x) (split_number-Ends x e)
split_number-append (Str.◌∷◌ c t) x h e =
    rw (append.cons c t x) (ground (arith, h, split_number-append t x, e))

-- Digits only.
abbrev is_plain : String → Bool
is_plain Str.[] = true
is_plain (Str.◌∷◌ c s) = is_digit (code c) && is_plain s

plain_numerals : (s : String) → is_plain s ≡ true → (are_numerals s ≡ true) × (is_pointed s ≡ false)
plain_numerals Str.[] h = (refl, refl)
plain_numerals (Str.◌∷◌ c s) h = ground (arith, h, plain_numerals s)

digit_plain :
    (d : ℕ) (ds : List ℕ)
    → d < 10
    → is_plain (text_of ds) ≡ true
    → is_plain (text_of (d ∷ ds)) ≡ true
unfolding text_of
digit_plain d ds h p = ground (arith, digit_code d h, p)

digits_plain :
    (n : ℕ) (smaller : Acc ◌<◌ n) (ds : List ℕ)
    → is_plain (text_of ds) ≡ true
    → is_plain (text_of (digits_before 10 tenth_lt n smaller ds)) ≡ true
unfolding digits_before
digits_plain n (Acc.intro _ smaller) ds p =
    dite_both (λ l. is_plain (text_of l) ≡ true) (dec_lt n 10) _ _
      (λ small. digit_plain n ds small p)
      (λ large.
        digits_plain (n / 10) (smaller (n / 10) (tenth_lt n (le_of_not_lt 10 n large)))
          ((n % 10) ∷ ds) (digit_plain (n % 10) ds (omega arith) p))

decimal_plain : (n : ℕ) → is_plain (decimal n) ≡ true
unfolding decimal digits text_of
decimal_plain n = digits_plain n (below (suc n) n (lt_suc n)) [] refl

pub decimal_numerals : (n : ℕ) → are_numerals (decimal n) ≡ true
decimal_numerals n = (plain_numerals (decimal n) (decimal_plain n)).0

pub int_text_numerals :
    (n : ℤ) → (are_numerals (int_text n) ≡ true) × (is_pointed (int_text n) ≡ false)
unfolding int_text
int_text_numerals (pos n) = plain_numerals (decimal n) (decimal_plain n)
int_text_numerals (negsuc n) =
    let same = plain_numerals (decimal (suc n)) (decimal_plain (suc n)) in
    rw (append_one (char 45 tt) (Str.◌++◌ (decimal (suc n)) ""), append-nil (decimal (suc n)))
      (ground (arith, same))

-- A fraction in lowest terms, so that a double has one.
abbrev pub IsReduced : ℤ → ℕ → Type 0
IsReduced m zero = Unit
IsReduced (pos n) (suc k) = n % 2 ≡ 1
IsReduced (negsuc n) (suc k) = n % 2 ≡ 0

-- What is used of Python's repr of a finite double: it begins like a number, has only characters of
-- numbers, among them a point or an exponent, and differs for different doubles.
pub record PrintsFloats (float_repr : ℤ → ℕ → String) : Type 0 where
  pub begins :
      (m : ℤ) (k : ℕ)
      → (is_digit (first_code (float_repr m k)) || nat_eq (first_code (float_repr m k)) 45) ≡ true
  pub numeral : (m : ℤ) (k : ℕ) → are_numerals (float_repr m k) ≡ true
  pub pointed : (m : ℤ) (k : ℕ) → is_pointed (float_repr m k) ≡ true
  pub distinct :
      (m n : ℤ) (k l : ℕ)
      → IsReduced m k
      → IsReduced n l
      → float_repr m k ≡ float_repr n l
      → (m ≡ n) × (k ≡ l)

split_same :
    (s t x y : String)
    → are_numerals s ≡ true
    → are_numerals t ≡ true
    → Ends x
    → Ends y
    → Str.◌++◌ s x ≡ Str.◌++◌ t y
    → (s ≡ t) × (x ≡ y)
split_same s t x y hs ht hx hy h =
    let same =
      sym (split_number-append s x hs hx) ∙ ap split_number h ∙ split_number-append t y ht hy in
    (ap (λ p. p.0) same, ap (λ p. p.1) same)

first-append :
    (t x : String)
    → (is_digit (first_code t) || nat_eq (first_code t) 45) ≡ true
    → first_code (Str.◌++◌ t x) ≡ first_code t
first-append Str.[] x h = ground (arith, h)
first-append (Str.◌∷◌ c t) x h = rw (append.cons c t x) refl

pub number_of_ints :
    (m n : ℤ) (x y : String)
    → Ends x
    → Ends y
    → Str.◌++◌ (int_text m) x ≡ Str.◌++◌ (int_text n) y
    → (m ≡ n) × (x ≡ y)
number_of_ints m n x y hx hy h =
    int_text-injective m n x y (ground (arith, hx)) (ground (arith, hy)) h

module _ (float_repr : ℤ → ℕ → String) (prints : PrintsFloats float_repr) where
  pub float-first :
      (m : ℤ) (k : ℕ) (x : String)
      → (is_digit (first_code (Str.◌++◌ (float_repr m k) x))
          || nat_eq (first_code (Str.◌++◌ (float_repr m k) x)) 45)
        ≡ true
  float-first m k x = rw (first-append (float_repr m k) x (prints.begins m k)) (prints.begins m k)

  pub float-injective :
      (m n : ℤ) (k l : ℕ) (x y : String)
      → IsReduced m k
      → IsReduced n l
      → Ends x
      → Ends y
      → Str.◌++◌ (float_repr m k) x ≡ Str.◌++◌ (float_repr n l) y
      → ((m ≡ n) × (k ≡ l)) × (x ≡ y)
  float-injective m n k l x y hm hn hx hy h =
      let same =
        split_same (float_repr m k) (float_repr n l) x y (prints.numeral m k) (prints.numeral n l)
          hx hy h in
      (prints.distinct m n k l hm hn same.0, same.1)

  -- An int is not printed as a double is.
  pub int_differs :
      (n m : ℤ) (k : ℕ) (x y : String)
      → Ends x
      → Ends y
      → Str.◌++◌ (int_text n) x ≢ Str.◌++◌ (float_repr m k) y
  int_differs n m k x y hx hy h =
      let plain = int_text_numerals n in
      let same =
        split_same (int_text n) (float_repr m k) x y plain.0 (prints.numeral m k) hx hy h in
      cc (ap is_pointed same.0, plain.1, prints.pointed m k)
