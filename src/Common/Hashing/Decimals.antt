-- ===== src/Common/Hashing/Decimals.antt =====
-- That ints in the JSON of packages/common/ids.py do not run into what follows them.
use Prim.Native.Nat.{◌/◌, ◌%◌, ◌*◌}
use Prim.Native.Char.{char, code}
use Prim.Native.String as Str
use Prim.Native.String.append
use mathlib.Core.Logic.{dite}
use mathlib.Core.WellFounded.{Acc}
use native.Mathlib.Decide.{dec_lt}
use text.Mathlib.TextLemmas.{append_assoc}
use nervora.Base.{
  ℕ, suc, ◌+◌, ◌-◌, ◌<◌, String, Bool, true, false, List, [], ◌∷◌, leb, ◌&&◌, ◌||◌, nat_eq,
  if◌then◌else◌, ◌≡◌, ◌≢◌, refl, ap, ◌∙◌, sym, arith,
}
use nervora.Json.{ℤ, pos, negsuc}
use nervora.Numbers.Positional.{
  digits, digits_before, char_at, text_of, below, lt_suc, le_of_not_lt,
}
use nervora.Numbers.Decimal.{decimal, tenth_lt, int_text}
use nervora.Common.Hashing.Hexadecimal.{digit_char}
use nervora.Common.Hashing.Escapes.{append_one}
use nervora.Common.Hashing.Quoting.{first_code, rest_of}

abbrev pub is_digit : ℕ → Bool
is_digit n = leb 48 n && leb n 57

-- Digits as a number that goes on from `n`, and what follows them.
unfoldable read_digits : String → ℕ → ℕ × String
read_digits Str.[] n = (n, "")
read_digits (Str.◌∷◌ c s) n =
    if is_digit (code c) then read_digits s (n * 10 + (code c - 48)) else (n, Str.◌∷◌ c s)

append-digit :
    (d : ℕ) (ds : List ℕ) (x : String)
    → Str.◌++◌ (text_of (d ∷ ds)) x
      ≡ Str.◌∷◌ (char_at "0123456789abcdef" d) (Str.◌++◌ (text_of ds) x)
unfolding text_of
append-digit d ds x = append.cons (char_at "0123456789abcdef" d) (text_of ds) x

pub digit_code : (d : ℕ) → d < 10 → code (char_at "0123456789abcdef" d) ≡ 48 + d
digit_code d h = ground (arith, digit_char d (omega arith))

read-digit :
    (n d : ℕ) (ds : List ℕ) (x : String)
    → d < 10
    → read_digits (Str.◌++◌ (text_of (d ∷ ds)) x) n
      ≡ read_digits (Str.◌++◌ (text_of ds) x) (n * 10 + d)
unfolding read_digits
read-digit n d ds x h = rw (append-digit d ds x, digit_code d h) (ground arith)

digit-first :
    (d : ℕ) (ds : List ℕ) (x : String)
    → d < 10
    → is_digit (first_code (Str.◌++◌ (text_of (d ∷ ds)) x)) ≡ true
digit-first d ds x h = rw (append-digit d ds x, digit_code d h) (ground arith)

-- A property of both branches of a test.
pub dite_both :
    {P : Type 0} {A : Type 0} (C : A → Type 0) (d : Dec P) (f : P → A) (g : ¬ P → A)
    → ((p : P) → C (f p))
    → ((p : ¬ P) → C (g p))
    → C (dite d f g)
dite_both C (yes p) f g hf hg = hf p
dite_both C (no p) f g hf hg = hg p

read-digits_before :
    (n : ℕ) (smaller : Acc ◌<◌ n) (ds : List ℕ) (x : String)
    → read_digits (Str.◌++◌ (text_of (digits_before 10 tenth_lt n smaller ds)) x) 0
      ≡ read_digits (Str.◌++◌ (text_of ds) x) n
unfolding digits_before
read-digits_before n (Acc.intro _ smaller) ds x =
    dite_both
      (λ l. read_digits (Str.◌++◌ (text_of l) x) 0 ≡ read_digits (Str.◌++◌ (text_of ds) x) n)
      (dec_lt n 10) _ _
      (λ small.
        read-digit 0 n ds x small ∙ ap (read_digits (Str.◌++◌ (text_of ds) x)) (omega arith))
      (λ large.
        read-digits_before (n / 10) (smaller (n / 10) (tenth_lt n (le_of_not_lt 10 n large)))
          ((n % 10) ∷ ds) x
        ∙ read-digit (n / 10) (n % 10) ds x (omega arith)
        ∙ ap (read_digits (Str.◌++◌ (text_of ds) x)) (omega arith))

digits_before-first :
    (n : ℕ) (smaller : Acc ◌<◌ n) (ds : List ℕ) (x : String)
    → is_digit (first_code (Str.◌++◌ (text_of (digits_before 10 tenth_lt n smaller ds)) x)) ≡ true
unfolding digits_before
digits_before-first n (Acc.intro _ smaller) ds x =
    dite_both (λ l. is_digit (first_code (Str.◌++◌ (text_of l) x)) ≡ true) (dec_lt n 10) _ _
      (λ small. digit-first n ds x small)
      (λ large.
        digits_before-first (n / 10) (smaller (n / 10) (tenth_lt n (le_of_not_lt 10 n large)))
          ((n % 10) ∷ ds) x)

pub decimal-first : (n : ℕ) (x : String) → is_digit (first_code (Str.◌++◌ (decimal n) x)) ≡ true
unfolding decimal digits
decimal-first n x = digits_before-first n (below (suc n) n (lt_suc n)) [] x

-- The text does not go on with a digit.
abbrev pub Stops : String → Type 0
Stops x = is_digit (first_code x) ≡ false

read_digits-Stops : (x : String) (n : ℕ) → Stops x → read_digits x n ≡ (n, x)
unfolding read_digits
read_digits-Stops Str.[] n h = refl
read_digits-Stops (Str.◌∷◌ c s) n h = rw h refl

read-decimal : (n : ℕ) (x : String) → Stops x → read_digits (Str.◌++◌ (decimal n) x) 0 ≡ (n, x)
unfolding decimal digits text_of
read-decimal n x h =
    read-digits_before n (below (suc n) n (lt_suc n)) [] x
    ∙ ap (λ s. read_digits s n) (append.nil x)
    ∙ read_digits-Stops x n h

pub decimal-injective :
    (m n : ℕ) (x y : String)
    → Stops x
    → Stops y
    → Str.◌++◌ (decimal m) x ≡ Str.◌++◌ (decimal n) y
    → (m ≡ n) × (x ≡ y)
decimal-injective m n x y hx hy h =
    let same = sym (read-decimal m x hx) ∙ ap (λ s. read_digits s 0) h ∙ read-decimal n y hy in
    (ap (λ p. p.0) same, ap (λ p. p.1) same)

append-negsuc :
    (n : ℕ) (x : String)
    → Str.◌++◌ (int_text (negsuc n)) x ≡ Str.◌∷◌ (char 45 tt) (Str.◌++◌ (decimal (suc n)) x)
unfolding int_text
append-negsuc n x = simp (append_one (char 45 tt), append_assoc, append.cons, append.nil)

minus_first : (m n : ℕ) (x y : String) → Str.◌++◌ (decimal m) x ≢ Str.◌++◌ (int_text (negsuc n)) y
minus_first m n x y h =
    let first = decimal-first m x in
    let minus = ap first_code (h ∙ append-negsuc n y) in ground (arith, first, minus)

pub int_text-injective :
    (m n : ℤ) (x y : String)
    → Stops x
    → Stops y
    → Str.◌++◌ (int_text m) x ≡ Str.◌++◌ (int_text n) y
    → (m ≡ n) × (x ≡ y)
unfolding int_text
int_text-injective (pos m) (pos n) x y hx hy h =
    let same = decimal-injective m n x y hx hy h in (ap pos same.0, same.1)
int_text-injective (pos m) (negsuc n) x y hx hy h = absurd (minus_first m n x y h)
int_text-injective (negsuc m) (pos n) x y hx hy h = absurd (minus_first n m y x (sym h))
int_text-injective (negsuc m) (negsuc n) x y hx hy h =
    let same =
      decimal-injective (suc m) (suc n) x y hx hy
        (ap rest_of (sym (append-negsuc m x) ∙ h ∙ append-negsuc n y)) in
    (ap negsuc (omega (arith, same.0)), same.1)

-- The first character of an int.
pub int_text-first :
    (n : ℤ) (x : String)
    → (is_digit (first_code (Str.◌++◌ (int_text n) x))
        || nat_eq (first_code (Str.◌++◌ (int_text n) x)) 45)
      ≡ true
unfolding int_text
int_text-first (pos n) x = ground (arith, decimal-first n x)
int_text-first (negsuc n) x = rw (append-negsuc n x) refl
