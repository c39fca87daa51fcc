-- ===== src/Common/Hashing/Hexadecimal.antt =====
-- A reader of single characters in JSON texts, and what it reads of four hexadecimal digits.
use Prim.Native.Nat.{◌/◌, ◌%◌, ◌*◌}
use Prim.Native.Char.{Char, char, code}
use Prim.Native.String as Str
use Prim.Native.String.append
use nervora.Base.{
  ℕ, zero, suc, ◌+◌, ◌-◌, ◌<◌, ◌⊎◌, String, Bool, true, [], ◌∷◌, nat_eq, leb, ltb, ◌&&◌,
  if◌then◌else◌, ◌≡◌, refl, arith,
}
use nervora.Numbers.Positional.{char_at, text_of, chars}

-- The digit that a character stands for, 16 if it is before "0".
abbrev pub digit_value : ℕ → ℕ
digit_value n = if leb n 57 then (if leb 48 n then n - 48 else 16) else n - 97 + 10

-- Four hexadecimal digits, and what follows them.
abbrev pub unit : String → ℕ × String
unit (Str.◌∷◌ a (Str.◌∷◌ b (Str.◌∷◌ c (Str.◌∷◌ d s)))) = (
  ((digit_value (code a) * 16 + digit_value (code b)) * 16 + digit_value (code c)) * 16
      + digit_value (code d),
  s,
)
unit s = (0, s)

abbrev pub skip : String → String
skip (Str.◌∷◌ a (Str.◌∷◌ b s)) = s
skip s = s

abbrev pub pair_of : ℕ → ℕ → ℕ
pair_of high low = 65536 + (high - 55296) * 1024 + (low - 56320)

-- After a backslash.
abbrev pub read_escape : String → ℕ × String
read_escape Str.[] = (0, "")
read_escape (Str.◌∷◌ c s) =
    let n = code c in
    let (u, r) = unit s in
    let (l, r') = unit (skip r) in
    if nat_eq n 110
    then (10, s)
    else if nat_eq n 114
    then (13, s)
    else if nat_eq n 116
    then (9, s)
    else if nat_eq n 102
    then (12, s)
    else if nat_eq n 98
    then (8, s)
    else if nat_eq n 117
    then (if leb 55296 u && ltb u 56320 then (pair_of u l, r') else (u, r))
    else (n, s)

-- The number of the first character that is written, and what follows it.
unfoldable pub read_char : String → ℕ × String
read_char Str.[] = (0, "")
read_char (Str.◌∷◌ c s) = if nat_eq (code c) 92 then read_escape s else (code c, s)

pub scalar_bounds : (c : Char) → (code c < 55296) ⊎ ((57343 < code c) × (code c < 1114112))
scalar_bounds (char n s) = ground (arith, s)

-- The characters of a text stand for ascending digits.
abbrev ascends : String → ℕ → Bool
ascends Str.[] k = true
ascends (Str.◌∷◌ c s) k = nat_eq (digit_value (code c)) k && ascends s (suc k)

digit_at :
    (s : String) (k n : ℕ)
    → ascends s k ≡ true
    → n < chars s
    → digit_value (code (char_at s n)) ≡ k + n
unfolding char_at
digit_at Str.[] k n up h = absurd (omega arith)
digit_at (Str.◌∷◌ c s) k zero up h = ground (arith, up)
digit_at (Str.◌∷◌ c s) k (suc n) up h = ground (arith, up, digit_at s (suc k) n)

pub digit_char : (n : ℕ) → n < 16 → digit_value (code (char_at "0123456789abcdef" n)) ≡ n
digit_char n h = omega (arith, digit_at "0123456789abcdef" 0 n refl h)

append_four :
    (a b c d : Char) (x : String)
    → Str.◌++◌ (Str.◌∷◌ a (Str.◌∷◌ b (Str.◌∷◌ c (Str.◌∷◌ d Str.[])))) x
      ≡ Str.◌∷◌ a (Str.◌∷◌ b (Str.◌∷◌ c (Str.◌∷◌ d x)))
append_four a b c d x = simp (append.cons, append.nil)

hex_value :
    (n : ℕ) → n < 65536 → ((n / 4096 % 16 * 16 + n / 256 % 16) * 16 + n / 16 % 16) * 16 + n % 16 ≡ n
hex_value n h = omega arith

mod_small : (n : ℕ) → n % 16 < 16
mod_small n = omega arith

digit_mod : (n : ℕ) → digit_value (code (char_at "0123456789abcdef" (n % 16))) ≡ n % 16
digit_mod n = digit_char (n % 16) (mod_small n)

pub unit-escape :
    (n : ℕ) (x : String)
    → n < 65536
    → unit (Str.◌++◌ (text_of (n / 4096 % 16 ∷ n / 256 % 16 ∷ n / 16 % 16 ∷ n % 16 ∷ [])) x)
      ≡ (n, x)
unfolding text_of
unit-escape n x h =
    rw
      (
        append_four,
        digit_mod (n / 4096),
        digit_mod (n / 256),
        digit_mod (n / 16),
        digit_mod n,
        hex_value n h,
      )
      refl
