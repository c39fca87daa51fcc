-- ===== src/Common/Hashing/Escapes.antt =====
-- That the texts of json.dumps, as packages/common/ids.py uses it, can be read back.
use Prim.Native.Nat.{◌/◌, ◌%◌, ◌*◌}
use Prim.Native.Char.{Char, char, code}
use Prim.Native.String as Str
use Prim.Native.String.append
use text.Mathlib.TextLemmas.{append_assoc}
use nervora.Base.{
  ℕ, ◌+◌, ◌-◌, ◌<◌, ◌≤◌, String, [], ◌∷◌, nat_eq, leb, ltb, ◌&&◌, if◌then◌else◌, fstring, ◌≡◌, ◌≢◌,
  refl, ap, ◌∙◌, arith,
}
use nervora.Numbers.Positional.{text_of}
use nervora.Common.Hashing.{unicode_escape, escaped}
use nervora.Common.Hashing.Hexadecimal.{
  unit, skip, pair_of, read_escape, read_char, scalar_bounds, unit-escape,
}

pub append_one : (a : Char) (x : String) → Str.◌++◌ (Str.◌∷◌ a Str.[]) x ≡ Str.◌∷◌ a x
append_one a x = simp (append.cons, append.nil)

pub append_two :
    (a b : Char) (x : String) → Str.◌++◌ (Str.◌∷◌ a (Str.◌∷◌ b Str.[])) x ≡ Str.◌∷◌ a (Str.◌∷◌ b x)
append_two a b x = simp (append.cons, append.nil)

abbrev hex : ℕ → String
hex n = text_of (n / 4096 % 16 ∷ n / 256 % 16 ∷ n / 16 % 16 ∷ n % 16 ∷ [])

pub append-unicode_escape :
    (n : ℕ) (x : String)
    → Str.◌++◌ (unicode_escape n) x
      ≡ Str.◌∷◌ (char 92 tt) (Str.◌∷◌ (char 117 tt) (Str.◌++◌ (hex n) x))
unfolding unicode_escape text_of
append-unicode_escape n x = simp (append_two (char 92 tt) (char 117 tt), append.cons, append.nil)

read_unit :
    (n : ℕ) (x : String)
    → n < 65536
    → read_char (Str.◌++◌ (unicode_escape n) x) ≡ (
        if leb 55296 n && ltb n 56320
        then (pair_of n (unit (skip x)).0, (unit (skip x)).1)
        else (n, x))
unfolding read_char
read_unit n x h = rw (append-unicode_escape n x, unit-escape n x h) refl

unit-skip : (m : ℕ) (x : String) → m < 65536 → unit (skip (Str.◌++◌ (unicode_escape m) x)) ≡ (m, x)
unit-skip m x h = rw (append-unicode_escape m x, unit-escape m x h) refl

read_pair :
    (n m : ℕ) (x : String)
    → n < 1024
    → m < 1024
    → read_char (Str.◌++◌ (unicode_escape (55296 + n)) (Str.◌++◌ (unicode_escape (56320 + m)) x))
      ≡ (65536 + n * 1024 + m, x)
read_pair n m x h k =
    rw
      (
        read_unit (55296 + n) (Str.◌++◌ (unicode_escape (56320 + m)) x) (omega arith),
        unit-skip (56320 + m) x (omega arith),
      )
      (ground (arith))

read_plain : (c : Char) (x : String) → code c ≢ 92 → read_char (Str.◌∷◌ c x) ≡ (code c, x)
unfolding read_char
read_plain c x h = ground arith

read_short :
    (a : Char) (x : String)
    → read_char (Str.◌++◌ (Str.◌∷◌ (char 92 tt) (Str.◌∷◌ a Str.[])) x) ≡ read_escape (Str.◌∷◌ a x)
unfolding read_char
read_short a x = rw (append_two (char 92 tt) a x) refl

-- A character beyond 0xFFFF.
read_surrogates :
    (n : ℕ) (x : String)
    → 65536 ≤ n
    → n < 1114112
    → read_char (
        Str.◌++◌
          (fstring (
            unicode_escape (55296 + (n - 65536) / 1024 % 1024)
            ∷ unicode_escape (56320 + (n - 65536) % 1024)
            ∷ []))
          x)
      ≡ (n, x)
read_surrogates n x h k =
    rw
      (
        append_assoc (unicode_escape (55296 + (n - 65536) / 1024 % 1024))
            (Str.◌++◌ (unicode_escape (56320 + (n - 65536) % 1024)) "") x,
        append_assoc (unicode_escape (56320 + (n - 65536) % 1024)) "" x,
        append.nil x,
      )
      (read_pair ((n - 65536) / 1024 % 1024) ((n - 65536) % 1024) x (omega arith) (omega arith)
        ∙ ap (λ v. (v, x)) (omega arith))

abbrev pub surrogates : ℕ → String
surrogates n = fstring (
    unicode_escape (55296 + (n - 65536) / 1024 % 1024)
    ∷ unicode_escape (56320 + (n - 65536) % 1024)
    ∷ [])

read_coded :
    (c : Char) (x : String)
    → read_char
        (Str.◌++◌ (if ltb (code c) 65536 then unicode_escape (code c) else surrogates (code c)) x)
      ≡ (code c, x)
read_coded c x = ground (arith, scalar_bounds c, read_unit (code c) x, read_surrogates (code c) x)

read_direct :
    (c : Char) (x : String) → code c ≢ 92 → read_char (Str.◌++◌ (Str.◌∷◌ c "") x) ≡ (code c, x)
read_direct c x h = rw (append.cons c "" x, append.nil x) (read_plain c x h)

-- The tests of `escaped` in front of the text for the other characters.
abbrev pub shorter : Char → String → String
shorter c rest =
    let n = code c in
    if nat_eq n 34
    then "\\\""
    else if nat_eq n 92
    then "\\\\"
    else if nat_eq n 10
    then "\\n"
    else if nat_eq n 13
    then "\\r"
    else if nat_eq n 9
    then "\\t"
    else if nat_eq n 12
    then "\\f"
    else if nat_eq n 8
    then "\\b"
    else if leb 32 n && leb n 126
    then Str.◌∷◌ c Str.[]
    else rest

read_shorter :
    (c : Char) (x rest : String)
    → read_char (Str.◌++◌ rest x) ≡ (code c, x)
    → read_char (Str.◌++◌ (shorter c rest) x) ≡ (code c, x)
read_shorter c x rest h = ground (
  arith,
  h,
  read_direct c x,
  read_short (char 34 tt) x,
  read_short (char 92 tt) x,
  read_short (char 110 tt) x,
  read_short (char 114 tt) x,
  read_short (char 116 tt) x,
  read_short (char 102 tt) x,
  read_short (char 98 tt) x,
)

-- What is written for a character is read as that character, whatever follows.
pub read-escaped : (c : Char) (x : String) → read_char (Str.◌++◌ (escaped c) x) ≡ (code c, x)
unfolding escaped
read-escaped c x =
    read_shorter c x (if ltb (code c) 65536 then unicode_escape (code c) else surrogates (code c))
      (read_coded c x)
