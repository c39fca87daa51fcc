-- ===== src/Common/Hashing/Quoting.antt =====
-- That quoted texts of json.dumps, as packages/common/ids.py uses it, do not run into each other.
use Prim.Native.Nat.{◌/◌, ◌%◌}
use Prim.Native.Char.{Char, char, code}
use Prim.Native.String as Str
use Prim.Native.String.append
use text.Mathlib.TextEquality.{Char-path}
use text.Mathlib.TextLemmas.{append_assoc}
use nervora.Base.{ℕ, String, ◌≡◌, ◌≢◌, refl, ap, ◌∙◌, sym, arith, ltb, ◌+◌, ◌-◌, if◌then◌else◌}
use nervora.Common.Hashing.{unicode_escape, escaped, escape, quoted}
use nervora.Common.Hashing.Hexadecimal.{read_char}
use nervora.Common.Hashing.Escapes.{
  read-escaped, shorter, surrogates, append-unicode_escape, append_two,
}

-- The number of the first character, 0 if there is none.
abbrev pub first_code : String → ℕ
first_code Str.[] = 0
first_code (Str.◌∷◌ c s) = code c

abbrev pub rest_of : String → String
rest_of Str.[] = ""
rest_of (Str.◌∷◌ c s) = s

unit-first : (n : ℕ) (x : String) → first_code (Str.◌++◌ (unicode_escape n) x) ≡ 92
unit-first n x = rw (append-unicode_escape n x) refl

coded-first :
    (c : Char) (x : String)
    → first_code
        (Str.◌++◌ (if ltb (code c) 65536 then unicode_escape (code c) else surrogates (code c)) x)
      ≡ 92
coded-first c x = ground (
  arith,
  unit-first (code c) x,
  append_assoc (unicode_escape (55296 + (code c - 65536) / 1024 % 1024))
      (Str.◌++◌ (unicode_escape (56320 + (code c - 65536) % 1024)) "") x,
  unit-first (55296 + (code c - 65536) / 1024 % 1024)
      (Str.◌++◌ (Str.◌++◌ (unicode_escape (56320 + (code c - 65536) % 1024)) "") x),
)

short-first :
    (a : Char) (x : String) → first_code (Str.◌++◌ (Str.◌∷◌ (char 92 tt) (Str.◌∷◌ a Str.[])) x) ≡ 92
short-first a x = rw (append_two (char 92 tt) a x) refl

direct-first : (c : Char) (x : String) → first_code (Str.◌++◌ (Str.◌∷◌ c Str.[]) x) ≡ code c
direct-first c x = rw (append.cons c "" x) refl

shorter-first :
    (c : Char) (rest x : String)
    → first_code (Str.◌++◌ rest x) ≡ 92
    → first_code (Str.◌++◌ (shorter c rest) x) ≢ 34
shorter-first c rest x h = ground (
  arith,
  h,
  direct-first c x,
  short-first (char 34 tt) x,
  short-first (char 92 tt) x,
  short-first (char 110 tt) x,
  short-first (char 114 tt) x,
  short-first (char 116 tt) x,
  short-first (char 102 tt) x,
  short-first (char 98 tt) x,
)

escaped-first : (c : Char) (x : String) → first_code (Str.◌++◌ (escaped c) x) ≢ 34
unfolding escaped
escaped-first c x =
    shorter-first c (if ltb (code c) 65536 then unicode_escape (code c) else surrogates (code c)) x
      (coded-first c x)

append-escape :
    (c : Char) (s x : String)
    → Str.◌++◌ (escape (Str.◌∷◌ c s)) x ≡ Str.◌++◌ (escaped c) (Str.◌++◌ (escape s) x)
unfolding escape
append-escape c s x = simp (append_assoc, append.nil)

append-escape_nil : (x : String) → Str.◌++◌ (escape "") x ≡ x
unfolding escape
append-escape_nil x = append.nil x

quote_first : (x : String) → first_code (Str.◌++◌ (escape "") (Str.◌∷◌ (char 34 tt) x)) ≡ 34
quote_first x = rw (append-escape_nil (Str.◌∷◌ (char 34 tt) x)) refl

escape_first : (c : Char) (s x : String) → first_code (Str.◌++◌ (escape (Str.◌∷◌ c s)) x) ≢ 34
escape_first c s x = rw (append-escape c s x) (escaped-first c (Str.◌++◌ (escape s) x))

escaped-injective :
    (c d : Char) (x y : String)
    → Str.◌++◌ (escaped c) x ≡ Str.◌++◌ (escaped d) y
    → (c ≡ d) × (x ≡ y)
escaped-injective c d x y h =
    let same = sym (read-escaped c x) ∙ ap read_char h ∙ read-escaped d y in
    (Char-path c d (ap (λ p. p.0) same), ap (λ p. p.1) same)

escape-injective :
    (s t x y : String)
    → Str.◌++◌ (escape s) (Str.◌∷◌ (char 34 tt) x) ≡ Str.◌++◌ (escape t) (Str.◌∷◌ (char 34 tt) y)
    → (s ≡ t) × (x ≡ y)
escape-injective Str.[] Str.[] x y h = (
  refl,
  ap rest_of (
      sym (append-escape_nil (Str.◌∷◌ (char 34 tt) x))
      ∙ h
      ∙ append-escape_nil (Str.◌∷◌ (char 34 tt) y)),
)
escape-injective Str.[] (Str.◌∷◌ d t) x y h =
    absurd (escape_first d t (Str.◌∷◌ (char 34 tt) y) (sym (ap first_code h) ∙ quote_first x))
escape-injective (Str.◌∷◌ c s) Str.[] x y h =
    absurd (escape_first c s (Str.◌∷◌ (char 34 tt) x) (ap first_code h ∙ quote_first y))
escape-injective (Str.◌∷◌ c s) (Str.◌∷◌ d t) x y h =
    let heads =
      escaped-injective c d (Str.◌++◌ (escape s) (Str.◌∷◌ (char 34 tt) x))
        (Str.◌++◌ (escape t) (Str.◌∷◌ (char 34 tt) y))
        (sym (append-escape c s (Str.◌∷◌ (char 34 tt) x))
          ∙ h
          ∙ append-escape d t (Str.◌∷◌ (char 34 tt) y)) in
    let tails = escape-injective s t x y heads.1 in (λ i. Str.◌∷◌ (heads.0 i) (tails.0 i), tails.1)

pub append-quoted :
    (s x : String)
    → Str.◌++◌ (quoted s) x ≡ Str.◌∷◌ (char 34 tt) (Str.◌++◌ (escape s) (Str.◌∷◌ (char 34 tt) x))
unfolding quoted
append-quoted s x = simp (append_assoc, append.cons (char 34 tt) "", append.cons, append.nil)

-- Whatever follows them, quoted texts are told apart, and what follows is too.
pub quoted-injective :
    (s t x y : String) → Str.◌++◌ (quoted s) x ≡ Str.◌++◌ (quoted t) y → (s ≡ t) × (x ≡ y)
quoted-injective s t x y h =
    escape-injective s t x y (ap rest_of (sym (append-quoted s x) ∙ h ∙ append-quoted t y))
