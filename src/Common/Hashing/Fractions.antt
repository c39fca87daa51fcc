-- ===== src/Common/Hashing/Fractions.antt =====
-- A repr of floats that has what packages/common/ids.py relies on in Python's.
use Prim.Native.Char.{char}
use Prim.Native.String as Str
use Prim.Native.String.append
use package.text.Mathlib.TextLemmas.{append-nil}
use nervora.Base.{ℕ, String, true, ◌≡◌, refl, ap, ◌∙◌, sym, arith}
use nervora.Json.{ℤ}
use nervora.Numbers.Decimal.{decimal, int_text}
use nervora.Common.Hashing.Escapes.{append_one}
use nervora.Common.Hashing.Quoting.{rest_of}
use nervora.Common.Hashing.Decimals.{int_text-injective, int_text-first, decimal-injective}
use nervora.Common.Hashing.Numbers.{
  are_numerals, is_pointed, PrintsFloats, int_text_numerals, decimal_numerals,
}

are_numerals-append :
    (s t : String)
    → are_numerals s ≡ true
    → are_numerals t ≡ true
    → are_numerals (Str.◌++◌ s t) ≡ true
are_numerals-append Str.[] t h k = rw (append.nil t) k
are_numerals-append (Str.◌∷◌ c s) t h k =
    rw (append.cons c s t) (ground (arith, h, k, are_numerals-append s t))

is_pointed-append : (s t : String) → is_pointed t ≡ true → is_pointed (Str.◌++◌ s t) ≡ true
is_pointed-append Str.[] t k = rw (append.nil t) k
is_pointed-append (Str.◌∷◌ c s) t k =
    rw (append.cons c s t) (ground (arith, is_pointed-append s t k))

-- A fraction by its numerator and the exponent of its denominator.
abbrev pub fraction : ℤ → ℕ → String
fraction m k = Str.◌++◌ (int_text m) (Str.◌++◌ "." (decimal k))

point : (k : ℕ) → Str.◌++◌ "." (decimal k) ≡ Str.◌∷◌ (char 46 tt) (decimal k)
point k = append_one (char 46 tt) (decimal k)

fraction-distinct : (m n : ℤ) (k l : ℕ) → fraction m k ≡ fraction n l → (m ≡ n) × (k ≡ l)
fraction-distinct m n k l h =
    let ints =
      int_text-injective m n (Str.◌++◌ "." (decimal k)) (Str.◌++◌ "." (decimal l))
        (rw (point k) refl) (rw (point l) refl) h in
    let rest = ap rest_of (sym (point k) ∙ ints.1 ∙ point l) in
    (
      ints.0,
      (decimal-injective k l "" "" refl refl
          (append-nil (decimal k) ∙ rest ∙ sym (append-nil (decimal l)))).0,
    )

pub fraction-PrintsFloats : PrintsFloats fraction
fraction-PrintsFloats = record {
  begins = λ m k. int_text-first m (Str.◌++◌ "." (decimal k));
  numeral = λ m k.
      are_numerals-append (int_text m) (Str.◌++◌ "." (decimal k)) (int_text_numerals m).0
        (rw (point k) (decimal_numerals k));
  pointed = λ m k. is_pointed-append (int_text m) (Str.◌++◌ "." (decimal k)) (rw (point k) refl);
  distinct = λ m n k l hm hn h. fraction-distinct m n k l h;
}
