-- ===== src/Telemetry/TraceId.antt =====
-- The length of a trace id of packages/telemetry/otel.py.
use Prim.Native.Nat.{◌*◌, ◌/◌, ◌%◌, ◌^◌}
use mathlib.Core.Logic.{dite}
use mathlib.Core.WellFounded.{Acc}
use native.Mathlib.Decide.{dec_lt}
use nervora.Base.{
  ℕ, zero, suc, ◌+◌, ◌-◌, ◌≤◌, ◌<◌, ◌≢◌, String, true, false, List, [], ◌∷◌, ◌++◌, ◌≡◌, refl, ap,
  arith, none, some, length, length-append,
}
use nervora.Numbers.Positional.{
  below, lt_suc, le_of_not_lt, digits, digits_before, chars, chars-text_of,
}
use nervora.Telemetry.{sixteenth_lt, hex_digits, zeros, format_032x, current_trace_id}

-- 16 ^ k
abbrev power : ℕ → ℕ
power zero = 1
power (suc k) = 16 * power k

-- Both branches of a test are short enough.
length-dite_le :
    {P : Type 0} (d : Dec P) (f : P → List ℕ) (g : ¬ P → List ℕ) (m : ℕ)
    → ((p : P) → length (f p) ≤ m)
    → ((p : ¬ P) → length (g p) ≤ m)
    → length (dite d f g) ≤ m
length-dite_le (yes p) f g m hf hg = hf p
length-dite_le (no p) f g m hf hg = hg p

module _ (falls : (n : ℕ) → 16 ≤ n → n / 16 < n) where
  length-digits_before_le :
      (k n : ℕ) (a : Acc ◌<◌ n) (ds : List ℕ)
      → n < power (suc k)
      → length (digits_before 16 falls n a ds) ≤ suc k + length ds
  unfolding digits_before
  length-digits_before_le zero n (Acc.intro _ smaller) ds h =
      length-dite_le (dec_lt n 16) _ _ _ (λ p. omega arith) (λ p. absurd (omega (arith, h, p)))
  length-digits_before_le (suc k) n (Acc.intro _ smaller) ds h =
      length-dite_le (dec_lt n 16) _ _ _ (λ p. omega arith)
        (λ p. omega (
          arith,
          length-digits_before_le k (n / 16) (smaller (n / 16) (falls n (le_of_not_lt 16 n p)))
              ((n % 16) ∷ ds) (omega (arith, h)),
        ))

length-zeros : (n : ℕ) → length (zeros n) ≡ n
length-zeros zero = refl
length-zeros (suc n) = ap suc (length-zeros n)

length-hex_digits_le : (n : ℕ) → n < 2 ^ 128 → length (hex_digits n) ≤ 32
unfolding hex_digits digits
length-hex_digits_le n h =
    length-digits_before_le sixteenth_lt 31 n (below (suc n) n (lt_suc n)) [] h

chars-format_032x : (n : ℕ) → n < 2 ^ 128 → chars (format_032x n) ≡ 32
unfolding format_032x
chars-format_032x n h = omega (
  arith,
  chars-text_of (zeros (32 - length (hex_digits n)) ++ hex_digits n),
  length-append (zeros (32 - length (hex_digits n))) (hex_digits n),
  length-zeros (32 - length (hex_digits n)),
  length-hex_digits_le n h,
)

-- The trace id of a span, a number of 128 bits that is not 0, is given as a text of exactly 32
-- characters; without OpenTelemetry, and for the invalid id 0, none is given.
pub current_trace_id-chars :
    (id : ℕ)
    → id < 2 ^ 128
    → id ≢ 0
    → ((t : String) × (current_trace_id true (some id) ≡ some t) × (chars t ≡ 32))
      × (current_trace_id false (some id) ≡ none)
      × (current_trace_id true (some 0) ≡ none)
unfolding current_trace_id
current_trace_id-chars zero h ne = absurd (ne refl)
current_trace_id-chars (suc n) h ne =
    ((format_032x (suc n), refl, chars-format_032x (suc n) h), refl, refl)
