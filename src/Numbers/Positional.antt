-- ===== src/Numbers/Positional.antt =====
-- A number by its digits in a base, most significant first, and as text.
use Prim.Native.Nat.{◌/◌, ◌%◌}
use Prim.Native.Char.{Char, nul}
use Prim.Native.String as Str
use mathlib.Core.Logic.{dite}
use mathlib.Core.WellFounded.{Acc}
use native.Mathlib.Decide.{dec_lt}
use nervora.Base.{ℕ, zero, suc, ◌≤◌, ◌<◌, String, List, [], ◌∷◌, ◌≡◌, refl, arith, length}

pub below : (bound n : ℕ) → n < bound → Acc ◌<◌ n
below zero n h = absurd (omega arith)
below (suc bound) n h = Acc.intro n λ m lt. below bound m (omega arith)

pub le_of_not_lt : (b n : ℕ) → ¬ (n < b) → b ≤ n
le_of_not_lt b n h = omega arith

pub lt_suc : (n : ℕ) → n < suc n
lt_suc n = omega arith

module _ (base : ℕ) (falls : (n : ℕ) → base ≤ n → n / base < n) where
  -- The digits of `n` before those that are found already.
  unfoldable pub digits_before : (n : ℕ) → Acc ◌<◌ n → List ℕ → List ℕ
  digits_before n (Acc.intro _ smaller) ds =
      dite (dec_lt n base) (λ small. n ∷ ds)
        (λ large.
          digits_before (n / base) (smaller (n / base) (falls n (le_of_not_lt base n large)))
            ((n % base) ∷ ds))

  unfoldable pub digits : ℕ → List ℕ
  unfolding digits_before below
  digits n = digits_before n (below (suc n) n (lt_suc n)) []

-- The characters of digits up to f.
unfoldable pub char_at : String → ℕ → Char
char_at Str.[] n = nul
char_at (Str.◌∷◌ c s) zero = c
char_at (Str.◌∷◌ c s) (suc n) = char_at s n

unfoldable pub text_of : List ℕ → String
unfolding char_at
text_of [] = ""
text_of (d ∷ ds) = Str.◌∷◌ (char_at "0123456789abcdef" d) (text_of ds)

-- `len(s)`
abbrev pub chars : String → ℕ
chars Str.[] = 0
chars (Str.◌∷◌ c s) = suc (chars s)

pub chars-text_of : (ds : List ℕ) → chars (text_of ds) ≡ length ds
unfolding text_of
chars-text_of [] = refl
chars-text_of (d ∷ ds) = omega (arith, chars-text_of ds)
