-- ===== src/Numbers/Decimal.antt =====
-- `str(n)` of an int.
use Prim.Native.Nat.{◌/◌}
use native.Mathlib.Decide.{dec_lt}
use nervora.Base.{ℕ, suc, ◌≤◌, ◌<◌, String, ◌≡◌, refl, arith, [], ◌∷◌, fstring}
use nervora.Json.{ℤ, pos, negsuc}
use nervora.Numbers.Positional.{digits, text_of}

pub tenth_lt : (n : ℕ) → 10 ≤ n → n / 10 < n
tenth_lt n h = omega arith

unfoldable pub decimal : ℕ → String
unfolding digits text_of tenth_lt
decimal n = text_of (digits 10 tenth_lt n)

unfoldable pub int_text : ℤ → String
unfolding decimal
int_text (pos n) = decimal n
int_text (negsuc n) = fstring ("-" ∷ decimal (suc n) ∷ [])

int_texts :
    (int_text (pos 24500) ≡ "24500") × (int_text (negsuc 9) ≡ "-10") × (int_text (pos 0) ≡ "0")
unfolding int_text dec_lt
int_texts = (refl, refl, refl)
