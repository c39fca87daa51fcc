-- ===== src/Numbers/Doubles.antt =====
-- IEEE 754 doubles, as the fractions m / 2 ^ k that they are: the nearest double to a fraction,
-- which is what Python's `/` and `*` return, and `round(x, 2)`. The fractions are not negative; a
-- sign is put in front.
use Prim.Native.Nat.{◌*◌, ◌/◌, ◌%◌, ◌^◌}
use nervora.Base.{ℕ, zero, suc, ltb, nat_eq, Bool, ◌&&◌, ◌||◌, ◌≡◌, refl, if◌then◌else◌}
use nervora.Json.{pos, negsuc, Json, float}

-- The fraction num / den, to the nearest whole number, and to the even one if two are as near.
unfoldable pub half_even : ℕ → ℕ → ℕ
half_even num den =
    let q = num / den in
    let r = num % den in
    if ltb den (2 * r) || (nat_eq (2 * r) den && nat_eq (q % 2) 1) then suc q else q

-- The numerator is doubled until the fraction has 53 bits before the point, at most 1074 times,
-- which is the smallest exponent that a double has. `k` counts the doublings.
unfoldable pub grow : ℕ → ℕ → ℕ → ℕ → ℕ × ℕ
grow zero num den k = (num, k)
grow (suc left) num den k = elim (ltb num (2 ^ 52 * den)) [
  | Bool.true ↦ grow left (2 * num) den (suc k)
  | Bool.false ↦ (num, k)
]

-- The denominator of a fraction of more than 53 bits, doubled as often as needed.
unfoldable pub shrink : ℕ → ℕ → ℕ → ℕ → ℕ × ℕ
shrink zero num den k = (den, k)
shrink (suc left) num den k = elim (ltb num (2 ^ 53 * den)) [
  | Bool.true ↦ (den, k)
  | Bool.false ↦ shrink left num (2 * den) (suc k)
]

-- m / 2 ^ k in lowest terms.
unfoldable pub lowest : ℕ → ℕ → ℕ × ℕ
lowest m zero = (m, zero)
lowest m (suc k) = elim (nat_eq (m % 2) 0) [
  | Bool.true ↦ lowest (m / 2) k
  | Bool.false ↦ (m, suc k)
]

-- The double nearest to num / den, for a positive `den`.
unfoldable pub nearest : ℕ → ℕ → ℕ × ℕ
unfolding half_even grow shrink lowest
nearest zero den = (0, 0)
nearest (suc n) den =
    let (num, k) = grow 1074 (suc n) den 0 in
    let (large, j) = shrink 971 num den 0 in lowest (half_even num large * 2 ^ j) k

-- `round(x, 2)` of the double m / 2 ^ k: the exact value to two decimals, then the nearest double.
unfoldable pub round2 : ℕ × ℕ → ℕ × ℕ
unfolding nearest half_even
round2 (m, k) = nearest (half_even (m * 100) (2 ^ k)) 100

-- `round(num / den * 100, 2)`
unfoldable pub percentage : ℕ → ℕ → ℕ × ℕ
unfolding nearest round2
percentage num den = let (m, k) = nearest num den in round2 (nearest (m * 100) (2 ^ k))

abbrev pub positive_double : ℕ × ℕ → Json
positive_double (m, k) = float (pos m) k

-- The negative of a double; that of 0 is not asked for.
abbrev pub negative_double : ℕ × ℕ → Json
negative_double (zero, k) = float (pos 0) k
negative_double (suc m, k) = float (negsuc m) k

a_third : nearest 1 3 ≡ (6004799503160661, 54)
unfolding nearest half_even grow shrink lowest
a_third = refl

percentages :
    (percentage 22300 480000 ≡ (2617717283409101, 49)) × (percentage 11800 40000 ≡ (59, 1))
unfolding percentage nearest half_even grow shrink lowest round2
percentages = (refl, refl)
