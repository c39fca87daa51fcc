-- ===== src/Numbers/Integers.antt =====
-- Sums and differences of Python ints.
use nervora.Base.{ℕ, suc, ◌+◌, ◌-◌, ltb, ◌≡◌, arith, List, [], ◌∷◌, if◌then◌else◌}
use nervora.Json.{ℤ, pos, negsuc}

-- `a - b` of two ints that are not negative.
abbrev pub difference : ℕ → ℕ → ℤ
difference a b = if ltb a b then negsuc (b - a - 1) else pos (a - b)

infixl 6 ◌+ℤ◌ ◌-ℤ◌
abbrev pub ◌+ℤ◌ : ℤ → ℤ → ℤ
pos a +ℤ pos b = pos (a + b)
pos a +ℤ negsuc b = difference a (suc b)
negsuc a +ℤ pos b = difference b (suc a)
negsuc a +ℤ negsuc b = negsuc (suc (a + b))

abbrev pub ◌-ℤ◌ : ℤ → ℤ → ℤ
a -ℤ pos b = a +ℤ difference 0 b
a -ℤ negsuc b = a +ℤ pos (suc b)

-- `sum(xs)`, from the left.
abbrev pub sum : List ℤ → ℤ → ℤ
sum [] total = total
sum (x ∷ xs) total = sum xs (total +ℤ x)

pub difference-add : (a b c d : ℕ) → difference a b +ℤ difference c d ≡ difference (a + c) (b + d)
difference-add a b c d = ground arith

pub pos-sub : (a b : ℕ) → pos a -ℤ pos b ≡ difference a b
pos-sub a b = ground arith
