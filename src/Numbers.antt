-- ===== src/Numbers.antt =====
-- Python's numbers as the program computes with them: sums and differences of int, the text of an
-- int, and the doubles of `/`, `*` and `round`.
pub mod Integers
pub mod Positional
pub mod Decimal
pub mod Doubles
