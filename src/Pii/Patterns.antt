-- ===== src/Pii/Patterns.antt =====
-- packages/pii/redactor.py: the expressions of `_PATTERNS`.
--
-- What `\d`, `\w` and `\s` are is a table of Unicode, which `re` reads: an argument.
use nervora.Base.{ℕ, String, Bool, List, [], ◌∷◌, ◌&&◌, ◌||◌, leb, nat_eq}
use nervora.Pii.{Pattern}
use nervora.Pii.Regex.{
  Regex, one, seq, maybe, times, upto, many, boundary, not_before, not_after, search, sub,
}

pub record Unicode : Type 0 where
  pub is_digit : ℕ → Bool
  pub is_word : ℕ → Bool
  pub is_space : ℕ → Bool

abbrev between : ℕ → ℕ → ℕ → Bool
between low high c = leb low c && leb c high

abbrev is : ℕ → ℕ → Bool
is d c = nat_eq c d

-- `[A-Z]`, `[A-Za-z]`, `[A-Z0-9]` and `[A-Za-z0-9]`
abbrev upper : ℕ → Bool
upper = between b'A' b'Z'

abbrev letter : ℕ → Bool
letter c = upper c || between b'a' b'z' c

abbrev number : ℕ → Bool
number = between b'0' b'9'

abbrev letter_or_number : ℕ → Bool
letter_or_number c = letter c || number c

-- `[A-Za-z0-9._%+-]` and `[A-Za-z0-9.-]`
abbrev local_part : ℕ → Bool
local_part c = letter_or_number c || is b'.' c || is b'_' c || is b'%' c || is b'+' c || is b'-' c

abbrev domain_part : ℕ → Bool
domain_part c = letter_or_number c || is b'.' c || is b'-' c

-- `r+` of a class, and `r{n,}`
abbrev some_of : (ℕ → Bool) → Regex
some_of p = seq (one p) (many p)

abbrev at_least : ℕ → (ℕ → Bool) → Regex
at_least n p = seq (times n (one p)) (many p)

unfoldable pub email : Regex
email =
    seq (some_of local_part)
      (seq (one (is b'@')) (seq (some_of domain_part) (seq (one (is b'.')) (at_least 2 letter))))

module _ (u : Unicode) where
  unfoldable pub iban : Regex
  iban = seq (boundary u.is_word) (
      seq (times 2 (one upper)) (
        seq (times 2 (one u.is_digit)) (
          seq (times 11 (one (λ c. upper c || number c)))
            (seq (upto 19 (one (λ c. upper c || number c))) (boundary u.is_word)))))

  -- `[\d\s().-]`
  abbrev pub phone_part : ℕ → Bool
  phone_part c = u.is_digit c || u.is_space c || is b'(' c || is b')' c || is b'.' c || is b'-' c

  unfoldable pub phone : Regex
  phone = seq (not_after u.is_digit) (
      seq (maybe (one (is b'+'))) (
        seq (one u.is_digit)
          (seq (at_least 7 phone_part) (seq (one u.is_digit) (not_before u.is_digit)))))

  unfoldable pub ssn_like : Regex
  ssn_like = seq (boundary u.is_word) (
      seq (times 3 (one u.is_digit)) (
        seq (one (is b'-')) (
          seq (times 2 (one u.is_digit))
            (seq (one (is b'-')) (seq (times 4 (one u.is_digit)) (boundary u.is_word))))))

  -- `\d[ -]?`
  abbrev pub group : Regex
  group = seq (one u.is_digit) (maybe (one (λ c. is b' ' c || is b'-' c)))

  unfoldable pub credit_card : Regex
  credit_card =
      seq (boundary u.is_word) (seq (times 13 group) (seq (upto 3 group) (boundary u.is_word)))

  -- The values of `_PATTERNS`.
  abbrev pub expressions : List Regex
  expressions = email ∷ iban ∷ phone ∷ ssn_like ∷ credit_card ∷ []

  abbrev pub compiled : String → Regex → Pattern
  compiled name r = record { name = name; search = search r; sub = sub r }

  -- `_PATTERNS`
  abbrev pub patterns : List Pattern
  patterns =
      compiled "email" email
      ∷ compiled "iban" iban
      ∷ compiled "phone" phone
      ∷ compiled "ssn_like" ssn_like
      ∷ compiled "credit_card" credit_card
      ∷ []

abbrev pub ascii : Unicode
ascii = record {
  is_digit = number;
  is_word = λ c. letter_or_number c || is b'_' c;
  is_space = λ c. is b' ' c || between 9 13 c;
}
