-- ===== src/Pii/Shadowing.antt =====
-- Which of the five expressions of packages/pii/redactor.py stand in the way of a later one: `redact_text`
-- tries "phone" before "ssn_like", and replaces what it finds.
use Prim.Native.Char.{Char, code}
use nervora.Base.{
  ℕ, zero, suc, ◌≤◌, String, Bool, true, false, ◌≡◌, refl, arith, Option, none, some, ◌||◌, ◌⊎◌,
  inl, inr, nat_eq, nat_eq_iff, Bool-cases,
}
use nervora.Pii.Regex.{one, seq, maybe, times, upto, many, Place, is_in, first_char, differ, search}
use nervora.Pii.Patterns.{Unicode, phone, phone_part, ssn_like, group, credit_card}
use nervora.Pii.Language.{
  Matches, class, both, left, taken, upto_stop, upto_more, times_zero, times_suc, many_stop,
  many_more, at_boundary, at_not_before, at_not_after, Occurs, here, later, search_iff,
}

-- A character of the one class is of the other.
one-weaken :
    {p q : ℕ → Bool} {x y : Place}
    → ((c : ℕ) → p c ≡ true → q c ≡ true)
    → Matches (one p) x y
    → Matches (one q) x y
one-weaken w (class c h) = class c (w (code c) h)

-- What the Unicode tables say of digits, and of the two separators in card numbers.
pub record KnowsDigits (u : Unicode) : Type 0 where
  pub digits_are_words : (c : ℕ) → u.is_digit c ≡ true → u.is_word c ≡ true
  pub blank_is_space : u.is_space b' ' ≡ true
  pub blank_no_digit : u.is_digit b' ' ≡ false
  pub dash_no_digit : u.is_digit b'-' ≡ false

module _ (u : Unicode) (tables : KnowsDigits u) where
  open tables use {digits_are_words, blank_is_space, blank_no_digit, dash_no_digit}

  -- A word boundary before a digit has no digit before it, and one after a digit none after it.
  no_digit :
      (o : Option Char) (b : Bool)
      → b ≡ true
      → differ (is_in u.is_word o) b ≡ true
      → is_in u.is_digit o ≡ false
  no_digit none b t e = refl
  no_digit (some c) b t e = ground (arith, digits_are_words (code c))

  boundary_before :
      {x y : Place}
      → differ (is_in u.is_word x.before) (is_in u.is_word (first_char x.rest)) ≡ true
      → Matches (one u.is_digit) x y
      → is_in u.is_digit x.before ≡ false
  boundary_before e (class {b = b} c h) =
      no_digit b (u.is_word (code c)) (digits_are_words (code c) h) e

  differ_swap : (a b : Bool) → differ a b ≡ true → differ b a ≡ true
  differ_swap true b e = ground arith
  differ_swap false b e = ground arith

  boundary_after :
      {x y : Place}
      → Matches (one u.is_digit) x y
      → differ (is_in u.is_word y.before) (is_in u.is_word (first_char y.rest)) ≡ true
      → is_in u.is_digit (first_char y.rest) ≡ false
  boundary_after (class {s = s} c h) e =
      no_digit (first_char s) (u.is_word (code c)) (digits_are_words (code c) h)
        (differ_swap (u.is_word (code c)) (is_in u.is_word (first_char s)) e)

  part_digit : (c : ℕ) → u.is_digit c ≡ true → phone_part u c ≡ true
  part_digit c h = ground arith

  part_dash : (c : ℕ) → nat_eq c b'-' ≡ true → phone_part u c ≡ true
  part_dash c h = ground arith

  part : {x y : Place} → Matches (one u.is_digit) x y → Matches (one (phone_part u)) x y
  part m = one-weaken part_digit m

  dash_part :
      {x y : Place} → Matches (one (λ c. nat_eq c b'-')) x y → Matches (one (phone_part u)) x y
  dash_part m = one-weaken part_dash m

  phone_here : {x y : Place} → Matches (ssn_like u) x y → Matches (phone u) x y
  unfolding ssn_like phone
  phone_here
        (both (at_boundary before) (
          both (times_suc m1 (times_suc m2 (times_suc m3 times_zero))) (
            both dash (
              both (times_suc m4 (times_suc m5 times_zero)) (
                both dash' (
                  both
                    (times_suc m6 (times_suc m7 (times_suc m8 (times_suc m9 times_zero))))
                    (at_boundary after))))))) =
      both (at_not_after (boundary_before before m1)) (
        both left (
          both m1 (
            both
              (both
                (times_suc (part m2) (
                  times_suc (part m3) (
                    times_suc (dash_part dash) (
                      times_suc (part m4) (
                        times_suc (part m5)
                          (times_suc (dash_part dash') (times_suc (part m6) times_zero)))))))
                (many_more (part m7) (many_more (part m8) many_stop)))
              (both m9 (at_not_before (boundary_after m9 after))))))

  ssn_like-phone : {b : Option Char} {s : String} → Occurs (ssn_like u) b s → Occurs (phone u) b s
  ssn_like-phone (here y m) = here y (phone_here m)
  ssn_like-phone (later o) = later (ssn_like-phone o)

  -- `n` characters that may stand inside a phone number.
  data Parts : ℕ → Place → Place → Type 0 where
    no_parts : {x : Place} → Parts zero x x
    more_parts :
        {n : ℕ} {x y z : Place} → Matches (one (phone_part u)) x y → Parts n y z → Parts (suc n) x z

  Parts-many : {n : ℕ} {x y : Place} → Parts n x y → Matches (many (phone_part u)) x y
  Parts-many no_parts = many_stop
  Parts-many (more_parts m ps) = many_more m (Parts-many ps)

  Parts-at_least :
      (k : ℕ) {n : ℕ} {x y : Place}
      → k ≤ n
      → Parts n x y
      → Matches (seq (times k (one (phone_part u))) (many (phone_part u))) x y
  Parts-at_least zero le ps = both times_zero (Parts-many ps)
  Parts-at_least (suc k) le no_parts = absurd (omega (arith, le))
  Parts-at_least (suc k) le (more_parts m ps) = first m (Parts-at_least k (omega (arith, le)) ps)
    where
      first :
          {k : ℕ} {x y z : Place}
          → Matches (one (phone_part u)) x y
          → Matches (seq (times k (one (phone_part u))) (many (phone_part u))) y z
          → Matches (seq (times (suc k) (one (phone_part u))) (many (phone_part u))) x z
      first m (both ts r) = both (times_suc m ts) r

  abbrev separator : ℕ → Bool
  separator c = nat_eq c b' ' || nat_eq c b'-'

  part_separator : (c : ℕ) → separator c ≡ true → phone_part u c ≡ true
  part_separator c h = elim (Bool-cases (nat_eq c b' ')) [
    | inl e ↦ rw ((nat_eq_iff c b' ').0 e) (part_blank (u.is_digit b' '))
    | inr e ↦ part_dash c (ground (arith, h, e))
  ]
    where
      part_blank :
          (b : Bool)
          → (b
              || u.is_space b' '
              || nat_eq b' ' b'('
              || nat_eq b' ' b')'
              || nat_eq b' ' b'.'
              || nat_eq b' ' b'-')
            ≡ true
      part_blank b = ground (arith, blank_is_space)

  no_digit_separator : (c : ℕ) → separator c ≡ true → u.is_digit c ≡ false
  no_digit_separator c h = elim (Bool-cases (nat_eq c b' ')) [
    | inl e ↦ rw ((nat_eq_iff c b' ').0 e) blank_no_digit
    | inr e ↦ rw ((nat_eq_iff c b'-').0 (ground (arith, h, e))) dash_no_digit
  ]

  -- `n` digits of a card number, each with the separator that may follow it.
  data Groups : ℕ → Place → Place → Type 0 where
    no_groups : {x : Place} → Groups zero x x
    more_groups :
        {n : ℕ} {x y z : Place} → Matches (group u) x y → Groups n y z → Groups (suc n) x z

  times-Groups :
      (n : ℕ) {k : ℕ} {x y z : Place}
      → Matches (times n (group u)) x y
      → Groups k y z
      → (m : ℕ) × (n ≤ m) × Groups m x z
  times-Groups zero times_zero gs = (_, omega arith, gs)
  times-Groups (suc n) (times_suc g ts) gs =
      let (m, le, all) = times-Groups n ts gs in (suc m, omega (arith, le), more_groups g all)

  upto-Groups : {n : ℕ} {x y : Place} → Matches (upto n (group u)) x y → (m : ℕ) × Groups m x y
  upto-Groups upto_stop = (0, no_groups)
  upto-Groups (upto_more g us) = let (m, gs) = upto-Groups us in (suc m, more_groups g gs)

  -- A separator is one part more.
  skip :
      {k : ℕ} {x y z : Place}
      → Matches (maybe (one separator)) x y
      → Parts k y z
      → (m : ℕ) × (k ≤ m) × Parts m x z
  skip left ps = (_, omega arith, ps)
  skip (taken m) ps = (_, omega arith, more_parts (one-weaken part_separator m) ps)

  -- The groups as parts, the last digit, and the separator that may follow it.
  spine :
      {n : ℕ} {x y : Place}
      → Groups (suc n) x y
      → (k : ℕ) × (w : Place) × (w' : Place) × (n ≤ k)
        × Parts k x w
        × Matches (one u.is_digit) w w'
        × Matches (maybe (one separator)) w' y
  spine (more_groups (both d sep) no_groups) = (0, _, _, omega arith, no_parts, d, sep)
  spine (more_groups (both d sep) (more_groups g gs)) =
      let (k, w, w', le, ps, last, end) = spine (more_groups g gs) in
      let (m, le', ps') = skip sep ps in
      (suc m, w, w', omega (arith, le, le'), more_parts (part d) ps', last, end)

  -- No digit follows the last one.
  end_of :
      {x y z : Place}
      → Matches (one u.is_digit) x y
      → Matches (maybe (one separator)) y z
      → differ (is_in u.is_word z.before) (is_in u.is_word (first_char z.rest)) ≡ true
      → is_in u.is_digit (first_char y.rest) ≡ false
  end_of d left e = boundary_after d e
  end_of d (taken (class c h)) e = no_digit_separator (code c) h

  phone_at :
      {n : ℕ} {x y : Place}
      → 8 ≤ n
      → Groups (suc n) x y
      → differ (is_in u.is_word x.before) (is_in u.is_word (first_char x.rest)) ≡ true
      → differ (is_in u.is_word y.before) (is_in u.is_word (first_char y.rest)) ≡ true
      → (w : Place) × Matches (phone u) x w
  unfolding phone
  phone_at le (more_groups (both d sep) no_groups) before after = absurd (omega (arith, le))
  phone_at le (more_groups (both d sep) (more_groups g gs)) before after =
      let (k, w, w', enough, ps, last, end) = spine (more_groups g gs) in
      let (m, le', ps') = skip sep ps in
      (
        w',
        both (at_not_after (boundary_before before d)) (
            both left (
              both d (
                both (Parts-at_least 7 (omega (arith, le, enough, le')) ps')
                  (both last (at_not_before (end_of last end after)))))),
      )

  card_here : {x y : Place} → Matches (credit_card u) x y → (w : Place) × Matches (phone u) x w
  unfolding credit_card
  card_here (both (at_boundary before) (both ts (both us (at_boundary after)))) =
      let (k, more) = upto-Groups us in
      let (m, le, gs) = times-Groups 13 ts more in many_groups m le gs before after
    where
      many_groups :
          {x y : Place} (m : ℕ)
          → 13 ≤ m
          → Groups m x y
          → differ (is_in u.is_word x.before) (is_in u.is_word (first_char x.rest)) ≡ true
          → differ (is_in u.is_word y.before) (is_in u.is_word (first_char y.rest)) ≡ true
          → (w : Place) × Matches (phone u) x w
      many_groups zero le gs before after = absurd (omega (arith, le))
      many_groups (suc m) le gs before after = phone_at (omega (arith, le)) gs before after

  credit_card-phone :
      {b : Option Char} {s : String} → Occurs (credit_card u) b s → Occurs (phone u) b s
  credit_card-phone (here y m) = let (w, p) = card_here m in here w p
  credit_card-phone (later o) = later (credit_card-phone o)

  -- A text in which "ssn_like" or "credit_card" finds something is one in which "phone", which is
  -- tried before them, finds something too, if digits are word characters, a blank is white space,
  -- and neither it nor the dash is a digit.
  pub search-phone_first :
      (text : String)
      → (search (ssn_like u) text ≡ true) ⊎ (search (credit_card u) text ≡ true)
      → search (phone u) text ≡ true
  search-phone_first text (inl found) =
      (search_iff (phone u) text).1 (ssn_like-phone ((search_iff (ssn_like u) text).0 found))
  search-phone_first text (inr found) =
      (search_iff (phone u) text).1 (credit_card-phone ((search_iff (credit_card u) text).0 found))
