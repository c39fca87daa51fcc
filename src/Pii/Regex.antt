-- ===== src/Pii/Regex.antt =====
-- The part of Python's `re` that packages/pii/redactor.py uses: a backtracking matcher that tries
-- the greedy choice first, `search`, and `sub`.
use Prim.Native.Char.{Char, code}
use Prim.Native.String as Str
use nervora.Base.{
  ℕ, zero, suc, String, Bool, true, false, not, Option, none, some, [], ◌∷◌, fstring,
}

-- `one` is a class of characters, `times n` is `{n}`, `upto n` is `{0,n}`, `many` is `*` of a class,
-- `boundary` is `\b` of the class of word characters, and `not_before` and `not_after` are the
-- lookarounds `(?!…)` and `(?<!…)` of a class.
pub data Regex : Type 0 where
  one : (ℕ → Bool) → Regex
  seq : Regex → Regex → Regex
  maybe : Regex → Regex
  times : ℕ → Regex → Regex
  upto : ℕ → Regex → Regex
  many : (ℕ → Bool) → Regex
  boundary : (ℕ → Bool) → Regex
  not_before : (ℕ → Bool) → Regex
  not_after : (ℕ → Bool) → Regex

-- A place in a text: how many characters of the match were read, the character before the place, if
-- there is one, and the text after it.
pub record Place : Type 0 where
  pub read : ℕ
  pub before : Option Char
  pub rest : String

abbrev pub Next : Type 0
Next = Place → Option ℕ

-- Is the character there, and of the class?
abbrev pub is_in : (ℕ → Bool) → Option Char → Bool
is_in p none = false
is_in p (some c) = p (code c)

abbrev pub first_char : String → Option Char
first_char Str.[] = none
first_char (Str.◌∷◌ c s) = some c

abbrev pub differ : Bool → Bool → Bool
differ true b = not b
differ false b = b

abbrev pub or_try : Option ℕ → Option ℕ → Option ℕ
or_try none y = y
or_try (some n) y = some n

abbrev pub when : Bool → Option ℕ → Option ℕ
when true y = y
when false y = none

abbrev pub advance : ℕ → Char → String → Place
advance n c s = record { read = suc n; before = some c; rest = s }

abbrev pub match_one : (ℕ → Bool) → Place → Next → Option ℕ
match_one p place next = elim place.rest [
  | Str.[] ↦ none
  | Str.◌∷◌ c s ↦ when (p (code c)) (next (advance place.read c s))
]

unfoldable pub match_times : (Place → Next → Option ℕ) → ℕ → Place → Next → Option ℕ
match_times m zero place next = next place
match_times m (suc n) place next = m place (λ place'. match_times m n place' next)

unfoldable pub match_upto : (Place → Next → Option ℕ) → ℕ → Place → Next → Option ℕ
match_upto m zero place next = next place
match_upto m (suc n) place next =
    or_try (m place (λ place'. match_upto m n place' next)) (next place)

unfoldable pub match_many : (ℕ → Bool) → String → ℕ → Option Char → Next → Option ℕ
match_many p Str.[] n b next = next (record { read = n; before = b; rest = "" })
match_many p (Str.◌∷◌ c s) n b next =
    or_try (when (p (code c)) (match_many p s (suc n) (some c) next))
      (next (record { read = n; before = b; rest = Str.◌∷◌ c s }))

-- What the expression followed by `next` matches at a place: the first choice that succeeds.
unfoldable pub match_at : Regex → Place → Next → Option ℕ
unfolding match_times match_upto match_many
match_at (one p) place next = match_one p place next
match_at (seq r q) place next = match_at r place (λ place'. match_at q place' next)
match_at (maybe r) place next = or_try (match_at r place next) (next place)
match_at (times n r) place next = match_times (match_at r) n place next
match_at (upto n r) place next = match_upto (match_at r) n place next
match_at (many p) place next = match_many p place.rest place.read place.before next
match_at (boundary word) place next =
    when (differ (is_in word place.before) (is_in word (first_char place.rest))) (next place)
match_at (not_before p) place next = when (not (is_in p (first_char place.rest))) (next place)
match_at (not_after p) place next = when (not (is_in p place.before)) (next place)

abbrev pub start : Option Char → String → Place
start b s = record { read = 0; before = b; rest = s }

-- The length of the match that begins here.
unfoldable pub match_here : Regex → Option Char → String → Option ℕ
unfolding match_at
match_here r b s = match_at r (start b s) (λ place. some place.read)

abbrev pub is_some : Option ℕ → Bool
is_some none = false
is_some (some n) = true

unfoldable pub search_from : Regex → Option Char → String → Bool
unfolding match_here
search_from r b Str.[] = is_some (match_here r b "")
search_from r b (Str.◌∷◌ c s) =
    let later = search_from r (some c) s in
    elim (match_here r b (Str.◌∷◌ c s)) [ some n ↦ true | none ↦ later ]

-- `pattern.search(text)`, as a test.
unfoldable pub search : Regex → String → Bool
unfolding search_from
search r text = search_from r none text

-- `pattern.sub(new, text)`: `skip` characters belong to the last match. A match of no character,
-- which the expressions here do not have, is not replaced.
unfoldable pub sub_from : Regex → String → ℕ → Option Char → String → String
unfolding match_here
sub_from r new skip b Str.[] = ""
sub_from r new (suc skip) b (Str.◌∷◌ c s) = sub_from r new skip (some c) s
sub_from r new zero b (Str.◌∷◌ c s) = elim (match_here r b (Str.◌∷◌ c s)) [
  | some (suc n) ↦ fstring (new ∷ sub_from r new n (some c) s ∷ [])
  | _ ↦ Str.◌∷◌ c (sub_from r new zero (some c) s)
]

unfoldable pub sub : Regex → String → String → String
unfolding sub_from
sub r new text = sub_from r new zero none text
