-- ===== src/Pii/Language.antt =====
-- What an expression of packages/pii/redactor.py matches, declaratively, and that the backtracking
-- matcher finds a match exactly if there is one.
use Prim.Native.Char.{Char, code}
use Prim.Native.String as Str
use nervora.Base.{
  ℕ, zero, suc, String, Bool, true, false, not, ◌≡◌, ◌≢◌, ◌⊎◌, ◌↔◌, inl, inr, arith, Option, none,
  some, Option-cases, ap,
}
use nervora.Pii.Regex.{
  Regex, one, seq, maybe, times, upto, many, boundary, not_before, not_after, Place, Next, is_in,
  first_char, differ, or_try, when, advance, match_one, match_times, match_upto, match_many,
  match_at, match_here, start, search_from, search,
}

-- The expression leads from one place to another, by any of its choices.
pub data Matches : Regex → Place → Place → Type 0 where
  class :
      {p : ℕ → Bool} {n : ℕ} {b : Option Char} {s : String} (c : Char)
      → p (code c) ≡ true
      → Matches (one p) (record { read = n; before = b; rest = Str.◌∷◌ c s }) (advance n c s)
  both : {r q : Regex} {x y z : Place} → Matches r x y → Matches q y z → Matches (seq r q) x z
  taken : {r : Regex} {x y : Place} → Matches r x y → Matches (maybe r) x y
  left : {r : Regex} {x : Place} → Matches (maybe r) x x
  times_zero : {r : Regex} {x : Place} → Matches (times zero r) x x
  times_suc :
      {n : ℕ} {r : Regex} {x y z : Place}
      → Matches r x y
      → Matches (times n r) y z
      → Matches (times (suc n) r) x z
  upto_stop : {n : ℕ} {r : Regex} {x : Place} → Matches (upto n r) x x
  upto_more :
      {n : ℕ} {r : Regex} {x y z : Place}
      → Matches r x y
      → Matches (upto n r) y z
      → Matches (upto (suc n) r) x z
  many_stop : {p : ℕ → Bool} {x : Place} → Matches (many p) x x
  many_more :
      {p : ℕ → Bool} {x y z : Place}
      → Matches (one p) x y
      → Matches (many p) y z
      → Matches (many p) x z
  at_boundary :
      {p : ℕ → Bool} {x : Place}
      → differ (is_in p x.before) (is_in p (first_char x.rest)) ≡ true
      → Matches (boundary p) x x
  at_not_before :
      {p : ℕ → Bool} {x : Place} → is_in p (first_char x.rest) ≡ false → Matches (not_before p) x x
  at_not_after : {p : ℕ → Bool} {x : Place} → is_in p x.before ≡ false → Matches (not_after p) x x

or_try-left : (x y : Option ℕ) → x ≢ none → or_try x y ≢ none
or_try-left x y h = ground arith

or_try-right : (x y : Option ℕ) → y ≢ none → or_try x y ≢ none
or_try-right x y h = ground arith

upto_stop-finds :
    (m : Place → Next → Option ℕ) (n : ℕ) (x : Place) (next : Next)
    → next x ≢ none
    → match_upto m n x next ≢ none
unfolding match_upto
upto_stop-finds m zero x next k = k
upto_stop-finds m (suc n) x next k = or_try-right _ _ k

many_stop-finds :
    (p : ℕ → Bool) (s : String) (n : ℕ) (b : Option Char) (next : Next)
    → next (record { read = n; before = b; rest = s }) ≢ none
    → match_many p s n b next ≢ none
unfolding match_many
many_stop-finds p Str.[] n b next k = k
many_stop-finds p (Str.◌∷◌ c s) n b next k = or_try-right _ _ k

when-finds : (b : Bool) (y : Option ℕ) → b ≡ true → y ≢ none → when b y ≢ none
when-finds b y h k = rw h k

-- Every match is found: if what follows succeeds after it, then so does the matcher.
pub finds :
    {r : Regex} {x y : Place} (next : Next)
    → Matches r x y
    → next y ≢ none
    → match_at r x next ≢ none
unfolding match_at match_times match_upto match_many
finds next (class c h) k = rw h k
finds next (both {q = q} m m') k = finds (λ p. match_at q p next) m (finds next m' k)
finds next (taken m) k = or_try-left _ _ (finds next m k)
finds next left k = or_try-right _ _ k
finds next times_zero k = k
finds next (times_suc {n = n} {r = r} m m') k =
    finds (λ p. match_times (match_at r) n p next) m (finds next m' k)
finds next (upto_stop {n = n} {r = r} {x = x}) k = upto_stop-finds (match_at r) n x next k
finds next (upto_more {n = n} {r = r} m m') k =
    or_try-left _ _ (finds (λ p. match_upto (match_at r) n p next) m (finds next m' k))
finds next (many_stop {p = p} {x = x}) k = many_stop-finds p x.rest x.read x.before next k
finds next (many_more (class c h) m') k = or_try-left _ _ (when-finds _ _ h (finds next m' k))
finds next (at_boundary h) k = when-finds _ _ h k
finds next (at_not_before h) k = when-finds _ _ (ap not h) k
finds next (at_not_after h) k = when-finds _ _ (ap not h) k

-- A result that begins with a match and goes on as `next` says.
abbrev pub Found : Regex → Place → Next → ℕ → Type 0
Found r x next v = (y : Place) × Matches r x y × (next y ≡ some v)

or_try-some : (x y : Option ℕ) (v : ℕ) → or_try x y ≡ some v → (x ≡ some v) ⊎ (y ≡ some v)
or_try-some x y v h = ground arith

when-some : (b : Bool) (y : Option ℕ) (v : ℕ) → when b y ≡ some v → (b ≡ true) × (y ≡ some v)
when-some b y v h = ground arith

-- What the matcher finds is a match.
module _ (r : Regex)
    (sound : (x : Place) (next : Next) (v : ℕ)
      → match_at r x next ≡ some v
      → Found r x next v) where
  times-sound :
      (n : ℕ) (x : Place) (next : Next) (v : ℕ)
      → match_times (match_at r) n x next ≡ some v
      → Found (times n r) x next v
  unfolding match_times
  times-sound zero x next v h = (x, times_zero, h)
  times-sound (suc n) x next v h =
      let (y, m, h') = sound x (λ p. match_times (match_at r) n p next) v h in
      let (z, m', k) = times-sound n y next v h' in (z, times_suc m m', k)

  upto-sound :
      (n : ℕ) (x : Place) (next : Next) (v : ℕ)
      → match_upto (match_at r) n x next ≡ some v
      → Found (upto n r) x next v
  unfolding match_upto
  upto-sound zero x next v h = (x, upto_stop, h)
  upto-sound (suc n) x next v h = elim (or_try-some _ _ v h) [
    | inl e ↦
        let (y, m, h') = sound x (λ p. match_upto (match_at r) n p next) v e in
        let (z, m', k) = upto-sound n y next v h' in (z, upto_more m m', k)
    | inr e ↦ (x, upto_stop, e)
  ]

many-sound :
    (p : ℕ → Bool) (s : String) (n : ℕ) (b : Option Char) (next : Next) (v : ℕ)
    → match_many p s n b next ≡ some v
    → Found (many p) (record { read = n; before = b; rest = s }) next v
unfolding match_many
many-sound p Str.[] n b next v h = (_, many_stop, h)
many-sound p (Str.◌∷◌ c s) n b next v h = elim (or_try-some _ _ v h) [
  | inl e ↦
      let (h', e') = when-some _ _ v e in
      let (z, m, k) = many-sound p s (suc n) (some c) next v e' in (z, many_more (class c h') m, k)
  | inr e ↦ (_, many_stop, e)
]

one-sound :
    (p : ℕ → Bool) (n : ℕ) (b : Option Char) (s : String) (next : Next) (v : ℕ)
    → match_one p (record { read = n; before = b; rest = s }) next ≡ some v
    → Found (one p) (record { read = n; before = b; rest = s }) next v
one-sound p n b Str.[] next v h = ground arith
one-sound p n b (Str.◌∷◌ c s) next v h = let (h', k) = when-some _ _ v h in (_, class c h', k)

pub sound :
    (r : Regex) (x : Place) (next : Next) (v : ℕ) → match_at r x next ≡ some v → Found r x next v
unfolding match_at
sound (one p) x next v h = one-sound p x.read x.before x.rest next v h
sound (seq r q) x next v h =
    let (y, m, h') = sound r x (λ p. match_at q p next) v h in
    let (z, m', k) = sound q y next v h' in (z, both m m', k)
sound (maybe r) x next v h = elim (or_try-some _ _ v h) [
  | inl e ↦ let (y, m, k) = sound r x next v e in (y, taken m, k)
  | inr e ↦ (x, left, e)
]
sound (times n r) x next v h = times-sound r (sound r) n x next v h
sound (upto n r) x next v h = upto-sound r (sound r) n x next v h
sound (many p) x next v h = many-sound p x.rest x.read x.before next v h
sound (boundary p) x next v h = let (e, k) = when-some _ _ v h in (x, at_boundary e, k)
sound (not_before p) x next v h =
    let (e, k) = when-some (not (is_in p (first_char x.rest))) (next x) v h in
    (x, at_not_before (ground arith), k)
sound (not_after p) x next v h =
    let (e, k) = when-some (not (is_in p x.before)) (next x) v h in
    (x, at_not_after (ground arith), k)

-- The expression has a match that begins at some place of the text, `b` being the character before
-- the text.
pub data Occurs : Regex → Option Char → String → Type 0 where
  here :
      {r : Regex} {b : Option Char} {s : String} (y : Place)
      → Matches r (start b s) y
      → Occurs r b s
  later :
      {r : Regex} {b : Option Char} {c : Char} {s : String}
      → Occurs r (some c) s
      → Occurs r b (Str.◌∷◌ c s)

match_here-Occurs :
    (r : Regex) (b : Option Char) (s : String) (n : ℕ) → match_here r b s ≡ some n → Occurs r b s
unfolding match_here
match_here-Occurs r b s n h =
    let (y, m, _) = sound r (start b s) (λ place. some place.read) n h in here y m

search_from-Occurs :
    (r : Regex) (b : Option Char) (s : String) → search_from r b s ≡ true → Occurs r b s
unfolding search_from
search_from-Occurs r b Str.[] h = elim (Option-cases (match_here r b "")) [
  | inl e ↦ absurd (ground arith)
  | inr (n, e) ↦ match_here-Occurs r b "" n e
]
search_from-Occurs r b (Str.◌∷◌ c s) h = elim (Option-cases (match_here r b (Str.◌∷◌ c s))) [
  | inl e ↦ later (search_from-Occurs r (some c) s (ground arith))
  | inr (n, e) ↦ match_here-Occurs r b (Str.◌∷◌ c s) n e
]

-- What begins here or later is found.
found-search_from :
    (r : Regex) (b : Option Char) (s : String) → match_here r b s ≢ none → search_from r b s ≡ true
unfolding search_from
found-search_from r b Str.[] h = ground arith
found-search_from r b (Str.◌∷◌ c s) h = ground arith

later-search_from :
    (r : Regex) (b : Option Char) (c : Char) (s : String)
    → search_from r (some c) s ≡ true
    → search_from r b (Str.◌∷◌ c s) ≡ true
unfolding search_from
later-search_from r b c s h = ground arith

Occurs-search_from :
    {r : Regex} {b : Option Char} {s : String} → Occurs r b s → search_from r b s ≡ true
unfolding match_here
Occurs-search_from (here {r = r} {b = b} {s = s} y m) =
    found-search_from r b s (finds (λ place. some place.read) m (λ e. ground arith))
Occurs-search_from (later {r = r} {b = b} {c = c} {s = s} o) =
    later-search_from r b c s (Occurs-search_from o)

-- A search succeeds exactly if a stretch of the text matches the expression, whichever choices its
-- greedy parts, options and lookarounds take.
pub search_iff : (r : Regex) (text : String) → (search r text ≡ true) ↔ Occurs r none text
unfolding search
search_iff r text = (search_from-Occurs r none text, λ o. Occurs-search_from o)
