-- ===== src/Audit/Pooled.antt =====
-- That packages/audit/db.py keeps one engine and one session factory for a URL.
use nervora.Base.{
  ℕ, zero, suc, ◌<◌, ◌≤◌, String, none, some, List, [], ◌∷◌, ◌==◌, eq_iff, if◌then◌else◌, ◌≡◌, ◌≢◌,
  refl, sym, subst, arith, length, ◌⊎◌, inl, inr, ◌+◌,
}
use nervora.Audit.Engine.{
  Cache, take, cached, without, max_size, cached_call, Sessionmakers, make_sessionmaker,
  get_sessionmaker,
}

same_or_other : (j k : String) → (j ≡ k) ⊎ (j ≢ k)
same_or_other j k = ground (arith, eq_iff j k)

module _ {A : Type 0} where
  -- How many entries stand before the one under a key.
  abbrev place : String → Cache A → ℕ
  place k [] = zero
  place k ((j, a) ∷ c) = let before = place k c in if j == k then zero else suc before

  cached-without : (j k : String) (c : Cache A) → j ≢ k → cached k (without j c) ≡ cached k c
  unfolding cached without
  cached-without j k [] h = refl
  cached-without j k ((i, a) ∷ c) h =
      ground (arith, h, eq_iff i j, eq_iff i k, cached-without j k c h)

  place-without_le : (j k : String) (c : Cache A) → j ≢ k → place k (without j c) ≤ place k c
  unfolding without
  place-without_le j k [] h = omega arith
  place-without_le j k ((i, a) ∷ c) h =
      ground (arith, h, eq_iff i j, eq_iff i k, place-without_le j k c h)

  cached-take :
      (n : ℕ) (k : String) (c : Cache A) → place k c < n → cached k (take n c) ≡ cached k c
  unfolding cached
  cached-take zero k c h = absurd (omega arith)
  cached-take (suc n) k [] h = refl
  cached-take (suc n) k ((i, a) ∷ c) h = ground (arith, h, cached-take n k c)

  place-take_le : (n : ℕ) (k : String) (c : Cache A) → place k (take n c) ≤ place k c
  place-take_le zero k c = omega arith
  place-take_le (suc n) k [] = omega arith
  place-take_le (suc n) k ((i, a) ∷ c) = ground (arith, place-take_le n k c)

  -- A value is in the cache after at most n entries.
  abbrev IsHeld : String → A → ℕ → Cache A → Type 0
  IsHeld k a n c = (cached k c ≡ some a) × (place k c ≤ n)

  IsHeld-front : (k : String) (a : A) (n : ℕ) (c : Cache A) → IsHeld k a n ((k, a) ∷ c)
  unfolding cached
  IsHeld-front k a n c = ground (arith, eq_iff k k)

  IsHeld-behind :
      (j k : String) (a b : A) (n : ℕ) (c : Cache A)
      → j ≢ k
      → IsHeld k a n c
      → IsHeld k a (suc n) ((j, b) ∷ c)
  unfolding cached
  IsHeld-behind j k a b n c ne held = ground (arith, ne, held, eq_iff j k)

  without-IsHeld :
      (j k : String) (a : A) (n : ℕ) (c : Cache A)
      → j ≢ k
      → IsHeld k a n c
      → IsHeld k a n (without j c)
  without-IsHeld j k a n c ne held =
      ground (arith, held, cached-without j k c ne, place-without_le j k c ne)

  take-IsHeld :
      (m : ℕ) (k : String) (a : A) (n : ℕ) (c : Cache A)
      → n < m
      → IsHeld k a n c
      → IsHeld k a n (take m c)
  take-IsHeld m k a n c h held = ground (arith, h, held, cached-take m k c, place-take_le m k c)

  module _ {S : Type 0} (make : String → S → A × S) where
    cached_call-IsHeld_same :
        (k : String) (a : A) (c : Cache A) (s : S)
        → cached k c ≡ some a
        → (cached_call make k (c, s)).0 ≡ a × IsHeld k a 0 (cached_call make k (c, s)).1.0
    unfolding cached_call
    cached_call-IsHeld_same k a c s h = rw (cached_call, h) (refl, IsHeld-front k a 0 (without k c))

    cached_call-IsHeld_other :
        (j k : String) (a : A) (n : ℕ) (c : Cache A) (s : S)
        → suc n < max_size
        → j ≢ k
        → IsHeld k a n c
        → IsHeld k a (suc n) (cached_call make j (c, s)).1.0
    unfolding cached_call
    cached_call-IsHeld_other j k a n c s h ne held =
        elim (cached j c)
          as (λ o.
            IsHeld k a (suc n)
              (elim o as (λ _. A × (Cache A × S)) [
                | some b ↦ (b, ((j, b) ∷ without j c, s))
                | none ↦ let (b, s') = make j s in (b, (take max_size ((j, b) ∷ c), s'))
              ]).1.0) [
                | some b ↦
                    IsHeld-behind j k a b n (without j c) ne (without-IsHeld j k a n c ne held)
                | none ↦
                    take-IsHeld max_size k a (suc n) ((j, (make j s).0) ∷ c) h
                      (IsHeld-behind j k a (make j s).0 n c ne held)
              ]

    cached_call-IsHeld_first :
        (k : String) (c : Cache A) (s : S)
        → IsHeld k (cached_call make k (c, s)).0 0 (cached_call make k (c, s)).1.0
    unfolding cached_call
    cached_call-IsHeld_first k c s =
        elim (cached k c)
          as (λ o.
            let r = elim o as (λ _. A × (Cache A × S)) [
              | some b ↦ (b, ((k, b) ∷ without k c, s))
              | none ↦ let (b, s') = make k s in (b, (take max_size ((k, b) ∷ c), s'))
            ] in
            IsHeld k r.0 0 r.1.0) [
              | some b ↦ IsHeld-front k b 0 (without k c)
              | none ↦
                  take-IsHeld max_size k (make k s).0 0 ((k, (make k s).0) ∷ c) (omega arith)
                    (IsHeld-front k (make k s).0 0 c)
            ]

    cached_call-IsHeld :
        (j k : String) (a : A) (n : ℕ) (c : Cache A) (s : S)
        → suc n < max_size
        → IsHeld k a n c
        → IsHeld k a (suc n) (cached_call make j (c, s)).1.0
    cached_call-IsHeld j k a n c s h held = elim (same_or_other j k) [
      | inl e ↦
          let used = cached_call-IsHeld_same k a c s held.0 in
          subst (λ i. IsHeld k a (suc n) (cached_call make i (c, s)).1.0) (sym e)
            (used.1.0, omega (arith, used.1.1))
      | inr ne ↦ cached_call-IsHeld_other j k a n c s h ne held
    ]

    -- The calls for several arguments, one after the other.
    abbrev pub calls : List String → Cache A × S → Cache A × S
    calls [] s = s
    calls (j ∷ js) s = calls js (cached_call make j s).1

    calls-IsHeld :
        (js : List String) (k : String) (a : A) (n : ℕ) (c : Cache A) (s : S)
        → n + length js < max_size
        → IsHeld k a n c
        → IsHeld k a (n + length js) (calls js (c, s)).0
    calls-IsHeld [] k a n c s h held = (held.0, omega (arith, held.1))
    calls-IsHeld (j ∷ js) k a n c s h held =
        let next = cached_call make j (c, s) in
        let rest =
          calls-IsHeld js k a (suc n) next.1.0 next.1.1 (omega (arith, h))
            (cached_call-IsHeld j k a n c s (omega (arith, h)) held) in
        (rest.0, omega (arith, rest.1))

    -- A cached function that has been called for an argument gives the same value again, whatever it
    -- was called for in between, if these were fewer calls than the cache is large.
    pub cached_call_again :
        (js : List String) (k : String) (s : Cache A × S)
        → length js < max_size
        → (cached_call make k (calls js (cached_call make k s).1)).0 ≡ (cached_call make k s).0
    cached_call_again js k (c, s) h =
        let first = cached_call make k (c, s) in
        let held =
          calls-IsHeld js k first.0 0 first.1.0 first.1.1 (omega (arith, h))
            (cached_call-IsHeld_first k c s) in
        let end = calls js first.1 in (cached_call-IsHeld_same k first.0 end.0 end.1 held.0).0

-- A process that opens sessions on fewer than 128 other URLs in between opens each session on a URL
-- with one factory, which has one engine.
pub get_sessionmaker_again :
    (urls : List String) (database_url : String) (s : Sessionmakers)
    → length urls < 128
    → (get_sessionmaker database_url
        (calls make_sessionmaker urls (get_sessionmaker database_url s).1)).0
      ≡ (get_sessionmaker database_url s).0
unfolding get_sessionmaker
get_sessionmaker_again urls database_url s h =
    cached_call_again make_sessionmaker urls database_url s h
