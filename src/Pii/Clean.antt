-- ===== src/Pii/Clean.antt =====
-- What the status "none" of packages/pii/redactor.py says of the texts of a tool's output, with the
-- expressions of `_PATTERNS`.
use nervora.Base.{
  String, Bool, false, List, [], ◌∷◌, ◌++◌, ◌≡◌, Option, none, some, arith, Bool-cases, inl, inr,
  All,
}
use nervora.Json.{Json, null, bool, int, float, str, list, dict, Items, nil, cons, Dict, end, entry}
use nervora.Pii.{
  mask, Pattern, Found, nothing, masks, walk_text, walk, walk_items, walk_dict, redact, note_all,
  sweep, redact_text, status,
}
use nervora.Pii.Reports.{
  append-ne-nil, sweep-eq-nil, note_all-eq-nil, IsQuiet, masked-not-IsQuiet, status-IsQuiet,
  walk_items-IsQuiet, walk_dict-IsQuiet, redact-eq_of_status,
}
use nervora.Pii.Regex.{Regex, search}
use nervora.Pii.Language.{Occurs, search_iff}
use nervora.Pii.Patterns.{Unicode, patterns, expressions, email, iban, phone, ssn_like, credit_card}

-- A property of every text among the values, at any depth. The keys of dicts are not asked for.
unfoldable mutual
  pub AllTexts : (String → Type 0) → Json → Type 0
  AllTexts P (str text) = P text
  AllTexts P (list xs) = AllItems P xs
  AllTexts P (dict d) = AllValues P d
  AllTexts P null = Unit
  AllTexts P (bool b) = Unit
  AllTexts P (int n) = Unit
  AllTexts P (float m k) = Unit

  pub AllItems : (String → Type 0) → Items → Type 0
  AllItems P nil = Unit
  AllItems P (cons v vs) = AllTexts P v × AllItems P vs

  pub AllValues : (String → Type 0) → Dict → Type 0
  AllValues P end = Unit
  AllValues P (entry k v d) = AllTexts P v × AllValues P d

-- No pattern finds anything in the text.
abbrev IsClean : List Pattern → String → Type 0
IsClean ps text = All (λ p. p.search text ≡ false) ps

sweep-IsClean :
    (ps : List Pattern) (text : String) (matched : List String)
    → (sweep ps text matched).1 ≡ []
    → IsClean ps text
unfolding sweep
sweep-IsClean [] text matched h = tt
sweep-IsClean (p ∷ ps) text matched h = elim (Bool-cases (p.search text)) [
  | inl e ↦ absurd (
      append-ne-nil matched p.name
        (sweep-eq-nil ps (p.sub mask text) (matched ++ p.name ∷ []) (rw (e, sweep) at h)).1)
  | inr e ↦ (e, sweep-IsClean ps text matched (rw (e, sweep) at h))
]

module _ (ps : List Pattern) (sensitive_fields : List String) (allow_raw : Bool) where
  walk_text-IsClean :
      (text : String) (key : Option String) (f : Found)
      → IsQuiet ps sensitive_fields allow_raw (walk_text ps sensitive_fields allow_raw text key f).1
      → IsClean ps text
  unfolding walk_text redact_text
  walk_text-IsClean text key f q = elim (Bool-cases (masks sensitive_fields allow_raw key)) [
    | inl e ↦ absurd (masked-not-IsQuiet ps sensitive_fields allow_raw key f e (rw e at q))
    | inr e ↦
        let h : IsQuiet ps sensitive_fields allow_raw
            (record f { matched_patterns = note_all f.matched_patterns (sweep ps text []).1 }) =
          rw e at q in
        sweep-IsClean ps text [] (note_all-eq-nil f.matched_patterns (sweep ps text []).1 h.1).1
  ]

  mutual
    unfolding walk AllTexts

    walk-IsClean :
        (node : Json) (key : Option String) (f : Found)
        → IsQuiet ps sensitive_fields allow_raw (walk ps sensitive_fields allow_raw node key f).1
        → AllTexts (IsClean ps) node
    walk-IsClean (dict d) key f q = walk_dict-IsClean d f q
    walk-IsClean (list xs) key f q = walk_items-IsClean xs key f q
    walk-IsClean (str text) key f q = walk_text-IsClean text key f q
    walk-IsClean null key f q = tt
    walk-IsClean (bool b) key f q = tt
    walk-IsClean (int n) key f q = tt
    walk-IsClean (float m k) key f q = tt

    walk_items-IsClean :
        (xs : Items) (key : Option String) (f : Found)
        → IsQuiet ps sensitive_fields allow_raw
            (walk_items ps sensitive_fields allow_raw xs key f).1
        → AllItems (IsClean ps) xs
    walk_items-IsClean nil key f q = tt
    walk_items-IsClean (cons v vs) key f q =
        let rest = walk_items-IsQuiet ps sensitive_fields allow_raw vs key _ q in
        (walk-IsClean v key f rest.1, walk_items-IsClean vs key _ q)

    walk_dict-IsClean :
        (d : Dict) (f : Found)
        → IsQuiet ps sensitive_fields allow_raw (walk_dict ps sensitive_fields allow_raw d f).1
        → AllValues (IsClean ps) d
    walk_dict-IsClean end f q = tt
    walk_dict-IsClean (entry k v d) f q =
        let rest = walk_dict-IsQuiet ps sensitive_fields allow_raw d _ q in
        (walk-IsClean v (some k) f rest.1, walk_dict-IsClean d _ q)

mutual
  unfolding AllTexts

  AllTexts-map :
      (P R : String → Type 0)
      → ((t : String) → P t → R t)
      → (v : Json) → AllTexts P v
      → AllTexts R v
  AllTexts-map P R f (str text) h = f text h
  AllTexts-map P R f (list xs) h = AllItems-map P R f xs h
  AllTexts-map P R f (dict d) h = AllValues-map P R f d h
  AllTexts-map P R f null h = tt
  AllTexts-map P R f (bool b) h = tt
  AllTexts-map P R f (int n) h = tt
  AllTexts-map P R f (float m k) h = tt

  AllItems-map :
      (P R : String → Type 0)
      → ((t : String) → P t → R t)
      → (xs : Items) → AllItems P xs
      → AllItems R xs
  AllItems-map P R f nil h = tt
  AllItems-map P R f (cons v vs) h = (AllTexts-map P R f v h.0, AllItems-map P R f vs h.1)

  AllValues-map :
      (P R : String → Type 0)
      → ((t : String) → P t → R t)
      → (d : Dict) → AllValues P d
      → AllValues R d
  AllValues-map P R f end h = tt
  AllValues-map P R f (entry k v d) h = (AllTexts-map P R f v h.0, AllValues-map P R f d h.1)

-- No stretch of the text has the form of personal data.
abbrev pub HasNoPii : Unicode → String → Type 0
HasNoPii u text = All (λ r. ¬ Occurs r none text) (expressions u)

not_found : (r : Regex) (text : String) → search r text ≡ false → ¬ Occurs r none text
not_found r text h o = ground (arith, (search_iff r text).1 o)

IsClean-HasNoPii : (u : Unicode) (text : String) → IsClean (patterns u) text → HasNoPii u text
IsClean-HasNoPii u text h = (
  not_found email text h.0,
  (
    not_found (iban u) text h.1.0,
    (
      not_found (phone u) text h.1.1.0,
      (not_found (ssn_like u) text h.1.1.1.0, (not_found (credit_card u) text h.1.1.1.1.0, tt)),
    ),
  ),
)

-- If the redactor gives a value the status "none", then it is returned unchanged, and no text
-- among its values, at any depth, has a stretch that matches one of the five expressions. The keys of
-- its dicts are not looked at.
pub redact-HasNoPii :
    (u : Unicode) (sensitive_fields : List String) (allow_raw : Bool) (node : Json)
    → status (redact (patterns u) sensitive_fields allow_raw node) ≡ "none"
    → ((redact (patterns u) sensitive_fields allow_raw node).output ≡ node)
      × AllTexts (HasNoPii u) node
unfolding redact
redact-HasNoPii u sensitive_fields allow_raw node h = (
  redact-eq_of_status (patterns u) sensitive_fields allow_raw node h,
  AllTexts-map (IsClean (patterns u)) (HasNoPii u) (IsClean-HasNoPii u) node (
      walk-IsClean (patterns u) sensitive_fields allow_raw node none nothing
        (status-IsQuiet (patterns u) sensitive_fields allow_raw _ h)),
)
