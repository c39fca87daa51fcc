-- ===== src/Pii/Reports.antt =====
-- What `redacted_fields`, `matched_patterns` and the status of packages/pii/redactor.py report.
use nervora.Base.{
  String, Bool, true, List, [], ◌∷◌, ◌++◌, ◌≡◌, ◌≢◌, refl, Option, none, some, arith, Bool-cases,
  inl, inr, eq_iff, contains, ap, ap₂,
}
use nervora.Json.{Json, null, bool, int, float, str, list, dict, Items, nil, cons, Dict, end, entry}
use nervora.Pii.{
  mask, masked, Pattern, Found, nothing, masks, walk_text, walk_scalar, walk, walk_items, walk_dict,
  redact, note, note_all, note_field, sweep, redact_text, status, RedactionResult,
}

pub append-ne-nil : (xs : List String) (x : String) → xs ++ x ∷ [] ≢ []
append-ne-nil [] x = ground arith
append-ne-nil (y ∷ xs) x = ground arith

note-ne-nil : (xs : List String) (x : String) → note xs x ≢ []
unfolding note contains
note-ne-nil [] x = ground arith
note-ne-nil (y ∷ xs) x = ground arith

-- `note_all` only adds.
pub note_all-eq-nil : (xs ms : List String) → note_all xs ms ≡ [] → (xs ≡ []) × (ms ≡ [])
unfolding note_all
note_all-eq-nil xs [] h = (h, refl)
note_all-eq-nil xs (m ∷ ms) h = absurd (note-ne-nil xs m (note_all-eq-nil (note xs m) ms h).0)

-- A sweep that reports no pattern has changed nothing.
pub sweep-eq-nil :
    (ps : List Pattern) (text : String) (matched : List String)
    → (sweep ps text matched).1 ≡ []
    → ((sweep ps text matched).0 ≡ text) × (matched ≡ [])
unfolding sweep
sweep-eq-nil [] text matched h = (refl, h)
sweep-eq-nil (p ∷ ps) text matched h = elim (Bool-cases (p.search text)) [
  | inl e ↦ absurd (
      append-ne-nil matched p.name
        (sweep-eq-nil ps (p.sub mask text) (matched ++ p.name ∷ []) (rw (e, sweep) at h)).1)
  | inr e ↦ rw (e, sweep) (sweep-eq-nil ps text matched (rw (e, sweep) at h))
]

module _ (patterns : List Pattern) (sensitive_fields : List String) (allow_raw : Bool) where
  -- Nothing is reported.
  abbrev pub IsQuiet : Found → Type 0
  IsQuiet f = (f.redacted_fields ≡ []) × (f.matched_patterns ≡ [])

  pub masked-not-IsQuiet :
      (key : Option String) (f : Found)
      → masks sensitive_fields allow_raw key ≡ true
      → ¬ IsQuiet (masked key f).1
  unfolding masked note_field masks
  masked-not-IsQuiet none f m q = cc
  masked-not-IsQuiet (some k) f m q = note-ne-nil f.redacted_fields k q.0

  walk_text-IsQuiet :
      (text : String) (key : Option String) (f : Found)
      → IsQuiet (walk_text patterns sensitive_fields allow_raw text key f).1
      → ((walk_text patterns sensitive_fields allow_raw text key f).0 ≡ str text) × IsQuiet f
  unfolding walk_text redact_text
  walk_text-IsQuiet text key f q = elim (Bool-cases (masks sensitive_fields allow_raw key)) [
    | inl e ↦ absurd (masked-not-IsQuiet key f e (rw e at q))
    | inr e ↦ rw e (
        let h : IsQuiet (record f {
          matched_patterns = note_all f.matched_patterns (sweep patterns text []).1;
        }) =
          rw e at q in
        let n = note_all-eq-nil f.matched_patterns (sweep patterns text []).1 h.1 in
        (ap str (sweep-eq-nil patterns text [] n.1).0, (h.0, n.0)))
  ]

  walk_scalar-IsQuiet :
      (node : Json) (key : Option String) (f : Found)
      → IsQuiet (walk_scalar patterns sensitive_fields allow_raw node key f).1
      → ((walk_scalar patterns sensitive_fields allow_raw node key f).0 ≡ node) × IsQuiet f
  unfolding walk_scalar
  walk_scalar-IsQuiet node key f q = elim (Bool-cases (masks sensitive_fields allow_raw key)) [
    | inl e ↦ absurd (masked-not-IsQuiet key f e (rw e at q))
    | inr e ↦ rw e (refl, rw e at q)
  ]

  mutual
    unfolding walk

    pub walk-IsQuiet :
        (node : Json) (key : Option String) (f : Found)
        → IsQuiet (walk patterns sensitive_fields allow_raw node key f).1
        → ((walk patterns sensitive_fields allow_raw node key f).0 ≡ node) × IsQuiet f
    walk-IsQuiet (dict d) key f q = let h = walk_dict-IsQuiet d f q in (ap dict h.0, h.1)
    walk-IsQuiet (list xs) key f q = let h = walk_items-IsQuiet xs key f q in (ap list h.0, h.1)
    walk-IsQuiet (str text) key f q = walk_text-IsQuiet text key f q
    walk-IsQuiet null key f q = walk_scalar-IsQuiet null key f q
    walk-IsQuiet (bool b) key f q = walk_scalar-IsQuiet (bool b) key f q
    walk-IsQuiet (int n) key f q = walk_scalar-IsQuiet (int n) key f q
    walk-IsQuiet (float m k) key f q = walk_scalar-IsQuiet (float m k) key f q

    pub walk_items-IsQuiet :
        (xs : Items) (key : Option String) (f : Found)
        → IsQuiet (walk_items patterns sensitive_fields allow_raw xs key f).1
        → ((walk_items patterns sensitive_fields allow_raw xs key f).0 ≡ xs) × IsQuiet f
    walk_items-IsQuiet nil key f q = (refl, q)
    walk_items-IsQuiet (cons v vs) key f q =
        let rest = walk_items-IsQuiet vs key _ q in
        let first = walk-IsQuiet v key f rest.1 in (ap₂ cons first.0 rest.0, first.1)

    pub walk_dict-IsQuiet :
        (d : Dict) (f : Found)
        → IsQuiet (walk_dict patterns sensitive_fields allow_raw d f).1
        → ((walk_dict patterns sensitive_fields allow_raw d f).0 ≡ d) × IsQuiet f
    walk_dict-IsQuiet end f q = (refl, q)
    walk_dict-IsQuiet (entry k v d) f q =
        let rest = walk_dict-IsQuiet d _ q in
        let first = walk-IsQuiet v (some k) f rest.1 in (ap₂ (entry k) first.0 rest.0, first.1)

  pub status-IsQuiet : (r : RedactionResult) → status r ≡ "none" → IsQuiet r.found
  unfolding status
  status-IsQuiet r h = ground (arith, eq_iff "redacted" "none")

  -- A result whose status is "none" is the tool's output, unchanged.
  pub redact-eq_of_status :
      (node : Json)
      → status (redact patterns sensitive_fields allow_raw node) ≡ "none"
      → (redact patterns sensitive_fields allow_raw node).output ≡ node
  unfolding redact
  redact-eq_of_status node h = (walk-IsQuiet node none nothing (status-IsQuiet _ h)).0
