-- ===== src/Pii/Fields.antt =====
-- Which keys `redacted_fields` of packages/pii/redactor.py names.
use nervora.Base.{
  String, true, false, List, [], ◌∷◌, ◌≡◌, ◌↔◌, refl, Option, none, some, arith, Bool-cases, inl,
  inr, ◌⊎◌, Member, Member→contains, contains→Member, Member-append, contains, eq_iff,
}
use nervora.Json.{Json, null, bool, int, float, str, list, dict, Items, nil, cons, Dict, end, entry}
use nervora.Pii.{
  masked, Pattern, Found, nothing, masks, walk_text, walk_scalar, walk, walk_items, walk_dict,
  redact, note, note_field,
}

module _ (k : String) where
  -- The key `k` leads to a plain value of the node, through lists or not.
  abbrev mutual
    pub Labels : Json → Option String → Type 0
    Labels (dict d) key = LabelsDict d
    Labels (list xs) key = LabelsItems xs key
    Labels (str text) key = key ≡ some k
    Labels null key = key ≡ some k
    Labels (bool b) key = key ≡ some k
    Labels (int n) key = key ≡ some k
    Labels (float m e) key = key ≡ some k

    pub LabelsItems : Items → Option String → Type 0
    LabelsItems nil key = ⊥
    LabelsItems (cons v vs) key = Labels v key ⊎ LabelsItems vs key

    pub LabelsDict : Dict → Type 0
    LabelsDict end = ⊥
    LabelsDict (entry j v d) = Labels v (some j) ⊎ LabelsDict d

  Member-note : (xs : List String) (x : String) → Member k (note xs x) ↔ (Member k xs ⊎ (x ≡ k))
  unfolding note
  Member-note xs x = elim (Bool-cases (contains xs x)) [
    | inl e ↦
        rw e
          (ground (arith, contains→Member x xs e, λ (p : x ≡ k). rw p at (contains→Member x xs e)))
    | inr e ↦ rw e (ground (arith, Member-append k xs (x ∷ [])))
  ]

  module _ (sensitive_fields : List String) where
    -- From `f` to `g` the key was added exactly if it is sensitive and `L` holds.
    abbrev Adds : Type 0 → Found → Found → Type 0
    Adds L f g =
        Member k g.redacted_fields ↔ (Member k f.redacted_fields ⊎ (Member k sensitive_fields × L))

    Adds-trans : {L M : Type 0} (f g h : Found) → Adds L f g → Adds M g h → Adds (L ⊎ M) f h
    Adds-trans f g h a b = ground arith

    Adds-refl : (f : Found) → Adds ⊥ f f
    Adds-refl f = ground arith

    -- What a plain value under `key` does to the report.
    plain-Adds :
        (key : Option String) (f g : Found)
        → (masks sensitive_fields false key ≡ true
            → g.redacted_fields ≡ (note_field key f).redacted_fields)
        → (masks sensitive_fields false key ≡ false → g.redacted_fields ≡ f.redacted_fields)
        → Adds (key ≡ some k) f g
    unfolding masks note_field
    plain-Adds none f g m n = rw (n refl) (ground arith)
    plain-Adds (some j) f g m n = elim (Bool-cases (contains sensitive_fields j)) [
      | inl e ↦ rw (m (rw e)) (
          ground (
            arith,
            Member-note f.redacted_fields j,
            contains→Member j sensitive_fields e,
            λ (p : j ≡ k). rw p at (contains→Member j sensitive_fields e),
          ))
      | inr e ↦
          rw (n (rw e))
            (ground (arith, λ (p : j ≡ k). Member→contains j sensitive_fields, eq_iff j k))
    ]

    module _ (patterns : List Pattern) where
      walk_text-Adds :
          (text : String) (key : Option String) (f : Found)
          → Adds (key ≡ some k) f (walk_text patterns sensitive_fields false text key f).1
      unfolding walk_text masked
      walk_text-Adds text key f =
          plain-Adds key f (walk_text patterns sensitive_fields false text key f).1 (λ e. rw e)
            (λ e. rw e)

      walk_scalar-Adds :
          (node : Json) (key : Option String) (f : Found)
          → Adds (key ≡ some k) f (walk_scalar patterns sensitive_fields false node key f).1
      unfolding walk_scalar masked
      walk_scalar-Adds node key f =
          plain-Adds key f (walk_scalar patterns sensitive_fields false node key f).1 (λ e. rw e)
            (λ e. rw e)

      mutual
        unfolding walk

        walk-Adds :
            (node : Json) (key : Option String) (f : Found)
            → Adds (Labels node key) f (walk patterns sensitive_fields false node key f).1
        walk-Adds (dict d) key f = walk_dict-Adds d f
        walk-Adds (list xs) key f = walk_items-Adds xs key f
        walk-Adds (str text) key f = walk_text-Adds text key f
        walk-Adds null key f = walk_scalar-Adds null key f
        walk-Adds (bool b) key f = walk_scalar-Adds (bool b) key f
        walk-Adds (int n) key f = walk_scalar-Adds (int n) key f
        walk-Adds (float m e) key f = walk_scalar-Adds (float m e) key f

        walk_items-Adds :
            (xs : Items) (key : Option String) (f : Found)
            → Adds (LabelsItems xs key) f (walk_items patterns sensitive_fields false xs key f).1
        walk_items-Adds nil key f = Adds-refl f
        walk_items-Adds (cons v vs) key f =
            let g = (walk patterns sensitive_fields false v key f).1 in
            Adds-trans f g (walk_items patterns sensitive_fields false vs key g).1
              (walk-Adds v key f) (walk_items-Adds vs key g)

        walk_dict-Adds :
            (d : Dict) (f : Found)
            → Adds (LabelsDict d) f (walk_dict patterns sensitive_fields false d f).1
        walk_dict-Adds end f = Adds-refl f
        walk_dict-Adds (entry j v d) f =
            let g = (walk patterns sensitive_fields false v (some j) f).1 in
            Adds-trans f g (walk_dict patterns sensitive_fields false d g).1
              (walk-Adds v (some j) f) (walk_dict-Adds d g)

      -- Without raw access `redacted_fields` names a key exactly if it is sensitive and leads to
      -- a plain value of the data.
      pub redact-fields_iff :
          (node : Json)
          → Member k (redact patterns sensitive_fields false node).redacted_fields
            ↔ (Member k sensitive_fields × Labels node none)
      unfolding redact
      redact-fields_iff node =
          let a = walk-Adds node none nothing in
          (λ m. elim (a.0 m) [ inl h ↦ absurd h | inr h ↦ h ], λ h. a.1 (inr h))
