-- ===== src/Pii/Masking.antt =====
-- What `redact` of packages/pii/redactor.py leaves of the values under a sensitive key.
use nervora.Base.{
  String, true, false, List, ◌≡◌, refl, Option, none, some, arith, Bool-cases, inl, inr, ◌⊎◌,
  Member, Member→contains,
}
use nervora.Json.{Json, null, bool, int, float, str, list, dict, Items, nil, cons, Dict, end, entry}
use nervora.Pii.{
  mask, masked, Pattern, Found, nothing, masks, walk_text, walk_scalar, walk, walk_items, walk_dict,
  redact,
}

abbrev pub Sensitive : List String → Option String → Type 0
Sensitive sensitive_fields none = ⊥
Sensitive sensitive_fields (some key) = Member key sensitive_fields

module _ (sensitive_fields : List String) where
  -- Every plain value that a sensitive key leads to, through lists or not, is the mask. A dict
  -- begins anew with its own keys.
  abbrev mutual
    pub IsMasked : Json → Option String → Type 0
    IsMasked (dict d) key = IsMaskedDict d
    IsMasked (list xs) key = IsMaskedItems xs key
    IsMasked (str text) key = (¬ Sensitive sensitive_fields key) ⊎ (text ≡ mask)
    IsMasked null key = ¬ Sensitive sensitive_fields key
    IsMasked (bool b) key = ¬ Sensitive sensitive_fields key
    IsMasked (int n) key = ¬ Sensitive sensitive_fields key
    IsMasked (float m k) key = ¬ Sensitive sensitive_fields key

    pub IsMaskedItems : Items → Option String → Type 0
    IsMaskedItems nil key = Unit
    IsMaskedItems (cons v vs) key = IsMasked v key × IsMaskedItems vs key

    pub IsMaskedDict : Dict → Type 0
    IsMaskedDict end = Unit
    IsMaskedDict (entry k v d) = IsMasked v (some k) × IsMaskedDict d

  masks_of_Sensitive :
      (key : Option String)
      → Sensitive sensitive_fields key
      → masks sensitive_fields false key ≡ true
  unfolding masks
  masks_of_Sensitive none h = absurd h
  masks_of_Sensitive (some k) h = ground (arith, Member→contains k sensitive_fields)

  not-Sensitive :
      (key : Option String)
      → masks sensitive_fields false key ≡ false
      → ¬ Sensitive sensitive_fields key
  not-Sensitive key e h = cc (masks_of_Sensitive key h)

  module _ (patterns : List Pattern) where
    -- A plain value stays itself only where its key is not sensitive.
    walk_scalar-IsMasked :
        (node : Json) (key : Option String) (f : Found)
        → (¬ Sensitive sensitive_fields key → IsMasked node key)
        → IsMasked (walk_scalar patterns sensitive_fields false node key f).0 key
    unfolding walk_scalar masked
    walk_scalar-IsMasked node key f plain = elim (Bool-cases (masks sensitive_fields false key)) [
      | inl e ↦ rw e (inr refl)
      | inr e ↦ rw e (plain (not-Sensitive key e))
    ]

    walk_text-IsMasked :
        (text : String) (key : Option String) (f : Found)
        → IsMasked (walk_text patterns sensitive_fields false text key f).0 key
    unfolding walk_text masked
    walk_text-IsMasked text key f = elim (Bool-cases (masks sensitive_fields false key)) [
      | inl e ↦ rw e (inr refl)
      | inr e ↦ rw e (inl (not-Sensitive key e))
    ]

    mutual
      unfolding walk

      walk-IsMasked :
          (node : Json) (key : Option String) (f : Found)
          → IsMasked (walk patterns sensitive_fields false node key f).0 key
      walk-IsMasked (dict d) key f = walk_dict-IsMasked d f
      walk-IsMasked (list xs) key f = walk_items-IsMasked xs key f
      walk-IsMasked (str text) key f = walk_text-IsMasked text key f
      walk-IsMasked null key f = walk_scalar-IsMasked null key f (λ h. h)
      walk-IsMasked (bool b) key f = walk_scalar-IsMasked (bool b) key f (λ h. h)
      walk-IsMasked (int n) key f = walk_scalar-IsMasked (int n) key f (λ h. h)
      walk-IsMasked (float m k) key f = walk_scalar-IsMasked (float m k) key f (λ h. h)

      walk_items-IsMasked :
          (xs : Items) (key : Option String) (f : Found)
          → IsMaskedItems (walk_items patterns sensitive_fields false xs key f).0 key
      walk_items-IsMasked nil key f = tt
      walk_items-IsMasked (cons v vs) key f = (walk-IsMasked v key f, walk_items-IsMasked vs key _)

      walk_dict-IsMasked :
          (d : Dict) (f : Found) → IsMaskedDict (walk_dict patterns sensitive_fields false d f).0
      walk_dict-IsMasked end f = tt
      walk_dict-IsMasked (entry k v d) f = (walk-IsMasked v (some k) f, walk_dict-IsMasked d _)

    -- Unless raw access is allowed, `redact` leaves no plain value under a sensitive key but the
    -- mask, whatever the patterns are.
    pub redact-IsMasked :
        (node : Json) → IsMasked (redact patterns sensitive_fields false node).output none
    unfolding redact
    redact-IsMasked node = walk-IsMasked node none nothing
