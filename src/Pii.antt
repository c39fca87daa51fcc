-- ===== src/Pii.antt =====
-- packages/pii/redactor.py: masking of declared fields and the pattern sweep over the texts of a
-- tool's output.
pub mod Masking
pub mod Reports
pub mod Fields
pub mod Regex
pub mod Patterns
pub mod Language
pub mod Clean
pub mod Shadowing
mod Tests
use nervora.Base.{
  String, Bool, false, not, ◌&&◌, List, [], ◌∷◌, ◌++◌, Option, none, some, if◌then◌else◌, contains,
}
use nervora.Json.{Json, null, bool, int, float, str, list, dict, Items, nil, cons, Dict, end, entry}

abbrev pub mask : String
mask = "***REDACTED***"

-- An entry of `_PATTERNS`: a compiled expression under its name, by the two methods that are used.
pub record Pattern : Type 0 where
  pub name : String
  pub search : String → Bool
  pub sub : String → String → String

-- `redacted_fields` and `matched_patterns`, which `_walk` appends to.
pub record Found : Type 0 where
  pub redacted_fields : List String
  pub matched_patterns : List String

pub record RedactionResult : Type 0 where
  pub output : Json
  pub found : Found
  pub open found use *

abbrev pub nothing : Found
nothing = record { redacted_fields = []; matched_patterns = [] }

-- `RedactionResult.status`
unfoldable pub status : RedactionResult → String
status r = elim r.redacted_fields [
  | [] ↦ elim r.matched_patterns [ [] ↦ "none" | _ ∷ _ ↦ "redacted" ]
  | _ ∷ _ ↦ "redacted"
]

-- `if x not in xs: xs.append(x)`
unfoldable pub note : List String → String → List String
note xs x = if contains xs x then xs else xs ++ x ∷ []

unfoldable pub note_all : List String → List String → List String
note_all xs [] = xs
note_all xs (m ∷ ms) = note_all (note xs m) ms

-- `redact_text`, the rounds of its loop over the patterns.
unfoldable pub sweep : List Pattern → String → List String → String × List String
sweep [] out matched = (out, matched)
sweep (p ∷ ps) out matched =
    sweep ps (if p.search out then p.sub mask out else out)
      (if p.search out then matched ++ p.name ∷ [] else matched)

unfoldable pub redact_text : List Pattern → String → String × List String
unfolding sweep
redact_text patterns text = sweep patterns text []

-- The test `key is not None and key in sensitive_fields and not allow_raw`.
unfoldable pub masks : List String → Bool → Option String → Bool
masks sensitive_fields allow_raw none = false
masks sensitive_fields allow_raw (some key) = contains sensitive_fields key && not allow_raw

unfoldable pub note_field : Option String → Found → Found
note_field none f = f
note_field (some key) f = record f { redacted_fields = note f.redacted_fields key }

-- A value under a sensitive key: the key is noted and the value is masked.
unfoldable pub masked : Option String → Found → Json × Found
masked key f = (str mask, note_field key f)

module _ (patterns : List Pattern) (sensitive_fields : List String) (allow_raw : Bool) where
  unfoldable pub walk_text : String → Option String → Found → Json × Found
  walk_text text key f =
      if masks sensitive_fields allow_raw key
      then masked key f
      else (let (new, matched) = redact_text patterns text in
          (str new, record f { matched_patterns = note_all f.matched_patterns matched }))

  unfoldable pub walk_scalar : Json → Option String → Found → Json × Found
  walk_scalar node key f = if masks sensitive_fields allow_raw key then masked key f else (node, f)

  -- `_walk`: `key` is the dict key that leads to the node, through lists too.
  unfoldable mutual
    pub walk : Json → Option String → Found → Json × Found
    walk (dict d) key f = let (d', f') = walk_dict d f in (dict d', f')
    walk (list xs) key f = let (xs', f') = walk_items xs key f in (list xs', f')
    walk (str text) key f = walk_text text key f
    walk null key f = walk_scalar null key f
    walk (bool b) key f = walk_scalar (bool b) key f
    walk (int n) key f = walk_scalar (int n) key f
    walk (float m k) key f = walk_scalar (float m k) key f

    pub walk_items : Items → Option String → Found → Items × Found
    walk_items nil key f = (nil, f)
    walk_items (cons v vs) key f =
        let (v', f') = walk v key f in let (vs', f'') = walk_items vs key f' in (cons v' vs', f'')

    pub walk_dict : Dict → Found → Dict × Found
    walk_dict end f = (end, f)
    walk_dict (entry k v d) f =
        let (v', f') = walk v (some k) f in let (d', f'') = walk_dict d f' in (entry k v' d', f'')

  unfoldable pub redact : Json → RedactionResult
  unfolding walk
  redact node = let (output, f) = walk node none nothing in record { output = output; found = f }
