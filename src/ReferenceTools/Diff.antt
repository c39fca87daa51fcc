-- ===== src/ReferenceTools/Diff.antt =====
-- What the dry run of packages/tool_registry/tools.py lists as changes.
use nervora.Base.{String, false, ◌≡◌, ◌⊎◌, ◌↔◌, arith}
use nervora.Json.{Json, str, dict, Items, nil, cons, Dict, end, entry}
use nervora.ReferenceTools.Equality.{values_eq}
use nervora.ReferenceTools.Crm.{value_at, diff}

-- An item of a list, and an item of a dict, by recursion.
abbrev pub ListHas : Json → Items → Type 0
ListHas v nil = ⊥
ListHas v (cons w ws) = (w ≡ v) ⊎ ListHas v ws

abbrev pub DictHas : String → Json → Dict → Type 0
DictHas key v end = ⊥
DictHas key v (entry j w d) = ((j ≡ key) × (w ≡ v)) ⊎ DictHas key v d

module _ (account : Dict) where
  -- The diff holds an item with the fields "field", "from" and "to" exactly if a proposed item
  -- under that field differs from the account's value under it, None if there is none, "from" is
  -- the account's value and "to" is the proposed one.
  pub diff_iff :
      (key : String) (old new : Json) (proposed : Dict)
      → ListHas
          (dict (entry "field" (str key) (entry "from" old (entry "to" new end))))
          (diff account proposed)
        ↔ (DictHas key new proposed
            × (old ≡ value_at account key)
            × (values_eq (value_at account key) new ≡ false))
  unfolding diff
  diff_iff key old new end = ground arith
  diff_iff key old new (entry j w proposed) = ground (arith, diff_iff key old new proposed)
