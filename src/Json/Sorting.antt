-- ===== src/Json/Sorting.antt =====
-- The items of a dict in the order of their keys.
use Prim.Native.Nat.{Ordering}
use Prim.Native.String as Str
use nervora.Base.{String}
use nervora.Json.{Json, Dict, end, entry}

-- `sorted(d.items())`: the keys of a dict differ, so they alone decide.
unfoldable pub insert_item : String → Json → Dict → Dict
insert_item k v end = entry k v end
insert_item k v (entry j w d) = elim (Str.compare k j) [
  | Ordering.gt ↦ entry j w (insert_item k v d)
  | _ ↦ entry k v (entry j w d)
]

unfoldable pub sorted_items : Dict → Dict
unfolding insert_item
sorted_items end = end
sorted_items (entry k v d) = insert_item k v (sorted_items d)
