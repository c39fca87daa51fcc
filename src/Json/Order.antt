-- ===== src/Json/Order.antt =====
-- The order of texts, by code points, and the insertion of an item under a key.
use Prim.Native.Nat.{Ordering}
use Prim.Native.String as Str
use Prim.Native.String.compare
use Prim.Native.String.{compare}
use text.Mathlib.TextEquality.{path_by_compare}
use nervora.Base.{String, ◌≡◌, ◌≢◌, arith}
use nervora.Json.{Json, Dict, end, entry}
use nervora.Json.Sorting.{insert_item}

pub compare_gt : (s t : String) → compare s t ≡ Ordering.gt → compare t s ≡ Ordering.lt
compare_gt Str.[] Str.[] h = cc
compare_gt Str.[] (Str.◌∷◌ d t) h = cc (compare.nil-cons d t)
compare_gt (Str.◌∷◌ c s) Str.[] h = compare.nil-cons c s
compare_gt (Str.◌∷◌ c s) (Str.◌∷◌ d t) h =
    ground (arith, compare.cons-cons c d s t, compare.cons-cons d c t s, compare_gt s t)

compare_lt : (s t : String) → compare s t ≡ Ordering.lt → compare t s ≡ Ordering.gt
compare_lt Str.[] Str.[] h = cc
compare_lt Str.[] (Str.◌∷◌ d t) h = compare.cons-nil d t
compare_lt (Str.◌∷◌ c s) Str.[] h = cc (compare.cons-nil c s)
compare_lt (Str.◌∷◌ c s) (Str.◌∷◌ d t) h =
    ground (arith, compare.cons-cons c d s t, compare.cons-cons d c t s, compare_lt s t)

compare_trans :
    (s t u : String)
    → compare s t ≡ Ordering.gt
    → compare t u ≡ Ordering.gt
    → compare s u ≡ Ordering.gt
compare_trans Str.[] Str.[] u h k = cc
compare_trans Str.[] (Str.◌∷◌ d t) u h k = cc (compare.nil-cons d t)
compare_trans (Str.◌∷◌ c s) t Str.[] h k = compare.cons-nil c s
compare_trans (Str.◌∷◌ c s) Str.[] (Str.◌∷◌ e u) h k = cc (compare.nil-cons e u)
compare_trans (Str.◌∷◌ c s) (Str.◌∷◌ d t) (Str.◌∷◌ e u) h k = ground (
  arith,
  compare.cons-cons c d s t,
  compare.cons-cons d e t u,
  compare.cons-cons c e s u,
  compare_trans s t u,
)

-- Insertions under different keys commute.
pub insert_item_comm :
    (j k : String) (v w : Json) (d : Dict)
    → j ≢ k
    → insert_item j v (insert_item k w d) ≡ insert_item k w (insert_item j v d)
unfolding insert_item
insert_item_comm j k v w end h =
    ground (arith, compare_gt j k, compare_gt k j, compare_lt j k, path_by_compare j k)
insert_item_comm j k v w (entry i u d) h = ground (
  arith,
  compare_gt j k,
  compare_gt k j,
  compare_lt j k,
  path_by_compare j k,
  compare_trans j k i,
  compare_trans k j i,
  compare_lt k i,
  compare_lt j i,
  insert_item_comm j k v w d h,
)
