-- ===== src/Common/Hashing/Distinct.antt =====
-- That `sha256_hex` of packages/common/ids.py hashes the text of different data differently.
use Prim.Native.Nat.{Ordering}
use Prim.Native.String as Str
use Prim.Native.String.{compare}
use nervora.Base.{String, ℕ, ◌≡◌, ◌↔◌, refl, sym, ap, subst}
use nervora.Json.{ℤ, Json, list, dict, Items, nil, cons, Dict, end, entry}
use nervora.Json.Sorting.{insert_item}
use nervora.Json.Order.{compare_gt}
use nervora.Common.Hashing.{canonical, canonical_items, canonical_dict, dumps}
use nervora.Common.Hashing.Stable.{
  SameData, same, lists, dicts, SameItems, nils, conses, SameDict, ends, entries, swap, trans,
  sha256_hex-SameData,
}
use nervora.Common.Hashing.Numbers.{PrintsFloats}
use nervora.Common.Hashing.Values.{HasReduced, ItemsHaveReduced, DictHasReduced}
use nervora.Common.Hashing.Injective.{text-injective}

SameDict-refl : (d : Dict) → SameDict d d
SameDict-refl end = ends
SameDict-refl (entry k v d) = entries k (same v) (SameDict-refl d)

SameItems-refl : (xs : Items) → SameItems xs xs
SameItems-refl nil = nils
SameItems-refl (cons v xs) = conses (same v) (SameItems-refl xs)

mutual
  SameData-sym : {v w : Json} → SameData v w → SameData w v
  SameData-sym (same v) = same v
  SameData-sym (lists s) = lists (SameItems-sym s)
  SameData-sym (dicts s) = dicts (SameDict-sym s)

  SameItems-sym : {xs ys : Items} → SameItems xs ys → SameItems ys xs
  SameItems-sym nils = nils
  SameItems-sym (conses s t) = conses (SameData-sym s) (SameItems-sym t)

  SameDict-sym : {d e : Dict} → SameDict d e → SameDict e d
  SameDict-sym ends = ends
  SameDict-sym (entries k s t) = entries k (SameData-sym s) (SameDict-sym t)
  SameDict-sym (swap j k v w d ne) = swap k j w v d (λ e. ne (sym e))
  SameDict-sym (trans s t) = trans (SameDict-sym t) (SameDict-sym s)

mutual
  SameData-trans : {u v w : Json} → SameData u v → SameData v w → SameData u w
  SameData-trans (same v) t = t
  SameData-trans (lists s) (same _) = lists s
  SameData-trans (lists s) (lists t) = lists (SameItems-trans s t)
  SameData-trans (dicts s) (same _) = dicts s
  SameData-trans (dicts s) (dicts t) = dicts (trans s t)

  SameItems-trans : {xs ys zs : Items} → SameItems xs ys → SameItems ys zs → SameItems xs zs
  SameItems-trans nils nils = nils
  SameItems-trans (conses s t) (conses s' t') = conses (SameData-trans s s') (SameItems-trans t t')

-- An item moves past items under other keys only.
insert_item-SameDict :
    (k : String) (v : Json) (d : Dict) → SameDict (entry k v d) (insert_item k v d)
unfolding insert_item
insert_item-SameDict k v end = SameDict-refl (entry k v end)
insert_item-SameDict k v (entry j w d) =
    elim (compare k j)
        as (λ o.
          compare k j ≡ o
          → SameDict (entry k v (entry j w d)) (elim o [
            | Ordering.gt ↦ entry j w (insert_item k v d)
            | _ ↦ entry k v (entry j w d)
          ])) [
            | Ordering.gt ↦ λ e.
                trans (swap k j v w d (λ p. cc (compare_gt k j e, p)))
                  (entries j (same w) (insert_item-SameDict k v d))
            | _ ↦ λ e. SameDict-refl (entry k v (entry j w d))
          ]
      refl

mutual
  unfolding canonical canonical_items canonical_dict

  SameData-canonical : (v : Json) → SameData v (canonical v)
  SameData-canonical (list xs) = lists (SameItems-canonical_items xs)
  SameData-canonical (dict d) = dicts (SameDict-canonical_dict d)
  SameData-canonical v = same v

  SameItems-canonical_items : (xs : Items) → SameItems xs (canonical_items xs)
  SameItems-canonical_items nil = nils
  SameItems-canonical_items (cons v xs) =
      conses (SameData-canonical v) (SameItems-canonical_items xs)

  SameDict-canonical_dict : (d : Dict) → SameDict d (canonical_dict d)
  SameDict-canonical_dict end = ends
  SameDict-canonical_dict (entry k v d) =
      trans (entries k (SameData-canonical v) (SameDict-canonical_dict d))
        (insert_item-SameDict k (canonical v) (canonical_dict d))

insert_item-HasReduced :
    (k : String) (v : Json) (d : Dict)
    → HasReduced v
    → DictHasReduced d
    → DictHasReduced (insert_item k v d)
unfolding insert_item HasReduced
insert_item-HasReduced k v end hv hd = (hv, hd)
insert_item-HasReduced k v (entry j w d) hv hd =
    elim (compare k j)
      as (λ o.
        DictHasReduced
          (elim o [ Ordering.gt ↦ entry j w (insert_item k v d) | _ ↦ entry k v (entry j w d) ])) [
            | Ordering.gt ↦ (hd.0, insert_item-HasReduced k v d hv hd.1)
            | _ ↦ (hv, hd)
          ]

mutual
  unfolding canonical canonical_items canonical_dict HasReduced

  canonical-HasReduced : (v : Json) → HasReduced v → HasReduced (canonical v)
  canonical-HasReduced (list xs) h = canonical_items-HasReduced xs h
  canonical-HasReduced (dict d) h = canonical_dict-HasReduced d h
  canonical-HasReduced v h = h

  canonical_items-HasReduced :
      (xs : Items) → ItemsHaveReduced xs → ItemsHaveReduced (canonical_items xs)
  canonical_items-HasReduced nil h = h
  canonical_items-HasReduced (cons v xs) h =
      (canonical-HasReduced v h.0, canonical_items-HasReduced xs h.1)

  canonical_dict-HasReduced : (d : Dict) → DictHasReduced d → DictHasReduced (canonical_dict d)
  canonical_dict-HasReduced end h = h
  canonical_dict-HasReduced (entry k v d) h =
      insert_item-HasReduced k (canonical v) (canonical_dict d) (canonical-HasReduced v h.0)
        (canonical_dict-HasReduced d h.1)

-- If the repr of floats is as Python's, two payloads with their doubles in lowest terms have one canonical text exactly if they are the same data, up to the
-- order of the keys of their dicts at any depth.
pub dumps-SameData_iff :
    (float_repr : ℤ → ℕ → String) (v w : Json)
    → PrintsFloats float_repr
    → HasReduced v
    → HasReduced w
    → (dumps float_repr v ≡ dumps float_repr w) ↔ SameData v w
unfolding dumps
dumps-SameData_iff float_repr v w prints hv hw = (
  λ h.
      let same_text = ap (λ s. Str.◌++◌ s "") h in
      let e =
        (text-injective float_repr prints (canonical v) (canonical w) "" ""
          (canonical-HasReduced v hv) (canonical-HasReduced w hw) refl refl same_text).0 in
      SameData-trans (SameData-canonical v)
        (subst (λ u. SameData u w) (sym e) (SameData-sym (SameData-canonical w))),
  λ s. (sha256_hex-SameData float_repr (λ t. t) s).0,
)
