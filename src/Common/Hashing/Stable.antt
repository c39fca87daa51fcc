-- ===== src/Common/Hashing/Stable.antt =====
-- That `sha256_hex` of packages/common/ids.py does not see the order of keys.
use nervora.Base.{String, ◌≡◌, ◌≢◌, refl, ap, ◌∙◌, ℕ}
use nervora.Json.{ℤ, Json, list, dict, Items, nil, cons, Dict, end, entry}
use nervora.Json.Sorting.{insert_item}
use nervora.Json.Order.{insert_item_comm}
use nervora.Common.Hashing.{canonical, canonical_items, canonical_dict, dumps, sha256_hex}

-- The same data: items of dicts under different keys may have changed places, at any depth.
mutual
  pub data SameData : Json → Json → Type 0 where
    same : (v : Json) → SameData v v
    lists : {xs ys : Items} → SameItems xs ys → SameData (list xs) (list ys)
    dicts : {d e : Dict} → SameDict d e → SameData (dict d) (dict e)

  pub data SameItems : Items → Items → Type 0 where
    nils : SameItems nil nil
    conses :
        {v w : Json} {xs ys : Items}
        → SameData v w
        → SameItems xs ys
        → SameItems (cons v xs) (cons w ys)

  pub data SameDict : Dict → Dict → Type 0 where
    ends : SameDict end end
    entries :
        (k : String) {v w : Json} {d e : Dict}
        → SameData v w
        → SameDict d e
        → SameDict (entry k v d) (entry k w e)
    swap :
        (j k : String) (v w : Json) (d : Dict)
        → j ≢ k
        → SameDict (entry j v (entry k w d)) (entry k w (entry j v d))
    trans : {d e f : Dict} → SameDict d e → SameDict e f → SameDict d f

mutual
  unfolding canonical canonical_items canonical_dict

  canonical-SameData : {v w : Json} → SameData v w → canonical v ≡ canonical w
  canonical-SameData (same v) = refl
  canonical-SameData (lists s) = ap list (canonical-SameItems s)
  canonical-SameData (dicts s) = ap dict (canonical-SameDict s)

  canonical-SameItems : {xs ys : Items} → SameItems xs ys → canonical_items xs ≡ canonical_items ys
  canonical-SameItems nils = refl
  canonical-SameItems (conses s t) = λ i. cons (canonical-SameData s i) (canonical-SameItems t i)

  canonical-SameDict : {d e : Dict} → SameDict d e → canonical_dict d ≡ canonical_dict e
  canonical-SameDict ends = refl
  canonical-SameDict (entries k s t) =
      λ i. insert_item k (canonical-SameData s i) (canonical-SameDict t i)
  canonical-SameDict (swap j k v w d ne) =
      insert_item_comm j k (canonical v) (canonical w) (canonical_dict d) ne
  canonical-SameDict (trans s t) = canonical-SameDict s ∙ canonical-SameDict t

-- Payloads of the same data, whose dicts may list their items in another order at any depth, have
-- one canonical text and one hash.
pub sha256_hex-SameData :
    (float_repr : ℤ → ℕ → String) (sha256 : String → String) {v w : Json}
    → SameData v w
    → (dumps float_repr v ≡ dumps float_repr w)
      × (sha256_hex float_repr sha256 v ≡ sha256_hex float_repr sha256 w)
unfolding sha256_hex dumps
sha256_hex-SameData float_repr sha256 s = let e = canonical-SameData s in rw e (refl, refl)
