-- ===== src/Common/Hashing/Values.antt =====
-- The text of a value in packages/common/ids.py by the texts of its parts.
use Prim.Native.Char.{char}
use Prim.Native.String as Str
use Prim.Native.String.append
use package.text.Mathlib.TextLemmas.{append_assoc}
use nervora.Base.{ℕ, String, ◌≡◌, refl}
use nervora.Json.{ℤ, Json, float, str, list, dict, Items, nil, cons, Dict, end, entry}
use nervora.Common.Hashing.{quoted, text, text_items, text_dict}
use nervora.Common.Hashing.Numbers.{IsReduced}
use nervora.Common.Hashing.Escapes.{append_one, append_two}

-- The doubles of a value are in lowest terms.
unfoldable mutual
  pub HasReduced : Json → Type 0
  HasReduced (float m k) = IsReduced m k
  HasReduced (list xs) = ItemsHaveReduced xs
  HasReduced (dict d) = DictHasReduced d
  HasReduced v = Unit

  pub ItemsHaveReduced : Items → Type 0
  ItemsHaveReduced nil = Unit
  ItemsHaveReduced (cons v xs) = HasReduced v × ItemsHaveReduced xs

  pub DictHasReduced : Dict → Type 0
  DictHasReduced end = Unit
  DictHasReduced (entry k v d) = HasReduced v × DictHasReduced d

module _ (float_repr : ℤ → ℕ → String) where
  pub append-list_nil :
      (x : String)
      → Str.◌++◌ (text float_repr (list nil)) x ≡ Str.◌∷◌ (char 91 tt) (Str.◌∷◌ (char 93 tt) x)
  unfolding text
  append-list_nil x = append_two (char 91 tt) (char 93 tt) x

  pub append-list_cons :
      (v : Json) (xs : Items) (x : String)
      → Str.◌++◌ (text float_repr (list (cons v xs))) x
        ≡ Str.◌∷◌
            (char 91 tt)
            (Str.◌++◌ (text float_repr v) (Str.◌++◌ (text_items float_repr xs) x))
  unfolding text
  append-list_cons v xs x = simp (append_one (char 91 tt), append_assoc, append.cons, append.nil)

  pub append-items_nil :
      (x : String) → Str.◌++◌ (text_items float_repr nil) x ≡ Str.◌∷◌ (char 93 tt) x
  unfolding text_items
  append-items_nil x = append_one (char 93 tt) x

  pub append-items_cons :
      (v : Json) (xs : Items) (x : String)
      → Str.◌++◌ (text_items float_repr (cons v xs)) x
        ≡ Str.◌∷◌
            (char 44 tt)
            (Str.◌++◌ (text float_repr v) (Str.◌++◌ (text_items float_repr xs) x))
  unfolding text_items
  append-items_cons v xs x = simp (append_one (char 44 tt), append_assoc, append.cons, append.nil)

  pub append-dict_end :
      (x : String)
      → Str.◌++◌ (text float_repr (dict end)) x ≡ Str.◌∷◌ (char 123 tt) (Str.◌∷◌ (char 125 tt) x)
  unfolding text
  append-dict_end x = append_two (char 123 tt) (char 125 tt) x

  -- A key with its value, and what follows.
  abbrev pub item_text : String → Json → String → String
  item_text k v x = Str.◌++◌ (quoted k) (Str.◌∷◌ (char 58 tt) (Str.◌++◌ (text float_repr v) x))

  pub append-dict_entry :
      (k : String) (v : Json) (d : Dict) (x : String)
      → Str.◌++◌ (text float_repr (dict (entry k v d))) x
        ≡ Str.◌∷◌ (char 123 tt) (item_text k v (Str.◌++◌ (text_dict float_repr d) x))
  unfolding text
  append-dict_entry k v d x =
      simp
        (append_one (char 123 tt), append_one (char 58 tt), append_assoc, append.cons, append.nil)

  pub append-end : (x : String) → Str.◌++◌ (text_dict float_repr end) x ≡ Str.◌∷◌ (char 125 tt) x
  unfolding text_dict
  append-end x = append_one (char 125 tt) x

  pub append-entry :
      (k : String) (v : Json) (d : Dict) (x : String)
      → Str.◌++◌ (text_dict float_repr (entry k v d)) x
        ≡ Str.◌∷◌ (char 44 tt) (item_text k v (Str.◌++◌ (text_dict float_repr d) x))
  unfolding text_dict
  append-entry k v d x =
      simp (append_one (char 44 tt), append_one (char 58 tt), append_assoc, append.cons, append.nil)

  pub append-text_str :
      (s x : String) → Str.◌++◌ (text float_repr (str s)) x ≡ Str.◌++◌ (quoted s) x
  unfolding text
  append-text_str s x = refl
