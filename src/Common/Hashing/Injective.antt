-- ===== src/Common/Hashing/Injective.antt =====
-- That the text of a value in packages/common/ids.py tells which value it is.
use Prim.Native.Char.{Char, char, code}
use Prim.Native.String as Str
use Prim.Native.String.append
use package.text.Mathlib.TextLemmas.{append_cancel_left}
use nervora.Base.{ℕ, String, true, false, ◌≡◌, ◌≢◌, refl, ap, ◌∙◌, sym, arith}
use nervora.Json.{
  ℤ, Json, null, bool, int, float, str, list, dict, Items, nil, cons, Dict, end, entry,
}
use nervora.Common.Hashing.{text, text_items, text_dict}
use nervora.Common.Hashing.Quoting.{first_code, rest_of, append-quoted, quoted-injective}
use nervora.Common.Hashing.Numbers.{
  Ends, PrintsFloats, number_of_ints, float-injective, int_differs,
}
use nervora.Common.Hashing.Values.{
  HasReduced, ItemsHaveReduced, DictHasReduced, append-list_nil, append-list_cons, append-items_nil,
  append-items_cons, append-dict_end, append-dict_entry, append-end, append-entry, item_text,
}
use nervora.Common.Hashing.Kinds.{
  Alike, nulls, bools, ints, floats, int_floats, float_ints, strs, lists, dicts, text-Alike,
  not_closed,
}

module _ (float_repr : ℤ → ℕ → String) (prints : PrintsFloats float_repr) where
  items-first : (xs : Items) (x : String) → Ends (Str.◌++◌ (text_items float_repr xs) x)
  items-first nil x = rw (append-items_nil float_repr x) refl
  items-first (cons v xs) x = rw (append-items_cons float_repr v xs x) refl

  dict-first : (d : Dict) (x : String) → Ends (Str.◌++◌ (text_dict float_repr d) x)
  dict-first end x = rw (append-end float_repr x) refl
  dict-first (entry k v d) x = rw (append-entry float_repr k v d x) refl

  -- Two texts that begin alike, whatever they are the texts of.
  after : {s t x y : String} (c : Char) → s ≡ Str.◌∷◌ c x → t ≡ Str.◌∷◌ c y → s ≡ t → x ≡ y
  after c p q h = ap rest_of (sym p ∙ h ∙ q)

  -- Texts that begin with different characters.
  differ :
      {s t x y : String} (c d : Char) → code c ≢ code d → s ≡ Str.◌∷◌ c x → t ≡ Str.◌∷◌ d y → s ≢ t
  differ c d ne p q h = ne (ap first_code (sym p ∙ h ∙ q))

  item-injective :
      (j k : String) (v w : Json) (x y : String)
      → item_text float_repr j v x ≡ item_text float_repr k w y
      → (j ≡ k) × (Str.◌++◌ (text float_repr v) x ≡ Str.◌++◌ (text float_repr w) y)
  item-injective j k v w x y h =
      let same = quoted-injective j k _ _ h in (same.0, ap rest_of same.1)

  -- An item does not begin with a closing brace.
  quote_differs :
      (k : String) (v : Json) (x y : String) → item_text float_repr k v x ≢ Str.◌∷◌ (char 125 tt) y
  quote_differs k v x y =
      differ (char 34 tt) (char 125 tt) (λ e. omega (arith, e)) (append-quoted k _) refl

  mutual
    unfolding text HasReduced

    same_value :
        (v w : Json) (x y : String)
        → HasReduced v
        → HasReduced w
        → Ends x
        → Ends y
        → Alike v w
        → Str.◌++◌ (text float_repr v) x ≡ Str.◌++◌ (text float_repr w) y
        → (v ≡ w) × (x ≡ y)
    same_value null _ x y hv hw hx hy nulls h = (refl, append_cancel_left "null" x y h)
    same_value (bool true) _ x y hv hw hx hy (bools _) h = (refl, append_cancel_left "true" x y h)
    same_value (bool false) _ x y hv hw hx hy (bools _) h = (refl, append_cancel_left "false" x y h)
    same_value (int m) _ x y hv hw hx hy (ints _ n) h =
        let same = number_of_ints m n x y hx hy h in (ap int same.0, same.1)
    same_value (int n) _ x y hv hw hx hy (int_floats _ m k) h =
        absurd (int_differs float_repr prints n m k x y hx hy h)
    same_value (float m k) _ x y hv hw hx hy (floats _ n _ l) h =
        let same = float-injective float_repr prints m n k l x y hv hw hx hy h in
        (λ i. float (same.0.0 i) (same.0.1 i), same.1)
    same_value (float m k) _ x y hv hw hx hy (float_ints _ _ n) h =
        absurd (int_differs float_repr prints n m k y x hy hx (sym h))
    same_value (str s) _ x y hv hw hx hy (strs _ t) h =
        let same = quoted-injective s t x y h in (ap str same.0, same.1)
    same_value (list nil) _ x y hv hw hx hy (lists _ nil) h = (
      refl,
      ap (λ s. rest_of (rest_of s))
          (sym (append-list_nil float_repr x) ∙ h ∙ append-list_nil float_repr y),
    )
    same_value (list nil) _ x y hv hw hx hy (lists _ (cons w ys)) h = absurd (
        not_closed float_repr prints w _ x (
          sym (
            after (char 91 tt) (append-list_nil float_repr x) (append-list_cons float_repr w ys y)
              h)))
    same_value (list (cons v xs)) _ x y hv hw hx hy (lists _ nil) h = absurd (
        not_closed float_repr prints v _ y (
          after (char 91 tt) (append-list_cons float_repr v xs x) (append-list_nil float_repr y) h))
    same_value (list (cons v xs)) _ x y hv hw hx hy (lists _ (cons w ys)) h =
        let rest =
          after (char 91 tt) (append-list_cons float_repr v xs x)
            (append-list_cons float_repr w ys y) h in
        let same = same_items (cons v xs) (cons w ys) x y hv hw (
          append-items_cons float_repr v xs x
          ∙ ap (Str.◌∷◌ (char 44 tt)) rest
          ∙ sym (append-items_cons float_repr w ys y)) in
        (ap list same.0, same.1)
    same_value (dict end) _ x y hv hw hx hy (dicts _ end) h = (
      refl,
      ap (λ s. rest_of (rest_of s))
          (sym (append-dict_end float_repr x) ∙ h ∙ append-dict_end float_repr y),
    )
    same_value (dict end) _ x y hv hw hx hy (dicts _ (entry k w e)) h = absurd (
        quote_differs k w _ x (
          sym (
            after (char 123 tt) (append-dict_end float_repr x)
              (append-dict_entry float_repr k w e y) h)))
    same_value (dict (entry j v d)) _ x y hv hw hx hy (dicts _ end) h = absurd (
        quote_differs j v _ y (
          after (char 123 tt) (append-dict_entry float_repr j v d x) (append-dict_end float_repr y)
            h))
    same_value (dict (entry j v d)) _ x y hv hw hx hy (dicts _ (entry k w e)) h =
        let rest =
          after (char 123 tt) (append-dict_entry float_repr j v d x)
            (append-dict_entry float_repr k w e y) h in
        let same = same_dict (entry j v d) (entry k w e) x y hv hw (
          append-entry float_repr j v d x
          ∙ ap (Str.◌∷◌ (char 44 tt)) rest
          ∙ sym (append-entry float_repr k w e y)) in
        (ap dict same.0, same.1)

    same_items :
        (xs ys : Items) (x y : String)
        → ItemsHaveReduced xs
        → ItemsHaveReduced ys
        → Str.◌++◌ (text_items float_repr xs) x ≡ Str.◌++◌ (text_items float_repr ys) y
        → (xs ≡ ys) × (x ≡ y)
    same_items nil nil x y hv hw h =
        (refl, after (char 93 tt) (append-items_nil float_repr x) (append-items_nil float_repr y) h)
    same_items nil (cons w ys) x y hv hw h = absurd (
        differ (char 93 tt) (char 44 tt) (λ e. omega (arith, e)) (append-items_nil float_repr x)
          (append-items_cons float_repr w ys y) h)
    same_items (cons v xs) nil x y hv hw h = absurd (
        differ (char 44 tt) (char 93 tt) (λ e. omega (arith, e))
          (append-items_cons float_repr v xs x) (append-items_nil float_repr y) h)
    same_items (cons v xs) (cons w ys) x y hv hw h =
        let h' =
          after (char 44 tt) (append-items_cons float_repr v xs x)
            (append-items_cons float_repr w ys y) h in
        let head =
          same_value v w _ _ hv.0 hw.0 (items-first xs x) (items-first ys y)
            (text-Alike float_repr prints v w _ _ h') h' in
        let tail = same_items xs ys x y hv.1 hw.1 head.1 in
        (λ i. cons (head.0 i) (tail.0 i), tail.1)

    same_dict :
        (d e : Dict) (x y : String)
        → DictHasReduced d
        → DictHasReduced e
        → Str.◌++◌ (text_dict float_repr d) x ≡ Str.◌++◌ (text_dict float_repr e) y
        → (d ≡ e) × (x ≡ y)
    same_dict end end x y hv hw h =
        (refl, after (char 125 tt) (append-end float_repr x) (append-end float_repr y) h)
    same_dict end (entry k w e) x y hv hw h = absurd (
        differ (char 125 tt) (char 44 tt) (λ e. omega (arith, e)) (append-end float_repr x)
          (append-entry float_repr k w e y) h)
    same_dict (entry j v d) end x y hv hw h = absurd (
        differ (char 44 tt) (char 125 tt) (λ e. omega (arith, e)) (append-entry float_repr j v d x)
          (append-end float_repr y) h)
    same_dict (entry j v d) (entry k w e) x y hv hw h =
        let keys = item-injective j k v w _ _ (
          after (char 44 tt) (append-entry float_repr j v d x) (append-entry float_repr k w e y)
            h) in
        let head =
          same_value v w _ _ hv.0 hw.0 (dict-first d x) (dict-first e y)
            (text-Alike float_repr prints v w _ _ keys.1) keys.1 in
        let tail = same_dict d e x y hv.1 hw.1 head.1 in
        (λ i. entry (keys.0 i) (head.0 i) (tail.0 i), tail.1)

  -- Values with their doubles in lowest terms are told apart by their texts, and what follows is too, unless it goes
  -- on with a character of a number.
  pub text-injective :
      (v w : Json) (x y : String)
      → HasReduced v
      → HasReduced w
      → Ends x
      → Ends y
      → Str.◌++◌ (text float_repr v) x ≡ Str.◌++◌ (text float_repr w) y
      → (v ≡ w) × (x ≡ y)
  text-injective v w x y hv hw hx hy h =
      same_value v w x y hv hw hx hy (text-Alike float_repr prints v w x y h) h
