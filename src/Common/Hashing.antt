-- ===== src/Common/Hashing.antt =====
-- packages/common/ids.py: `sha256_hex`, a digest of canonical JSON. The digest itself and the repr of a
-- float are arguments. `default=str` is for values outside JSON.
pub mod Stable
pub mod Hexadecimal
pub mod Escapes
pub mod Quoting
pub mod Decimals
pub mod Numbers
pub mod Values
pub mod Kinds
pub mod Injective
pub mod Distinct
pub mod Fractions
mod Tests
use Prim.Native.Nat.{◌/◌, ◌%◌}
use Prim.Native.Char.{Char, code}
use Prim.Native.String as Str
use nervora.Base.{
  ℕ, ◌+◌, ◌-◌, String, Bool, true, false, List, [], ◌∷◌, nat_eq, leb, ltb, ◌&&◌, if◌then◌else◌,
  fstring,
}
use nervora.Json.{
  ℤ, Json, null, bool, int, float, str, list, dict, Items, nil, cons, Dict, end, entry,
}
use nervora.Json.Sorting.{insert_item}
use nervora.Numbers.Decimal.{int_text}
use nervora.Numbers.Positional.{text_of}

-- `sort_keys`: the items of every dict in the order of their keys.
unfoldable mutual
  unfolding insert_item

  pub canonical : Json → Json
  canonical (list xs) = list (canonical_items xs)
  canonical (dict d) = dict (canonical_dict d)
  canonical v = v

  pub canonical_items : Items → Items
  canonical_items nil = nil
  canonical_items (cons v xs) = cons (canonical v) (canonical_items xs)

  pub canonical_dict : Dict → Dict
  canonical_dict end = end
  canonical_dict (entry k v d) = insert_item k (canonical v) (canonical_dict d)

-- `"\\u{0:04x}".format(n)`
unfoldable pub unicode_escape : ℕ → String
unfolding text_of
unicode_escape n =
    fstring ("\\u" ∷ text_of (n / 4096 % 16 ∷ n / 256 % 16 ∷ n / 16 % 16 ∷ n % 16 ∷ []) ∷ [])

-- A character of a text under `ensure_ascii`; one beyond 0xFFFF is a surrogate pair.
unfoldable pub escaped : Char → String
unfolding unicode_escape
escaped c =
    let n = code c in
    if nat_eq n 34
    then "\\\""
    else if nat_eq n 92
    then "\\\\"
    else if nat_eq n 10
    then "\\n"
    else if nat_eq n 13
    then "\\r"
    else if nat_eq n 9
    then "\\t"
    else if nat_eq n 12
    then "\\f"
    else if nat_eq n 8
    then "\\b"
    else if leb 32 n && leb n 126
    then Str.◌∷◌ c Str.[]
    else if ltb n 65536
    then unicode_escape n
    else fstring (
        unicode_escape (55296 + (n - 65536) / 1024 % 1024)
        ∷ unicode_escape (56320 + (n - 65536) % 1024)
        ∷ [])

unfoldable pub escape : String → String
unfolding escaped
escape Str.[] = ""
escape (Str.◌∷◌ c s) = fstring (escaped c ∷ escape s ∷ [])

unfoldable pub quoted : String → String
unfolding escape
quoted s = fstring ("\"" ∷ escape s ∷ "\"" ∷ [])

module _ (float_repr : ℤ → ℕ → String) where
  -- The text of a value, with `separators=(",", ":")`; the lists and dicts from their second item on.
  unfoldable mutual
    unfolding quoted int_text

    pub text : Json → String
    text null = "null"
    text (bool true) = "true"
    text (bool false) = "false"
    text (int n) = int_text n
    text (float m k) = float_repr m k
    text (str s) = quoted s
    text (list nil) = "[]"
    text (list (cons v xs)) = fstring ("[" ∷ text v ∷ text_items xs ∷ [])
    text (dict end) = "{}"
    text (dict (entry k v d)) = fstring ("{" ∷ quoted k ∷ ":" ∷ text v ∷ text_dict d ∷ [])

    pub text_items : Items → String
    text_items nil = "]"
    text_items (cons v xs) = fstring ("," ∷ text v ∷ text_items xs ∷ [])

    pub text_dict : Dict → String
    text_dict end = "}"
    text_dict (entry k v d) = fstring ("," ∷ quoted k ∷ ":" ∷ text v ∷ text_dict d ∷ [])

  -- `json.dumps(payload, sort_keys=True, separators=(",", ":"))`
  unfoldable pub dumps : Json → String
  unfolding canonical text
  dumps payload = text (canonical payload)

  unfoldable pub sha256_hex : (String → String) → Json → String
  unfolding dumps
  sha256_hex sha256 payload = sha256 (dumps payload)
