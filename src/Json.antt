-- ===== src/Json.antt =====
-- The values of a dynamic language that the program passes around: JSON data, and a Python dict
-- with text keys as its items in insertion order.
pub mod Sorting
pub mod Order
use nervora.Base.{ℕ, String, Bool, Option, none, some, ◌==◌, if◌then◌else◌}

-- Python's int. `negsuc n` is -(n + 1).
pub data ℤ : Type 0 where
  pos : ℕ → ℤ
  negsuc : ℕ → ℤ

mutual
  -- `float m k` is the double m / 2 ^ k: every finite double is such a fraction.
  pub data Json : Type 0 where
    null : Json
    bool : Bool → Json
    int : ℤ → Json
    float : ℤ → ℕ → Json
    str : String → Json
    list : Items → Json
    dict : Dict → Json

  pub data Items : Type 0 where
    nil : Items
    cons : Json → Items → Items

  pub data Dict : Type 0 where
    end : Dict
    entry : String → Json → Dict → Dict

-- `d.get(k)`
unfoldable pub get : Dict → String → Option Json
get end k = none
get (entry j v d) k = if j == k then some v else get d k

-- `d[k] = v`
unfoldable pub set : Dict → String → Json → Dict
set end k v = entry k v end
set (entry j w d) k v = if j == k then entry j v d else entry j w (set d k v)

-- `d.get(k)` of a dict whose values are read as texts; another value counts as missing.
abbrev pub as_text : Option Json → Option String
as_text (some (str s)) = some s
as_text _ = none

-- None or a text, as a value.
abbrev pub optional : Option String → Json
optional none = null
optional (some s) = str s

-- A value that is a dict.
abbrev pub as_dict : Json → Dict
as_dict (dict d) = d
as_dict _ = end

-- `d.get(k, {})` of a key that holds a dict.
abbrev pub dict_or_empty : Option Json → Dict
dict_or_empty none = end
dict_or_empty (some v) = as_dict v

-- `d.get(k, "")` of a key that holds a text.
abbrev pub text_or_empty : Option String → String
text_or_empty none = ""
text_or_empty (some s) = s
