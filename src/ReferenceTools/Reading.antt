-- ===== src/ReferenceTools/Reading.antt =====
-- How the handlers of packages/tool_registry/tools.py read their arguments. An absent key is a
-- KeyError; an id that is no text, which no input model lets through, counts as absent.
use nervora.Base.{String, List, [], ◌∷◌, none, some, fstring}
use nervora.Json.{Json, null, bool, int, float, str, list, dict, Dict, end, get}
use nervora.ToolRegistry.Spec.{Exn, tool_error, exception, Result, ok, raise, ToolResult}
use nervora.ReferenceTools.Fixtures.{row_of}

infixl 5 ◌>>=◌
abbrev pub ◌>>=◌ {ℓ κ} : {A : Type ℓ} {B : Type κ} → Result A → (A → Result B) → Result B
ok a >>= f = f a
raise e >>= f = raise e

abbrev pub key_error : String → Exn
key_error key = exception (fstring ("'" ∷ key ∷ "'" ∷ []))

-- `args[key]`
abbrev pub item : Dict → String → Result Json
item args key = elim (get args key) [ none ↦ raise (key_error key) | some v ↦ ok v ]

-- `args[key]` of a text.
abbrev pub text_item : Dict → String → Result String
text_item args key = elim (get args key) [ some (str s) ↦ ok s | _ ↦ raise (key_error key) ]

-- `args[key]` of a dict.
abbrev pub dict_item : Dict → String → Result Dict
dict_item args key = elim (get args key) [ some (dict d) ↦ ok d | _ ↦ raise (key_error key) ]

abbrev pub no_metadata : Dict → ToolResult
no_metadata output = record { output = output; metadata = end }

abbrev pub not_found : String → String → String → Exn
not_found before id after = tool_error (fstring (before ∷ id ∷ after ∷ [])) "NOT_FOUND"

-- The row of a table that `args[key]` names, or the error.
unfoldable pub fetch : List (String × Dict) → String → String → Dict → Result Dict
fetch table kind key args = do
  id ← text_item args key
  elim (row_of table id) [ none ↦ raise (not_found kind id " not found") | some row ↦ ok row ]

abbrev pub type_name : Json → String
type_name null = "NoneType"
type_name (bool b) = "bool"
type_name (int n) = "int"
type_name (float m k) = "float"
type_name (str s) = "str"
type_name (list xs) = "list"
type_name (dict d) = "dict"
