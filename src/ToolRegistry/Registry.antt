-- ===== src/ToolRegistry/Registry.antt =====
-- packages/tool_registry/registry.py: the tools by name, in the order of registration.
use nervora.Base.{ℕ, String, List, [], ◌∷◌, ◌++◌, Option, map, length, if◌then◌else◌, fstring}
use nervora.Base.Table.{find, has}
use nervora.ToolRegistry.Spec.{ToolSpec, Result, ok, raise, exception}

pub record ToolRegistry : Type 0 where
  pub tools : List ToolSpec

abbrev pub no_tools : ToolRegistry
no_tools = record { tools = [] }

-- A name that is taken is a ValueError.
unfoldable pub register : ToolSpec → ToolRegistry → Result ToolRegistry
register spec reg =
    if has (λ t. t.name) spec.name reg.tools
    then raise (exception (fstring ("duplicate tool registration: " ∷ spec.name ∷ [])))
    else ok (record { tools = reg.tools ++ spec ∷ [] })

unfoldable pub get_tool : ToolRegistry → String → Option ToolSpec
get_tool reg name = find (λ t. t.name) name reg.tools

unfoldable pub list_tools : ToolRegistry → List ToolSpec
list_tools reg = reg.tools

unfoldable pub names : ToolRegistry → List String
names reg = map (λ t. t.name) reg.tools

unfoldable pub size : ToolRegistry → ℕ
size reg = length reg.tools
