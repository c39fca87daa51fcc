-- ===== src/ToolRegistry/Registration.antt =====
-- What packages/tool_registry/registry.py finds after a registration.
use nervora.Base.{
  String, true, false, List, [], ◌∷◌, ◌++◌, ◌≡◌, refl, arith, some, ◌==◌, eq_iff, if◌then◌else◌,
}
use nervora.Base.Table.{find, has, unique}
use nervora.ToolRegistry.Spec.{ToolSpec, ok}
use nervora.ToolRegistry.Registry.{ToolRegistry, register, get_tool}

abbrev pub name_of : ToolSpec → String
name_of t = t.name

-- A tool that is added at the end under a new name.
find-added :
    (spec : ToolSpec) (name : String) (tools : List ToolSpec)
    → has name_of spec.name tools ≡ false
    → find name_of name (tools ++ spec ∷ [])
      ≡ (if spec.name == name then some spec else find name_of name tools)
unfolding find has
find-added spec name [] h = refl
find-added spec name (t ∷ tools) h = ground (
  arith,
  find-added spec name tools,
  eq_iff spec.name name,
  eq_iff t.name name,
  eq_iff t.name spec.name,
)

has-added :
    (spec : ToolSpec) (name : String) (tools : List ToolSpec)
    → has name_of name tools ≡ false
    → has name_of name (tools ++ spec ∷ []) ≡ spec.name == name
unfolding has
has-added spec name [] h = ground arith
has-added spec name (t ∷ tools) h = ground (arith, has-added spec name tools)

unique-added :
    (spec : ToolSpec) (tools : List ToolSpec)
    → has name_of spec.name tools ≡ false
    → unique name_of tools ≡ true
    → unique name_of (tools ++ spec ∷ []) ≡ true
unfolding unique has
unique-added spec [] h u = refl
unique-added spec (t ∷ tools) h u = ground (
  arith,
  unique-added spec tools,
  has-added spec t.name tools,
  eq_iff spec.name t.name,
  eq_iff t.name spec.name,
)

-- A registration that succeeds makes the tool the one that its name finds, leaves what every other
-- name finds as it was, and keeps the names different.
pub register_ok :
    (spec : ToolSpec) (reg reg' : ToolRegistry) (name : String)
    → register spec reg ≡ ok reg'
    → unique name_of reg.tools ≡ true
    → (get_tool reg' name ≡ (if spec.name == name then some spec else get_tool reg name))
      × (unique name_of reg'.tools ≡ true)
unfolding register get_tool
register_ok spec reg reg' name h u =
    ground (arith, find-added spec name reg.tools, unique-added spec reg.tools)
