-- ===== src/ReferenceTools/Demo.antt =====
-- The reference tools behind the gateway (apps/mcp-gateway/app/executor.py).
use nervora.Base.{
  String, Bool, false, List, [], ◌∷◌, ◌≡◌, sym, arith, All, some, subst, ◌∙◌, ◌==◌, inl, inr,
  Bool-cases, Member,
}
use nervora.Base.Table.{find}
use nervora.Json.{Dict}
use nervora.Common.Ids.{Ambient}
use nervora.Audit.Models.{denied, executed}
use nervora.ToolRegistry.Spec.{Result, ok, ToolSpec, destructive}
use nervora.ToolRegistry.Registry.{ToolRegistry, get_tool}
use nervora.Pii.Masking.{IsMaskedDict}
use nervora.World.{World}
use nervora.Gateway.Outcome.{InvocationOutcome}
use nervora.Gateway.Request.{Executor, Request}
use nervora.Gateway.Executor.{decide, invoke}
use nervora.Gateway.Effects.{decide-unauthorised}
use nervora.Gateway.Redaction.{invoke-ShowsMasked}
use nervora.ReferenceTools.InputModels.{InputModel}
use nervora.ReferenceTools.Assembly.{build_registry}
use nervora.ReferenceTools.Catalog.{IsGoverned, build_registry-IsGoverned}

-- A tool that is found is one of the table.
find-All :
    (P : ToolSpec → Type 0) (name : String) (tools : List ToolSpec) (spec : ToolSpec)
    → All P tools
    → find (λ t. t.name) name tools ≡ some spec
    → P spec
unfolding find
find-All P name [] spec all found = ground arith
find-All P name (t ∷ tools) spec all found = elim (Bool-cases (t.name == name)) [
  | inl e ↦ subst P (ground arith) all.0
  | inr e ↦ find-All P name tools spec all.1 (ground arith)
]

module _ (model_validate : InputModel → Dict → Result Dict) where
  same : {reg reg' : ToolRegistry} → ok reg ≡ ok reg' → reg ≡ reg'
  same e = cc

  found-IsGoverned :
      (demo_mode : Bool) (reg : ToolRegistry) (name : String) (spec : ToolSpec)
      → build_registry model_validate demo_mode ≡ ok reg
      → get_tool reg name ≡ some spec
      → IsGoverned demo_mode spec
  unfolding get_tool
  found-IsGoverned demo_mode reg name spec built found =
      let (reg', built', _, _, all) = build_registry-IsGoverned model_validate demo_mode in
      find-All (IsGoverned demo_mode) name reg.tools spec
        (subst (λ (r : ToolRegistry). All (IsGoverned demo_mode) r.tools)
          (same (sym built' ∙ built)) all)
        found

  module _ {Q : Type 0} (x : Executor Q) (r : Request) (a : Ambient) where
    -- A call of a destructive tool of the registry is denied and changes nothing, whatever approval
    -- and token are given, unless the caller is an admin and the registry was not built for demo
    -- mode.
    pub destructive_denied :
        (demo_mode : Bool) (w : World Q) (spec : ToolSpec)
        → build_registry model_validate demo_mode ≡ ok x.registry
        → get_tool x.registry r.tool_name ≡ some spec
        → spec.classification ≡ destructive
        → ¬ ((demo_mode ≡ false) × (r.principal.role ≡ "admin_agent"))
        → ((decide x r a w).0.decision ≡ denied) × ((decide x r a w).1 ≡ w)
    destructive_denied demo_mode w spec built found d no_right =
        let governed = found-IsGoverned demo_mode x.registry r.tool_name spec built found in
        let roles = governed.4 d in
        decide-unauthorised x r a w spec found
          (λ right. let listed = subst (Member r.principal.role) roles right.2 in ground arith)

    -- An executed call of a tool of the registry, in either mode and by any role, shows every plain
    -- value under a sensitive key of that tool masked.
    pub reference-ShowsMasked :
        (demo_mode : Bool) (w : World Q) (spec : ToolSpec) (o : InvocationOutcome)
        → build_registry model_validate demo_mode ≡ ok x.registry
        → get_tool x.registry r.tool_name ≡ some spec
        → (invoke x r a w).0 ≡ some o
        → o.decision ≡ executed
        → (d : Dict) × (o.result ≡ some d) × IsMaskedDict spec.sensitive_fields d
    reference-ShowsMasked demo_mode w spec o built found returned ran =
        let governed = found-IsGoverned demo_mode x.registry r.tool_name spec built found in
        invoke-ShowsMasked x r a spec (λ m. subst (Member r.principal.role) governed.2 m) w o found
          returned ran
