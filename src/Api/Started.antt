-- ===== src/Api/Started.antt =====
-- What holds of the gateway after `lifespan` (apps/mcp-gateway/app/main.py) has started it.
use nervora.Base.{
  String, true, false, ◌≡◌, ◌≢◌, ◌⊎◌, refl, sym, subst, arith, some, ◌∙◌, ap, inl, inr,
}
use nervora.Base.Table.{find, find-key, unique}
use nervora.Common.Settings.{Settings, is_demo}
use nervora.Common.Ids.{Ambient}
use nervora.Audit.Models.{Db, denied}
use nervora.Audit.Session.{Session, committed, rolled_back, session_scope}
use nervora.ToolRegistry.Spec.{
  Exn, Result-cases, ok, raise, ToolSpec, destructive, classification_value, mode_value, pii_value,
}
use nervora.ToolRegistry.Registry.{ToolRegistry, get_tool, list_tools}
use nervora.World.{World}
use nervora.Gateway.Request.{Request}
use nervora.Gateway.Executor.{decide}
use nervora.ReferenceTools.Assembly.{build_registry}
use nervora.ReferenceTools.Catalog.{build_registry-IsGoverned}
use nervora.ReferenceTools.Demo.{destructive_denied}
use nervora.Api.Tools.{sync_policies, upsert_all, policy_of}
use nervora.Api.Sync.{upsert_all_current, tool_policy}
use nervora.Api.Startup.{App, Outside, wire, make_executor, lifespan}

raise-ne-ok : {A : Type 0} {e : Exn} {x : A} → raise e ≢ ok x
raise-ne-ok h = cc h

ok_same : {r r' : ToolRegistry} → ok r ≡ ok r' → r ≡ r'
ok_same h = cc h

Session-cases :
    (m : Session Unit) → ((db : Db) × (m ≡ committed tt db)) ⊎ ((db : Db) × (m ≡ rolled_back tt db))
Session-cases (committed _ db) = inl (db, refl)
Session-cases (rolled_back _ db) = inr (db, refl)

module _ {Q : Type 0} (o : Outside Q) (s : Settings) where
  wire-registry :
      (registry : ToolRegistry) (app : App Q)
      → wire o s registry ≡ ok app
      → (app.registry ≡ registry) × (app.executor.registry ≡ registry)
  unfolding wire make_executor
  wire-registry registry app h = ground arith

  -- A start-up that succeeds has built the registry and committed the snapshot.
  lifespan-built :
      (db db' : Db) (app : App Q)
      → lifespan o s db ≡ (ok app, db')
      → (build_registry o.model_validate (is_demo s) ≡ ok app.registry)
        × (app.executor.registry ≡ app.registry)
        × (sync_policies app.registry db ≡ committed tt db')
  unfolding lifespan
  lifespan-built db db' app h = elim (Result-cases (build_registry o.model_validate (is_demo s))) [
    | inr (e, failed) ↦ absurd (raise-ne-ok (ap (λ p. p.0) (rw (failed, lifespan) at h)))
    | inl (registry, built) ↦ elim (Session-cases (sync_policies registry db)) [
      | inr (db'', rolled) ↦
          absurd (raise-ne-ok (ap (λ p. p.0) (rw (built, rolled, lifespan) at h)))
      | inl (db'', synced) ↦
          let both : (wire o s registry, db'') ≡ (ok app, db') =
            rw (built, synced, lifespan) at h in
          let same = wire-registry registry app (ap (λ p. p.0) both) in
          let same_db : db'' ≡ db' = ap (λ p. p.1) both in
          (
            built ∙ ap ok (sym same.0),
            same.1 ∙ sym same.0,
            ap (λ r. sync_policies r db) same.0 ∙ synced ∙ ap (committed tt) same_db,
          )
    ]
  ]

  -- After a start-up that succeeds, a call of a destructive tool is denied and changes nothing,
  -- whoever calls, whatever approval and token are given, and whatever the settings are otherwise,
  -- unless the caller is an admin and the environment is not the demo's.
  pub decide-lifespan_denied :
      (db db' : Db) (app : App Q) (r : Request) (a : Ambient) (w : World Q) (spec : ToolSpec)
      → lifespan o s db ≡ (ok app, db')
      → get_tool app.executor.registry r.tool_name ≡ some spec
      → spec.classification ≡ destructive
      → ¬ ((is_demo s ≡ false) × (r.principal.role ≡ "admin_agent"))
      → ((decide app.executor r a w).0.decision ≡ denied) × ((decide app.executor r a w).1 ≡ w)
  decide-lifespan_denied db db' app r a w spec h found d no_right =
      let (built, same, _) = lifespan-built db db' app h in
      destructive_denied o.model_validate app.executor r a (is_demo s) w spec
        (built ∙ ap ok (sym same)) found d no_right

  sync_policies-pending :
      (registry : ToolRegistry) (db db' : Db)
      → sync_policies registry db ≡ committed tt db'
      → db' ≡ upsert_all (list_tools registry) db
  unfolding sync_policies session_scope
  sync_policies-pending registry db db' h = ground arith

  registry-unique :
      (registry : ToolRegistry)
      → build_registry o.model_validate (is_demo s) ≡ ok registry
      → unique (λ t. t.name) registry.tools ≡ true
  registry-unique registry built =
      let (registry', built', _, u, _) = build_registry-IsGoverned o.model_validate (is_demo s) in
      subst (λ (r : ToolRegistry). unique (λ t. t.name) r.tools ≡ true)
        (ok_same (sym built' ∙ built)) u

  -- After a start-up that succeeds, whatever the policy table held before, it has for each tool that
  -- the gateway can find a row with the tool's name, description, roles, classification, mode, PII
  -- class and two flags, written at the start-up.
  pub tool_policy-lifespan :
      (db db' : Db) (app : App Q) (name : String) (spec : ToolSpec)
      → lifespan o s db ≡ (ok app, db')
      → get_tool app.executor.registry name ≡ some spec
      → tool_policy name db'
        ≡ some (record {
          tool_name = name;
          description = spec.description;
          required_roles = spec.required_roles;
          classification = classification_value spec.classification;
          execution_mode = mode_value spec.execution_mode;
          pii_classification = pii_value spec.pii_classification;
          dry_run_required = spec.dry_run_required;
          enabled = spec.enabled;
          updated_at = db.now;
        })
  unfolding get_tool list_tools policy_of
  tool_policy-lifespan db db' app name spec h found =
      let (built, same, synced) = lifespan-built db db' app h in
      let here : find (λ t. t.name) name app.registry.tools ≡ some spec =
        subst (λ (r : ToolRegistry). find (λ t. t.name) name r.tools ≡ some spec) same found in
      let named : spec.name ≡ name = find-key (λ t. t.name) name app.registry.tools spec here in
      let current =
        upsert_all_current app.registry.tools spec db (registry-unique app.registry built)
          (ap (λ n. find (λ t. t.name) n app.registry.tools) named ∙ here) in
      ap (tool_policy name) (sync_policies-pending app.registry db db' synced)
      ∙ ap (λ n. tool_policy n (upsert_all app.registry.tools db)) (sym named)
      ∙ current
      ∙ ap (λ n. some (record (policy_of spec) { tool_name = n; updated_at = db.now })) named
