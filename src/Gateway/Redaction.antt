-- ===== src/Gateway/Redaction.antt =====
-- What `Executor.invoke` (apps/mcp-gateway/app/executor.py) shows of a tool's output.
use nervora.Base.{
  String, false, ◌≡◌, ◌≢◌, refl, sym, subst, arith, Option, some, Bool-cases, inl, inr, ◌⊎◌, ◌∙◌,
  ap, Member, contains, contains→Member,
}
use nervora.Json.{Dict, dict, get, as_text, as_dict}
use nervora.Rbac.{evaluate}
use nervora.Pii.{redact, walk}
use nervora.Pii.Masking.{IsMaskedDict, redact-IsMasked}
use nervora.Common.Ids.{Ambient}
use nervora.Audit.Models.{Db, Approval, executed}
use nervora.ToolRegistry.Spec.{ToolSpec, Result, ok, raise, tool_error, exception, Result-cases}
use nervora.ToolRegistry.Registry.{get_tool}
use nervora.World.{World}
use nervora.Gateway.Request.{Executor, Request, is_destructive, is_async}
use nervora.Gateway.Outcome.{InvocationOutcome}
use nervora.Gateway.Execution.{redact_output, handle_sync, handle_dry_run}
use nervora.Gateway.Queueing.{handle_async}
use nervora.Gateway.Destructive.{handle_destructive, execute_approved}
use nervora.Gateway.Gate.{Executes, handle_destructive-IsOpen, handle_destructive-open}
use nervora.Gateway.Executor.{failure, caught, route, decide, invoke}

module _ {Q : Type 0} (x : Executor Q) (r : Request) (a : Ambient) (spec : ToolSpec)
    (no_raw : ¬ Member r.principal.role spec.raw_pii_roles) where
  no_raw_test : contains spec.raw_pii_roles r.principal.role ≡ false
  no_raw_test = elim (Bool-cases (contains spec.raw_pii_roles r.principal.role)) [
    | inl e ↦ absurd (no_raw (contains→Member r.principal.role spec.raw_pii_roles e))
    | inr e ↦ e
  ]

  redact_output-IsMasked :
      (output : Dict)
      → IsMaskedDict spec.sensitive_fields (as_dict (redact_output x r a spec output).output)
  unfolding redact_output redact walk
  redact_output-IsMasked output =
      subst
        (λ b.
          IsMaskedDict spec.sensitive_fields
            (as_dict (redact x.patterns spec.sensitive_fields b (dict output)).output))
        (sym no_raw_test) (redact-IsMasked spec.sensitive_fields x.patterns (dict output))

  -- An executed outcome shows a result, and the result is masked.
  abbrev pub ShowsMasked : InvocationOutcome → Type 0
  ShowsMasked o = (d : Dict) × (o.result ≡ some d) × IsMaskedDict spec.sensitive_fields d

  abbrev Shows : Result InvocationOutcome → Type 0
  Shows (ok o) = (o.decision ≢ executed) ⊎ ShowsMasked o
  Shows (raise e) = Unit

  handle_sync-Shows : (args : Dict) → Shows (handle_sync x r a spec args)
  unfolding handle_sync
  handle_sync-Shows args = elim (Result-cases (spec.run x.tool_ctx args)) [
    | inl (v, e) ↦ rw (e, handle_sync) (inr (_, refl, redact_output-IsMasked v.output))
    | inr (v, e) ↦ rw (e, handle_sync) tt
  ]

  execute_approved-Shows :
      (args : Dict) (id : Option String) (p : Approval) (db : Db)
      → Shows (execute_approved x r a spec args id p db).0
  unfolding execute_approved
  execute_approved-Shows args id p db = elim (Result-cases (spec.run x.tool_ctx args)) [
    | inl (v, e) ↦ rw (e, execute_approved) (inr (_, refl, redact_output-IsMasked v.output))
    | inr (v, e) ↦ rw (e, execute_approved) tt
  ]

  Shows-executed :
      (m : Result InvocationOutcome) (o : InvocationOutcome)
      → m ≡ ok o
      → Shows m
      → o.decision ≡ executed
      → ShowsMasked o
  Shows-executed m o e s d = elim (subst Shows e s) [ inl n ↦ absurd (n d) | inr shown ↦ shown ]

  handle_destructive-ShowsMasked :
      (args : Dict) (db : Db) (o : InvocationOutcome)
      → (handle_destructive x r a spec args db).0 ≡ ok o
      → o.decision ≡ executed
      → ShowsMasked o
  handle_destructive-ShowsMasked args db o e d =
      let gate = handle_destructive-IsOpen x r a spec args db (subst (Executes x r a) (sym e) d) in
      let ran =
        ap (λ (m : Result InvocationOutcome × Db). m.0)
          (handle_destructive-open x r a spec args db gate) in
      Shows-executed _ o (sym ran ∙ e)
        (execute_approved-Shows args (as_text (get args "approved_change_id")) (gate.3).1 db) d

  -- The other handlers do not report an execution.
  abbrev IsOther : Result InvocationOutcome → Type 0
  IsOther (ok o) = o.decision ≢ executed
  IsOther (raise e) = Unit

  handle_dry_run-IsOther : (args : Dict) (db : Db) → IsOther (handle_dry_run x r a spec args db).0
  unfolding handle_dry_run
  handle_dry_run-IsOther args db = ground arith

  handle_async-IsOther : (args : Dict) (w : World Q) → IsOther (handle_async x r a spec args w).0
  unfolding handle_async
  handle_async-IsOther args w = ground arith

  abbrev Good : Result InvocationOutcome → Type 0
  Good m = (o : InvocationOutcome) → m ≡ ok o → o.decision ≡ executed → ShowsMasked o

  IsOther-Good : (m : Result InvocationOutcome) → IsOther m → Good m
  IsOther-Good m other o e d = absurd (subst IsOther e other d)

  caught-ShowsMasked :
      (m : Result InvocationOutcome)
      → Good m
      → (caught x r a m).decision ≡ executed
      → ShowsMasked (caught x r a m)
  unfolding failure
  caught-ShowsMasked (ok o) good d = good o refl d
  caught-ShowsMasked (raise (tool_error m c)) good d = cc
  caught-ShowsMasked (raise (exception m)) good d = cc

  route-ShowsMasked :
      (args : Dict) (w : World Q)
      → (route x r a spec args w).0.decision ≡ executed
      → ShowsMasked (route x r a spec args w).0
  unfolding route handle_dry_run handle_async handle_sync
  route-ShowsMasked args w d = elim (Bool-cases (is_destructive spec.classification)) [
    | inl e ↦
        rw (e, route)
          (caught-ShowsMasked _ (handle_destructive-ShowsMasked args w.db) (rw (e, route) at d))
    | inr e ↦ elim (Bool-cases spec.dry_run_required) [
      | inl e' ↦
          rw (e, e', route)
            (caught-ShowsMasked _ (IsOther-Good _ (handle_dry_run-IsOther args w.db))
              (rw (e, e', route) at d))
      | inr e' ↦ elim (Bool-cases (is_async spec.execution_mode)) [
        | inl e'' ↦
            rw (e, e', e'', route)
              (caught-ShowsMasked _ (IsOther-Good _ (handle_async-IsOther args w))
                (rw (e, e', e'', route) at d))
        | inr e'' ↦
            rw (e, e', e'', route)
              (caught-ShowsMasked _ (λ o s x. Shows-executed _ o s (handle_sync-Shows args) x)
                (rw (e, e', e'', route) at d))
      ]
    ]
  ]

  -- A call that reports an execution went the route of its tool.
  decide-route :
      (w : World Q)
      → get_tool x.registry r.tool_name ≡ some spec
      → (decide x r a w).0.decision ≡ executed
      → (args : Dict) × (decide x r a w ≡ route x r a spec args w)
  unfolding decide
  decide-route w found d =
      elim (Bool-cases
        (evaluate r.principal.role spec.required_roles x.known_roles spec.enabled).allowed) [
          | inr no_right ↦ absurd (ground arith)
          | inl right ↦ elim (Result-cases (spec.validate_args r.arguments)) [
            | inr (e, bad) ↦ absurd (ground arith)
            | inl (args, good) ↦ (args, ground arith)
          ]
        ]

  decide-ShowsMasked :
      (w : World Q)
      → get_tool x.registry r.tool_name ≡ some spec
      → (decide x r a w).0.decision ≡ executed
      → ShowsMasked (decide x r a w).0
  decide-ShowsMasked w found d =
      let (args, e) = decide-route w found d in rw e (route-ShowsMasked args w (rw e at d))

  decided :
      (w : World Q) (o : InvocationOutcome)
      → (invoke x r a w).0 ≡ some o
      → (o.decision ≡ (decide x r a w).0.decision) × (o.result ≡ (decide x r a w).0.result)
  unfolding invoke
  decided w o h = ground arith

  -- A call that reports an execution shows the tool's output with every plain value under a
  -- sensitive key of the tool masked, if the caller's role may not see raw data.
  pub invoke-ShowsMasked :
      (w : World Q) (o : InvocationOutcome)
      → get_tool x.registry r.tool_name ≡ some spec
      → (invoke x r a w).0 ≡ some o
      → o.decision ≡ executed
      → ShowsMasked o
  invoke-ShowsMasked w o found h d =
      let e = decided w o h in
      let (shown, at, masked) = decide-ShowsMasked w found (sym e.0 ∙ d) in
      (shown, e.1 ∙ at, masked)
