-- ===== src/Gateway/Gate.antt =====
-- The gate of destructive tools (`_handle_destructive` of apps/mcp-gateway/app/executor.py): what it
-- asks for, and that an approval is good for one execution.
use nervora.Base.{
  String, true, false, ◌≡◌, ◌≢◌, ◌↔◌, refl, arith, Option, none, some, Bool-cases, inl, inr,
  Option-cases, eq_iff,
}
use nervora.Json.{Dict, get, as_text}
use nervora.Common.Ids.{Ambient}
use nervora.Audit.Models.{Db, Approval, ApprovalStatus, executed}
use nervora.Audit.Repository.{get_approval}
use nervora.ToolRegistry.Spec.{ToolSpec, ToolContext, ToolResult, Result, ok, raise, Result-cases}
use nervora.Gateway.Request.{Executor, Request, is_approved}
use nervora.Gateway.Outcome.{InvocationOutcome}
use nervora.Gateway.Destructive.{token_refused, approval_for, execute_approved, handle_destructive}

-- The arguments name an approval that is in the table and approved.
abbrev pub NamesApproved : Dict → Db → Type 0
NamesApproved args db =
    (id : String) × (p : Approval) × (as_text (get args "approved_change_id") ≡ some id)
    × (id ≢ "")
    × (get_approval id db ≡ some p)
    × (p.status ≡ ApprovalStatus.approved)

-- The tool's code does not raise.
abbrev pub Runs : ToolSpec → ToolContext → Dict → Type 0
Runs spec ctx args = (result : ToolResult) × (spec.run ctx args ≡ ok result)

-- The token test: both texts are there and equal.
token_refused_iff :
    (configured : String) (token : Option String)
    → (token_refused configured token ≡ false) ↔ ((token ≡ some configured) × (configured ≢ ""))
unfolding token_refused
token_refused_iff configured none = ground arith
token_refused_iff configured (some t) =
    ground (arith, eq_iff t configured, eq_iff configured "", eq_iff t "")

approval_for-some :
    (o : Option String) (db : Db) (p : Approval)
    → approval_for o db ≡ some p
    → (id : String) × (o ≡ some id) × (id ≢ "") × (get_approval id db ≡ some p)
unfolding approval_for
approval_for-some none db p h = cc
approval_for-some (some id) db p h =
    (id, refl, ground (arith, eq_iff id ""), ground (arith, eq_iff id ""))

some-approval_for :
    (id : String) (db : Db) → id ≢ "" → approval_for (some id) db ≡ get_approval id db
unfolding approval_for
some-approval_for id db ne = ground (arith, eq_iff id "")

is_approved_lem : (s : ApprovalStatus) → is_approved s ≡ true → s ≡ ApprovalStatus.approved
is_approved_lem ApprovalStatus.approved h = refl
is_approved_lem _ h = cc

module _ {Q : Type 0} (x : Executor Q) (r : Request) (a : Ambient) where
  -- The call runs the tool and reports an execution.
  abbrev pub Executes : Result InvocationOutcome → Type 0
  Executes (ok o) = o.decision ≡ executed
  Executes (raise e) = ⊥

  execute_approved-Executes :
      (spec : ToolSpec) (args : Dict) (id : Option String) (p : Approval) (db : Db)
      → Executes (execute_approved x r a spec args id p db).0 ↔ Runs spec x.tool_ctx args
  unfolding execute_approved
  execute_approved-Executes spec args id p db = elim (Result-cases (spec.run x.tool_ctx args)) [
    | inl (v, e) ↦ rw (e, execute_approved) (λ h. (v, refl), λ h. refl)
    | inr (v, e) ↦ rw (e, execute_approved) (λ h. absurd h, λ h. cc h.1)
  ]

  -- What the gate lets through, before the tool runs.
  abbrev pub IsOpen : ToolSpec → Dict → Db → Type 0
  IsOpen spec args db =
      (spec.enabled ≡ true)
      × (r.approval_token ≡ some x.settings.admin_approval_token)
      × (x.settings.admin_approval_token ≢ "")
      × NamesApproved args db

  pub handle_destructive-IsOpen :
      (spec : ToolSpec) (args : Dict) (db : Db)
      → Executes (handle_destructive x r a spec args db).0
      → IsOpen spec args db
  unfolding handle_destructive
  handle_destructive-IsOpen spec args db h = elim (Bool-cases spec.enabled) [
    | inr off ↦ absurd (ground arith)
    | inl on ↦ elim (Bool-cases (token_refused x.settings.admin_approval_token r.approval_token)) [
      | inl bad ↦ absurd (ground arith)
      | inr good ↦ elim (Option-cases (approval_for (as_text (get args "approved_change_id")) db)) [
        | inl missing ↦ absurd (ground arith)
        | inr (p, found) ↦ elim (Bool-cases (is_approved p.status)) [
          | inr wrong ↦ absurd (ground arith)
          | inl right ↦
              let t = (token_refused_iff x.settings.admin_approval_token r.approval_token).0 good in
              let (id, named, ne, got) =
                approval_for-some (as_text (get args "approved_change_id")) db p found in
              (on, t.0, t.1, (id, p, named, ne, got, is_approved_lem p.status right))
        ]
      ]
    ]
  ]

  -- Behind the open gate.
  pub handle_destructive-open :
      (spec : ToolSpec) (args : Dict) (db : Db) (o : IsOpen spec args db)
      → handle_destructive x r a spec args db
        ≡ execute_approved x r a spec args (as_text (get args "approved_change_id")) (o.3).1 db
  unfolding handle_destructive
  handle_destructive-open spec args db (on, token, set_, (id, p, named, ne, got, right)) = ground (
    arith,
    (token_refused_iff x.settings.admin_approval_token r.approval_token).1 (token, set_),
    some-approval_for id db ne,
  )

  -- A destructive tool is executed exactly if it is enabled, the call carries the configured token,
  -- which is not empty, the approval that its arguments name is in the table and approved, and the
  -- tool's code does not raise. Which tool and resource the approval was made for is not asked.
  pub handle_destructive-Executes_iff :
      (spec : ToolSpec) (args : Dict) (db : Db)
      → Executes (handle_destructive x r a spec args db).0 ↔ (
          (spec.enabled ≡ true)
          × (r.approval_token ≡ some x.settings.admin_approval_token)
          × (x.settings.admin_approval_token ≢ "")
          × NamesApproved args db
          × Runs spec x.tool_ctx args)
  handle_destructive-Executes_iff spec args db = (
    λ h.
        let o = handle_destructive-IsOpen spec args db h in
        (
          o.0,
          o.1,
          o.2,
          o.3,
          (execute_approved-Executes spec args (as_text (get args "approved_change_id")) (o.3).1
                db).0
              (rw (handle_destructive-open spec args db o) at h),
        ),
    λ (on, token, set_, named, runs).
        rw (handle_destructive-open spec args db (on, token, set_, named)) (
          (execute_approved-Executes spec args (as_text (get args "approved_change_id")) named.1
              db).1
            runs),
  )
