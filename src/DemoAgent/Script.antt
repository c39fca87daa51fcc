-- ===== src/DemoAgent/Script.antt =====
-- `run_demo` of apps/demo-agent/agent.py. None stands for an exception: of httpx, or of an item that an
-- answer does not have.
use nervora.Base.{
  ℕ, zero, suc, ◌-◌, String, Bool, ◌||◌, List, [], ◌∷◌, ◌++◌, Option, none, some, fstring, slice_to,
  if◌then◌else◌,
}
use nervora.Json.{Json, str, list, dict, Items, nil, cons, Dict, end, entry, get, as_dict}
use nervora.Numbers.Positional.{chars}
use nervora.Common.Settings.{Settings}
use nervora.Api.Served.{Headers}
use nervora.DemoAgent.{Client, headers, call, show, value_of, is_true, is_text}

-- What the script has printed, beside the state of what it calls.
pub record Session (S : Type 0) : Type 0 where
  pub state : S
  pub printed : List String

abbrev pub Run : Type 0 → Type 0 → Type 0
Run S A = Session S → Option (A × Session S)

module _ {S : Type 0} where
  infixl 5 ◌>>=◌ ◌>>◌
  abbrev pub ◌>>=◌ : {A B : Type 0} → Run S A → (A → Run S B) → Run S B
  ◌>>=◌ m f c = elim (m c) [ none ↦ none | some (a, c') ↦ f a c' ]

  abbrev pub ◌>>◌ : {B : Type 0} → Run S (Unit {0}) → Run S B → Run S B
  m >> k = m >>= λ _. k

  abbrev pub return : {A : Type 0} → A → Run S A
  return a c = some (a, c)

  abbrev pub given : {A : Type 0} → Option A → Run S A
  given none c = none
  given (some a) c = some (a, c)

  abbrev pub print_lines : List String → Run S (Unit {0})
  print_lines lines c = some (tt, record c { printed = c.printed ++ lines })

  -- A call that httpx may end by an exception.
  abbrev pub ask : {A : Type 0} → (S → Option A × S) → Run S A
  ask f c =
      let (answer, s) = f c.state in
      elim answer [ none ↦ none | some a ↦ some (a, record c { state = s }) ]

  abbrev pub change : (S → S) → Run S (Unit {0})
  change f c = some (tt, record c { state = f c.state })

-- `d[k]`, which raises for a missing key.
abbrev pub item : Json → String → Option Json
item v k = get (as_dict v) k

abbrev pub text_only : Option Json → Option String
text_only (some (str s)) = some s
text_only _ = none

-- `[t["name"] for t in tools]`
unfoldable pub item_of_each : String → Items → Option Items
item_of_each k nil = some nil
item_of_each k (cons v vs) = elim (item v k) [
  | none ↦ none
  | some name ↦ elim (item_of_each k vs) [ none ↦ none | some names ↦ some (cons name names) ]
]

abbrev pub items_in : Json → Items
items_in (list xs) = xs
items_in _ = nil

abbrev blanks : ℕ → String
blanks zero = ""
blanks (suc n) = fstring (" " ∷ blanks n ∷ [])

-- `f"{s:<{width}}"`
unfoldable pub ljust : ℕ → String → String
ljust width s = fstring (s ∷ blanks (width - chars s) ∷ [])

abbrev pub is_terminal : Json → Bool
is_terminal status =
    is_text status "succeeded" || is_text status "failed" || is_text status "dead_letter"

module _ (encode : Dict → String → String) (settings : Settings) (str_of : Json → String)
    (pretty : Json → String) {S : Type 0} (client : Client S) (gateway_url : String) where
  -- `_show(label, _call(client, role, tool, arguments, idempotency_key=…))`
  unfoldable pub shown : String → String → String → Dict → Option String → Run S Dict
  unfolding call show
  shown label role tool arguments idempotency_key = do
    (status, answer) ←
        ask (call encode settings client gateway_url role tool arguments none idempotency_key)
    print_lines (show str_of pretty label status answer)
    return answer

  abbrev pub fetched : String → (ℕ → Headers) → Run S Json
  fetched path h = ask (λ s. client.fetch (fstring (gateway_url ∷ path ∷ [])) (h (client.now s)) s)

  -- The loop over the job's status, with the rounds that are left.
  unfoldable pub poll_job : ℕ → String → Run S (Unit {0})
  unfolding headers
  poll_job zero job_id = return tt
  poll_job (suc rounds) job_id = do
    job ←
        fetched (fstring ("/jobs/" ∷ job_id ∷ []))
          (headers encode settings "finance_agent" none none)
    status ← given (item job "status")
    attempts ← given (item job "attempts")
    print_lines (
        fstring
          ("  job " ∷ job_id ∷ ": status=" ∷ str_of status ∷ " attempts=" ∷ str_of attempts ∷ [])
        ∷ [])
    let rest = change client.sleep >> poll_job rounds job_id
    if is_terminal status then return tt else rest

  unfoldable pub print_calls : Items → Run S (Unit {0})
  unfolding ljust
  print_calls nil = return tt
  print_calls (cons c cs) = do
    created_at ← given (item c "created_at")
    tool_name ← given (text_only (item c "tool_name"))
    role ← given (text_only (item c "role"))
    decision ← given (text_only (item c "decision"))
    redaction_status ← given (item c "redaction_status")
    trace_id ← given (text_only (item c "trace_id"))
    print_lines (
        fstring (
          "  "
          ∷ str_of created_at
          ∷ " | "
          ∷ ljust 28 tool_name
          ∷ " | role="
          ∷ ljust 14 role
          ∷ " | decision="
          ∷ ljust 9 decision
          ∷ " | redaction="
          ∷ str_of redaction_status
          ∷ " | trace="
          ∷ slice_to 12 trace_id
          ∷ [])
        ∷ [])
    print_calls cs

  -- The arguments of the calls.
  abbrev budget_query : Dict
  budget_query = entry "department_id" (str "FIN-100") (entry "period" (str "2024-Q2") end)

  abbrev workflow_query : Dict
  workflow_query =
      entry "workflow_name" (str "nightly_budget_rollup")
        (entry "parameters" (dict (entry "period" (str "2024-Q2") end)) end)

  abbrev employee_query : Dict
  employee_query = entry "employee_id" (str "E-1001") end

  abbrev crm_changes : Dict
  crm_changes =
      entry "account_id" (str "ACC-300")
        (entry "proposed_changes" (dict (entry "tier" (str "gold") end)) end)

  abbrev crm_update : Dict
  crm_update =
      entry "account_id" (str "ACC-300") (entry "approved_change_id" (str "apr_does_not_exist") end)

  -- The part about the job of an answer, if it names one.
  unfoldable pub follow_job : Json → Run S (Unit {0})
  unfolding poll_job
  follow_job job_id =
      let follow =
        print_lines ("\n=== 5. Worker processes job (polling status) ===" ∷ [])
        >> poll_job 20 (str_of job_id) in
      if is_true job_id then follow else return tt

  unfoldable pub run_demo : Run S (Unit {0})
  unfolding shown follow_job print_calls item_of_each headers value_of
  run_demo = do
    print_lines (fstring ("Gateway: " ∷ gateway_url ∷ []) ∷ [])
    tools ← fetched "/tools" (λ now. [])
    names ← given (item_of_each "name" (items_in tools))
    print_lines (fstring ("Tools: " ∷ str_of (list names) ∷ []) ∷ [])
    report ←
        shown "1. Finance Agent -> run_budget_variance_report (allowed)" "finance_agent"
          "run_budget_variance_report" budget_query none
    queued ←
        shown "3. Finance Agent -> trigger_databricks_workflow (queued async)" "finance_agent"
          "trigger_databricks_workflow" workflow_query (some "demo-key-001")
    follow_job (value_of queued "job_id")
    again ←
        shown "3b. Duplicate submit (same Idempotency-Key) -> returns existing job" "finance_agent"
          "trigger_databricks_workflow" workflow_query (some "demo-key-001")
    denied ←
        shown "7. Sales Agent -> get_employee_profile (DENIED by RBAC)" "sales_agent"
          "get_employee_profile" employee_query none
    profile ←
        shown "7b. HR Agent -> get_employee_profile (allowed, PII redacted)" "hr_agent"
          "get_employee_profile" employee_query none
    dry_run ←
        shown "8. Sales Agent -> create_crm_update_dry_run (dry-run, no writes)" "sales_agent"
          "create_crm_update_dry_run" crm_changes none
    blocked ←
        shown "9. Admin Agent -> execute_crm_update (BLOCKED, destructive/disabled)" "admin_agent"
          "execute_crm_update" crm_update none
    print_lines ("\n=== Audit trail (most recent) ===" ∷ [])
    calls ← fetched "/audit/tool-calls?limit=12" (headers encode settings "admin_agent" none none)
    print_calls (items_in calls)
