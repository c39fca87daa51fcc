-- ===== src/DemoAgent/Tests.antt =====
-- Concrete requests of the demo agent (apps/demo-agent/agent.py).
use nervora.Base.{
  ℕ, zero, suc, ◌+◌, String, [], ◌∷◌, none, some, ◌≡◌, refl, arith, eq_iff, Member, Member→contains,
  contains, slice_to,
}
use nervora.Base.Table.{has, unique, find}
use nervora.Json.{Json, str, int, Dict, dict, end, entry, get}
use nervora.Auth.Tokens.{Jwt, claims, expired, bad_token}
use nervora.Auth.Minting.{minted_claims, persona_grant, persona_signer, mint_for}
use nervora.Audit.Session.{integrity}
use nervora.Common.Ids.{gen_approval_id, gen_job_id}
use nervora.Api.Served.{serve_invoke}
use nervora.Gateway.Samples.{settings, lookup, executor, ambient, world}
use nervora.DemoAgent.{Client, headers, show}
use nervora.DemoAgent.Script.{poll_job}
use nervora.DemoAgent.Access.{demo_verifier}
use nervora.DemoAgent.Denied.{call-IsDenied, IsDenied}
use nervora.ToolRegistry.Registry.{get_tool}

abbrev encode : Dict → String → String
encode c secret = "header.payload.signature"

-- The time of the run.
abbrev now : ℕ
now = 100

abbrev jwt : Jwt
jwt = record {
  decode_hs256 = λ token secret audience.
      claims (minted_claims (persona_signer settings) (persona_grant "sales_agent") now);
  signing_key = λ url token. bad_token "no keys";
  decode_rs256 = λ token key audience issuer. expired;
}

stranger : ¬ Member "sales_agent" executor.known_roles
unfolding contains
stranger h = cc (Member→contains "sales_agent" executor.known_roles h)

call-IsDenied_example : IsDenied world (
    serve_invoke jwt
      (demo_verifier settings)
      executor
      "lookup"
      (headers encode settings "sales_agent" none none now)
      (entry "arguments" (dict end) end)
      ambient
      world)
unfolding integrity unique has gen_approval_id gen_job_id get_tool contains mint_for find slice_to
call-IsDenied_example =
    call-IsDenied executor "lookup" lookup refl ambient jwt encode settings "sales_agent" now
      (λ e. ground (arith, eq_iff "sales_agent" "")) refl refl end none none world
      (λ h. stranger h.0) refl (record { request = refl; job = refl; approval = refl })

-- Texts are written as they are.
abbrev str_of : Json → String
str_of (str s) = s
str_of (int n) = "403"
str_of v = "None"

shown_denial :
    show str_of str_of "Sales" 403
      (entry "decision" (str "denied") (entry "error_code" (str "RBAC_DENIED") end))
    ≡ "\n=== Sales ===" ∷ "HTTP 403 | decision=denied | trace_id=None"
      ∷ "  error_code: RBAC_DENIED — None" ∷ []
unfolding show
shown_denial = refl

abbrev status_at : ℕ → String
status_at zero = "queued"
status_at (suc zero) = "running"
status_at _ = "succeeded"

-- A service whose job is done in the third second.
abbrev service : Client ℕ
service = record {
  post = λ url json h n. (none, n);
  fetch = λ url h n.
      (some (dict (entry "status" (str (status_at n)) (entry "attempts" (str "1") end))), n);
  now = λ n. n;
  sleep = λ n. n + 1;
}

polled :
    poll_job encode settings str_of str_of service "http://gw" 20 "job_1"
      (record { state = 0; printed = [] })
    ≡ some (
      tt,
      record {
        state = 2;
        printed =
            "  job job_1: status=queued attempts=1" ∷ "  job job_1: status=running attempts=1"
            ∷ "  job job_1: status=succeeded attempts=1" ∷ [];
      },
    )
unfolding poll_job get
polled = refl
