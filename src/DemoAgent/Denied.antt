-- ===== src/DemoAgent/Denied.antt =====
-- What the gateway answers to the demo agent (apps/demo-agent/agent.py) where its role has no right.
use nervora.Base.{ℕ, String, true, Option, some, ◌≡◌, ◌≢◌, refl, arith, Member, ◌∙◌}
use nervora.Json.{Dict, dict, end, entry}
use nervora.Common.Settings.{Settings}
use nervora.Common.Ids.{Ambient}
use nervora.Auth.Tokens.{Jwt, claims}
use nervora.Auth.Minting.{minted_claims, persona_grant, persona_signer}
use nervora.Auth.RoundTrip.{has_no_space}
use nervora.Audit.Models.{denied}
use nervora.Audit.Session.{integrity}
use nervora.ToolRegistry.Spec.{ToolSpec}
use nervora.ToolRegistry.Registry.{get_tool}
use nervora.World.{World}
use nervora.Gateway.Outcome.{InvocationOutcome, http_status}
use nervora.Gateway.Request.{Executor, Request}
use nervora.Gateway.Executor.{invoke, decide}
use nervora.Gateway.Effects.{decide-unauthorised, denied_no_effects}
use nervora.Gateway.Commits.{IsFresh, invoke_commits}
use nervora.Auth.Identity.{Principal}
use nervora.Api.Tools.{InvokeRequest, InvokeResponse, invoke_response, request_of, invoke_tool}
use nervora.Api.Served.{Answer, responded, answer_of, body_of, serve_invoke}
use nervora.DemoAgent.{headers}
use nervora.DemoAgent.Access.{token, persona_principal, demo_verifier, get_principal-headers}

-- The answer tells of a denial, and the rest of the world is as it was but for the audit tables.
pub record IsDenied {Q : Type 0} (w : World Q) (result : Answer × World Q) : Type 0 where
  pub response : InvokeResponse
  pub answered : result.0 ≡ responded response
  pub forbidden : response.status_code ≡ 403
  pub decision : response.decision ≡ denied
  pub same_approvals : result.1.db.approvals ≡ w.db.approvals
  pub same_jobs : result.1.db.jobs ≡ w.db.jobs
  pub same_keys : result.1.db.keys ≡ w.db.keys
  pub same_policies : result.1.db.policies ≡ w.db.policies
  pub same_queue : result.1.queue ≡ w.queue

module _ {Q : Type 0} (x : Executor Q) (r : Request) (a : Ambient) where
  invoke-decision :
      (w : World Q) (o : InvocationOutcome)
      → (invoke x r a w).0 ≡ some o
      → o.decision ≡ (decide x r a w).0.decision
  unfolding invoke
  invoke-decision w o h = ground arith

status_of_denied : (o : InvocationOutcome) → o.decision ≡ denied → http_status o ≡ 403
unfolding http_status
status_of_denied o e = rw e refl

module _ {Q : Type 0} (x : Executor Q) (tool : String) (spec : ToolSpec)
    (found : get_tool x.registry tool ≡ some spec) (a : Ambient) where
  -- The route behind its dependency.
  invoke_tool-IsDenied :
      (p : Principal) (b : InvokeRequest) (w : World Q)
      → (¬ (
          Member p.role x.known_roles × (spec.enabled ≡ true) × Member p.role spec.required_roles))
      → integrity w.db ≡ true
      → IsFresh x (request_of p tool b) a w.db
      → IsDenied w (answer_of (invoke_tool x p tool b a w).0, (invoke_tool x p tool b a w).1)
  unfolding invoke_tool invoke_response
  invoke_tool-IsDenied p b w no_right within fresh =
      let r = request_of p tool b in
      let (o, returned) = (invoke_commits x r a w within fresh).0 in
      let d =
        invoke-decision x r a w o returned ∙ (decide-unauthorised x r a w spec found no_right).0 in
      let same = denied_no_effects x r a w o returned d in
      record {
        response = invoke_response o;
        answered = rw (returned, invoke_tool) refl;
        forbidden = status_of_denied o d;
        decision = d;
        same_approvals = same.0;
        same_jobs = same.1;
        same_keys = same.2;
        same_policies = same.3;
        same_queue = same.4;
      }

  module _ (jwt : Jwt) (encode : Dict → String → String) (s : Settings) (role : String) (now : ℕ)
      (role_given : role ≢ "") (no_space : has_no_space (token encode s role now) ≡ true)
      (decoded : jwt.decode_hs256
          (token encode s role now)
          s.dev_token_signing_secret
          s.entra_audience
        ≡ claims (minted_claims (persona_signer s) (persona_grant role) now)) where
    -- From the demo agent's request to the gateway's answer: a call in a role that the tool does not
    -- list, that is unknown, or of a disabled tool is answered with 403 and the decision "denied",
    -- and changes nothing but the audit tables, whatever its arguments and its other headers are.
    -- The gateway has the agent's secret and audience, PyJWT decodes the token, which holds no white
    -- space, to its claims, the database is within its constraints, and the ids that are drawn are
    -- new.
    pub call-IsDenied :
        (arguments : Dict) (approval key : Option String) (w : World Q)
        → (¬ (Member role x.known_roles × (spec.enabled ≡ true) × Member role spec.required_roles))
        → integrity w.db ≡ true
        → IsFresh x
            (request_of (persona_principal s role now) tool (
              body_of
                (headers encode s role approval key now)
                (entry "arguments" (dict arguments) end)))
            a
            w.db
        → IsDenied w (
            serve_invoke jwt
              (demo_verifier s)
              x
              tool
              (headers encode s role approval key now)
              (entry "arguments" (dict arguments) end)
              a
              w)
    unfolding serve_invoke
    call-IsDenied arguments approval key w no_right within fresh =
        rw
          (
            get_principal-headers jwt encode s role now role_given no_space decoded approval key,
            serve_invoke,
          )
          (invoke_tool-IsDenied (persona_principal s role now)
            (body_of (headers encode s role approval key now)
              (entry "arguments" (dict arguments) end))
            w no_right within fresh)
