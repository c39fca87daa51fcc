-- ===== src/Api/Served.antt =====
-- `POST /tools/{tool_name}/invoke` of apps/mcp-gateway/app/main.py behind its dependency `get_principal`,
-- from the headers and the JSON of a request.
use nervora.Base.{String, List, [], ◌∷◌, Option, none, some, ◌==◌, if◌then◌else◌, ℕ}
use nervora.Json.{Dict, get, dict_or_empty, as_text, text_or_empty}
use nervora.Common.Ids.{Ambient}
use nervora.Auth.Tokens.{Jwt, TokenVerifier, granted, unauthorized, get_principal}
use nervora.World.{World}
use nervora.Gateway.Request.{Executor}
use nervora.Api.Tools.{InvokeRequest, InvokeResponse, invoke_tool}

-- The headers of a request, in order.
abbrev pub Headers : Type 0
Headers = List (String × String)

-- `Header(default=None, alias=name)`
unfoldable pub header : String → Headers → Option String
header name [] = none
header name ((key, value) ∷ h) = if key == name then some value else header name h

-- The body as `InvokeRequest` reads it, with the two headers.
abbrev pub body_of : Headers → Dict → InvokeRequest
body_of h json = record {
  arguments = dict_or_empty (get json "arguments");
  idempotency_key = as_text (get json "idempotency_key");
  idempotency_header = header "Idempotency-Key" h;
  approval_header = header "X-Approval-Token" h;
}

-- An `HTTPException` with its status and detail, a response, or an exception behind the route.
pub data Answer : Type 0 where
  refused : ℕ → String → Answer
  responded : InvokeResponse → Answer
  server_error : Answer

abbrev pub answer_of : Option InvokeResponse → Answer
answer_of none = server_error
answer_of (some r) = responded r

unfoldable pub serve_invoke :
    {Q : Type 0}
    → Jwt
    → TokenVerifier
    → Executor Q
    → String
    → Headers
    → Dict
    → Ambient
    → World Q
    → Answer × World Q
unfolding get_principal header
serve_invoke jwt verifier x tool h json a w =
    elim (get_principal jwt verifier (text_or_empty (header "Authorization" h))) [
      | unauthorized status detail ↦ (refused status detail, w)
      | granted principal ↦
          let (r, w') = invoke_tool x principal tool (body_of h json) a w in (answer_of r, w')
    ]
