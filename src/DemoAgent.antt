-- ===== src/DemoAgent.antt =====
-- apps/demo-agent/agent.py: the requests that the demo agent makes of the gateway, and what it prints of
-- the answers. httpx and the gateway behind it are the record `Client`; `encode` is `jwt.encode`,
-- `str_of` Python's str of a value and `pretty` its `json.dumps` with `indent=2`.
pub mod Script
pub mod Access
pub mod Denied
mod Tests
use nervora.Base.{
  ℕ, zero, suc, ◌-◌, String, Bool, true, false, not, ◌&&◌, List, [], ◌∷◌, ◌++◌, Option, none, some,
  nat_eq, truthy, fstring, slice_to, ◌==◌, if◌then◌else◌,
}
use nervora.Json.{
  ℤ, pos, negsuc, Json, null, bool, int, float, str, list, dict, Items, nil, cons, Dict, end, entry,
  get, as_dict, dict_or_empty, as_text,
}
use nervora.Common.Settings.{Settings}
use nervora.Auth.Minting.{mint_for}
use nervora.Api.Served.{Headers}

-- `h[name] = value` where the value is given and not empty.
abbrev pub with_header : String → Option String → Headers → Headers
with_header name none h = h
with_header name (some value) h = if truthy value then h ++ (name, value) ∷ [] else h

-- What httpx does for the agent: None where it raises. An answer is its status and its JSON.
pub record Client (S : Type 0) : Type 0 where
  pub post : String → Dict → Headers → S → Option (ℕ × Dict) × S
  pub fetch : String → Headers → S → Option Json × S
  pub now : S → ℕ
  pub sleep : S → S

module _ (encode : Dict → String → String) (settings : Settings) where
  -- `_headers`
  unfoldable pub headers : String → Option String → Option String → ℕ → Headers
  unfolding mint_for
  headers role approval_token idempotency_key now = with_header "Idempotency-Key" idempotency_key (
      with_header "X-Approval-Token" approval_token
        (("Authorization", fstring ("Bearer " ∷ mint_for encode settings role now ∷ [])) ∷ []))

  module _ {S : Type 0} (client : Client S) (gateway_url : String) where
    -- `_call`
    unfoldable pub call :
        String → String → Dict → Option String → Option String → S → Option (ℕ × Dict) × S
    unfolding headers
    call role tool arguments approval_token idempotency_key s =
        client.post (fstring (gateway_url ∷ "/tools/" ∷ tool ∷ "/invoke" ∷ []))
          (entry "arguments" (dict arguments) end)
          (headers role approval_token idempotency_key (client.now s)) s

-- `d.get(k)` as a value, which is None for a missing key.
unfoldable pub value_of : Dict → String → Json
unfolding get
value_of d k = elim (get d k) [ none ↦ null | some v ↦ v ]

-- `bool(v)`
abbrev pub is_true : Json → Bool
is_true null = false
is_true (bool b) = b
is_true (int (pos zero)) = false
is_true (float (pos zero) k) = false
is_true (str s) = truthy s
is_true (list nil) = false
is_true (dict end) = false
is_true _ = true

-- `v == s` of a value and a text.
abbrev pub is_text : Json → String → Bool
is_text (str t) s = t == s
is_text _ s = false

module _ (str_of : Json → String) (pretty : Json → String) where
  -- A line that is printed if the value is true.
  abbrev pub line_if : Bool → List String → List String
  line_if true parts = fstring parts ∷ []
  line_if false parts = []

  -- The lines of `_show`. The first print has a line end before its text.
  unfoldable pub show : String → ℕ → Dict → List String
  unfolding value_of
  show label status data' =
      let redaction = as_dict (value_of data' "redaction") in
      fstring ("\n=== " ∷ label ∷ " ===" ∷ [])
      ∷ fstring (
          "HTTP "
          ∷ str_of (int (pos status))
          ∷ " | decision="
          ∷ str_of (value_of data' "decision")
          ∷ " | trace_id="
          ∷ str_of (value_of data' "trace_id")
          ∷ [])
      ∷ (line_if (is_true (value_of data' "error_code")) (
            "  error_code: "
            ∷ str_of (value_of data' "error_code")
            ∷ " — "
            ∷ str_of (value_of data' "message")
            ∷ [])
          ++ (line_if (is_text (value_of redaction "status") "redacted")
                ("  redacted_fields: " ∷ str_of (value_of redaction "redacted_fields") ∷ [])
              ++ (line_if (is_true (value_of data' "job_id"))
                    ("  job_id: " ∷ str_of (value_of data' "job_id") ∷ [])
                  ++ (line_if (is_true (value_of data' "approval_id"))
                        ("  approval_id: " ∷ str_of (value_of data' "approval_id") ∷ [])
                      ++ line_if (is_true (value_of data' "result"))
                          ("  result: " ∷ slice_to 800 (pretty (value_of data' "result")) ∷ [])))))
