-- ===== src/Auth/Tests.antt =====
-- Concrete tokens and settings for packages/auth/tokens.py.
use nervora.Base.{
  true, [], ◌∷◌, ◌≡◌, ◌↔◌, refl, arith, some, fstring, eq_iff, String, contains, ◌==◌,
  if◌then◌else◌,
}
use nervora.Json.{str, Dict, end, entry, get}
use nervora.Auth.Identity.{Principal}
use nervora.Auth.Tokens.{
  Jwt, claims, invalid, unresolved, verified, principal_from_claims, split_from, dev_verifier,
  starts_with, bearer, token_of, granted, get_principal, verify, strip_left, strip_right,
  after_space,
}
use nervora.Auth.Minting.{DevTokenSigner, Grant, minted_claims, mint, persona, persona_grant}
use nervora.Auth.RoundTrip.{verify-mint, minted_principal}
use nervora.Auth.Access.{get_principal_iff, Accepts}

abbrev sample : Dict
sample = entry "sub" (str "ana") (entry "agent_role" (str "hr_agent") (entry "scp" (str "a b") end))

-- A library that accepts one token.
abbrev jwt : Jwt
jwt = record {
  decode_hs256 = λ token secret audience. if token == "t" then claims sample else invalid "bad";
  signing_key = λ url token. unresolved "offline";
  decode_rs256 = λ token k audience issuer. invalid "bad";
}

abbrev ana : Principal
ana = record {
  subject = "ana";
  agent_id = "ana";
  role = "hr_agent";
  scopes = "a" ∷ "b" ∷ [];
  tenant_id = "";
  raw_claims = sample;
}

ana_granted : get_principal jwt (dev_verifier "s" "a") "BEARER  t " ≡ granted ana
unfolding get_principal verify principal_from_claims contains strip_right strip_left after_space get
    split_from
ana_granted = refl

get_principal_iff_example : (get_principal jwt (dev_verifier "s" "a") "Bearer t" ≡ granted ana) ↔ (
    (starts_with bearer "Bearer t" ≡ true)
    × (c : Dict) × Accepts jwt (dev_verifier "s" "a") (token_of "Bearer t") c
    × (principal_from_claims c ≡ verified ana))
get_principal_iff_example = get_principal_iff jwt (dev_verifier "s" "a") "Bearer t" ana

abbrev signer : DevTokenSigner
signer = record { secret = "s"; audience = "api://secure-mcp-gateway" }

abbrev grant : Grant
grant = record {
  subject = "user-fin";
  agent_id = "agent-fin-001";
  role = "finance_agent";
  scopes = some ("tools.invoke" ∷ "jobs.read" ∷ []);
  ttl_seconds = 3600;
}

-- A library whose tokens name their secret.
abbrev encode : Dict → String → String
encode c secret = fstring ("token-" ∷ secret ∷ [])

abbrev round_trip_jwt : Jwt
round_trip_jwt = record jwt {
  decode_hs256 = λ token secret audience.
      if token == fstring ("token-" ∷ secret ∷ [])
      then claims (minted_claims signer grant 100)
      else invalid "bad";
}

verify-mint_example :
    verify round_trip_jwt
      (dev_verifier "s" "api://secure-mcp-gateway")
      (mint encode signer grant 100)
    ≡ verified (minted_principal signer grant 100)
unfolding contains
verify-mint_example =
    verify-mint round_trip_jwt encode signer grant 100 refl
      (λ e. ground (arith, eq_iff "finance_agent" ""))
      (
        ((λ e. ground (arith, eq_iff "tools.invoke" "")), refl),
        (((λ e. ground (arith, eq_iff "jobs.read" "")), refl), tt),
      )

finance_persona : persona_grant "finance_agent" ≡ record {
  subject = "user-fin@inovativi.example";
  agent_id = "agent-fin-001";
  role = "finance_agent";
  scopes = some ("tools.invoke" ∷ []);
  ttl_seconds = 3600;
}
unfolding persona
finance_persona = refl
