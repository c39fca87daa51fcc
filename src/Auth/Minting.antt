-- ===== src/Auth/Minting.antt =====
-- packages/auth/tokens.py: `DevTokenSigner`, and the personas of apps/demo-agent/agent.py, which mint
-- with it. `encode` is `jwt.encode` with HS256, from the claims and the secret, and `now` the clock in
-- seconds.
use Prim.Native.String as Str
use nervora.Base.{ℕ, ◌+◌, String, List, [], ◌∷◌, Option, none, some, ◌==◌, if◌then◌else◌, fstring}
use nervora.Json.{str, int, pos, Dict, end, entry}
use nervora.Common.Settings.{Settings}

-- `" ".join(xs)`
unfoldable pub join : List String → String
join [] = ""
join (x ∷ []) = x
join (x ∷ y ∷ xs) = Str.◌++◌ x (Str.◌++◌ " " (join (y ∷ xs)))

pub record DevTokenSigner : Type 0 where
  pub secret : String
  pub audience : String

-- The arguments of `mint`.
pub record Grant : Type 0 where
  pub subject : String
  pub agent_id : String
  pub role : String
  pub scopes : Option (List String)
  pub ttl_seconds : ℕ

-- `scopes or []`
abbrev pub scopes_or_empty : Option (List String) → List String
scopes_or_empty none = []
scopes_or_empty (some xs) = xs

abbrev pub minted_claims : DevTokenSigner → Grant → ℕ → Dict
minted_claims signer g now = entry "iss" (str "dev-token-signer") (
    entry "aud" (str signer.audience) (
      entry "sub" (str g.subject) (
        entry "agent_id" (str g.agent_id) (
          entry "agent_role" (str g.role) (
            entry "scp" (str (join (scopes_or_empty g.scopes))) (
              entry "iat" (int (pos now)) (
                entry "nbf" (int (pos now))
                  (entry "exp" (int (pos (now + g.ttl_seconds))) end))))))))

-- `PERSONAS.get(role, …)`: the subject and the agent's id.
unfoldable pub persona : String → String × String
persona role =
    if role == "hr_agent"
    then ("user-hr@inovativi.example", "agent-hr-001")
    else if role == "finance_agent"
    then ("user-fin@inovativi.example", "agent-fin-001")
    else if role == "sales_agent"
    then ("user-sales@inovativi.example", "agent-sales-001")
    else if role == "admin_agent"
    then ("user-admin@inovativi.example", "agent-admin-001")
    else (fstring ("user-" ∷ role ∷ []), fstring ("agent-" ∷ role ∷ []))

abbrev pub persona_grant : String → Grant
persona_grant role = record {
  subject = (persona role).0;
  agent_id = (persona role).1;
  role = role;
  scopes = some ("tools.invoke" ∷ []);
  ttl_seconds = 3600;
}

abbrev pub persona_signer : Settings → DevTokenSigner
persona_signer s = record { secret = s.dev_token_signing_secret; audience = s.entra_audience }

module _ (encode : Dict → String → String) where
  -- `DevTokenSigner.mint`
  unfoldable pub mint : DevTokenSigner → Grant → ℕ → String
  mint signer g now = encode (minted_claims signer g now) signer.secret

  -- The demo agent's `mint`.
  unfoldable pub mint_for : Settings → String → ℕ → String
  unfolding mint persona
  mint_for s role now = mint (persona_signer s) (persona_grant role) now
