-- ===== src/Auth/Identity.antt =====
-- packages/auth/identity.py: the verified caller.
use nervora.Base.{String, Bool, List, contains}
use nervora.Json.{Dict}

pub record Principal : Type 0 where
  pub subject : String
  pub agent_id : String
  pub role : String
  pub scopes : List String
  pub tenant_id : String
  pub raw_claims : Dict

-- `Principal.has_scope`
unfoldable pub has_scope : Principal → String → Bool
has_scope p scope = contains p.scopes scope
