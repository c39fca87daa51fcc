-- ===== src/Auth/Access.antt =====
-- Whom packages/auth/tokens.py and `get_principal` of apps/mcp-gateway/app/deps.py let in.
use nervora.Base.{String, true, ◌≡◌, ◌≢◌, ◌↔◌, refl, arith, eq_iff}
use nervora.Json.{Dict}
use nervora.Common.Settings.{Settings, entra}
use nervora.Auth.Identity.{Principal}
use nervora.Auth.Tokens.{
  Decoding, claims, expired, invalid, SigningKey, key, bad_token, unresolved, Jwt, verified,
  claim_or, principal_from_claims, settle_decoding, with_key, TokenVerifier, dev_verifier,
  entra_verifier, verify, build_verifier, bearer, starts_with, token_of, granted, get_principal,
}

-- PyJWT has checked the token, with the verifier's own keys, audience and issuer, and read the claims.
abbrev pub Accepts : Jwt → TokenVerifier → String → Dict → Type 0
Accepts jwt (dev_verifier secret audience) token c =
    jwt.decode_hs256 token secret audience ≡ claims c
Accepts jwt (entra_verifier jwks_url issuer audience) token c =
    (k : String) × (jwt.signing_key jwks_url token ≡ key k)
    × (jwt.decode_rs256 token k audience issuer ≡ claims c)

settle_decoding_iff :
    (prefix : String) (d : Decoding) (p : Principal)
    → (settle_decoding prefix d ≡ verified p)
      ↔ ((c : Dict) × (d ≡ claims c) × (principal_from_claims c ≡ verified p))
unfolding settle_decoding
settle_decoding_iff prefix (claims c) p = (λ h. (c, refl, h), λ (c', e, h). cc (e, h))
settle_decoding_iff prefix expired p = (λ h. cc h, λ (c, e, h). cc e)
settle_decoding_iff prefix (invalid text) p = (λ h. cc h, λ (c, e, h). cc e)

with_key_iff :
    (jwt : Jwt) (issuer audience token : String) (s : SigningKey) (p : Principal)
    → (with_key jwt issuer audience token s ≡ verified p) ↔ (
        (c : Dict) × ((k : String) × (s ≡ key k)
          × (jwt.decode_rs256 token k audience issuer ≡ claims c))
        × (principal_from_claims c ≡ verified p))
unfolding with_key
with_key_iff jwt issuer audience token (key k) p =
    let both =
      settle_decoding_iff "invalid Entra token: " (jwt.decode_rs256 token k audience issuer) p in
    (
      λ h. let (c, e, made) = both.0 h in (c, (k, refl, e), made),
      λ (c, (k', same, e), made). both.1 (c, cc (same, e), made),
    )
with_key_iff jwt issuer audience token (bad_token text) p =
    (λ h. cc h, λ (c, (k, same, e), made). cc same)
with_key_iff jwt issuer audience token (unresolved text) p =
    (λ h. cc h, λ (c, (k, same, e), made). cc same)

verify_iff :
    (jwt : Jwt) (v : TokenVerifier) (token : String) (p : Principal)
    → (verify jwt v token ≡ verified p)
      ↔ ((c : Dict) × Accepts jwt v token c × (principal_from_claims c ≡ verified p))
unfolding verify
verify_iff jwt (dev_verifier secret audience) token p =
    settle_decoding_iff "invalid token: " (jwt.decode_hs256 token secret audience) p
verify_iff jwt (entra_verifier jwks_url issuer audience) token p =
    with_key_iff jwt issuer audience token (jwt.signing_key jwks_url token) p

granted_iff :
    (jwt : Jwt) (v : TokenVerifier) (authorization : String) (p : Principal)
    → (get_principal jwt v authorization ≡ granted p) ↔ (
        (starts_with bearer authorization ≡ true)
        × (verify jwt v (token_of authorization) ≡ verified p))
unfolding get_principal
granted_iff jwt v authorization p = ground arith

-- `get_principal` grants a principal exactly if the header is a bearer's, PyJWT accepts its token, and
-- the claims are those of that principal.
pub get_principal_iff :
    (jwt : Jwt) (v : TokenVerifier) (authorization : String) (p : Principal)
    → (get_principal jwt v authorization ≡ granted p) ↔ (
        (starts_with bearer authorization ≡ true)
        × (c : Dict) × Accepts jwt v (token_of authorization) c
        × (principal_from_claims c ≡ verified p))
get_principal_iff jwt v authorization p =
    let (there, back) = granted_iff jwt v authorization p in
    let both = verify_iff jwt v (token_of authorization) p in
    (
      λ h. let (b, ok) = there h in let (c, accepted, made) = both.0 ok in (b, c, accepted, made),
      λ (b, c, accepted, made). back (b, both.1 (c, accepted, made)),
    )

-- A principal that is made of claims has a role, which is not empty, and keeps the claims.
pub principal_from_claims-role :
    (c : Dict) (p : Principal)
    → principal_from_claims c ≡ verified p
    → (p.role ≢ "") × (p.role ≡ claim_or c "agent_role" (claim_or c "role" "")) × (p.raw_claims ≡ c)
unfolding principal_from_claims
principal_from_claims-role c p h =
    ground (arith, eq_iff (claim_or c "agent_role" (claim_or c "role" "")) "")

-- In the mode `entra` the verifier, if there is one, is Entra's with the address, issuer and audience
-- of the settings, none of them empty: never the one for development tokens.
pub build_verifier-entra :
    (s : Settings) (v : TokenVerifier)
    → s.auth_mode ≡ entra
    → build_verifier s ≡ verified v
    → (v ≡ entra_verifier s.entra_jwks_url s.entra_issuer s.entra_audience)
      × (s.entra_jwks_url ≢ "")
      × (s.entra_issuer ≢ "")
      × (s.entra_audience ≢ "")
unfolding build_verifier
build_verifier-entra s v m h =
    ground (arith, eq_iff s.entra_jwks_url "", eq_iff s.entra_issuer "", eq_iff s.entra_audience "")
