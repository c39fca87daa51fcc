-- ===== src/Auth/Tokens.antt =====
-- packages/auth/tokens.py: the verifiers of bearer tokens, and `get_principal` of
-- apps/mcp-gateway/app/deps.py in front of the routes. PyJWT is a parameter: what it decodes, and what
-- it raises.
use nervora.Base.{
  ℕ, String, Bool, true, false, ◌&&◌, List, [], ◌∷◌, Option, some, ◌==◌, if◌then◌else◌, fstring,
  truthy, or_else, contains,
}
use Prim.Native.String as Str
use nervora.Json.{Json, str, list, Items, nil, cons, Dict, get, as_text, text_or_empty}
use nervora.Common.Settings.{Settings, dev, entra}
use nervora.Auth.Identity.{Principal}

-- `jwt.decode`: the claims, `ExpiredSignatureError`, or another `InvalidTokenError` by its text.
pub data Decoding : Type 0 where
  claims : Dict → Decoding
  expired : Decoding
  invalid : String → Decoding

-- `get_signing_key_from_jwt`: a key, an `InvalidTokenError`, or any other exception.
pub data SigningKey : Type 0 where
  key : String → SigningKey
  bad_token : String → SigningKey
  unresolved : String → SigningKey

-- The calls of PyJWT. The first takes the token, the secret and the audience; the second the address of
-- the keys and the token; the third the token, the key, the audience and the issuer.
pub record Jwt : Type 0 where
  pub decode_hs256 : String → String → String → Decoding
  pub signing_key : String → String → SigningKey
  pub decode_rs256 : String → String → String → String → Decoding

-- A principal, or an `AuthError` with its message and code.
pub data Verified (A : Type 0) : Type 0 where
  verified : A → Verified A
  auth_error : String → String → Verified A

-- The claim `k`, if it is a text that is not empty, and else `rest`.
abbrev pub claim_or : Dict → String → String → String
claim_or c k rest = or_else (as_text (get c k)) rest

abbrev pub spaces : List String
spaces =
    " " ∷ "\t" ∷ "\n" ∷ "\r" ∷ "\u{b}" ∷ "\u{c}" ∷ "\u{1c}" ∷ "\u{1d}" ∷ "\u{1e}" ∷ "\u{1f}"
    ∷ "\u{85}" ∷ "\u{a0}" ∷ "\u{1680}" ∷ "\u{2000}" ∷ "\u{2001}" ∷ "\u{2002}" ∷ "\u{2003}"
    ∷ "\u{2004}" ∷ "\u{2005}" ∷ "\u{2006}" ∷ "\u{2007}" ∷ "\u{2008}" ∷ "\u{2009}" ∷ "\u{200a}"
    ∷ "\u{2028}" ∷ "\u{2029}" ∷ "\u{202f}" ∷ "\u{205f}" ∷ "\u{3000}" ∷ []

-- `s.split()`, with the word read so far.
unfoldable pub split_from : String → String → List String
split_from word String.[] = if truthy word then word ∷ [] else []
split_from word (String.◌∷◌ c s) = elim (contains spaces (String.◌∷◌ c "")) [
  | true ↦ elim (truthy word) [ true ↦ word ∷ split_from "" s | false ↦ split_from "" s ]
  | false ↦ split_from (Str.◌++◌ word (String.◌∷◌ c "")) s
]

abbrev texts_of : Items → List String
texts_of nil = []
texts_of (cons v vs) = text_or_empty (as_text (some v)) ∷ texts_of vs

-- The scopes from `scp`, or else from `scope`: the words of a text, or the entries of a list.
unfoldable pub scopes_of : Option Json → List String → List String
scopes_of (some (str s)) rest = if truthy s then split_from "" s else rest
scopes_of (some (list (cons v vs))) rest = texts_of (cons v vs)
scopes_of _ rest = rest

-- `_principal_from_claims`
unfoldable pub principal_from_claims : Dict → Verified Principal
unfolding scopes_of
principal_from_claims c =
    let role = claim_or c "agent_role" (claim_or c "role" "") in
    if truthy role
    then verified (record {
      subject = text_or_empty (as_text (get c "sub"));
      agent_id = claim_or c "agent_id" (claim_or c "azp" (text_or_empty (as_text (get c "sub"))));
      role = role;
      scopes = scopes_of (get c "scp") (scopes_of (get c "scope") []);
      tenant_id = text_or_empty (as_text (get c "tid"));
      raw_claims = c;
    })
    else auth_error "token is missing the agent_role claim" "AUTH_NO_ROLE"

-- The end of both `verify` methods: `prefix` begins the message of an invalid token.
unfoldable pub settle_decoding : String → Decoding → Verified Principal
unfolding principal_from_claims
settle_decoding prefix (claims c) = principal_from_claims c
settle_decoding prefix expired = auth_error "token expired" "AUTH_TOKEN_EXPIRED"
settle_decoding prefix (invalid text) =
    auth_error (fstring (prefix ∷ text ∷ [])) "AUTH_INVALID_TOKEN"

pub data TokenVerifier : Type 0 where
  dev_verifier : String → String → TokenVerifier
  entra_verifier : String → String → String → TokenVerifier

-- The rest of `EntraOIDCVerifier.verify` behind the resolution of the key.
unfoldable pub with_key : Jwt → String → String → String → SigningKey → Verified Principal
unfolding settle_decoding
with_key jwt issuer audience token (key k) =
    settle_decoding "invalid Entra token: " (jwt.decode_rs256 token k audience issuer)
with_key jwt issuer audience token (bad_token text) =
    auth_error (fstring ("invalid Entra token: " ∷ text ∷ [])) "AUTH_INVALID_TOKEN"
with_key jwt issuer audience token (unresolved text) =
    auth_error (fstring ("token key resolution failed: " ∷ text ∷ [])) "AUTH_JWKS"

-- `verify`, of a `DevTokenVerifier` (secret, audience) and of an `EntraOIDCVerifier` (jwks_url, issuer,
-- audience).
unfoldable pub verify : Jwt → TokenVerifier → String → Verified Principal
unfolding settle_decoding with_key
verify jwt (dev_verifier secret audience) token =
    settle_decoding "invalid token: " (jwt.decode_hs256 token secret audience)
verify jwt (entra_verifier jwks_url issuer audience) token =
    with_key jwt issuer audience token (jwt.signing_key jwks_url token)

-- `build_verifier`, with the test of `EntraOIDCVerifier.__init__`.
unfoldable pub build_verifier : Settings → Verified TokenVerifier
build_verifier s = elim s.auth_mode [
  | entra ↦
      if truthy s.entra_jwks_url && (truthy s.entra_issuer && truthy s.entra_audience)
      then verified (entra_verifier s.entra_jwks_url s.entra_issuer s.entra_audience)
      else auth_error "Entra verifier requires jwks_url, issuer and audience" "AUTH_MISCONFIGURED"
  | dev ↦ verified (dev_verifier s.dev_token_signing_secret s.entra_audience)
]

-- `authorization.lower().startswith("bearer ")`, by the two cases of each letter.
abbrev pub bearer : List (String × String)
bearer =
    ("b", "B") ∷ ("e", "E") ∷ ("a", "A") ∷ ("r", "R") ∷ ("e", "E") ∷ ("r", "R") ∷ (" ", " ") ∷ []

unfoldable pub starts_with : List (String × String) → String → Bool
starts_with [] s = true
starts_with (p ∷ ps) String.[] = false
starts_with ((lower, upper) ∷ ps) (String.◌∷◌ c s) =
    elim (contains (lower ∷ upper ∷ []) (String.◌∷◌ c "")) [
      | true ↦ starts_with ps s
      | false ↦ false
    ]

-- `authorization.split(" ", 1)[1]`
unfoldable pub after_space : String → String
after_space String.[] = ""
after_space (String.◌∷◌ c s) = elim (String.◌∷◌ c "" == " ") [ true ↦ s | false ↦ after_space s ]

-- `s.strip()`, from the left and from the right.
unfoldable pub strip_left : String → String
strip_left String.[] = ""
strip_left (String.◌∷◌ c s) = elim (contains spaces (String.◌∷◌ c "")) [
  | true ↦ strip_left s
  | false ↦ String.◌∷◌ c s
]

unfoldable pub strip_right : String → String
strip_right String.[] = ""
strip_right (String.◌∷◌ c s) =
    let rest = strip_right s in
    if rest == "" && contains spaces (String.◌∷◌ c "") then "" else String.◌∷◌ c rest

abbrev pub token_of : String → String
token_of authorization = strip_right (strip_left (after_space authorization))

-- A principal, or an `HTTPException` with its status and detail.
pub data Access : Type 0 where
  granted : Principal → Access
  unauthorized : ℕ → String → Access

-- `get_principal`
unfoldable pub get_principal : Jwt → TokenVerifier → String → Access
unfolding verify starts_with
get_principal jwt verifier authorization =
    if starts_with bearer authorization
    then elim (verify jwt verifier (token_of authorization)) [
      | verified p ↦ granted p
      | auth_error message code ↦ unauthorized 401 message
    ]
    else unauthorized 401 "missing bearer token"
