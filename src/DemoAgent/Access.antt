-- ===== src/DemoAgent/Access.antt =====
-- That the gateway knows the demo agent (apps/demo-agent/agent.py) by the token in its header.
use Prim.Native.String as Str
use Prim.Native.String.append as Append
use nervora.Base.{
  ℕ, String, true, [], ◌∷◌, ◌++◌, Option, none, some, ◌≡◌, ◌≢◌, refl, ap, ◌∙◌, arith, fstring,
  contains, eq_iff, Bool-cases, inl, inr, ◌==◌,
}
use nervora.Json.{Dict, text_or_empty}
use nervora.Common.Settings.{Settings}
use nervora.Auth.Identity.{Principal}
use nervora.Auth.Minting.{minted_claims, persona_grant, persona_signer, mint_for}
use nervora.Api.Served.{Headers, header}
use nervora.DemoAgent.{with_header, headers}
use nervora.Auth.Tokens.{
  Jwt, claims, TokenVerifier, dev_verifier, granted, get_principal, bearer, starts_with,
  after_space, strip_left, strip_right, token_of,
}
use nervora.Auth.RoundTrip.{has_no_space, append-nil, minted_principal, principal_from_minted}
use nervora.Auth.Access.{get_principal_iff}

strip_left-word : (t : String) → has_no_space t ≡ true → strip_left t ≡ t
unfolding strip_left
strip_left-word Str.[] h = refl
strip_left-word (Str.◌∷◌ c t) h = ground arith

strip_right-word : (t : String) → has_no_space t ≡ true → strip_right t ≡ t
unfolding strip_right
strip_right-word Str.[] h = refl
strip_right-word (Str.◌∷◌ c t) h = ground (arith, strip_right-word t)

bearer-append :
    (t : String)
    → Str.◌++◌ "Bearer " t
      ≡ Str.◌∷◌ "B"
          (Str.◌∷◌ "e" (Str.◌∷◌ "a" (Str.◌∷◌ "r" (Str.◌∷◌ "e" (Str.◌∷◌ "r" (Str.◌∷◌ " " t))))))
bearer-append t =
    Append.cons "B" "earer " t
    ∙ ap (Str.◌∷◌ "B") (
        Append.cons "e" "arer " t
        ∙ ap (Str.◌∷◌ "e") (
            Append.cons "a" "rer " t
            ∙ ap (Str.◌∷◌ "a") (
                Append.cons "r" "er " t
                ∙ ap (Str.◌∷◌ "r") (
                    Append.cons "e" "r " t
                    ∙ ap (Str.◌∷◌ "e") (
                        Append.cons "r" " " t
                        ∙ ap (Str.◌∷◌ "r")
                            (Append.cons " " "" t ∙ ap (Str.◌∷◌ " ") (Append.nil t)))))))

after_space-bearer : (t : String) → after_space (Str.◌++◌ "Bearer " t) ≡ t
unfolding after_space
after_space-bearer t = rw (bearer-append t) refl

starts_with-bearer : (t : String) → starts_with bearer (Str.◌++◌ "Bearer " t) ≡ true
unfolding starts_with contains
starts_with-bearer t = rw (bearer-append t) refl

token_of-bearer : (t : String) → has_no_space t ≡ true → token_of (fstring ("Bearer " ∷ t ∷ [])) ≡ t
token_of-bearer t h =
    rw (append-nil, after_space-bearer, strip_left-word t h) (strip_right-word t h)

header-append :
    (name value : String) (h : Headers) {found : String}
    → header "Authorization" h ≡ some found
    → header "Authorization" (h ++ (name, value) ∷ []) ≡ some found
unfolding header
header-append name value [] e = cc
header-append name value ((key, v) ∷ h) {found} e = elim (Bool-cases (key == "Authorization")) [
  | inl same ↦ rw (same, header) (rw (same, header) at e)
  | inr other ↦ rw (other, header) (header-append name value h (rw (other, header) at e))
]

header-with :
    (name : String) (value : Option String) (h : Headers) {found : String}
    → header "Authorization" h ≡ some found
    → header "Authorization" (with_header name value h) ≡ some found
unfolding header
header-with name none h e = e
header-with name (some value) h e = ground (arith, header-append name value h e)

-- The header stays first whatever the others are.
header-headers :
    (encode : Dict → String → String) (s : Settings) (role : String) (token key : Option String)
    (now : ℕ)
    → header "Authorization" (headers encode s role token key now)
      ≡ some (fstring ("Bearer " ∷ mint_for encode s role now ∷ []))
unfolding header headers
header-headers encode s role token key now =
    header-with "Idempotency-Key" key _ (header-with "X-Approval-Token" token _ refl)

abbrev pub token : (Dict → String → String) → Settings → String → ℕ → String
token encode s role now = mint_for encode s role now

-- The principal of a persona.
abbrev pub persona_principal : Settings → String → ℕ → Principal
persona_principal s role now = minted_principal (persona_signer s) (persona_grant role) now

abbrev pub demo_verifier : Settings → TokenVerifier
demo_verifier s = dev_verifier s.dev_token_signing_secret s.entra_audience

module _ (jwt : Jwt) (encode : Dict → String → String) (s : Settings) (role : String) (now : ℕ)
    (role_given : role ≢ "") (no_space : has_no_space (token encode s role now) ≡ true)
    (decoded : jwt.decode_hs256
        (token encode s role now)
        s.dev_token_signing_secret
        s.entra_audience
      ≡ claims (minted_claims (persona_signer s) (persona_grant role) now)) where
  -- The gateway grants the demo agent the principal of the persona that it asks for: under the
  -- development verifier with the agent's own secret and audience, whichever other headers it
  -- sends. The role must not be empty, the token must hold no white space, and PyJWT must decode
  -- it to the claims that it encoded.
  pub get_principal-headers :
      (approval key : Option String)
      → get_principal jwt
          (demo_verifier s)
          (text_or_empty (header "Authorization" (headers encode s role approval key now)))
        ≡ granted (persona_principal s role now)
  unfolding contains
  get_principal-headers approval key = rw (header-headers encode s role approval key now) (
      (get_principal_iff jwt (demo_verifier s) (fstring ("Bearer " ∷ token encode s role now ∷ []))
          (persona_principal s role now)).1
        (
          rw (append-nil (token encode s role now)) (starts_with-bearer (token encode s role now)),
          minted_claims (persona_signer s) (persona_grant role) now,
          rw (token_of-bearer (token encode s role now) no_space) decoded,
          principal_from_minted (persona_signer s) (persona_grant role) now role_given
              (((λ e. ground (arith, eq_iff "tools.invoke" "")), refl), tt),
        ))
