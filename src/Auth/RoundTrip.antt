-- ===== src/Auth/RoundTrip.antt =====
-- That what packages/auth/tokens.py mints is what it verifies.
use Prim.Native.Char.{Char}
use Prim.Native.String as Str
use Prim.Native.String.append as Append
use nervora.Base.{
  ℕ, String, Bool, true, false, not, ◌&&◌, List, [], ◌∷◌, none, some, ◌≡◌, ◌≢◌, refl, sym, ap, ap₂,
  ◌∙◌, arith, All, contains, eq_iff, or_else,
}
use nervora.Json.{str, Dict, get}
use nervora.Auth.Identity.{Principal}
use nervora.Auth.Tokens.{
  Jwt, claims, verified, spaces, split_from, scopes_of, principal_from_claims, settle_decoding,
  dev_verifier, verify,
}
use nervora.Auth.Minting.{join, DevTokenSigner, Grant, scopes_or_empty, minted_claims, mint}

pub append-nil : (s : String) → Str.◌++◌ s "" ≡ s
append-nil Str.[] = Append.nil ""
append-nil (Str.◌∷◌ c s) = Append.cons c s "" ∙ ap (Str.◌∷◌ c) (append-nil s)

append_assoc : (a b c : String) → Str.◌++◌ (Str.◌++◌ a b) c ≡ Str.◌++◌ a (Str.◌++◌ b c)
append_assoc Str.[] b c = ap (λ s. Str.◌++◌ s c) (Append.nil b) ∙ sym (Append.nil (Str.◌++◌ b c))
append_assoc (Str.◌∷◌ x a) b c =
    ap (λ s. Str.◌++◌ s c) (Append.cons x a b)
    ∙ Append.cons x (Str.◌++◌ a b) c
    ∙ ap (Str.◌∷◌ x) (append_assoc a b c)
    ∙ sym (Append.cons x a (Str.◌++◌ b c))

abbrev pub has_no_space : String → Bool
has_no_space Str.[] = true
has_no_space (Str.◌∷◌ c s) = not (contains spaces (Str.◌∷◌ c "")) && has_no_space s

-- A text that `split` keeps whole.
abbrev pub IsWord : String → Type 0
IsWord s = (s ≢ "") × (has_no_space s ≡ true)

single : (c : Char) (s : String) → Str.◌++◌ (Str.◌∷◌ c "") s ≡ Str.◌∷◌ c s
single c s = Append.cons c "" s ∙ ap (Str.◌∷◌ c) (Append.nil s)

split_step :
    (word : String) (c : Char) (s : String)
    → contains spaces (Str.◌∷◌ c "") ≡ false
    → split_from word (Str.◌∷◌ c s) ≡ split_from (Str.◌++◌ word (Str.◌∷◌ c "")) s
unfolding split_from
split_step word c s e = rw (e, split_from) refl

-- The characters of a word join the word that is read.
split_from-append :
    (w word rest : String)
    → has_no_space w ≡ true
    → split_from word (Str.◌++◌ w rest) ≡ split_from (Str.◌++◌ word w) rest
split_from-append Str.[] word rest h = ap₂ split_from (sym (append-nil word)) (Append.nil rest)
split_from-append (Str.◌∷◌ c w) word rest h =
    ap (split_from word) (Append.cons c w rest)
    ∙ split_step word c (Str.◌++◌ w rest) (ground arith)
    ∙ split_from-append w (Str.◌++◌ word (Str.◌∷◌ c "")) rest (ground arith)
    ∙ ap (λ v. split_from v rest)
        (append_assoc word (Str.◌∷◌ c "") w ∙ ap (Str.◌++◌ word) (single c w))

split_end : (word : String) → word ≢ "" → split_from word "" ≡ word ∷ []
unfolding split_from
split_end word h = ground (arith, eq_iff word "")

split_at_space :
    (word : String) (c : Char) (rest : String)
    → contains spaces (Str.◌∷◌ c "") ≡ true
    → word ≢ ""
    → split_from word (Str.◌∷◌ c rest) ≡ word ∷ split_from "" rest
unfolding split_from
split_at_space word c rest e h = ground (arith, eq_iff word "")

split_space :
    (word rest : String)
    → word ≢ ""
    → split_from word (Str.◌++◌ " " rest) ≡ word ∷ split_from "" rest
unfolding contains
split_space word rest h = ap (split_from word) (single _ rest) ∙ split_at_space word _ rest refl h

-- `split` undoes `join` on words.
split-join :
    (x : String) (xs : List String) → All IsWord (x ∷ xs) → split_from "" (join (x ∷ xs)) ≡ x ∷ xs
unfolding join
split-join x [] h =
    ap (split_from "") (sym (append-nil x))
    ∙ split_from-append x "" "" h.0.1
    ∙ ap (λ v. split_from v "") (Append.nil x)
    ∙ split_end x h.0.0
split-join x (y ∷ ys) h =
    split_from-append x "" (Str.◌++◌ " " (join (y ∷ ys))) h.0.1
    ∙ ap (λ v. split_from v (Str.◌++◌ " " (join (y ∷ ys)))) (Append.nil x)
    ∙ split_space x (join (y ∷ ys)) h.0.0
    ∙ ap (λ zs. x ∷ zs) (split-join y ys h.1)

join-ne-empty : (x : String) (xs : List String) → All IsWord (x ∷ xs) → join (x ∷ xs) ≢ ""
unfolding split_from
join-ne-empty x xs h e = cc (split-join x xs h, ap (split_from "") e)

scopes_of-join :
    (xs : List String) → All IsWord xs → scopes_of (some (str (join xs))) (scopes_of none []) ≡ xs
unfolding scopes_of join
scopes_of-join [] h = refl
scopes_of-join (x ∷ xs) h =
    ground (arith, split-join x xs h, join-ne-empty x xs h, eq_iff (join (x ∷ xs)) "")

-- The principal that is minted for.
abbrev pub minted_principal : DevTokenSigner → Grant → ℕ → Principal
minted_principal signer g now = record {
  subject = g.subject;
  agent_id = or_else (some g.agent_id) g.subject;
  role = g.role;
  scopes = scopes_or_empty g.scopes;
  tenant_id = "";
  raw_claims = minted_claims signer g now;
}

pub principal_from_minted :
    (signer : DevTokenSigner) (g : Grant) (now : ℕ)
    → g.role ≢ ""
    → All IsWord (scopes_or_empty g.scopes)
    → principal_from_claims (minted_claims signer g now) ≡ verified (minted_principal signer g now)
unfolding principal_from_claims get
principal_from_minted signer g now role words =
    let scopes = scopes_of-join (scopes_or_empty g.scopes) words in
    ground (arith, scopes, eq_iff g.role "")

-- A token that the development signer mints is verified, under the same secret and audience, as the
-- principal that it was minted for: with its subject, its agent (or the subject where that is empty),
-- its role, its scopes in order, and the minted claims. The role must not be empty and each scope must
-- be a word. PyJWT must decode the token to the claims that it encoded, as it does until they expire.
pub verify-mint :
    (jwt : Jwt) (encode : Dict → String → String) (signer : DevTokenSigner) (g : Grant) (now : ℕ)
    → jwt.decode_hs256
        (encode (minted_claims signer g now) signer.secret)
        signer.secret
        signer.audience
      ≡ claims (minted_claims signer g now)
    → g.role ≢ ""
    → All IsWord (scopes_or_empty g.scopes)
    → verify jwt (dev_verifier signer.secret signer.audience) (mint encode signer g now)
      ≡ verified (minted_principal signer g now)
unfolding verify settle_decoding mint
verify-mint jwt encode signer g now decoded role words =
    rw (decoded, settle_decoding) (principal_from_minted signer g now role words)
