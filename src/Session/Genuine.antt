-- ===== src/Session/Genuine.antt =====
-- What verification accepts: tokens that the process has signed, which are neither over nor revoked.
use Prim.Native.String.{len}
use nms.Prelude.{
  split_dots, ℕ, ◌≤◌, ◌≡◌, refl, ap, ◌∙◌, inl, inr, Bool, true, false, ◌&&◌, String, Option, none,
  some, arith, ◌==◌, ltb, str_eq, eq_iff, trim_space, Bool-cases, Option-cases,
}
use nms.Session.Revocations.{Sessions, unix, is_session_revoked}
use nms.Session.Token.{
  Signer, SessionClaims, AuthUser, signed_claims, token_claims, user_of, admit_claims,
  unless_revoked, verify_session_token, session_signing_key, then_some, two_parts, checked_claims,
}

pub then_some-inverse :
    {A B : Type 0} (o : Option A) (f : A → Option B) (b : B)
    → then_some o f ≡ some b
    → (a : A) × (o ≡ some a) × (f a ≡ some b)
then_some-inverse none f b h = cc
then_some-inverse (some a) f b h = (a, refl, h)

-- The token has two parts; the second is the signature, under the key of the process, of what the
-- first one decodes to; and that reads as the claims.
pub record IsGenuine (g : Signer) (token : String) (c : SessionClaims) : Type 0 where
  pub parts : String × String
  pub payload : String
  pub split : two_parts (split_dots token) ≡ some parts
  pub decoded : g.crypto.decode parts.0 ≡ some payload
  pub signature : g.crypto.decode parts.1 ≡ some (g.crypto.hmac (session_signing_key g) payload)
  pub read : g.crypto.unmarshal payload ≡ some c

checked-same :
    (g : Signer) (payload want : String) (c : SessionClaims)
    → checked_claims g payload want ≡ some c
    → (want ≡ g.crypto.hmac (session_signing_key g) payload) × (g.crypto.unmarshal payload ≡ some c)
checked-same g payload want c h =
    let mac = g.crypto.hmac (session_signing_key g) payload in
    elim (Bool-cases (len want == 32 && str_eq mac want)) [
      | inl right ↦ (ground (arith, eq_iff mac want), rw right at h)
      | inr wrong ↦
          let no_claims : ◌≡◌ {A = Option SessionClaims} none (some c) = rw wrong at h in cc
    ]

signed_claims-IsGenuine :
    (g : Signer) (token : String) (c : SessionClaims)
    → signed_claims g token ≡ some c
    → IsGenuine g token c
unfolding signed_claims
signed_claims-IsGenuine g token c h =
    let (parts, split, h₁) = then_some-inverse (two_parts (split_dots token)) _ c h in
    let (payload, decoded, h₂) = then_some-inverse (g.crypto.decode parts.0) _ c h₁ in
    let (want, signature, h₃) = then_some-inverse (g.crypto.decode parts.1) _ c h₂ in
    let (same, read) = checked-same g payload want c h₃ in
    record {
      parts = parts;
      payload = payload;
      split = split;
      decoded = decoded;
      signature = signature ∙ ap some same;
      read = read;
    }

-- A signed token's claims are those that the revocation reads.
pub claims_agree :
    (g : Signer) (token : String) (c : SessionClaims)
    → signed_claims g token ≡ some c
    → token_claims g token ≡ some c
unfolding token_claims
claims_agree g token c h =
    let t = signed_claims-IsGenuine g token c h in rw (t.split, t.decoded) t.read

none_is_no_user : (u : AuthUser) → ◌≡◌ {A = Option AuthUser} none (some u) → ⊥
none_is_no_user u h = cc

refused :
    (g : Signer) (now : ℕ) (s : Sessions) (u : AuthUser)
    → (admit_claims g.os now s none).0 ≡ some u
    → ⊥
unfolding admit_claims
refused g now s u h = cc

let_in :
    (c : SessionClaims) (a : Bool × Sessions) (u : AuthUser)
    → (unless_revoked c a).0 ≡ some u
    → (a.0 ≡ false) × (user_of c ≡ some u)
let_in c (true, s) u h = cc
let_in c (false, s) u h = (refl, h)

admitted :
    (g : Signer) (now : ℕ) (s : Sessions) (c : SessionClaims) (u : AuthUser)
    → (admit_claims g.os now s (some c)).0 ≡ some u
    → (str_eq (trim_space c.jti) "" ≡ false)
      × (unix now ≤ c.exp)
      × ((is_session_revoked g.os c.jti now s).0 ≡ false)
      × (user_of c ≡ some u)
unfolding admit_claims
admitted g now s c u h = elim (Bool-cases (str_eq (trim_space c.jti) "")) [
  | inl blank ↦ absurd (none_is_no_user u (rw blank at h))
  | inr named ↦ elim (Bool-cases (ltb c.exp (unix now))) [
    | inl old ↦ absurd (none_is_no_user u (rw (named, old) at h))
    | inr current ↦
        let inside = let_in c (is_session_revoked g.os c.jti now s) u (rw (named, current) at h) in
        (named, ground arith, inside.0, inside.1)
  ]
]

-- A token that is verified gives the user of its claims: it is signed under the key of the process,
-- it names its session, the session is not over, and it was not found to be revoked.
pub verified-IsGenuine :
    (g : Signer) (token : String) (now : ℕ) (s : Sessions) (u : AuthUser)
    → (verify_session_token g token now s).0 ≡ some u
    → (c : SessionClaims) × IsGenuine g token c
      × (user_of c ≡ some u)
      × (str_eq (trim_space c.jti) "" ≡ false)
      × (unix now ≤ c.exp)
      × ((is_session_revoked g.os c.jti now s).0 ≡ false)
unfolding verify_session_token
verified-IsGenuine g token now s u h = elim (Option-cases (signed_claims g token)) [
  | inl unsigned ↦ absurd (refused g now s u (rw unsigned at h))
  | inr (c, signed) ↦
      let (named, current, kept, user) = admitted g now s c u (rw signed at h) in
      (c, signed_claims-IsGenuine g token c signed, user, named, current, kept)
]
