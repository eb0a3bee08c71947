-- ===== src/Session/Token.antt =====
-- Signing, verifying and revoking session tokens. Bytes are texts. The primitives of crypto/sha256,
-- crypto/hmac, encoding/base64 and encoding/json are a parameter.
use Prim.Native.String.{◌++◌, len}
use nms.Prelude.{
  ℕ, ◌+◌, ◌*◌, Bool, true, false, ◌&&◌, ◌||◌, List, [], ◌∷◌, String, Option, none, some, ◌==◌, ltb,
  str_eq, trim_space, split_dots, if◌then◌else◌,
}
use nms.Config.{Os, env_or_file}
use nms.Sql.{Conn}
use nms.Incident.Tables.{second}
use nms.Session.Revocations.{
  RevocationDb, Sessions, unix, is_session_revoked, store_local_session_revocation,
  revoke_session_jti,
}

pub record SessionClaims : Type 0 where
  pub user : String
  pub role : String
  pub jti : String
  pub exp : ℕ

pub record Crypto : Type 0 where
  pub sha256 : String → String
  pub hmac : String → String → String  -- the key first
  pub encode : String → String
  pub decode : String → Option String
  pub marshal : SessionClaims → Option String
  pub unmarshal : String → Option SessionClaims

-- What a process signs and verifies with.
pub record Signer : Type 0 where
  pub os : Os
  pub crypto : Crypto
  pub fallback_key : String

abbrev pub session_ttl : ℕ
session_ttl = 604800 * second

unfoldable pub session_signing_key : Signer → String
session_signing_key g =
    let secret = trim_space (env_or_file g.os "NMS_SESSION_SECRET") in
    if str_eq secret "" then g.fallback_key else g.crypto.sha256 secret

pub data Role : Type 0 where
  role_admin role_viewer : Role

abbrev pub role_text : Role → String
role_text role_admin = "admin"
role_text role_viewer = "viewer"

pub record AuthUser : Type 0 where
  pub username : String
  pub role : Role

abbrev pub then_some : {A B : Type 0} → Option A → (A → Option B) → Option B
then_some none f = none
then_some (some a) f = f a

abbrev pub two_parts : List String → Option (String × String)
two_parts (a ∷ b ∷ []) = some (a, b)
two_parts _ = none

-- The identifier is random; `none` is a failure of the random source.
unfoldable pub sign_session_token : Signer → Option String → String → Role → ℕ → Option String
sign_session_token g random user role now = then_some random λ bytes.
    then_some
      (g.crypto.marshal (record {
        user = user;
        role = role_text role;
        jti = g.crypto.encode bytes;
        exp = unix (now + session_ttl);
      }))
      λ payload. some (
        (g.crypto.encode payload ++ ".")
        ++ g.crypto.encode (g.crypto.hmac (session_signing_key g) payload))

-- The claims of a payload whose signature is right.
abbrev pub checked_claims : Signer → String → String → Option SessionClaims
checked_claims g payload want =
    if len want == 32 && str_eq (g.crypto.hmac (session_signing_key g) payload) want
    then g.crypto.unmarshal payload
    else none

unfoldable pub signed_claims : Signer → String → Option SessionClaims
signed_claims g token = then_some (two_parts (split_dots token)) λ parts.
    then_some (g.crypto.decode parts.0)
      λ payload. then_some (g.crypto.decode parts.1) λ want. checked_claims g payload want

unfoldable pub role_of : String → Option Role
role_of s =
    if str_eq s "admin"
    then some role_admin
    else if str_eq s "viewer"
    then some role_viewer
    else none

unfoldable pub user_of : SessionClaims → Option AuthUser
user_of c = then_some (role_of c.role) λ role. some (record { username = c.user; role = role })

abbrev pub unless_revoked : SessionClaims → Bool × Sessions → Option AuthUser × Sessions
unless_revoked c (true, s) = (none, s)
unless_revoked c (false, s) = (user_of c, s)

unfoldable pub admit_claims : Os → ℕ → Sessions → Option SessionClaims → Option AuthUser × Sessions
admit_claims os now s none = (none, s)
admit_claims os now s (some c) =
    if str_eq (trim_space c.jti) ""
    then (none, s)
    else if ltb c.exp (unix now)
    then (none, s)
    else unless_revoked c (is_session_revoked os c.jti now s)

unfoldable pub verify_session_token : Signer → String → ℕ → Sessions → Option AuthUser × Sessions
verify_session_token g token now s = admit_claims g.os now s (signed_claims g token)

-- The claims of a token, whatever its signature is.
unfoldable pub token_claims : Signer → String → Option SessionClaims
token_claims g token =
    then_some (two_parts (split_dots token))
      λ parts. then_some (g.crypto.decode parts.0) g.crypto.unmarshal

-- An error of the shared store is ignored.
abbrev pub revoke_shared : SessionClaims → Option (Conn RevocationDb) → Option (Conn RevocationDb)
revoke_shared c none = none
revoke_shared c (some conn) = some (revoke_session_jti c.jti c.exp conn).1

unfoldable pub revoke_claims : ℕ → Sessions → Option SessionClaims → Sessions
revoke_claims now s none = s
revoke_claims now s (some c) = if str_eq (trim_space c.jti) "" || c.exp == 0 then s else record {
  local = store_local_session_revocation c.jti c.exp now s.local;
  store = revoke_shared c s.store;
}

unfoldable pub revoke_session_token : Signer → String → ℕ → Sessions → Sessions
revoke_session_token g token now s = revoke_claims now s (token_claims g token)
