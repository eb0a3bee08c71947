-- ===== src/Session/Revocations.antt =====
-- Revoked sessions: the map of the process, and the table that the servers share. A time is a number
-- of nanoseconds, and its Unix time is its quotient by a second; a call reads the clock once here.
-- An expiry that is not positive is 0.
use nms.Prelude.{
  ℕ, ◌*◌, ◌-◌, ◌/◌, Bool, true, false, not, ◌&&◌, ◌||◌, List, [], ◌∷◌, String, Option, none, some,
  ◌==◌, ltb, leb, str_eq, any, delete_where, trim_space, to_lower, equal_fold, if◌then◌else◌,
}
use nms.Prelude.Assoc.{GoMap, lookup, insert, sweep}
use nms.Prelude.Result.{Result, ok, err}
use nms.Config.{Os}
use nms.Sql.{Conn, Sql, pure, ◌>>◌, query, exec}
use nms.Incident.Tables.{second}
use nms.Login.Local.{minute}

abbrev pub unix : ℕ → ℕ
unix now = now / second

-- `sessionRevokedByJTI` and `sessionRevokeLastGC`, whose zero time is 0.
pub record Revocations : Type 0 where
  pub revoked : GoMap ℕ
  pub last_gc : ℕ

unfoldable pub revoke_gc : ℕ → Revocations → Revocations
revoke_gc now s =
    if not (s.last_gc == 0) && ltb (now - s.last_gc) minute
    then s
    else record { revoked = sweep (λ exp. ltb exp (unix now)) s.revoked; last_gc = now }

-- `ok && exp >= nowUnix`.
abbrev pub is_live : Option ℕ → ℕ → Bool
is_live none now_unix = false
is_live (some exp) now_unix = leb now_unix exp

unfoldable pub is_session_revoked_locally : String → ℕ → Revocations → Bool × Revocations
is_session_revoked_locally jti now s =
    let g = revoke_gc now s in (is_live (lookup jti g.revoked) (unix now), g)

unfoldable pub store_local_session_revocation : String → ℕ → ℕ → Revocations → Revocations
store_local_session_revocation jti exp now s =
    let g = revoke_gc now s in record g { revoked = insert jti exp g.revoked }

pub record RevocationRow : Type 0 where
  pub jti : String
  pub expires_at : ℕ
  pub revoked_at : ℕ

pub record RevocationDb : Type 0 where
  pub rows : List RevocationRow
  pub now : ℕ  -- what NOW() answers

-- `INSERT … ON CONFLICT (jti) DO UPDATE`.
unfoldable pub upsert_revocation : RevocationRow → List RevocationRow → List RevocationRow
upsert_revocation new [] = new ∷ []
upsert_revocation new (r ∷ rs) =
    let rest = upsert_revocation new rs in if str_eq r.jti new.jti then new ∷ rs else r ∷ rest

unfoldable pub revoke_session_jti : String → ℕ → Sql RevocationDb (Unit {0})
revoke_session_jti jti exp = if str_eq jti "" || exp == 0 then pure tt else do
  exec (λ db. record db { rows = delete_where (λ r. ltb r.expires_at db.now) db.rows })
  exec (λ db. record db {
    rows =
        upsert_revocation (record { jti = jti; expires_at = exp * second; revoked_at = db.now })
          db.rows;
  })

unfoldable pub is_session_jti_revoked : String → ℕ → Sql RevocationDb Bool
is_session_jti_revoked jti now_unix =
    if str_eq jti ""
    then pure false
    else query (λ db. any (λ r. str_eq r.jti jti && leb (now_unix * second) r.expires_at) db.rows)

unfoldable pub session_revocation_fail_closed_enabled : Os → Bool
session_revocation_fail_closed_enabled os =
    let env = trim_space (to_lower (os.getenv "NMS_SESSION_REVOCATION_FAIL_CLOSED")) in
    if not (str_eq env "")
    then str_eq env "1" || str_eq env "true" || str_eq env "yes" || str_eq env "on"
    else equal_fold (trim_space (os.getenv "NMS_ENV")) "production"

-- The process's map, and the connection of the shared store (`none` when there is none).
pub record Sessions : Type 0 where
  pub local : Revocations
  pub store : Option (Conn RevocationDb)

-- An error of the shared store counts as the setting says.
abbrev pub store_answer : Os → Revocations → Result Bool × Conn RevocationDb → Bool × Sessions
store_answer os local (ok revoked, c) = (revoked, record { local = local; store = some c })
store_answer os local (err e, c) =
    (session_revocation_fail_closed_enabled os, record { local = local; store = some c })

unfoldable pub ask_store :
    Os → String → ℕ → Revocations → Option (Conn RevocationDb) → Bool × Sessions
ask_store os jti now local none = (false, record { local = local; store = none })
ask_store os jti now local (some c) =
    store_answer os local (is_session_jti_revoked jti (unix now) c)

unfoldable pub is_session_revoked : Os → String → ℕ → Sessions → Bool × Sessions
is_session_revoked os jti now s =
    let (hit, local) = is_session_revoked_locally jti now s.local in
    if hit then (true, record s { local = local }) else ask_store os jti now local s.store
