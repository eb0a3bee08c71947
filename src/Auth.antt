-- ===== src/Auth.antt =====
-- Who may pass: RequireAuth, adminUserFromRequest and RequireAdmin of
-- internal/delivery/http/auth.go, over the sessions and the limiter in memory. The form of a refusal
-- (page, JSON or redirection) is not modelled.
pub mod Entry
use Prim.Native.String.{len}
use nms.Prelude.{
  ℕ, ◌+◌, ◌/◌, Bool, true, false, ◌&&◌, ◌||◌, String, Option, none, some, ◌==◌, str_eq, trim_space,
  to_lower, if◌then◌else◌,
}
use nms.Config.{Os, env_or_file}
use nms.Incident.Tables.{second}
use nms.Login.Local.{LoginLimiter, Verdict, check, on_failure, on_success}
use nms.Session.Revocations.{Sessions}
use nms.Session.Token.{Signer, Role, role_admin, role_viewer, AuthUser, verify_session_token}

-- What a request brings: the session cookie, the credentials of HTTP Basic, and what `clientIP`
-- answers for it.
pub record HttpRequest : Type 0 where
  pub session_cookie : Option String
  pub basic_auth : Option (String × String)
  pub client_ip : String

-- The variables of the process that the checks read and write.
pub record Gate : Type 0 where
  pub sessions : Sessions
  pub limiter : LoginLimiter

pub record BasicCred : Type 0 where
  pub user : String
  pub pass : String
  pub role : Role

unfoldable pub admin_cred : Os → BasicCred
admin_cred os = record {
  user = trim_space (env_or_file os "NMS_ADMIN_USER");
  pass = env_or_file os "NMS_ADMIN_PASS";
  role = role_admin;
}

unfoldable pub viewer_cred : Os → BasicCred
viewer_cred os = record {
  user = trim_space (env_or_file os "NMS_VIEWER_USER");
  pass = env_or_file os "NMS_VIEWER_PASS";
  role = role_viewer;
}

unfoldable pub equal_const_time : String → String → Bool
equal_const_time a b = len a == len b && str_eq a b

unfoldable pub basic_match : BasicCred → String → String → Bool
basic_match cred user pass =
    if str_eq cred.user "" || str_eq cred.pass ""
    then false
    else equal_const_time cred.user user && equal_const_time cred.pass pass

unfoldable pub env_bool : Os → String → Bool
env_bool os name =
    let v = trim_space (to_lower (os.getenv name)) in
    str_eq v "1" || str_eq v "true" || str_eq v "yes" || str_eq v "on"

unfoldable pub session_user_from_cookie :
    Signer → Option String → ℕ → Sessions → Option AuthUser × Sessions
session_user_from_cookie g none now s = (none, s)
session_user_from_cookie g (some v) now s =
    if str_eq v "" then (none, s) else verify_session_token g v now s

-- What the request meets: the next handler, with a user or without authentication, or a refusal.
pub data Passage : Type 0 where
  next : Option AuthUser → Passage
  not_configured : Passage
  too_many_requests : ℕ → Passage
  unauthorized : Passage

unfoldable pub retry_seconds : ℕ → ℕ
retry_seconds d = d / second + 1

-- The credentials, when the limiter lets them be compared.
unfoldable pub match_creds : Os → String → String → String → ℕ → Gate → Passage × Gate
match_creds os ip user pass now gate =
    if basic_match (admin_cred os) user pass
    then (
      next (some (record { username = user; role = role_admin })),
      record gate { limiter = on_success gate.limiter ip user },
    )
    else if basic_match (viewer_cred os) user pass
    then (
      next (some (record { username = user; role = role_viewer })),
      record gate { limiter = on_success gate.limiter ip user },
    )
    else (unauthorized, record gate { limiter = on_failure gate.limiter ip user now })

abbrev pub if_allowed :
    Os → String → String → String → ℕ → Sessions → Verdict × LoginLimiter → Passage × Gate
if_allowed os ip user pass now s (v, l) =
    if v.allowed
    then match_creds os ip user pass now (record { sessions = s; limiter = l })
    else (too_many_requests (retry_seconds v.retry_after), record { sessions = s; limiter = l })

unfoldable pub basic_passage : Os → Option (String × String) → String → ℕ → Gate → Passage × Gate
basic_passage os none ip now gate = (unauthorized, gate)
basic_passage os (some (user, pass)) ip now gate =
    if_allowed os ip user pass now gate.sessions (check gate.limiter ip user now)

abbrev pub session_or_basic :
    Os → HttpRequest → ℕ → LoginLimiter → Option AuthUser × Sessions → Passage × Gate
session_or_basic os r now l (some u, s) = (next (some u), record { sessions = s; limiter = l })
session_or_basic os r now l (none, s) =
    basic_passage os r.basic_auth r.client_ip now (record { sessions = s; limiter = l })

unfoldable pub require_auth : Signer → HttpRequest → ℕ → Gate → Passage × Gate
require_auth g r now gate =
    if str_eq (admin_cred g.os).user "" && str_eq (viewer_cred g.os).user ""
    then (if env_bool g.os "NMS_ALLOW_NO_AUTH" then (next none, gate) else (not_configured, gate))
    else session_or_basic g.os r now gate.limiter
        (session_user_from_cookie g r.session_cookie now gate.sessions)

-- `true` when the next handler is called. The user is the one in the request's context.
unfoldable pub require_admin : Os → Option AuthUser → Bool
require_admin os none = env_bool os "NMS_ALLOW_NO_AUTH"
require_admin os (some u) = elim u.role [ role_admin ↦ true | role_viewer ↦ false ]

pub record AdminAuthOutcome : Type 0 where
  pub user : Option AuthUser
  pub retry_after : ℕ

abbrev pub no_admin : AdminAuthOutcome
no_admin = record { user = none; retry_after = 0 }

abbrev pub is_admin : Option AuthUser → Bool
is_admin none = false
is_admin (some u) = elim u.role [ role_admin ↦ true | role_viewer ↦ false ]

abbrev pub admin_if_allowed :
    Os → String → String → String → ℕ → Sessions → Verdict × LoginLimiter → AdminAuthOutcome × Gate
admin_if_allowed os ip user pass now s (v, l) =
    if v.allowed
    then (if basic_match (admin_cred os) user pass
        then (
          record { user = some (record { username = user; role = role_admin }); retry_after = 0 },
          record { sessions = s; limiter = on_success l ip user },
        )
        else (no_admin, record { sessions = s; limiter = on_failure l ip user now }))
    else (record { user = none; retry_after = v.retry_after }, record { sessions = s; limiter = l })

unfoldable pub admin_by_basic :
    Os → Option (String × String) → String → ℕ → Gate → AdminAuthOutcome × Gate
admin_by_basic os none ip now gate = (no_admin, gate)
admin_by_basic os (some (user, pass)) ip now gate =
    admin_if_allowed os ip user pass now gate.sessions (check gate.limiter ip user now)

abbrev pub admin_by_session :
    Os → HttpRequest → ℕ → LoginLimiter → Option AuthUser × Sessions → AdminAuthOutcome × Gate
admin_by_session os r now l (u, s) =
    if is_admin u
    then (record { user = u; retry_after = 0 }, record { sessions = s; limiter = l })
    else admin_by_basic os r.basic_auth r.client_ip now (record { sessions = s; limiter = l })

unfoldable pub admin_user_from_request : Signer → HttpRequest → ℕ → Gate → AdminAuthOutcome × Gate
admin_user_from_request g r now gate =
    if str_eq (admin_cred g.os).user ""
    then (no_admin, gate)
    else admin_by_session g.os r now gate.limiter
        (session_user_from_cookie g r.session_cookie now gate.sessions)
