-- ===== src/Tests/Entry.antt =====
-- The checks of a request.
use nms.Prelude.{◌≡◌, ◌⊎◌, refl, [], ◌∷◌, none, some, str_eq, trim_space, if◌then◌else◌}
use nms.Prelude.Assoc.{lookup, sweep}
use nms.Config.{Os, env_or_file}
use nms.Login.Local.{LoginAttemptState, check, decide_login, gc_locked, reset_window_if_expired}
use nms.Session.Token.{Crypto, Signer, AuthUser, role_admin}
use nms.Auth.{
  HttpRequest, Gate, admin_cred, viewer_cred, basic_match, equal_const_time,
  session_user_from_cookie, next, match_creds, basic_passage, require_auth, admin_by_basic,
  admin_user_from_request,
}
use nms.Auth.Entry.{HasSession, HasCreds, require_auth-entitled}

abbrev root_os : Os
root_os = record {
  getenv = λ name.
      if str_eq name "NMS_ADMIN_USER"
      then "root"
      else if str_eq name "NMS_ADMIN_PASS"
      then "toor"
      else "";
  read_file = λ _. none;
}

abbrev no_crypto : Crypto
no_crypto = record {
  sha256 = λ s. s;
  hmac = λ key s. s;
  encode = λ s. s;
  decode = λ s. none;
  marshal = λ c. none;
  unmarshal = λ s. none;
}

abbrev root_signer : Signer
root_signer = record { os = root_os; crypto = no_crypto; fallback_key = "" }

abbrev root : AuthUser
root = record { username = "root"; role = role_admin }

abbrev by_password : HttpRequest
by_password = record {
  session_cookie = none;
  basic_auth = some ("root", "toor");
  client_ip = "10.0.0.1";
}

abbrev locked_state : LoginAttemptState
locked_state = record { count = 10; first_fail_at = 100; locked_until = 5000 }

abbrev open_gate : Gate
open_gate = record {
  sessions = record { local = record { revoked = []; last_gc = 0 }; store = none };
  limiter = record { by_ip = []; by_user = []; last_gc = 0 };
}

abbrev shut_gate : Gate
shut_gate = record open_gate {
  limiter = record { by_ip = []; by_user = ("root", locked_state) ∷ []; last_gc = 0 };
}

root_passes : (require_auth root_signer by_password 1000 open_gate).0 ≡ next (some root)
unfolding require_auth admin_cred viewer_cred env_or_file trim_space session_user_from_cookie
    basic_passage check decide_login gc_locked reset_window_if_expired lookup sweep match_creds
    basic_match equal_const_time
root_passes = refl

require_auth-entitled_example :
    HasSession root_signer by_password 1000 open_gate root
    ⊎ HasCreds root_os by_password 1000 open_gate root
require_auth-entitled_example =
    require_auth-entitled root_signer by_password 1000 open_gate root root_passes

root_is_found : (admin_user_from_request root_signer by_password 1000 open_gate).0.user ≡ some root
unfolding admin_user_from_request admin_cred env_or_file trim_space session_user_from_cookie
    admin_by_basic check decide_login gc_locked reset_window_if_expired lookup sweep basic_match
    equal_const_time
root_is_found = refl
