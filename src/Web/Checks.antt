-- ===== src/Web/Checks.antt =====
-- EnforceHTTPS of internal/delivery/http/https_policy.go and RequireCSRF of csrf.go. What follows a
-- check is left open: each says whether the request passes, and with what.
use Prim.Native.String.{◌++◌}
use Prim.Native.Char.{code}
use nms.Prelude.{
  ℕ, Bool, false, not, ◌&&◌, ◌||◌, List, [], ◌∷◌, String, Option, none, some, ◌==◌, str_eq,
  trim_space, has_prefix, contains, any, if◌then◌else◌,
}
use nms.Config.{Os}
use nms.Auth.{env_bool, equal_const_time}
use nms.Web.Peer.{NetPackage, WebRequest, is_https_request}

unfoldable pub is_https_bypass_path : String → Bool
is_https_bypass_path path =
    str_eq path "/health"
    || str_eq path "/ready"
    || str_eq path "/metrics"
    || str_eq path "/.well-known/security.txt"

-- `strings.ContainsAny(host, " \t\r\n/\\")`.
abbrev has_any : List ℕ → String → Bool
has_any codes String.[] = false
has_any codes (String.◌∷◌ c s) = any (λ k. code c == k) codes || has_any codes s

-- `strings.HasSuffix(host, "]")`.
abbrev ends_in_bracket : String → Bool
ends_in_bracket String.[] = false
ends_in_bracket (String.◌∷◌ c s) = (code c == 93 && str_eq s "") || ends_in_bracket s

abbrev bracket_host : String → Option (String × String) → String
bracket_host host (some parts) = host
bracket_host host none = if ends_in_bracket host then host else ""

abbrev split_host : NetPackage → Option (String × String) → String
split_host net none = ""
split_host net (some (h, p)) =
    if str_eq (trim_space h) "" || str_eq (trim_space p) "" then "" else net.join_host_port h p

unfoldable pub canonical_request_host : NetPackage → WebRequest → String
canonical_request_host net r =
    let host = trim_space r.host in
    if str_eq host "" || has_any (32 ∷ 9 ∷ 13 ∷ 10 ∷ 47 ∷ 92 ∷ []) host || contains host "@"
    then ""
    else if has_prefix host "["
    then bracket_host host (net.split_host_port host)
    else if not (contains host ":")
    then host
    else split_host net (net.split_host_port host)

pub data HttpsAnswer : Type 0 where
  https_passed : HttpsAnswer
  bad_host : HttpsAnswer
  redirected : String → HttpsAnswer

unfoldable pub enforce_https : Os → NetPackage → WebRequest → HttpsAnswer
enforce_https os net r =
    let host = canonical_request_host net r in
    if not (env_bool os "NMS_ENFORCE_HTTPS")
      || is_https_request os net r
      || is_https_bypass_path r.path
    then https_passed
    else if str_eq host ""
    then bad_host
    else redirected ("https://" ++ host ++ r.request_uri)

unfoldable pub is_unsafe_method : String → Bool
is_unsafe_method m = str_eq m "POST" || str_eq m "PUT" || str_eq m "PATCH" || str_eq m "DELETE"

-- `fresh` is what the random generator gives, none for its error. The answer's second part tells
-- whether the cookie is set.
abbrev pub csrf_token : Option String → Option String → Option String
csrf_token none fresh = fresh
csrf_token (some cookie) fresh = if str_eq (trim_space cookie) "" then fresh else some cookie

unfoldable pub provided_token : WebRequest → String
provided_token r =
    let header = trim_space r.csrf_header in
    if str_eq header "" then trim_space r.csrf_form else header

pub data CsrfAnswer : Type 0 where
  csrf_init_failed : CsrfAnswer
  token_mismatch : CsrfAnswer
  csrf_passed : String → CsrfAnswer

unfoldable pub csrf_with : WebRequest → Option String → CsrfAnswer
csrf_with r none = csrf_init_failed
csrf_with r (some token) =
    if not (is_unsafe_method r.method)
    then csrf_passed token
    else if str_eq (provided_token r) "" || not (equal_const_time (provided_token r) token)
    then token_mismatch
    else csrf_passed token

unfoldable pub require_csrf : Option String → WebRequest → CsrfAnswer
require_csrf fresh r = csrf_with r (csrf_token r.csrf_cookie fresh)
