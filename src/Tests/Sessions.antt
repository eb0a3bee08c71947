-- ===== src/Tests/Sessions.antt =====
-- Sessions, with small primitives in place of the libraries'.
use Prim.Native.Char.{Char, code}
use Prim.Native.String.{◌++◌, char_at}
use text.Mathlib.TextEquality.{Char-path}
use nms.Prelude.{
  split_dots, ◌*◌, ◌≤◌, ◌≡◌, refl, sym, ap, inl, inr, Bool, true, false, ◌&&◌, [], ◌∷◌, String,
  Option, none, some, arith, ◌==◌, str_eq, eq_iff, trim_space, if◌then◌else◌, Bool-cases,
}
use nms.Prelude.Assoc.{lookup, sweep}
use nms.Config.{env_or_file}
use nms.Incident.Tables.{second}
use nms.Session.Revocations.{
  RevocationDb, Sessions, unix, is_session_revoked, is_session_revoked_locally, revoke_gc,
  ask_store,
}
use nms.Session.Token.{
  SessionClaims, Crypto, Signer, AuthUser, role_admin, sign_session_token, session_signing_key,
  signed_claims, token_claims, user_of, role_of, verify_session_token, revoke_session_token,
  admit_claims,
}
use nms.Session.Genuine.{IsGenuine, verified-IsGenuine}
use nms.Session.Safety.{verify, serve, revoked_stays_out}
use nms.Session.Revival.{unsigned_logout_revives}
use nms.Session.Roundtrip.{IsSound, has_dot, signed_is_verified}
use nms.Tests.Data.{bare_os}

-- A dot is written "--", and another character after a plus.
unfoldable escape : String → String
escape String.[] = ""
escape (String.◌∷◌ c s) =
    let rest = escape s in
    if code c == 46
    then String.◌∷◌ (char_at "-" 0) (String.◌∷◌ (char_at "-" 0) rest)
    else String.◌∷◌ (char_at "+" 0) (String.◌∷◌ c rest)

abbrev put : Char → Option String → Option String
put c none = none
put c (some s) = some (String.◌∷◌ c s)

unfoldable unescape : String → Option String
unescape String.[] = some ""
unescape (String.◌∷◌ t String.[]) = none
unescape (String.◌∷◌ t (String.◌∷◌ c s)) =
    let rest = unescape s in put (if code t == 45 then char_at "." 0 else c) rest

unescape-escape : (s : String) → unescape (escape s) ≡ some s
unfolding escape unescape
unescape-escape String.[] = refl
unescape-escape (String.◌∷◌ c s) = elim (Bool-cases (code c == 46)) [
  | inl dot ↦
      let same : char_at "." 0 ≡ c = Char-path (char_at "." 0) c (ground arith) in
      rw (dot, unescape-escape s) (ap (λ (d : Char). some (String.◌∷◌ d s)) same)
  | inr other ↦ rw (other, unescape-escape s) refl
]

escape-no_dot : (s : String) → has_dot (escape s) ≡ false
unfolding escape
escape-no_dot String.[] = refl
escape-no_dot (String.◌∷◌ c s) = elim (Bool-cases (code c == 46)) [
  | inl dot ↦ rw dot (escape-no_dot s)
  | inr other ↦ rw (other, other) (escape-no_dot s)
]

abbrev ann_claims : SessionClaims
ann_claims = record { user = "ann"; role = "admin"; jti = "+7"; exp = 604801 }

-- Claims of the same session, over long ago.
abbrev old_claims : SessionClaims
old_claims = record ann_claims { exp = 1 }

abbrev is_ann : SessionClaims → Bool
is_ann c = str_eq c.user "ann" && str_eq c.role "admin" && str_eq c.jti "+7" && c.exp == 604801

unfoldable marshal_ann : SessionClaims → Option String
marshal_ann c = if is_ann c then some "claims" else none

unfoldable unmarshal_ann : String → Option SessionClaims
unmarshal_ann s =
    if str_eq s "claims" then some ann_claims else if str_eq s "old" then some old_claims else none

is_ann-same : (c : SessionClaims) → is_ann c ≡ true → c ≡ ann_claims
is_ann-same c h =
    let user : c.user ≡ "ann" = ground (arith, eq_iff c.user "ann") in
    let role : c.role ≡ "admin" = ground (arith, eq_iff c.role "admin") in
    let jti : c.jti ≡ "+7" = ground (arith, eq_iff c.jti "+7") in
    let exp : c.exp ≡ 604801 = ground arith in
    λ i. record { user = user i; role = role i; jti = jti i; exp = exp i }

unmarshal-marshal_ann :
    (c : SessionClaims) (payload : String)
    → marshal_ann c ≡ some payload
    → unmarshal_ann payload ≡ some c
unfolding marshal_ann unmarshal_ann
unmarshal-marshal_ann c payload h = elim (Bool-cases (is_ann c)) [
  | inl ann ↦
      let written : "claims" ≡ payload = ground arith in
      rw (← written) (ap some (sym (is_ann-same c ann)))
  | inr other ↦ let missing : ◌≡◌ {A = Option String} none (some payload) = rw other at h in cc
]

abbrev a_mac : String
a_mac = "0123456789abcdef0123456789abcdef"

abbrev small_crypto : Crypto
small_crypto = record {
  sha256 = λ s. a_mac;
  hmac = λ key s. a_mac;
  encode = escape;
  decode = unescape;
  marshal = marshal_ann;
  unmarshal = unmarshal_ann;
}

small_crypto-IsSound : IsSound small_crypto
small_crypto-IsSound = record {
  decode-encode = unescape-escape;
  encode-no_dot = escape-no_dot;
  hmac-len = λ key text. refl;
  unmarshal-marshal = unmarshal-marshal_ann;
}

abbrev signer : Signer
signer = record { os = bare_os; crypto = small_crypto; fallback_key = "key" }

abbrev ann_token : String
ann_token = (escape "claims" ++ ".") ++ escape a_mac

abbrev old_token : String
old_token = (escape "old" ++ ".") ++ ""

abbrev no_sessions : Sessions
no_sessions = record { local = record { revoked = []; last_gc = 0 }; store = none }

abbrev out_table : RevocationDb
out_table = record {
  rows = record { jti = "+7"; expires_at = 604801 * second; revoked_at = 0 } ∷ [];
  now = 100 * second;
}

abbrev out_sessions : Sessions
out_sessions = record {
  local = record { revoked = ("+7", 604801) ∷ []; last_gc = 0 };
  store = some (record { db = out_table; faults = [] });
}

abbrev ann : AuthUser
ann = record { username = "ann"; role = role_admin }

signed_is_verified_example :
    (verify_session_token signer ann_token (2 * second) no_sessions).0 ≡ some ann
unfolding sign_session_token session_signing_key env_or_file trim_space escape marshal_ann
    is_session_revoked is_session_revoked_locally revoke_gc ask_store lookup sweep
signed_is_verified_example =
    signed_is_verified signer "7" "ann" ann_token role_admin second (2 * second) no_sessions
      small_crypto-IsSound refl refl (omega arith) refl

ann_claims-signed : signed_claims signer ann_token ≡ some ann_claims
unfolding signed_claims split_dots escape unescape unmarshal_ann session_signing_key env_or_file
    trim_space
ann_claims-signed = refl

ann_gets_in : (verify_session_token signer ann_token (2 * second) no_sessions).0 ≡ some ann
unfolding verify_session_token admit_claims is_session_revoked is_session_revoked_locally revoke_gc
    ask_store lookup sweep trim_space user_of role_of
ann_gets_in = rw ann_claims-signed refl

verified-IsGenuine_example :
    (c : SessionClaims) × IsGenuine signer ann_token c
    × (user_of c ≡ some ann)
    × (str_eq (trim_space c.jti) "" ≡ false)
    × (unix (2 * second) ≤ c.exp)
    × ((is_session_revoked bare_os c.jti (2 * second) no_sessions).0 ≡ false)
verified-IsGenuine_example =
    verified-IsGenuine signer ann_token (2 * second) no_sessions ann ann_gets_in

revoked_stays_out_example :
    (verify_session_token signer ann_token (100 * second) (
      serve signer
        (verify ann_token (99 * second) ∷ [])
        (revoke_session_token signer ann_token (2 * second) no_sessions))).0
    ≡ none
unfolding trim_space
revoked_stays_out_example =
    revoked_stays_out signer ann_token ann_claims (2 * second) (100 * second)
      (verify ann_token (99 * second) ∷ []) no_sessions ann_claims-signed refl
      (omega arith, omega arith) (tt, tt)

old_claims-read : token_claims signer old_token ≡ some old_claims
unfolding token_claims split_dots escape unescape unmarshal_ann
old_claims-read = refl

unsigned_logout_revives_example :
    (verify_session_token signer ann_token
      (100 * second)
      (revoke_session_token signer old_token (100 * second) out_sessions)).0
    ≡ user_of ann_claims
unfolding trim_space
unsigned_logout_revives_example =
    unsigned_logout_revives signer ann_token old_token ann_claims old_claims (100 * second)
      out_sessions out_table ann_claims-signed refl (omega arith) old_claims-read refl (omega arith)
      (omega arith) refl (tt, tt)
