-- ===== src/Auth/Entry.antt =====
-- Nobody passes without a session or the configured credentials.
use nms.Prelude.{
  ℕ, ◌<◌, ◌≡◌, ◌⊎◌, refl, ap, inl, inr, true, false, ◌&&◌, String, Option, none, some, arith,
  str_eq, Bool-cases,
}
use nms.Prelude.Assoc.{lookup}
use nms.Config.{Os}
use nms.Login.Local.{LoginAttemptState, LoginLimiter, Verdict, check}
use nms.Login.Lockout.{locked_is_denied}
use nms.Session.Revocations.{Sessions}
use nms.Session.Token.{Signer, Role, role_admin, role_viewer, AuthUser, verify_session_token}
use nms.Auth.{
  HttpRequest, Gate, BasicCred, admin_cred, viewer_cred, basic_match, env_bool,
  session_user_from_cookie, Passage, next, not_configured, too_many_requests, unauthorized,
  retry_seconds, match_creds, if_allowed, basic_passage, session_or_basic, require_auth, is_admin,
  admin_if_allowed, admin_by_basic, admin_by_session, admin_user_from_request,
}

abbrev pub cred_of : Os → Role → BasicCred
cred_of os role_admin = admin_cred os
cred_of os role_viewer = viewer_cred os

-- The cookie is a token that is verified as the user.
abbrev pub HasSession : Signer → HttpRequest → ℕ → Gate → AuthUser → Type 0
HasSession g r now gate u =
    (token : String) × (r.session_cookie ≡ some token)
    × ((verify_session_token g token now gate.sessions).0 ≡ some u)

-- The request has the credentials of the user's role, and the limiter allows the attempt.
abbrev pub HasCreds : Os → HttpRequest → ℕ → Gate → AuthUser → Type 0
HasCreds os r now gate u =
    (pass : String) × (r.basic_auth ≡ some (u.username, pass))
    × (basic_match (cred_of os u.role) u.username pass ≡ true)
    × ((check gate.limiter r.client_ip u.username now).0.allowed ≡ true)

-- The user of a cookie is the one of its token.
cookie-HasSession :
    (g : Signer) (cookie : Option String) (now : ℕ) (s : Sessions) (u : AuthUser)
    → (session_user_from_cookie g cookie now s).0 ≡ some u
    → (token : String) × (cookie ≡ some token) × ((verify_session_token g token now s).0 ≡ some u)
unfolding session_user_from_cookie
cookie-HasSession g none now s u h = cc
cookie-HasSession g (some v) now s u h = elim (Bool-cases (str_eq v "")) [
  | inl blank ↦ let nobody : ◌≡◌ {A = Option AuthUser} none (some u) = rw blank at h in cc
  | inr given ↦ (v, refl, rw given at h)
]

match_creds-matched :
    (os : Os) (ip user pass : String) (now : ℕ) (gate : Gate) (u : AuthUser)
    → (match_creds os ip user pass now gate).0 ≡ next (some u)
    → (u.username ≡ user) × (basic_match (cred_of os u.role) user pass ≡ true)
unfolding match_creds
match_creds-matched os ip user pass now gate u h =
    elim (Bool-cases (basic_match (admin_cred os) user pass)) [
      | inl admin ↦
          let e : ◌≡◌ {A = Passage} (next (some (record { username = user; role = role_admin })))
              (next (some u)) =
            rw admin at h in
          let same : record { username = user; role = role_admin } ≡ u = ground arith in
          rw (← same) (refl, admin)
      | inr not_admin ↦ elim (Bool-cases (basic_match (viewer_cred os) user pass)) [
        | inl viewer ↦
            let e : ◌≡◌ {A = Passage} (next (some (record { username = user; role = role_viewer })))
                (next (some u)) =
              rw (not_admin, viewer) at h in
            let same : record { username = user; role = role_viewer } ≡ u = ground arith in
            rw (← same) (refl, viewer)
        | inr nobody ↦
            let e : ◌≡◌ {A = Passage} unauthorized (next (some u)) = rw (not_admin, nobody) at h in
            cc
      ]
    ]

if_allowed-matched :
    (os : Os) (ip user pass : String) (now : ℕ) (s : Sessions) (a : Verdict × LoginLimiter)
    (u : AuthUser)
    → (if_allowed os ip user pass now s a).0 ≡ next (some u)
    → (a.0.allowed ≡ true)
      × (u.username ≡ user)
      × (basic_match (cred_of os u.role) user pass ≡ true)
if_allowed-matched os ip user pass now s (v, l) u h = elim (Bool-cases v.allowed) [
  | inl allowed ↦
      let (same, matched) =
        match_creds-matched os ip user pass now (record { sessions = s; limiter = l }) u
          (rw allowed at h) in
      (allowed, same, matched)
  | inr denied ↦
      let e : ◌≡◌ {A = Passage} (too_many_requests (retry_seconds v.retry_after)) (next (some u)) =
        rw denied at h in
      cc
]

basic-creds :
    (os : Os) (basic : Option (String × String)) (ip : String) (now : ℕ) (gate : Gate)
    (u : AuthUser)
    → (basic_passage os basic ip now gate).0 ≡ next (some u)
    → (pass : String) × (basic ≡ some (u.username, pass))
      × (basic_match (cred_of os u.role) u.username pass ≡ true)
      × ((check gate.limiter ip u.username now).0.allowed ≡ true)
unfolding basic_passage
basic-creds os none ip now gate u h = cc
basic-creds os (some (user, pass)) ip now gate u h =
    let (allowed, same, matched) =
      if_allowed-matched os ip user pass now gate.sessions (check gate.limiter ip user now) u h in
    (pass, rw same refl, rw same matched, rw same allowed)

session_or_basic-entitled :
    (g : Signer) (r : HttpRequest) (now : ℕ) (gate : Gate) (a : Option AuthUser × Sessions)
    (u : AuthUser)
    → (a.0 ≡ some u → HasSession g r now gate u)
    → (session_or_basic g.os r now gate.limiter a).0 ≡ next (some u)
    → HasSession g r now gate u ⊎ HasCreds g.os r now gate u
session_or_basic-entitled g r now gate (some v, s) u session h =
    let same : v ≡ u = ground arith in inl (session (ap some same))
session_or_basic-entitled g r now gate (none, s) u session h = inr (
    basic-creds g.os r.basic_auth r.client_ip now (record { sessions = s; limiter = gate.limiter })
      u h)

-- A request that RequireAuth passes on with a user has the cookie of a token that is verified as that
-- user, or the configured credentials of that user's role while the limiter allows the attempt.
pub require_auth-entitled :
    (g : Signer) (r : HttpRequest) (now : ℕ) (gate : Gate) (u : AuthUser)
    → (require_auth g r now gate).0 ≡ next (some u)
    → HasSession g r now gate u ⊎ HasCreds g.os r now gate u
unfolding require_auth
require_auth-entitled g r now gate u h =
    elim (Bool-cases (str_eq (admin_cred g.os).user "" && str_eq (viewer_cred g.os).user "")) [
      | inl nobody ↦ elim (Bool-cases (env_bool g.os "NMS_ALLOW_NO_AUTH")) [
        | inl open_door ↦
            let e : ◌≡◌ {A = Passage} (next none) (next (some u)) = rw (nobody, open_door) at h in
            ground arith
        | inr shut ↦
            let e : ◌≡◌ {A = Passage} not_configured (next (some u)) = rw (nobody, shut) at h in cc
      ]
      | inr somebody ↦
          session_or_basic-entitled g r now gate _ u
            (cookie-HasSession g r.session_cookie now gate.sessions u) (rw somebody at h)
    ]

without_session :
    (os : Os) (r : HttpRequest) (now : ℕ) (l : LoginLimiter) (a : Option AuthUser × Sessions)
    → a.0 ≡ none
    → session_or_basic os r now l a
      ≡ basic_passage os r.basic_auth r.client_ip now (record { sessions = a.1; limiter = l })
without_session os r now l (none, s) h = refl
without_session os r now l (some u, s) h = cc

-- With a user configured and no valid session, credentials of a locked address or user are refused
-- with the time to wait, whether they are right or not.
pub locked_is_turned_away :
    (g : Signer) (r : HttpRequest) (now : ℕ) (gate : Gate) (user pass : String)
    (st : LoginAttemptState)
    → (str_eq (admin_cred g.os).user "" && str_eq (viewer_cred g.os).user "") ≡ false
    → (session_user_from_cookie g r.session_cookie now gate.sessions).0 ≡ none
    → r.basic_auth ≡ some (user, pass)
    → (lookup r.client_ip gate.limiter.by_ip ≡ some st)
      ⊎ (lookup user gate.limiter.by_user ≡ some st)
    → now < st.locked_until
    → (require_auth g r now gate).0
      ≡ too_many_requests (retry_seconds (check gate.limiter r.client_ip user now).0.retry_after)
unfolding require_auth basic_passage
locked_is_turned_away g r now gate user pass st configured no_session basic held locked =
    let denied = locked_is_denied gate.limiter r.client_ip user now st held locked in
    rw
      (
        configured,
        without_session g.os r now gate.limiter
            (session_user_from_cookie g r.session_cookie now gate.sessions) no_session,
        basic,
        denied,
      )
      refl

admin_allowed-admin :
    (os : Os) (ip user pass : String) (now : ℕ) (s : Sessions) (a : Verdict × LoginLimiter)
    (u : AuthUser)
    → (admin_if_allowed os ip user pass now s a).0.user ≡ some u
    → (u.role ≡ role_admin)
      × (u.username ≡ user)
      × (basic_match (admin_cred os) user pass ≡ true)
      × (a.0.allowed ≡ true)
admin_allowed-admin os ip user pass now s (v, l) u h = elim (Bool-cases v.allowed) [
  | inl allowed ↦ elim (Bool-cases (basic_match (admin_cred os) user pass)) [
    | inl matched ↦
        let e : ◌≡◌ {A = Option AuthUser} (some (record { username = user; role = role_admin }))
            (some u) =
          rw (allowed, matched) at h in
        let same : record { username = user; role = role_admin } ≡ u = ground arith in
        rw (← same) (refl, refl, matched, allowed)
    | inr wrong ↦ let e : ◌≡◌ {A = Option AuthUser} none (some u) = rw (allowed, wrong) at h in cc
  ]
  | inr denied ↦ let e : ◌≡◌ {A = Option AuthUser} none (some u) = rw denied at h in cc
]

admin_basic-entitled :
    (g : Signer) (r : HttpRequest) (now : ℕ) (gate : Gate) (s : Sessions)
    (basic : Option (String × String)) (u : AuthUser)
    → r.basic_auth ≡ basic
    → (admin_by_basic g.os basic r.client_ip now
        (record { sessions = s; limiter = gate.limiter })).0.user
      ≡ some u
    → (u.role ≡ role_admin) × HasCreds g.os r now gate u
unfolding admin_by_basic
admin_basic-entitled g r now gate s none u e h = cc
admin_basic-entitled g r now gate s (some (user, pass)) u e h =
    let (admin, same, matched, allowed) =
      admin_allowed-admin g.os r.client_ip user pass now s (check gate.limiter r.client_ip user now)
        u h in
    (admin, (pass, rw (same, e) refl, rw (admin, same) matched, rw same allowed))

is_admin-role : (u : AuthUser) → is_admin (some u) ≡ true → u.role ≡ role_admin
is_admin-role u h = role_is u.role h
  where
    role_is :
        (role : Role)
        → (elim role [ role_admin ↦ true | role_viewer ↦ false ]) ≡ true
        → role ≡ role_admin
    role_is role_admin h = refl
    role_is role_viewer h = cc

admin_by_session-entitled :
    (g : Signer) (r : HttpRequest) (now : ℕ) (gate : Gate) (a : Option AuthUser × Sessions)
    (u : AuthUser)
    → ((v : AuthUser) → a.0 ≡ some v → HasSession g r now gate v)
    → (admin_by_session g.os r now gate.limiter a).0.user ≡ some u
    → (u.role ≡ role_admin) × (HasSession g r now gate u ⊎ HasCreds g.os r now gate u)
admin_by_session-entitled g r now gate (none, s) u session h =
    let (admin, creds) = admin_basic-entitled g r now gate s r.basic_auth u refl h in
    (admin, inr creds)
admin_by_session-entitled g r now gate (some v, s) u session h =
    elim (Bool-cases (is_admin (some v))) [
      | inl admin ↦
          let e : ◌≡◌ {A = Option AuthUser} (some v) (some u) = rw admin at h in
          let same : v ≡ u = ground arith in
          (is_admin-role u (rw (← same) admin), inl (session u e))
      | inr other ↦
          let (admin, creds) =
            admin_basic-entitled g r now gate s r.basic_auth u refl (rw other at h) in
          (admin, inr creds)
    ]

-- The user that adminUserFromRequest finds is an administrator, with the cookie of a token that is
-- verified as that user, or with the administrator's credentials while the limiter allows the attempt.
pub admin_user_from_request-entitled :
    (g : Signer) (r : HttpRequest) (now : ℕ) (gate : Gate) (u : AuthUser)
    → (admin_user_from_request g r now gate).0.user ≡ some u
    → (u.role ≡ role_admin) × (HasSession g r now gate u ⊎ HasCreds g.os r now gate u)
unfolding admin_user_from_request
admin_user_from_request-entitled g r now gate u h =
    elim (Bool-cases (str_eq (admin_cred g.os).user "")) [
      | inl nobody ↦ let e : ◌≡◌ {A = Option AuthUser} none (some u) = rw nobody at h in cc
      | inr somebody ↦
          admin_by_session-entitled g r now gate _ u
            (λ v e. cookie-HasSession g r.session_cookie now gate.sessions v e) (rw somebody at h)
    ]
