-- ===== src/Session/Safety.antt =====
-- What the revocations are for: a revoked token stays out, through later requests and the garbage
-- collection of the map.
use text.Mathlib.TextPositions.{eq_refl}
use nms.Prelude.{
  ℕ, ◌≤◌, ◌<◌, ◌≡◌, ◌⊎◌, refl, inl, inr, Bool, true, false, ◌||◌, List, [], ◌∷◌, String, Option,
  none, some, arith, ◌==◌, ltb, leb, str_eq, eq_iff, trim_space, All, Bool-cases,
}
use nms.Prelude.Assoc.{lookup, insert, lookup-insert, lookup-sweep_stays}
use nms.Prelude.Result.{Result, ok, err}
use nms.Sql.{Conn}
use nms.Config.{Os}
use nms.Session.Revocations.{
  RevocationDb, Revocations, Sessions, unix, revoke_gc, is_live, is_session_revoked_locally,
  store_local_session_revocation, is_session_revoked, ask_store, store_answer,
}
use nms.Session.Genuine.{claims_agree}
use nms.Session.Token.{
  Signer, SessionClaims, signed_claims, token_claims, admit_claims, unless_revoked,
  verify_session_token, revoke_claims, revoke_session_token,
}

-- The requests that touch the revocations.
pub data Event : Type 0 where
  verify : String → ℕ → Event
  log_out : String → ℕ → Event

unfoldable pub handle : Signer → Event → Sessions → Sessions
handle g (verify token now) s = (verify_session_token g token now s).1
handle g (log_out token now) s = revoke_session_token g token now s

unfoldable pub serve : Signer → List Event → Sessions → Sessions
serve g [] s = s
serve g (e ∷ es) s = serve g es (handle g e s)

abbrev pub time_of : Event → ℕ
time_of (verify token now) = now
time_of (log_out token now) = now

-- The clock does not go back, from `t` through the events to `now`.
abbrev pub InOrder : ℕ → List Event → ℕ → Type 0
InOrder t [] now = t ≤ now
InOrder t (e ∷ es) now = (t ≤ time_of e) × InOrder (time_of e) es now

-- The claims do not bring the expiry of the session `jti` before `exp`.
abbrev pub KeepsExpiry : String → ℕ → Option SessionClaims → Type 0
KeepsExpiry jti exp none = Unit
KeepsExpiry jti exp (some c) = c.jti ≡ jti → exp ≤ c.exp

abbrev pub IsFair : Signer → String → ℕ → Event → Type 0
IsFair g jti exp (verify token now) = Unit
IsFair g jti exp (log_out token now) = KeepsExpiry jti exp (token_claims g token)

-- The session is over, or the map has it until its expiry at least.
abbrev IsOut : String → ℕ → ℕ → Revocations → Type 0
IsOut jti exp t s = (exp < unix t) ⊎ ((x : ℕ) × (lookup jti s.revoked ≡ some x) × (exp ≤ x))

unix-≤ : (a b : ℕ) → a ≤ b → unix a ≤ unix b
unix-≤ a b h = omega arith

later :
    (jti : String) (exp t now : ℕ) (s : Revocations)
    → t ≤ now
    → IsOut jti exp t s
    → IsOut jti exp now s
later jti exp t now s le (inl over) = inl (omega (arith, unix-≤ t now le))
later jti exp t now s le (inr found) = inr found

gc-IsOut :
    (jti : String) (exp t now : ℕ) (s : Revocations)
    → t ≤ now
    → IsOut jti exp t s
    → IsOut jti exp now (revoke_gc now s)
unfolding revoke_gc
gc-IsOut jti exp t now s le (inl over) = inl (omega (arith, unix-≤ t now le))
gc-IsOut jti exp t now s le (inr (x, found, long)) = elim (Bool-cases (ltb x (unix now))) [
  | inl old ↦ inl (ground arith)
  | inr kept ↦
      inr (x, ground (arith, lookup-sweep_stays (λ e. ltb e (unix now)) jti s.revoked x), long)
]

insert-IsOut :
    (jti : String) (exp t : ℕ) (c : SessionClaims) (s : Revocations)
    → (c.jti ≡ jti → exp ≤ c.exp)
    → IsOut jti exp t s
    → IsOut jti exp t (record s { revoked = insert c.jti c.exp s.revoked })
insert-IsOut jti exp t c s fair (inl over) = inl over
insert-IsOut jti exp t c s fair (inr (x, found, long)) = elim (Bool-cases (str_eq c.jti jti)) [
  | inl same ↦ inr (c.exp, rw (lookup-insert, same) refl, fair ((eq_iff c.jti jti).0 same))
  | inr other ↦ inr (x, rw (lookup-insert, other) found, long)
]

store_answer-local :
    (os : Os) (local : Revocations) (a : Result Bool × Conn RevocationDb)
    → (store_answer os local a).1.local ≡ local
store_answer-local os local (ok revoked, c) = refl
store_answer-local os local (err e, c) = refl

ask_store-local :
    (os : Os) (jti : String) (now : ℕ) (local : Revocations) (o : Option (Conn RevocationDb))
    → (ask_store os jti now local o).1.local ≡ local
unfolding ask_store
ask_store-local os jti now local none = refl
ask_store-local os jti now local (some c) = store_answer-local os local _

-- Asking leaves the map as the garbage collection does.
asked-local :
    (os : Os) (jti : String) (now : ℕ) (s : Sessions)
    → (is_session_revoked os jti now s).1.local ≡ revoke_gc now s.local
unfolding is_session_revoked is_session_revoked_locally
asked-local os jti now s =
    let g = revoke_gc now s.local in
    elim (Bool-cases (is_live (lookup jti g.revoked) (unix now))) [
      | inl hit ↦ rw hit refl
      | inr miss ↦ rw miss (ask_store-local os jti now g s.store)
    ]

unless_revoked-state : (c : SessionClaims) (a : Bool × Sessions) → (unless_revoked c a).1 ≡ a.1
unless_revoked-state c (true, s) = refl
unless_revoked-state c (false, s) = refl

admit-IsOut :
    (os : Os) (now : ℕ) (s : Sessions) (o : Option SessionClaims) (jti : String) (exp t : ℕ)
    → t ≤ now
    → IsOut jti exp t s.local
    → IsOut jti exp now (admit_claims os now s o).1.local
unfolding admit_claims
admit-IsOut os now s none jti exp t le h = later jti exp t now s.local le h
admit-IsOut os now s (some c) jti exp t le h = elim (Bool-cases (str_eq (trim_space c.jti) "")) [
  | inl blank ↦ rw blank (later jti exp t now s.local le h)
  | inr given ↦ elim (Bool-cases (ltb c.exp (unix now))) [
    | inl old ↦ rw (given, old) (later jti exp t now s.local le h)
    | inr current ↦
        rw (given, current, unless_revoked-state, asked-local) (gc-IsOut jti exp t now s.local le h)
  ]
]

revoke-IsOut :
    (now : ℕ) (s : Sessions) (o : Option SessionClaims) (jti : String) (exp t : ℕ)
    → t ≤ now
    → KeepsExpiry jti exp o
    → IsOut jti exp t s.local
    → IsOut jti exp now (revoke_claims now s o).local
unfolding revoke_claims store_local_session_revocation
revoke-IsOut now s none jti exp t le fair h = later jti exp t now s.local le h
revoke-IsOut now s (some c) jti exp t le fair h =
    elim (Bool-cases (str_eq (trim_space c.jti) "" || c.exp == 0)) [
      | inl ignored ↦ rw ignored (later jti exp t now s.local le h)
      | inr taken ↦ rw taken (
          insert-IsOut jti exp now c (revoke_gc now s.local) fair
            (gc-IsOut jti exp t now s.local le h))
    ]

serve-IsOut :
    (g : Signer) (jti : String) (exp t now : ℕ) (es : List Event) (s : Sessions)
    → InOrder t es now
    → All (IsFair g jti exp) es
    → IsOut jti exp t s.local
    → IsOut jti exp now (serve g es s).local
unfolding serve handle verify_session_token revoke_session_token
serve-IsOut g jti exp t now [] s le fair h = later jti exp t now s.local le h
serve-IsOut g jti exp t now (verify token at ∷ es) s le fair h =
    serve-IsOut g jti exp at now es _ le.1 fair.1
      (admit-IsOut g.os at s (signed_claims g token) jti exp t le.0 h)
serve-IsOut g jti exp t now (log_out token at ∷ es) s le fair h =
    serve-IsOut g jti exp at now es _ le.1 fair.1
      (revoke-IsOut at s (token_claims g token) jti exp t le.0 fair.0 h)

-- What is out is not let in.
out_is_refused :
    (os : Os) (now : ℕ) (s : Sessions) (c : SessionClaims)
    → IsOut c.jti c.exp now s.local
    → (admit_claims os now s (some c)).0 ≡ none
unfolding admit_claims is_session_revoked is_session_revoked_locally
out_is_refused os now s c h = elim (gc-IsOut c.jti c.exp now now s.local (omega arith) h) [
  | inl over ↦
      let old : ltb c.exp (unix now) ≡ true = ground arith in
      elim (Bool-cases (str_eq (trim_space c.jti) "")) [
        | inl blank ↦ rw blank refl
        | inr given ↦ rw (given, old) refl
      ]
  | inr (x, found, long) ↦ elim (Bool-cases (str_eq (trim_space c.jti) "")) [
    | inl blank ↦ rw blank refl
    | inr given ↦ elim (Bool-cases (ltb c.exp (unix now))) [
      | inl old ↦ rw (given, old) refl
      | inr current ↦
          let live : leb (unix now) x ≡ true = ground arith in rw (given, current, found, live) refl
    ]
  ]
]

-- Revoking a token of a session, unless its claims are ignored, takes it out.
revoked-IsOut :
    (now : ℕ) (s : Sessions) (c : SessionClaims)
    → (str_eq (trim_space c.jti) "" || c.exp == 0) ≡ false
    → IsOut c.jti c.exp now (revoke_claims now s (some c)).local
unfolding revoke_claims store_local_session_revocation
revoked-IsOut now s c taken = inr (c.exp, rw (taken, lookup-insert, eq_refl) refl, omega arith)

-- A signed token with an identifier and an expiry is revoked at `t`. Then, while the clock does not
-- go back and no later logout names its identifier with an earlier expiry, it is refused at `now`,
-- whatever verifications and logouts come in between, whatever the shared store answers and however
-- often the map is swept.
pub revoked_stays_out :
    (g : Signer) (token : String) (c : SessionClaims) (t now : ℕ) (es : List Event) (s : Sessions)
    → signed_claims g token ≡ some c
    → (str_eq (trim_space c.jti) "" || c.exp == 0) ≡ false
    → InOrder t es now
    → All (IsFair g c.jti c.exp) es
    → (verify_session_token g token now (serve g es (revoke_session_token g token t s))).0 ≡ none
unfolding verify_session_token revoke_session_token
revoked_stays_out g token c t now es s signed named order fair =
    rw (signed, claims_agree g token c signed)
      (out_is_refused g.os now _ c (
        serve-IsOut g c.jti c.exp t now es (revoke_claims t s (some c)) order fair
          (revoked-IsOut t s c named)))
