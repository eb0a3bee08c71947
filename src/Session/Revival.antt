-- ===== src/Session/Revival.antt =====
-- A logout does not check the signature of the token that it revokes.
use text.Mathlib.TextPositions.{eq_refl}
use nms.Prelude.{
  ℕ, ◌-◌, ◌≤◌, ◌<◌, ◌≡◌, refl, inl, inr, true, false, not, ◌&&◌, ◌||◌, ◌*◌, List, [], ◌∷◌, All, any,
  All-delete_where, delete_where, eq_iff, subst, Bool, String, some, arith, ◌==◌, ltb, leb, str_eq,
  trim_space, Bool-cases,
}
use nms.Prelude.Assoc.{GoMap, lookup, insert, lookup-insert}
use nms.Login.Local.{minute}
use nms.Incident.Tables.{second}
use nms.Sql.{execute}
use nms.Session.Revocations.{
  RevocationRow, RevocationDb, upsert_revocation, revoke_session_jti, is_session_jti_revoked,
  Revocations, Sessions, unix, revoke_gc, is_session_revoked_locally,
  store_local_session_revocation, is_session_revoked, ask_store,
}
use nms.Session.Token.{
  Signer, SessionClaims, signed_claims, token_claims, user_of, admit_claims, verify_session_token,
  revoke_claims, revoke_session_token,
}

-- A second sweep at the same time does nothing.
gc_again :
    (now : ℕ) (s : Revocations) (m : GoMap ℕ)
    → 0 < now
    → revoke_gc now (record (revoke_gc now s) { revoked = m })
      ≡ record (revoke_gc now s) { revoked = m }
unfolding revoke_gc
gc_again now s m pos = elim (Bool-cases (not (s.last_gc == 0) && ltb (now - s.last_gc) minute)) [
  | inl recent ↦ rw (recent, recent) refl
  | inr due ↦
      let fresh : (not (now == 0) && ltb (now - now) minute) ≡ true = ground arith in
      rw (due, fresh) refl
]

-- The primary key of the shared table: no identifier stands there twice.
abbrev pub OneEach : List RevocationRow → Type 0
OneEach [] = Unit
OneEach (r ∷ rs) = All (λ x. str_eq x.jti r.jti ≡ false) rs × OneEach rs

OneEach-delete_where :
    (p : RevocationRow → Bool) (rs : List RevocationRow) → OneEach rs → OneEach (delete_where p rs)
OneEach-delete_where p [] h = tt
OneEach-delete_where p (r ∷ rs) h = elim (Bool-cases (p r)) [
  | inl hit ↦ rw hit (OneEach-delete_where p rs h.1)
  | inr miss ↦ rw miss (All-delete_where _ p rs h.0, OneEach-delete_where p rs h.1)
]

-- The rows that hold the identifier and have not expired.
abbrev is_live_row : String → ℕ → RevocationRow → Bool
is_live_row jti t r = str_eq r.jti jti && leb t r.expires_at

others_not_live :
    (jti : String) (t : ℕ) (rs : List RevocationRow)
    → All (λ x. str_eq x.jti jti ≡ false) rs
    → any (is_live_row jti t) rs ≡ false
others_not_live jti t [] h = refl
others_not_live jti t (r ∷ rs) h = rw (h.0, others_not_live jti t rs h.1) refl

-- The upsert of an expiry that has passed leaves no live row of its identifier.
upserted_not_live :
    (new : RevocationRow) (t : ℕ) (rs : List RevocationRow)
    → new.expires_at < t
    → OneEach rs
    → any (is_live_row new.jti t) (upsert_revocation new rs) ≡ false
unfolding upsert_revocation
upserted_not_live new t [] past h =
    let dead : leb t new.expires_at ≡ false = ground arith in rw (eq_refl new.jti, dead) refl
upserted_not_live new t (r ∷ rs) past h = elim (Bool-cases (str_eq r.jti new.jti)) [
  | inl same ↦
      let dead : leb t new.expires_at ≡ false = ground arith in
      let e : r.jti ≡ new.jti = (eq_iff r.jti new.jti).0 same in
      let others : All (λ x. str_eq x.jti new.jti ≡ false) rs =
        subst (λ j. All (λ x. str_eq x.jti j ≡ false) rs) e h.0 in
      rw (same, eq_refl new.jti, dead, others_not_live new.jti t rs others) refl
  | inr other ↦ rw (other, other, upserted_not_live new t rs past h.1) refl
]

named_jti : (jti : String) → str_eq (trim_space jti) "" ≡ false → str_eq jti "" ≡ false
unfolding trim_space
named_jti jti h = elim (Bool-cases (str_eq jti "")) [
  | inl blank ↦
      let e : jti ≡ "" = (eq_iff jti "").0 blank in let bad : true ≡ false = rw e at h in cc
  | inr given ↦ given
]

-- With a shared store whose statements do not fail and whose table holds no identifier twice, as its
-- primary key says: a signed token whose session is not over is verified after a logout with
-- any text whose claims name its session and an earlier expiry that has passed, even if the session
-- was revoked before, in this process, in the table or in both.
pub unsigned_logout_revives :
    (g : Signer) (token forged : String) (c f : SessionClaims) (now : ℕ) (s : Sessions)
    (db : RevocationDb)
    → signed_claims g token ≡ some c
    → str_eq (trim_space c.jti) "" ≡ false
    → unix now ≤ c.exp
    → token_claims g forged ≡ some f
    → f.jti ≡ c.jti
    → 0 < f.exp
    → f.exp < unix now
    → s.store ≡ some (record { db = db; faults = [] })
    → OneEach db.rows
    → (verify_session_token g token now (revoke_session_token g forged now s)).0 ≡ user_of c
unfolding verify_session_token revoke_session_token revoke_claims admit_claims is_session_revoked
    is_session_revoked_locally store_local_session_revocation ask_store revoke_session_jti
    is_session_jti_revoked execute
unsigned_logout_revives g token forged c f now s db signed named current unsigned same pos past
      shared keyed =
    let taken : (str_eq (trim_space f.jti) "" || f.exp == 0) ≡ false =
      rw (same, named) (ground arith) in
    let valid : ltb c.exp (unix now) ≡ false = ground arith in
    let dead : leb (unix now) f.exp ≡ false = ground arith in
    let again =
      gc_again now s.local (insert f.jti f.exp (revoke_gc now s.local).revoked) (omega arith) in
    let now_there : lookup c.jti (insert f.jti f.exp (revoke_gc now s.local).revoked) ≡ some f.exp =
      rw (lookup-insert, same, eq_refl) refl in
    let some_expiry : (f.exp == 0) ≡ false = ground arith in
    let given = named_jti c.jti named in
    let past_row : f.exp * second < unix now * second = omega arith in
    let stale =
      upserted_not_live (record { jti = f.jti; expires_at = f.exp * second; revoked_at = db.now })
        (unix now * second) (delete_where (λ r. ltb r.expires_at db.now) db.rows) past_row
        (OneEach-delete_where _ db.rows keyed) in
    let gone = rw same at stale in
    rw
      (
        signed, unsigned, taken, named, valid, again, now_there, dead, shared, same, given,
        some_expiry, gone,
      )
      refl
