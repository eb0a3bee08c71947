-- ===== src/Session/Roundtrip.antt =====
-- A token that was signed is verified.
use Prim.Native.Char.{Char, code}
use Prim.Native.String.append
use Prim.Native.String.{◌++◌, len, char_at}
use text.Mathlib.TextPositions.{eq_refl}
use nms.Prelude.{
  split_dots, ℕ, ◌+◌, ◌≤◌, some, ltb, str_eq, trim_space, ◌≡◌, refl, ap, ◌∙◌, arith, String, List,
  [], ◌∷◌, Bool, ◌||◌, true, false, ◌==◌,
}
use nms.Session.Revocations.{Sessions, unix, is_session_revoked}
use nms.Session.Token.{
  SessionClaims, Crypto, Signer, Role, role_admin, role_viewer, role_text, session_ttl,
  session_signing_key, sign_session_token, checked_claims, signed_claims, role_of, user_of,
  unless_revoked, admit_claims, verify_session_token,
}
use nms.Session.Genuine.{then_some-inverse}

abbrev pub has_dot : String → Bool
has_dot String.[] = false
has_dot (String.◌∷◌ c s) = code c == 46 || has_dot s

has_dot-rest :
    (c : Char) (s : String)
    → has_dot (String.◌∷◌ c s) ≡ false
    → ((code c == 46) ≡ false) × (has_dot s ≡ false)
has_dot-rest c s h = ground arith

split-no_dot : (s : String) → has_dot s ≡ false → split_dots s ≡ s ∷ []
unfolding split_dots
split-no_dot String.[] h = refl
split-no_dot (String.◌∷◌ c s) h =
    let (here, rest) = has_dot-rest c s h in rw (here, split-no_dot s rest) refl

dot_first : (t : String) → "." ++ t ≡ String.◌∷◌ (char_at "." 0) t
dot_first t =
    append.cons (char_at "." 0) "" t
    ∙ ap (λ (u : String). String.◌∷◌ (char_at "." 0) u) (append.nil t)

split-append : (s t : String) → has_dot s ≡ false → split_dots ((s ++ ".") ++ t) ≡ s ∷ split_dots t
unfolding split_dots
split-append String.[] t h =
    ap split_dots (ap (λ (u : String). u ++ t) (append.nil ".") ∙ dot_first t)
split-append (String.◌∷◌ c s) t h =
    let (here, rest) = has_dot-rest c s h in
    ap split_dots (ap (λ (u : String). u ++ t) (append.cons c s ".") ∙ append.cons c (s ++ ".") t)
    ∙ rw (here, split-append s t rest) refl

-- What the code relies on: base64 decodes what it encoded and writes no dot, HMAC-SHA256 has 32
-- bytes, and JSON reads the claims that it wrote.
pub record IsSound (k : Crypto) : Type 0 where
  pub decode-encode : (bytes : String) → k.decode (k.encode bytes) ≡ some bytes
  pub encode-no_dot : (bytes : String) → has_dot (k.encode bytes) ≡ false
  pub hmac-len : (key text : String) → len (k.hmac key text) ≡ 32
  pub unmarshal-marshal :
      (c : SessionClaims) (payload : String)
      → k.marshal c ≡ some payload
      → k.unmarshal payload ≡ some c

abbrev pub issued : Crypto → String → String → Role → ℕ → SessionClaims
issued k bytes user role now = record {
  user = user;
  role = role_text role;
  jti = k.encode bytes;
  exp = unix (now + session_ttl);
}

abbrev sealed : Signer → String → String
sealed g payload =
    (g.crypto.encode payload ++ ".")
    ++ g.crypto.encode (g.crypto.hmac (session_signing_key g) payload)

sealed-parts :
    (g : Signer) (payload : String)
    → IsSound g.crypto
    → split_dots (sealed g payload)
      ≡ g.crypto.encode payload
        ∷ g.crypto.encode (g.crypto.hmac (session_signing_key g) payload)
        ∷ []
sealed-parts g payload sound =
    split-append (g.crypto.encode payload) _ (sound.encode-no_dot payload)
    ∙ ap (λ (rest : List String). g.crypto.encode payload ∷ rest)
        (split-no_dot _ (sound.encode-no_dot _))

checked-sealed :
    (g : Signer) (payload : String)
    → IsSound g.crypto
    → checked_claims g payload (g.crypto.hmac (session_signing_key g) payload)
      ≡ g.crypto.unmarshal payload
checked-sealed g payload sound = rw (sound.hmac-len, eq_refl) refl

signed_claims-sealed :
    (g : Signer) (payload : String) (c : SessionClaims)
    → IsSound g.crypto
    → g.crypto.marshal c ≡ some payload
    → signed_claims g (sealed g payload) ≡ some c
unfolding signed_claims
signed_claims-sealed g payload c sound m =
    rw (sealed-parts g payload sound, sound.decode-encode, sound.decode-encode)
      (checked-sealed g payload sound ∙ sound.unmarshal-marshal c payload m)

user_of-issued :
    (k : Crypto) (bytes user : String) (role : Role) (now : ℕ)
    → user_of (issued k bytes user role now) ≡ some (record { username = user; role = role })
unfolding user_of role_of
user_of-issued k bytes user role_admin now = refl
user_of-issued k bytes user role_viewer now = refl

free_is_let_in :
    (c : SessionClaims) (a : Bool × Sessions) → a.0 ≡ false → (unless_revoked c a).0 ≡ user_of c
free_is_let_in c (true, s) h = cc
free_is_let_in c (false, s) h = refl

-- With sound primitives, a token that is signed for a user, with an identifier that is not blank, is
-- verified as that user in that role until its seven days are over, if it is not found to be revoked.
pub signed_is_verified :
    (g : Signer) (bytes user token : String) (role : Role) (now at : ℕ) (s : Sessions)
    → IsSound g.crypto
    → sign_session_token g (some bytes) user role now ≡ some token
    → str_eq (trim_space (g.crypto.encode bytes)) "" ≡ false
    → unix at ≤ unix (now + session_ttl)
    → (is_session_revoked g.os (g.crypto.encode bytes) at s).0 ≡ false
    → (verify_session_token g token at s).0 ≡ some (record { username = user; role = role })
unfolding sign_session_token verify_session_token admit_claims
signed_is_verified g bytes user token role now at s sound signed named current free =
    let c = issued g.crypto bytes user role now in
    let (payload, m, e) = then_some-inverse (g.crypto.marshal c) _ token signed in
    let same : sealed g payload ≡ token = ground arith in
    let young : ltb c.exp (unix at) ≡ false = ground arith in
    rw (← same, signed_claims-sealed g payload c sound m, named, young)
      (free_is_let_in c (is_session_revoked g.os c.jti at s) free
        ∙ user_of-issued g.crypto bytes user role now)
