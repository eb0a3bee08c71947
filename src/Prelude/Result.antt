-- ===== src/Prelude/Result.antt =====
-- Errors as values. An error carries the text that the message quotes.
use Prim.Native.String.{String}
use mathlib.Core.Path.{◌≡◌, refl, subst}

pub data Error : Type 0 where
  database : Error  -- the driver's error
  no_rows : Error  -- `sql.ErrNoRows` that the code does not handle
  input_required title_required id_required device_required : Error
  invalid_severity invalid_source invalid_status : String → Error
  already_in_status : String → Error
  invalid_transition : String → String → Error
  invariant_violated : Error
  mapping_input_required mapping_id_required oid_pattern_required mapped_target_required : Error
  invalid_signal_kind invalid_mapped_status : String → Error
  invalid_snmp_version : String → Error
  patch_required : Error
  -- The messages of secrets.go and rotate_secrets.go.
  protector_disabled encrypted_while_disabled nonce_unavailable : Error
  unsupported_payload undecodable_payload payload_too_short undecryptable_payload : Error
  old_key_required new_key_required : Error

pub data Result {ℓ} (A : Type ℓ) : Type ℓ where
  ok : A → Result A
  err : Error → Result A

infixl 5 ◌>>=◌
abbrev pub ◌>>=◌ {ℓ κ} : {A : Type ℓ} {B : Type κ} → Result A → (A → Result B) → Result B
ok a >>= f = f a
err e >>= f = err e

-- What holds of every answer that is no error.
pub record Yields {A : Type 0} (Q : A → Type 0) (r : Result A) : Type 0 where
  pub at : (a : A) → r ≡ ok a → Q a

module _ {A B : Type 0} where
  bound :
      (r : Result A) (f : A → Result B) (b : B)
      → (r >>= f) ≡ ok b
      → (a : A) × ((r ≡ ok a) × (f a ≡ ok b))
  bound (ok a) f b e = (a, (refl, e))
  bound (err why) f b e = cc

  pub Yields-bind :
      (P : A → Type 0) {Q : B → Type 0} {r : Result A} (f : A → Result B)
      → Yields P r
      → ((a : A) → P a → Yields Q (f a))
      → Yields Q (r >>= f)
  Yields-bind P {Q} {r} f h rest = record {
    at = λ b e. let (a, (was, is)) = bound r f b e in (rest a (h.at a was)).at b is;
  }

module _ {A : Type 0} {Q : A → Type 0} where
  pub Yields-ok : (a : A) → Q a → Yields Q (ok a)
  Yields-ok a q = record { at = λ b e. let same : a ≡ b = cc in subst Q same q }

  pub Yields-err : (why : Error) → Yields Q (err why)
  Yields-err why = record { at = λ b e. cc }
