-- ===== src/Device/Secrets.antt =====
-- internal/infrastructure/postgres/secrets.go: the columns of a secret, one for the plain text and
-- one for the encrypted.
-- The hash, AES-GCM and base64 are a parameter, `Crypto`. A read of crypto/rand is an argument: the
-- bytes that it gave, or `none` when it failed. A byte is a
-- character, as in a string of Go.
pub mod Payload
pub mod Laws
use Prim.Native.Char.{Char}
use Prim.Native.String.{◌++◌}
use nms.Prelude.{
  ℕ, Bool, true, false, not, ◌&&◌, List, [], String, Option, none, some, str_eq, trim_space,
  has_prefix, text_drop, leb, length, take, drop, if◌then◌else◌,
}
use nms.Prelude.{◌++◌ as append}
use nms.Prelude.Result.{
  Result, ok, err, protector_disabled, encrypted_while_disabled, nonce_unavailable,
  unsupported_payload, undecodable_payload, payload_too_short, undecryptable_payload,
}

abbrev pub Bytes : Type 0
Bytes = List Char

-- `seal key nonce text` is what `Seal` of the cipher with that key gives, and `unseal` is `Open`.
pub record Crypto : Type 0 where
  pub sha256 : String → Bytes
  pub nonce_size : ℕ
  pub seal : Bytes → Bytes → String → Bytes
  pub unseal : Bytes → Bytes → Bytes → Option String
  pub base64 : Bytes → String
  pub from_base64 : String → Option Bytes

-- `secretProtector`: `none` is the disabled one, and the cipher is known by its key.
abbrev pub Protector : Type 0
Protector = Option Bytes

-- `newSecretProtector`. The 32 bytes of a hash are a key that `NewCipher` takes.
unfoldable pub new_secret_protector : Crypto → String → Protector
new_secret_protector k secret =
    let s = trim_space secret in if str_eq s "" then none else some (k.sha256 s)

-- The columns `x` and `x_enc` of a secret x.
pub record Columns : Type 0 where
  pub plain : Option String
  pub enc : Option String

abbrev pub no_columns : Columns
no_columns = record { plain = none; enc = none }

unfoldable pub encrypted_secret_prefix : String
encrypted_secret_prefix = "enc:v1:"

sealed_with : Crypto → Bytes → String → Option Bytes → Result String
unfolding encrypted_secret_prefix
sealed_with k key text none = err nonce_unavailable
sealed_with k key text (some nonce) =
    ok (encrypted_secret_prefix ++ k.base64 (append nonce (k.seal key nonce text)))

unfoldable pub encrypt : Crypto → Protector → Option Bytes → String → Result String
unfolding sealed_with
encrypt k none random text = err protector_disabled
encrypt k (some key) random text = sealed_with k key text random

in_enc : Result String → Result Columns
in_enc (ok text) = ok (record { plain = none; enc = some text })
in_enc (err e) = err e

unfoldable pub split_secret_for_storage :
    Crypto → Protector → Option Bytes → String → Result Columns
unfolding in_enc
split_secret_for_storage k p random raw =
    let val = trim_space raw in
    if str_eq val "" then ok no_columns else elim p [
      | none ↦ ok (record { plain = some val; enc = none })
      | some key ↦ in_enc (encrypt k (some key) random val)
    ]

opened : Option String → Result String
opened none = err undecryptable_payload
opened (some text) = ok text

open_payload : Crypto → Bytes → Option Bytes → Result String
unfolding opened
open_payload k key none = err undecodable_payload
open_payload k key (some raw) =
    if leb (length raw) k.nonce_size
    then err payload_too_short
    else opened (k.unseal key (take k.nonce_size raw) (drop k.nonce_size raw))

-- The prefix is seven letters of ASCII.
unfoldable pub decrypt : Crypto → Protector → String → Result String
unfolding open_payload text_drop encrypted_secret_prefix
decrypt k none encoded = err protector_disabled
decrypt k (some key) encoded =
    if not (has_prefix encoded encrypted_secret_prefix)
    then err unsupported_payload
    else open_payload k key (k.from_base64 (text_drop 7 encoded))

-- `enc.Valid && strings.TrimSpace(enc.String) != ""`.
unfoldable pub has_enc : Option String → Bool
has_enc none = false
has_enc (some text) = not (str_eq (trim_space text) "")

-- `COALESCE(a, b)`.
abbrev pub value_or {ℓ} : {A : Type ℓ} → Option A → A → A
value_or none b = b
value_or (some a) b = a

open_enc : Crypto → Protector → String → Result String
open_enc k none text = err encrypted_while_disabled
open_enc k (some key) text = decrypt k (some key) text

-- `plain` is `COALESCE(x, '')` of the columns.
unfoldable pub merge_secret_from_storage : Crypto → Protector → Columns → Result String
unfolding open_enc
merge_secret_from_storage k p c =
    if has_enc c.enc then open_enc k p (value_or c.enc "") else ok (value_or c.plain "")
