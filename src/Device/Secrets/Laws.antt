-- ===== src/Device/Secrets/Laws.antt =====
-- What is stored under a key is read back under it, and not in plain text.
use Prim.Native.String.{◌++◌}
use nms.Prelude.{
  ◌+◌, ◌<◌, ◌≡◌, refl, sym, ap, true, false, List, [], ◌∷◌, String, Option, none, some, str_eq,
  eq_iff, trim_space, leb, length, take, drop, arith, Bool-cases, inl, inr,
}
use nms.Prelude.{◌++◌ as joined}
use nms.Prelude.Result.{Result, ok, err}
use nms.Device.Secrets.{
  Bytes, Crypto, Protector, Columns, no_columns, encrypted_secret_prefix, encrypt, sealed_with,
  in_enc, split_secret_for_storage, opened, open_payload, decrypt, has_enc, open_enc,
  merge_secret_from_storage, value_or,
}
use nms.Device.Secrets.Payload.{payload_prefix, payload_rest, payload_kept}

-- What is documented of the cipher and of base64: what was sealed opens under the same key and
-- nonce, `Seal` adds a tag, and decoding undoes encoding.
pub record IsCipher (k : Crypto) : Type 0 where
  pub opens :
      (key random : Bytes) (t : String)
      → length random ≡ k.nonce_size
      → k.unseal key random (k.seal key random t) ≡ some t
  pub tagged : (key random : Bytes) (t : String) → 0 < length (k.seal key random t)
  pub decodes : (bs : Bytes) → k.from_base64 (k.base64 bs) ≡ some bs

module _ {A : Type 0} where
  take-joined : (xs ys : List A) → take (length xs) (joined xs ys) ≡ xs
  take-joined [] [] = refl
  take-joined [] (y ∷ ys) = refl
  take-joined (x ∷ xs) ys = ap (λ zs. x ∷ zs) (take-joined xs ys)

  drop-joined : (xs ys : List A) → drop (length xs) (joined xs ys) ≡ ys
  drop-joined [] [] = refl
  drop-joined [] (y ∷ ys) = refl
  drop-joined (x ∷ xs) ys = drop-joined xs ys

  length-joined : (xs ys : List A) → length (joined xs ys) ≡ length xs + length ys
  length-joined [] ys = omega arith
  length-joined (x ∷ xs) ys = omega (arith, length-joined xs ys)

-- The text that `encrypt` gives.
pub payload : Crypto → Bytes → Bytes → String → String
payload k key random t = "enc:v1:" ++ k.base64 (joined random (k.seal key random t))

module _ (k : Crypto) (law : IsCipher k) (key random : Bytes)
    (fits : length random ≡ k.nonce_size) where
  not_short : (t : String) → leb (length (joined random (k.seal key random t))) k.nonce_size ≡ false
  not_short t = ground (arith, length-joined random (k.seal key random t), law.tagged key random t)

  pub decrypt-payload : (t : String) → decrypt k (some key) (payload k key random t) ≡ ok t
  unfolding decrypt payload open_payload opened encrypted_secret_prefix
  decrypt-payload t = rw (payload_prefix (k.base64 (joined random (k.seal key random t)))) (
      rw (payload_rest (k.base64 (joined random (k.seal key random t)))) (
        rw (law.decodes (joined random (k.seal key random t))) (
          rw (not_short t) (
            rw (sym fits) (
              rw (take-joined random (k.seal key random t)) (
                rw (drop-joined random (k.seal key random t))
                  (rw (law.opens key random t fits) refl)))))))

-- What `p` makes of a secret, it reads as `text`.
abbrev pub IsKept : Crypto → Protector → Result Columns → String → Type 0
IsKept k p made text = (c : Columns) × ((made ≡ ok c) × (merge_secret_from_storage k p c ≡ ok text))

pub split_blank :
    (k : Crypto) (p : Protector) (random : Option Bytes) (raw : String)
    → str_eq (trim_space raw) "" ≡ true
    → split_secret_for_storage k p random raw ≡ ok no_columns
unfolding split_secret_for_storage
split_blank k p random raw blank = rw blank refl

module _ (k : Crypto) (law : IsCipher k) (random : Bytes)
    (fits : length random ≡ k.nonce_size) where
  blank-IsKept :
      (p : Protector) (raw : String)
      → str_eq (trim_space raw) "" ≡ true
      → IsKept k p (split_secret_for_storage k p (some random) raw) (trim_space raw)
  unfolding merge_secret_from_storage has_enc
  blank-IsKept p raw blank = (
    no_columns,
    (split_blank k p (some random) raw blank, ap ok (sym ((eq_iff (trim_space raw) "").0 blank))),
  )

  full-IsKept :
      (p : Protector) (raw : String)
      → str_eq (trim_space raw) "" ≡ false
      → IsKept k p (split_secret_for_storage k p (some random) raw) (trim_space raw)
  unfolding split_secret_for_storage merge_secret_from_storage encrypt sealed_with in_enc has_enc
      open_enc encrypted_secret_prefix payload
  full-IsKept none raw full =
      (record { plain = some (trim_space raw); enc = none }, (rw full refl, refl))
  full-IsKept (some key) raw full = (
    record { plain = none; enc = some (payload k key random (trim_space raw)) },
    (
      rw full refl,
      rw (payload_kept (k.base64 (joined random (k.seal key random (trim_space raw)))))
          (decrypt-payload k law key random fits (trim_space raw)),
    ),
  )

  -- A secret is read back without the spaces around it.
  pub split_secret_for_storage-IsKept :
      (p : Protector) (raw : String)
      → IsKept k p (split_secret_for_storage k p (some random) raw) (trim_space raw)
  split_secret_for_storage-IsKept p raw = elim (Bool-cases (str_eq (trim_space raw) "")) [
    | inl blank ↦ blank-IsKept p raw blank
    | inr full ↦ full-IsKept p raw full
  ]

-- Columns that hold no plain text.
pub record IsSealed (c : Columns) : Type 0 where
  pub no_plain : c.plain ≡ none

in_enc-IsSealed : (r : Result String) (c : Columns) → in_enc r ≡ ok c → IsSealed c
unfolding in_enc
in_enc-IsSealed (ok text) c e = record { no_plain = cc }
in_enc-IsSealed (err why) c e = cc

-- With a key, no secret is stored in plain text.
pub split_secret_for_storage-IsSealed :
    (k : Crypto) (key : Bytes) (random : Option Bytes) (raw : String) (c : Columns)
    → split_secret_for_storage k (some key) random raw ≡ ok c
    → IsSealed c
unfolding split_secret_for_storage
split_secret_for_storage-IsSealed k key random raw c e =
    elim (Bool-cases (str_eq (trim_space raw) "")) [
      | inl blank ↦ let same : ok no_columns ≡ ok c = rw blank at e in record { no_plain = cc }
      | inr full ↦ in_enc-IsSealed (encrypt k (some key) random (trim_space raw)) c (rw full at e)
    ]

-- Columns with no encrypted text are read as their plain text under every key.
pub merge_plain :
    (k : Crypto) (p : Protector) (c : Columns)
    → has_enc c.enc ≡ false
    → merge_secret_from_storage k p c ≡ ok (value_or c.plain "")
unfolding merge_secret_from_storage
merge_plain k p c miss = rw miss refl

pub merge_enc :
    (k : Crypto) (key : Bytes) (plain : Option String) (e : String)
    → has_enc (some e) ≡ true
    → merge_secret_from_storage k (some key) (record { plain = plain; enc = some e })
      ≡ decrypt k (some key) e
unfolding merge_secret_from_storage open_enc
merge_enc k key plain e hit = rw hit refl

-- A read of crypto/rand that gave a nonce.
pub record IsDrawn (k : Crypto) (random : Option Bytes) : Type 0 where
  pub bytes : Bytes
  pub is_read : random ≡ some bytes
  pub fits : length bytes ≡ k.nonce_size
