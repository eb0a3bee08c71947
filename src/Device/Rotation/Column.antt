-- ===== src/Device/Rotation/Column.antt =====
-- The change of the key, for the columns of one secret.
use nms.Prelude.{
  ◌≡◌, refl, sym, ap, ◌∙◌, subst, Bool, true, false, not, ◌&&◌, ◌||◌, String, Option, none, some,
  str_eq, eq_iff, trim_space, trim_space_twice, length, Bool-cases, inl, inr,
}
use nms.Prelude.Result.{Result, ok, ◌>>=◌}
use nms.Device.Secrets.{
  Bytes, Crypto, Protector, Columns, no_columns, split_secret_for_storage, decrypt, has_enc,
  merge_secret_from_storage,
}
use nms.Device.Secrets.Laws.{
  IsCipher, split_secret_for_storage-IsKept, split_secret_for_storage-IsSealed, merge_plain,
  merge_enc,
}
use nms.Device.Tables.{value_or}
use nms.Device.Rotation.{normalize_null_string, secret_source, is_changed, rotate_secret_value}

-- `p` reads the columns, and what it reads is `text` when spaces around it are set aside.
pub record IsRead (k : Crypto) (p : Protector) (c : Columns) (text : String) : Type 0 where
  pub secret : String
  pub is_read : merge_secret_from_storage k p c ≡ ok secret
  pub is_text : trim_space secret ≡ text

-- The new columns are read as `text`; so are the old ones, where they are kept.
pub record IsMoved (k : Crypto) (p : Protector) (c : Columns) (text : String) (out : Columns × Bool)
    : Type 0 where
  pub moved : IsRead k p out.0 text
  pub stayed : out.1 ≡ false → IsRead k p c text
  pub hidden : out.0.plain ≡ none

source_plain :
    (k : Crypto) (old : Protector) (plain : String) (enc : Option String)
    → has_enc enc ≡ false
    → secret_source k old plain enc ≡ ok plain
unfolding secret_source
source_plain k old plain none miss = refl
source_plain k old plain (some e) miss = rw miss refl

source_enc :
    (k : Crypto) (old : Protector) (plain e t : String)
    → has_enc (some e) ≡ true
    → decrypt k old e ≡ ok t
    → secret_source k old plain (some e) ≡ ok (trim_space t)
unfolding secret_source
source_enc k old plain e t hit opens = rw hit (rw opens refl)

blank_has_none : has_enc (some "") ≡ false
unfolding has_enc trim_space
blank_has_none = refl

trim_none : trim_space "" ≡ ""
unfolding trim_space
trim_none = refl

not-false : (b : Bool) → not b ≡ false → b ≡ true
not-false true h = refl
not-false false h = cc

and_false : (b : Bool) → b && false ≡ false
and_false true = refl
and_false false = refl

pub or_false_left : (a b : Bool) → a || b ≡ false → a ≡ false
or_false_left true b h = cc
or_false_left false b h = refl

pub or_false_right : (a b : Bool) → a || b ≡ false → b ≡ false
or_false_right true b h = cc
or_false_right false b h = h

-- What a column that is kept has in common with the new one.
enc_same :
    (plain enc : Option String) (next : Columns)
    → is_changed (trim_space (value_or plain "")) enc next ≡ false
    → str_eq (value_or enc "") (normalize_null_string next.enc) ≡ true
unfolding is_changed normalize_null_string
enc_same plain none next h = not-false _ (or_false_right _ _ h)
enc_same plain (some e) next h = not-false _ (or_false_right _ _ h)

-- A plain text is never kept under a key.
plain_goes :
    {A : Type 0} (c next : Columns)
    → str_eq (trim_space (value_or c.plain "")) "" ≡ false
    → next.plain ≡ none
    → is_changed (trim_space (value_or c.plain "")) c.enc next ≡ false
    → A
unfolding is_changed normalize_null_string
plain_goes c next full none_plain h =
    let kept : str_eq (trim_space (value_or c.plain "")) (normalize_null_string next.plain) ≡ true =
      not-false _ (or_false_left _ _ h) in
    let blank : str_eq (trim_space (value_or c.plain "")) "" ≡ true = rw none_plain at kept in cc

-- Equal encrypted texts are read alike.
same_enc :
    (k : Crypto) (key : Bytes) (e : String) (plain q next_enc : Option String)
    → has_enc (some e) ≡ true
    → str_eq e (normalize_null_string next_enc) ≡ true
    → merge_secret_from_storage k (some key) (record { plain = plain; enc = some e })
      ≡ merge_secret_from_storage k (some key) (record { plain = q; enc = next_enc })
unfolding normalize_null_string
same_enc k key e plain q none hit same =
    let bad : has_enc (some "") ≡ true = rw (← (eq_iff e "").0 same) hit in
    let blank = blank_has_none in cc
same_enc k key e plain q (some e') hit same =
    let eq = (eq_iff e e').0 same in
    rw (← eq) (merge_enc k key plain e hit ∙ sym (merge_enc k key q e hit))

-- What a change of a column gives: the new columns, moved.
pub record IsPlaced (k : Crypto) (new : Bytes) (c : Columns) (text : String)
    (made : Result (Columns × Bool)) : Type 0 where
  pub out : Columns × Bool
  pub made_ok : made ≡ ok out
  pub is_moved : IsMoved k (some new) c text out

module _ (k : Crypto) (law : IsCipher k) (old new : Bytes) (random : Bytes)
    (fits : length random ≡ k.nonce_size) where
  place : Columns → Result String → Result (Columns × Bool)
  place c source = do
    s ← source
    next ← split_secret_for_storage k (some new) (some random) s
    ok (next, is_changed (trim_space (value_or c.plain "")) c.enc next)

  placed :
      (c : Columns) (s : String)
      → ((next : Columns)
          → next.plain ≡ none
          → merge_secret_from_storage k (some new) next ≡ ok (trim_space s)
          → is_changed (trim_space (value_or c.plain "")) c.enc next ≡ false
          → IsRead k (some new) c (trim_space s))
      → IsPlaced k new c (trim_space s) (place c (ok s))
  unfolding place
  placed c s stay =
      let (next, (made, reads)) = split_secret_for_storage-IsKept k law random fits (some new) s in
      let sealed = split_secret_for_storage-IsSealed k new (some random) s next made in
      record {
        out = (next, is_changed (trim_space (value_or c.plain "")) c.enc next);
        made_ok = rw made refl;
        is_moved = record {
          moved = record { secret = trim_space s; is_read = reads; is_text = trim_space_twice s };
          stayed = λ h. stay next sealed.no_plain reads h;
          hidden = sealed.no_plain;
        };
      }

  module _ (c : Columns) (t : String) where
    rotate_blank :
        str_eq (trim_space (value_or c.plain "")) "" ≡ true
        → has_enc c.enc ≡ false
        → merge_secret_from_storage k (some old) c ≡ ok t
        → IsPlaced k new c
            (trim_space t)
            (rotate_secret_value k (some old) (some new) (some random) c)
    unfolding rotate_secret_value has_enc
    rotate_blank blank miss reads =
        let e : ok (value_or c.plain "") ≡ ok t = sym (merge_plain k (some old) c miss) ∙ reads in
        let same : value_or c.plain "" ≡ t = cc in
        let gone : trim_space t ≡ "" = (eq_iff (trim_space t) "").0 (rw same at blank) in
        record {
          out = (no_columns, false);
          made_ok = rw blank (rw miss refl);
          is_moved = record {
            moved = record {
              secret = "";
              is_read = merge_plain k (some new) no_columns refl;
              is_text = trim_none ∙ sym gone;
            };
            stayed = λ h. record {
              secret = t;
              is_read = merge_plain k (some new) c miss ∙ e;
              is_text = refl;
            };
            hidden = refl;
          };
        }

    rotate_plain :
        str_eq (trim_space (value_or c.plain "")) "" ≡ false
        → has_enc c.enc ≡ false
        → merge_secret_from_storage k (some old) c ≡ ok t
        → IsPlaced k new c
            (trim_space t)
            (rotate_secret_value k (some old) (some new) (some random) c)
    unfolding rotate_secret_value place
    rotate_plain full miss reads =
        let e : ok (value_or c.plain "") ≡ ok t = sym (merge_plain k (some old) c miss) ∙ reads in
        let same : value_or c.plain "" ≡ t = cc in
        let done =
          placed c (trim_space (value_or c.plain ""))
            (λ next none_plain read h. plain_goes c next full none_plain h) in
        rw full (
          rw (source_plain k (some old) (trim_space (value_or c.plain "")) c.enc miss) (
            subst (λ u. IsPlaced k new c u (place c (ok (trim_space (value_or c.plain "")))))
              (trim_space_twice (value_or c.plain "") ∙ ap trim_space same) done))

  rotate_enc :
      (plain : Option String) (e t : String)
      → has_enc (some e) ≡ true
      → merge_secret_from_storage k (some old) (record { plain = plain; enc = some e }) ≡ ok t
      → IsPlaced k new
          (record { plain = plain; enc = some e })
          (trim_space t)
          (rotate_secret_value k
            (some old)
            (some new)
            (some random)
            (record { plain = plain; enc = some e }))
  unfolding rotate_secret_value place
  rotate_enc plain e t hit reads =
      let opens = sym (merge_enc k old plain e hit) ∙ reads in
      let done =
        placed (record { plain = plain; enc = some e }) (trim_space t)
          (λ next none_plain read h. record {
            secret = trim_space (trim_space t);
            is_read =
                same_enc k new e plain next.plain next.enc hit (enc_same plain (some e) next h)
                ∙ read;
            is_text = trim_space_twice (trim_space t);
          }) in
      rw hit (
        rw opens (
          rw (and_false (str_eq (trim_space (value_or plain "")) "")) (
            subst
              (λ u.
                IsPlaced k new (record { plain = plain; enc = some e }) u
                  (place (record { plain = plain; enc = some e }) (ok (trim_space t))))
              (trim_space_twice t) done)))

  by_enc :
      (plain enc : Option String) (t : String)
      → merge_secret_from_storage k (some old) (record { plain = plain; enc = enc }) ≡ ok t
      → has_enc enc ≡ true
      → IsPlaced k new
          (record { plain = plain; enc = enc })
          (trim_space t)
          (rotate_secret_value k
            (some old)
            (some new)
            (some random)
            (record { plain = plain; enc = enc }))
  unfolding has_enc
  by_enc plain none t reads hit = cc
  by_enc plain (some e) t reads hit = rotate_enc plain e t hit reads

  -- A secret that the old key reads is moved to the new one.
  pub rotate_secret_value-IsPlaced :
      (c : Columns) (t : String)
      → merge_secret_from_storage k (some old) c ≡ ok t
      → IsPlaced k new c
          (trim_space t)
          (rotate_secret_value k (some old) (some new) (some random) c)
  rotate_secret_value-IsPlaced c t reads = elim (Bool-cases (has_enc c.enc)) [
    | inl hit ↦ by_enc c.plain c.enc t reads hit
    | inr miss ↦ elim (Bool-cases (str_eq (trim_space (value_or c.plain "")) "")) [
      | inl blank ↦ rotate_blank c t blank miss reads
      | inr full ↦ rotate_plain c t full miss reads
    ]
  ]
