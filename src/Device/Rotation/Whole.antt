-- ===== src/Device/Rotation/Whole.antt =====
-- The change of the key, for the whole table.
use nms.Prelude.{
  ℕ, ◌+◌, ◌≡◌, refl, ◌∙◌, true, false, List, [], ◌∷◌, map, String, ◌==◌, length, any, any-order_by,
  length-order_by, All, All-map, All-order_by, order_by, str_eq, trim_space, Bool-cases, inl, inr,
  arith,
}
use nms.Prelude.Result.{Result, ok}
use nms.Sql.{Conn, pure, lift, ◌>>=◌, statement, query, in_tx}
use nms.Device.Secrets.{Bytes, Crypto, new_secret_protector}
use nms.Device.Secrets.Laws.{IsCipher}
use nms.Device.Tables.{DeviceColumns, DeviceDb}
use nms.Device.Repo.{Randoms}
use nms.Device.Repo.Roundtrip.{AreDrawn}
use nms.Device.Rotation.{
  Stats, UpdateRow, by_id, rotation, rotate_enabled, rotate_between, rotate_device_snmp_secrets,
}
use nms.Device.Rotation.Row.{IsReadable, IsCarried, IsTreated, rotate_row-IsTreated}
use nms.Device.Rotation.Loop.{
  IsSame, IsOnly, IsOutcome, IsSettled, or_true, applied, applied_only, rotate_rows-IsSettled,
  apply_updates-applied,
}

-- The ids are a primary key.
abbrev pub IsKeyed : List DeviceColumns → Type 0
IsKeyed [] = Unit
IsKeyed (a ∷ rows) = All (λ b. (a.id == b.id) ≡ false) rows × IsKeyed rows

-- Row by row.
abbrev pub AreEach :
    (DeviceColumns → DeviceColumns → Type 0) → List DeviceColumns → List DeviceColumns → Type 0
AreEach R [] [] = Unit
AreEach R [] (y ∷ ys) = ⊥
AreEach R (x ∷ xs) [] = ⊥
AreEach R (x ∷ xs) (y ∷ ys) = R x y × AreEach R xs ys

apart-IsSame : (a b : DeviceColumns) → (a.id == b.id) ≡ false → IsSame a b
apart-IsSame a b e = record { same = λ hit. ground arith }

apart-IsSame_back : (a b : DeviceColumns) → (a.id == b.id) ≡ false → IsSame b a
apart-IsSame_back a b e = record { same = λ hit. ground arith }

with_first :
    (a : DeviceColumns) (rows xs : List DeviceColumns)
    → All (λ b. (a.id == b.id) ≡ false) xs
    → All (λ b. All (IsSame b) rows) xs
    → All (λ b. All (IsSame b) (a ∷ rows)) xs
with_first a rows [] h same = tt
with_first a rows (b ∷ xs) h same =
    ((apart-IsSame_back a b h.0, same.0), with_first a rows xs h.1 same.1)

IsKeyed-IsSame : (rows : List DeviceColumns) → IsKeyed rows → All (λ a. All (IsSame a) rows) rows
IsKeyed-IsSame [] h = tt
IsKeyed-IsSame (a ∷ rows) h = (
  (
    record { same = λ e. refl },
    All-map (λ b. (a.id == b.id) ≡ false) (IsSame a) rows (apart-IsSame a) h.0,
  ),
  with_first a rows rows h.0 (IsKeyed-IsSame rows h.1),
)

found_in : (rows : List DeviceColumns) → All (λ a. any (λ r. a.id == r.id) rows ≡ true) rows
found_in [] = tt
found_in (a ∷ rows) = (
  ground arith,
  All-map (λ b. any (λ r. b.id == r.id) rows ≡ true)
      (λ b. any (λ r. b.id == r.id) (a ∷ rows) ≡ true) rows (λ b e. rw e (or_true (b.id == a.id)))
      (found_in rows),
)

module _ (k : Crypto) (old new : Bytes) (random : ℕ → Randoms) where
  module _ (rows : List DeviceColumns) (out : Stats × List UpdateRow)
      (h : IsSettled k old new random rows out) where
    -- The updates carry a row that the loop has seen.
    applied-IsCarried :
        (row : DeviceColumns)
        → IsTreated k old new (random row.id) row
        → All (IsSame row) rows
        → any (λ r. row.id == r.id) rows ≡ true
        → IsCarried k old new row (applied out.1 row)
    applied-IsCarried row t same found =
        let only : All (IsOnly row t.out.0) out.1 =
          All-map (IsOutcome row t.out) (IsOnly row t.out.0) out.1
            (λ u o. record { only = λ hit. (o.is_made hit).0 })
            (h.outcomes row t.out t.made_ok same) in
        rw (applied_only row t.out.0 out.1 only)
          (elim (Bool-cases (any (λ u. row.id == u.id) out.1)) [
            | inl hit ↦ rw hit t.carried
            | inr miss ↦ rw miss (elim (Bool-cases t.out.1) [
              | inl ch ↦ let bad = h.hits row t.out t.made_ok t.of_row ch same found in cc
              | inr kept ↦ t.stayed kept
            ])
          ])

    rows-IsCarried :
        IsCipher k
        → ((id : ℕ) → AreDrawn k (random id))
        → (xs : List DeviceColumns) → All (IsReadable k old) xs
        → All (λ a. All (IsSame a) rows) xs
        → All (λ a. any (λ r. a.id == r.id) rows ≡ true) xs
        → AreEach (IsCarried k old new) xs (map (applied out.1) xs)
    rows-IsCarried law drawn [] readable same found = tt
    rows-IsCarried law drawn (x ∷ xs) readable same found = (
      applied-IsCarried x
          (rotate_row-IsTreated k law old new (random x.id) x (drawn x.id) readable.0) same.0
          found.0,
      rows-IsCarried law drawn xs readable.1 same.1 found.1,
    )

-- The table after a change of the key: as many counts as rows, and each row carried over.
pub record IsRotated (k : Crypto) (old new : Bytes) (s : DeviceDb)
    (answer : Result Stats × Conn DeviceDb) : Type 0 where
  pub stats : Stats
  pub rows : List DeviceColumns
  pub answered : answer ≡ (ok stats, record { db = record s { rows = rows }; faults = [] })
  pub counted : stats.scanned ≡ length s.rows
  pub divided : stats.updated + stats.skipped ≡ length s.rows
  pub carried : AreEach (IsCarried k old new) s.rows rows

-- What every row has in common with the sorted rows.
sorted-IsSame :
    (rows xs : List DeviceColumns)
    → All (λ a. All (IsSame a) rows) xs
    → All (λ a. All (IsSame a) (order_by by_id rows)) xs
sorted-IsSame rows xs h =
    All-map (λ a. All (IsSame a) rows) (λ a. All (IsSame a) (order_by by_id rows)) xs
      (λ a same. All-order_by (IsSame a) by_id rows same) h

sorted_found :
    (rows xs : List DeviceColumns)
    → All (λ a. any (λ r. a.id == r.id) rows ≡ true) xs
    → All (λ a. any (λ r. a.id == r.id) (order_by by_id rows) ≡ true) xs
sorted_found rows xs h =
    All-map (λ a. any (λ r. a.id == r.id) rows ≡ true)
      (λ a. any (λ r. a.id == r.id) (order_by by_id rows) ≡ true) xs
      (λ a found. any-order_by (λ r. a.id == r.id) by_id rows ∙ found) h

module _ (k : Crypto) (law : IsCipher k) (random : ℕ → Randoms)
    (drawn : (id : ℕ) → AreDrawn k (random id)) where
  rotate_enabled-IsRotated :
      (old new : Bytes) (s : DeviceDb)
      → IsKeyed s.rows
      → All (IsReadable k old) s.rows
      → IsRotated k old new s
          (rotate_enabled k old new random false (record { db = s; faults = [] }))
  unfolding rotate_enabled rotation in_tx query statement ◌>>=◌ lift pure
  rotate_enabled-IsRotated old new s keyed readable =
      let (out, h) =
        rotate_rows-IsSettled k old new random law drawn (order_by by_id s.rows)
          (All-order_by (IsReadable k old) by_id s.rows readable) in
      record {
        stats = out.0;
        rows = map (applied out.1) s.rows;
        answered = rw h.made_ok (rw (apply_updates-applied out.1 s) refl);
        counted = h.counted ∙ length-order_by by_id s.rows;
        divided = h.divided ∙ length-order_by by_id s.rows;
        carried =
            rows-IsCarried k old new random (order_by by_id s.rows) out h law drawn s.rows readable
              (sorted-IsSame s.rows s.rows (IsKeyed-IsSame s.rows keyed))
              (sorted_found s.rows s.rows (found_in s.rows));
      }

  -- With a cipher that opens what it sealed, where each device has its own id, no statement fails,
  -- every read of crypto/rand gives a nonce, both keys are given and the old one reads every secret,
  -- the change of the key succeeds: it counts every device once, and afterwards the new key reads of each device
  -- what the old key read (spaces around a secret aside), and all else of it is as it was.
  pub rotate_device_snmp_secrets-IsRotated :
      (old new : String) (s : DeviceDb)
      → str_eq (trim_space old) "" ≡ false
      → str_eq (trim_space new) "" ≡ false
      → IsKeyed s.rows
      → All (IsReadable k (k.sha256 (trim_space old))) s.rows
      → IsRotated k
          (k.sha256 (trim_space old))
          (k.sha256 (trim_space new))
          s
          (rotate_device_snmp_secrets k old new random false (record { db = s; faults = [] }))
  unfolding rotate_device_snmp_secrets rotate_between new_secret_protector
  rotate_device_snmp_secrets-IsRotated old new s old_given new_given keyed readable = rw old_given (
      rw new_given (
        rotate_enabled-IsRotated (k.sha256 (trim_space old)) (k.sha256 (trim_space new)) s keyed
          readable))
