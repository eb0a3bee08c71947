-- ===== src/Device/Rotation.antt =====
-- internal/infrastructure/postgres/rotate_secrets.go: the secrets of the devices from an old key to
-- a new one, in one transaction.
pub mod Column
pub mod Row
pub mod Loop
pub mod Whole
pub mod Atomic
pub mod Sealed
use nms.Prelude.{
  ℕ, ◌+◌, Bool, true, false, not, ◌&&◌, ◌||◌, List, [], ◌∷◌, String, Option, none, some, ◌==◌,
  str_eq, trim_space, ltb, update_where, order_by, if◌then◌else◌,
}
use nms.Prelude.Result.{Result, ok, err, ◌>>=◌, old_key_required, new_key_required}
use nms.Sql.{Sql, pure, raise, lift, ◌>>◌, query, exec, in_tx}
use nms.Sql.{◌>>=◌ as and_then}
use nms.Device.Secrets.{
  Bytes, Crypto, Protector, Columns, no_columns, new_secret_protector, split_secret_for_storage,
  decrypt, has_enc,
}
use nms.Device.Tables.{DeviceColumns, DeviceDb, value_or}
use nms.Device.Repo.{Randoms}

-- `RotateDeviceSecretsStats`.
pub record Stats : Type 0 where
  pub scanned : ℕ
  pub updated : ℕ
  pub skipped : ℕ

abbrev pub no_stats : Stats
no_stats = record { scanned = 0; updated = 0; skipped = 0 }

-- `normalizeNullString`.
unfoldable pub normalize_null_string : Option String → String
normalize_null_string none = ""
normalize_null_string (some s) = s

secret_source : Crypto → Protector → String → Option String → Result String
secret_source k old plain none = ok plain
secret_source k old plain (some enc) =
    if has_enc (some enc) then (do text ← decrypt k old enc; ok (trim_space text)) else ok plain

unfoldable pub is_changed : String → Option String → Columns → Bool
unfolding normalize_null_string
is_changed plain enc next =
    not (str_eq plain (normalize_null_string next.plain))
    || not (str_eq (normalize_null_string enc) (normalize_null_string next.enc))

-- The new columns, and whether they differ. The columns are NULL where there is no secret.
unfoldable pub rotate_secret_value :
    Crypto → Protector → Protector → Option Bytes → Columns → Result (Columns × Bool)
unfolding secret_source
rotate_secret_value k old new random c =
    let plain = trim_space (value_or c.plain "") in
    if str_eq plain "" && not (has_enc c.enc) then ok (no_columns, false) else do
      source ← secret_source k old plain c.enc
      next ← split_secret_for_storage k new random source
      ok (next, is_changed plain c.enc next)

pub record UpdateRow : Type 0 where
  pub id : ℕ
  pub community : Columns
  pub auth_pass : Columns
  pub priv_pass : Columns

-- What a row becomes, and whether it changes.
unfoldable pub rotate_row :
    Crypto → Protector → Protector → Randoms → DeviceColumns → Result (UpdateRow × Bool)
rotate_row k old new random row = do
  community ← rotate_secret_value k old new random.for_community row.community
  auth_pass ← rotate_secret_value k old new random.for_auth_pass row.auth_pass
  priv_pass ← rotate_secret_value k old new random.for_priv_pass row.priv_pass
  ok (
    record {
      id = row.id;
      community = community.0;
      auth_pass = auth_pass.0;
      priv_pass = priv_pass.0;
    },
    community.1 || auth_pass.1 || priv_pass.1,
  )

count_row : UpdateRow × Bool → Stats × List UpdateRow → Stats × List UpdateRow
count_row (u, true) (st, us) =
    (record st { scanned = st.scanned + 1; updated = st.updated + 1 }, u ∷ us)
count_row (u, false) (st, us) =
    (record st { scanned = st.scanned + 1; skipped = st.skipped + 1 }, us)

-- The loop over the rows: the counts, and the updates in the order of the rows.
unfoldable pub rotate_rows :
    Crypto
    → Protector
    → Protector
    → (ℕ → Randoms)
    → List DeviceColumns
    → Result (Stats × List UpdateRow)
unfolding count_row
rotate_rows k old new random [] = ok (no_stats, [])
rotate_rows k old new random (row ∷ rows) = do
  out ← rotate_row k old new (random row.id) row
  rest ← rotate_rows k old new random rows
  ok (count_row out rest)

abbrev pub rotated : UpdateRow → DeviceColumns → DeviceColumns
rotated u row = record row {
  community = u.community;
  auth_pass = u.auth_pass;
  priv_pass = u.priv_pass;
}

abbrev pub set_row : UpdateRow → DeviceDb → DeviceDb
set_row u s = record s { rows = update_where (λ row. row.id == u.id) (rotated u) s.rows }

unfoldable pub apply_updates : List UpdateRow → Sql DeviceDb (Unit {0})
apply_updates [] = pure tt
apply_updates (u ∷ us) = exec (set_row u) >> apply_updates us

abbrev pub by_id : DeviceColumns → DeviceColumns → Bool
by_id a b = ltb a.id b.id

rotation : Crypto → Bytes → Bytes → (ℕ → Randoms) → Sql DeviceDb (Stats × List UpdateRow)
rotation k old new random =
    and_then (query (λ s. rotate_rows k (some old) (some new) random (order_by by_id s.rows))) lift

-- A dry run is rolled back: `BEGIN`, the rows, and no commit.
rotate_enabled : Crypto → Bytes → Bytes → (ℕ → Randoms) → Bool → Sql DeviceDb Stats
unfolding rotation
rotate_enabled k old new random dry_run =
    if dry_run
    then exec (λ s. s) >> and_then (rotation k old new random) (λ out. pure out.0)
    else in_tx (and_then (rotation k old new random) (λ out. apply_updates out.1 >> pure out.0))

rotate_between : Crypto → Protector → Protector → (ℕ → Randoms) → Bool → Sql DeviceDb Stats
unfolding rotate_enabled
rotate_between k none new random dry_run = raise old_key_required
rotate_between k (some old) none random dry_run = raise new_key_required
rotate_between k (some old) (some new) random dry_run = rotate_enabled k old new random dry_run

-- `RotateDeviceSNMPSecrets`; `random` gives the reads of crypto/rand for each device.
unfoldable pub rotate_device_snmp_secrets :
    Crypto → String → String → (ℕ → Randoms) → Bool → Sql DeviceDb Stats
unfolding rotate_between
rotate_device_snmp_secrets k old new random dry_run =
    rotate_between k (new_secret_protector k old) (new_secret_protector k new) random dry_run
