-- ===== src/Device/Repo.antt =====
-- Creating, changing and deleting devices, and the outcome of a poll: CreateDevice,
-- UpdateDeviceByID, DeleteByID, UpdateDeviceLastSeen, UpdateDeviceStatus, MarkDevicePollSuccess and
-- UpdateDeviceError of internal/infrastructure/postgres/device_repo.go.
pub mod Kept
pub mod Roundtrip
pub mod Patch
use nms.Prelude.{
  ℕ, ◌+◌, Bool, true, false, List, [], ◌∷◌, String, Option, none, some, ◌==◌, str_eq, trim_space,
  any, update_where, delete_where, if◌then◌else◌,
}
use nms.Prelude.Result.{
  Result, ok, err, database, no_rows, id_required, patch_required, invalid_snmp_version,
}
use nms.Prelude.Result.{◌>>=◌ as check}
use nms.Sql.{Sql, pure, raise, lift, ◌>>=◌, ◌>>◌, statement, exec}
use nms.Discovery.Versions.{normalize_snmp_version}
use nms.Device.Secrets.{Bytes, Crypto, Protector, Columns, split_secret_for_storage}
use nms.Device.Tables.{Device, DeviceColumns, DeviceDb, Inet, value_or}
use nms.Device.Reading.{get_device_by_id}

-- What the reads of crypto/rand give, one for each secret.
pub record Randoms : Type 0 where
  pub for_auth_pass : Option Bytes
  pub for_priv_pass : Option Bytes
  pub for_community : Option Bytes

-- The columns that CreateDevice and UpdateDeviceByID compute alike.
pub record Credentials : Type 0 where
  pub snmp_version : String
  pub auth_proto : Option String
  pub auth_pass : Columns
  pub priv_proto : Option String
  pub priv_pass : Columns
  pub community : Columns

known_version : String → Option String → Result String
known_version given none = err (invalid_snmp_version given)
known_version given (some v) = ok v

-- NULL for a blank text; `stored` is what is kept of another.
unfoldable pub unless_blank : (String → String) → String → Option String
unless_blank stored proto = if str_eq (trim_space proto) "" then none else some (stored proto)

unfoldable pub credentials :
    Crypto → Protector → Randoms → (String → String) → Device → Result Credentials
unfolding known_version unless_blank
credentials k p random stored d =
    check (known_version d.snmp_version (normalize_snmp_version d.snmp_version)) (λ version.
      check (split_secret_for_storage k p random.for_auth_pass d.auth_pass) (λ auth_pass.
        check (split_secret_for_storage k p random.for_priv_pass d.priv_pass) (λ priv_pass.
          check (split_secret_for_storage k p random.for_community d.community) (λ community.
            ok (record {
              snmp_version = version;
              auth_proto = unless_blank stored d.auth_proto;
              auth_pass = auth_pass;
              priv_proto = unless_blank stored d.priv_proto;
              priv_pass = priv_pass;
              community = community;
            })))))

-- The row of the INSERT, with the defaults of the schema.
unfoldable pub inserted : ℕ → ℕ → String → String → Credentials → DeviceColumns
inserted id now ip name c = record {
  id = id;
  ip = ip;
  name = name;
  community = c.community;
  snmp_version = some c.snmp_version;
  auth_proto = c.auth_proto;
  auth_pass = c.auth_pass;
  priv_proto = c.priv_proto;
  priv_pass = c.priv_pass;
  version = some "unknown";
  status = some "active";
  created_at = some now;
  last_seen = none;
  last_error = none;
  last_error_at = none;
  last_poll_ok_at = none;
}

-- The address is unique. A refused row has used its id up.
insert_at : String → Credentials → DeviceDb → Option String → Result (ℕ × ℕ) × DeviceDb
insert_at name c s none = (err database, s)
insert_at name c s (some ip) = (
  if any (λ row. str_eq row.ip ip) s.rows then err database else ok (s.next_id, s.now),
  record s {
    rows =
        if any (λ row. str_eq row.ip ip) s.rows
        then s.rows
        else inserted s.next_id s.now ip name c ∷ s.rows;
    next_id = s.next_id + 1;
  },
)

unfoldable pub insert_device : Inet → Device → Credentials → DeviceDb → Result (ℕ × ℕ) × DeviceDb
unfolding insert_at
insert_device inet d c s = insert_at d.name c s (inet.canonical d.ip)

-- The device as the caller sees it afterwards.
unfoldable pub create_device : Crypto → Protector → Inet → Randoms → Device → Sql DeviceDb Device
create_device k p inet random d = do
  c ← lift (credentials k p random (λ proto. proto) d)
  answer ← statement (insert_device inet d c)
  made ← lift answer
  pure (record d { snmp_version = c.snmp_version; id = made.0; created_at = made.1 })

unfoldable pub changed : String → Credentials → DeviceColumns → DeviceColumns
changed name c row = record row {
  name = name;
  community = c.community;
  snmp_version = some c.snmp_version;
  auth_proto = c.auth_proto;
  auth_pass = c.auth_pass;
  priv_proto = c.priv_proto;
  priv_pass = c.priv_pass;
}

-- Whether a row was affected, and the table.
abbrev pub change_row : ℕ → (DeviceColumns → DeviceColumns) → DeviceDb → Bool × DeviceDb
change_row id f s = (
  any (λ row. row.id == id) s.rows,
  record s { rows = update_where (λ row. row.id == id) f s.rows },
)

abbrev pub delete_row : ℕ → DeviceDb → Bool × DeviceDb
delete_row id s = (
  any (λ row. row.id == id) s.rows,
  record s { rows = delete_where (λ row. row.id == id) s.rows },
)

abbrev pub unless_affected : Bool → Sql DeviceDb (Unit {0})
unless_affected affected = if affected then pure tt else raise no_rows

patch_device : Crypto → Protector → Randoms → ℕ → Device → Sql DeviceDb (Option Device)
patch_device k p random id patch = do
  c ← lift (credentials k p random trim_space patch)
  affected ← statement (change_row id (changed (trim_space patch.name) c))
  unless_affected affected
  get_device_by_id k p id

unfoldable pub update_device_by_id :
    Crypto → Protector → Randoms → ℕ → Option Device → Sql DeviceDb (Option Device)
unfolding patch_device
update_device_by_id k p random id patch =
    if id == 0
    then raise id_required
    else elim patch [ none ↦ raise patch_required | some d ↦ patch_device k p random id d ]

unfoldable pub delete_by_id : ℕ → Sql DeviceDb (Unit {0})
delete_by_id id =
    if id == 0
    then raise no_rows
    else do affected ← statement (delete_row id); unless_affected affected

-- `UPDATE devices SET … WHERE id = $n`, with NOW().
abbrev pub touch_row : ℕ → (ℕ → DeviceColumns → DeviceColumns) → DeviceDb → DeviceDb
touch_row id f s = record s { rows = update_where (λ row. row.id == id) (f s.now) s.rows }

unfoldable pub update_device_last_seen : ℕ → Sql DeviceDb (Unit {0})
update_device_last_seen id = exec (touch_row id (λ now row. record row { last_seen = some now }))

abbrev pub with_device_status : String → ℕ → DeviceColumns → DeviceColumns
with_device_status status now row = record row {
  status = some status;
  last_seen = some now;
  last_poll_ok_at =
      if str_eq status "active"
      then some (value_or row.last_poll_ok_at now)
      else row.last_poll_ok_at;
}

unfoldable pub update_device_status : ℕ → String → Sql DeviceDb (Unit {0})
update_device_status id status = exec (touch_row id (with_device_status status))

abbrev pub polled : ℕ → DeviceColumns → DeviceColumns
polled now row = record row {
  status = some "active";
  last_seen = some now;
  last_poll_ok_at = some now;
  last_error = none;
  last_error_at = none;
}

unfoldable pub mark_device_poll_success : ℕ → Sql DeviceDb (Unit {0})
mark_device_poll_success id = exec (touch_row id polled)

abbrev pub failed : String → String → ℕ → DeviceColumns → DeviceColumns
failed status text now row = record row {
  status = some (if str_eq (trim_space status) "" then "failed" else status);
  last_seen = some now;
  last_error = some (trim_space text);
  last_error_at = some now;
}

unfoldable pub update_device_error : ℕ → String → String → Sql DeviceDb (Unit {0})
update_device_error id status text = exec (touch_row id (failed status text))
