-- ===== src/Device/Reading.antt =====
-- A device from its row: GetDeviceByID and ListDevices of
-- internal/infrastructure/postgres/device_repo.go.
use nms.Prelude.{ℕ, List, [], ◌∷◌, String, Option, none, some, ◌==◌, find, order_by, if◌then◌else◌}
use nms.Prelude.Result.{Result, ok, err, ◌>>=◌, database}
use nms.Sql.{Sql, pure, lift, query}
use nms.Sql.{◌>>=◌ as and_then}
use nms.Device.Secrets.{Crypto, Protector, merge_secret_from_storage}
use nms.Device.Tables.{Device, DeviceColumns, DeviceDb, Inet, value_or}

-- `COALESCE(last_seen, created_at)`.
unfoldable pub seen : Option ℕ → Option ℕ → Option ℕ
seen none created = created
seen (some t) created = some t

-- The fields that a row gives, next to the secrets.
unfoldable pub device_of : ℕ → DeviceColumns → String → String → String → Device
device_of now row community auth_pass priv_pass = record {
  id = row.id;
  ip = row.ip;
  name = row.name;
  community = community;
  snmp_version = value_or row.snmp_version "v2c";
  auth_proto = value_or row.auth_proto "";
  auth_pass = auth_pass;
  priv_proto = value_or row.priv_proto "";
  priv_pass = priv_pass;
  version = value_or row.version "unknown";
  status = value_or row.status "active";
  created_at = value_or row.created_at now;
  last_seen = seen row.last_seen row.created_at;
  last_error = value_or row.last_error "";
  last_error_at = row.last_error_at;
  last_poll_ok_at = row.last_poll_ok_at;
}

unfoldable pub read_device : Crypto → Protector → ℕ → DeviceColumns → Result Device
unfolding device_of
read_device k p now row = do
  community ← merge_secret_from_storage k p row.community
  auth_pass ← merge_secret_from_storage k p row.auth_pass
  priv_pass ← merge_secret_from_storage k p row.priv_pass
  ok (device_of now row community auth_pass priv_pass)

unfoldable pub found_device : Crypto → Protector → ℕ → Option DeviceColumns → Result (Option Device)
found_device k p now none = ok none
found_device k p now (some row) = do device ← read_device k p now row; ok (some device)

-- `(nil, nil)` is `none`.
unfoldable pub get_device_by_id : Crypto → Protector → ℕ → Sql DeviceDb (Option Device)
unfolding found_device
get_device_by_id k p id =
    if id == 0
    then pure none
    else and_then (query (λ s. found_device k p s.now (find (λ row. row.id == id) s.rows))) lift

-- `Scan` into a `time.Time` refuses NULL.
scan_listed : Crypto → Protector → ℕ → DeviceColumns → Option ℕ → Result Device
scan_listed k p now row none = err database
scan_listed k p now row (some t) = read_device k p now row

unfoldable pub read_devices : Crypto → Protector → ℕ → List DeviceColumns → Result (List Device)
unfolding scan_listed
read_devices k p now [] = ok []
read_devices k p now (row ∷ rows) = do
  device ← scan_listed k p now row (seen row.last_seen row.created_at)
  devices ← read_devices k p now rows
  ok (device ∷ devices)

unfoldable pub list_devices : Crypto → Protector → Inet → Sql DeviceDb (List Device)
list_devices k p inet =
    and_then (query (λ s. read_devices k p s.now (order_by (λ a b. inet.before a.ip b.ip) s.rows)))
      lift
