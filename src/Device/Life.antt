-- ===== src/Device/Life.antt =====
-- The life of the devices table: every operation that writes it, under keys that may change.
use nms.Prelude.{ℕ, Bool, List, [], ◌∷◌, String, Option, some}
use nms.Sql.{Conn}
use nms.Device.Secrets.{Bytes, Crypto}
use nms.Device.Tables.{Device, DeviceDb, Inet}
use nms.Device.Repo.{
  Randoms, create_device, update_device_by_id, delete_by_id, update_device_last_seen,
  update_device_status, mark_device_poll_success, update_device_error,
}
use nms.Device.Repo.Kept.{
  AreKept, create_device-Keeps, update_device_by_id-Keeps, delete_by_id-Keeps,
  update_device_last_seen-Keeps, update_device_status-Keeps, mark_device_poll_success-Keeps,
  update_device_error-Keeps,
}
use nms.Device.Rotation.{rotate_device_snmp_secrets}
use nms.Device.Rotation.Sealed.{rotate_device_snmp_secrets-Keeps}

-- The operations of `Repo` that write the table, and the change of the key.
pub data DeviceOp : Type 0 where
  create : Inet → Randoms → Device → DeviceOp
  update : Randoms → ℕ → Option Device → DeviceOp
  delete : ℕ → DeviceOp
  seen : ℕ → DeviceOp
  status : ℕ → String → DeviceOp
  success : ℕ → DeviceOp
  failure : ℕ → String → String → DeviceOp
  rotate : String → String → (ℕ → Randoms) → Bool → DeviceOp

-- An operation in a process whose key is `key`, and the table after it.
unfoldable pub perform_device : Crypto → Bytes → DeviceOp → Conn DeviceDb → DeviceDb
perform_device k key (create inet random d) c = (create_device k (some key) inet random d c).1.db
perform_device k key (update random id patch) c =
    (update_device_by_id k (some key) random id patch c).1.db
perform_device k key (delete id) c = (delete_by_id id c).1.db
perform_device k key (seen id) c = (update_device_last_seen id c).1.db
perform_device k key (status id s) c = (update_device_status id s c).1.db
perform_device k key (success id) c = (mark_device_poll_success id c).1.db
perform_device k key (failure id s text) c = (update_device_error id s text c).1.db
perform_device k key (rotate old new random dry_run) c =
    (rotate_device_snmp_secrets k old new random dry_run c).1.db

perform_device-AreKept :
    (k : Crypto) (key : Bytes) (op : DeviceOp) (c : Conn DeviceDb)
    → AreKept c.db
    → AreKept (perform_device k key op c)
unfolding perform_device
perform_device-AreKept k key (create inet random d) c h =
    (create_device-Keeps k key inet random d).at c h
perform_device-AreKept k key (update random id patch) c h =
    (update_device_by_id-Keeps k key random id patch).at c h
perform_device-AreKept k key (delete id) c h = (delete_by_id-Keeps k key id).at c h
perform_device-AreKept k key (seen id) c h = (update_device_last_seen-Keeps id).at c h
perform_device-AreKept k key (status id s) c h = (update_device_status-Keeps id s).at c h
perform_device-AreKept k key (success id) c h = (mark_device_poll_success-Keeps id).at c h
perform_device-AreKept k key (failure id s text) c h = (update_device_error-Keeps id s text).at c h
perform_device-AreKept k key (rotate old new random dry_run) c h =
    (rotate_device_snmp_secrets-Keeps k old new random dry_run).at c h

-- Operations one after the other, each with its key, the failing statements and the time.
unfoldable pub run_devices :
    Crypto → List (DeviceOp × (Bytes × (List Bool × ℕ))) → DeviceDb → DeviceDb
unfolding perform_device
run_devices k [] s = s
run_devices k ((op, (key, (faults, now))) ∷ rest) s =
    run_devices k rest
      (perform_device k key op (record { db = record s { now = now }; faults = faults }))

-- In a process with an encryption key, over any operations with any failing statements, at any times
-- and under keys that change, the devices table holds no secret in plain text, and only versions
-- that the schema admits, if this was so at first.
pub run_devices-AreKept :
    (k : Crypto) (history : List (DeviceOp × (Bytes × (List Bool × ℕ)))) (s : DeviceDb)
    → AreKept s
    → AreKept (run_devices k history s)
unfolding run_devices
run_devices-AreKept k [] s h = h
run_devices-AreKept k ((op, (key, (faults, now))) ∷ rest) s h =
    run_devices-AreKept k rest _
      (perform_device-AreKept k key op (record { db = record s { now = now }; faults = faults }) h)
