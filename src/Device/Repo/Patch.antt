-- ===== src/Device/Repo/Patch.antt =====
-- A change of a device is read back; an id that no device has is refused.
use nms.Prelude.{
  ℕ, ◌≡◌, refl, ap, ◌∙◌, true, false, List, [], ◌∷◌, String, some, ◌==◌, trim_space, find,
  update_where, delete_where, any, Bool-cases, inl, inr,
}
use nms.Prelude.Result.{Result, ok, err, no_rows}
use nms.Sql.{pure, raise, lift, ◌>>=◌, statement, query}
use nms.Discovery.Versions.{normalize_snmp_version}
use nms.Device.Secrets.{Crypto, Protector}
use nms.Device.Secrets.Laws.{IsCipher}
use nms.Device.Tables.{Device, DeviceColumns, DeviceDb, value_or}
use nms.Device.Reading.{seen, device_of, read_device, found_device, get_device_by_id}
use nms.Device.Repo.{
  Randoms, Credentials, credentials, changed, patch_device, update_device_by_id, delete_by_id,
}
use nms.Device.Repo.Roundtrip.{
  AreDrawn, IsComplete, credentials-IsComplete, proto_read, value_or-unless_blank, read_row,
}

-- The device of `row` after the change `d`, as it is read back.
unfoldable pub patched : ℕ → DeviceColumns → String → Device → Device
patched now row version d = record {
  id = row.id;
  ip = row.ip;
  name = trim_space d.name;
  community = trim_space d.community;
  snmp_version = version;
  auth_proto = proto_read trim_space d.auth_proto;
  auth_pass = trim_space d.auth_pass;
  priv_proto = proto_read trim_space d.priv_proto;
  priv_pass = trim_space d.priv_pass;
  version = value_or row.version "unknown";
  status = value_or row.status "active";
  created_at = value_or row.created_at now;
  last_seen = seen row.last_seen row.created_at;
  last_error = value_or row.last_error "";
  last_error_at = row.last_error_at;
  last_poll_ok_at = row.last_poll_ok_at;
}

changed_id :
    (name : String) (c : Credentials) (row : DeviceColumns) (id : ℕ)
    → ((changed name c row).id == id) ≡ (row.id == id)
unfolding changed
changed_id name c row id = refl

find-changed :
    (name : String) (c : Credentials) (id : ℕ) (rows : List DeviceColumns) (row : DeviceColumns)
    → find (λ r. r.id == id) rows ≡ some row
    → find (λ r. r.id == id) (update_where (λ r. r.id == id) (changed name c) rows)
      ≡ some (changed name c row)
find-changed name c id [] row e = cc
find-changed name c id (r ∷ rows) row e = elim (Bool-cases (r.id == id)) [
  | inl hit ↦
      let same : r ≡ row = let e' : some r ≡ some row = rw hit at e in cc in
      rw hit (rw (changed_id name c r id) (rw hit (ap (λ x. some (changed name c x)) same)))
  | inr miss ↦ rw miss (rw miss (find-changed name c id rows row (rw miss at e)))
]

any-find :
    (id : ℕ) (rows : List DeviceColumns) (row : DeviceColumns)
    → find (λ r. r.id == id) rows ≡ some row
    → any (λ r. r.id == id) rows ≡ true
any-find id [] row e = cc
any-find id (r ∷ rows) row e = elim (Bool-cases (r.id == id)) [
  | inl hit ↦ rw hit refl
  | inr miss ↦ rw miss (any-find id rows row (rw miss at e))
]

module _ (k : Crypto) (law : IsCipher k) (p : Protector) where
  read_patched :
      (now : ℕ) (row : DeviceColumns) (version : String) (d : Device) (made : Result Credentials)
      → (h : IsComplete k p trim_space version d made)
      → read_device k p now (changed (trim_space d.name) h.c row) ≡ ok (patched now row version d)
  unfolding changed patched device_of seen
  read_patched now row version d made h =
      read_row k p now (changed (trim_space d.name) h.c row) _ _ _ h.community_is h.auth_pass_is
        h.priv_pass_is
      ∙ rw h.version_is (
          rw h.auth_proto_is (
            rw h.priv_proto_is (
              rw (value_or-unless_blank trim_space d.auth_proto)
                (rw (value_or-unless_blank trim_space d.priv_proto) refl))))

  -- With a cipher that opens what it sealed, where no statement fails and each read of crypto/rand
  -- gives a nonce, the change of a known device with a positive id to a known version answers the
  -- device as changed: the texts trimmed, the secrets read back, the version in its normal form, and
  -- the address, the status and the times as they were.
  pub update_device_by_id-patched :
      (random : Randoms) (id : ℕ) (d : Device) (s : DeviceDb) (row : DeviceColumns)
      (version : String)
      → AreDrawn k random
      → normalize_snmp_version d.snmp_version ≡ some version
      → (id == 0) ≡ false
      → find (λ r. r.id == id) s.rows ≡ some row
      → (update_device_by_id k p random id (some d) (record { db = s; faults = [] })).0
        ≡ ok (some (patched s.now row version d))
  unfolding update_device_by_id patch_device get_device_by_id ◌>>=◌ lift statement pure query
      found_device
  update_device_by_id-patched random id d s row version drawn known positive found =
      let h = credentials-IsComplete k law p random trim_space version d drawn known in
      rw positive (
        rw h.made_ok (
          rw (any-find id s.rows row found) (
            rw (find-changed (trim_space d.name) h.c id s.rows row found) (
              rw (read_patched s.now row version d (credentials k p random trim_space d) h) refl))))

update_where-none :
    (id : ℕ) (f : DeviceColumns → DeviceColumns) (rows : List DeviceColumns)
    → any (λ r. r.id == id) rows ≡ false
    → update_where (λ r. r.id == id) f rows ≡ rows
update_where-none id f [] e = refl
update_where-none id f (r ∷ rows) e = elim (Bool-cases (r.id == id)) [
  | inl hit ↦ let bad : true ≡ false = rw hit at e in cc
  | inr miss ↦ rw miss (ap (λ rs. r ∷ rs) (update_where-none id f rows (rw miss at e)))
]

delete_where-none :
    (id : ℕ) (rows : List DeviceColumns)
    → any (λ r. r.id == id) rows ≡ false
    → delete_where (λ r. r.id == id) rows ≡ rows
delete_where-none id [] e = refl
delete_where-none id (r ∷ rows) e = elim (Bool-cases (r.id == id)) [
  | inl hit ↦ let bad : true ≡ false = rw hit at e in cc
  | inr miss ↦ rw miss (ap (λ rs. r ∷ rs) (delete_where-none id rows (rw miss at e)))
]

-- With a cipher that opens what it sealed, where no statement fails and each read of crypto/rand
-- gives a nonce, deleting a positive id that no device has, and changing it to a known version,
-- answer `sql.ErrNoRows` and leave the table as it was.
pub unknown_is_refused :
    (k : Crypto) (law : IsCipher k) (p : Protector) (random : Randoms) (id : ℕ) (d : Device)
    (s : DeviceDb) (version : String)
    → AreDrawn k random
    → normalize_snmp_version d.snmp_version ≡ some version
    → (id == 0) ≡ false
    → any (λ r. r.id == id) s.rows ≡ false
    → (delete_by_id id (record { db = s; faults = [] })
        ≡ (err no_rows, record { db = s; faults = [] }))
      × (update_device_by_id k p random id (some d) (record { db = s; faults = [] })
          ≡ (err no_rows, record { db = s; faults = [] }))
unfolding delete_by_id update_device_by_id patch_device ◌>>=◌ lift statement raise
unknown_is_refused k law p random id d s version drawn known positive missing =
    let h = credentials-IsComplete k law p random trim_space version d drawn known in
    (
      rw positive (rw missing (rw (delete_where-none id s.rows missing) refl)),
      rw positive (
          rw h.made_ok (
            rw missing
              (rw (update_where-none id (changed (trim_space d.name) h.c) s.rows missing) refl))),
    )
