-- ===== src/Device/Repo/Roundtrip.antt =====
-- A device that was created or changed is read back as it was given.
use nms.Prelude.{
  ℕ, ◌≡◌, refl, ◌∙◌, true, false, [], String, Option, none, some, ◌==◌, str_eq, trim_space, any,
  Bool-cases, inl, inr, if◌then◌else◌, arith,
}
use nms.Prelude.Result.{Result, ok}
use nms.Sql.{Sql, pure, lift, ◌>>=◌, statement, query}
use nms.Discovery.Versions.{normalize_snmp_version}
use nms.Device.Secrets.{
  Bytes, Crypto, Protector, merge_secret_from_storage, split_secret_for_storage,
}
use nms.Device.Secrets.Laws.{IsCipher, IsDrawn, IsKept, split_secret_for_storage-IsKept}
use nms.Device.Tables.{Device, DeviceColumns, DeviceDb, Inet, value_or}
use nms.Device.Reading.{seen, device_of, read_device, found_device, get_device_by_id}
use nms.Device.Repo.{
  Randoms, Credentials, known_version, unless_blank, credentials, inserted, insert_at,
  insert_device, create_device,
}

-- The three reads for a device gave a nonce each.
pub record AreDrawn (k : Crypto) (random : Randoms) : Type 0 where
  pub auth_pass : IsDrawn k random.for_auth_pass
  pub priv_pass : IsDrawn k random.for_priv_pass
  pub community : IsDrawn k random.for_community

-- The columns of `d`, of which `p` reads the secrets back.
pub record IsComplete (k : Crypto) (p : Protector) (stored : String → String) (version : String)
    (d : Device) (made : Result Credentials) : Type 0 where
  pub c : Credentials
  pub made_ok : made ≡ ok c
  pub version_is : c.snmp_version ≡ version
  pub auth_proto_is : c.auth_proto ≡ unless_blank stored d.auth_proto
  pub priv_proto_is : c.priv_proto ≡ unless_blank stored d.priv_proto
  pub community_is : merge_secret_from_storage k p c.community ≡ ok (trim_space d.community)
  pub auth_pass_is : merge_secret_from_storage k p c.auth_pass ≡ ok (trim_space d.auth_pass)
  pub priv_pass_is : merge_secret_from_storage k p c.priv_pass ≡ ok (trim_space d.priv_pass)

module _ (k : Crypto) (law : IsCipher k) (p : Protector) where
  kept :
      (random : Option Bytes) (text : String)
      → IsDrawn k random
      → IsKept k p (split_secret_for_storage k p random text) (trim_space text)
  kept random text drawn =
      rw drawn.is_read (split_secret_for_storage-IsKept k law drawn.bytes drawn.fits p text)

  pub credentials-IsComplete :
      (random : Randoms) (stored : String → String) (version : String) (d : Device)
      → AreDrawn k random
      → normalize_snmp_version d.snmp_version ≡ some version
      → IsComplete k p stored version d (credentials k p random stored d)
  unfolding credentials known_version
  credentials-IsComplete random stored version d drawn known =
      let (auth_pass, (auth_ok, auth_read)) =
        kept random.for_auth_pass d.auth_pass drawn.auth_pass in
      let (priv_pass, (priv_ok, priv_read)) =
        kept random.for_priv_pass d.priv_pass drawn.priv_pass in
      let (community, (community_ok, community_read)) =
        kept random.for_community d.community drawn.community in
      record {
        c = record {
          snmp_version = version;
          auth_proto = unless_blank stored d.auth_proto;
          auth_pass = auth_pass;
          priv_proto = unless_blank stored d.priv_proto;
          priv_pass = priv_pass;
          community = community;
        };
        made_ok = rw known (rw auth_ok (rw priv_ok (rw community_ok refl)));
        version_is = refl;
        auth_proto_is = refl;
        priv_proto_is = refl;
        community_is = community_read;
        auth_pass_is = auth_read;
        priv_pass_is = priv_read;
      }

-- A protocol as it is read: "" where it was blank.
abbrev pub proto_read : (String → String) → String → String
proto_read stored proto = if str_eq (trim_space proto) "" then "" else stored proto

pub value_or-unless_blank :
    (stored : String → String) (proto : String)
    → value_or (unless_blank stored proto) "" ≡ proto_read stored proto
unfolding unless_blank
value_or-unless_blank stored proto = elim (Bool-cases (str_eq (trim_space proto) "")) [
  | inl blank ↦ rw blank refl
  | inr full ↦ rw full refl
]

-- The new device as it is read back.
unfoldable pub created : DeviceDb → String → String → Device → Device
created s ip version d = record {
  id = s.next_id;
  ip = ip;
  name = d.name;
  community = trim_space d.community;
  snmp_version = version;
  auth_proto = proto_read (λ proto. proto) d.auth_proto;
  auth_pass = trim_space d.auth_pass;
  priv_proto = proto_read (λ proto. proto) d.priv_proto;
  priv_pass = trim_space d.priv_pass;
  version = "unknown";
  status = "active";
  created_at = s.now;
  last_seen = some s.now;
  last_error = "";
  last_error_at = none;
  last_poll_ok_at = none;
}

-- What an operation and a read of the device `id` after it answer.
unfoldable pub then_get :
    {A : Type 0} → Crypto → Protector → ℕ → Sql DeviceDb A → Sql DeviceDb (Option Device)
then_get k p id m = m >>= λ _. get_device_by_id k p id

-- A row whose secrets are read.
pub read_row :
    (k : Crypto) (p : Protector) (now : ℕ) (row : DeviceColumns)
    (community auth_pass priv_pass : String)
    → merge_secret_from_storage k p row.community ≡ ok community
    → merge_secret_from_storage k p row.auth_pass ≡ ok auth_pass
    → merge_secret_from_storage k p row.priv_pass ≡ ok priv_pass
    → read_device k p now row ≡ ok (device_of now row community auth_pass priv_pass)
unfolding read_device
read_row k p now row community auth_pass priv_pass c a q = rw c (rw a (rw q refl))

inserted_id :
    (id now : ℕ) (ip name : String) (c : Credentials)
    → ((inserted id now ip name c).id == id) ≡ true
unfolding inserted
inserted_id id now ip name c = ground arith

module _ (k : Crypto) (law : IsCipher k) (p : Protector) (inet : Inet) where
  read_created :
      (s : DeviceDb) (ip version : String) (d : Device) (made : Result Credentials)
      → (h : IsComplete k p (λ proto. proto) version d made)
      → read_device k p s.now (inserted s.next_id s.now ip d.name h.c) ≡ ok (created s ip version d)
  unfolding inserted created device_of seen
  read_created s ip version d made h =
      read_row k p s.now (inserted s.next_id s.now ip d.name h.c) _ _ _ h.community_is
        h.auth_pass_is h.priv_pass_is
      ∙ rw h.version_is (
          rw h.auth_proto_is (
            rw h.priv_proto_is (
              rw (value_or-unless_blank (λ proto. proto) d.auth_proto)
                (rw (value_or-unless_blank (λ proto. proto) d.priv_proto) refl))))

  -- With a cipher that opens what it sealed, where no statement fails, each read of crypto/rand gives a
  -- nonce and the next id is positive, a device with a valid address that no other has and a known
  -- version is created, and GetDeviceByID then reads it back, encrypted or not: as it was given, but
  -- for the spaces around its secrets, a blank protocol, the address and the version in their normal
  -- form, and with the id, the status and the times of a new row.
  pub create_device-get :
      (random : Randoms) (d : Device) (s : DeviceDb) (ip version : String)
      → AreDrawn k random
      → normalize_snmp_version d.snmp_version ≡ some version
      → inet.canonical d.ip ≡ some ip
      → any (λ row. str_eq row.ip ip) s.rows ≡ false
      → (s.next_id == 0) ≡ false
      → (then_get k p s.next_id
          (create_device k p inet random d)
          (record { db = s; faults = [] })).0
        ≡ ok (some (created s ip version d))
  unfolding then_get create_device insert_device insert_at get_device_by_id ◌>>=◌ lift statement
      pure query found_device
  create_device-get random d s ip version drawn known valid fresh positive =
      let h = credentials-IsComplete k law p random (λ proto. proto) version d drawn known in
      rw h.made_ok (
        rw valid (
          rw fresh (
            rw positive (
              rw (inserted_id s.next_id s.now ip d.name h.c) (
                rw (read_created s ip version d (credentials k p random (λ proto. proto) d) h)
                  refl)))))
