-- ===== src/Device/Repo/Kept.antt =====
-- What every operation of device_repo.go that writes keeps true of the rows.
use nms.Prelude.{
  ℕ, ◌≡◌, refl, sym, subst, Bool, true, false, ◌||◌, String, Option, none, some, ◌==◌, str_eq,
  trim_space, to_lower, All, All-update_where, All-delete_where, if-both, any,
}
use nms.Device.Reading.{get_device_by_id}
use nms.Prelude.Result.{no_rows, Yields, Yields-bind, Yields-ok, Yields-err}
use nms.Sql.{exec}
use nms.Sql.Rules.{
  Keeps, Keeps-if, Keeps-bind, Keeps-bind-lift, Keeps-pure, Keeps-query, Keeps-raise,
  Keeps-statement,
}
use nms.Sql.Parts.{Keeps-exec}
use nms.Sql.Atomic.{Keeps-lift}
use nms.Discovery.Versions.{normalize_snmp_version}
use nms.Device.Secrets.{Bytes, Crypto, split_secret_for_storage}
use nms.Device.Secrets.Laws.{IsSealed, split_secret_for_storage-IsSealed}
use nms.Device.Tables.{Device, DeviceColumns, DeviceDb, Inet}
use nms.Device.Repo.{
  Randoms, Credentials, known_version, credentials, inserted, insert_at, insert_device,
  create_device, changed, change_row, delete_row, unless_affected, patch_device,
  update_device_by_id, delete_by_id, touch_row, update_device_last_seen, with_device_status,
  update_device_status, mark_device_poll_success, update_device_error,
}

-- One of the three versions that the schema admits.
unfoldable pub is_version : Option String → Bool
is_version none = false
is_version (some v) = str_eq v "v1" || str_eq v "v2c" || str_eq v "v3"

-- No secret in plain text, and a known version.
pub record IsKeptRow (row : DeviceColumns) : Type 0 where
  pub community : IsSealed row.community
  pub auth_pass : IsSealed row.auth_pass
  pub priv_pass : IsSealed row.priv_pass
  pub version : is_version row.snmp_version ≡ true

pub record IsKeptCredentials (c : Credentials) : Type 0 where
  pub community : IsSealed c.community
  pub auth_pass : IsSealed c.auth_pass
  pub priv_pass : IsSealed c.priv_pass
  pub version : is_version (some c.snmp_version) ≡ true

abbrev IsFine : Option String → Type 0
IsFine none = Unit
IsFine (some v) = is_version (some v) ≡ true

normalize_snmp_version-IsFine : (v : String) → IsFine (normalize_snmp_version v)
unfolding normalize_snmp_version is_version
normalize_snmp_version-IsFine v = if-both IsFine (str_eq (to_lower (trim_space v)) "v1") _ _ refl (
    if-both IsFine (str_eq (to_lower (trim_space v)) "v3") _ _ refl
      (if-both IsFine _ (some "v2c") none refl tt))

known_version-Yields :
    (given : String) (o : Option String)
    → IsFine o
    → Yields (λ v. is_version (some v) ≡ true) (known_version given o)
unfolding known_version
known_version-Yields given none h = Yields-err _
known_version-Yields given (some w) h = Yields-ok w h

module _ (k : Crypto) (key : Bytes) where
  sealed :
      (random : Option Bytes) (text : String)
      → Yields IsSealed (split_secret_for_storage k (some key) random text)
  sealed random text = record {
    at = λ c e. split_secret_for_storage-IsSealed k key random text c e;
  }

  credentials-Yields :
      (random : Randoms) (stored : String → String) (d : Device)
      → Yields IsKeptCredentials (credentials k (some key) random stored d)
  unfolding credentials
  credentials-Yields random stored d =
      Yields-bind (λ v. is_version (some v) ≡ true) _
        (known_version-Yields d.snmp_version _ (normalize_snmp_version-IsFine d.snmp_version))
        (λ version known.
          Yields-bind IsSealed _ (sealed random.for_auth_pass d.auth_pass) (λ auth_pass a.
            Yields-bind IsSealed _ (sealed random.for_priv_pass d.priv_pass) (λ priv_pass p.
              Yields-bind IsSealed _ (sealed random.for_community d.community) (λ community c.
                Yields-ok _
                  (record { community = c; auth_pass = a; priv_pass = p; version = known })))))

-- The rows of the table.
abbrev pub AreKept : DeviceDb → Type 0
AreKept s = All IsKeptRow s.rows

inserted-IsKeptRow :
    (id now : ℕ) (ip name : String) (c : Credentials)
    → IsKeptCredentials c
    → IsKeptRow (inserted id now ip name c)
unfolding inserted
inserted-IsKeptRow id now ip name c h = record {
  community = h.community;
  auth_pass = h.auth_pass;
  priv_pass = h.priv_pass;
  version = h.version;
}

insert_at-AreKept :
    (name : String) (c : Credentials) (s : DeviceDb) (o : Option String)
    → IsKeptCredentials c
    → AreKept s
    → AreKept (insert_at name c s o).1
unfolding insert_at
insert_at-AreKept name c s none h kept = kept
insert_at-AreKept name c s (some ip) h kept =
    if-both (All IsKeptRow) (any (λ row. str_eq row.ip ip) s.rows) _ _ kept
      (inserted-IsKeptRow s.next_id s.now ip name c h, kept)

touch_row-AreKept :
    (id : ℕ) (f : ℕ → DeviceColumns → DeviceColumns)
    → ((now : ℕ) (row : DeviceColumns) → IsKeptRow row → IsKeptRow (f now row))
    → Keeps AreKept (exec (touch_row id f))
touch_row-AreKept id f h = Keeps-exec (touch_row id f) (λ s kept.
    All-update_where IsKeptRow (λ row. row.id == id) (f s.now) s.rows (λ row k hit. h s.now row k)
      kept)

-- The other columns do not matter.
same_row :
    (row row' : DeviceColumns)
    → row'.community ≡ row.community
    → row'.auth_pass ≡ row.auth_pass
    → row'.priv_pass ≡ row.priv_pass
    → row'.snmp_version ≡ row.snmp_version
    → IsKeptRow row
    → IsKeptRow row'
same_row row row' c a p v h = record {
  community = subst IsSealed (sym c) h.community;
  auth_pass = subst IsSealed (sym a) h.auth_pass;
  priv_pass = subst IsSealed (sym p) h.priv_pass;
  version = rw v h.version;
}

with_device_status-kept :
    (status : String) (now : ℕ) (row : DeviceColumns)
    → IsKeptRow row
    → IsKeptRow (with_device_status status now row)
with_device_status-kept status now row h = same_row row _ refl refl refl refl h

module _ (k : Crypto) (key : Bytes) where
  pub create_device-Keeps :
      (inet : Inet) (random : Randoms) (d : Device)
      → Keeps AreKept (create_device k (some key) inet random d)
  unfolding create_device insert_device
  create_device-Keeps inet random d = Keeps-bind-lift _ _ (λ c e.
      Keeps-bind _
        (Keeps-statement (insert_device inet d c) (λ s kept.
          insert_at-AreKept d.name c s (inet.canonical d.ip)
            ((credentials-Yields k key random (λ proto. proto) d).at c e) kept))
        (λ answer. Keeps-bind _ (Keeps-lift answer) (λ made. Keeps-pure _)))

  get_device_by_id-Keeps :
      (P : DeviceDb → Type 0) (id : ℕ) → Keeps P (get_device_by_id k (some key) id)
  unfolding get_device_by_id
  get_device_by_id-Keeps P id =
      Keeps-if (id == 0) _ _ (λ _. Keeps-pure none)
        (λ _. Keeps-bind _ (Keeps-query _) (λ r. Keeps-lift r))

  unless_affected-Keeps :
      (P : DeviceDb → Type 0) (affected : Bool) → Keeps P (unless_affected affected)
  unless_affected-Keeps P affected =
      Keeps-if affected _ _ (λ _. Keeps-pure tt) (λ _. Keeps-raise no_rows)

  changed-IsKeptRow :
      (name : String) (c : Credentials) (row : DeviceColumns)
      → IsKeptCredentials c
      → IsKeptRow (changed name c row)
  unfolding changed
  changed-IsKeptRow name c row h = record {
    community = h.community;
    auth_pass = h.auth_pass;
    priv_pass = h.priv_pass;
    version = h.version;
  }

  patch_device-Keeps :
      (random : Randoms) (id : ℕ) (d : Device)
      → Keeps AreKept (patch_device k (some key) random id d)
  unfolding patch_device
  patch_device-Keeps random id d = Keeps-bind-lift _ _ (λ c e.
      Keeps-bind _
        (Keeps-statement (change_row id (changed (trim_space d.name) c)) (λ s kept.
          All-update_where IsKeptRow (λ row. row.id == id) (changed (trim_space d.name) c) s.rows
            (λ row k' hit.
              changed-IsKeptRow (trim_space d.name) c row
                ((credentials-Yields k key random trim_space d).at c e))
            kept))
        (λ affected.
          Keeps-bind _ (unless_affected-Keeps AreKept affected)
            (λ _. get_device_by_id-Keeps AreKept id)))

  pub update_device_by_id-Keeps :
      (random : Randoms) (id : ℕ) (patch : Option Device)
      → Keeps AreKept (update_device_by_id k (some key) random id patch)
  unfolding update_device_by_id
  update_device_by_id-Keeps random id none =
      Keeps-if (id == 0) _ _ (λ _. Keeps-raise _) (λ _. Keeps-raise _)
  update_device_by_id-Keeps random id (some d) =
      Keeps-if (id == 0) _ _ (λ _. Keeps-raise _) (λ _. patch_device-Keeps random id d)

  pub delete_by_id-Keeps : (id : ℕ) → Keeps AreKept (delete_by_id id)
  unfolding delete_by_id
  delete_by_id-Keeps id =
      Keeps-if (id == 0) _ _ (λ _. Keeps-raise _)
        (λ _.
          Keeps-bind _
            (Keeps-statement (delete_row id)
              (λ s kept. All-delete_where IsKeptRow (λ row. row.id == id) s.rows kept))
            (unless_affected-Keeps AreKept))

pub update_device_last_seen-Keeps : (id : ℕ) → Keeps AreKept (update_device_last_seen id)
unfolding update_device_last_seen
update_device_last_seen-Keeps id =
    touch_row-AreKept id _ (λ now row h. same_row row _ refl refl refl refl h)

pub update_device_status-Keeps :
    (id : ℕ) (status : String) → Keeps AreKept (update_device_status id status)
unfolding update_device_status
update_device_status-Keeps id status = touch_row-AreKept id _ (with_device_status-kept status)

pub mark_device_poll_success-Keeps : (id : ℕ) → Keeps AreKept (mark_device_poll_success id)
unfolding mark_device_poll_success
mark_device_poll_success-Keeps id =
    touch_row-AreKept id _ (λ now row h. same_row row _ refl refl refl refl h)

pub update_device_error-Keeps :
    (id : ℕ) (status text : String) → Keeps AreKept (update_device_error id status text)
unfolding update_device_error
update_device_error-Keeps id status text =
    touch_row-AreKept id _ (λ now row h. same_row row _ refl refl refl refl h)
