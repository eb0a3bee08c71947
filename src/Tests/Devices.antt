-- ===== src/Tests/Devices.antt =====
-- A table of devices with a toy cipher: the nonce and the text side by side.
use Prim.Native.Char.{Char}
use Prim.Native.String.{char_at}
use nms.Prelude.{
  ◌≡◌, refl, ap, true, false, [], ◌∷◌, String, Option, none, some, str_eq, trim_space, to_lower,
  drop, arith,
}
use nms.Prelude.Result.{ok, err, no_rows}
use text.Mathlib.TextBridge.{to_list, of_list, to_list-of_list, of_list-to_list}
use nms.Discovery.Versions.{normalize_snmp_version}
use nms.Device.Secrets.{Bytes, Crypto, merge_secret_from_storage, has_enc}
use nms.Device.Secrets.Laws.{IsCipher, IsDrawn}
use nms.Device.Tables.{Device, DeviceColumns, DeviceDb, Inet}
use nms.Device.Repo.{Randoms, update_device_by_id, create_device, delete_by_id}
use nms.Device.Repo.Kept.{AreKept}
use nms.Device.Repo.Roundtrip.{AreDrawn, created, then_get, create_device-get}
use nms.Device.Repo.Patch.{patched, update_device_by_id-patched, unknown_is_refused}
use nms.Device.Rotation.{rotate_device_snmp_secrets}
use nms.Device.Rotation.Whole.{IsRotated, rotate_device_snmp_secrets-IsRotated}
use nms.Device.Rotation.Atomic.{IsAsAsked, rotate_device_snmp_secrets-IsAsAsked}
use nms.Device.Life.{create, rotate, run_devices, run_devices-AreKept}

abbrev letter : Char
letter = char_at "k" 0

abbrev first_left : Bytes → Option String
first_left bs = some (of_list bs)

abbrev pub toy : Crypto
toy = record {
  sha256 = λ s. letter ∷ [];
  nonce_size = 1;
  seal = λ key random t. letter ∷ to_list t;
  unseal = λ key random bs. some (of_list (drop 1 bs));
  base64 = of_list;
  from_base64 = λ t. some (to_list t);
}

toy-IsCipher : IsCipher toy
toy-IsCipher = record {
  opens = λ key random t fits. ap some (of_list-to_list t);
  tagged = λ key random t. ground arith;
  decodes = λ bs. ap some (to_list-of_list bs);
}

abbrev drawn : Randoms
drawn = record {
  for_auth_pass = some (letter ∷ []);
  for_priv_pass = some (letter ∷ []);
  for_community = some (letter ∷ []);
}

one-IsDrawn : IsDrawn toy (some (letter ∷ []))
one-IsDrawn = record { bytes = letter ∷ []; is_read = refl; fits = refl }

drawn-AreDrawn : AreDrawn toy drawn
drawn-AreDrawn = record {
  auth_pass = one-IsDrawn;
  priv_pass = one-IsDrawn;
  community = one-IsDrawn;
}

abbrev pub any_inet : Inet
any_inet = record { canonical = λ t. some t; before = λ a b. false }

-- A router with a community in plain text.
abbrev router : DeviceColumns
router = record {
  id = 3;
  ip = "10.0.0.3";
  name = "router";
  community = record { plain = some "public"; enc = none };
  snmp_version = some "v2c";
  auth_proto = none;
  auth_pass = record { plain = none; enc = none };
  priv_proto = none;
  priv_pass = record { plain = none; enc = none };
  version = some "unknown";
  status = some "active";
  created_at = some 5;
  last_seen = none;
  last_error = none;
  last_error_at = none;
  last_poll_ok_at = none;
}

abbrev pub small_db : DeviceDb
small_db = record { rows = router ∷ []; next_id = 4; now = 9 }

abbrev given : Device
given = record {
  id = 0;
  ip = "10.0.0.4";
  name = "switch";
  community = " secret ";
  snmp_version = "2c";
  auth_proto = "";
  auth_pass = "";
  priv_proto = "";
  priv_pass = "";
  version = "";
  status = "";
  created_at = 0;
  last_seen = none;
  last_error = "";
  last_error_at = none;
  last_poll_ok_at = none;
}

version_known : normalize_snmp_version "2c" ≡ some "v2c"
unfolding normalize_snmp_version trim_space to_lower
version_known = refl

create_device-get_example :
    (then_get toy
      (some (letter ∷ []))
      4
      (create_device toy (some (letter ∷ [])) any_inet drawn given)
      (record { db = small_db; faults = [] })).0
    ≡ ok (some (created small_db "10.0.0.4" "v2c" given))
create_device-get_example =
    create_device-get toy toy-IsCipher (some (letter ∷ [])) any_inet drawn given small_db "10.0.0.4"
      "v2c" drawn-AreDrawn version_known refl refl refl

update_device_by_id-patched_example :
    (update_device_by_id toy none drawn 3 (some given) (record { db = small_db; faults = [] })).0
    ≡ ok (some (patched 9 router "v2c" given))
update_device_by_id-patched_example =
    update_device_by_id-patched toy toy-IsCipher none drawn 3 given small_db router "v2c"
      drawn-AreDrawn version_known refl refl

unknown_is_refused_example :
    (delete_by_id 8 (record { db = small_db; faults = [] })
      ≡ (err no_rows, record { db = small_db; faults = [] }))
    × (update_device_by_id toy none drawn 8 (some given) (record { db = small_db; faults = [] })
        ≡ (err no_rows, record { db = small_db; faults = [] }))
unknown_is_refused_example =
    unknown_is_refused toy toy-IsCipher none drawn 8 given small_db "v2c" drawn-AreDrawn
      version_known refl refl

rotate_device_snmp_secrets-IsAsAsked_example : IsAsAsked true small_db (
    rotate_device_snmp_secrets toy "old" "new"
      (λ id. drawn)
      true
      (record { db = small_db; faults = true ∷ [] }))
rotate_device_snmp_secrets-IsAsAsked_example =
    rotate_device_snmp_secrets-IsAsAsked toy (λ id. drawn) "old" "new" true
      (record { db = small_db; faults = true ∷ [] })

old_given : str_eq (trim_space "old") "" ≡ false
unfolding trim_space
old_given = refl

new_given : str_eq (trim_space "new") "" ≡ false
unfolding trim_space
new_given = refl

router_read : merge_secret_from_storage toy (some (letter ∷ [])) router.community ≡ ok "public"
unfolding merge_secret_from_storage has_enc
router_read = refl

nothing_read : merge_secret_from_storage toy (some (letter ∷ [])) router.auth_pass ≡ ok ""
unfolding merge_secret_from_storage has_enc
nothing_read = refl

rotate_device_snmp_secrets-IsRotated_example : IsRotated toy (letter ∷ []) (letter ∷ []) small_db (
    rotate_device_snmp_secrets toy "old" "new"
      (λ id. drawn)
      false
      (record { db = small_db; faults = [] }))
rotate_device_snmp_secrets-IsRotated_example =
    rotate_device_snmp_secrets-IsRotated toy toy-IsCipher (λ id. drawn) (λ id. drawn-AreDrawn) "old"
      "new" small_db old_given new_given (tt, tt)
      (
        record {
          community = "public";
          auth_pass = "";
          priv_pass = "";
          community_read = router_read;
          auth_pass_read = nothing_read;
          priv_pass_read = nothing_read;
        },
        tt,
      )

-- A table with no device, one created and the key changed.
run_devices-AreKept_example : AreKept (
    run_devices toy
      ((create any_inet drawn given, (letter ∷ [], ([], 3)))
        ∷ (rotate "old" "new" (λ id. drawn) false, (letter ∷ [], (false ∷ true ∷ [], 5)))
        ∷ [])
      (record { rows = []; next_id = 1; now = 0 }))
run_devices-AreKept_example =
    run_devices-AreKept toy
      ((create any_inet drawn given, (letter ∷ [], ([], 3)))
        ∷ (rotate "old" "new" (λ id. drawn) false, (letter ∷ [], (false ∷ true ∷ [], 5)))
        ∷ [])
      (record { rows = []; next_id = 1; now = 0 }) tt
