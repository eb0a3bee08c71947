-- ===== src/Tests/Topology.antt =====
-- A scan of two devices that see each other.
use nms.Prelude.{
  ◌≡◌, refl, false, [], ◌∷◌, String, none, some, str_eq, trim_space, arith, if◌then◌else◌, pos,
  has_prefix, text_drop, split_dots,
}
use nms.Prelude.Result.{ok}
use nms.Device.Secrets.{merge_secret_from_storage, has_enc}
use nms.Device.Tables.{Device}
use nms.Device.Reading.{read_device, read_devices, device_of, seen}
use nms.Prelude.Atoi.{atoi}
use nms.Lldp.Oids.{normalize_oid, trim_prefix, parts_behind, parse_remote_indexes}
use nms.Lldp.Tables.{LldpDb}
use nms.Lldp.Scan.{Net, lldp_max_remote_entries, scan_all_devices_lldp}
use nms.Lldp.Whole.{IsSnapshot, scan_all_devices_lldp-IsSnapshot}
use nms.Tests.Data.{bare_os}
use nms.Tests.Devices.{toy, any_inet, small_db}

abbrev rem_name : String
rem_name = "1.0.8802.1.1.2.1.4.1.1.9"

abbrev seen_net : Net
seen_net = record {
  walk = λ d base.
      if str_eq base rem_name
      then some (("1.0.8802.1.1.2.1.4.1.1.9.0.12.1", "router") ∷ [])
      else some [];
  shuffle = λ es. es;
  is_over = λ d. false;
}

abbrev wires : LldpDb
wires = record { devices = small_db; scans = 1 ∷ []; links = []; next_scan = 2 }

indexes_found :
    parse_remote_indexes "1.0.8802.1.1.2.1.4.1.1.9.0.12.1" rem_name ≡ some (pos 12, pos 1)
unfolding parse_remote_indexes parts_behind normalize_oid trim_prefix split_dots atoi trim_space
    has_prefix text_drop
indexes_found = refl

abbrev the_router : Device
the_router = record {
  id = 3;
  ip = "10.0.0.3";
  name = "router";
  community = "public";
  snmp_version = "v2c";
  auth_proto = "";
  auth_pass = "";
  priv_proto = "";
  priv_pass = "";
  version = "unknown";
  status = "active";
  created_at = 5;
  last_seen = some 5;
  last_error = "";
  last_error_at = none;
  last_poll_ok_at = none;
}

the_router_read : read_devices toy none 9 small_db.rows ≡ ok (the_router ∷ [])
unfolding read_devices read_device device_of seen merge_secret_from_storage has_enc
the_router_read = refl

scan_all_devices_lldp-IsSnapshot_example :
    IsSnapshot (lldp_max_remote_entries bare_os) wires (
      scan_all_devices_lldp toy none any_inet bare_os seen_net (record { db = wires; faults = [] }))
scan_all_devices_lldp-IsSnapshot_example =
    scan_all_devices_lldp-IsSnapshot toy none any_inet bare_os seen_net wires (the_router ∷ [])
      (record { visits = λ es. refl })
      (record { positive = refl; scans = (ground arith, tt); links = tt }) the_router_read
