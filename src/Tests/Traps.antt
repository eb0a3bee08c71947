-- ===== src/Tests/Traps.antt =====
-- Traps of the switch, and mappings of vendors.
use nms.Prelude.{
  ◌≡◌, refl, inl, inr, true, false, List, [], ◌∷◌, some, arith, any, length, pos, negsuc, str_eq,
  trim_space, to_lower, contains,
}
use nms.Prelude.Result.{ok}
use nms.Incident.Tables.{Db}
use nms.Incident.Outcome.{sound}
use nms.Trap.Classify.{
  TrapClassification, generic, link_down, bfd_down, trap_signal_from_oid,
  default_trap_classification,
}
use nms.Trap.Mapping.{Outside, TrapOidMapping, TrapDb}
use nms.Trap.Write.{is_trap_match, is_open_trap_of, report_trap}
use nms.Trap.Stored.{IsTrapSound}
use nms.Trap.Life.{
  TrapRequest, report, create_mapping, delete_mapping, incidents, run_traps, run_traps-IsTrapSound,
}
use nms.Trap.Report.{reported_is_open, link_loss_is_one, later_db, recovery_closes}
use nms.History.{poll_ok}
use nms.Tests.Data.{bare_os, empty_db}

-- Patterns without wildcards.
abbrev outside : Outside
outside = record {
  os = bare_os;
  ilike = str_eq;
  vars_json = λ vars. "{}";
  details_json = λ oid ip vars. "{}";
}

abbrev generic_mapping : TrapOidMapping
generic_mapping = record {
  id = 1;
  vendor = "generic";
  oid_pattern = "if-mib::linkdown";
  signal_kind = "link_down";
  title = "Link loss detected";
  severity = "critical";
  is_recovery = false;
  priority = pos 200;
  enabled = true;
  created_at = 0;
}

abbrev own_mapping : TrapOidMapping
own_mapping = record generic_mapping { id = 2; vendor = "if-mib"; priority = negsuc 4 }

abbrev trap_db : TrapDb
trap_db = record { tables = empty_db; mappings = []; next_mapping = 1; traps = []; next_trap = 1 }

abbrev some_requests : List TrapRequest
some_requests =
    (record { op = create_mapping (some generic_mapping); at = 2000; faults = [] })
    ∷ (record { op = report "10.0.0.7" "IF-MIB::linkDown" [] 0; at = 3000; faults = [] })
    ∷ (record { op = report "10.0.0.7" "coldStart" [] 0; at = 4000; faults = false ∷ true ∷ [] })
    ∷ (record { op = incidents (poll_ok 7); at = 5000; faults = [] })
    ∷ (record { op = delete_mapping 1; at = 6000; faults = [] })
    ∷ []

run_traps-IsTrapSound_example : IsTrapSound (run_traps outside trap_db some_requests)
run_traps-IsTrapSound_example = run_traps-IsTrapSound outside trap_db some_requests (record {
  audited = record { rows = tt; unique = tt; trail = tt; logged_ids = tt };
  stored = tt;
})

abbrev cold_start : TrapClassification
cold_start = record {
  signal_kind = generic;
  title = "SNMP trap: coldStart";
  severity = "critical";
  recovery = false;
}

reported_is_open_example :
    (db' : Db) × (report_trap bare_os (some 7) cold_start 600 "{}" (sound empty_db)
      ≡ (ok tt, sound db'))
    × (any (is_trap_match (some 7) "SNMP trap: coldStart" 0 1000) db'.incidents ≡ true)
reported_is_open_example = reported_is_open bare_os (some 7) cold_start 600 "{}" empty_db refl

is_link_down : trap_signal_from_oid "IF-MIB::linkDown" ≡ link_down
unfolding trap_signal_from_oid trim_space to_lower contains
is_link_down = refl

is_bfd_down : trap_signal_from_oid "bfdDown.4" ≡ bfd_down
unfolding trap_signal_from_oid trim_space to_lower contains
is_bfd_down = refl

-- A link goes down, and its BFD session a minute later.
link_loss_is_one_example :
    let after =
      (report_trap bare_os
        (some 7)
        (default_trap_classification "IF-MIB::linkDown")
        600
        "{}"
        (sound empty_db)).1.db in
    length
      (report_trap bare_os
        (some 7)
        (default_trap_classification "bfdDown.4")
        600
        "{}"
        (sound (later_db 60000001000 after))).1.db.incidents
    ≡ length after.incidents
link_loss_is_one_example =
    link_loss_is_one bare_os (some 7) "IF-MIB::linkDown" "bfdDown.4" 600 "{}" "{}" empty_db
      60000001000 (inl is_link_down) (inr is_bfd_down) (omega arith)

abbrev link_up_again : TrapClassification
link_up_again = record cold_start { title = "Link recovery detected"; recovery = true }

recovery_closes_example :
    (db' : Db) × (report_trap bare_os (some 7) link_up_again 600 "{}" (sound empty_db)
      ≡ (ok tt, sound db'))
    × (any (is_open_trap_of 7 ("Link loss detected" ∷ [])) db'.incidents ≡ false)
    × (length db'.incidents ≡ 0)
recovery_closes_example = recovery_closes bare_os 7 link_up_again 600 "{}" empty_db refl
