-- ===== src/Trap/Classify.antt =====
-- What a trap's object identifier says: the signal, and the title, severity and direction of the
-- incident. The first half of internal/repository/trap.go.
use Prim.Native.String.{◌++◌}
use nms.Prelude.{
  Bool, true, false, ◌||◌, String, str_eq, trim_space, to_lower, equal_fold, contains,
  if◌then◌else◌,
}

pub data TrapSignalKind : Type 0 where
  generic link_down link_up bfd_down bfd_up : TrapSignalKind

pub record TrapClassification : Type 0 where
  pub signal_kind : TrapSignalKind
  pub title : String
  pub severity : String
  pub recovery : Bool

-- The columns that the lookup selects.
pub record TrapOidMappingRow : Type 0 where
  pub signal_kind : String
  pub title : String
  pub severity : String
  pub recovery : Bool

unfoldable pub trap_signal_from_oid : String → TrapSignalKind
trap_signal_from_oid oid =
    let o = to_lower (trim_space oid) in
    if contains o "linkdown"
    then link_down
    else if contains o "linkup"
    then link_up
    else if contains o "bfddown" || contains o "bfd.down" || contains o "bfd_down"
    then bfd_down
    else if contains o "bfdup" || contains o "bfd.up" || contains o "bfd_up"
    then bfd_up
    else generic

unfoldable pub trap_signal_kind_from_string : String → TrapSignalKind
trap_signal_kind_from_string v =
    let s = to_lower (trim_space v) in
    if str_eq s "link_down"
    then link_down
    else if str_eq s "link_up"
    then link_up
    else if str_eq s "bfd_down"
    then bfd_down
    else if str_eq s "bfd_up"
    then bfd_up
    else generic

abbrev severity_by : TrapSignalKind → String → String
severity_by link_down oid = "critical"
severity_by bfd_down oid = "critical"
severity_by link_up oid = "info"
severity_by bfd_up oid = "info"
severity_by generic oid =
    if contains (to_lower (trim_space oid)) "coldstart" then "critical" else "warning"

unfoldable pub trap_incident_severity : String → String
trap_incident_severity oid = severity_by (trap_signal_from_oid oid) oid

abbrev title_by : TrapSignalKind → String → String
title_by link_down oid = "Link loss detected"
title_by bfd_down oid = "Link loss detected"
title_by link_up oid = "Link recovery detected"
title_by bfd_up oid = "Link recovery detected"
title_by generic oid =
    if str_eq (trim_space oid) "" || equal_fold (trim_space oid) "unknown"
    then "SNMP trap: unknown"
    else "SNMP trap: " ++ trim_space oid

unfoldable pub trap_incident_title : String → String
trap_incident_title oid = title_by (trap_signal_from_oid oid) oid

abbrev recovery_by : TrapSignalKind → Bool
recovery_by link_up = true
recovery_by bfd_up = true
recovery_by _ = false

unfoldable pub trap_is_recovery_signal : String → Bool
trap_is_recovery_signal oid = recovery_by (trap_signal_from_oid oid)

unfoldable pub default_trap_classification : String → TrapClassification
default_trap_classification oid = record {
  signal_kind = trap_signal_from_oid oid;
  title = trap_incident_title oid;
  severity = trap_incident_severity oid;
  recovery = trap_is_recovery_signal oid;
}

unfoldable pub normalize_incident_severity_input : String → String
normalize_incident_severity_input v =
    let s = to_lower (trim_space v) in
    if str_eq s "critical" then "critical" else if str_eq s "info" then "info" else "warning"

unfoldable pub classification_from_mapping : String → TrapOidMappingRow → TrapClassification
classification_from_mapping oid row =
    let title = trim_space row.title in
    record {
      signal_kind = trap_signal_kind_from_string row.signal_kind;
      title = if str_eq title "" then (default_trap_classification oid).title else title;
      severity = normalize_incident_severity_input row.severity;
      recovery = row.recovery;
    }
