-- ===== src/Discovery/Versions.antt =====
-- internal/domain/snmp.go.
use nms.Prelude.{◌||◌, String, Option, none, some, str_eq, trim_space, to_lower, if◌then◌else◌}

-- `none` is the error, which quotes the argument.
unfoldable pub normalize_snmp_version : String → Option String
normalize_snmp_version v =
    let s = to_lower (trim_space v) in
    if str_eq s "v1"
    then some "v1"
    else if str_eq s "v3"
    then some "v3"
    else if str_eq s "2c" || str_eq s "v2c" || str_eq s ""
    then some "v2c"
    else none

abbrev or_v2c : Option String → String
or_v2c none = "v2c"
or_v2c (some v) = v

unfoldable pub normalize_snmp_version_or_default : String → String
normalize_snmp_version_or_default v = or_v2c (normalize_snmp_version v)
