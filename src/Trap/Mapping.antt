-- ===== src/Trap/Mapping.antt =====
-- The table of trap_oid_mappings: CRUD (internal/repository/trap_oid_mappings.go) and the lookup of
-- trap.go. PostgreSQL's ILIKE, the server's environment and encoding/json are parameters, `Outside`.
use nms.Prelude.{
  ℕ, zero, suc, Bool, not, ◌&&◌, ◌||◌, List, [], ◌∷◌, ◌++◌, String, Option, none, some, ◌==◌,
  str_eq, trim_space, to_lower, index, any, ltb, select_where, ℤ, int_lt, order_by, first,
  if◌then◌else◌,
}
use nms.Config.{Os}
use nms.Sql.{Sql, pure, query}
use nms.Incident.Tables.{Db}
use nms.Trap.Classify.{TrapOidMappingRow}

pub record Outside : Type 0 where
  pub os : Os
  pub ilike : String → String → Bool
  -- `json.Marshal` of the variables, and of the details of an incident.
  pub vars_json : List (String × String) → String
  pub details_json : String → String → List (String × String) → String

pub record TrapOidMapping : Type 0 where
  pub id : ℕ
  pub vendor : String
  pub oid_pattern : String
  pub signal_kind : String
  pub title : String
  pub severity : String
  pub is_recovery : Bool
  pub priority : ℤ
  pub enabled : Bool
  pub created_at : ℕ

pub record Trap : Type 0 where
  pub id : ℕ
  pub device_ip : String
  pub oid : String
  pub uptime : ℕ
  pub trap_vars : String
  pub is_critical : Bool
  pub received_at : ℕ

-- The tables that the trap code reads and writes; `tables` are those of the incidents.
pub record TrapDb : Type 0 where
  pub tables : Db
  pub mappings : List TrapOidMapping
  pub next_mapping : ℕ
  pub traps : List Trap
  pub next_trap : ℕ

unfoldable pub normalize_trap_vendor : String → String
normalize_trap_vendor v = to_lower (trim_space v)

-- `add`: a vendor is appended once.
abbrev pub add_vendor : String → List String → List String
add_vendor v vendors =
    let s = normalize_trap_vendor v in
    if str_eq s "" || any (λ w. str_eq w s) vendors then vendors else vendors ++ (s ∷ [])

abbrev names_vendor : String → Bool
names_vendor key =
    str_eq key "vendor"
    || str_eq key "manufacturer"
    || str_eq key "enterprise"
    || str_eq key "enterprise_oid"
    || str_eq key "sysobjectid"
    || str_eq key "sysobjectid.0"

-- The loop over the variables, in the order in which Go visits the map.
vendors_of : List (String × String) → List String → List String
unfolding normalize_trap_vendor
vendors_of [] vendors = vendors
vendors_of ((k, v) ∷ vars) vendors =
    vendors_of vars
      (if names_vendor (to_lower (trim_space k)) then add_vendor v vendors else vendors)

-- `text[:n]`, for ASCII.
text_take : ℕ → String → String
text_take zero s = String.[]
text_take (suc n) String.[] = String.[]
text_take (suc n) (String.◌∷◌ c s) = String.◌∷◌ c (text_take n s)

abbrev oid_module : String → Option ℕ → List String → List String
oid_module oid none vendors = vendors
oid_module oid (some i) vendors = if ltb 0 i then add_vendor (text_take i oid) vendors else vendors

unfoldable pub trap_vendors_from_input : String → List (String × String) → List String
unfolding vendors_of normalize_trap_vendor text_take
trap_vendors_from_input oid vars =
    add_vendor "generic" (oid_module oid (index (trim_space oid) "::") (vendors_of vars []))

abbrev pub vendor_rank : List String → String → ℕ
vendor_rank [] vendor = 2
vendor_rank (v ∷ vs) vendor =
    if str_eq vendor v then 0 else if str_eq vendor "generic" then 1 else 2

-- `ORDER BY CASE vendor …, priority DESC, id ASC`.
unfoldable pub mapping_before : List String → TrapOidMapping → TrapOidMapping → Bool
mapping_before vendors a b =
    ltb (vendor_rank vendors a.vendor) (vendor_rank vendors b.vendor)
    || (vendor_rank vendors a.vendor == vendor_rank vendors b.vendor)
      && (int_lt b.priority a.priority || not (int_lt a.priority b.priority) && ltb a.id b.id)

-- `enabled = TRUE AND vendor IN (…) AND $1 ILIKE oid_pattern`.
unfoldable pub mapping_applies : Outside → String → List String → TrapOidMapping → Bool
mapping_applies out o vendors m =
    m.enabled && any (λ v. str_eq m.vendor v) vendors && out.ilike o m.oid_pattern

abbrev pub mapping_columns : Option TrapOidMapping → Option TrapOidMappingRow
mapping_columns none = none
mapping_columns (some m) = some (record {
  signal_kind = m.signal_kind;
  title = m.title;
  severity = m.severity;
  recovery = m.is_recovery;
})

-- The row that the statement selects.
unfoldable pub chosen_mapping :
    Outside → String → List (String × String) → List TrapOidMapping → Option TrapOidMapping
chosen_mapping out oid vars rows =
    let vendors = trap_vendors_from_input oid vars in
    first (
      order_by (mapping_before vendors)
        (select_where (mapping_applies out (trim_space (to_lower oid)) vendors) rows))

unfoldable pub trap_oid_mapping_lookup :
    Outside → String → List (String × String) → Sql TrapDb (Option TrapOidMappingRow)
trap_oid_mapping_lookup out oid vars =
    if str_eq (trim_space (to_lower oid)) ""
    then pure none
    else query (λ s. mapping_columns (chosen_mapping out oid vars s.mappings))
