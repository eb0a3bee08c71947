-- ===== src/Trap/Crud.antt =====
-- Listing, creating, changing and deleting mappings (internal/repository/trap_oid_mappings.go), and
-- listing and storing traps (trap.go).
use nms.Prelude.{
  ℕ, ◌+◌, Bool, true, false, not, ◌&&◌, ◌||◌, List, [], ◌∷◌, String, Option, none, some, ◌==◌,
  str_eq, trim_space, to_lower, take, any, ltb, find, update_where, delete_where, select_where, pos,
  int_lt, int_or, order_by, length, if◌then◌else◌,
}
use nms.Prelude.Result.{
  Result, ok, err, title_required, invalid_severity, mapping_input_required, mapping_id_required,
  oid_pattern_required, invalid_signal_kind,
}
use nms.Sql.{Sql, pure, raise, lift, ◌>>=◌, statement, query, exec}
use nms.Trap.Mapping.{Outside, TrapOidMapping, Trap, TrapDb}

unfoldable pub allowed_trap_signal_kinds : List String
allowed_trap_signal_kinds = "generic" ∷ "link_down" ∷ "link_up" ∷ "bfd_down" ∷ "bfd_up" ∷ []

unfoldable pub normalize_trap_mapping_signal_kind : String → Result String
unfolding allowed_trap_signal_kinds
normalize_trap_mapping_signal_kind v =
    let s = to_lower (trim_space v) in
    if any (λ k. str_eq k s) allowed_trap_signal_kinds then ok s else err (invalid_signal_kind v)

unfoldable pub normalize_trap_mapping_severity : String → Result String
normalize_trap_mapping_severity v =
    let s = to_lower (trim_space v) in
    if str_eq s "critical" || str_eq s "warning" || str_eq s "info"
    then ok s
    else err (invalid_severity v)

abbrev vendor_wanted : String → TrapOidMapping → Bool
vendor_wanted vendor m = let v = trim_space vendor in str_eq v "" || str_eq m.vendor (to_lower v)

abbrev pub enabled_wanted : Option Bool → Bool → Bool
enabled_wanted none b = true
enabled_wanted (some true) b = b
enabled_wanted (some false) b = not b

-- `ORDER BY priority DESC, id ASC`.
unfoldable pub listed_before : TrapOidMapping → TrapOidMapping → Bool
listed_before a b =
    int_lt b.priority a.priority || not (int_lt a.priority b.priority) && ltb a.id b.id

unfoldable pub list_oid_mappings : String → Option Bool → Sql TrapDb (List TrapOidMapping)
list_oid_mappings vendor enabled = query (λ s.
    order_by listed_before
      (select_where (λ m. vendor_wanted vendor m && enabled_wanted enabled m.enabled) s.mappings))

abbrev vendor_or_generic : String → String
vendor_or_generic v = let s = to_lower (trim_space v) in if str_eq s "" then "generic" else s

-- The checks of CreateOIDMapping and UpdateOIDMapping, in their order, and the texts that are stored.
unfoldable pub checked_mapping : TrapOidMapping → Sql TrapDb TrapOidMapping
checked_mapping input =
    if str_eq (to_lower (trim_space input.oid_pattern)) "" then raise oid_pattern_required else do
      kind ← lift (normalize_trap_mapping_signal_kind input.signal_kind)
      if str_eq (trim_space input.title) "" then raise title_required else do
        severity ← lift (normalize_trap_mapping_severity input.severity)
        pure (record input {
          vendor = vendor_or_generic input.vendor;
          oid_pattern = to_lower (trim_space input.oid_pattern);
          signal_kind = kind;
          title = trim_space input.title;
          severity = severity;
          priority = int_or (pos 100) input.priority;
        })

abbrev pub add_mapping : TrapOidMapping → TrapDb → TrapOidMapping × TrapDb
add_mapping m s =
    let stored = record m { id = s.next_mapping; created_at = s.tables.now } in
    (stored, record s { mappings = stored ∷ s.mappings; next_mapping = s.next_mapping + 1 })

unfoldable pub create_oid_mapping : Option TrapOidMapping → Sql TrapDb TrapOidMapping
create_oid_mapping none = raise mapping_input_required
create_oid_mapping (some input) = do m ← checked_mapping input; statement (add_mapping m)

abbrev pub replaced : TrapOidMapping → TrapOidMapping → TrapOidMapping
replaced m old = record m { id = old.id; created_at = old.created_at }

-- `UPDATE … RETURNING`; `none` is `sql.ErrNoRows`.
abbrev pub replace_mapping : ℕ → TrapOidMapping → TrapDb → Option TrapOidMapping × TrapDb
replace_mapping id m s =
    let rows = update_where (λ old. old.id == id) (replaced m) s.mappings in
    (find (λ old. old.id == id) rows, record s { mappings = rows })

unfoldable pub update_oid_mapping : ℕ → Option TrapOidMapping → Sql TrapDb (Option TrapOidMapping)
update_oid_mapping id input = if id == 0 then raise mapping_id_required else elim input [
  | none ↦ raise mapping_input_required
  | some m ↦ do checked ← checked_mapping m; statement (replace_mapping id checked)
]

abbrev pub remove_mapping : ℕ → TrapDb → Bool × TrapDb
remove_mapping id s = (
  ltb 0 (length (select_where (λ m. m.id == id) s.mappings)),
  record s { mappings = delete_where (λ m. m.id == id) s.mappings },
)

unfoldable pub delete_oid_mapping : ℕ → Sql TrapDb Bool
delete_oid_mapping id = if id == 0 then raise mapping_id_required else statement (remove_mapping id)

-- `ORDER BY received_at DESC LIMIT $1`.
abbrev pub later_trap : Trap → Trap → Bool
later_trap a b = ltb b.received_at a.received_at

unfoldable pub list_traps : ℕ → Sql TrapDb (List Trap)
list_traps limit = query (λ s. take limit (order_by later_trap s.traps))

unfoldable pub traps_by_device : String → ℕ → Sql TrapDb (List Trap)
traps_by_device ip limit =
    query
      (λ s. take limit (order_by later_trap (select_where (λ t. str_eq t.device_ip ip) s.traps)))

abbrev add_trap : String → String → ℕ → String → Bool → TrapDb → TrapDb
add_trap ip oid uptime vars critical s = record s {
  traps =
      (record {
        id = s.next_trap;
        device_ip = ip;
        oid = oid;
        uptime = uptime;
        trap_vars = vars;
        is_critical = critical;
        received_at = s.tables.now;
      })
      ∷ s.traps;
  next_trap = s.next_trap + 1;
}

unfoldable pub insert_trap :
    Outside → String → String → ℕ → List (String × String) → Bool → Sql TrapDb (Unit {0})
insert_trap out ip oid uptime vars critical =
    exec
      (add_trap ip (if str_eq oid "" then "unknown" else oid) uptime (out.vars_json vars) critical)
