-- ===== src/Itsm/Mapping.antt =====
-- The table of itsm_inbound_mappings: internal/infrastructure/postgres/itsm_inbound_mappings.go.
-- `lower(text)` of PostgreSQL is `to_lower`: the texts were lowered when they were stored.
use nms.Prelude.{
  ℕ, ◌+◌, Bool, not, ◌&&◌, ◌||◌, List, ◌∷◌, String, Option, none, some, ◌==◌, str_eq, trim_space,
  to_lower, ltb, find, update_where, delete_where, select_where, ℤ, pos, int_lt, int_or, order_by,
  first, length, if◌then◌else◌, true, false,
}
use nms.Prelude.Result.{
  Result, ok, err, mapping_input_required, mapping_id_required, mapped_target_required,
  invalid_mapped_status,
}
use nms.Sql.{Sql, pure, raise, lift, ◌>>=◌, statement, query}
use nms.Incident.Tables.{Db}

pub record ItsmMapping : Type 0 where
  pub id : ℕ
  pub provider : String
  pub external_status : String
  pub external_priority : String
  pub external_owner : String
  pub mapped_status : String
  pub mapped_assignee : String
  pub enabled : Bool
  pub priority : ℤ
  pub created_at : ℕ

-- The tables of the incidents, and that of the mappings.
pub record ItsmDb : Type 0 where
  pub tables : Db
  pub mappings : List ItsmMapping
  pub next_mapping : ℕ

unfoldable pub normalize_itsm_provider : String → String
normalize_itsm_provider v = let p = to_lower (trim_space v) in if str_eq p "" then "generic" else p

unfoldable pub normalize_mapped_incident_status : String → Result String
normalize_mapped_incident_status v =
    let s = to_lower (trim_space v) in
    if str_eq s ""
      || str_eq s "new"
      || str_eq s "acknowledged"
      || str_eq s "in_progress"
      || str_eq s "resolved"
      || str_eq s "closed"
    then ok s
    else err (invalid_mapped_status v)

abbrev provider_wanted : String → ItsmMapping → Bool
provider_wanted provider m =
    let p = trim_space provider in str_eq p "" || str_eq (to_lower m.provider) (to_lower p)

abbrev enabled_wanted : Option Bool → Bool → Bool
enabled_wanted none b = true
enabled_wanted (some true) b = b
enabled_wanted (some false) b = not b

-- `ORDER BY priority ASC, id ASC`.
unfoldable pub inbound_before : ItsmMapping → ItsmMapping → Bool
inbound_before a b =
    int_lt a.priority b.priority || not (int_lt b.priority a.priority) && ltb a.id b.id

unfoldable pub list_itsm_inbound_mappings : String → Option Bool → Sql ItsmDb (List ItsmMapping)
list_itsm_inbound_mappings provider enabled = query (λ s.
    order_by inbound_before (
      select_where (λ m. provider_wanted provider m && enabled_wanted enabled m.enabled)
        s.mappings))

-- The checks of creation and change, and the texts that are stored.
unfoldable pub checked_inbound : ItsmMapping → Sql ItsmDb ItsmMapping
checked_inbound input = do
  mapped ← lift (normalize_mapped_incident_status input.mapped_status)
  if str_eq mapped "" && str_eq (trim_space input.mapped_assignee) ""
      then raise mapped_target_required
      else pure (record input {
        provider = normalize_itsm_provider input.provider;
        external_status = to_lower (trim_space input.external_status);
        external_priority = to_lower (trim_space input.external_priority);
        external_owner = to_lower (trim_space input.external_owner);
        mapped_status = mapped;
        mapped_assignee = trim_space input.mapped_assignee;
        priority = int_or (pos 100) input.priority;
      })

abbrev pub add_inbound : ItsmMapping → ItsmDb → ItsmMapping × ItsmDb
add_inbound m s =
    let stored = record m { id = s.next_mapping; created_at = s.tables.now } in
    (stored, record s { mappings = stored ∷ s.mappings; next_mapping = s.next_mapping + 1 })

unfoldable pub create_itsm_inbound_mapping : Option ItsmMapping → Sql ItsmDb ItsmMapping
create_itsm_inbound_mapping none = raise mapping_input_required
create_itsm_inbound_mapping (some input) = do m ← checked_inbound input; statement (add_inbound m)

-- `UPDATE … RETURNING`; `none` is `sql.ErrNoRows`.
abbrev pub replace_inbound : ℕ → ItsmMapping → ItsmDb → Option ItsmMapping × ItsmDb
replace_inbound id m s =
    let rows =
      update_where (λ old. old.id == id)
        (λ old. record m { id = old.id; created_at = old.created_at }) s.mappings in
    (find (λ old. old.id == id) rows, record s { mappings = rows })

unfoldable pub update_itsm_inbound_mapping :
    ℕ → Option ItsmMapping → Sql ItsmDb (Option ItsmMapping)
update_itsm_inbound_mapping id input = if id == 0 then raise mapping_id_required else elim input [
  | none ↦ raise mapping_input_required
  | some m ↦ do checked ← checked_inbound m; statement (replace_inbound id checked)
]

unfoldable pub delete_itsm_inbound_mapping : ℕ → Sql ItsmDb Bool
delete_itsm_inbound_mapping id =
    if id == 0
    then raise mapping_id_required
    else statement (λ s. (
      ltb 0 (length (select_where (λ m. m.id == id) s.mappings)),
      record s { mappings = delete_where (λ m. m.id == id) s.mappings },
    ))

-- What the ticket says, with its texts lowered and trimmed.
pub record External : Type 0 where
  pub provider : String
  pub status : String
  pub priority : String
  pub owner : String

unfoldable pub external : String → String → String → String → External
external provider status priority owner = record {
  provider = normalize_itsm_provider provider;
  status = to_lower (trim_space status);
  priority = to_lower (trim_space priority);
  owner = to_lower (trim_space owner);
}

-- `column = '' OR lower(column) = $n`.
abbrev pub any_or : String → String → Bool
any_or column value = str_eq column "" || str_eq (to_lower column) value

unfoldable pub inbound_applies : External → ItsmMapping → Bool
inbound_applies e m =
    m.enabled
    && any_or m.provider e.provider
    && any_or m.external_status e.status
    && any_or m.external_priority e.priority
    && any_or m.external_owner e.owner

unfoldable pub chosen_inbound : External → List ItsmMapping → Option ItsmMapping
chosen_inbound e rows = first (order_by inbound_before (select_where (inbound_applies e) rows))

unfoldable pub resolve_itsm_inbound_mapping :
    String → String → String → String → Sql ItsmDb (Option ItsmMapping)
resolve_itsm_inbound_mapping provider status priority owner =
    query (λ s. chosen_inbound (external provider status priority owner) s.mappings)
