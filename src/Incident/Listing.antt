-- ===== src/Incident/Listing.antt =====
-- ListIncidents, ListIncidentsPage and ListIncidentTransitions of incident_read_repo.go.
use nms.Prelude.{
  ℕ, ◌+◌, ◌≤◌, ◌≡◌, Bool, true, false, ◌&&◌, ◌||◌, List, [], ◌∷◌, map, String, Option, none, some,
  ◌==◌, arith, str_eq, trim_space, ltb, length, take, select_where, order_by, All, All-order_by,
  All-select_where, All-Mem, Mem, IsBefore, IsOrdered, order_by-IsOrdered, if◌then◌else◌, zero, suc,
}
use nms.Prelude.Result.{id_required}
use nms.Sql.{Sql, pure, raise, lift, ◌>>=◌, query}
use nms.Incident.Status.{normalize_incident_status, normalize_incident_severity}
use nms.Incident.Tables.{
  IncidentRow, IncidentTransition, Incident, Db, trimmed, trimmed_non_empty, device_address,
}
use nms.Incident.Batch.{normalize_filter}

pub record IncidentListPage : Type 0 where
  pub items : List IncidentRow
  pub more : Bool

-- `scanIncidentListRow`.
abbrev scan_incident_list_row : Db → IncidentRow → Incident
scan_incident_list_row db r = record {
  row = record r { assignee = trimmed r.assignee };
  device_ip = trimmed_non_empty (device_address r.device_id db.devices);
}

-- What the API gets for a page.
pub record ScannedPage : Type 0 where
  pub incidents : List Incident
  pub more : Bool

abbrev scan_page : Db → IncidentListPage → ScannedPage
scan_page db page = record {
  incidents = map (scan_incident_list_row db) page.items;
  more = page.more;
}

-- The filters; a device that is not positive, and a blank text, filter nothing.
pub record ListFilter : Type 0 where
  pub device_id : ℕ
  pub status : String
  pub severity : String
  pub cursor : Option (ℕ × ℕ)

abbrev pub of_device : ℕ → Option ℕ → Bool
of_device zero dev = true
of_device (suc d) none = false
of_device (suc d) (some e) = e == suc d

-- `(i.updated_at, i.id) < ($n, $m)`.
abbrev pub under : Option (ℕ × ℕ) → IncidentRow → Bool
under none r = true
under (some (at, id)) r = ltb r.updated_at at || r.updated_at == at && ltb r.id id

unfoldable pub is_listed : ListFilter → IncidentRow → Bool
is_listed f r =
    of_device f.device_id r.device_id
    && (str_eq (trim_space f.status) "" || str_eq r.status f.status)
    && (str_eq (trim_space f.severity) "" || str_eq r.severity f.severity)
    && under f.cursor r

-- `ORDER BY i.updated_at DESC, i.id DESC`.
unfoldable pub newest_first : IncidentRow → IncidentRow → Bool
newest_first a b = ltb b.updated_at a.updated_at || a.updated_at == b.updated_at && ltb b.id a.id

-- One row more than the page holds is asked for.
unfoldable pub page_of : ℕ → List IncidentRow → IncidentListPage
page_of limit rows = record { items = take limit rows; more = ltb limit (length rows) }

abbrev pub limit_or : ℕ → ℕ → ℕ → ℕ
limit_or most usual limit = if limit == 0 || ltb most limit then usual else limit

-- Both parts of the cursor are given, and its id is positive.
abbrev cursor_of : Option ℕ → Option ℕ → Option (ℕ × ℕ)
cursor_of (some at) (some id) = if id == 0 then none else some (at, id)
cursor_of _ _ = none

unfoldable pub select_page : ℕ → ListFilter → Db → IncidentListPage
select_page limit f db =
    page_of limit
      (take (limit + 1) (order_by newest_first (select_where (is_listed f) db.incidents)))

unfoldable pub list_incidents_page :
    ℕ → ℕ → String → String → Option ℕ → Option ℕ → Sql Db ScannedPage
list_incidents_page limit device status severity at id = do
  s ← lift (normalize_filter normalize_incident_status status)
  sv ← lift (normalize_filter normalize_incident_severity severity)
  query (λ db. scan_page db (
      select_page (limit_or 5000 200 limit)
        (record { device_id = device; status = s; severity = sv; cursor = cursor_of at id }) db))

unfoldable pub list_incidents : ℕ → ℕ → String → String → Sql Db (List Incident)
list_incidents limit device status severity = do
  page ← list_incidents_page limit device status severity none none
  pure page.incidents

abbrev later_change : IncidentTransition → IncidentTransition → Bool
later_change a b = ltb b.changed_at a.changed_at

unfoldable pub list_incident_transitions : ℕ → ℕ → Sql Db (List IncidentTransition)
list_incident_transitions id limit =
    if id == 0
    then raise id_required
    else query (λ db.
      take (limit_or 1000 100 limit)
        (order_by later_change (select_where (λ t. t.incident_id == id) db.transitions)))

pub newest_first-IsBefore : IsBefore newest_first
unfolding newest_first
newest_first-IsBefore = record {
  not_itself = λ a. ground arith;
  one_way = λ a b h. ground arith;
  through = λ a b c h k. ground arith;
}

All-take : (P : IncidentRow → Type 0) (n : ℕ) (rs : List IncidentRow) → All P rs → All P (take n rs)
All-take P zero rs h = tt
All-take P (suc n) [] h = tt
All-take P (suc n) (r ∷ rs) h = (h.0, All-take P n rs h.1)

take-IsOrdered :
    (n : ℕ) (rs : List IncidentRow) → IsOrdered newest_first rs → IsOrdered newest_first (take n rs)
take-IsOrdered zero rs h = tt
take-IsOrdered (suc n) [] h = tt
take-IsOrdered (suc n) (r ∷ rs) h = (All-take _ n rs h.0, take-IsOrdered n rs h.1)

length-take_most : (n : ℕ) (rs : List IncidentRow) → length (take n rs) ≤ n
length-take_most zero rs = omega arith
length-take_most (suc n) [] = omega arith
length-take_most (suc n) (r ∷ rs) = let few = length-take_most n rs in omega arith

-- A page holds no more rows than its limit, each a row of the table that passes the filters and
-- lies past the cursor, from the newest to the oldest.
pub page_is_sound :
    (limit : ℕ) (f : ListFilter) (db : Db)
    → (length (select_page limit f db).items ≤ limit)
      × All (λ r. Mem r db.incidents × (is_listed f r ≡ true)) (select_page limit f db).items
      × IsOrdered newest_first (select_page limit f db).items
unfolding select_page page_of
page_is_sound limit f db =
    let rows = order_by newest_first (select_where (is_listed f) db.incidents) in
    (
      length-take_most limit (take (limit + 1) rows),
      All-take _ limit (take (limit + 1) rows) (
          All-take _ (limit + 1) rows (
            All-order_by _ newest_first (select_where (is_listed f) db.incidents) (
              All-select_where (λ r. Mem r db.incidents) (is_listed f) db.incidents
                (All-Mem db.incidents)))),
      take-IsOrdered limit (take (limit + 1) rows) (
          take-IsOrdered (limit + 1) rows (
            order_by-IsOrdered newest_first newest_first-IsBefore
              (select_where (is_listed f) db.incidents))),
    )
