-- ===== src/Incident/Audit/Step.antt =====
-- One incident at a time: a status or an assignee is written, and the transition is logged.
use nms.Prelude.{
  ℕ, ◌≤◌, ◌≡◌, ◌∙◌, inl, inr, true, List, [], ◌∷◌, String, some, arith, ◌==◌, All, All-find, find,
  update_where, if◌then◌else◌, Bool-cases,
}
use nms.Incident.Status.{Status, name, IsStatus}
use nms.Incident.Path.{rank}
use nms.Incident.Tables.{IncidentRow, IncidentTransition, Db, log_transition}
use nms.Incident.Audit.{
  RowAudited, RowPending, IsAudited, HasRead, IsPending, UniqueIds-update_where,
}

abbrev set_rows : ℕ → (IncidentRow → IncidentRow) → Db → Db
set_rows id f db = record db { incidents = update_where (λ r. r.id == id) f db.incidents }

-- `f` leaves the ids alone, and gives the rows of `id` the status `to`.
abbrev Moves : ℕ → String → (IncidentRow → IncidentRow) → List IncidentTransition → ℕ → Type 0
Moves id to f ts n =
    (r : IncidentRow)
    → RowAudited ts n r
    → (r.id == id) ≡ true
    → ((f r).id ≡ r.id) × ((f r).status ≡ to)

pending_row :
    (id : ℕ) (to : String) (f : IncidentRow → IncidentRow) (ts : List IncidentTransition) (n : ℕ)
    (r : IncidentRow)
    → Moves id to f ts n
    → IsStatus to
    → RowAudited ts n r
    → RowPending id to ts n (if r.id == id then f r else r)
pending_row id to f ts n r k st h = elim (Bool-cases (r.id == id)) [
  | inl hit ↦
      let (same, moved) = k r h hit in
      rw hit (ground (arith, same, moved), rw same h.1, (st.0, moved ∙ st.1))
  | inr miss ↦ rw miss (ground arith, h.1, h.2)
]

pending_where :
    (id : ℕ) (to : String) (f : IncidentRow → IncidentRow) (ts : List IncidentTransition) (n : ℕ)
    (rs : List IncidentRow)
    → Moves id to f ts n
    → IsStatus to
    → All (RowAudited ts n) rs
    → All (RowPending id to ts n) (update_where (λ r. r.id == id) f rs)
pending_where id to f ts n [] k st h = tt
pending_where id to f ts n (r ∷ rs) k st h =
    (pending_row id to f ts n r k st h.0, pending_where id to f ts n rs k st h.1)

-- Writing a status, before it is logged.
pub set_status-IsPending :
    (id : ℕ) (from to : String) (f : IncidentRow → IncidentRow) (db : Db)
    → ((r : IncidentRow) → (f r).id ≡ r.id)
    → Moves id to f db.transitions db.next_id
    → ((a b : Status) × (from ≡ name a) × (to ≡ name b) × (rank a ≤ rank b))
    → HasRead id from db
    → IsPending id from to (set_rows id f db)
set_status-IsPending id from to f db ids k up h = record {
  pending_rows =
      pending_where id to f db.transitions db.next_id db.incidents k (up.1, up.3) h.audited.rows;
  unique = UniqueIds-update_where _ f db.incidents ids h.audited.unique;
  trail = h.audited.trail;
  logged_ids = h.audited.logged_ids;
  in_range = h.in_range;
  at_from = h.at_from;
  upward = up;
}

-- Logging it: the trail grows by the step, and the row agrees with it again.
pub log-HasRead :
    (id : ℕ) (from to by comment : String) (db : Db)
    → IsPending id from to db
    → HasRead id to (log_transition id from to by comment db)
log-HasRead id from to by comment db h = record {
  audited = record {
    rows = h.pending_rows;
    unique = h.unique;
    trail = (h.at_from, h.upward, h.trail);
    logged_ids = (h.in_range, h.logged_ids);
  };
  in_range = h.in_range;
  at_from = ground arith;
  from_status = (h.upward.1, h.upward.3);
}

-- What the SELECT found.
pub find-HasRead :
    (id : ℕ) (db : Db) (r : IncidentRow)
    → IsAudited db
    → find (λ x. x.id == id) db.incidents ≡ some r
    → HasRead id r.status db
find-HasRead id db r h e =
    let (row, hit) =
      All-find (RowAudited db.transitions db.next_id) (λ x. x.id == id) db.incidents r h.rows e in
    let same : r.id ≡ id = ground arith in
    record {
      audited = h;
      in_range = rw (← same) row.1;
      at_from = rw (← same) row.0;
      from_status = row.2;
    }
