-- ===== src/Incident/Audit.antt =====
-- The audit trail of the incidents: `incident_transitions` against the rows of `incidents`.
pub mod Step
pub mod Write
pub mod Inbound
pub mod Batch
pub mod Resolve
use nms.Prelude.{
  ℕ, ◌+◌, ◌≤◌, ◌<◌, ◌≡◌, refl, inl, inr, Bool, true, false, List, [], ◌∷◌, String, Option, arith,
  ◌==◌, All, All-map, All-find, All-update_where, find, update_where, if◌then◌else◌, Bool-cases,
}
use nms.Incident.Status.{Status, new, name, IsStatus}
use nms.Incident.Path.{rank}
use nms.Incident.Tables.{
  IncidentRow, IncidentTransition, Db, new_row, add_row, log_transition, with_status,
}

-- The status to which the newest transition of an incident led; a new incident has none.
abbrev pub current_status : ℕ → List IncidentTransition → String
current_status id [] = "new"
current_status id (t ∷ ts) = if t.incident_id == id then t.to_status else current_status id ts

-- Each transition starts at the status to which the one before it led, and goes to a status that
-- is not earlier in the lifecycle.
abbrev pub IsTrail : List IncidentTransition → Type 0
IsTrail [] = Unit
IsTrail (t ∷ ts) =
    (t.from_status ≡ current_status t.incident_id ts)
    × ((a b : Status) × (t.from_status ≡ name a) × (t.to_status ≡ name b) × (rank a ≤ rank b))
    × IsTrail ts

-- The status of the row is the one that the log ends at.
abbrev pub RowAudited : List IncidentTransition → ℕ → IncidentRow → Type 0
RowAudited ts next r = (r.status ≡ current_status r.id ts) × (r.id < next) × IsStatus r.status

-- No later row has the id of an earlier one: the primary key.
abbrev pub UniqueIds : List IncidentRow → Type 0
UniqueIds [] = Unit
UniqueIds (r ∷ rs) = All (λ s. (s.id == r.id) ≡ false) rs × UniqueIds rs

pub record IsAudited (db : Db) : Type 0 where
  pub rows : All (RowAudited db.transitions db.next_id) db.incidents
  pub unique : UniqueIds db.incidents
  pub trail : IsTrail db.transitions
  pub logged_ids : All (λ t. t.incident_id < db.next_id) db.transitions

-- The transaction has read the row of `id`, at the status `from`.
pub record HasRead (id : ℕ) (from : String) (db : Db) : Type 0 where
  pub audited : IsAudited db
  pub in_range : id < db.next_id
  pub at_from : from ≡ current_status id db.transitions
  pub from_status : IsStatus from

-- The row of `id` has been moved to `to`, and the transition is still to be logged.
abbrev pub RowPending : ℕ → String → List IncidentTransition → ℕ → IncidentRow → Type 0
RowPending id to ts next r =
    (r.status ≡ (if id == r.id then to else current_status r.id ts))
    × (r.id < next)
    × IsStatus r.status

pub record IsPending (id : ℕ) (from to : String) (db : Db) : Type 0 where
  pub pending_rows : All (RowPending id to db.transitions db.next_id) db.incidents
  pub unique : UniqueIds db.incidents
  pub trail : IsTrail db.transitions
  pub logged_ids : All (λ t. t.incident_id < db.next_id) db.transitions
  pub in_range : id < db.next_id
  pub at_from : from ≡ current_status id db.transitions
  pub upward : (a b : Status) × (from ≡ name a) × (to ≡ name b) × (rank a ≤ rank b)

-- An update that keeps the ids keeps them unique.
pub UniqueIds-update_where :
    (p : IncidentRow → Bool) (f : IncidentRow → IncidentRow) (rs : List IncidentRow)
    → ((r : IncidentRow) → (f r).id ≡ r.id)
    → UniqueIds rs
    → UniqueIds (update_where p f rs)
UniqueIds-update_where p f [] k u = tt
UniqueIds-update_where p f (r ∷ rs) k u =
    let same : (if p r then f r else r).id ≡ r.id = ground (arith, k r) in
    (
      rw same (All-update_where (λ s. (s.id == r.id) ≡ false) p f rs (λ s q hit. rw (k s) q) u.0),
      UniqueIds-update_where p f rs k u.1,
    )

current_status_fresh :
    (n : ℕ) (ts : List IncidentTransition)
    → All (λ t. t.incident_id < n) ts
    → "new" ≡ current_status n ts
current_status_fresh n [] h = refl
current_status_fresh n (t ∷ ts) h = ground (arith, current_status_fresh n ts)

-- Inserting an incident.
pub add_row-IsAudited :
    (dev : Option ℕ) (who : Option String) (title severity source details : String) (db : Db)
    → IsAudited db
    → IsAudited (add_row (new_row dev who title severity source details db) db)
add_row-IsAudited dev who title severity source details db h = record {
  rows = (
    (current_status_fresh db.next_id db.transitions h.logged_ids, omega arith, (new, refl)),
    All-map (RowAudited db.transitions db.next_id) (RowAudited db.transitions (db.next_id + 1))
        db.incidents (λ r p. (p.0, omega arith, p.2)) h.rows,
  );
  unique = (
    All-map (RowAudited db.transitions db.next_id) (λ s. (s.id == db.next_id) ≡ false) db.incidents
        (λ r p. ground arith) h.rows,
    h.unique,
  );
  trail = h.trail;
  logged_ids =
      All-map (λ t. t.incident_id < db.next_id) (λ t. t.incident_id < db.next_id + 1) db.transitions
        (λ t p. omega arith) h.logged_ids;
}
