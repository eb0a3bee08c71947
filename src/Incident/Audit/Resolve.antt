-- ===== src/Incident/Audit/Resolve.antt =====
-- Escalation, and both ways in which the incidents of a device are resolved, keep the audit trail.
use nms.Prelude.{
  ℕ, ◌+◌, ◌≤◌, ◌≡◌, refl, Bool, true, false, List, [], ◌∷◌, String, arith, ◌==◌, str_eq, trim_space,
  All, All-map, All-select_where, select_where, Bool-cases, inl, inr,
}
use nms.Sql.Rules.{
  Ensures, Keeps, Ensures-pure, Ensures-exec, Ensures-query, Ensures-bind, Ensures-if, Ensures-lift,
  Keeps-bind-lift, Keeps-pure, Keeps-if,
}
use nms.Incident.Status.{Status, new, resolved, closed, name, IsStatus}
use nms.Incident.Path.{rank}
use nms.Incident.Tables.{IncidentRow, Db, insert_incident_transition, log_transition}
use nms.Incident.Touch.{is_open}
use nms.Incident.Batch.{
  take_over, keep_status, resolve_row, to_resolved, is_open_of, resolve_loop,
  escalate_unacked_incidents_with_filter, resolve_open_incidents_by_source,
  resolve_open_incidents_by_source_tx,
}
use nms.Incident.Audit.{RowAudited, UniqueIds, IsAudited, IsPending}
use nms.Incident.Audit.Step.{set_status-IsPending, log-HasRead}
use nms.Incident.Audit.Batch.{update_and_log-Keeps}

open_rank : (a : Status) → is_open (name a) ≡ true → rank a ≤ 3
unfolding is_open
open_rank closed h = cc
open_rank new h = omega arith
open_rank _ h = omega arith

-- An open incident may be resolved.
pub resolve_up :
    (s : String)
    → is_open s ≡ true
    → IsStatus s
    → (a b : Status) × (s ≡ name a) × ("resolved" ≡ name b) × (rank a ≤ rank b)
resolve_up s o (a, e) = (a, resolved, e, refl, open_rank a (rw e at o))

open_of :
    (device : ℕ) (source : String) (r : IncidentRow)
    → is_open_of device source r ≡ true
    → is_open r.status ≡ true
unfolding is_open_of
open_of device source r h = ground arith

-- Escalating the incidents that nobody acknowledged.
pub escalate-Keeps :
    (older : ℕ) (target by comment severity source : String) (only : Bool)
    → Keeps IsAudited
        (escalate_unacked_incidents_with_filter older target by comment severity source only)
unfolding escalate_unacked_incidents_with_filter
escalate-Keeps older target by comment severity source only =
    Keeps-if (older == 0) _ _ (λ _. Keeps-pure 0)
      (λ _.
        Keeps-if (str_eq (trim_space target) "") _ _ (λ _. Keeps-pure 0)
          (λ _. Keeps-bind-lift _ _ (λ sv _. Keeps-bind-lift _ _ (λ src _.
            update_and_log-Keeps _ (take_over (trim_space target)) keep_status _ _ (λ db. record {
              same_id = λ r. refl;
              moved = λ r. refl;
              upward = λ r hit known. (known.0, known.0, known.1, known.1, omega arith);
            })))))

-- Resolving in one statement.
pub resolve_open_incidents_by_source-Keeps :
    (device : ℕ) (source by comment : String)
    → Keeps IsAudited (resolve_open_incidents_by_source device source by comment)
unfolding resolve_open_incidents_by_source
resolve_open_incidents_by_source-Keeps device source by comment =
    Keeps-if (device == 0) _ _ (λ _. Keeps-pure 0)
      (λ _. Keeps-bind-lift _ _ (λ src _.
        update_and_log-Keeps (λ db. is_open_of device src) resolve_row to_resolved _ _
          (λ db. record {
            same_id = λ r. refl;
            moved = λ r. refl;
            upward = λ r hit known. resolve_up r.status (open_of device src r hit) known;
          })))

-- The rows that the loop still has before it.
abbrev pub Items : List IncidentRow → Db → Type 0
Items items db =
    All (λ r. RowAudited db.transitions db.next_id r × (is_open r.status ≡ true)) items
    × UniqueIds items

abbrev Ready : List IncidentRow → Db → Type 0
Ready items db = IsAudited db × Items items db

-- Logging a transition of another row leaves them as they were.
Items-log :
    (id : ℕ) (from to by comment : String) (db : Db) (items : List IncidentRow)
    → All (λ s. (s.id == id) ≡ false) items
    → All (λ r. RowAudited db.transitions db.next_id r × (is_open r.status ≡ true)) items
    → All
        (λ r.
          RowAudited (log_transition id from to by comment db).transitions db.next_id r
          × (is_open r.status ≡ true))
        items
Items-log id from to by comment db [] u h = tt
Items-log id from to by comment db (r ∷ rs) u h = (
  ((ground (arith, u.0, h.0.0.0), h.0.0.1, h.0.0.2), h.0.1),
  Items-log id from to by comment db rs u.1 h.1,
)

pub resolve_loop-IsAudited :
    (by comment : String) (n : ℕ) (items : List IncidentRow)
    → Ensures (Ready items) (resolve_loop by comment n items) (λ _. IsAudited)
unfolding resolve_loop insert_incident_transition
resolve_loop-IsAudited by comment n [] = Ensures-pure _ n (λ db p. p.0)
resolve_loop-IsAudited by comment n (it ∷ items) =
    Ensures-bind (λ _ db. IsPending it.id it.status "resolved" db × Items (it ∷ items) db) _
      (Ensures-exec _ _ (λ db p. (
        set_status-IsPending it.id it.status "resolved" (resolve_row db.now) db (λ r. refl)
            (λ r row hit. (refl, refl)) (resolve_up it.status p.1.0.0.1 p.1.0.0.0.2)
            (record {
              audited = p.0;
              in_range = p.1.0.0.0.1;
              at_from = p.1.0.0.0.0;
              from_status = p.1.0.0.0.2;
            }),
        p.1,
      )))
      (λ _.
        Ensures-bind (λ _. Ready items) _
          (Ensures-exec _ _ (λ db p. (
            (log-HasRead it.id it.status "resolved" by comment db p.0).audited,
            (Items-log it.id it.status "resolved" by comment db items p.1.1.0 p.1.0.1, p.1.1.1),
          )))
          (λ _. resolve_loop-IsAudited by comment (n + 1) items))

UniqueIds-select_where :
    (p : IncidentRow → Bool) (rs : List IncidentRow) → UniqueIds rs → UniqueIds (select_where p rs)
UniqueIds-select_where p [] u = tt
UniqueIds-select_where p (r ∷ rs) u = elim (Bool-cases (p r)) [
  | inl hit ↦ rw hit (
    All-map _ _ (select_where p rs) (λ s q. q.0)
        (All-select_where (λ s. (s.id == r.id) ≡ false) p rs u.0),
    UniqueIds-select_where p rs u.1,
  )
  | inr miss ↦ rw miss (UniqueIds-select_where p rs u.1)
]

selected-Items :
    (device : ℕ) (source : String) (db : Db)
    → IsAudited db
    → Items (select_where (is_open_of device source) db.incidents) db
selected-Items device source db h = (
  All-map _ _ (select_where (is_open_of device source) db.incidents)
      (λ r q. (q.0, open_of device source r q.1))
      (All-select_where (RowAudited db.transitions db.next_id) (is_open_of device source)
        db.incidents h.rows),
  UniqueIds-select_where _ db.incidents h.unique,
)

-- Resolving row by row, inside the transaction of a poll.
pub resolve_tx-IsAudited :
    (device : ℕ) (source by comment : String)
    → Ensures IsAudited
        (resolve_open_incidents_by_source_tx device source by comment)
        (λ _. IsAudited)
unfolding resolve_open_incidents_by_source_tx
resolve_tx-IsAudited device source by comment =
    Ensures-if (device == 0) _ _ (λ _. Ensures-pure _ 0 (λ db p. p))
      (λ _.
        Ensures-bind (λ _. IsAudited) _ (Ensures-lift _ _ (λ src db p e. p))
          (λ src.
            Ensures-bind Ready _ (Ensures-query _ _ (λ db p. (p, selected-Items device src db p)))
              (λ items. resolve_loop-IsAudited _ _ 0 items)))
