-- ===== src/Incident/Outcome.antt =====
-- What TransitionIncidentStatus does when the driver refuses no statement, on every branch.
use mathlib.Core.Option
use nms.Prelude.{
  ℕ, ◌+◌, ◌≤◌, ◌<◌, ◌≡◌, refl, sym, ap, ◌∙◌, inl, inr, true, false, List, [], ◌∷◌, String, Option,
  none, some, arith, ◌==◌, str_eq, eq_iff, find, update_where, length, if◌then◌else◌, Bool-cases,
}
use nms.Prelude.Result.{Error, ok, err, already_in_status, invalid_transition}
use nms.Sql.{Conn, raise, execute}
use nms.Incident.Status.{Status, name, incident_status_path}
use nms.Incident.Path.{rank, IsPath, incident_status_path-IsPath, path_backward, canonical}
use nms.Incident.Tables.{
  IncidentRow, IncidentTransition, Db, with_status, log_transition, update_incident_status,
  insert_incident_transition, select_incident,
}
use nms.Incident.Write.{transition_steps, walk_path, transition_row, transition_tx}

-- A connection whose driver refuses nothing.
abbrev pub sound : Db → Conn Db
sound db = record { db = db; faults = [] }

abbrev pub row_of : ℕ → Db → Option IncidentRow
row_of id db = find (λ r. r.id == id) db.incidents

abbrev status_in : Option IncidentRow → Option String
status_in none = none
status_in (some r) = some r.status

abbrev pub status_at : ℕ → Db → Option String
status_at id db = status_in (row_of id db)

-- The tables after one step, and after a path.
abbrev step_to : ℕ → String → String → String → String → Db → Db
step_to id by comment prev step db = log_transition id prev step by comment (record db {
  incidents = update_where (λ r. r.id == id) (with_status step db.now) db.incidents;
})

abbrev walk : ℕ → String → String → String → List String → Db → Db
walk id by comment prev [] db = db
walk id by comment prev (s ∷ ss) db = walk id by comment s ss (step_to id by comment prev s db)

-- One entry for each step of a path, the newest first.
abbrev pub entries :
    ℕ
    → String
    → String
    → ℕ
    → String
    → List String
    → List IncidentTransition
    → List IncidentTransition
entries id by comment now prev [] ts = ts
entries id by comment now prev (s ∷ ss) ts = entries id by comment now s ss (
    record {
      incident_id = id;
      from_status = prev;
      to_status = s;
      changed_by = by;
      comment = comment;
      changed_at = now;
    }
    ∷ ts)

steps_succeed :
    (id : ℕ) (by comment prev : String) (steps : List String) (to : String) (db : Db)
    → IsPath prev steps to
    → transition_steps id by comment prev steps (sound db)
      ≡ (ok tt, sound (walk id by comment prev steps db))
unfolding transition_steps execute update_incident_status insert_incident_transition
steps_succeed id by comment prev [] to db p = refl
steps_succeed id by comment prev (s ∷ ss) to db p =
    rw p.0 (steps_succeed id by comment s ss to (step_to id by comment prev s db) p.1)

find-update_where :
    (id : ℕ) (f : IncidentRow → IncidentRow) (rs : List IncidentRow)
    → ((r : IncidentRow) → (f r).id ≡ r.id)
    → find (λ r. r.id == id) (update_where (λ r. r.id == id) f rs)
      ≡ Option.map f (find (λ r. r.id == id) rs)
find-update_where id f [] k = refl
find-update_where id f (r ∷ rs) k = elim (Bool-cases (r.id == id)) [
  | inl hit ↦ rw (hit, k r, hit)
  | inr miss ↦ rw (miss, miss) (find-update_where id f rs k)
]

find-update_other :
    (id j : ℕ) (f : IncidentRow → IncidentRow) (rs : List IncidentRow)
    → ((r : IncidentRow) → (f r).id ≡ r.id)
    → (j == id) ≡ false
    → find (λ r. r.id == j) (update_where (λ r. r.id == id) f rs) ≡ find (λ r. r.id == j) rs
find-update_other id j f [] k ne = refl
find-update_other id j f (r ∷ rs) k ne = ground (arith, k r, find-update_other id j f rs k ne)

status-map :
    (s prev : String) (now : ℕ) (o : Option IncidentRow)
    → status_in o ≡ some prev
    → status_in (Option.map (with_status s now) o) ≡ some s
status-map s prev now none h = cc
status-map s prev now (some r) h = refl

walk-status :
    (id : ℕ) (by comment prev : String) (steps : List String) (to : String) (db : Db)
    → IsPath prev steps to
    → status_at id db ≡ some prev
    → status_at id (walk id by comment prev steps db) ≡ some to
walk-status id by comment prev [] to db p h = h ∙ ap some p
walk-status id by comment prev (s ∷ ss) to db p h =
    walk-status id by comment s ss to (step_to id by comment prev s db) p.1 (
      rw (find-update_where id (with_status s db.now) db.incidents (λ r. refl))
        (status-map s prev db.now (row_of id db) h))

walk-others :
    (id : ℕ) (by comment prev : String) (steps : List String) (db : Db) (j : ℕ)
    → (j == id) ≡ false
    → row_of j (walk id by comment prev steps db) ≡ row_of j db
walk-others id by comment prev [] db j ne = refl
walk-others id by comment prev (s ∷ ss) db j ne =
    walk-others id by comment s ss (step_to id by comment prev s db) j ne
    ∙ find-update_other id j (with_status s db.now) db.incidents (λ r. refl) ne

walk-entries :
    (id : ℕ) (by comment prev : String) (steps : List String) (db : Db)
    → (walk id by comment prev steps db).transitions
      ≡ entries id by comment db.now prev steps db.transitions
walk-entries id by comment prev [] db = refl
walk-entries id by comment prev (s ∷ ss) db =
    walk-entries id by comment s ss (step_to id by comment prev s db)

walk_path-succeeds :
    (id : ℕ) (by comment from : String) (steps : List String) (to : String) (db : Db)
    → IsPath from steps to
    → 0 < length steps
    → walk_path id to by comment from steps (sound db)
      ≡ (ok true, sound (walk id by comment from steps db))
unfolding walk_path execute
walk_path-succeeds id by comment from [] to db p h = absurd (omega arith)
walk_path-succeeds id by comment from (s ∷ ss) to db p h =
    rw (steps_succeed id by comment from (s ∷ ss) to db p)

-- The transaction, when the body's part after the SELECT is known.
tx-commits :
    (id : ℕ) (to by comment : String) (db db' : Db)
    → transition_row id to by comment (row_of id db) (sound db) ≡ (ok true, sound db')
    → transition_tx id to by comment (sound db) ≡ (ok true, sound db')
unfolding transition_tx select_incident execute
tx-commits id to by comment db db' e = rw e

tx-rolls_back :
    (id : ℕ) (to by comment : String) (db : Db) (e : Error)
    → transition_row id to by comment (row_of id db) (sound db) ≡ (err e, sound db)
    → transition_tx id to by comment (sound db) ≡ (err e, sound db)
unfolding transition_tx select_incident execute
tx-rolls_back id to by comment db e h = rw h

abbrev rank_of : String → ℕ
rank_of s =
    if str_eq s "new"
    then 0
    else if str_eq s "acknowledged"
    then 1
    else if str_eq s "in_progress"
    then 2
    else if str_eq s "resolved"
    then 3
    else 4

rank_of-name : (a : Status) → rank_of (name a) ≡ rank a
rank_of-name Status.new = refl
rank_of-name Status.acknowledged = refl
rank_of-name Status.in_progress = refl
rank_of-name Status.resolved = refl
rank_of-name Status.closed = refl

name_ne : (a b : Status) → rank a < rank b → str_eq (name a) (name b) ≡ false
name_ne a b h = elim (Bool-cases (str_eq (name a) (name b))) [
  | inl same ↦
      let equal : rank a ≡ rank b =
        sym (rank_of-name a) ∙ ap rank_of ((eq_iff (name a) (name b)).0 same) ∙ rank_of-name b in
      absurd (omega arith)
  | inr differ ↦ differ
]

-- When the driver refuses nothing, an incident at `a` that is asked to go to a later status `b` goes
-- there by allowed moves: its row ends at `b`, the other rows are as before, and the log has one
-- entry for each move, as many as there are ranks between the two.
pub transition_forward :
    (id : ℕ) (a b : Status) (by comment : String) (db : Db) (r : IncidentRow)
    → row_of id db ≡ some r
    → r.status ≡ name a
    → rank a < rank b
    → (db' : Db) × (transition_tx id (name b) by comment (sound db) ≡ (ok true, sound db'))
      × (status_at id db' ≡ some (name b))
      × ((j : ℕ) → (j == id) ≡ false → row_of j db' ≡ row_of j db)
      × (db'.transitions
          ≡ entries id by comment db.now
              (name a)
              (incident_status_path (name a) (name b))
              db.transitions)
      × IsPath (name a) (incident_status_path (name a) (name b)) (name b)
      × (length (incident_status_path (name a) (name b)) + rank a ≡ rank b)
unfolding transition_row
transition_forward id a b by comment db r found at_a up =
    let steps = incident_status_path (name a) (name b) in
    let (path, long) = incident_status_path-IsPath a b up in
    (
      walk id by comment (name a) steps db,
      tx-commits id (name b) by comment db _ (
          rw (found, at_a, canonical, name_ne a b up)
            (walk_path-succeeds id by comment (name a) steps (name b) db path (omega arith))),
      walk-status id by comment (name a) steps (name b) db path (rw found (ap some at_a)),
      walk-others id by comment (name a) steps db,
      walk-entries id by comment (name a) steps db,
      path,
      long,
    )

-- When the driver refuses nothing and an incident is asked to go to the status that it has, or to an
-- earlier one, the transaction returns an error and leaves the tables as they were.
pub transition_backward :
    (id : ℕ) (a b : Status) (by comment : String) (db : Db) (r : IncidentRow)
    → row_of id db ≡ some r
    → r.status ≡ name a
    → rank b ≤ rank a
    → (e : Error) × (transition_tx id (name b) by comment (sound db) ≡ (err e, sound db))
unfolding transition_row walk_path
transition_backward id a b by comment db r found at_a down =
    elim (Bool-cases (str_eq (name a) (name b))) [
      | inl same ↦ (
        already_in_status (name b),
        tx-rolls_back id (name b) by comment db _
            (rw (found, at_a, canonical, same) (unfold raise in refl)),
      )
      | inr differ ↦ (
        invalid_transition (name a) (name b),
        tx-rolls_back id (name b) by comment db _
            (rw (found, at_a, canonical, differ, path_backward a b down) (unfold raise in refl)),
      )
    ]
