-- ===== src/Incident/Audit/Write.antt =====
-- Creating, moving and assigning one incident keep the audit trail.
use nms.Prelude.{
  ℕ, ◌≤◌, ◌≡◌, refl, Bool, true, false, List, [], ◌∷◌, String, Option, none, some, arith, ◌==◌,
  str_eq, find, any, trim_space, ◌||◌,
}
use nms.Config.{Os}
use nms.Sql.Rules.{
  Ensures, Keeps, Ensures-pure, Ensures-raise, Ensures-exec, Ensures-query, Ensures-if,
  Ensures-bind, Ensures-using, Keeps-in_tx, Keeps-bind, Keeps-bind-lift, Keeps-pure, Keeps-raise,
  Keeps-query, Keeps-statement, Keeps-if,
}
use nms.Incident.Status.{Status, name}
use nms.Incident.Path.{rank, canonical, allowed_up}
use nms.Incident.Tables.{
  IncidentRow, Db, with_status, update_incident_status, update_incident_assignee,
  insert_incident_transition, insert_incident, select_incident, get_incident_by_id,
}
use nms.Incident.Write.{
  transition_steps, walk_path, transition_row, transition_tx, read_back, transition_incident_status,
  assign_row, assign_tx, assign_incident, bulk_loop, transition_incidents_status, create_from,
  create_incident, IncidentInput, collect,
}
use nms.Incident.Audit.{IsAudited, HasRead, IsPending, add_row-IsAudited}
use nms.Incident.Audit.Step.{set_status-IsPending, log-HasRead, find-HasRead}

-- What a SELECT … FOR UPDATE leaves behind.
abbrev pub Found : ℕ → Option IncidentRow → Db → Type 0
Found id none db = IsAudited db
Found id (some r) db = HasRead id r.status db

find-Found :
    (id : ℕ) (db : Db) (o : Option IncidentRow)
    → IsAudited db
    → find (λ r. r.id == id) db.incidents ≡ o
    → Found id o db
find-Found id db none h e = h
find-Found id db (some r) h e = find-HasRead id db r h e

pub select_incident-Found : (id : ℕ) → Ensures IsAudited (select_incident id) (Found id)
unfolding select_incident
select_incident-Found id = Ensures-query (Found id) _ (λ db h. find-Found id db _ h refl)

pub update_status-IsPending :
    (id : ℕ) (a b : Status)
    → rank a ≤ rank b
    → Ensures
        (HasRead id (name a))
        (update_incident_status id (name b))
        (λ _. IsPending id (name a) (name b))
unfolding update_incident_status
update_status-IsPending id a b h = Ensures-exec _ _ (λ db p.
    set_status-IsPending id (name a) (name b) (with_status (name b) db.now) db (λ r. refl)
      (λ r _ _. (refl, refl)) (a, b, refl, refl, h) p)

pub insert_transition-HasRead :
    (id : ℕ) (from to by comment : String)
    → Ensures
        (IsPending id from to)
        (insert_incident_transition id from to by comment)
        (λ _. HasRead id to)
unfolding insert_incident_transition
insert_transition-HasRead id from to by comment =
    Ensures-exec _ _ (λ db p. log-HasRead id from to by comment db p)

-- The loop, from any status of the lifecycle.
steps_from :
    (id : ℕ) (by comment : String) (a : Status) (steps : List String)
    → Ensures (HasRead id (name a)) (transition_steps id by comment (name a) steps) (λ _. IsAudited)
unfolding transition_steps
steps_from id by comment a [] = Ensures-pure _ tt (λ db p. p.audited)
steps_from id by comment a (step ∷ steps) =
    Ensures-if _ _ _
      (λ allowed.
        let (b, e, up) = allowed_up a step allowed in
        rw e (
          Ensures-bind (λ _. IsPending id (name a) (name b)) _
            (update_status-IsPending id a b (omega arith))
            (λ _.
              Ensures-bind (λ _. HasRead id (name b)) _
                (insert_transition-HasRead id (name a) (name b) by comment)
                (λ _. steps_from id by comment b steps))))
      (λ _. Ensures-raise _ _)

walk_path-IsAudited :
    (id : ℕ) (to by comment : String) (a : Status) (steps : List String)
    → Ensures (HasRead id (name a)) (walk_path id to by comment (name a) steps) (λ _. IsAudited)
unfolding walk_path
walk_path-IsAudited id to by comment a [] = Ensures-raise _ _
walk_path-IsAudited id to by comment a (step ∷ steps) =
    Ensures-bind (λ _. IsAudited) _ (steps_from id by comment a (step ∷ steps))
      (λ _. Ensures-pure _ true (λ db p. p))

transition_row-IsAudited :
    (id : ℕ) (to by comment : String) (o : Option IncidentRow)
    → Ensures (Found id o) (transition_row id to by comment o) (λ _. IsAudited)
unfolding transition_row
transition_row-IsAudited id to by comment none = Ensures-pure _ false (λ db p. p)
transition_row-IsAudited id to by comment (some r) =
    Ensures-using (λ db p. p.from_status)
      (λ known.
        let (a, e) = known in
        rw (e, canonical)
          (Ensures-if (str_eq (name a) to) _ _ (λ _. Ensures-raise _ _)
            (λ _. walk_path-IsAudited id to by comment a _)))

pub transition_tx-Keeps :
    (id : ℕ) (to by comment : String) → Keeps IsAudited (transition_tx id to by comment)
unfolding transition_tx
transition_tx-Keeps id to by comment = Keeps-in_tx _ (
    Ensures-bind (Found id) _ (select_incident-Found id)
      (transition_row-IsAudited id to by comment))

pub read_back-Keeps : (id : ℕ) (found : Bool) → Keeps IsAudited (read_back id found)
unfolding read_back get_incident_by_id
read_back-Keeps id false = Keeps-pure none
read_back-Keeps id true = Keeps-query _

-- Moving an incident to a status.
pub transition_incident_status-Keeps :
    (id : ℕ) (to by comment : String)
    → Keeps IsAudited (transition_incident_status id to by comment)
unfolding transition_incident_status
transition_incident_status-Keeps id to by comment =
    Keeps-if (id == 0) _ _ (λ _. Keeps-raise _)
      (λ _.
        Keeps-bind-lift _ _
          (λ s _. Keeps-bind _ (transition_tx-Keeps id s _ _) (λ found. read_back-Keeps id found)))

bulk_loop-Keeps :
    (to by comment : String) (seen ids : List ℕ)
    → Keeps IsAudited (bulk_loop to by comment seen ids)
unfolding bulk_loop
bulk_loop-Keeps to by comment seen [] = Keeps-pure _
bulk_loop-Keeps to by comment seen (id ∷ ids) =
    Keeps-if (id == 0 || any (λ k. k == id) seen) _ _ (λ _. bulk_loop-Keeps to by comment seen ids)
      (λ _. Keeps-bind _ (transition_incident_status-Keeps id to by comment) (λ item.
        Keeps-bind _ (bulk_loop-Keeps to by comment (id ∷ seen) ids)
          (λ rest. Keeps-pure (collect item rest))))

-- Moving many.
pub transition_incidents_status-Keeps :
    (ids : List ℕ) (to by comment : String)
    → Keeps IsAudited (transition_incidents_status ids to by comment)
unfolding transition_incidents_status
transition_incidents_status-Keeps ids to by comment = bulk_loop-Keeps to by comment [] ids

-- Writing an assignee, and logging a transition from a status to itself.
pub update_assignee-IsPending :
    (id : ℕ) (a : Status) (who : Option String)
    → Ensures
        (HasRead id (name a))
        (update_incident_assignee id who)
        (λ _. IsPending id (name a) (name a))
unfolding update_incident_assignee
update_assignee-IsPending id a who = Ensures-exec _ _ (λ db p.
    set_status-IsPending id (name a) (name a) _ db (λ r. refl)
      (λ r row hit. (refl, ground (arith, p.at_from))) (a, a, refl, refl, omega arith) p)

assign_row-IsAudited :
    (id : ℕ) (who : Option String) (by comment : String) (o : Option IncidentRow)
    → Ensures (Found id o) (assign_row id who by comment o) (λ _. IsAudited)
unfolding assign_row
assign_row-IsAudited id who by comment none = Ensures-pure _ false (λ db p. p)
assign_row-IsAudited id who by comment (some r) =
    Ensures-using (λ db p. p.from_status)
      (λ known.
        let (a, e) = known in
        rw e (
          Ensures-bind _ _ (update_assignee-IsPending id a who) (λ _.
            Ensures-bind _ _ (insert_transition-HasRead id (name a) (name a) by _)
              (λ _. Ensures-pure _ true (λ db p. p.audited)))))

assign_tx-Keeps :
    (id : ℕ) (who : Option String) (by comment : String)
    → Keeps IsAudited (assign_tx id who by comment)
unfolding assign_tx
assign_tx-Keeps id who by comment =
    Keeps-in_tx _ (
      Ensures-bind (Found id) _ (select_incident-Found id) (assign_row-IsAudited id who by comment))

-- Assigning an incident.
pub assign_incident-Keeps :
    (id : ℕ) (who by comment : String) → Keeps IsAudited (assign_incident id who by comment)
unfolding assign_incident
assign_incident-Keeps id who by comment =
    Keeps-if (id == 0) _ _ (λ _. Keeps-raise _)
      (λ _. Keeps-bind _ (assign_tx-Keeps id _ _ _) (λ found. read_back-Keeps id found))

pub insert_incident-Keeps :
    (dev : Option ℕ) (who : Option String) (title severity source details : String)
    → Keeps IsAudited (insert_incident dev who title severity source details)
unfolding insert_incident
insert_incident-Keeps dev who title severity source details =
    Keeps-statement _ (λ db h. add_row-IsAudited dev who title severity source details db h)

-- Creating an incident.
pub create_incident-Keeps :
    (os : Os) (input : Option IncidentInput) → Keeps IsAudited (create_incident os input)
unfolding create_incident create_from
create_incident-Keeps os none = Keeps-raise _
create_incident-Keeps os (some input) =
    Keeps-if (str_eq (trim_space input.title) "") _ _ (λ _. Keeps-raise _)
      (λ _. Keeps-bind-lift _ _ (λ severity _.
        Keeps-bind-lift _ _
          (λ source _. Keeps-bind _ (insert_incident-Keeps _ _ _ _ _ _) (λ row. Keeps-pure _))))
