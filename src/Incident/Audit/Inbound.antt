-- ===== src/Incident/Audit/Inbound.antt =====
-- Updates from the ticket system, and create-or-touch, keep the audit trail.
use nms.Prelude.{ℕ, refl, true, false, String, Option, none, some, arith, ◌==◌, str_eq, trim_space}
use nms.Config.{Os}
use nms.Sql.Rules.{
  Ensures, Keeps, Ensures-pure, Ensures-raise, Ensures-exec, Ensures-statement, Ensures-if,
  Ensures-bind, Ensures-using, Keeps-in_tx, Keeps-bind, Keeps-bind-lift, Keeps-pure, Keeps-raise,
  Keeps-query, Keeps-if,
}
use nms.Incident.Status.{name, is_allowed}
use nms.Incident.Path.{canonical, allowed_up}
use nms.Incident.Tables.{IncidentRow, Db, insert_incident, get_incident_by_id}
use nms.Incident.Write.{null_if_blank}
use nms.Incident.Touch.{
  TouchKey, touch_found, touch_open, touch_or_insert, touch_body, touch_key, advisory_lock,
  create_or_touch_open_incident, or_empty_object,
}
use nms.Incident.Itsm.{
  itsm_status, itsm_assignee, itsm_row, itsm_tx, itsm_answer, requested_status, current_assignee,
  apply_itsm_inbound_update, ItsmOutcome,
}
use nms.Incident.Audit.{IsAudited, HasRead, RowAudited, UniqueIds-update_where, add_row-IsAudited}
use nms.Incident.Audit.Write.{
  Found, select_incident-Found, update_status-IsPending, update_assignee-IsPending,
  insert_transition-HasRead,
}
use nms.Prelude.{All-update_where}

-- The first half leaves the status that it reports.
itsm_status-HasRead :
    (id : ℕ) (to : Option String) (by comment : String) (r : IncidentRow)
    → Ensures (HasRead id r.status) (itsm_status id to by comment r) (λ after. HasRead id after.0)
unfolding itsm_status
itsm_status-HasRead id none by comment r = Ensures-pure _ (r.status, false) (λ db p. p)
itsm_status-HasRead id (some to) by comment r =
    Ensures-using (λ db p. p.from_status)
      (λ known.
        let (a, e) = known in
        rw (e, canonical)
          (Ensures-if (str_eq to (name a)) _ _ (λ _. Ensures-pure _ (name a, false) (λ db p. p))
            (λ _.
              Ensures-if (is_allowed (name a) to) _ _
                (λ allowed.
                  let (b, same, up) = allowed_up a to allowed in
                  rw same (
                    Ensures-bind _ _ (update_status-IsPending id a b (omega arith)) (λ _.
                      Ensures-bind _ _ (insert_transition-HasRead id (name a) (name b) by comment)
                        (λ _. Ensures-pure _ (name b, true) (λ db p. p)))))
                (λ _. Ensures-raise _ _))))

itsm_assignee-IsAudited :
    (id : ℕ) (who by comment status : String) (current : Option String)
    → Ensures (HasRead id status) (itsm_assignee id who by comment status current) (λ _. IsAudited)
unfolding itsm_assignee
itsm_assignee-IsAudited id who by comment status current =
    Ensures-using (λ db p. p.from_status)
      (λ known.
        let (a, e) = known in
        rw e (
          Ensures-if (str_eq (trim_space who) (current_assignee current)) _ _
            (λ _. Ensures-pure _ false (λ db p. p.audited))
            (λ _. Ensures-bind _ _ (update_assignee-IsPending id a (null_if_blank (some who))) (λ _.
              Ensures-bind _ _ (insert_transition-HasRead id (name a) (name a) by _)
                (λ _. Ensures-pure _ true (λ db p. p.audited))))))

itsm_row-IsAudited :
    (id : ℕ) (to : Option String) (who by comment : String) (o : Option IncidentRow)
    → Ensures (Found id o) (itsm_row id to who by comment o) (λ _. IsAudited)
unfolding itsm_row
itsm_row-IsAudited id to who by comment none = Ensures-pure _ _ (λ db p. p)
itsm_row-IsAudited id to who by comment (some r) =
    Ensures-bind (λ after. HasRead id after.0) _ (itsm_status-HasRead id to by comment r)
      (λ after.
        Ensures-bind (λ _. IsAudited) _
          (itsm_assignee-IsAudited id who by comment after.0 r.assignee)
          (λ changed. Ensures-pure _ _ (λ db p. p)))

itsm_tx-Keeps :
    (id : ℕ) (to : Option String) (who by comment : String)
    → Keeps IsAudited (itsm_tx id to who by comment)
unfolding itsm_tx
itsm_tx-Keeps id to who by comment =
    Keeps-in_tx _ (
      Ensures-bind (Found id) _ (select_incident-Found id)
        (itsm_row-IsAudited id to who by comment))

requested_status-Keeps : (to : String) → Keeps IsAudited (requested_status to)
unfolding requested_status
requested_status-Keeps to =
    Keeps-if (str_eq (trim_space to) "") _ _ (λ _. Keeps-pure none)
      (λ _. Keeps-bind-lift _ _ (λ s _. Keeps-pure (some s)))

itsm_answer-Keeps : (id : ℕ) (o : ItsmOutcome) → Keeps IsAudited (itsm_answer id o)
unfolding itsm_answer get_incident_by_id
itsm_answer-Keeps id o =
    Keeps-if o.found _ _
      (λ _.
        Keeps-bind _ (Keeps-query _)
          (λ item. Keeps-pure (item, o.status_changed, o.assignee_changed)))
      (λ _. Keeps-pure (none, false, false))

-- The inbound update.
pub apply_itsm_inbound_update-Keeps :
    (id : ℕ) (to who by comment : String)
    → Keeps IsAudited (apply_itsm_inbound_update id to who by comment)
unfolding apply_itsm_inbound_update
apply_itsm_inbound_update-Keeps id to who by comment =
    Keeps-if (id == 0) _ _ (λ _. Keeps-raise _)
      (λ _.
        Keeps-bind _ (requested_status-Keeps to)
          (λ s. Keeps-bind _ (itsm_tx-Keeps id s who _ _) (λ o. itsm_answer-Keeps id o)))

-- A touch changes no id and no status.
pub touch_found-IsAudited :
    (details : String) (db : Db) (o : Option IncidentRow)
    → IsAudited db
    → IsAudited (touch_found details db o).1
unfolding touch_found
touch_found-IsAudited details db none h = h
touch_found-IsAudited details db (some r) h = record {
  rows =
      All-update_where (RowAudited db.transitions db.next_id) _ _ db.incidents (λ x p hit. p)
        h.rows;
  unique = UniqueIds-update_where _ _ db.incidents (λ x. refl) h.unique;
  trail = h.trail;
  logged_ids = h.logged_ids;
}

touch_or_insert-Keeps :
    (os : Os) (k : TouchKey) (details : String) (o : Option ℕ)
    → Ensures IsAudited (touch_or_insert os k details o) (λ _. IsAudited)
unfolding touch_or_insert insert_incident
touch_or_insert-Keeps os k details (some id) = Ensures-pure _ _ (λ db p. p)
touch_or_insert-Keeps os k details none =
    Ensures-bind (λ _. IsAudited) _
      (Ensures-statement _ _ (λ db p. add_row-IsAudited _ _ _ _ _ _ db p))
      (λ row. Ensures-pure _ (record { id = row.id; created = true }) (λ db p. p))

pub touch_body-IsAudited :
    (os : Os) (k : TouchKey) (details : String)
    → Ensures IsAudited (touch_body os k details) (λ _. IsAudited)
unfolding touch_body advisory_lock touch_open
touch_body-IsAudited os k details =
    Ensures-bind (λ _. IsAudited) _ (Ensures-exec _ _ (λ db p. p))
      (λ _.
        Ensures-bind (λ _. IsAudited) _
          (Ensures-statement _ _ (λ db p. touch_found-IsAudited details db _ p))
          (λ o. touch_or_insert-Keeps os k details o))

touch_key-Keeps :
    (dev : Option ℕ) (title severity source : String) (window : ℕ)
    → Keeps IsAudited (touch_key dev title severity source window)
unfolding touch_key
touch_key-Keeps dev title severity source window =
    Keeps-if (str_eq (trim_space title) "") _ _ (λ _. Keeps-raise _)
      (λ _. Keeps-bind-lift _ _ (λ sv _. Keeps-bind-lift _ _ (λ src _. Keeps-pure _)))

-- Creating or touching.
pub create_or_touch_open_incident-Keeps :
    (os : Os) (dev : Option ℕ) (title severity source details : String) (window : ℕ)
    → Keeps IsAudited (create_or_touch_open_incident os dev title severity source details window)
unfolding create_or_touch_open_incident get_incident_by_id
create_or_touch_open_incident-Keeps os dev title severity source details window =
    Keeps-bind _ (touch_key-Keeps dev title severity source window) (λ k.
      Keeps-bind _ (Keeps-in_tx _ (touch_body-IsAudited os k (or_empty_object details))) (λ touched.
        Keeps-if (touched.id == 0) _ _ (λ _. Keeps-raise _)
          (λ _. Keeps-bind _ (Keeps-query _) (λ item. Keeps-pure (item, touched.created)))))
