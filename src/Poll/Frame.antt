-- ===== src/Poll/Frame.antt =====
-- The incident half of a poll's transaction leaves the devices and the events alone.
use nms.Prelude.{ℕ, ◌+◌, List, [], ◌∷◌, String, Option, none, some, ◌==◌, true}
use nms.Config.{Os}
use nms.Sql.Rules.{
  Ensures, Ensures-pure, Ensures-exec, Ensures-query, Ensures-statement, Ensures-if, Ensures-lift,
  Ensures-bind,
}
use nms.Incident.Tables.{
  IncidentRow, DeviceRow, AvailabilityEvent, Db, insert_incident, insert_incident_transition,
}
use nms.Incident.Touch.{
  TouchKey, touch_found, touch_open, touch_or_insert, touch_body, advisory_lock, or_empty_object,
}
use nms.Incident.Batch.{resolve_loop, resolve_open_incidents_by_source_tx}
use nms.Poll.{create_or_touch_open_incident_tx}
use nms.Poll.Audit.{touch_key-passes}

module _ (F : List DeviceRow → List AvailabilityEvent → Type 0) where
  abbrev Framed : Db → Type 0
  Framed db = F db.devices db.events

  touch_found-Framed :
      (details : String) (db : Db) (o : Option ℕ) (row : Option IncidentRow)
      → Framed db
      → Framed (touch_found details db row).1
  unfolding touch_found
  touch_found-Framed details db o none h = h
  touch_found-Framed details db o (some r) h = h

  touch_or_insert-Framed :
      (os : Os) (k : TouchKey) (details : String) (o : Option ℕ)
      → Ensures Framed (touch_or_insert os k details o) (λ _. Framed)
  unfolding touch_or_insert insert_incident
  touch_or_insert-Framed os k details (some id) = Ensures-pure _ _ (λ db p. p)
  touch_or_insert-Framed os k details none =
      Ensures-bind (λ _. Framed) _ (Ensures-statement _ _ (λ db p. p))
        (λ row. Ensures-pure _ (record { id = row.id; created = true }) (λ db p. p))

  touch_body-Framed :
      (os : Os) (k : TouchKey) (details : String)
      → Ensures Framed (touch_body os k details) (λ _. Framed)
  unfolding touch_body advisory_lock touch_open
  touch_body-Framed os k details =
      Ensures-bind (λ _. Framed) _ (Ensures-exec _ _ (λ db p. p))
        (λ _.
          Ensures-bind (λ _. Framed) _
            (Ensures-statement _ _ (λ db p. touch_found-Framed details db none _ p))
            (λ o. touch_or_insert-Framed os k details o))

  pub touch_tx-Framed :
      (os : Os) (device : ℕ) (title severity source details : String) (window : ℕ)
      → Ensures Framed
          (create_or_touch_open_incident_tx os device title severity source details window)
          (λ _. Framed)
  unfolding create_or_touch_open_incident_tx
  touch_tx-Framed os device title severity source details window =
      Ensures-bind (λ _. Framed) _
        (touch_key-passes Framed (some device) title severity source window)
        (λ k.
          Ensures-bind (λ _. Framed) _ (touch_body-Framed os k (or_empty_object details))
            (λ touched. Ensures-pure _ tt (λ db p. p)))

  resolve_loop-Framed :
      (by comment : String) (n : ℕ) (items : List IncidentRow)
      → Ensures Framed (resolve_loop by comment n items) (λ _. Framed)
  unfolding resolve_loop insert_incident_transition
  resolve_loop-Framed by comment n [] = Ensures-pure _ n (λ db p. p)
  resolve_loop-Framed by comment n (it ∷ items) =
      Ensures-bind (λ _. Framed) _ (Ensures-exec _ _ (λ db p. p))
        (λ _.
          Ensures-bind (λ _. Framed) _ (Ensures-exec _ _ (λ db p. p))
            (λ _. resolve_loop-Framed by comment (n + 1) items))

  pub resolve_tx-Framed :
      (device : ℕ) (source by comment : String)
      → Ensures Framed (resolve_open_incidents_by_source_tx device source by comment) (λ _. Framed)
  unfolding resolve_open_incidents_by_source_tx
  resolve_tx-Framed device source by comment =
      Ensures-if (device == 0) _ _ (λ _. Ensures-pure _ 0 (λ db p. p))
        (λ _.
          Ensures-bind (λ _. Framed) _ (Ensures-lift _ _ (λ src db p e. p))
            (λ src.
              Ensures-bind (λ _. Framed) _ (Ensures-query _ _ (λ db p. p))
                (λ items. resolve_loop-Framed _ _ 0 items)))
