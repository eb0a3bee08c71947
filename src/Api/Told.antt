-- ===== src/Api/Told.antt =====
-- What a request that moves or assigns one incident answers, and which event it leaves.
use nms.Prelude.{
  ℕ, ◌≡◌, refl, ap, sym, subst, Bool, true, false, ◌&&◌, ◌∷◌, String, Option, none, some, ◌==◌, ltb,
  length, find, if◌then◌else◌, Bool-cases, inl, inr,
}
use nms.Prelude.Result.{Result, Error, ok, err}
use nms.Sql.{Conn, Sql, raise, pure, continue, ◌>>=◌}
use nms.Sql.Rules.{query-cases}
use nms.Incident.Tables.{Db, Incident, found_incident, get_incident_by_id}
use nms.Incident.Write.{read_back, transition_incident_status, assign_incident}
use nms.Api.Incidents.{
  Reply, refused, replied, Event, Queue, Api, notify_itsm_incident_async, incident_id_from_chi,
  changed_by_user, event_of, moved, transition_found, transition_checked,
  transition_incident_request, assign_checked, assign_incident_request,
}

-- An incident that is answered is the one that the tables hold under the id.
IsRead : ℕ → Result (Option Incident) × Conn Db → Type 0
IsRead id (err e, c) = Unit
IsRead id (ok none, c) = Unit
IsRead id (ok (some item), c) =
    found_incident c.db (find (λ r. r.id == id) c.db.incidents) ≡ some item

read-IsRead :
    (id : ℕ) (o : Option Incident) (c : Conn Db)
    → found_incident c.db (find (λ r. r.id == id) c.db.incidents) ≡ o
    → IsRead id (ok o, c)
unfolding IsRead
read-IsRead id none c h = tt
read-IsRead id (some item) c h = h

query-IsRead :
    (id : ℕ) (c c' : Conn Db) (r : Result (Option Incident) × Conn Db)
    → r ≡ (ok (found_incident c.db (find (λ x. x.id == id) c.db.incidents)), c')
    → c'.db ≡ c.db
    → IsRead id r
query-IsRead id c c' r e same = subst (IsRead id) (sym e) (
    read-IsRead id (found_incident c.db (find (λ x. x.id == id) c.db.incidents)) c'
      (ap (λ db. found_incident db (find (λ x. x.id == id) db.incidents)) same))

read_back-IsRead : (id : ℕ) (found : Bool) (c : Conn Db) → IsRead id (read_back id found c)
unfolding read_back get_incident_by_id pure IsRead
read_back-IsRead id false c = tt
read_back-IsRead id true c =
    elim (query-cases (λ (db : Db). found_incident db (find (λ r. r.id == id) db.incidents)) c) [
      | inl (e, c', failed) ↦ subst (IsRead id) (sym failed) tt
      | inr (c', answer, same) ↦ query-IsRead id c c' _ answer same
    ]

-- A block whose answer is read so, wherever it starts.
record IsReading (id : ℕ) (m : Sql Db (Option Incident)) : Type 0 where
  at : (c : Conn Db) → IsRead id (m c)

continue-IsRead :
    {A : Type 0} (id : ℕ) (r : Result A × Conn Db) (f : A → Sql Db (Option Incident))
    → ((a : A) → IsReading id (f a))
    → IsRead id (continue r f)
unfolding IsRead
continue-IsRead id (err e, c) f h = tt
continue-IsRead id (ok a, c) f h = (h a).at c

bind-IsReading :
    {A : Type 0} (id : ℕ) (m : Sql Db A) (f : A → Sql Db (Option Incident))
    → ((a : A) → IsReading id (f a))
    → IsReading id (m >>= f)
unfolding ◌>>=◌
bind-IsReading id m f h = record { at = λ c. continue-IsRead id (m c) f h }

raise-IsReading : (id : ℕ) (e : Error) → IsReading id (raise e)
unfolding raise IsRead
raise-IsReading id e = record { at = λ c. tt }

read_back-IsReading : (id : ℕ) (found : Bool) → IsReading id (read_back id found)
read_back-IsReading id found = record { at = read_back-IsRead id found }

transition-IsReading :
    (id : ℕ) (to by comment : String) → IsReading id (transition_incident_status id to by comment)
unfolding transition_incident_status
transition-IsReading id to by comment = elim (Bool-cases (id == 0)) [
  | inl blank ↦ rw blank (raise-IsReading id _)
  | inr given ↦
      rw given (
        bind-IsReading id _ _
          (λ to'. bind-IsReading id _ _ (λ found. read_back-IsReading id found)))
]

assign-IsReading :
    (id : ℕ) (to by comment : String) → IsReading id (assign_incident id to by comment)
unfolding assign_incident
assign-IsReading id to by comment = elim (Bool-cases (id == 0)) [
  | inl blank ↦ rw blank (raise-IsReading id _)
  | inr given ↦ rw given (bind-IsReading id _ _ (λ found. read_back-IsReading id found))
]

-- The queue with one event more where a notifier is enabled and there is room, else the same.
abbrev pub offered : Event → Queue → Queue
offered e q =
    if q.enabled && ltb (length q.waiting) q.size then record q { waiting = e ∷ q.waiting } else q

-- A refused request leaves the queue. An answered one had an id and a body; its answer is the incident
-- that the tables then hold under the id, and one event is offered to the queue: that of the
-- incident, by the user of the request, with the comment of the body.
pub Told :
    String
    → String
    → Option (String × String)
    → Option String
    → Queue
    → Reply Incident × Api
    → Type 0
Told kind param body user before (refused code text, a) = a.queue ≡ before
Told kind param body user before (replied item, a) =
    (id : ℕ) × (text : String) × (comment : String) × (incident_id_from_chi param ≡ some id)
    × (body ≡ some (text, comment))
    × (found_incident a.conn.db (find (λ r. r.id == id) a.conn.db.incidents) ≡ some item)
    × (a.queue ≡ offered (event_of kind (changed_by_user user) comment item) before)

notify-queue : (e : Event) (a : Api) → (notify_itsm_incident_async e a).queue ≡ offered e a.queue
unfolding notify_itsm_incident_async
notify-queue e a =
    elim (Bool-cases (a.queue.enabled && ltb (length a.queue.waiting) a.queue.size)) [
      | inl room ↦ rw room refl
      | inr full ↦ rw full refl
    ]

notify-conn : (e : Event) (a : Api) → (notify_itsm_incident_async e a).conn ≡ a.conn
unfolding notify_itsm_incident_async
notify-conn e a = elim (Bool-cases (a.queue.enabled && ltb (length a.queue.waiting) a.queue.size)) [
  | inl room ↦ rw room refl
  | inr full ↦ rw full refl
]

moved-Told :
    (kind why param text comment : String) (user : Option String) (id : ℕ) (queue : Queue)
    (r : Result (Option Incident) × Conn Db)
    → incident_id_from_chi param ≡ some id
    → IsRead id r
    → Told kind param
        (some (text, comment))
        user
        queue
        (moved kind why (changed_by_user user) comment (r.0, record { conn = r.1; queue = queue }))
unfolding moved IsRead Told
moved-Told kind why param text comment user id queue (err e, c) named read = refl
moved-Told kind why param text comment user id queue (ok none, c) named read = refl
moved-Told kind why param text comment user id queue (ok (some item), c) named read =
    let e = event_of kind (changed_by_user user) comment item in
    let a : Api = record { conn = c; queue = queue } in
    (id, text, comment, named, refl, rw (notify-conn e a) read, notify-queue e a)

transition_found-Told :
    (param status comment : String) (user : Option String) (id : ℕ) (queue : Queue)
    (r : Result (Option Incident) × Conn Db)
    → incident_id_from_chi param ≡ some id
    → Told "incident.status_changed" param (some (status, comment)) user queue (
        transition_found id status
          (changed_by_user user)
          comment
          (r.0, record { conn = r.1; queue = queue }))
unfolding transition_found Told
transition_found-Told param status comment user id queue (err e, c) named = refl
transition_found-Told param status comment user id queue (ok none, c) named = refl
transition_found-Told param status comment user id queue (ok (some before), c) named =
    moved-Told "incident.status_changed" "invalid incident status transition" param status comment
      user id queue (transition_incident_status id status (changed_by_user user) comment c) named
      ((transition-IsReading id status (changed_by_user user) comment).at c)

transition_checked-Told :
    (param : String) (o : Option ℕ) (body : Option (String × String)) (user : Option String)
    (a : Api)
    → incident_id_from_chi param ≡ o
    → Told "incident.status_changed" param body user a.queue
        (transition_checked o body (changed_by_user user) a)
unfolding transition_checked Told
transition_checked-Told param none body user a named = refl
transition_checked-Told param (some id) none user a named = refl
transition_checked-Told param (some id) (some (status, comment)) user a named =
    transition_found-Told param status comment user id a.queue (get_incident_by_id id a.conn) named

assign_checked-Told :
    (param : String) (o : Option ℕ) (body : Option (String × String)) (user : Option String)
    (a : Api)
    → incident_id_from_chi param ≡ o
    → Told "incident.assignment_changed" param body user a.queue
        (assign_checked o body (changed_by_user user) a)
unfolding assign_checked Told
assign_checked-Told param none body user a named = refl
assign_checked-Told param (some id) none user a named = refl
assign_checked-Told param (some id) (some (assignee, comment)) user a named =
    moved-Told "incident.assignment_changed" "invalid incident assignment change" param assignee
      comment user id a.queue (assign_incident id assignee (changed_by_user user) comment a.conn)
      named ((assign-IsReading id assignee (changed_by_user user) comment).at a.conn)

-- A request to move or to assign an incident, whatever fails below it: refused, it leaves the queue of
-- events as it was; answered, its parameter named an id and its body was read, what it answers is the
-- incident that the tables then hold under that id, and, where a notifier is enabled and the
-- queue has room, one event is added, of its kind, by the request's user, with the body's comment and
-- that incident.
pub requests-Told :
    (param : String) (body : Option (String × String)) (user : Option String) (a : Api)
    → Told "incident.status_changed" param body user a.queue
        (transition_incident_request param body user a)
      × Told "incident.assignment_changed" param body user a.queue
          (assign_incident_request param body user a)
unfolding transition_incident_request assign_incident_request
requests-Told param body user a = (
  transition_checked-Told param (incident_id_from_chi param) body user a refl,
  assign_checked-Told param (incident_id_from_chi param) body user a refl,
)
