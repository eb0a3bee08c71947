-- ===== src/Incident/Dedup.antt =====
-- Create-or-touch: an open incident with the same key inside the window is reused.

use nms.Prelude.{
  suc, ◌≡◌, ◌⊎◌, ◌≤◌, ◌+◌, ◌*◌, ℕ, refl, ap, inl, inr, subst, Mem, eq_iff, leb, str_eq, Bool, true,
  false, List, [], ◌∷◌, ◌++◌, String, Option, none, some, arith, ◌==◌, ltb, length, update_where,
  Bool-cases,
}
use mathlib.Core.List.{mem-cons_self, mem-cons_of_mem}
use nms.Prelude.Result.{ok}
use nms.Config.{Os}
use nms.Sql.{execute}
use nms.Incident.Tables.{IncidentRow, Db, second, insert_incident, new_row, add_row}
use nms.Incident.Status.{default_incident_assignee}
use nms.Incident.Write.{null_if_blank}
use nms.Incident.Outcome.{sound}
use nms.Incident.Touch.{
  TouchKey, is_match, newer, latest, touch_found, touch_open, touch_or_insert, touch_body,
  advisory_lock, is_open, same_device,
}

pub length-update_where :
    (p : IncidentRow → Bool) (f : IncidentRow → IncidentRow) (rs : List IncidentRow)
    → length (update_where p f rs) ≡ length rs
length-update_where p f [] = refl
length-update_where p f (r ∷ rs) = ap suc (length-update_where p f rs)

-- The newer of two incidents that pass is one of them.
newer-passes :
    (p : IncidentRow → Bool) (x : IncidentRow) (o : Option IncidentRow) (r : IncidentRow)
    → p x ≡ true
    → ((s : IncidentRow) → o ≡ some s → p s ≡ true)
    → some (newer x o) ≡ some r
    → p r ≡ true
newer-passes p x none r h k e = let same : x ≡ r = ground arith in rw (← same) h
newer-passes p x (some s) r h k e = elim (Bool-cases (ltb x.updated_at s.updated_at)) [
  | inl later ↦ let same : s ≡ r = ground arith in k r (ap some same)
  | inr earlier ↦ let same : x ≡ r = ground arith in rw (← same) h
]

-- What the window search finds passes its test.
pub latest-passes :
    (p : IncidentRow → Bool) (rs : List IncidentRow) (r : IncidentRow)
    → latest p rs ≡ some r
    → p r ≡ true
unfolding latest
latest-passes p [] r h = cc
latest-passes p (x ∷ xs) r h = elim (Bool-cases (p x)) [
  | inl hit ↦ newer-passes p x (latest p xs) r hit (λ s e. latest-passes p xs s e) (rw hit at h)
  | inr miss ↦ latest-passes p xs r (rw miss at h)
]

-- What makes an incident a copy of the one that is reported: the same source, title, severity and
-- device, a status in which it is open, and a last update inside the window.
pub record IsCopyOf (k : TouchKey) (now : ℕ) (r : IncidentRow) : Type 0 where
  pub source : r.source ≡ k.source
  pub title : r.title ≡ k.title
  pub severity : r.severity ≡ k.severity
  pub device : r.device_id ≡ k.device_id
  pub is_open_now : (r.status ≡ "new") ⊎ ((r.status ≡ "acknowledged") ⊎ (r.status ≡ "in_progress"))
  pub recent : now ≤ r.updated_at + k.window_sec * second

same_device_sound : (a b : Option ℕ) → same_device a b ≡ true → a ≡ b
unfolding same_device
same_device_sound none none h = refl
same_device_sound none (some b) h = cc
same_device_sound (some a) none h = cc
same_device_sound (some a) (some b) h = let same : a ≡ b = ground arith in ap some same

same_device-itself : (a : Option ℕ) → same_device a a ≡ true
unfolding same_device
same_device-itself none = refl
same_device-itself (some a) = ground arith

is_open_sound :
    (s : String) → is_open s ≡ true → (s ≡ "new") ⊎ ((s ≡ "acknowledged") ⊎ (s ≡ "in_progress"))
unfolding is_open
is_open_sound s h = elim (Bool-cases (str_eq s "new")) [
  | inl hit ↦ inl ((eq_iff s "new").0 hit)
  | inr miss ↦ elim (Bool-cases (str_eq s "acknowledged")) [
    | inl hit ↦ inr (inl ((eq_iff s "acknowledged").0 hit))
    | inr other ↦ inr (inr ((eq_iff s "in_progress").0 (rw (miss, other) at h)))
  ]
]

is_open_complete :
    (s : String) → (s ≡ "new") ⊎ ((s ≡ "acknowledged") ⊎ (s ≡ "in_progress")) → is_open s ≡ true
unfolding is_open
is_open_complete s (inl e) = rw e refl
is_open_complete s (inr (inl e)) = rw e refl
is_open_complete s (inr (inr e)) = rw e refl

is_match-IsCopyOf :
    (k : TouchKey) (now : ℕ) (r : IncidentRow) → is_match k now r ≡ true → IsCopyOf k now r
unfolding is_match
is_match-IsCopyOf k now r h = record {
  source = (eq_iff r.source k.source).0 (ground arith);
  title = (eq_iff r.title k.title).0 (ground arith);
  severity = (eq_iff r.severity k.severity).0 (ground arith);
  device = same_device_sound r.device_id k.device_id (ground arith);
  is_open_now = is_open_sound r.status (ground arith);
  recent = ground arith;
}

IsCopyOf-is_match :
    (k : TouchKey) (now : ℕ) (r : IncidentRow) → IsCopyOf k now r → is_match k now r ≡ true
unfolding is_match
IsCopyOf-is_match k now r h =
    let source = (eq_iff r.source k.source).1 h.source in
    let title = (eq_iff r.title k.title).1 h.title in
    let severity = (eq_iff r.severity k.severity).1 h.severity in
    let device : same_device r.device_id k.device_id ≡ true =
      rw h.device (same_device-itself k.device_id) in
    let opened = is_open_complete r.status h.is_open_now in
    let recent : leb now (r.updated_at + k.window_sec * second) ≡ true =
      (let w = h.recent in ground arith) in
    rw (source, title, severity, device, opened, recent) refl

-- The newer of a row and what the search finds below it.
newer-latest :
    (p : IncidentRow → Bool) (x : IncidentRow) (xs : List IncidentRow) (o : Option IncidentRow)
    → ((s : IncidentRow) → o ≡ some s → Mem s xs)
    → Mem (newer x o) (x ∷ xs)
newer-latest p x xs none k = mem-cons_self
newer-latest p x xs (some s) k = elim (Bool-cases (ltb x.updated_at s.updated_at)) [
  | inl later ↦ rw later (mem-cons_of_mem x (k s refl))
  | inr earlier ↦ rw earlier mem-cons_self
]

latest-Mem :
    (p : IncidentRow → Bool) (rs : List IncidentRow) (r : IncidentRow)
    → latest p rs ≡ some r
    → Mem r rs
unfolding latest
latest-Mem p [] r h = cc
latest-Mem p (x ∷ xs) r h = elim (Bool-cases (p x)) [
  | inl hit ↦
      let same : newer x (latest p xs) ≡ r = (let k = rw hit at h in cc) in
      subst (λ y. Mem y (x ∷ xs)) same
        (newer-latest p x xs (latest p xs) (λ s e. latest-Mem p xs s e))
  | inr miss ↦ mem-cons_of_mem x (latest-Mem p xs r (rw miss at h))
]

newer-most : (x : IncidentRow) (o : Option IncidentRow) → (x.updated_at ≤ (newer x o).updated_at)
newer-most x none = omega arith
newer-most x (some s) = ground arith

newer-below : (x s : IncidentRow) → s.updated_at ≤ (newer x (some s)).updated_at
newer-below x s = ground arith

-- Below any rows that stand in front, a row that passes is found, or one that is as new.
latest-newest :
    (p : IncidentRow → Bool) (front back : List IncidentRow) (m : IncidentRow)
    → p m ≡ true
    → (r : IncidentRow) × (latest p (front ++ m ∷ back) ≡ some r) × (m.updated_at ≤ r.updated_at)
unfolding latest
latest-newest p [] back m h = (newer m (latest p back), rw h refl, newer-most m (latest p back))
latest-newest p (x ∷ front) back m h =
    let (r, found, le) = latest-newest p front back m h in
    elim (Bool-cases (p x)) [
      | inl hit ↦
          (newer x (some r), rw (hit, found) refl, (let top = newer-below x r in omega arith))
      | inr miss ↦ (r, rw (miss, found) refl, le)
    ]

-- When the driver refuses nothing and some incident of the table is a copy of the one that is
-- reported (the same source, title, severity and device, open, last updated inside the window): an
-- incident of the table that is a copy too, and last updated no earlier than that one, is answered as
-- reused. The reported details are put in the place of its details and its last update is now; no row
-- is added, no row with another id and no other table is changed, and nothing is logged.
pub touch_reuses :
    (os : Os) (k : TouchKey) (details : String) (db : Db) (front back : List IncidentRow)
    (m : IncidentRow)
    → db.incidents ≡ front ++ m ∷ back
    → IsCopyOf k db.now m
    → (r : IncidentRow) × (touch_body os k details (sound db) ≡ (
      ok (record { id = r.id; created = false }),
      sound (record db {
        incidents =
            update_where
              (λ x. x.id == r.id)
              (λ x. record x { updated_at = db.now; details = details })
              db.incidents;
      }),
    ))
      × Mem r db.incidents
      × IsCopyOf k db.now r
      × (m.updated_at ≤ r.updated_at)
unfolding touch_body advisory_lock touch_open touch_found touch_or_insert execute
touch_reuses os k details db front back m stands copy =
    let (r, e, le) =
      latest-newest (is_match k db.now) front back m (IsCopyOf-is_match k db.now m copy) in
    let found : latest (is_match k db.now) db.incidents ≡ some r = rw stands e in
    (
      r,
      rw found refl,
      latest-Mem (is_match k db.now) db.incidents r found,
      is_match-IsCopyOf k db.now r (latest-passes (is_match k db.now) db.incidents r found),
      le,
    )

-- When the driver refuses nothing and the search finds none: an incident is created, "new", with the
-- key's fields and the next id, in front of the rows that were there.
pub touch_creates :
    (os : Os) (k : TouchKey) (details : String) (db : Db)
    → latest (is_match k db.now) db.incidents ≡ none
    → (r : IncidentRow) × (touch_body os k details (sound db)
        ≡ (ok (record { id = db.next_id; created = true }), sound (add_row r db)))
      × (r.id ≡ db.next_id)
      × (r.status ≡ "new")
      × (r.title ≡ k.title)
      × (r.severity ≡ k.severity)
      × (r.source ≡ k.source)
      × (r.device_id ≡ k.device_id)
unfolding touch_body advisory_lock touch_open touch_found touch_or_insert insert_incident execute
touch_creates os k details db h = (
  new_row k.device_id (null_if_blank (default_incident_assignee os k.source k.severity)) k.title
      k.severity k.source details db,
  rw h refl,
  refl,
  refl,
  refl,
  refl,
  refl,
  refl,
)
