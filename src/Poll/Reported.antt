-- ===== src/Poll/Reported.antt =====
-- When the availability events of the devices agree with their statuses, and what the updates of a
-- poll do to that.
use nms.Prelude.{
  ℕ, ◌≡◌, ◌≢◌, ◌⊎◌, inl, inr, true, false, ◌||◌, List, [], ◌∷◌, String, some, arith, ◌==◌, str_eq,
  eq_iff, trim_space, to_lower, has_prefix, All, All-map, All-find, find, update_where,
  if◌then◌else◌, Bool-cases,
}
use nms.Incident.Tables.{DeviceRow, AvailabilityEvent, Db}
use nms.Poll.{poll_status_was_ok, poll_status_was_failure, add_event, coalesce}

-- The kind of the newest event of a device; a device with none counts as available.
abbrev pub last_kind : ℕ → List AvailabilityEvent → String
last_kind d [] = "available"
last_kind d (e ∷ es) = if e.device_id == d then e.kind else last_kind d es

-- No event repeats the one before it of the same device.
abbrev pub IsAlternating : List AvailabilityEvent → Type 0
IsAlternating [] = Unit
IsAlternating (e ∷ es) = (e.kind ≢ last_kind e.device_id es) × IsAlternating es

abbrev pub AgreesWith : String → String → Type 0
AgreesWith status kind =
    ((poll_status_was_ok status ≡ true) × (kind ≡ "available"))
    ⊎ ((poll_status_was_failure status ≡ true) × (kind ≡ "unavailable"))

abbrev pub DeviceAgrees : List AvailabilityEvent → DeviceRow → Type 0
DeviceAgrees es d = AgreesWith (coalesce d.status) (last_kind d.id es)

pub record IsReported (ds : List DeviceRow) (es : List AvailabilityEvent) : Type 0 where
  pub events : IsAlternating es
  pub devices : All (DeviceAgrees es) ds

-- The event of `device` has been stored, and its row is still to be written.
abbrev pub OtherAgrees : ℕ → List AvailabilityEvent → DeviceRow → Type 0
OtherAgrees device es d = ((d.id == device) ≡ false) → DeviceAgrees es d

pub record IsReporting (device : ℕ) (kind : String) (ds : List DeviceRow)
    (es : List AvailabilityEvent) : Type 0 where
  events : IsAlternating es
  last : last_kind device es ≡ kind
  others : All (OtherAgrees device es) ds

abbrev pub Reported : Db → Type 0
Reported db = IsReported db.devices db.events

abbrev pub Reporting : ℕ → String → Db → Type 0
Reporting device kind db = IsReporting device kind db.devices db.events

pub no_prefix :
    (t : String) → (str_eq t "" || str_eq t "active") ≡ true → has_prefix t "failed" ≡ false
unfolding has_prefix
no_prefix t h = elim (Bool-cases (str_eq t "")) [
  | inl e ↦ rw ((eq_iff t "").0 e)
  | inr n ↦
      let active : str_eq t "active" ≡ true = ground arith in rw ((eq_iff t "active").0 active)
]

-- A status is not both.
pub ok-not-failure :
    (s : String) → poll_status_was_ok s ≡ true → poll_status_was_failure s ≡ true → ⊥
unfolding poll_status_was_ok poll_status_was_failure
ok-not-failure s p q = cc (no_prefix (trim_space (to_lower s)) p)

pub settled :
    (device : ℕ) (kind : String) (db : Db)
    → last_kind device db.events ≡ kind
    → Reported db
    → Reporting device kind db
settled device kind db e h = record {
  events = h.events;
  last = e;
  others = All-map _ _ db.devices (λ d a _. a) h.devices;
}

pub add_event-Reporting :
    (device : ℕ) (kind detail : String) (db : Db)
    → kind ≢ last_kind device db.events
    → Reported db
    → Reporting device kind (add_event device kind detail db)
add_event-Reporting device kind detail db ne h = record {
  events = (ne, h.events);
  last = ground arith;
  others =
      All-map _ _ db.devices
        (λ d a other. let flip : (device == d.id) ≡ false = ground arith in rw flip a) h.devices;
}

pub change_where :
    (device : ℕ) (kind : String) (f : DeviceRow → DeviceRow) (es : List AvailabilityEvent)
    (ds : List DeviceRow)
    → ((d : DeviceRow) → ((f d).id ≡ d.id) × AgreesWith (coalesce (f d).status) kind)
    → last_kind device es ≡ kind
    → All (OtherAgrees device es) ds
    → All (DeviceAgrees es) (update_where (λ d. d.id == device) f ds)
change_where device kind f es [] k last h = tt
change_where device kind f es (d ∷ ds) k last h = elim (Bool-cases (d.id == device)) [
  | inl hit ↦
      let same : (f d).id ≡ device = ground (arith, (k d).0) in
      rw hit (rw (same, last) (k d).1, change_where device kind f es ds k last h.1)
  | inr miss ↦ rw miss (h.0 miss, change_where device kind f es ds k last h.1)
]

pub change-Reported :
    (device : ℕ) (kind : String) (f : DeviceRow → DeviceRow) (db : Db)
    → ((d : DeviceRow) → ((f d).id ≡ d.id) × AgreesWith (coalesce (f d).status) kind)
    → Reporting device kind db
    → IsReported (update_where (λ d. d.id == device) f db.devices) db.events
change-Reported device kind f db k h = record {
  events = h.events;
  devices = change_where device kind f db.events db.devices k h.last h.others;
}

pub previous-agrees :
    (device : ℕ) (db : Db) (d : DeviceRow)
    → Reported db
    → find (λ x. x.id == device) db.devices ≡ some d
    → AgreesWith (coalesce d.status) (last_kind device db.events)
previous-agrees device db d h e =
    let (a, hit) =
      All-find (DeviceAgrees db.events) (λ x. x.id == device) db.devices d h.devices e in
    let same : d.id ≡ device = ground arith in rw (← same) a
