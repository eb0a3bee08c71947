-- ===== src/Trap/Report.antt =====
-- What a trap leaves behind when the driver refuses no statement.
use nms.Prelude.{
  ℕ, ◌+◌, ◌*◌, ◌≤◌, ◌≡◌, refl, sym, ◌∙◌, Bool, true, false, ◌&&◌, List, [], ◌∷◌, String, Option,
  none, some, arith, ◌==◌, ltb, any, length, update_where, select_where, ◌++◌, Bool-cases, inl, inr,
  ◌⊎◌, trim_space, eq_iff,
}
use nms.Config.{Os}
use nms.Prelude.Result.{ok}
use nms.Sql.{execute}
use nms.Incident.Tables.{IncidentRow, Db, second, new_row, add_row}
use nms.Incident.Touch.{is_open, same_device, latest, newer, touch_found, advisory_lock}
use nms.Incident.Batch.{update_and_log, resolve_row, to_resolved, logged}
use nms.Incident.Outcome.{sound}
use nms.Incident.Dedup.{length-update_where}
use nms.Trap.Classify.{
  TrapClassification, link_down, bfd_down, trap_signal_from_oid, default_trap_classification,
  trap_incident_title, trap_is_recovery_signal,
}
use nms.Trap.Write.{
  is_trap_match, touch_open_trap, touch_or_insert_trap, trap_assignee, trap_tx, report_trap,
  is_open_trap_of, title_conds, resolve_titles, resolve_open_trap_incidents,
}

same_device_refl : (o : Option ℕ) → same_device o o ≡ true
unfolding same_device
same_device_refl none = refl
same_device_refl (some a) = ground arith

any_head :
    (p : IncidentRow → Bool) (r : IncidentRow) (rs : List IncidentRow)
    → p r ≡ true
    → any p (r ∷ rs) ≡ true
any_head p r rs h = rw h refl

any_tail :
    (p : IncidentRow → Bool) (r : IncidentRow) (rs : List IncidentRow)
    → any p rs ≡ true
    → any p (r ∷ rs) ≡ true
any_tail p r rs h = ground arith

newer-cases :
    (x : IncidentRow) (o : Option IncidentRow)
    → (some (newer x o) ≡ some x) ⊎ (o ≡ some (newer x o))
newer-cases x none = inl refl
newer-cases x (some s) = elim (Bool-cases (ltb x.updated_at s.updated_at)) [
  | inl later ↦ inr (rw later refl)
  | inr earlier ↦ inl (rw earlier refl)
]

-- What the search finds stands in the table.
latest-any :
    (p : IncidentRow → Bool) (rs : List IncidentRow) (r : IncidentRow)
    → latest p rs ≡ some r
    → any (λ x. p x && x.id == r.id) rs ≡ true
unfolding latest
latest-any p [] r h = cc
latest-any p (x ∷ xs) r h = elim (Bool-cases (p x)) [
  | inl hit ↦ elim (newer-cases x (latest p xs)) [
    | inl own ↦
        let k : some x ≡ some r = rw (hit, own) at h in
        let same : x ≡ r = ground arith in
        any_head (λ y. p y && y.id == r.id) x xs (ground (arith, hit, same))
    | inr later ↦
        let k : latest p xs ≡ some r = let k = rw hit at h in later ∙ k in
        any_tail (λ y. p y && y.id == r.id) x xs (latest-any p xs r k)
  ]
  | inr miss ↦ any_tail (λ y. p y && y.id == r.id) x xs (latest-any p xs r (rw miss at h))
]

abbrev touched_rows : ℕ → String → ℕ → List IncidentRow → List IncidentRow
touched_rows id details now =
    update_where (λ r. r.id == id) (λ r. record r { updated_at = now; details = details })

-- The tables after a trap that is no recovery.
abbrev after_report : Os → Option ℕ → TrapClassification → ℕ → String → Db → Option IncidentRow → Db
after_report os dev c window details db none =
    add_row (new_row dev (trap_assignee os c.severity) c.title c.severity "trap" details db) db
after_report os dev c window details db (some r) = record db {
  incidents = touched_rows r.id details db.now db.incidents;
}

abbrev found_open : Option ℕ → TrapClassification → ℕ → Db → Option IncidentRow
found_open dev c window db = latest (is_trap_match dev c.title window db.now) db.incidents

reported_as :
    (os : Os) (dev : Option ℕ) (c : TrapClassification) (window : ℕ) (details : String) (db : Db)
    (o : Option IncidentRow)
    → c.recovery ≡ false
    → found_open dev c window db ≡ o
    → report_trap os dev c window details (sound db)
      ≡ (ok tt, sound (after_report os dev c window details db o))
unfolding report_trap trap_tx advisory_lock touch_open_trap touch_found touch_or_insert_trap execute
reported_as os dev c window details db none fresh h = rw (fresh, h) refl
reported_as os dev c window details db (some r) fresh h = rw (fresh, h) refl

-- A touched row is fresh.
touched-fresh :
    (dev : Option ℕ) (title : String) (window now : ℕ) (details : String) (id : ℕ)
    (rs : List IncidentRow)
    → any (λ x. is_trap_match dev title window now x && x.id == id) rs ≡ true
    → any (is_trap_match dev title 0 now) (touched_rows id details now rs) ≡ true
unfolding is_trap_match
touched-fresh dev title window now details id [] h = h
touched-fresh dev title window now details id (r ∷ rs) h =
    ground (arith, touched-fresh dev title window now details id rs)

after-fresh :
    (os : Os) (dev : Option ℕ) (c : TrapClassification) (window : ℕ) (details : String) (db : Db)
    (o : Option IncidentRow)
    → found_open dev c window db ≡ o
    → any (is_trap_match dev c.title 0 db.now) (after_report os dev c window details db o).incidents
      ≡ true
unfolding is_trap_match is_open
after-fresh os dev c window details db none h =
    ground (arith, same_device_refl dev, eq_iff c.title c.title)
after-fresh os dev c window details db (some r) h =
    touched-fresh dev c.title window db.now details r.id db.incidents
      (latest-any (is_trap_match dev c.title window db.now) db.incidents r h)

-- When the driver refuses nothing, a trap that is no recovery succeeds and leaves an open incident
-- of its title for its device, updated not before the trap: its report is never lost.
pub reported_is_open :
    (os : Os) (dev : Option ℕ) (c : TrapClassification) (window : ℕ) (details : String) (db : Db)
    → c.recovery ≡ false
    → (db' : Db) × (report_trap os dev c window details (sound db) ≡ (ok tt, sound db'))
      × (any (is_trap_match dev c.title 0 db.now) db'.incidents ≡ true)
reported_is_open os dev c window details db fresh = (
  after_report os dev c window details db (found_open dev c window db),
  reported_as os dev c window details db _ fresh refl,
  after-fresh os dev c window details db _ refl,
)

-- A row that was updated at `now` still matches within the window.
fresh-later :
    (dev : Option ℕ) (title : String) (window now later : ℕ) (rs : List IncidentRow)
    → later ≤ now + window * second
    → any (is_trap_match dev title 0 now) rs ≡ true
    → any (is_trap_match dev title window later) rs ≡ true
unfolding is_trap_match
fresh-later dev title window now later [] le h = h
fresh-later dev title window now later (r ∷ rs) le h =
    ground (arith, fresh-later dev title window now later rs le)

any-latest :
    (p : IncidentRow → Bool) (rs : List IncidentRow)
    → any p rs ≡ true
    → (r : IncidentRow) × (latest p rs ≡ some r)
unfolding latest
any-latest p [] h = cc
any-latest p (x ∷ xs) h = elim (Bool-cases (p x)) [
  | inl hit ↦ (newer x (latest p xs), rw hit refl)
  | inr miss ↦ let (r, e) = any-latest p xs (rw miss at h) in (r, rw miss e)
]

-- While an incident matches, a further trap adds no row.
matched_adds_none :
    (os : Os) (dev : Option ℕ) (c : TrapClassification) (window : ℕ) (details : String) (db : Db)
    → c.recovery ≡ false
    → any (is_trap_match dev c.title window db.now) db.incidents ≡ true
    → length (report_trap os dev c window details (sound db)).1.db.incidents ≡ length db.incidents
matched_adds_none os dev c window details db fresh h =
    let (r, e) = any-latest _ db.incidents h in
    rw (reported_as os dev c window details db (some r) fresh e) (
      length-update_where (λ x. x.id == r.id)
        (λ x. record x { updated_at = db.now; details = details }) db.incidents)

abbrev pub later_db : ℕ → Db → Db
later_db now db = record db { now = now }

second_adds_none :
    (os : Os) (dev : Option ℕ) (c c' : TrapClassification) (window : ℕ) (details details' : String)
    (db : Db) (later : ℕ)
    → c.recovery ≡ false
    → c'.recovery ≡ false
    → c.title ≡ c'.title
    → later ≤ db.now + window * second
    → let after = (report_trap os dev c window details (sound db)).1.db in
      length (report_trap os dev c' window details' (sound (later_db later after))).1.db.incidents
      ≡ length after.incidents
second_adds_none os dev c c' window details details' db later fresh fresh' same le =
    let o = found_open dev c window db in
    rw (reported_as os dev c window details db o fresh refl) (
      matched_adds_none os dev c' window details'
        (later_db later (after_report os dev c window details db o)) fresh'
        (rw (← same) (
          fresh-later dev c.title window db.now later _ le
            (after-fresh os dev c window details db o refl))))

-- A link or a BFD session that went down.
loss :
    (oid : String)
    → ((trap_signal_from_oid oid ≡ link_down) ⊎ (trap_signal_from_oid oid ≡ bfd_down))
    → ((default_trap_classification oid).title ≡ "Link loss detected")
      × ((default_trap_classification oid).recovery ≡ false)
unfolding default_trap_classification trap_incident_title trap_is_recovery_signal
loss oid (inl e) = rw e (refl, refl)
loss oid (inr e) = rw e (refl, refl)

-- For traps that no mapping of the table answers, so that each is classified by its identifier alone:
-- when the driver refuses nothing and a trap of a link or a BFD session that went down comes within
-- the window after another such trap of the same device, whichever of the two signals each has, it
-- adds no incident to those that the first left.
pub link_loss_is_one :
    (os : Os) (dev : Option ℕ) (oid oid' : String) (window : ℕ) (details details' : String)
    (db : Db) (later : ℕ)
    → ((trap_signal_from_oid oid ≡ link_down) ⊎ (trap_signal_from_oid oid ≡ bfd_down))
    → ((trap_signal_from_oid oid' ≡ link_down) ⊎ (trap_signal_from_oid oid' ≡ bfd_down))
    → later ≤ db.now + window * second
    → let after =
        (report_trap os dev (default_trap_classification oid) window details (sound db)).1.db in
      length
        (report_trap os dev
          (default_trap_classification oid')
          window
          details'
          (sound (later_db later after))).1.db.incidents
      ≡ length after.incidents
link_loss_is_one os dev oid oid' window details details' db later h h' le =
    let (t, r) = loss oid h in
    let (t', r') = loss oid' h' in
    second_adds_none os dev (default_trap_classification oid) (default_trap_classification oid')
      window details details' db later r r' (t ∙ sym t') le

resolved-closed :
    (device now : ℕ) (titles : List String) (r : IncidentRow)
    → is_open_trap_of device titles (resolve_row now r) ≡ false
unfolding is_open_trap_of is_open
resolved-closed device now titles r = ground arith

-- Resolving leaves no row that was to be resolved.
resolved-none :
    (device now : ℕ) (titles : List String) (rs : List IncidentRow)
    → any
        (is_open_trap_of device titles)
        (update_where (is_open_trap_of device titles) (resolve_row now) rs)
      ≡ false
resolved-none device now titles [] = refl
resolved-none device now titles (r ∷ rs) = elim (Bool-cases (is_open_trap_of device titles r)) [
  | inl hit ↦ rw (hit, resolved-closed device now titles r) (resolved-none device now titles rs)
  | inr miss ↦ rw (miss, miss) (resolved-none device now titles rs)
]

-- When the driver refuses nothing, a recovery trap of a known device succeeds, leaves none of the
-- device's link-loss incidents open, and adds no incident.
pub recovery_closes :
    (os : Os) (device : ℕ) (c : TrapClassification) (window : ℕ) (details : String) (db : Db)
    → c.recovery ≡ true
    → (db' : Db) × (report_trap os (some device) c window details (sound db) ≡ (ok tt, sound db'))
      × (any (is_open_trap_of device ("Link loss detected" ∷ [])) db'.incidents ≡ false)
      × (length db'.incidents ≡ length db.incidents)
unfolding report_trap resolve_open_trap_incidents title_conds resolve_titles update_and_log execute
    trim_space
recovery_closes os device c window details db h = (
  record db {
    incidents =
        update_where (is_open_trap_of device ("Link loss detected" ∷ [])) (resolve_row db.now)
          db.incidents;
    transitions =
        logged to_resolved "system" "auto-resolved by recovery trap" db.now
          (select_where (is_open_trap_of device ("Link loss detected" ∷ [])) db.incidents)
        ++ db.transitions;
  },
  rw h refl,
  resolved-none device db.now ("Link loss detected" ∷ []) db.incidents,
  length-update_where (is_open_trap_of device ("Link loss detected" ∷ [])) (resolve_row db.now)
      db.incidents,
)
