-- ===== src/Poll/Resolved.antt =====
-- After a recovery no incident of the device from polling is open.
use mathlib.Core.Path.{subst}
use native.Mathlib.Nat.{add-zero}
use nms.Prelude.{
  ℕ, suc, ◌+◌, ◌≡◌, ◌∙◌, refl, sym, ap, All-map, trim_space, to_lower, inl, inr, true, false, not,
  ◌&&◌, List, [], ◌∷◌, String, some, arith, ◌==◌, any, select_where, update_where, find, length,
  All, Bool-cases,
}
use nms.Poll.{
  add_event, coalesce, recovered_row, poll_status_was_failure, insert_availability_event,
  report_recovery, previous_status, update_device, recovery_body, record_poll_recovery_transition,
}
use nms.Incident.Status.{normalize_incident_source}
use nms.Sql.{pure, execute}
use nms.Prelude.Result.{ok}
use nms.Incident.Tables.{IncidentRow, DeviceRow, Db, log_transition, insert_incident_transition}
use nms.Incident.Touch.{is_open}
use nms.Incident.Batch.{is_open_of, resolve_row, resolve_loop, resolve_open_incidents_by_source_tx}
use nms.Incident.Outcome.{sound}

-- The row is none of the open ones, or it is still to be resolved.
abbrev IsLeft : ℕ → String → List IncidentRow → IncidentRow → Type 0
IsLeft d src items r = (is_open_of d src r && not (any (λ it. it.id == r.id) items)) ≡ false

resolved-closed :
    (d now : ℕ) (src : String) (r : IncidentRow) → is_open_of d src (resolve_row now r) ≡ false
unfolding is_open_of is_open
resolved-closed d now src r = ground arith

-- The tables after one round of the loop, and after the loop.
abbrev resolve_one : String → String → IncidentRow → Db → Db
resolve_one by comment it db =
    log_transition it.id it.status "resolved" by comment (record db {
      incidents = update_where (λ r. r.id == it.id) (resolve_row db.now) db.incidents;
    })

abbrev resolve_all : String → String → List IncidentRow → Db → Db
resolve_all by comment [] db = db
resolve_all by comment (it ∷ items) db = resolve_all by comment items (resolve_one by comment it db)

loop_succeeds :
    (by comment : String) (n : ℕ) (items : List IncidentRow) (db : Db)
    → resolve_loop by comment n items (sound db)
      ≡ (ok (n + length items), sound (resolve_all by comment items db))
unfolding resolve_loop insert_incident_transition execute
loop_succeeds by comment n [] db = unfold pure in rw add-zero refl
loop_succeeds by comment n (it ∷ items) db =
    let same : n + 1 + length items ≡ n + suc (length items) = omega arith in
    loop_succeeds by comment (n + 1) items (resolve_one by comment it db)
    ∙ ap (λ (k : ℕ). (ok k, sound (resolve_all by comment (it ∷ items) db))) same

one_less :
    (d now : ℕ) (src : String) (it : IncidentRow) (items rs : List IncidentRow)
    → All (IsLeft d src (it ∷ items)) rs
    → All (IsLeft d src items) (update_where (λ r. r.id == it.id) (resolve_row now) rs)
one_less d now src it items [] h = tt
one_less d now src it items (r ∷ rs) h = elim (Bool-cases (r.id == it.id)) [
  | inl hit ↦ rw hit (rw (resolved-closed d now src r) refl, one_less d now src it items rs h.1)
  | inr miss ↦ rw miss (ground (arith, h.0), one_less d now src it items rs h.1)
]

All-grow :
    (d : ℕ) (src : String) (r : IncidentRow) (rs items : List IncidentRow)
    → All (IsLeft d src items) rs
    → All (IsLeft d src (r ∷ items)) (r ∷ rs)
All-grow d src r rs items h = (
  ground arith,
  All-map (IsLeft d src items) (IsLeft d src (r ∷ items)) rs (λ x k. ground arith) h,
)

-- A selection has every row that passes.
All-selected :
    (d : ℕ) (src : String) (rs : List IncidentRow)
    → All (IsLeft d src (select_where (is_open_of d src) rs)) rs
All-selected d src [] = tt
All-selected d src (r ∷ rs) =
    let items = select_where (is_open_of d src) rs in
    elim (Bool-cases (is_open_of d src r)) [
      | inl hit ↦
          let picked : select_where (is_open_of d src) (r ∷ rs) ≡ r ∷ items = rw hit refl in
          subst (λ (m : List IncidentRow). All (IsLeft d src m) (r ∷ rs)) (sym picked)
            (All-grow d src r rs items (All-selected d src rs))
      | inr miss ↦
          let skipped : select_where (is_open_of d src) (r ∷ rs) ≡ items = rw miss refl in
          subst (λ (m : List IncidentRow). All (IsLeft d src m) (r ∷ rs)) (sym skipped)
            (rw miss refl, All-selected d src rs)
    ]

abbrev pub IsClosedOf : ℕ → String → IncidentRow → Type 0
IsClosedOf d src r = is_open_of d src r ≡ false

All-closed :
    (d : ℕ) (src by comment : String) (items : List IncidentRow) (db : Db)
    → All (IsLeft d src items) db.incidents
    → All (IsClosedOf d src) (resolve_all by comment items db).incidents
All-closed d src by comment [] db h =
    All-map (IsLeft d src []) (IsClosedOf d src) db.incidents (λ r k. ground arith) h
All-closed d src by comment (it ∷ items) db h =
    All-closed d src by comment items (resolve_one by comment it db)
      (one_less d db.now src it items db.incidents h)

resolve_all-frame :
    (by comment : String) (items : List IncidentRow) (db : Db)
    → ((resolve_all by comment items db).devices ≡ db.devices)
      × ((resolve_all by comment items db).now ≡ db.now)
resolve_all-frame by comment [] db = (refl, refl)
resolve_all-frame by comment (it ∷ items) db =
    resolve_all-frame by comment items (resolve_one by comment it db)

abbrev restored : String
restored = "SNMP опрос восстановлен"

abbrev resolve_comment : String
resolve_comment = "auto-resolved: SNMP poll restored"

-- What the transaction has resolved before it updates the device.
abbrev resolved_db : ℕ → Db → Db
resolved_db device db =
    resolve_all "system" resolve_comment (select_where (is_open_of device "polling") db.incidents)
      (add_event device "available" restored db)

report_succeeds :
    (device : ℕ) (status : String) (db : Db)
    → (device == 0) ≡ false
    → poll_status_was_failure status ≡ true
    → report_recovery device status (sound db) ≡ (ok tt, sound (resolved_db device db))
unfolding report_recovery insert_availability_event resolve_open_incidents_by_source_tx execute
    normalize_incident_source trim_space to_lower
report_succeeds device status db given failed =
    rw
      (
        failed,
        given,
        loop_succeeds "system" resolve_comment 0
            (select_where (is_open_of device "polling") db.incidents)
            (add_event device "available" restored db),
      )
      refl

-- When the driver refuses nothing and a device whose status is a failure answers a poll, the
-- transaction commits: no incident of the device from polling is open, and the device's row, and no
-- other, is that of an active device.
pub recovery_resolves :
    (device : ℕ) (db : Db) (row : DeviceRow)
    → (device == 0) ≡ false
    → find (λ d. d.id == device) db.devices ≡ some row
    → poll_status_was_failure (coalesce row.status) ≡ true
    → (db' : Db) × (record_poll_recovery_transition device (sound db) ≡ (ok tt, sound db'))
      × All (λ r. is_open_of device "polling" r ≡ false) db'.incidents
      × (db'.devices ≡ update_where (λ d. d.id == device) (recovered_row db.now) db.devices)
unfolding record_poll_recovery_transition recovery_body previous_status update_device execute
recovery_resolves device db row given found failed =
    let (devices, now) =
      resolve_all-frame "system" resolve_comment
        (select_where (is_open_of device "polling") db.incidents)
        (add_event device "available" restored db) in
    (
      record (resolved_db device db) {
        devices =
            update_where (λ d. d.id == device) (recovered_row (resolved_db device db).now)
              (resolved_db device db).devices;
      },
      rw (given, found, report_succeeds device (coalesce row.status) db given failed) refl,
      All-closed device "polling" "system" resolve_comment
          (select_where (is_open_of device "polling") db.incidents)
          (add_event device "available" restored db) (All-selected device "polling" db.incidents),
      rw (devices, now) refl,
    )
