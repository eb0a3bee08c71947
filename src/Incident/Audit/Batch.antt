-- ===== src/Incident/Audit/Batch.antt =====
-- Escalation and automatic resolution keep the audit trail: many rows change, and one transition is
-- logged for each.
use nms.Prelude.{
  ℕ, ◌≤◌, ◌<◌, ◌≡◌, refl, sym, ◌∙◌, Bool, true, false, List, [], ◌∷◌, ◌++◌, String, arith, ◌==◌,
  All, All-update_where, select_where, update_where, if◌then◌else◌, Bool-cases, inl, inr,
}
use nms.Sql.Rules.{Keeps, Keeps-statement}
use nms.Incident.Status.{Status, name, IsStatus}
use nms.Incident.Path.{rank}
use nms.Incident.Tables.{IncidentRow, IncidentTransition, Db}
use nms.Incident.Batch.{logged, update_and_log}
use nms.Incident.Audit.{
  current_status, IsTrail, RowAudited, UniqueIds, IsAudited, UniqueIds-update_where,
}

-- What a batch may do to a row: keep its id, and move its status to a later or the same one.
pub record IsBatchMove (p : IncidentRow → Bool) (f : IncidentRow → IncidentRow)
    (to : String → String) : Type 0 where
  pub same_id : (r : IncidentRow) → (f r).id ≡ r.id
  pub moved : (r : IncidentRow) → (f r).status ≡ to r.status
  pub upward :
      (r : IncidentRow)
      → p r ≡ true
      → IsStatus r.status
      → (a b : Status) × (r.status ≡ name a) × (to r.status ≡ name b) × (rank a ≤ rank b)

module _ (p : IncidentRow → Bool) (f : IncidentRow → IncidentRow) (to : String → String)
    (by comment : String) (now : ℕ) (ts : List IncidentTransition) (n : ℕ)
    (k : IsBatchMove p f to) where
  abbrev entries : List IncidentRow → List IncidentTransition
  entries rs = logged to by comment now (select_where p rs) ++ ts

  -- The entries of other rows do not matter to an id.
  skip :
      (i : ℕ) (rs : List IncidentRow)
      → All (λ s. (s.id == i) ≡ false) rs
      → current_status i (entries rs) ≡ current_status i ts
  skip i [] h = refl
  skip i (r ∷ rs) h = elim (Bool-cases (p r)) [
    | inl hit ↦ rw hit (rw h.0 (skip i rs h.1))
    | inr miss ↦ rw miss (skip i rs h.1)
  ]

  logged_row :
      (r : IncidentRow) (rs : List IncidentRow)
      → All (λ s. (s.id == r.id) ≡ false) rs
      → RowAudited ts n r
      → RowAudited (entries (r ∷ rs)) n (if p r then f r else r)
  logged_row r rs u h = elim (Bool-cases (p r)) [
    | inl hit ↦
        let (a, b, from, up_to, le) = k.upward r hit h.2 in
        rw hit (
          rw (k.same_id r) (ground (arith, k.moved r)),
          rw (k.same_id r) h.1,
          (b, k.moved r ∙ up_to),
        )
    | inr miss ↦ rw miss (h.0 ∙ sym (skip r.id rs u), h.1, h.2)
  ]

  behind_row :
      (r s : IncidentRow) (rs : List IncidentRow)
      → (s.id == r.id) ≡ false
      → RowAudited (entries rs) n s
      → RowAudited (entries (r ∷ rs)) n s
  behind_row r s rs u h = elim (Bool-cases (p r)) [
    | inl hit ↦ rw hit (ground (arith, h.0), h.1, h.2)
    | inr miss ↦ rw miss h
  ]

  -- The entry of an earlier row does not matter to the later ones.
  behind :
      (r : IncidentRow) (rs ss : List IncidentRow)
      → All (λ s. (s.id == r.id) ≡ false) ss
      → All (RowAudited (entries rs) n) ss
      → All (RowAudited (entries (r ∷ rs)) n) ss
  behind r rs [] u h = tt
  behind r rs (s ∷ ss) u h = (behind_row r s rs u.0 h.0, behind r rs ss u.1 h.1)

  pub rows_logged :
      (rs : List IncidentRow)
      → UniqueIds rs
      → All (RowAudited ts n) rs
      → All (RowAudited (entries rs) n) (update_where p f rs)
  rows_logged [] u h = tt
  rows_logged (r ∷ rs) u h =
      let apart =
        All-update_where (λ s. (s.id == r.id) ≡ false) p f rs (λ s q hit. rw (k.same_id s) q) u.0 in
      (logged_row r rs u.0 h.0, behind r rs _ apart (rows_logged rs u.1 h.1))

  pub IsTrail-logged :
      (rs : List IncidentRow)
      → UniqueIds rs
      → All (RowAudited ts n) rs
      → IsTrail ts
      → IsTrail (entries rs)
  IsTrail-logged [] u h t = t
  IsTrail-logged (r ∷ rs) u h t = elim (Bool-cases (p r)) [
    | inl hit ↦
        rw hit (h.0.0 ∙ sym (skip r.id rs u.0), k.upward r hit h.0.2, IsTrail-logged rs u.1 h.1 t)
    | inr miss ↦ rw miss (IsTrail-logged rs u.1 h.1 t)
  ]

  pub ids_logged :
      (rs : List IncidentRow)
      → All (RowAudited ts n) rs
      → All (λ t. t.incident_id < n) ts
      → All (λ t. t.incident_id < n) (entries rs)
  ids_logged [] h l = l
  ids_logged (r ∷ rs) h l = elim (Bool-cases (p r)) [
    | inl hit ↦ rw hit (h.0.1, ids_logged rs h.1 l)
    | inr miss ↦ rw miss (ids_logged rs h.1 l)
  ]

pub update_and_log-Keeps :
    (c : Db → IncidentRow → Bool) (change : ℕ → IncidentRow → IncidentRow) (to : String → String)
    (by comment : String)
    → ((db : Db) → IsBatchMove (c db) (change db.now) to)
    → Keeps IsAudited (update_and_log c change to by comment)
unfolding update_and_log
update_and_log-Keeps c change to by comment k = Keeps-statement _ (λ db h.
    let go =
      rows_logged (c db) (change db.now) to by comment db.now db.transitions db.next_id (k db) in
    record {
      rows = go db.incidents h.unique h.rows;
      unique = UniqueIds-update_where (c db) (change db.now) db.incidents (k db).same_id h.unique;
      trail =
          IsTrail-logged (c db) (change db.now) to by comment db.now db.transitions db.next_id
            (k db) db.incidents h.unique h.rows h.trail;
      logged_ids =
          ids_logged (c db) (change db.now) to by comment db.now db.transitions db.next_id (k db)
            db.incidents h.rows h.logged_ids;
    })
