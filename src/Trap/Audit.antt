-- ===== src/Trap/Audit.antt =====
-- The incidents of traps keep the audit trail.
use nms.Prelude.{ℕ, ◌≡◌, refl, true, List, [], ◌∷◌, String, Option, none, some, arith}
use nms.Config.{Os}
use nms.Sql.Rules.{
  Ensures, Keeps, Ensures-pure, Ensures-exec, Ensures-statement, Ensures-bind, Keeps-in_tx,
  Keeps-if, Keeps-bind, Keeps-pure,
}
use nms.Sql.Parts.{Keeps-exec, Ensures-kept}
use nms.Incident.Tables.{IncidentRow}
use nms.Incident.Touch.{is_open, advisory_lock}
use nms.Incident.Batch.{resolve_row, to_resolved}
use nms.Incident.Audit.{IsAudited, add_row-IsAudited}
use nms.Incident.Audit.Inbound.{touch_found-IsAudited}
use nms.Incident.Audit.Batch.{update_and_log-Keeps}
use nms.Incident.Audit.Resolve.{resolve_up}
use nms.Trap.Classify.{TrapClassification}
use nms.Trap.Write.{
  touch_open_trap, touch_or_insert_trap, trap_tx, title_conds, is_open_trap_of, resolve_titles,
  resolve_open_trap_incidents, report_trap,
}

touch_or_insert_trap-IsAudited :
    (os : Os) (dev : Option ℕ) (title severity details : String) (o : Option ℕ)
    → Ensures IsAudited (touch_or_insert_trap os dev title severity details o) (λ _. IsAudited)
unfolding touch_or_insert_trap
touch_or_insert_trap-IsAudited os dev title severity details (some id) =
    Ensures-pure _ tt (λ db p. p)
touch_or_insert_trap-IsAudited os dev title severity details none =
    Ensures-exec _ _ (λ db p. add_row-IsAudited _ _ _ _ _ _ db p)

trap_tx-IsAudited :
    (os : Os) (dev : Option ℕ) (title severity : String) (window : ℕ) (details : String)
    → Ensures IsAudited (trap_tx os dev title severity window details) (λ _. IsAudited)
unfolding trap_tx advisory_lock touch_open_trap
trap_tx-IsAudited os dev title severity window details =
    Ensures-bind (λ _. IsAudited) _ (Ensures-exec _ _ (λ db p. p))
      (λ _.
        Ensures-bind (λ _. IsAudited) _
          (Ensures-statement _ _ (λ db p. touch_found-IsAudited details db _ p))
          (λ o. touch_or_insert_trap-IsAudited os dev title severity details o))

open_trap_of :
    (device : ℕ) (titles : List String) (r : IncidentRow)
    → is_open_trap_of device titles r ≡ true
    → is_open r.status ≡ true
unfolding is_open_trap_of
open_trap_of device titles r h = ground arith

resolve_titles-Keeps :
    (device : ℕ) (titles : List String) (by comment : String)
    → Keeps IsAudited (resolve_titles device titles by comment)
unfolding resolve_titles
resolve_titles-Keeps device [] by comment =
    Keeps-bind _ (Keeps-exec _ (λ db p. p)) (λ _. Keeps-pure 0)
resolve_titles-Keeps device (t ∷ ts) by comment = Keeps-in_tx _ (
    Ensures-kept _ (
      update_and_log-Keeps (λ db. is_open_trap_of device (t ∷ ts)) resolve_row to_resolved _ _
        (λ db. record {
          same_id = λ r. refl;
          moved = λ r. refl;
          upward = λ r hit known. resolve_up r.status (open_trap_of device (t ∷ ts) r hit) known;
        })))

pub resolve_open_trap_incidents-Keeps :
    (dev : Option ℕ) (titles : List String) (by comment : String)
    → Keeps IsAudited (resolve_open_trap_incidents dev titles by comment)
unfolding resolve_open_trap_incidents
resolve_open_trap_incidents-Keeps none titles by comment = Keeps-pure 0
resolve_open_trap_incidents-Keeps (some device) [] by comment = Keeps-pure 0
resolve_open_trap_incidents-Keeps (some device) (t ∷ ts) by comment =
    resolve_titles-Keeps device (title_conds (t ∷ ts)) by comment

pub report_trap-Keeps :
    (os : Os) (dev : Option ℕ) (c : TrapClassification) (window : ℕ) (details : String)
    → Keeps IsAudited (report_trap os dev c window details)
unfolding report_trap
report_trap-Keeps os dev c window details =
    Keeps-if c.recovery _ _
      (λ _.
        Keeps-bind _ (resolve_open_trap_incidents-Keeps dev ("Link loss detected" ∷ []) _ _)
          (λ n. Keeps-pure tt))
      (λ _. Keeps-in_tx _ (trap_tx-IsAudited os dev c.title c.severity window details))
