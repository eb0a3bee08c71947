-- ===== src/Trap/Life.antt =====
-- The life of the tables: traps, the mappings' administration, and every operation on incidents.
use nms.Trap.Audit.{report_trap-Keeps, resolve_open_trap_incidents-Keeps}
use nms.Trap.Stored.{IsStored, IsTrapSound, checked_mapping-IsStored, checked_mapping-Keeps}
use nms.History.{Op, perform, perform-Keeps, at-IsAudited}
use nms.Prelude.{
  ℕ, Bool, List, [], ◌∷◌, String, Option, none, some, ◌==◌, str_eq, trim_space, to_lower,
  All-update_where, All-delete_where,
}
use nms.Sql.{Sql, Conn, pure, ◌>>=◌, zoom}
use nms.Sql.Rules.{
  Keeps, Keeps-if, Keeps-bind, Keeps-pure, Keeps-query, Keeps-raise, Keeps-statement,
}
use nms.Sql.Parts.{Keeps-zoom, Keeps-or_else, Keeps-exec, Keeps-bind-known}
use nms.Incident.Tables.{Db}
use nms.Incident.Audit.{IsAudited}
use nms.Trap.Mapping.{Outside, TrapOidMapping, TrapDb, trap_oid_mapping_lookup}
use nms.Trap.Crud.{
  add_mapping, create_oid_mapping, replaced, replace_mapping, update_oid_mapping, remove_mapping,
  delete_oid_mapping, insert_trap,
}
use nms.Trap.Write.{
  tables_of, with_tables, resolve_open_trap_incidents, create_or_touch_open_trap_incident,
  classified,
}

-- Go code that works on the incident tables only.
on_tables-Keeps :
    {A : Type 0} (m : Sql Db A)
    → Keeps IsAudited m
    → Keeps IsTrapSound (zoom tables_of with_tables m)
on_tables-Keeps m h =
    Keeps-zoom IsAudited _ _ m (λ s p. p.audited)
      (λ db s p q. record { audited = p; stored = q.stored }) h

lookup-Keeps :
    (out : Outside) (oid : String) (vars : List (String × String))
    → Keeps IsTrapSound (trap_oid_mapping_lookup out oid vars)
unfolding trap_oid_mapping_lookup
lookup-Keeps out oid vars =
    Keeps-if (str_eq (trim_space (to_lower oid)) "") _ _ (λ _. Keeps-pure none) (λ _. Keeps-query _)

-- A trap.
create_or_touch_open_trap_incident-Keeps :
    (out : Outside) (ip oid : String) (vars : List (String × String)) (window : ℕ)
    → Keeps IsTrapSound (create_or_touch_open_trap_incident out ip oid vars window)
unfolding create_or_touch_open_trap_incident
create_or_touch_open_trap_incident-Keeps out ip oid vars window =
    Keeps-bind _ (lookup-Keeps out oid vars) (λ row.
      Keeps-bind _ (Keeps-or_else none _ (on_tables-Keeps _ (Keeps-query _)))
        (λ dev. on_tables-Keeps _ (report_trap-Keeps out.os dev (classified oid row) _ _)))

add_mapping-IsTrapSound :
    (m : TrapOidMapping) (s : TrapDb) → IsStored m → IsTrapSound s → IsTrapSound (add_mapping m s).1
add_mapping-IsTrapSound m s k h = record {
  audited = h.audited;
  stored = (
    record {
      known_kind = k.known_kind;
      known_severity = k.known_severity;
      has_title = k.has_title;
      has_pattern = k.has_pattern;
      has_vendor = k.has_vendor;
      has_priority = k.has_priority;
    },
    h.stored,
  );
}

create_oid_mapping-Keeps :
    (input : Option TrapOidMapping) → Keeps IsTrapSound (create_oid_mapping input)
unfolding create_oid_mapping
create_oid_mapping-Keeps none = Keeps-raise _
create_oid_mapping-Keeps (some input) =
    Keeps-bind-known IsStored _ (checked_mapping-Keeps input) (checked_mapping-IsStored input)
      (λ m k. Keeps-statement (add_mapping m) (λ s h. add_mapping-IsTrapSound m s k h))

replace_mapping-IsTrapSound :
    (id : ℕ) (m : TrapOidMapping) (s : TrapDb)
    → IsStored m
    → IsTrapSound s
    → IsTrapSound (replace_mapping id m s).1
replace_mapping-IsTrapSound id m s k h = record {
  audited = h.audited;
  stored =
      All-update_where IsStored (λ old. old.id == id) (replaced m) s.mappings
        (λ old was hit. record {
          known_kind = k.known_kind;
          known_severity = k.known_severity;
          has_title = k.has_title;
          has_pattern = k.has_pattern;
          has_vendor = k.has_vendor;
          has_priority = k.has_priority;
        })
        h.stored;
}

update_oid_mapping-Keeps :
    (id : ℕ) (input : Option TrapOidMapping) → Keeps IsTrapSound (update_oid_mapping id input)
unfolding update_oid_mapping
update_oid_mapping-Keeps id none = Keeps-if (id == 0) _ _ (λ _. Keeps-raise _) (λ _. Keeps-raise _)
update_oid_mapping-Keeps id (some input) =
    Keeps-if (id == 0) _ _ (λ _. Keeps-raise _)
      (λ _.
        Keeps-bind-known IsStored _ (checked_mapping-Keeps input) (checked_mapping-IsStored input)
          (λ m k.
            Keeps-statement (replace_mapping id m) (λ s h. replace_mapping-IsTrapSound id m s k h)))

delete_oid_mapping-Keeps : (id : ℕ) → Keeps IsTrapSound (delete_oid_mapping id)
unfolding delete_oid_mapping
delete_oid_mapping-Keeps id =
    Keeps-if (id == 0) _ _ (λ _. Keeps-raise _)
      (λ _. Keeps-statement (remove_mapping id) (λ s h. record {
        audited = h.audited;
        stored = All-delete_where IsStored (λ m. m.id == id) s.mappings h.stored;
      }))

-- The operations of `TrapsRepo` that write, and those of `Repo` on incidents.
pub data TrapOp : Type 0 where
  incidents : Op → TrapOp
  store : String → String → ℕ → List (String × String) → Bool → TrapOp
  report : String → String → List (String × String) → ℕ → TrapOp
  resolve_traps : Option ℕ → List String → String → String → TrapOp
  create_mapping : Option TrapOidMapping → TrapOp
  update_mapping : ℕ → Option TrapOidMapping → TrapOp
  delete_mapping : ℕ → TrapOp

abbrev forget : {A : Type 0} → Sql TrapDb A → Sql TrapDb (Unit {0})
forget m = m >>= λ _. pure tt

forget-Keeps :
    {A : Type 0} {P : TrapDb → Type 0} {m : Sql TrapDb A} → Keeps P m → Keeps P (forget m)
forget-Keeps h = Keeps-bind _ h (λ a. Keeps-pure tt)

unfoldable pub perform_trap : Outside → TrapOp → Sql TrapDb (Unit {0})
perform_trap out (incidents op) = zoom tables_of with_tables (perform out.os op)
perform_trap out (store ip oid uptime vars critical) = insert_trap out ip oid uptime vars critical
perform_trap out (report ip oid vars window) =
    create_or_touch_open_trap_incident out ip oid vars window
perform_trap out (resolve_traps dev titles by comment) =
    forget (zoom tables_of with_tables (resolve_open_trap_incidents dev titles by comment))
perform_trap out (create_mapping input) = forget (create_oid_mapping input)
perform_trap out (update_mapping id input) = forget (update_oid_mapping id input)
perform_trap out (delete_mapping id) = forget (delete_oid_mapping id)

perform_trap-Keeps : (out : Outside) (op : TrapOp) → Keeps IsTrapSound (perform_trap out op)
unfolding perform_trap insert_trap
perform_trap-Keeps out (incidents op) = on_tables-Keeps _ (perform-Keeps out.os op)
perform_trap-Keeps out (store ip oid uptime vars critical) =
    Keeps-exec _ (λ s h. record { audited = h.audited; stored = h.stored })
perform_trap-Keeps out (report ip oid vars window) =
    create_or_touch_open_trap_incident-Keeps out ip oid vars window
perform_trap-Keeps out (resolve_traps dev titles by comment) =
    forget-Keeps (on_tables-Keeps _ (resolve_open_trap_incidents-Keeps dev titles by comment))
perform_trap-Keeps out (create_mapping input) = forget-Keeps (create_oid_mapping-Keeps input)
perform_trap-Keeps out (update_mapping id input) = forget-Keeps (update_oid_mapping-Keeps id input)
perform_trap-Keeps out (delete_mapping id) = forget-Keeps (delete_oid_mapping-Keeps id)

pub record TrapRequest : Type 0 where
  pub op : TrapOp
  pub at : ℕ
  pub faults : List Bool

abbrev pub trap_connect : TrapDb → TrapRequest → Conn TrapDb
trap_connect s r = record {
  db = record s { tables = record s.tables { now = r.at } };
  faults = r.faults;
}

unfoldable pub run_traps : Outside → TrapDb → List TrapRequest → TrapDb
run_traps out s [] = s
run_traps out s (r ∷ rs) = run_traps out (perform_trap out r.op (trap_connect s r)).1.db rs

-- From tables whose incidents have an audited history and whose mappings have valid texts, whatever
-- traps, administration and incident operations come, at whatever times and with whatever failing
-- statements, both stay so: every incident's row has the status at which the log of its transitions
-- ends, and every stored mapping has a known signal and severity, a vendor, a pattern, a title and
-- a priority other than 0.
pub run_traps-IsTrapSound :
    (out : Outside) (s : TrapDb) (requests : List TrapRequest)
    → IsTrapSound s
    → IsTrapSound (run_traps out s requests)
unfolding run_traps
run_traps-IsTrapSound out s [] h = h
run_traps-IsTrapSound out s (r ∷ rs) h =
    run_traps-IsTrapSound out (perform_trap out r.op (trap_connect s r)).1.db rs (
      (perform_trap-Keeps out r.op).at (trap_connect s r)
        (record { audited = at-IsAudited r.at s.tables h.audited; stored = h.stored }))
