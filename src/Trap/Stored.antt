-- ===== src/Trap/Stored.antt =====
-- What the checks of the mapping's fields establish.
use nms.Prelude.{
  ◌≡◌, refl, Bool, true, false, ◌||◌, String, str_eq, trim_space, to_lower, any, All, ℤ, pos,
  int_eq, int_or, Bool-cases, inl, inr, if◌then◌else◌,
}
use nms.Prelude.Result.{Error, ok, err}
use nms.Sql.Rules.{
  Ensures, Keeps, Ensures-pure, Ensures-bind, Keeps-if, Keeps-bind-lift, Keeps-pure, Keeps-raise,
  Ensures-if, Ensures-lift, Ensures-raise,
}
use nms.Incident.Audit.{IsAudited}
use nms.Trap.Mapping.{TrapOidMapping, TrapDb}
use nms.Trap.Crud.{
  allowed_trap_signal_kinds, normalize_trap_mapping_signal_kind, normalize_trap_mapping_severity,
  checked_mapping,
}

-- The texts that a stored mapping has.
pub record IsStored (m : TrapOidMapping) : Type 0 where
  pub known_kind : any (λ k. str_eq k m.signal_kind) allowed_trap_signal_kinds ≡ true
  pub known_severity :
      (str_eq m.severity "critical" || str_eq m.severity "warning" || str_eq m.severity "info")
      ≡ true
  pub has_title : str_eq m.title "" ≡ false
  pub has_pattern : str_eq m.oid_pattern "" ≡ false
  pub has_vendor : str_eq m.vendor "" ≡ false
  pub has_priority : int_eq m.priority (pos 0) ≡ false

pub record IsTrapSound (s : TrapDb) : Type 0 where
  pub audited : IsAudited s.tables
  pub stored : All IsStored s.mappings

int_or-nonzero : (v p : ℤ) → int_eq v (pos 0) ≡ false → int_eq (int_or v p) (pos 0) ≡ false
int_or-nonzero v p h = elim (Bool-cases (int_eq p (pos 0))) [
  | inl zero_priority ↦ rw zero_priority h
  | inr given ↦ rw given given
]

-- A check that answers its argument has tested it.
check-passed :
    (test : String → Bool) (v k : String) (e : Error)
    → (if test v then ok v else err e) ≡ ok k
    → test k ≡ true
check-passed test v k e h = elim (Bool-cases (test v)) [
  | inl hit ↦ let same : ok v ≡ ok k = rw hit at h in let equal : v ≡ k = cc in rw (← equal) hit
  | inr miss ↦ let bad : err e ≡ ok k = rw miss at h in cc
]

kind-known :
    (v k : String)
    → normalize_trap_mapping_signal_kind v ≡ ok k
    → any (λ w. str_eq w k) allowed_trap_signal_kinds ≡ true
unfolding normalize_trap_mapping_signal_kind
kind-known v k h =
    check-passed (λ s. any (λ w. str_eq w s) allowed_trap_signal_kinds) (to_lower (trim_space v)) k
      _ h

severity-known :
    (v s : String)
    → normalize_trap_mapping_severity v ≡ ok s
    → (str_eq s "critical" || str_eq s "warning" || str_eq s "info") ≡ true
unfolding normalize_trap_mapping_severity
severity-known v s h =
    check-passed (λ s. str_eq s "critical" || str_eq s "warning" || str_eq s "info")
      (to_lower (trim_space v)) s _ h

vendor_or_generic-set : (s : String) → str_eq (if str_eq s "" then "generic" else s) "" ≡ false
vendor_or_generic-set s = elim (Bool-cases (str_eq s "")) [
  | inl blank ↦ rw blank refl
  | inr set ↦ rw set set
]

pub checked_mapping-IsStored :
    (input : TrapOidMapping)
    → Ensures IsTrapSound (checked_mapping input) (λ m s. IsStored m × IsTrapSound s)
unfolding checked_mapping
checked_mapping-IsStored input =
    Ensures-if (str_eq (to_lower (trim_space input.oid_pattern)) "") _ _ (λ _. Ensures-raise _ _)
      (λ has_pattern.
        Ensures-bind
          (λ kind s. (any (λ w. str_eq w kind) allowed_trap_signal_kinds ≡ true) × IsTrapSound s) _
          (Ensures-lift _ _ (λ kind s p e. (kind-known _ kind e, p)))
          (λ kind.
            Ensures-if (str_eq (trim_space input.title) "") _ _ (λ _. Ensures-raise _ _)
              (λ has_title.
                Ensures-bind
                  (λ severity s.
                    (any (λ w. str_eq w kind) allowed_trap_signal_kinds ≡ true)
                    × ((str_eq severity "critical"
                          || str_eq severity "warning"
                          || str_eq severity "info")
                        ≡ true)
                    × IsTrapSound s)
                  _ (Ensures-lift _ _ (λ severity s p e. (p.0, severity-known _ severity e, p.1)))
                  (λ severity. Ensures-pure _ _ (λ s p. (
                    record {
                      known_kind = p.0;
                      known_severity = p.1;
                      has_title = has_title;
                      has_pattern = has_pattern;
                      has_vendor = vendor_or_generic-set (to_lower (trim_space input.vendor));
                      has_priority = int_or-nonzero (pos 100) input.priority refl;
                    },
                    p.2,
                  ))))))

-- The checks touch no table.
pub checked_mapping-Keeps : (input : TrapOidMapping) → Keeps IsTrapSound (checked_mapping input)
unfolding checked_mapping
checked_mapping-Keeps input =
    Keeps-if (str_eq (to_lower (trim_space input.oid_pattern)) "") _ _ (λ _. Keeps-raise _)
      (λ _. Keeps-bind-lift _ _ (λ kind _.
        Keeps-if (str_eq (trim_space input.title) "") _ _ (λ _. Keeps-raise _)
          (λ _. Keeps-bind-lift _ _ (λ severity _. Keeps-pure _))))
