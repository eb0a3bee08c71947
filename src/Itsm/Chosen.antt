-- ===== src/Itsm/Chosen.antt =====
-- The mapping that answers a ticket: it stands in the table, applies, and comes first.
use nms.Prelude.{
  ℕ, ◌≡◌, Bool, true, false, not, ◌&&◌, ◌||◌, List, some, arith, ltb, ℤ, int_lt, int_lt_irreflexive,
  int_lt_one_way, int_lt_through, int_same, ◌++◌, ◌∷◌, ◌⊎◌, ◌≤◌, String, Option, none, inl, inr,
  eq_iff, str_eq, to_lower, Bool-cases, All-middle, first-none, select_where-none, refl,
  All-select_where, select_where-All, All-Mem, Mem, select_where, first-order_by, IsBefore,
}
use nms.Itsm.Mapping.{
  ItsmMapping, External, inbound_before, inbound_applies, any_or, chosen_inbound,
}

abbrev by_priority : ℤ → ℤ → ℕ → ℕ → Bool
by_priority pa pb ia ib = int_lt pa pb || not (int_lt pb pa) && ltb ia ib

priority_one_way :
    (pa pb : ℤ) (ia ib : ℕ) → by_priority pa pb ia ib ≡ true → by_priority pb pa ib ia ≡ false
priority_one_way pa pb ia ib h = ground (arith, int_lt_one_way pb pa, int_lt_one_way pa pb)

priority_through :
    (pa pb pc : ℤ) (ia ib ic : ℕ)
    → by_priority pc pb ic ib ≡ false
    → by_priority pb pa ib ia ≡ false
    → by_priority pc pa ic ia ≡ false
priority_through pa pb pc ia ib ic h k = ground (
  arith,
  int_lt_through pa pc pb,
  int_lt_through pc pa pb,
  int_lt_through pb pc pa,
  int_lt_through pc pb pa,
  int_lt_through pa pb pc,
  int_lt_through pb pa pc,
  int_lt_one_way pa pc,
  int_lt_one_way pc pa,
  int_lt_one_way pa pb,
  int_lt_one_way pb pa,
  int_lt_one_way pb pc,
  int_lt_one_way pc pb,
)

inbound_before-IsBefore : IsBefore inbound_before
unfolding inbound_before
inbound_before-IsBefore = record {
  not_itself = λ a. ground (arith, int_lt_irreflexive a.priority);
  one_way = λ a b h. priority_one_way a.priority b.priority a.id b.id h;
  through = λ a b c h k. priority_through a.priority b.priority c.priority a.id b.id c.id h k;
}

-- A text of the mapping, against the ticket's: blank, or the same without regard to case.
abbrev pub AnyOr : String → String → Type 0
AnyOr column value = (column ≡ "") ⊎ (to_lower column ≡ value)

-- An enabled mapping whose external texts are blank or the ticket's.
pub record Answers (e : External) (m : ItsmMapping) : Type 0 where
  pub is_enabled : m.enabled ≡ true
  pub provider : AnyOr m.provider e.provider
  pub status : AnyOr m.external_status e.status
  pub ticket_priority : AnyOr m.external_priority e.priority
  pub owner : AnyOr m.external_owner e.owner

-- `a` has a lower priority than `b`, or the same and an id that is not higher.
abbrev pub NotAfter : ItsmMapping → ItsmMapping → Type 0
NotAfter a b = (int_lt a.priority b.priority ≡ true) ⊎ ((a.priority ≡ b.priority) × (a.id ≤ b.id))

AnyOr-sound : (column value : String) → any_or column value ≡ true → AnyOr column value
AnyOr-sound column value h = elim (Bool-cases (str_eq column "")) [
  | inl blank ↦ inl ((eq_iff column "").0 blank)
  | inr given ↦ inr ((eq_iff (to_lower column) value).0 (ground arith))
]

AnyOr-complete : (column value : String) → AnyOr column value → any_or column value ≡ true
AnyOr-complete column value (inl e) = let k = (eq_iff column "").1 e in ground arith
AnyOr-complete column value (inr e) = let k = (eq_iff (to_lower column) value).1 e in ground arith

inbound_applies-Answers :
    (e : External) (m : ItsmMapping) → inbound_applies e m ≡ true → Answers e m
unfolding inbound_applies
inbound_applies-Answers e m h = record {
  is_enabled = ground arith;
  provider = AnyOr-sound m.provider e.provider (ground arith);
  status = AnyOr-sound m.external_status e.status (ground arith);
  ticket_priority = AnyOr-sound m.external_priority e.priority (ground arith);
  owner = AnyOr-sound m.external_owner e.owner (ground arith);
}

Answers-inbound_applies :
    (e : External) (m : ItsmMapping) → Answers e m → inbound_applies e m ≡ true
unfolding inbound_applies
Answers-inbound_applies e m h =
    rw
      (
        h.is_enabled,
        AnyOr-complete m.provider e.provider h.provider,
        AnyOr-complete m.external_status e.status h.status,
        AnyOr-complete m.external_priority e.priority h.ticket_priority,
        AnyOr-complete m.external_owner e.owner h.owner,
      )
      refl

inbound_before-NotAfter : (r m : ItsmMapping) → inbound_before m r ≡ false → NotAfter r m
unfolding inbound_before
inbound_before-NotAfter r m h = elim (Bool-cases (int_lt r.priority m.priority)) [
  | inl lower ↦ inl lower
  | inr same ↦ inr (int_same r.priority m.priority same (ground arith), ground arith)
]

chosen-cases :
    (e : External) (front back : List ItsmMapping) (m : ItsmMapping) (o : Option ItsmMapping)
    → chosen_inbound e (front ++ m ∷ back) ≡ o
    → inbound_applies e m ≡ true
    → (r : ItsmMapping) × (o ≡ some r) × Mem r (front ++ m ∷ back) × Answers e r × NotAfter r m
unfolding chosen_inbound
chosen-cases e front back m none none_chosen applies =
    let rows = front ++ m ∷ back in
    let left = select_where-none (inbound_applies e) rows (
      first-none inbound_before inbound_before-IsBefore (select_where (inbound_applies e) rows)
        none_chosen) in
    let bad = All-middle (λ x. inbound_applies e x ≡ false) front back m left in cc
chosen-cases e front back m (some r) chosen applies =
    let rows = front ++ m ∷ back in
    let (here, ahead) =
      first-order_by inbound_before inbound_before-IsBefore
        (λ x. Mem x rows × (inbound_applies e x ≡ true)) (select_where (inbound_applies e) rows) r
        (All-select_where (λ x. Mem x rows) (inbound_applies e) rows (All-Mem rows)) chosen in
    let none_ahead =
      All-middle (λ x. (inbound_applies e x && inbound_before x r) ≡ false) front back m
        (select_where-All (inbound_applies e) (λ x. inbound_before x r) rows ahead) in
    (
      r,
      refl,
      here.0,
      inbound_applies-Answers e r here.1,
      inbound_before-NotAfter r m (rw applies at none_ahead),
    )

-- When a mapping of the table answers the ticket (it is enabled, and each of its four external texts
-- is blank or, in lower case, the ticket's): a mapping is chosen; it stands in the table and answers the
-- ticket too, and it has a lower priority than the first one, or the same and an id that is not
-- higher.
pub chosen_inbound-best :
    (e : External) (front back : List ItsmMapping) (m : ItsmMapping)
    → Answers e m
    → (r : ItsmMapping) × (chosen_inbound e (front ++ m ∷ back) ≡ some r)
      × Mem r (front ++ m ∷ back)
      × Answers e r
      × NotAfter r m
chosen_inbound-best e front back m h =
    chosen-cases e front back m (chosen_inbound e (front ++ m ∷ back)) refl
      (Answers-inbound_applies e m h)
