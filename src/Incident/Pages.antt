-- ===== src/Incident/Pages.antt =====
-- A page of incidents against a description of it: what passes the filters, the order, and that no
-- row is left out while there is room.
use mathlib.Core.List.{mem-cons_self, mem-cons_of_mem}
use nms.Prelude.{
  ℕ, zero, suc, ◌+◌, ◌≤◌, ◌<◌, ◌≡◌, ◌⊎◌, refl, ap, subst, inl, inr, Bool, true, false, ◌||◌, List,
  [], ◌∷◌, ◌++◌, String, Option, none, some, arith, ltb, str_eq, eq_iff, trim_space, length, take,
  select_where, order_by, insert_by, All, All-map, Mem, IsOrdered, order_by-IsOrdered, Bool-cases,
}
use nms.Incident.Tables.{IncidentRow, Db}
use nms.Incident.Listing.{
  ListFilter, of_device, under, is_listed, newest_first, newest_first-IsBefore, page_of,
  select_page, page_is_sound,
}

-- A text that filters nothing when it is blank.
abbrev pub BlankOr : String → String → Type 0
BlankOr wanted text = (str_eq (trim_space wanted) "" ≡ true) ⊎ (text ≡ wanted)

-- Strictly past the cursor: updated earlier, or at the same time with a lower id.
abbrev pub Past : Option (ℕ × ℕ) → IncidentRow → Type 0
Past none r = Unit
Past (some (at, id)) r = (r.updated_at < at) ⊎ ((r.updated_at ≡ at) × (r.id < id))

pub record Passes (f : ListFilter) (r : IncidentRow) : Type 0 where
  pub device : (f.device_id ≡ 0) ⊎ (r.device_id ≡ some f.device_id)
  pub status : BlankOr f.status r.status
  pub severity : BlankOr f.severity r.severity
  pub past : Past f.cursor r

-- `a` was updated later than `b`, or at the same time with an id that is not lower.
abbrev pub NotOlder : IncidentRow → IncidentRow → Type 0
NotOlder a b = (b.updated_at < a.updated_at) ⊎ ((b.updated_at ≡ a.updated_at) × (b.id ≤ a.id))

abbrev pub Descending : List IncidentRow → Type 0
Descending [] = Unit
Descending (r ∷ rs) = All (λ x. NotOlder r x) rs × Descending rs

device_sound : (d : ℕ) (dev : Option ℕ) → of_device d dev ≡ true → (d ≡ 0) ⊎ (dev ≡ some d)
device_sound zero dev h = inl refl
device_sound (suc d) none h = cc
device_sound (suc d) (some e) h = let same : e ≡ suc d = ground arith in inr (ap some same)

device_complete : (d : ℕ) (dev : Option ℕ) → (d ≡ 0) ⊎ (dev ≡ some d) → of_device d dev ≡ true
device_complete zero dev h = refl
device_complete (suc d) dev (inl e) = absurd (omega arith)
device_complete (suc d) dev (inr e) = rw e (ground arith)

BlankOr-sound :
    (wanted text : String)
    → (str_eq (trim_space wanted) "" || str_eq text wanted) ≡ true
    → BlankOr wanted text
BlankOr-sound wanted text h = elim (Bool-cases (str_eq (trim_space wanted) "")) [
  | inl blank ↦ inl blank
  | inr given ↦ inr ((eq_iff text wanted).0 (ground arith))
]

BlankOr-complete :
    (wanted text : String)
    → BlankOr wanted text
    → (str_eq (trim_space wanted) "" || str_eq text wanted) ≡ true
BlankOr-complete wanted text (inl blank) = rw blank refl
BlankOr-complete wanted text (inr e) = let k = (eq_iff text wanted).1 e in ground arith

Past-sound : (c : Option (ℕ × ℕ)) (r : IncidentRow) → under c r ≡ true → Past c r
Past-sound none r h = tt
Past-sound (some (at, id)) r h = elim (Bool-cases (ltb r.updated_at at)) [
  | inl earlier ↦ inl (ground arith)
  | inr other ↦ inr (ground arith, ground arith)
]

Past-complete : (c : Option (ℕ × ℕ)) (r : IncidentRow) → Past c r → under c r ≡ true
Past-complete none r h = refl
Past-complete (some (at, id)) r (inl earlier) = ground arith
Past-complete (some (at, id)) r (inr (same, lower)) = ground arith

is_listed-Passes : (f : ListFilter) (r : IncidentRow) → is_listed f r ≡ true → Passes f r
unfolding is_listed
is_listed-Passes f r h = record {
  device = device_sound f.device_id r.device_id (ground arith);
  status = BlankOr-sound f.status r.status (ground arith);
  severity = BlankOr-sound f.severity r.severity (ground arith);
  past = Past-sound f.cursor r (ground arith);
}

Passes-is_listed : (f : ListFilter) (r : IncidentRow) → Passes f r → is_listed f r ≡ true
unfolding is_listed
Passes-is_listed f r h =
    let device = device_complete f.device_id r.device_id h.device in
    let status = BlankOr-complete f.status r.status h.status in
    let severity = BlankOr-complete f.severity r.severity h.severity in
    rw (device, status, severity, Past-complete f.cursor r h.past) refl

not_newer-NotOlder : (a b : IncidentRow) → newest_first b a ≡ false → NotOlder a b
unfolding newest_first
not_newer-NotOlder a b h = elim (Bool-cases (ltb b.updated_at a.updated_at)) [
  | inl later ↦ inl (ground arith)
  | inr other ↦ inr (ground arith, ground arith)
]

ordered-Descending : (rs : List IncidentRow) → IsOrdered newest_first rs → Descending rs
ordered-Descending [] h = tt
ordered-Descending (r ∷ rs) h = (
  All-map (λ x. newest_first x r ≡ false) (λ x. NotOlder r x) rs (λ x k. not_newer-NotOlder r x k)
      h.0,
  ordered-Descending rs h.1,
)

-- A row stands in a list.
abbrev Stands : IncidentRow → List IncidentRow → Type 0
Stands m [] = ⊥
Stands m (r ∷ rs) = (r ≡ m) ⊎ Stands m rs

Stands-middle : (m : IncidentRow) (front back : List IncidentRow) → Stands m (front ++ m ∷ back)
Stands-middle m [] back = inl refl
Stands-middle m (r ∷ front) back = inr (Stands-middle m front back)

Stands-Mem : (m : IncidentRow) (rs : List IncidentRow) → Stands m rs → Mem m rs
Stands-Mem m [] h = absurd h
Stands-Mem m (r ∷ rs) (inl e) = subst (λ x. Mem x (r ∷ rs)) e mem-cons_self
Stands-Mem m (r ∷ rs) (inr h) = mem-cons_of_mem r (Stands-Mem m rs h)

All-Stands :
    (P : IncidentRow → Type 0) (m : IncidentRow) (rs : List IncidentRow)
    → All P rs
    → Stands m rs
    → P m
All-Stands P m [] h s = absurd s
All-Stands P m (r ∷ rs) h (inl e) = subst P e h.0
All-Stands P m (r ∷ rs) h (inr s) = All-Stands P m rs h.1 s

Stands-select_where :
    (p : IncidentRow → Bool) (m : IncidentRow) (rs : List IncidentRow)
    → p m ≡ true
    → Stands m rs
    → Stands m (select_where p rs)
Stands-select_where p m [] h s = s
Stands-select_where p m (r ∷ rs) h (inl e) = let hit : p r ≡ true = rw e h in rw hit (inl e)
Stands-select_where p m (r ∷ rs) h (inr s) = elim (Bool-cases (p r)) [
  | inl hit ↦ rw hit (inr (Stands-select_where p m rs h s))
  | inr miss ↦ rw miss (Stands-select_where p m rs h s)
]

module _ (before : IncidentRow → IncidentRow → Bool) (m : IncidentRow) where
  Stands-insert_new :
      (r : IncidentRow) (rs : List IncidentRow) → r ≡ m → Stands m (insert_by before r rs)
  Stands-insert_new r [] e = inl e
  Stands-insert_new r (x ∷ rs) e = elim (Bool-cases (before x r)) [
    | inl hit ↦ rw hit (inr (Stands-insert_new r rs e))
    | inr miss ↦ rw miss (inl e)
  ]

  Stands-insert_by :
      (r : IncidentRow) (rs : List IncidentRow) → Stands m rs → Stands m (insert_by before r rs)
  Stands-insert_by r [] s = absurd s
  Stands-insert_by r (x ∷ rs) s = elim (Bool-cases (before x r)) [
    | inl hit ↦ rw hit (elim s [ inl e ↦ inl e | inr t ↦ inr (Stands-insert_by r rs t) ])
    | inr miss ↦ rw miss (inr s)
  ]

  Stands-order_by : (rs : List IncidentRow) → Stands m rs → Stands m (order_by before rs)
  Stands-order_by [] s = s
  Stands-order_by (r ∷ rs) (inl e) = Stands-insert_new r (order_by before rs) e
  Stands-order_by (r ∷ rs) (inr s) = Stands-insert_by r (order_by before rs) (Stands-order_by rs s)

  -- A row of an ordered list is among the first ones, or it is not before any of them.
  Stands-take :
      (n : ℕ) (rs : List IncidentRow)
      → IsOrdered before rs
      → Stands m rs
      → Stands m (take n rs)
        ⊎ ((length (take n rs) ≡ n) × (n < length rs) × All (λ r. before m r ≡ false) (take n rs))
  Stands-take zero [] h s = absurd s
  Stands-take zero (r ∷ rs) h s = inr (refl, omega arith, tt)
  Stands-take (suc n) [] h s = absurd s
  Stands-take (suc n) (r ∷ rs) h (inl e) = inl (inl e)
  Stands-take (suc n) (r ∷ rs) h (inr s) = elim (Stands-take n rs h.1 s) [
    | inl on ↦ inl (inr on)
    | inr (full, more, behind) ↦
        inr (ap suc full, omega arith, (All-Stands (λ x. before x r ≡ false) m rs h.0 s, behind))
  ]

take-take : (n : ℕ) (rs : List IncidentRow) → take n (take (suc n) rs) ≡ take n rs
take-take zero rs = refl
take-take (suc n) [] = refl
take-take (suc n) (r ∷ rs) = ap (λ xs. r ∷ xs) (take-take n rs)

more-take : (n : ℕ) (rs : List IncidentRow) → ltb n (length (take (suc n) rs)) ≡ ltb n (length rs)
more-take zero [] = refl
more-take zero (r ∷ rs) = ground arith
more-take (suc n) [] = refl
more-take (suc n) (r ∷ rs) = ground (arith, more-take n rs)

on_page :
    (limit : ℕ) (f : ListFilter) (db : Db) (m : IncidentRow)
    → Stands m db.incidents
    → Passes f m
    → Mem m (select_page limit f db).items
      ⊎ ((length (select_page limit f db).items ≡ limit)
          × ((select_page limit f db).more ≡ true)
          × All (λ r. NotOlder r m) (select_page limit f db).items)
unfolding select_page page_of
on_page limit f db m stands passes =
    let rows = order_by newest_first (select_where (is_listed f) db.incidents) in
    let ordered =
      order_by-IsOrdered newest_first newest_first-IsBefore
        (select_where (is_listed f) db.incidents) in
    let there =
      Stands-order_by newest_first m (select_where (is_listed f) db.incidents)
        (Stands-select_where (is_listed f) m db.incidents (Passes-is_listed f m passes) stands) in
    let one_more : limit + 1 ≡ suc limit = omega arith in
    rw (one_more, take-take limit rows, more-take limit rows)
      (elim (Stands-take newest_first m limit rows ordered there) [
        | inl on ↦ inl (Stands-Mem m (take limit rows) on)
        | inr (full, more, behind) ↦ inr (
          full,
          ground arith,
          All-map (λ r. newest_first m r ≡ false) (λ r. NotOlder r m) (take limit rows)
              (λ r k. not_newer-NotOlder r m k) behind,
        )
      ])

-- When a row of the table passes the filters and lies past the cursor: the page holds no more rows
-- than its limit, each of the table and passing too, from the newest to the oldest by the time
-- of the last update and then the id; and the row is on the page, or else the page is full, says that
-- there are more, and holds no row that is older.
pub select_page-newest :
    (limit : ℕ) (f : ListFilter) (db : Db) (front back : List IncidentRow) (m : IncidentRow)
    → db.incidents ≡ front ++ m ∷ back
    → Passes f m
    → (length (select_page limit f db).items ≤ limit)
      × All (λ r. Mem r db.incidents × Passes f r) (select_page limit f db).items
      × Descending (select_page limit f db).items
      × (Mem m (select_page limit f db).items
          ⊎ ((length (select_page limit f db).items ≡ limit)
              × ((select_page limit f db).more ≡ true)
              × All (λ r. NotOlder r m) (select_page limit f db).items))
select_page-newest limit f db front back m stands passes =
    let (few, all, ordered) = page_is_sound limit f db in
    (
      few,
      All-map (λ r. Mem r db.incidents × (is_listed f r ≡ true))
          (λ r. Mem r db.incidents × Passes f r) (select_page limit f db).items
          (λ r h. (h.0, is_listed-Passes f r h.1)) all,
      ordered-Descending (select_page limit f db).items ordered,
      on_page limit f db m (rw stands (Stands-middle m front back)) passes,
    )
