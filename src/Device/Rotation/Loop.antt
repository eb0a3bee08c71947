-- ===== src/Device/Rotation/Loop.antt =====
-- The loop over the rows, and the updates that it collects, applied one after the other.
use nms.Prelude.{
  ℕ, ◌+◌, ◌≡◌, refl, sym, ap, ◌∙◌, subst, Bool, true, false, ◌||◌, List, [], ◌∷◌, map, some, ◌==◌,
  length, any, All, update_where, Bool-cases, inl, inr, if◌then◌else◌, arith,
}
use nms.Prelude.Result.{Result, ok}
use nms.Sql.{◌>>=◌ as and_then}
use nms.Sql.{pure, statement, exec}
use nms.Device.Secrets.{Bytes, Crypto}
use nms.Device.Secrets.Laws.{IsCipher}
use nms.Device.Tables.{DeviceColumns, DeviceDb}
use nms.Device.Repo.{Randoms}
use nms.Device.Repo.Roundtrip.{AreDrawn}
use nms.Device.Rotation.{
  Stats, no_stats, UpdateRow, rotate_row, count_row, rotate_rows, rotated, set_row, apply_updates,
}
use nms.Device.Rotation.Row.{IsReadable, IsTreated, rotate_row-IsTreated}

pub or_true : (b : Bool) → b || true ≡ true
or_true true = refl
or_true false = refl

-- Rows of one id are one row.
pub record IsSame (a b : DeviceColumns) : Type 0 where
  pub same : (a.id == b.id) ≡ true → a ≡ b

-- What the updates make of a row.
abbrev pub applied : List UpdateRow → DeviceColumns → DeviceColumns
applied [] row = row
applied (u ∷ us) row = applied us (if row.id == u.id then rotated u row else row)

-- Every update of the id of `row` is `u`.
pub record IsOnly (row : DeviceColumns) (u u' : UpdateRow) : Type 0 where
  pub only : (row.id == u'.id) ≡ true → u' ≡ u

applied_again :
    (row : DeviceColumns) (u : UpdateRow) (us : List UpdateRow)
    → All (IsOnly row u) us
    → applied us (rotated u row) ≡ rotated u row
applied_again row u [] h = refl
applied_again row u (u' ∷ us) h = elim (Bool-cases (row.id == u'.id)) [
  | inl hit ↦ rw hit (rw (h.0.only hit) (applied_again row u us h.1))
  | inr miss ↦ rw miss (applied_again row u us h.1)
]

pub applied_only :
    (row : DeviceColumns) (u : UpdateRow) (us : List UpdateRow)
    → All (IsOnly row u) us
    → applied us row ≡ (if any (λ u'. row.id == u'.id) us then rotated u row else row)
applied_only row u [] h = refl
applied_only row u (u' ∷ us) h = elim (Bool-cases (row.id == u'.id)) [
  | inl hit ↦ rw hit (rw (h.0.only hit) (applied_again row u us h.1))
  | inr miss ↦ rw miss (applied_only row u us h.1)
]

-- What the loop would make of `row`, `made`, against the update `u` of its list.
pub record IsOutcome (row : DeviceColumns) (made : UpdateRow × Bool) (u : UpdateRow) : Type 0 where
  pub is_made : (row.id == u.id) ≡ true → (u ≡ made.0) × (made.1 ≡ true)

module _ (k : Crypto) (old new : Bytes) (random : ℕ → Randoms) where
  abbrev pub make : DeviceColumns → Result (UpdateRow × Bool)
  make row = rotate_row k (some old) (some new) (random row.id) row

  -- What the loop has done after `rows`.
  pub record IsSettled (rows : List DeviceColumns) (out : Stats × List UpdateRow) : Type 0 where
    pub made_ok : rotate_rows k (some old) (some new) random rows ≡ ok out
    pub counted : out.0.scanned ≡ length rows
    pub divided : out.0.updated + out.0.skipped ≡ length rows
    pub outcomes :
        (row : DeviceColumns) (made : UpdateRow × Bool)
        → make row ≡ ok made
        → All (IsSame row) rows
        → All (IsOutcome row made) out.1
    pub hits :
        (row : DeviceColumns) (made : UpdateRow × Bool)
        → make row ≡ ok made
        → made.0.id ≡ row.id
        → made.1 ≡ true
        → All (IsSame row) rows
        → any (λ r. row.id == r.id) rows ≡ true
        → any (λ u. row.id == u.id) out.1 ≡ true

  All-count_row :
      (Q : UpdateRow → Type 0) (x : UpdateRow × Bool) (acc : Stats × List UpdateRow)
      → (x.1 ≡ true → Q x.0)
      → All Q acc.1
      → All Q (count_row x acc).1
  unfolding count_row
  All-count_row Q (u, true) (st, us) q h = (q refl, h)
  All-count_row Q (u, false) (st, us) q h = h

  any-count_row :
      (p : UpdateRow → Bool) (x : UpdateRow × Bool) (acc : Stats × List UpdateRow)
      → any p acc.1 ≡ true
      → any p (count_row x acc).1 ≡ true
  unfolding count_row
  any-count_row p (u, true) (st, us) h = rw h (or_true (p u))
  any-count_row p (u, false) (st, us) h = h

  any-count_row_new :
      (p : UpdateRow → Bool) (x : UpdateRow × Bool) (acc : Stats × List UpdateRow)
      → x.1 ≡ true
      → p x.0 ≡ true
      → any p (count_row x acc).1 ≡ true
  unfolding count_row
  any-count_row_new p (u, true) (st, us) e h = rw h refl
  any-count_row_new p (u, false) (st, us) e h = cc

  counts :
      (x : UpdateRow × Bool) (acc : Stats × List UpdateRow) (n : ℕ)
      → acc.0.scanned ≡ n
      → acc.0.updated + acc.0.skipped ≡ n
      → ((count_row x acc).0.scanned ≡ n + 1)
        × ((count_row x acc).0.updated + (count_row x acc).0.skipped ≡ n + 1)
  unfolding count_row
  counts (u, true) (st, us) n h e = (omega (arith, h), omega (arith, e))
  counts (u, false) (st, us) n h e = (omega (arith, h), omega (arith, e))

  made_once :
      (row r : DeviceColumns) (made x : UpdateRow × Bool)
      → make row ≡ ok made
      → make r ≡ ok x
      → row ≡ r
      → x ≡ made
  made_once row r made x h e same =
      let h' : make r ≡ ok made = subst (λ d. make d ≡ ok made) same h in
      let both : ◌≡◌ {A = Result (UpdateRow × Bool)} (ok x) (ok made) = sym e ∙ h' in cc

  nothing : IsSettled [] (no_stats, [])
  unfolding rotate_rows
  nothing = record {
    made_ok = refl;
    counted = refl;
    divided = refl;
    outcomes = λ row made e h. tt;
    hits = λ row made e at_id e' h found. cc;
  }

  module _ (law : IsCipher k) (r : DeviceColumns) (rows : List DeviceColumns)
      (t : IsTreated k old new (random r.id) r) (acc : Stats × List UpdateRow)
      (h : IsSettled rows acc) where
    -- The update of the first row, where it has the id of `row`.
    first-IsOutcome :
        (row : DeviceColumns) (made : UpdateRow × Bool)
        → make row ≡ ok made
        → IsSame row r
        → t.out.1 ≡ true
        → IsOutcome row made t.out.0
    first-IsOutcome row made e same ch = record {
      is_made = λ hit.
          let eq : row ≡ r = same.same (rw (sym t.of_row) hit) in
          let x : t.out ≡ made = made_once row r made t.out e t.made_ok eq in
          (ap (λ o. o.0) x, rw (sym x) ch);
    }

    one_hit :
        (row : DeviceColumns) (made : UpdateRow × Bool)
        → make row ≡ ok made
        → made.0.id ≡ row.id
        → made.1 ≡ true
        → All (IsSame row) (r ∷ rows)
        → any (λ d. row.id == d.id) (r ∷ rows) ≡ true
        → any (λ u. row.id == u.id) (count_row t.out acc).1 ≡ true
    one_hit row made e at_id ch same found = elim (Bool-cases (row.id == r.id)) [
      | inl hit ↦
          let x : t.out ≡ made = made_once row r made t.out e t.made_ok (same.0.same hit) in
          any-count_row_new (λ u. row.id == u.id) t.out acc (rw x ch) (rw t.of_row hit)
      | inr miss ↦
          any-count_row (λ u. row.id == u.id) t.out acc
            (h.hits row made e at_id ch same.1 (rw miss at found))
    ]

    one_more : IsSettled (r ∷ rows) (count_row t.out acc)
    unfolding rotate_rows
    one_more = record {
      made_ok = rw t.made_ok (rw h.made_ok refl);
      counted = (counts t.out acc (length rows) h.counted h.divided).0 ∙ omega arith;
      divided = (counts t.out acc (length rows) h.counted h.divided).1 ∙ omega arith;
      outcomes = λ row made e same.
          All-count_row (IsOutcome row made) t.out acc (first-IsOutcome row made e same.0)
            (h.outcomes row made e same.1);
      hits = λ row made e at_id ch same found. one_hit row made e at_id ch same found;
    }

  -- A loop over readable rows ends with counts and updates.
  pub rotate_rows-IsSettled :
      IsCipher k
      → ((id : ℕ) → AreDrawn k (random id))
      → (rows : List DeviceColumns) → All (IsReadable k old) rows
      → (out : Stats × List UpdateRow) × IsSettled rows out
  rotate_rows-IsSettled law drawn [] h = ((no_stats, []), nothing)
  rotate_rows-IsSettled law drawn (r ∷ rows) h =
      let t = rotate_row-IsTreated k law old new (random r.id) r (drawn r.id) h.0 in
      let (acc, rest) = rotate_rows-IsSettled law drawn rows h.1 in
      (count_row t.out acc, one_more law r rows t acc rest)

map_nothing : (rows : List DeviceColumns) → map (applied []) rows ≡ rows
map_nothing [] = refl
map_nothing (r ∷ rows) = ap (λ rs. r ∷ rs) (map_nothing rows)

map_update :
    (u : UpdateRow) (us : List UpdateRow) (rows : List DeviceColumns)
    → map (applied us) (update_where (λ row. row.id == u.id) (rotated u) rows)
      ≡ map (applied (u ∷ us)) rows
map_update u us [] = refl
map_update u us (r ∷ rows) = ap (λ rs. applied (u ∷ us) r ∷ rs) (map_update u us rows)

pub apply_updates-applied :
    (us : List UpdateRow) (s : DeviceDb)
    → apply_updates us (record { db = s; faults = [] })
      ≡ (ok tt, record { db = record s { rows = map (applied us) s.rows }; faults = [] })
unfolding apply_updates exec statement and_then pure
apply_updates-applied [] s = rw (map_nothing s.rows) refl
apply_updates-applied (u ∷ us) s =
    apply_updates-applied us (set_row u s)
    ∙ ap (λ rs. (ok tt, record { db = record s { rows = rs }; faults = [] }))
        (map_update u us s.rows)
