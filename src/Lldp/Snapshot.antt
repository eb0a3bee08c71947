-- ===== src/Lldp/Snapshot.antt =====
-- A scan is a snapshot: it is stored whole under its own id, or not at all.
use nms.Prelude.{
  ℕ, ◌+◌, ◌≤◌, ◌≡◌, refl, sym, ap, subst, Bool, true, false, List, [], ◌∷◌, ◌++◌, map, String,
  Option, none, some, ◌==◌, length, any, Bool-cases, inl, inr, arith,
}
use nms.Prelude.Result.{Result, ok}
use nms.Sql.{Conn, pure, lift, ◌>>=◌, statement, or_else}
use nms.Device.Tables.{Device}
use nms.Lldp.Tables.{LldpLink, LldpDb, conflicts, add_link, insert_lldp_link}
use nms.Lldp.Scan.{
  Net, Walks, ScanSummary, links_found, insert_links, walk_tables, scan_devices, add_device,
}
use nms.Lldp.Bounds.{IsOrder, IsBounded, links_found_most, add_device-IsBounded}

-- The links of the scan `id` on top of those that `s` had.
abbrev pub labelled : ℕ → List LldpLink → List (ℕ × LldpLink)
labelled id = map (λ l. (id, l))

-- `t` is `s` with `n` links of the scan `id` more.
pub record IsGrown (id : ℕ) (s : LldpDb) (n : ℕ) (t : LldpDb) : Type 0 where
  pub added : List LldpLink
  pub links_are : t ≡ record s { links = labelled id added ++ s.links }
  pub counted : length added ≡ n

module _ (id : ℕ) (s : LldpDb) (known : any (λ x. x == id) s.scans ≡ true) where
  -- What one INSERT answers and leaves.
  record IsInserted (n : ℕ) (answer : Result ℕ × LldpDb) : Type 0 where
    one : ℕ
    answered : answer.0 ≡ ok one
    at_most_one : one ≤ 1
    grown : IsGrown id s (n + one) answer.1

  add_link-IsInserted :
      (l : LldpLink) (n : ℕ) (t : LldpDb) → IsGrown id s n t → IsInserted n (add_link id l t)
  unfolding add_link
  add_link-IsInserted l n t h =
      let there : any (λ x. x == id) t.scans ≡ true = rw h.links_are known in
      elim (Bool-cases (any (conflicts id l) t.links)) [
        | inl hit ↦ rw there (
            rw hit (record {
              one = 0;
              answered = refl;
              at_most_one = omega arith;
              grown = record {
                added = h.added;
                links_are = h.links_are;
                counted = omega (arith, h.counted);
              };
            }))
        | inr miss ↦ rw there (
            rw miss (record {
              one = 1;
              answered = refl;
              at_most_one = omega arith;
              grown = record {
                added = l ∷ h.added;
                links_are =
                    ap {A = LldpDb} (λ u. record u { links = (id, l) ∷ u.links }) h.links_are;
                counted = omega (arith, h.counted);
              };
            }))
      ]

  -- What the inserts of a device answer and leave, where no statement fails.
  record AreInserted (n most : ℕ) (answer : Result ℕ × Conn LldpDb) : Type 0 where
    count : ℕ
    t : LldpDb
    answered : answer ≡ (ok count, record { db = t; faults = [] })
    at_most : count ≤ most
    grown : IsGrown id s (n + count) t

  insert_links-AreInserted :
      (ls : List LldpLink) (n : ℕ) (t : LldpDb)
      → IsGrown id s n t
      → AreInserted n (length ls) (insert_links id ls (record { db = t; faults = [] }))
  unfolding insert_links insert_lldp_link statement ◌>>=◌ lift or_else pure
  insert_links-AreInserted [] n t h = record {
    count = 0;
    t = t;
    answered = refl;
    at_most = omega arith;
    grown = record { added = h.added; links_are = h.links_are; counted = omega (arith, h.counted) };
  }
  insert_links-AreInserted (l ∷ ls) n t h =
      let first = add_link-IsInserted l n t h in
      let rest = insert_links-AreInserted ls (n + first.one) (add_link id l t).1 first.grown in
      record {
        count = first.one + rest.count;
        t = rest.t;
        answered = rw first.answered (rw rest.answered refl);
        at_most = omega (arith, first.at_most_one, rest.at_most);
        grown = record {
          added = rest.grown.added;
          links_are = rest.grown.links_are;
          counted = omega (arith, rest.grown.counted);
        };
      }

  module _ (names : String → Option String) (net : Net) (visits : IsOrder net) (limit : ℕ) where
    -- What the loop over the devices answers and leaves, where no statement fails.
    pub record AreScanned (answer : Result (ScanSummary × Bool) × Conn LldpDb) : Type 0 where
      pub out : ScanSummary × Bool
      pub t : LldpDb
      pub answered : answer ≡ (ok out, record { db = t; faults = [] })
      pub same_id : out.0.scan_id ≡ id
      pub bounded : IsBounded limit out.0
      pub grown : IsGrown id s out.0.links_inserted t

    scanned_one :
        (d : Device) (ds : List Device) (sum : ScanSummary) (t : LldpDb) (w : Walks)
        → sum.scan_id ≡ id
        → IsBounded limit sum
        → IsGrown id s sum.links_inserted t
        → ((sum' : ScanSummary) (t' : LldpDb)
            → sum'.scan_id ≡ id
            → IsBounded limit sum'
            → IsGrown id s sum'.links_inserted t'
            → AreScanned (scan_devices names net limit ds sum' (record { db = t'; faults = [] })))
        → AreScanned (
            (insert_links sum.scan_id (links_found names net limit d w) >>= λ inserted.
            scan_devices names net limit ds
              (add_device (length (links_found names net limit d w)) inserted sum))
              (record { db = t; faults = [] }))
    unfolding ◌>>=◌
    scanned_one d ds sum t w e b h next =
        let made =
          insert_links-AreInserted (links_found names net limit d w) sum.links_inserted t h in
        let same =
          subst
            (λ i.
              insert_links i (links_found names net limit d w) (record { db = t; faults = [] })
              ≡ (ok made.count, record { db = made.t; faults = [] }))
            (sym e) made.answered in
        rw same (
          next (add_device (length (links_found names net limit d w)) made.count sum) made.t e
            (add_device-IsBounded names net visits limit (length (links_found names net limit d w))
              made.count sum (links_found_most names net visits limit d w) made.at_most b)
            made.grown)

    device_scanned :
        (d : Device) (ds : List Device) (sum : ScanSummary) (t : LldpDb) (over : Bool)
        (w : Option Walks)
        → sum.scan_id ≡ id
        → IsBounded limit sum
        → IsGrown id s sum.links_inserted t
        → ((sum' : ScanSummary) (t' : LldpDb)
            → sum'.scan_id ≡ id
            → IsBounded limit sum'
            → IsGrown id s sum'.links_inserted t'
            → AreScanned (scan_devices names net limit ds sum' (record { db = t'; faults = [] })))
        → net.is_over d ≡ over
        → walk_tables net d ≡ w
        → AreScanned (scan_devices names net limit (d ∷ ds) sum (record { db = t; faults = [] }))
    unfolding scan_devices pure
    device_scanned d ds sum t true w e b h next is_over walks =
        rw (is_over, scan_devices)
          (record {
            out = (sum, true);
            t = t;
            answered = refl;
            same_id = e;
            bounded = b;
            grown = h;
          })
    device_scanned d ds sum t false none e b h next is_over walks =
        rw (is_over, scan_devices) (rw walks (next sum t e b h))
    device_scanned d ds sum t false (some w) e b h next is_over walks =
        rw (is_over, scan_devices) (rw walks (scanned_one d ds sum t w e b h next))

    pub scan_devices-AreScanned :
        (ds : List Device) (sum : ScanSummary) (t : LldpDb)
        → sum.scan_id ≡ id
        → IsBounded limit sum
        → IsGrown id s sum.links_inserted t
        → AreScanned (scan_devices names net limit ds sum (record { db = t; faults = [] }))
    unfolding scan_devices pure
    scan_devices-AreScanned [] sum t e b h = record {
      out = (sum, false);
      t = t;
      answered = refl;
      same_id = e;
      bounded = b;
      grown = h;
    }
    scan_devices-AreScanned (d ∷ ds) sum t e b h =
        device_scanned d ds sum t (net.is_over d) (walk_tables net d) e b h
          (scan_devices-AreScanned ds) refl refl
