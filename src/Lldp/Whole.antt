-- ===== src/Lldp/Whole.antt =====
-- A scan of all devices is stored whole under its own id, or not at all.
use nms.Prelude.{
  ℕ, ◌+◌, ◌<◌, ◌≡◌, refl, ap, ◌∙◌, Bool, true, false, List, [], ◌∷◌, ◌++◌, some, ◌==◌, ltb, length,
  any, All, All-order_by, order_by, insert_by, first, select_where, delete_where, arith,
}
use nms.Prelude.Result.{Result, ok}
use nms.Config.{Os}
use nms.Sql.{Conn, pure, lift, ◌>>=◌, statement, query, exec, zoom, or_else}
use nms.Device.Secrets.{Crypto, Protector}
use nms.Device.Tables.{Device, Inet}
use nms.Device.Reading.{read_devices, list_devices}
use nms.Lldp.Tables.{
  LldpLink, LldpDb, LldpLinkView, new_scan, create_lldp_scan, drop_scan, delete_lldp_scan,
  latest_scan, links_of, view_of, get_latest_lldp_links,
}
use nms.Lldp.Scan.{
  Net, ScanSummary, cleaned, no_summary, lldp_max_remote_entries, name_to_ip, scan_all_devices_lldp,
}
use nms.Lldp.Bounds.{IsOrder, IsBounded, length-map}
use nms.Lldp.Snapshot.{labelled, IsGrown, scan_devices-AreScanned}

-- The ids of the scans and of the links' scans have been given before `next_scan`.
pub record IsFresh (s : LldpDb) : Type 0 where
  pub positive : (s.next_scan == 0) ≡ false
  pub scans : All (λ x. x < s.next_scan) s.scans
  pub links : All (λ l. l.0 < s.next_scan) s.links

module _ (id : ℕ) where
  delete-scans : (xs : List ℕ) → All (λ x. x < id) xs → delete_where (λ x. x == id) xs ≡ xs
  delete-scans [] h = refl
  delete-scans (x ∷ xs) h =
      let other : (x == id) ≡ false = ground (arith, h.0) in
      rw other (ap (λ ys. x ∷ ys) (delete-scans xs h.1))

  delete-links :
      (ls : List LldpLink) (old : List (ℕ × LldpLink))
      → All (λ l. l.0 < id) old
      → delete_where (λ l. l.0 == id) (labelled id ls ++ old) ≡ old
  delete-links [] [] h = refl
  delete-links [] (l ∷ old) h =
      let other : (l.0 == id) ≡ false = ground (arith, h.0) in
      rw other (ap (λ ys. l ∷ ys) (delete-links [] old h.1))
  delete-links (l ∷ ls) old h =
      let own : (id == id) ≡ true = ground arith in rw own (delete-links ls old h)

  select-none :
      (old : List (ℕ × LldpLink)) → All (λ l. l.0 < id) old → select_where (λ l. l.0 == id) old ≡ []
  select-none [] h = refl
  select-none (l ∷ old) h =
      let other : (l.0 == id) ≡ false = ground (arith, h.0) in rw other (select-none old h.1)

  select-links :
      (ls : List LldpLink) (old : List (ℕ × LldpLink))
      → All (λ l. l.0 < id) old
      → select_where (λ l. l.0 == id) (labelled id ls ++ old) ≡ labelled id ls
  select-links [] old h = select-none old h
  select-links (l ∷ ls) old h =
      let own : (id == id) ≡ true = ground arith in
      rw own (ap (λ ys. (id, l) ∷ ys) (select-links ls old h))

  newest_in :
      (ys : List ℕ) → All (λ x. x < id) ys → first (insert_by (λ a b. ltb b a) id ys) ≡ some id
  newest_in [] h = refl
  newest_in (y ∷ ys) h = let late : ltb id y ≡ false = ground (arith, h.0) in rw late refl

  first-newest :
      (xs : List ℕ) → All (λ x. x < id) xs → first (order_by (λ a b. ltb b a) (id ∷ xs)) ≡ some id
  first-newest xs h =
      newest_in (order_by (λ a b. ltb b a) xs) (All-order_by (λ x. x < id) (λ a b. ltb b a) xs h)

-- What is left: nothing of a scan that was cut off, all of a scan that was not.
abbrev pub IsLeft : LldpDb → ScanSummary × Bool → LldpDb → Type 0
IsLeft s (sum, true) t = t ≡ record s { next_scan = s.next_scan + 1 }
IsLeft s (sum, false) t =
    (views : List LldpLinkView) × ((get_latest_lldp_links (record { db = t; faults = [] })
        ≡ (ok views, record { db = t; faults = [] }))
      × (length views ≡ sum.links_inserted))

pub record IsSnapshot (limit : ℕ) (s : LldpDb) (answer : Result (ScanSummary × Bool) × Conn LldpDb)
    : Type 0 where
  pub out : ScanSummary × Bool
  pub after : LldpDb
  pub answered : answer ≡ (ok out, record { db = after; faults = [] })
  pub bounded : IsBounded limit out.0
  pub left : IsLeft s out after

module _ (limit : ℕ) (s : LldpDb) (fresh : IsFresh s) where
  -- The scan has its row.
  begun_known : any (λ x. x == s.next_scan) (new_scan s).1.scans ≡ true
  begun_known = ground arith

  grown : List LldpLink → LldpDb
  grown added = record s {
    scans = s.next_scan ∷ s.scans;
    links = labelled s.next_scan added ++ s.links;
    next_scan = s.next_scan + 1;
  }

  dropped :
      (added : List LldpLink)
      → drop_scan s.next_scan (grown added) ≡ record s { next_scan = s.next_scan + 1 }
  unfolding grown
  dropped added =
      let own : (s.next_scan == s.next_scan) ≡ true = ground arith in
      rw own (
        rw (delete-scans s.next_scan s.scans fresh.scans)
          (rw (delete-links s.next_scan added s.links fresh.links) refl))

  seen_latest :
      (t : LldpDb)
      → t.scans ≡ s.next_scan ∷ s.scans
      → get_latest_lldp_links (record { db = t; faults = [] })
        ≡ (ok (links_of s.next_scan t), record { db = t; faults = [] })
  unfolding get_latest_lldp_links query statement ◌>>=◌
  seen_latest t e =
      let newest : latest_scan t ≡ some s.next_scan =
        ap (λ xs. first (order_by (λ a b. ltb b a) xs)) e
        ∙ first-newest s.next_scan s.scans fresh.scans in
      rw newest refl

  all_seen :
      (added : List LldpLink) (t : LldpDb)
      → t.links ≡ labelled s.next_scan added ++ s.links
      → length (links_of s.next_scan t) ≡ length added
  all_seen added t e = rw e (
      rw (select-links s.next_scan added s.links fresh.links) (
        length-map (view_of t.devices.rows) (labelled s.next_scan added)
        ∙ length-map (λ l. (s.next_scan, l)) added))

  cleaned-IsSnapshot :
      (sum : ScanSummary) (over : Bool) (t : LldpDb)
      → sum.scan_id ≡ s.next_scan
      → IsBounded limit sum
      → IsGrown s.next_scan (new_scan s).1 sum.links_inserted t
      → IsSnapshot limit s (cleaned (sum, over) (record { db = t; faults = [] }))
  unfolding cleaned pure ◌>>=◌ or_else delete_lldp_scan exec statement grown
  cleaned-IsSnapshot sum true t e b h = rw e (
      rw fresh.positive (record {
        out = (record sum { scan_id = s.next_scan }, true);
        after = drop_scan s.next_scan t;
        answered = refl;
        bounded = record { stored = b.stored; found = b.found };
        left = ap (drop_scan s.next_scan) h.links_are ∙ dropped h.added;
      }))
  cleaned-IsSnapshot sum false t e b h = record {
    out = (sum, false);
    after = t;
    answered = refl;
    bounded = b;
    left = (
      links_of s.next_scan t,
      (
        seen_latest t (ap (λ u. u.scans) h.links_are),
        all_seen h.added t (ap (λ u. u.links) h.links_are) ∙ h.counted,
      ),
    );
  }

-- Where no statement fails, every secret is read and every entry of a map is visited once, a scan
-- answers. No more links are stored than found, and no more found than the limit for each scanned
-- device. If the context was over in between, the tables are as before but for the next id; else
-- GetLatestLldpLinks reads as many links as were stored.
pub scan_all_devices_lldp-IsSnapshot :
    (k : Crypto) (p : Protector) (inet : Inet) (os : Os) (net : Net) (s : LldpDb)
    (devices : List Device)
    → IsOrder net
    → IsFresh s
    → read_devices k p s.devices.now (order_by (λ a b. inet.before a.ip b.ip) s.devices.rows)
      ≡ ok devices
    → IsSnapshot
        (lldp_max_remote_entries os)
        s
        (scan_all_devices_lldp k p inet os net (record { db = s; faults = [] }))
unfolding scan_all_devices_lldp list_devices create_lldp_scan zoom query statement ◌>>=◌ lift
scan_all_devices_lldp-IsSnapshot k p inet os net s devices visits fresh listed =
    let limit = lldp_max_remote_entries os in
    let done =
      scan_devices-AreScanned s.next_scan (new_scan s).1 (begun_known limit s fresh)
        (name_to_ip devices) net visits limit devices (no_summary s.next_scan) (new_scan s).1 refl
        (record { stored = omega arith; found = omega arith })
        (record { added = []; links_are = refl; counted = refl }) in
    rw listed (
      rw done.answered (
        cleaned-IsSnapshot limit s fresh done.out.0 done.out.1 done.t done.same_id done.bounded
          done.grown))
