-- ===== src/Lldp/Bounds.antt =====
-- The limit on remote entries, and what a scan counts.
use native.Mathlib.Nat.{add-mul, one-mul}
use nms.Prelude.{
  ℕ, ◌+◌, ◌*◌, ◌≤◌, ◌≡◌, refl, ap, ◌∙◌, Bool, List, [], ◌∷◌, String, Option, none, some, leb,
  trim_space, ℤ, length, any, map, select_where, update_where, Bool-cases, inl, inr, arith,
}
use nms.Device.Tables.{Device}
use nms.Lldp.Tables.{LldpLink}
use nms.Lldp.Scan.{
  RemoteEntry, Net, Walk, Walks, ScanSummary, has_key, add_remote, remote_entries, entries_of,
  is_named, links_found, add_device,
}
use nms.Lldp.Oids.{parse_remote_indexes}

length-update_where :
    {A : Type 0} (p : A → Bool) (f : A → A) (xs : List A) → length (update_where p f xs) ≡ length xs
length-update_where p f [] = refl
length-update_where p f (x ∷ xs) = omega (arith, length-update_where p f xs)

length-select_where :
    {A : Type 0} (p : A → Bool) (xs : List A) → length (select_where p xs) ≤ length xs
length-select_where p [] = omega arith
length-select_where p (x ∷ xs) = elim (Bool-cases (p x)) [
  | inl hit ↦ rw hit (omega (arith, length-select_where p xs))
  | inr miss ↦ rw miss (omega (arith, length-select_where p xs))
]

pub length-map : {A B : Type 0} (f : A → B) (xs : List A) → length (map f xs) ≡ length xs
length-map f [] = refl
length-map f (x ∷ xs) = omega (arith, length-map f xs)

one_more_row : (n limit : ℕ) → (n + 1) * limit ≡ n * limit + limit
one_more_row n limit = add-mul n 1 limit ∙ ap (λ m. n * limit + m) (one-mul limit)

-- No more than the limit, where there are entries.
abbrev IsWithin : ℕ → Option (List RemoteEntry) → Type 0
IsWithin limit none = Unit
IsWithin limit (some es) = length es ≤ limit

add_remote-IsWithin :
    (set : RemoteEntry → RemoteEntry) (limit : ℕ) (o : Option (ℤ × ℤ)) (es : List RemoteEntry)
    → length es ≤ limit
    → IsWithin limit (add_remote set limit o es)
unfolding add_remote
add_remote-IsWithin set limit none es h = h
add_remote-IsWithin set limit (some key) es h = elim (Bool-cases (any (has_key key) es)) [
  | inl hit ↦ rw hit (omega (arith, length-update_where (has_key key) set es))
  | inr miss ↦ elim (Bool-cases (leb limit (length es))) [
    | inl full ↦ rw miss (rw full tt)
    | inr room ↦ rw miss (rw room (ground arith))
  ]
]

after_row :
    (set : String → RemoteEntry → RemoteEntry) (base : String) (limit : ℕ) (rows : Walk)
    (es : List RemoteEntry) (o : Option (List RemoteEntry))
    → length es ≤ limit
    → IsWithin limit o
    → ((es' : List RemoteEntry)
        → length es' ≤ limit
        → length (remote_entries set base limit rows es') ≤ limit)
    → length (elim o [ none ↦ es | some es' ↦ remote_entries set base limit rows es' ]) ≤ limit
after_row set base limit rows es none h within next = h
after_row set base limit rows es (some es') h within next = next es' within

remote_entries_most :
    (set : String → RemoteEntry → RemoteEntry) (base : String) (limit : ℕ) (rows : Walk)
    (es : List RemoteEntry)
    → length es ≤ limit
    → length (remote_entries set base limit rows es) ≤ limit
unfolding remote_entries
remote_entries_most set base limit [] es h = h
remote_entries_most set base limit ((oid, text) ∷ rows) es h =
    after_row set base limit rows es _ h
      (add_remote-IsWithin (set (trim_space text)) limit (parse_remote_indexes oid base) es h)
      (remote_entries_most set base limit rows)

pub entries_of_most : (limit : ℕ) (w : Walks) → length (entries_of limit w) ≤ limit
unfolding entries_of
entries_of_most limit w = remote_entries_most _ _ limit w.rem_port_desc _ (
    remote_entries_most _ _ limit w.rem_port_id _ (
      remote_entries_most _ _ limit w.rem_sys_desc _
        (remote_entries_most _ _ limit w.rem_sys_name [] (omega arith))))

-- What is documented of `range`: it visits each entry once.
pub record IsOrder (net : Net) : Type 0 where
  pub visits : (es : List RemoteEntry) → length (net.shuffle es) ≡ length es

-- No more links are stored than found, and no more found than the limit for each device.
pub record IsBounded (limit : ℕ) (s : ScanSummary) : Type 0 where
  pub stored : s.links_inserted ≤ s.links_found
  pub found : s.links_found ≤ s.devices_scanned * limit

module _ (names : String → Option String) (net : Net) (visits : IsOrder net) (limit : ℕ) where
  few :
      (f : RemoteEntry → LldpLink) (es : List RemoteEntry)
      → length es ≤ limit
      → length (map f (select_where is_named es)) ≤ limit
  few f es h =
      omega (arith, length-map f (select_where is_named es), length-select_where is_named es, h)

  pub links_found_most : (d : Device) (w : Walks) → length (links_found names net limit d w) ≤ limit
  unfolding links_found
  links_found_most d w =
      few _ (net.shuffle (entries_of limit w))
        (rw (visits.visits (entries_of limit w)) (entries_of_most limit w))

  pub add_device-IsBounded :
      (found inserted : ℕ) (s : ScanSummary)
      → found ≤ limit
      → inserted ≤ found
      → IsBounded limit s
      → IsBounded limit (add_device found inserted s)
  add_device-IsBounded found inserted s a b h = record {
    stored = omega (arith, h.stored);
    found = omega (arith, one_more_row s.devices_scanned limit, h.found, a);
  }
