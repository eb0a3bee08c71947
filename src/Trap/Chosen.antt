-- ===== src/Trap/Chosen.antt =====
-- The mapping that the lookup chooses: it stands in the table, applies to the trap, and no other
-- mapping that applies comes before it.
use nms.Prelude.{
  ℕ, ◌≡◌, Bool, true, false, not, ◌&&◌, ◌||◌, List, String, none, arith, ◌==◌, ltb, ℤ, int_lt,
  int_lt_irreflexive, int_lt_one_way, int_lt_through, ◌⊎◌, ◌≤◌, ◌<◌, str_eq, any, All,
  select_where-none, select_where, first-none, IsBefore, trim_space, to_lower,
}
use nms.Trap.Mapping.{
  Outside, TrapOidMapping, vendor_rank, mapping_before, mapping_applies, chosen_mapping,
  trap_vendors_from_input,
}

-- An order by three keys.
abbrev by_keys : ℕ → ℕ → ℤ → ℤ → ℕ → ℕ → Bool
by_keys ra rb pa pb ia ib =
    ltb ra rb || ra == rb && (int_lt pb pa || not (int_lt pa pb) && ltb ia ib)

keys_one_way :
    (ra rb : ℕ) (pa pb : ℤ) (ia ib : ℕ)
    → by_keys ra rb pa pb ia ib ≡ true
    → by_keys rb ra pb pa ib ia ≡ false
keys_one_way ra rb pa pb ia ib h = ground (arith, int_lt_one_way pb pa, int_lt_one_way pa pb)

keys_through :
    (ra rb rc : ℕ) (pa pb pc : ℤ) (ia ib ic : ℕ)
    → by_keys rc rb pc pb ic ib ≡ false
    → by_keys rb ra pb pa ib ia ≡ false
    → by_keys rc ra pc pa ic ia ≡ false
keys_through ra rb rc pa pb pc ia ib ic h k = ground (
  arith,
  int_lt_through pa pc pb,
  int_lt_through pc pa pb,
  int_lt_through pb pc pa,
  int_lt_through pc pb pa,
  int_lt_through pa pb pc,
  int_lt_through pb pa pc,
  int_lt_one_way pa pc,
  int_lt_one_way pa pb,
  int_lt_one_way pb pc,
)

-- The order of the lookup. A row is not before itself: its three keys are equal.
mapping_before-IsBefore : (vendors : List String) → IsBefore (mapping_before vendors)
unfolding mapping_before
mapping_before-IsBefore vendors = record {
  not_itself = λ a. ground (arith, int_lt_irreflexive a.priority);
  one_way = λ a b h.
      keys_one_way (vendor_rank vendors a.vendor) (vendor_rank vendors b.vendor) a.priority
        b.priority a.id b.id h;
  through = λ a b c h k.
      keys_through (vendor_rank vendors a.vendor) (vendor_rank vendors b.vendor)
        (vendor_rank vendors c.vendor) a.priority b.priority c.priority a.id b.id c.id h k;
}

-- What a mapping needs to answer a trap: it is enabled, its vendor is "generic" or one that the trap
-- names, and its pattern matches the trap's identifier, trimmed and in lower case.
pub record Fits (out : Outside) (oid : String) (vars : List (String × String)) (m : TrapOidMapping)
    : Type 0 where
  pub is_enabled : m.enabled ≡ true
  pub vendor :
      (m.vendor ≡ "generic")
      ⊎ (any (λ v. str_eq m.vendor v) (trap_vendors_from_input oid vars) ≡ true)
  pub pattern : out.ilike (trim_space (to_lower oid)) m.oid_pattern ≡ true

-- Of two mappings: the first vendor of the trap before "generic", and it before the others; then the
-- higher priority; then the lower id.
abbrev pub NotAfter : List String → TrapOidMapping → TrapOidMapping → Type 0
NotAfter vendors a b =
    (vendor_rank vendors a.vendor < vendor_rank vendors b.vendor)
    ⊎ ((vendor_rank vendors a.vendor ≡ vendor_rank vendors b.vendor)
        × ((int_lt b.priority a.priority ≡ true) ⊎ ((a.priority ≡ b.priority) × (a.id ≤ b.id))))

-- No mapping is chosen only when none of the table applies.
pub chosen_mapping-none :
    (out : Outside) (oid : String) (vars : List (String × String)) (rows : List TrapOidMapping)
    → chosen_mapping out oid vars rows ≡ none
    → All
        (λ other.
          mapping_applies out (trim_space (to_lower oid)) (trap_vendors_from_input oid vars) other
          ≡ false)
        rows
unfolding chosen_mapping
chosen_mapping-none out oid vars rows e =
    let vendors = trap_vendors_from_input oid vars in
    let applies = mapping_applies out (trim_space (to_lower oid)) vendors in
    select_where-none applies rows (
      first-none (mapping_before vendors) (mapping_before-IsBefore vendors)
        (select_where applies rows) e)
