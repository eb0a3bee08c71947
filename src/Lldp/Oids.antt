-- ===== src/Lldp/Oids.antt =====
-- The indexes in the OIDs of a walk: normalizeKey, normalizeOID, parseSingleIndexFromWalk and
-- parseRemoteIndexes of internal/usecases/lldp/scanner.go, with `strconv.Atoi`,
-- `strings.TrimPrefix` and `strings.Split` of Go.
use Prim.Native.String.{◌++◌}
use nms.Prelude.Atoi.{atoi}
use nms.Prelude.{
  ℕ, ◌+◌, List, [], ◌∷◌, String, Option, none, some, str_eq, trim_space, to_lower, has_prefix,
  text_drop, split_dots, ℤ, if◌then◌else◌,
}

text_length : String → ℕ
text_length String.[] = 0
text_length (String.◌∷◌ c s) = text_length s + 1

unfoldable pub trim_prefix : String → String → String
unfolding text_length
trim_prefix s prefix = if has_prefix s prefix then text_drop (text_length prefix) s else s

unfoldable pub normalize_key : String → String
normalize_key s = to_lower (trim_space s)

unfoldable pub normalize_oid : String → String
normalize_oid s = trim_prefix (trim_space s) "."

-- The parts of an OID behind the base; `none` when it does not start with the base and a dot.
unfoldable pub parts_behind : String → String → Option (List String)
parts_behind full base =
    let oid = normalize_oid full in
    let suffix = trim_prefix oid (normalize_oid base ++ ".") in
    if str_eq suffix oid then none else some (split_dots suffix)

first_index : Option (List String) → Option ℤ
first_index none = none
first_index (some []) = none
first_index (some (p ∷ ps)) = atoi p

unfoldable pub parse_single_index_from_walk : String → String → Option ℤ
unfolding first_index
parse_single_index_from_walk full base = first_index (parts_behind full base)

both : Option ℤ → Option ℤ → Option (ℤ × ℤ)
both none b = none
both (some a) none = none
both (some a) (some b) = some (a, b)

-- The parts are the time mark, the local port and the index.
remote_indexes : Option (List String) → Option (ℤ × ℤ)
unfolding both
remote_indexes none = none
remote_indexes (some []) = none
remote_indexes (some (t ∷ [])) = none
remote_indexes (some (t ∷ p ∷ [])) = none
remote_indexes (some (t ∷ p ∷ i ∷ more)) = both (atoi p) (atoi i)

unfoldable pub parse_remote_indexes : String → String → Option (ℤ × ℤ)
unfolding remote_indexes
parse_remote_indexes full base = remote_indexes (parts_behind full base)
