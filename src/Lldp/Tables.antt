-- ===== src/Lldp/Tables.antt =====
-- internal/infrastructure/postgres/lldp_repo.go: the scans and their links.
use nms.Prelude.{
  ℕ, ◌+◌, Bool, false, ◌&&◌, List, [], ◌∷◌, String, Option, none, some, ◌==◌, str_eq, ltb, ℤ,
  int_eq, any, find, map, order_by, first, select_where, delete_where, if◌then◌else◌,
}
use nms.Prelude.Result.{Result, ok, err, database}
use nms.Sql.{Sql, pure, lift, ◌>>=◌, statement, query, exec}
use nms.Device.Tables.{DeviceColumns, DeviceDb}

pub record LldpLink : Type 0 where
  pub local_device_ip : String
  pub local_port_num : ℤ
  pub local_port_desc : String
  pub remote_device_ip : Option String
  pub remote_sys_name : String
  pub remote_sys_desc : String
  pub remote_port_id : String
  pub remote_port_desc : String

pub record LldpLinkView : Type 0 where
  pub local_name : String
  pub remote_name : String
  pub link : LldpLink

-- The tables: the ids of the scans, newest first, and the links with the id of their scan.
pub record LldpDb : Type 0 where
  pub devices : DeviceDb
  pub scans : List ℕ
  pub links : List (ℕ × LldpLink)
  pub next_scan : ℕ

abbrev pub new_scan : LldpDb → ℕ × LldpDb
new_scan s = (s.next_scan, record s { scans = s.next_scan ∷ s.scans; next_scan = s.next_scan + 1 })

unfoldable pub create_lldp_scan : Sql LldpDb ℕ
create_lldp_scan = statement new_scan

-- `ON DELETE CASCADE`.
abbrev pub drop_scan : ℕ → LldpDb → LldpDb
drop_scan id s = record s {
  scans = delete_where (λ x. x == id) s.scans;
  links = delete_where (λ l. l.0 == id) s.links;
}

unfoldable pub delete_lldp_scan : ℕ → Sql LldpDb (Unit {0})
delete_lldp_scan id = if id == 0 then pure tt else exec (drop_scan id)

-- NULL is like nothing.
same_remote : Option String → Option String → Bool
same_remote none b = false
same_remote (some a) none = false
same_remote (some a) (some b) = str_eq a b

-- The unique columns of two links of one scan.
unfoldable pub conflicts : ℕ → LldpLink → ℕ × LldpLink → Bool
unfolding same_remote
conflicts id l (id', l') =
    id' == id
    && str_eq l'.local_device_ip l.local_device_ip
    && int_eq l'.local_port_num l.local_port_num
    && same_remote l'.remote_device_ip l.remote_device_ip
    && str_eq l'.remote_sys_name l.remote_sys_name
    && str_eq l'.remote_port_id l.remote_port_id

-- The rows affected. A link of a scan that is not there breaks the foreign key.
unfoldable pub add_link : ℕ → LldpLink → LldpDb → Result ℕ × LldpDb
add_link id l s =
    if any (λ x. x == id) s.scans
    then if any (conflicts id l) s.links
      then (ok 0, s)
      else (ok 1, record s { links = (id, l) ∷ s.links })
    else (err database, s)

unfoldable pub insert_lldp_link : ℕ → LldpLink → Sql LldpDb ℕ
insert_lldp_link id l = statement (add_link id l) >>= lift

-- `ORDER BY id DESC LIMIT 1`.
abbrev pub latest_scan : LldpDb → Option ℕ
latest_scan s = first (order_by (λ a b. ltb b a) s.scans)

-- `COALESCE(name, '')` of the device that has the address.
name_of : Option DeviceColumns → String
name_of none = ""
name_of (some row) = row.name

abbrev name_at : List DeviceColumns → Option String → String
unfolding name_of
name_at rows none = ""
name_at rows (some ip) = name_of (find (λ row. str_eq row.ip ip) rows)

unfoldable pub view_of : List DeviceColumns → ℕ × LldpLink → LldpLinkView
unfolding name_of
view_of rows (id, l) = record {
  local_name = name_at rows (some l.local_device_ip);
  remote_name = name_at rows l.remote_device_ip;
  link = l;
}

abbrev pub links_of : ℕ → LldpDb → List LldpLinkView
links_of id s = map (view_of s.devices.rows) (select_where (λ l. l.0 == id) s.links)

-- Two statements: a scan that starts between them is another's.
unfoldable pub get_latest_lldp_links : Sql LldpDb (List LldpLinkView)
get_latest_lldp_links =
    query latest_scan >>= λ id. elim id [ none ↦ pure [] | some scan ↦ query (links_of scan) ]

abbrev id_or_zero : Option ℕ → ℕ
id_or_zero none = 0
id_or_zero (some id) = id

unfoldable pub get_latest_lldp_scan_id : Sql LldpDb ℕ
get_latest_lldp_scan_id = query (λ s. id_or_zero (latest_scan s))
