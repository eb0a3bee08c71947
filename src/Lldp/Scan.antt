-- ===== src/Lldp/Scan.antt =====
-- ScanAllDevicesLLDP of internal/usecases/lldp/scanner.go: one snapshot of the topology.
-- A walk gives its rows in the order in which `range` visits them, or `none` when it fails or takes
-- too long; the order of the remote entries is that of `range` too. The key of an entry is the pair
-- of its numbers, which its text stands for.
use nms.Prelude.{
  ℕ, ◌+◌, Bool, true, false, not, ◌&&◌, List, [], ◌∷◌, String, Option, none, some, str_eq,
  trim_space, leb, ℤ, pos, negsuc, int_eq, length, any, map, select_where, update_where,
  if◌then◌else◌,
}
use nms.Config.{Os, positive_or}
use nms.Sql.{Sql, pure, ◌>>=◌, ◌>>◌, zoom, or_else}
use nms.Device.Secrets.{Crypto, Protector}
use nms.Device.Tables.{Device, DeviceDb, Inet}
use nms.Device.Reading.{list_devices}
use nms.Prelude.Atoi.{atoi}
use nms.Lldp.Oids.{normalize_key, parse_single_index_from_walk, parse_remote_indexes}
use nms.Lldp.Tables.{LldpLink, LldpDb, create_lldp_scan, delete_lldp_scan, insert_lldp_link}

abbrev pub Walk : Type 0
Walk = List (String × String)

pub record RemoteEntry : Type 0 where
  pub local_port_num : ℤ
  pub rem_index : ℤ
  pub sys_name : String
  pub sys_desc : String
  pub port_id : String
  pub port_desc : String

-- `WalkDevice` within its timeout, the order of a map, and whether the context is over when the
-- loop comes to a device.
pub record Net : Type 0 where
  pub walk : Device → String → Option Walk
  pub shuffle : List RemoteEntry → List RemoteEntry
  pub is_over : Device → Bool

-- What is not positive reads as 0.
to_natural : Option ℤ → Option ℕ
to_natural none = none
to_natural (some (pos n)) = some n
to_natural (some (negsuc n)) = some 0

unfoldable pub lldp_max_remote_entries : Os → ℕ
unfolding to_natural
lldp_max_remote_entries os =
    let v = trim_space (os.getenv "NMS_LLDP_MAX_REMOTE_ENTRIES") in
    if str_eq v "" then 4096 else positive_or 4096 (to_natural (atoi v))

-- A text on a key of `map[int]string`: the first pair that has it.
abbrev pub Ports : Type 0
Ports = List (ℤ × String)

add_port : Option ℤ → String → Ports → Ports
add_port none text ports = ports
add_port (some n) text ports = (n, text) ∷ ports

unfoldable pub local_ports : String → Walk → Ports → Ports
unfolding add_port
local_ports base [] ports = ports
local_ports base ((oid, text) ∷ rows) ports =
    local_ports base rows (add_port (parse_single_index_from_walk oid base) text ports)

text_at : ℤ → Ports → String
text_at n [] = ""
text_at n ((m, text) ∷ ports) = let later = text_at n ports in if int_eq m n then text else later

abbrev pub has_key : ℤ × ℤ → RemoteEntry → Bool
has_key (port, index) e = int_eq e.local_port_num port && int_eq e.rem_index index

abbrev pub empty_entry : ℤ × ℤ → RemoteEntry
empty_entry (port, index) = record {
  local_port_num = port;
  rem_index = index;
  sys_name = "";
  sys_desc = "";
  port_id = "";
  port_desc = "";
}

-- One row of a walk; `none` is the `break` at the limit.
unfoldable pub add_remote :
    (RemoteEntry → RemoteEntry) → ℕ → Option (ℤ × ℤ) → List RemoteEntry → Option (List RemoteEntry)
add_remote set limit none es = some es
add_remote set limit (some key) es =
    if any (has_key key) es
    then some (update_where (has_key key) set es)
    else if leb limit (length es)
    then none
    else some (set (empty_entry key) ∷ es)

unfoldable pub remote_entries :
    (String → RemoteEntry → RemoteEntry) → String → ℕ → Walk → List RemoteEntry → List RemoteEntry
remote_entries set base limit [] es = es
remote_entries set base limit ((oid, text) ∷ rows) es =
    elim (add_remote (set (trim_space text)) limit (parse_remote_indexes oid base) es) [
      | none ↦ es
      | some es' ↦ remote_entries set base limit rows es'
    ]

abbrev with_name : String → RemoteEntry → RemoteEntry
with_name text e = record e { sys_name = text }

abbrev with_desc : String → RemoteEntry → RemoteEntry
with_desc text e = record e { sys_desc = text }

abbrev with_port_id : String → RemoteEntry → RemoteEntry
with_port_id text e = record e { port_id = text }

abbrev with_port_desc : String → RemoteEntry → RemoteEntry
with_port_desc text e = record e { port_desc = text }

-- The six walks of a device, in their order.
pub record Walks : Type 0 where
  pub loc_port_desc : Walk
  pub loc_port_id : Walk
  pub rem_sys_name : Walk
  pub rem_sys_desc : Walk
  pub rem_port_id : Walk
  pub rem_port_desc : Walk

walked : Option Walk → (Walk → Option Walks) → Option Walks
walked none next = none
walked (some rows) next = next rows

-- `none` skips the device.
unfoldable pub walk_tables : Net → Device → Option Walks
unfolding walked
walk_tables net d = walked (net.walk d "1.0.8802.1.1.2.1.3.7.1.4") (λ a.
    walked (net.walk d "1.0.8802.1.1.2.1.3.7.1.3") (λ b.
      walked (net.walk d "1.0.8802.1.1.2.1.4.1.1.9") (λ c.
        walked (net.walk d "1.0.8802.1.1.2.1.4.1.1.10") (λ e.
          walked (net.walk d "1.0.8802.1.1.2.1.4.1.1.7") (λ f.
            walked (net.walk d "1.0.8802.1.1.2.1.4.1.1.8") (λ g. some (record {
              loc_port_desc = a;
              loc_port_id = b;
              rem_sys_name = c;
              rem_sys_desc = e;
              rem_port_id = f;
              rem_port_desc = g;
            })))))))

unfoldable pub entries_of : ℕ → Walks → List RemoteEntry
entries_of limit w =
    remote_entries with_port_desc "1.0.8802.1.1.2.1.4.1.1.8" limit w.rem_port_desc (
      remote_entries with_port_id "1.0.8802.1.1.2.1.4.1.1.7" limit w.rem_port_id (
        remote_entries with_desc "1.0.8802.1.1.2.1.4.1.1.10" limit w.rem_sys_desc
          (remote_entries with_name "1.0.8802.1.1.2.1.4.1.1.9" limit w.rem_sys_name [])))

-- The map from names to addresses: the last device of a name counts.
unfoldable pub name_to_ip : List Device → String → Option String
name_to_ip [] name = none
name_to_ip (d ∷ ds) name = elim (name_to_ip ds name) [
  | some ip ↦ some ip
  | none ↦
      if not (str_eq (trim_space d.name) "") && str_eq (normalize_key d.name) name
      then some d.ip
      else none
]

link_of : (String → Option String) → Device → Ports → Ports → RemoteEntry → LldpLink
unfolding text_at
link_of names d descs ids e =
    let desc = text_at e.local_port_num descs in
    record {
      local_device_ip = d.ip;
      local_port_num = e.local_port_num;
      local_port_desc = if str_eq (trim_space desc) "" then text_at e.local_port_num ids else desc;
      remote_device_ip = if str_eq e.sys_name "" then none else names (normalize_key e.sys_name);
      remote_sys_name = e.sys_name;
      remote_sys_desc = e.sys_desc;
      remote_port_id = e.port_id;
      remote_port_desc = e.port_desc;
    }

abbrev pub is_named : RemoteEntry → Bool
is_named e = not (str_eq e.sys_name "" && str_eq e.sys_desc "")

-- The links of a device.
unfoldable pub links_found : (String → Option String) → Net → ℕ → Device → Walks → List LldpLink
unfolding link_of
links_found names net limit d w =
    map
      (link_of names d (local_ports "1.0.8802.1.1.2.1.3.7.1.4" w.loc_port_desc [])
        (local_ports "1.0.8802.1.1.2.1.3.7.1.3" w.loc_port_id []))
      (select_where is_named (net.shuffle (entries_of limit w)))

-- A link that cannot be inserted is left out.
unfoldable pub insert_links : ℕ → List LldpLink → Sql LldpDb ℕ
insert_links id [] = pure 0
insert_links id (l ∷ ls) = do
  one ← or_else 0 (insert_lldp_link id l)
  more ← insert_links id ls
  pure (one + more)

pub record ScanSummary : Type 0 where
  pub scan_id : ℕ
  pub devices_scanned : ℕ
  pub links_found : ℕ
  pub links_inserted : ℕ

abbrev pub add_device : ℕ → ℕ → ScanSummary → ScanSummary
add_device found inserted s = record s {
  devices_scanned = s.devices_scanned + 1;
  links_found = s.links_found + found;
  links_inserted = s.links_inserted + inserted;
}

-- The summary, and whether the context was over before the last device.
unfoldable pub scan_devices :
    (String → Option String) → Net → ℕ → List Device → ScanSummary → Sql LldpDb (ScanSummary × Bool)
scan_devices names net limit [] s = pure (s, false)
scan_devices names net limit (d ∷ ds) s = elim (net.is_over d) [
  | true ↦ pure (s, true)
  | false ↦ elim (walk_tables net d) [
    | none ↦ scan_devices names net limit ds s
    | some w ↦ insert_links s.scan_id (links_found names net limit d w) >>= λ inserted.
        scan_devices names net limit ds
          (add_device (length (links_found names net limit d w)) inserted s)
  ]
]

-- The error of the context is answered next to the summary, whatever the cleanup did.
unfoldable pub cleaned : ScanSummary × Bool → Sql LldpDb (ScanSummary × Bool)
cleaned (s, true) = or_else tt (delete_lldp_scan s.scan_id) >> pure (s, true)
cleaned (s, false) = pure (s, false)

abbrev pub no_summary : ℕ → ScanSummary
no_summary id = record { scan_id = id; devices_scanned = 0; links_found = 0; links_inserted = 0 }

abbrev pub with_devices : DeviceDb → LldpDb → LldpDb
with_devices d s = record s { devices = d }

unfoldable pub scan_all_devices_lldp :
    Crypto → Protector → Inet → Os → Net → Sql LldpDb (ScanSummary × Bool)
unfolding cleaned
scan_all_devices_lldp k p inet os net = do
  devices ← zoom (λ s. s.devices) with_devices (list_devices k p inet)
  id ← create_lldp_scan
  out ← scan_devices (name_to_ip devices) net (lldp_max_remote_entries os) devices (no_summary id)
  cleaned out
