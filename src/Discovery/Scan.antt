-- ===== src/Discovery/Scan.antt =====
-- ScanNetwork, emptyScanHints and deviceNameFromDescr of internal/usecases/discovery/scanner.go.
-- net.ParseCIDR, the probes by TCP and SNMP, the insertion of a device and unicode's letters and
-- digits are parameters, `Outside`. The hosts are probed one after the other: the goroutines share
-- only the list of what was found, whose order is left open in the code.
use Prim.Native.String.{◌++◌, char_at}
use Prim.Native.Char.{Char, code}
use nms.Prelude.{
  ℕ, ◌+◌, Bool, not, ◌&&◌, ◌||◌, List, [], ◌∷◌, String, Option, none, some, ◌==◌, str_eq,
  trim_space, ltb, leb, length, if◌then◌else◌,
}
use nms.Discovery.Versions.{normalize_snmp_version_or_default}
use nms.Discovery.Addresses.{Ip, IpNet, generate_ips}

pub record ScanParams : Type 0 where
  pub cidr : String
  pub community : String
  pub snmp_version : String
  pub auth_proto : String
  pub auth_pass : String
  pub priv_proto : String
  pub priv_pass : String
  pub auto_add : Bool
  pub tcp_prefilter : Bool
  -- 0 stands for every number that is not positive.
  pub max_hosts : ℕ

-- What a probe is sent with; the rest is as the parameters say.
pub record Probe : Type 0 where
  pub ip : String
  pub community : String
  pub snmp_version : String
  pub params : ScanParams

pub record Outside : Type 0 where
  pub parse_cidr : String → Option IpNet
  pub ip_text : Ip → String
  pub tcp_ping : String → Bool
  -- The description, none for an error or an empty answer.
  pub sys_descr : Probe → Option String
  -- `CreateDevice` with a name, which may fail.
  pub create_device : Probe → String → Bool
  pub is_letter_or_digit : Char → Bool

pub record FoundHost : Type 0 where
  pub ip : String
  pub descr : String
  pub added : Bool

pub record ScanResult : Type 0 where
  pub host_count : ℕ
  pub found : List FoundHost
  pub hints : ℕ

pub data Scan : Type 0 where
  bad_cidr : Scan
  scan_error : String → Scan
  scanned : ScanResult → Scan

-- The length in bytes of a code point in UTF-8.
abbrev pub utf8_length : Char → ℕ
utf8_length c =
    if ltb (code c) 128
    then 1
    else if ltb (code c) 2048
    then 2
    else if ltb (code c) 65536
    then 3
    else 4

abbrev pub utf8_bytes : String → ℕ
utf8_bytes String.[] = 0
utf8_bytes (String.◌∷◌ c s) = utf8_length c + utf8_bytes s

-- The rune that is written for one of the description, none when it is left out.
abbrev pub name_char : Outside → Char → Option Char
name_char out c =
    if out.is_letter_or_digit c || code c == 45 || code c == 95 || code c == 46 || code c == 32
    then some c
    else if code c == 10 || code c == 13 || code c == 9
    then some (char_at " " 0)
    else none

abbrev pub cons_char : Option Char → String → String
cons_char none s = s
cons_char (some c) s = String.◌∷◌ c s

abbrev pub written : Option Char → ℕ
written none = 0
written (some c) = utf8_length c

-- The loop, with the bytes written so far.
unfoldable pub name_from : Outside → ℕ → String → String
name_from out n String.[] = String.[]
name_from out n (String.◌∷◌ c s) =
    let rest = name_from out (n + written (name_char out c)) s in
    if leb 120 n then String.[] else cons_char (name_char out c) rest

unfoldable pub device_name_from_descr : Outside → String → String → String
device_name_from_descr out ip descr =
    let name = trim_space (name_from out 0 descr) in if str_eq name "" then "SNMP-" ++ ip else name

-- How many hints there are.
unfoldable pub empty_scan_hints : ScanParams → ℕ
empty_scan_hints p =
    3
    + (if p.tcp_prefilter then 1 else 0)
    + (if str_eq (normalize_snmp_version_or_default p.snmp_version) "v2c" then 1 else 0)

abbrev blank : String → Bool
blank s = str_eq (trim_space s) ""

-- The checks of version 3, with their messages.
unfoldable pub v3_error : ScanParams → Option String
v3_error p =
    if not (str_eq (normalize_snmp_version_or_default p.snmp_version) "v3")
    then none
    else if blank p.auth_proto || str_eq p.auth_pass ""
    then some "for snmp_version=v3 require auth_proto and auth_pass"
    else if blank p.priv_proto && not (str_eq p.priv_pass "")
        || not (blank p.priv_proto) && str_eq p.priv_pass ""
    then some "for snmp_version=v3 require both priv_proto and priv_pass or neither"
    else none

abbrev community_or_public : String → String
community_or_public c = if blank c then "public" else trim_space c

abbrev pub probe_of : ScanParams → String → Probe
probe_of p ip = record {
  ip = ip;
  community = community_or_public p.community;
  snmp_version = normalize_snmp_version_or_default p.snmp_version;
  params = p;
}

abbrev pub found_of : Outside → ScanParams → String → Option String → Option FoundHost
found_of out p ip none = none
found_of out p ip (some text) =
    let desc = trim_space text in
    if str_eq desc ""
    then none
    else some (record {
      ip = ip;
      descr = desc;
      added = p.auto_add && out.create_device (probe_of p ip) (device_name_from_descr out ip desc);
    })

-- The body of a worker's loop for one address.
unfoldable pub probe_host : Outside → ScanParams → String → Option FoundHost
probe_host out p ip =
    if p.tcp_prefilter && not (out.tcp_ping ip)
    then none
    else found_of out p ip (out.sys_descr (probe_of p ip))

abbrev pub add_found : Option FoundHost → List FoundHost → List FoundHost
add_found none hosts = hosts
add_found (some h) hosts = h ∷ hosts

unfoldable pub probe_all : Outside → ScanParams → List Ip → List FoundHost
probe_all out p [] = []
probe_all out p (ip ∷ ips) =
    let rest = probe_all out p ips in add_found (probe_host out p (out.ip_text ip)) rest

abbrev pub host_limit : ScanParams → ℕ
host_limit p = if p.max_hosts == 0 then 2048 else p.max_hosts

abbrev pub scan_result : ScanParams → ℕ → List FoundHost → ScanResult
scan_result p hosts found = record {
  host_count = hosts;
  found = found;
  hints = if length found == 0 && ltb 0 hosts then empty_scan_hints p else 0;
}

-- From the addresses.
unfoldable pub scan_ips : Outside → ScanParams → List Ip → Scan
scan_ips out p ips =
    if ltb (host_limit p) (length ips)
    then scan_error "too many addresses in CIDR"
    else scanned (scan_result p (length ips) (probe_all out p ips))

abbrev pub scan_generated : Outside → ScanParams → Option (List Ip) → Option Scan
scan_generated out p none = none
scan_generated out p (some ips) = some (scan_ips out p ips)

abbrev pub scan_checked : Outside → ℕ → ScanParams → IpNet → Option String → Option Scan
scan_checked out rounds p net (some message) = some (scan_error message)
scan_checked out rounds p net none = scan_generated out p (generate_ips rounds net)

abbrev pub scan_parsed : Outside → ℕ → ScanParams → Option IpNet → Option Scan
scan_parsed out rounds p none = some bad_cidr
scan_parsed out rounds p (some net) = scan_checked out rounds p net (v3_error p)

-- `none` when the rounds of the enumeration do not suffice.
unfoldable pub scan_network : Outside → ℕ → ScanParams → Option Scan
scan_network out rounds p = scan_parsed out rounds p (out.parse_cidr (trim_space p.cidr))
