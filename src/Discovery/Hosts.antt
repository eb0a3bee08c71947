-- ===== src/Discovery/Hosts.antt =====
-- What a scan finds, and how long the name of a device may be.
use Prim.Native.Char.{Char}
use nms.Prelude.{
  ℕ, suc, ◌+◌, ◌-◌, ◌^◌, ◌≤◌, ◌<◌, ◌≡◌, refl, false, not, ◌&&◌, List, [], ◌∷◌, String, Option, none,
  some, arith, str_eq, trim_space, ltb, leb, length, All, Bool-cases, inl, inr, if◌then◌else◌,
}
use nms.Discovery.Addresses.{Ip, IpNet}
use nms.Discovery.Ends.{IsSubnet4, generate_ips-ends}
use nms.Discovery.Scan.{
  ScanParams, Outside, FoundHost, ScanResult, scanned, v3_error, found_of, probe_host, add_found,
  probe_all, host_limit, scan_ips, scan_result, scan_network, utf8_length, utf8_bytes, name_char,
  cons_char, written, name_from, probe_of,
}

abbrev IsDescribed : FoundHost → Type 0
IsDescribed h = str_eq h.descr "" ≡ false

abbrev Described : Option FoundHost → Type 0
Described none = Unit
Described (some h) = IsDescribed h

found_of-Described :
    (out : Outside) (p : ScanParams) (ip : String) (o : Option String)
    → Described (found_of out p ip o)
found_of-Described out p ip none = tt
found_of-Described out p ip (some text) = elim (Bool-cases (str_eq (trim_space text) "")) [
  | inl blank ↦ rw blank tt
  | inr set ↦ rw set set
]

probe_host-Described :
    (out : Outside) (p : ScanParams) (ip : String) → Described (probe_host out p ip)
unfolding probe_host
probe_host-Described out p ip = elim (Bool-cases (p.tcp_prefilter && not (out.tcp_ping ip))) [
  | inl silent ↦ rw silent tt
  | inr answers ↦ rw answers (found_of-Described out p ip (out.sys_descr (probe_of p ip)))
]

add_found-bounded :
    (o : Option FoundHost) (hosts : List FoundHost) (k : ℕ)
    → Described o
    → length hosts ≤ k
    → All IsDescribed hosts
    → (length (add_found o hosts) ≤ suc k) × All IsDescribed (add_found o hosts)
add_found-bounded none hosts k d le all = (omega arith, all)
add_found-bounded (some h) hosts k d le all = (omega arith, (d, all))

probe_all-bounded :
    (out : Outside) (p : ScanParams) (ips : List Ip)
    → (length (probe_all out p ips) ≤ length ips) × All IsDescribed (probe_all out p ips)
unfolding probe_all
probe_all-bounded out p [] = (omega arith, tt)
probe_all-bounded out p (ip ∷ ips) =
    let (le, all) = probe_all-bounded out p ips in
    add_found-bounded (probe_host out p (out.ip_text ip)) (probe_all out p ips) (length ips)
      (probe_host-Described out p (out.ip_text ip)) le all

not_over : (limit k : ℕ) → k ≤ limit → ltb limit k ≡ false
not_over limit k h = ground arith

-- A scan of a proper IPv4 network (its last address is one of the ring, and it is not the whole
-- ring), with parameters that pass the checks and no more hosts than the limit, ends after as many
-- rounds as the network has addresses and one more. It counts each host (all addresses but the first
-- and the last when there are more than two), finds no more than those, each with a description that
-- is not empty.
pub scan_network-ends :
    (out : Outside) (p : ScanParams) (net : IpNet)
    → out.parse_cidr (trim_space p.cidr) ≡ some net
    → v3_error p ≡ none
    → IsSubnet4 net
    → (if ltb 2 (2 ^ net.host_bits) then 2 ^ net.host_bits - 2 else 2 ^ net.host_bits)
      ≤ host_limit p
    → (r : ScanResult) × (scan_network out (2 ^ net.host_bits + 1) p ≡ some (scanned r))
      × (r.host_count
          ≡ (if ltb 2 (2 ^ net.host_bits) then 2 ^ net.host_bits - 2 else 2 ^ net.host_bits))
      × (length r.found ≤ r.host_count)
      × All (λ h. str_eq h.descr "" ≡ false) r.found
unfolding scan_network scan_ips
scan_network-ends out p net parsed checked subnet le =
    let (ips, e, size, inside, runs) = generate_ips-ends net subnet in
    let (few, all) = probe_all-bounded out p ips in
    let fits : ltb (host_limit p) (length ips) ≡ false = rw size (not_over (host_limit p) _ le) in
    (
      scan_result p (length ips) (probe_all out p ips),
      rw (parsed, checked, e, fits) refl,
      size,
      few,
      all,
    )

utf8_length_bound : (c : Char) → utf8_length c ≤ 4
utf8_length_bound c = ground arith

written_bound : (o : Option Char) → written o ≤ 4
written_bound none = omega arith
written_bound (some c) = utf8_length_bound c

cons_char-bytes :
    (o : Option Char) (s : String) → utf8_bytes (cons_char o s) ≡ written o + utf8_bytes s
cons_char-bytes none s = omega arith
cons_char-bytes (some c) s = refl

-- The name of a found device has at most 123 bytes: the loop stops at 120, and a letter has four.
name_bounded :
    (out : Outside) (n : ℕ) (s : String) → n ≤ 123 → n + utf8_bytes (name_from out n s) ≤ 123
unfolding name_from
name_bounded out n String.[] h = omega arith
name_bounded out n (String.◌∷◌ c s) h = elim (Bool-cases (leb 120 n)) [
  | inl full ↦ rw full (omega arith)
  | inr room ↦
      let below : n < 120 = ground arith in
      let one = written_bound (name_char out c) in
      let later = name_bounded out (n + written (name_char out c)) s (omega arith) in
      rw (room, cons_char-bytes (name_char out c) (name_from out (n + written (name_char out c)) s))
        (omega arith)
]
