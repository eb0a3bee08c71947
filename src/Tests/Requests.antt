-- ===== src/Tests/Requests.antt =====
-- Requests of strangers, and a scan.
use nms.Prelude.{
  ◌≡◌, ◌≤◌, refl, true, false, [], ◌∷◌, none, some, arith, str_eq, length, All, if◌then◌else◌,
  trim_space, to_lower,
}
use nms.Config.{Os}
use nms.Web.Peer.{NetPackage, WebRequest, client_ip, remote_addr_ip, is_https_request}
use nms.Web.Checks.{enforce_https}
use nms.Discovery.Addresses.{IpNet, net_contains, is_mapped}
use nms.Web.Forged.{forwarding, headers_of_strangers_are_ignored}
use nms.Discovery.Versions.{normalize_snmp_version, normalize_snmp_version_or_default}
use nms.Discovery.Scan.{Outside, ScanParams, ScanResult, scanned, scan_network, v3_error}
use nms.Discovery.Hosts.{scan_network-ends}
use nms.Tests.Addresses.{four, four-IsSubnet4}

abbrev strict_os : Os
strict_os = record {
  getenv = λ name. if str_eq name "NMS_ENFORCE_HTTPS" then "true" else "";
  read_file = λ name. none;
}

abbrev loopback4 : IpNet
loopback4 = record { base = 127 ∷ 0 ∷ 0 ∷ 0 ∷ []; host_bits = 24 }

abbrev loopback6 : IpNet
loopback6 = record {
  base = 0 ∷ 0 ∷ 0 ∷ 0 ∷ 0 ∷ 0 ∷ 0 ∷ 0 ∷ 0 ∷ 0 ∷ 0 ∷ 0 ∷ 0 ∷ 0 ∷ 0 ∷ 1 ∷ [];
  host_bits = 0;
}

-- A package that reads the texts of these tests.
abbrev small_net : NetPackage
small_net = record {
  split_host_port = λ text. none;
  join_host_port = λ host port. host;
  parse_ip = λ text. if str_eq text "203.0.113.9" then some (203 ∷ 0 ∷ 113 ∷ 9 ∷ []) else none;
  parse_cidr = λ text.
      if str_eq text "127.0.0.0/8"
      then some loopback4
      else if str_eq text "::1/128"
      then some loopback6
      else none;
  contains_ip = net_contains;
}

abbrev forged : WebRequest
forged = record {
  method = "POST";
  remote_addr = "203.0.113.9";
  tls = false;
  host = "nms.example.com";
  path = "/incidents";
  request_uri = "/incidents";
  x_forwarded_for = "10.0.0.1";
  x_real_ip = "10.0.0.1";
  x_forwarded_proto = "https";
  csrf_cookie = some "token";
  csrf_header = "token";
  csrf_form = "";
}

headers_of_strangers_are_ignored_example :
    (client_ip strict_os small_net (forwarding "10.1.1.1" "10.2.2.2" "https" forged)
      ≡ remote_addr_ip small_net forged)
    × (is_https_request strict_os small_net (forwarding "10.1.1.1" "10.2.2.2" "https" forged)
        ≡ false)
    × (enforce_https strict_os small_net (forwarding "10.1.1.1" "10.2.2.2" "https" forged)
        ≡ enforce_https strict_os small_net forged)
unfolding trim_space remote_addr_ip net_contains is_mapped
headers_of_strangers_are_ignored_example =
    headers_of_strangers_are_ignored strict_os small_net (203 ∷ 0 ∷ 113 ∷ 9 ∷ []) forged "10.1.1.1"
      "10.2.2.2" "https"
      (record {
        unset = refl;
        loopback4 = loopback4;
        loopback6 = loopback6;
        read4 = refl;
        read6 = refl;
        no_address4 = refl;
        no_address6 = refl;
        not_in4 = refl;
        not_in6 = refl;
      })
      refl

abbrev outside : Outside
outside = record {
  parse_cidr = λ text. some four;
  ip_text = λ ip. "192.168.1.5";
  tcp_ping = λ ip. true;
  sys_descr = λ probe. some "Linux";
  create_device = λ probe name. true;
  is_letter_or_digit = λ c. true;
}

abbrev params : ScanParams
params = record {
  cidr = "192.168.1.4/30";
  community = "";
  snmp_version = "v2c";
  auth_proto = "";
  auth_pass = "";
  priv_proto = "";
  priv_pass = "";
  auto_add = true;
  tcp_prefilter = false;
  max_hosts = 0;
}

scan_network-ends_example :
    (r : ScanResult) × (scan_network outside 5 params ≡ some (scanned r))
    × (r.host_count ≡ 2)
    × (length r.found ≤ r.host_count)
    × All (λ h. str_eq h.descr "" ≡ false) r.found
unfolding v3_error normalize_snmp_version normalize_snmp_version_or_default trim_space to_lower
scan_network-ends_example =
    scan_network-ends outside params four refl refl four-IsSubnet4 (omega arith)
