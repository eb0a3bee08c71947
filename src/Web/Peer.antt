-- ===== src/Web/Peer.antt =====
-- Who sent a request, and over what: trusted_proxy.go, clientIP of login_rate_limit.go and
-- isHTTPSRequest of security_headers.go in internal/delivery/http. The package net is a parameter.
use Prim.Native.Char.{Char, code}
use nms.Prelude.{
  Bool, false, not, ◌&&◌, ◌||◌, List, [], ◌∷◌, String, Option, none, some, ◌==◌, str_eq, trim_space,
  equal_fold, any, if◌then◌else◌,
}
use nms.Config.{Os}
use nms.Discovery.Addresses.{Ip, IpNet}

pub record NetPackage : Type 0 where
  pub split_host_port : String → Option (String × String)
  pub join_host_port : String → String → String
  pub parse_ip : String → Option Ip
  pub parse_cidr : String → Option IpNet
  pub contains_ip : IpNet → Ip → Bool

-- The parts of a request that the checks read; a header that is missing is "".
pub record WebRequest : Type 0 where
  pub method : String
  pub remote_addr : String
  pub tls : Bool
  pub host : String
  pub path : String
  pub request_uri : String
  pub x_forwarded_for : String
  pub x_real_ip : String
  pub x_forwarded_proto : String
  pub csrf_cookie : Option String
  pub csrf_header : String
  pub csrf_form : String

abbrev host_or : String → Option (String × String) → String
host_or addr none = addr
host_or addr (some (host, port)) = if str_eq host "" then addr else host

unfoldable pub remote_addr_ip : NetPackage → WebRequest → String
remote_addr_ip net r =
    host_or (trim_space r.remote_addr) (net.split_host_port (trim_space r.remote_addr))

abbrev onto_first : Char → List String → List String
onto_first c [] = String.◌∷◌ c String.[] ∷ []
onto_first c (s ∷ ss) = String.◌∷◌ c s ∷ ss

-- `strings.Split(s, ",")`.
unfoldable pub split_commas : String → List String
split_commas String.[] = "" ∷ []
split_commas (String.◌∷◌ c s) =
    let rest = split_commas s in if code c == 44 then "" ∷ rest else onto_first c rest

abbrev cons_net : Option IpNet → List IpNet → List IpNet
cons_net none nets = nets
cons_net (some n) nets = n ∷ nets

-- A single address is a network of its own.
abbrev ip_or_cidr : Option Ip → Option IpNet → Option IpNet
ip_or_cidr none cidr = cidr
ip_or_cidr (some ip) cidr = some (record { base = ip; host_bits = 0 })

unfoldable pub networks_of : NetPackage → List String → List IpNet
networks_of net [] = []
networks_of net (p ∷ ps) =
    let rest = networks_of net ps in
    let part = trim_space p in
    if str_eq part ""
    then rest
    else cons_net (ip_or_cidr (net.parse_ip part) (net.parse_cidr part)) rest

unfoldable pub trusted_proxy_networks : Os → NetPackage → List IpNet
trusted_proxy_networks os net =
    let raw = trim_space (os.getenv "NMS_TRUSTED_PROXIES") in
    networks_of net (split_commas (if str_eq raw "" then "127.0.0.0/8,::1/128" else raw))

abbrev in_networks : NetPackage → List IpNet → Option Ip → Bool
in_networks net nets none = false
in_networks net nets (some ip) = any (λ n. net.contains_ip n ip) nets

unfoldable pub from_trusted_proxy : Os → NetPackage → WebRequest → Bool
from_trusted_proxy os net r =
    in_networks net (trusted_proxy_networks os net) (net.parse_ip (remote_addr_ip net r))

unfoldable pub forwarded_proto : Os → NetPackage → WebRequest → String
forwarded_proto os net r =
    if not (from_trusted_proxy os net r) then "" else trim_space r.x_forwarded_proto

unfoldable pub is_https_request : Os → NetPackage → WebRequest → Bool
is_https_request os net r = r.tls || equal_fold (forwarded_proto os net r) "https"

abbrev first_part : List String → String
first_part [] = ""
first_part (p ∷ ps) = trim_space p

unfoldable pub client_ip : Os → NetPackage → WebRequest → String
client_ip os net r =
    let xff = trim_space r.x_forwarded_for in
    let real = trim_space r.x_real_ip in
    if from_trusted_proxy os net r && not (str_eq xff "")
    then first_part (split_commas xff)
    else if from_trusted_proxy os net r && not (str_eq real "")
    then real
    else remote_addr_ip net r
