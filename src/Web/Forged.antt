-- ===== src/Web/Forged.antt =====
-- What a forged request does not get past.
use nms.Prelude.{
  ◌≡◌, refl, ap, ◌∙◌, true, false, String, Option, none, some, arith, str_eq, eq_iff, equal_fold,
  trim_space, Bool-cases, inl, inr,
}
use nms.Config.{Os}
use nms.Auth.{equal_const_time}
use nms.Discovery.Addresses.{Ip, IpNet}
use nms.Web.Peer.{
  NetPackage, WebRequest, from_trusted_proxy, forwarded_proto, is_https_request, client_ip,
  remote_addr_ip, trusted_proxy_networks, networks_of, split_commas,
}
use nms.Web.Checks.{
  canonical_request_host, enforce_https, is_unsafe_method, csrf_token, token_mismatch,
  provided_token, csrf_passed, csrf_with, require_csrf,
}

-- The networks that are trusted when none is configured, and an address in neither.
pub record IsOutside (os : Os) (net : NetPackage) (ip : Ip) : Type 0 where
  pub unset : str_eq (trim_space (os.getenv "NMS_TRUSTED_PROXIES")) "" ≡ true
  pub loopback4 : IpNet
  pub loopback6 : IpNet
  pub read4 : net.parse_cidr "127.0.0.0/8" ≡ some loopback4
  pub read6 : net.parse_cidr "::1/128" ≡ some loopback6
  pub no_address4 : net.parse_ip "127.0.0.0/8" ≡ none
  pub no_address6 : net.parse_ip "::1/128" ≡ none
  pub not_in4 : net.contains_ip loopback4 ip ≡ false
  pub not_in6 : net.contains_ip loopback6 ip ≡ false

-- The request with other forwarding headers.
abbrev pub forwarding : String → String → String → WebRequest → WebRequest
forwarding xff real proto r = record r {
  x_forwarded_for = xff;
  x_real_ip = real;
  x_forwarded_proto = proto;
}

stranger :
    (os : Os) (net : NetPackage) (ip : Ip) (r : WebRequest)
    → IsOutside os net ip
    → net.parse_ip (remote_addr_ip net r) ≡ some ip
    → from_trusted_proxy os net r ≡ false
unfolding from_trusted_proxy trusted_proxy_networks networks_of split_commas trim_space
stranger os net ip r h from =
    rw (h.unset, h.no_address4, h.no_address6, h.read4, h.read6, from, h.not_in4, h.not_in6) refl

same_peer :
    (net : NetPackage) (r : WebRequest) (xff real proto : String)
    → remote_addr_ip net (forwarding xff real proto r) ≡ remote_addr_ip net r
unfolding remote_addr_ip
same_peer net r xff real proto = refl

https_by_tls :
    (os : Os) (net : NetPackage) (r : WebRequest)
    → from_trusted_proxy os net r ≡ false
    → is_https_request os net r ≡ r.tls
unfolding is_https_request forwarded_proto equal_fold
https_by_tls os net r far = rw far (ground arith)

own_address :
    (os : Os) (net : NetPackage) (r : WebRequest)
    → from_trusted_proxy os net r ≡ false
    → client_ip os net r ≡ remote_addr_ip net r
unfolding client_ip
own_address os net r far = rw far refl

-- When no trusted proxies are configured and a request comes from an address outside 127.0.0.0/8 and
-- ::1/128 (which net reads as networks): with any X-Forwarded-For, X-Real-IP and X-Forwarded-Proto
-- headers in place of its own it is known by the address that it comes from, it counts as HTTPS just
-- when it came over TLS, and the enforcement of HTTPS answers it alike.
pub headers_of_strangers_are_ignored :
    (os : Os) (net : NetPackage) (ip : Ip) (r : WebRequest) (xff real proto : String)
    → IsOutside os net ip
    → net.parse_ip (remote_addr_ip net r) ≡ some ip
    → (client_ip os net (forwarding xff real proto r) ≡ remote_addr_ip net r)
      × (is_https_request os net (forwarding xff real proto r) ≡ r.tls)
      × (enforce_https os net (forwarding xff real proto r) ≡ enforce_https os net r)
unfolding enforce_https canonical_request_host
headers_of_strangers_are_ignored os net ip r xff real proto h from =
    let far =
      stranger os net ip (forwarding xff real proto r) h
        (rw (same_peer net r xff real proto) from) in
    let far_too = stranger os net ip r h from in
    (
      own_address os net (forwarding xff real proto r) far ∙ same_peer net r xff real proto,
      https_by_tls os net (forwarding xff real proto r) far,
      rw (https_by_tls os net (forwarding xff real proto r) far, https_by_tls os net r far_too)
          refl,
    )

equal-same : (a b : String) → equal_const_time a b ≡ true → a ≡ b
unfolding equal_const_time
equal-same a b h = let e : str_eq a b ≡ true = ground arith in (eq_iff a b).0 e

with-token :
    (r : WebRequest) (o : Option String) (token : String)
    → is_unsafe_method r.method ≡ true
    → csrf_with r o ≡ csrf_passed token
    → (o ≡ some token) × (str_eq (provided_token r) "" ≡ false) × (provided_token r ≡ token)
unfolding csrf_with
with-token r none token danger h = cc
with-token r (some own) token danger h = elim (Bool-cases (str_eq (provided_token r) "")) [
  | inl blank ↦ let bad : token_mismatch ≡ csrf_passed token = rw (danger, blank) at h in cc
  | inr given ↦ elim (Bool-cases (equal_const_time (provided_token r) own)) [
    | inl same ↦
        let k : csrf_passed own ≡ csrf_passed token = rw (danger, given, same) at h in
        let e : own ≡ token = cc in (ap some e, given, equal-same (provided_token r) own same ∙ e)
    | inr other ↦
        let bad : token_mismatch ≡ csrf_passed token = rw (danger, given, other) at h in cc
  ]
]

-- A request that may change something passes the CSRF check only with a token that is not blank and
-- is the one of its cookie, or, when the cookie is missing or blank, the one that was just made.
pub unsafe_needs_token :
    (fresh : Option String) (r : WebRequest) (token : String)
    → is_unsafe_method r.method ≡ true
    → require_csrf fresh r ≡ csrf_passed token
    → (csrf_token r.csrf_cookie fresh ≡ some token)
      × (str_eq (provided_token r) "" ≡ false)
      × (provided_token r ≡ token)
unfolding require_csrf
unsafe_needs_token fresh r token danger h =
    with-token r (csrf_token r.csrf_cookie fresh) token danger h
