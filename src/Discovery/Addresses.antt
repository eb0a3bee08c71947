-- ===== src/Discovery/Addresses.antt =====
-- generateIPs, incIP and isIPv4Net of internal/usecases/discovery/scanner.go, on the bytes of an
-- address. A network is its first address with the number of bits left to hosts, which is what
-- net.ParseCIDR and the mask give; it contains the addresses of its length from the first one on.
use nms.Prelude.{
  ℕ, zero, suc, ◌+◌, ◌-◌, ◌*◌, ◌%◌, ◌^◌, Bool, true, false, ◌&&◌, ◌||◌, List, [], ◌∷◌, ◌++◌, Option,
  none, some, ◌==◌, ltb, leb, length, take, drop, if◌then◌else◌,
}

abbrev pub Ip : Type 0
Ip = List ℕ

pub record IpNet : Type 0 where
  pub base : Ip
  pub host_bits : ℕ

-- The bytes, the highest first, as one number.
abbrev pub value : Ip → ℕ
value [] = 0
value (b ∷ bs) = b * 256 ^ length bs + value bs

unfoldable pub net_contains : IpNet → Ip → Bool
net_contains n ip =
    length ip == length n.base
    && leb (value n.base) (value ip)
    && ltb (value ip) (value n.base + 2 ^ n.host_bits)

-- The loop of incIP from the last byte, with the carry.
abbrev pub next_byte : ℕ → Bool × Ip → Bool × Ip
next_byte b (false, bs) = (false, b ∷ bs)
next_byte b (true, bs) = let b' = (b + 1) % 256 in (b' == 0, b' ∷ bs)

abbrev pub inc_bytes : Ip → Bool × Ip
inc_bytes [] = (true, [])
inc_bytes (b ∷ bs) = next_byte b (inc_bytes bs)

abbrev all_zero : Ip → Bool
all_zero [] = true
all_zero (b ∷ bs) = b == 0 && all_zero bs

abbrev two_ones : Ip → Bool
two_ones (a ∷ b ∷ rest) = a == 255 && b == 255
two_ones _ = false

-- `ip.To4() != nil && len(ip) == net.IPv6len`: an IPv4 address in the long form.
unfoldable pub is_mapped : Ip → Bool
is_mapped ip = length ip == 16 && all_zero (take 10 ip) && two_ones (drop 10 ip)

unfoldable pub inc_ip : Ip → Ip
inc_ip ip = if is_mapped ip then take 12 ip ++ (inc_bytes (drop 12 ip)).1 else (inc_bytes ip).1

abbrev pub before_rest : Ip → Option (List Ip) → Option (List Ip)
before_rest ip none = none
before_rest ip (some ips) = some (ip ∷ ips)

-- The loop, for a number of rounds; `none` when they do not suffice.
unfoldable pub collect_ips : ℕ → IpNet → Ip → Option (List Ip)
collect_ips zero n ip = none
collect_ips (suc rounds) n ip =
    let rest = collect_ips rounds n (inc_ip ip) in
    if net_contains n ip then before_rest ip rest else some []

-- `start.To4()`: the short form of an address that has one.
abbrev short_form : Ip → Ip
short_form ip = if is_mapped ip then drop 12 ip else ip

abbrev is_ipv4_net : IpNet → Bool
is_ipv4_net n = length n.base == 4 || is_mapped n.base

-- `ips[1 : len(ips)-1]`, for IPv4 and more than two addresses.
unfoldable pub without_ends : Bool → List Ip → List Ip
without_ends v4 ips = if v4 && ltb 2 (length ips) then take (length ips - 2) (drop 1 ips) else ips

abbrev trimmed : Bool → Option (List Ip) → Option (List Ip)
trimmed v4 none = none
trimmed v4 (some ips) = some (without_ends v4 ips)

unfoldable pub generate_ips : ℕ → IpNet → Option (List Ip)
generate_ips rounds n = trimmed (is_ipv4_net n) (collect_ips rounds n (short_form n.base))
