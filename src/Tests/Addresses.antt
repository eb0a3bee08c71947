-- ===== src/Tests/Addresses.antt =====
-- Networks of a few addresses.
use nms.Prelude.{◌≡◌, refl, true, List, [], ◌∷◌, none, some, arith, length, All}
use nms.Discovery.Addresses.{
  Ip, IpNet, net_contains, generate_ips, is_mapped, inc_ip, collect_ips, without_ends,
}
use nms.Discovery.Ends.{IsSubnet4, RunsFrom, generate_ips-ends, generate_ips-endless}

-- 192.168.1.4/30, and 0.0.0.0/0.
abbrev pub four : IpNet
four = record { base = 192 ∷ 168 ∷ 1 ∷ 4 ∷ []; host_bits = 2 }

abbrev all_addresses : IpNet
all_addresses = record { base = 0 ∷ 0 ∷ 0 ∷ 0 ∷ []; host_bits = 32 }

two_hosts : generate_ips 5 four ≡ some ((192 ∷ 168 ∷ 1 ∷ 5 ∷ []) ∷ (192 ∷ 168 ∷ 1 ∷ 6 ∷ []) ∷ [])
unfolding generate_ips is_mapped inc_ip collect_ips net_contains without_ends
two_hosts = refl

pub four-IsSubnet4 : IsSubnet4 four
four-IsSubnet4 = record {
  base4 = record {
    b0 = 192;
    b1 = 168;
    b2 = 1;
    b3 = 4;
    made = refl;
    low0 = omega arith;
    low1 = omega arith;
    low2 = omega arith;
    low3 = omega arith;
  };
  top = omega arith;
  proper = omega arith;
}

generate_ips-ends_example :
    (ips : List Ip) × (generate_ips 5 four ≡ some ips)
    × (length ips ≡ 2)
    × All (λ ip. net_contains four ip ≡ true) ips
    × RunsFrom 3232235781 ips
generate_ips-ends_example = generate_ips-ends four four-IsSubnet4

generate_ips-endless_example : generate_ips 3 all_addresses ≡ none
generate_ips-endless_example =
    generate_ips-endless all_addresses 3
      (record {
        b0 = 0;
        b1 = 0;
        b2 = 0;
        b3 = 0;
        made = refl;
        low0 = omega arith;
        low1 = omega arith;
        low2 = omega arith;
        low3 = omega arith;
      })
      refl refl
