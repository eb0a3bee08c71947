-- ===== src/Discovery/Ends.antt =====
-- The enumeration of a network's addresses ends, except for the network of all addresses.
use nms.Prelude.{
  ℕ, zero, suc, ◌+◌, ◌-◌, ◌*◌, ◌%◌, ◌^◌, ◌≤◌, ◌<◌, ◌≡◌, refl, sym, ap, true, false, ◌&&◌, List, [],
  ◌∷◌, none, some, arith, ◌==◌, ltb, leb, length, take, drop, All, Bool-cases, inl, inr,
  if◌then◌else◌,
}
use mathlib.Core.Path.{subst}
use nms.Discovery.Addresses.{
  Ip, IpNet, value, net_contains, is_mapped, inc_ip, collect_ips, without_ends, generate_ips,
}

abbrev ip4 : ℕ → ℕ → ℕ → ℕ → Ip
ip4 a b c d = a ∷ b ∷ c ∷ d ∷ []

-- Four bytes.
pub record IsIp4 (ip : Ip) : Type 0 where
  pub b0 : ℕ
  pub b1 : ℕ
  pub b2 : ℕ
  pub b3 : ℕ
  pub made : ip ≡ ip4 b0 b1 b2 b3
  pub low0 : b0 < 256
  pub low1 : b1 < 256
  pub low2 : b2 < 256
  pub low3 : b3 < 256

value4 : (a b c d : ℕ) → value (ip4 a b c d) ≡ a * 16777216 + b * 65536 + c * 256 + d
value4 a b c d = omega arith

inc4 :
    (a b c d : ℕ)
    → a < 256
    → b < 256
    → c < 256
    → d < 256
    → IsIp4 (inc_ip (ip4 a b c d))
      × (value (inc_ip (ip4 a b c d)) ≡ (value (ip4 a b c d) + 1) % 4294967296)
unfolding inc_ip is_mapped
inc4 a b c d la lb lc ld = elim (Bool-cases ((d + 1) % 256 == 0)) [
  | inr miss ↦ rw miss (
    record {
      b0 = a;
      b1 = b;
      b2 = c;
      b3 = (d + 1) % 256;
      made = refl;
      low0 = la;
      low1 = lb;
      low2 = lc;
      low3 = omega arith;
    },
    ground arith,
  )
  | inl carry ↦ elim (Bool-cases ((c + 1) % 256 == 0)) [
    | inr miss ↦
        rw (carry, miss)
          (
            record {
              b0 = a;
              b1 = b;
              b2 = (c + 1) % 256;
              b3 = (d + 1) % 256;
              made = refl;
              low0 = la;
              low1 = lb;
              low2 = omega arith;
              low3 = omega arith;
            },
            ground arith,
          )
    | inl carry2 ↦ elim (Bool-cases ((b + 1) % 256 == 0)) [
      | inr miss ↦
          rw (carry, carry2, miss)
            (
              record {
                b0 = a;
                b1 = (b + 1) % 256;
                b2 = (c + 1) % 256;
                b3 = (d + 1) % 256;
                made = refl;
                low0 = la;
                low1 = omega arith;
                low2 = omega arith;
                low3 = omega arith;
              },
              ground arith,
            )
      | inl carry3 ↦
          rw (carry, carry2, carry3)
            (
              record {
                b0 = (a + 1) % 256;
                b1 = (b + 1) % 256;
                b2 = (c + 1) % 256;
                b3 = (d + 1) % 256;
                made = refl;
                low0 = omega arith;
                low1 = omega arith;
                low2 = omega arith;
                low3 = omega arith;
              },
              ground arith,
            )
    ]
  ]
]

length4 : (ip : Ip) → IsIp4 ip → length ip ≡ 4
length4 ip h = rw h.made refl

-- The next address, one up in the ring of 32 bits.
inc_ip_step :
    (ip : Ip) → IsIp4 ip → IsIp4 (inc_ip ip) × (value (inc_ip ip) ≡ (value ip + 1) % 4294967296)
inc_ip_step ip h =
    subst (λ x. IsIp4 (inc_ip x) × (value (inc_ip x) ≡ (value x + 1) % 4294967296)) (sym h.made)
      (inc4 h.b0 h.b1 h.b2 h.b3 h.low0 h.low1 h.low2 h.low3)

value4_low : (ip : Ip) → IsIp4 ip → value ip < 4294967296
value4_low ip h =
    subst (λ x. value x < 4294967296) (sym h.made)
      (let a = h.low0 in let b = h.low1 in let c = h.low2 in let d = h.low3 in omega arith)

contains4 :
    (n : IpNet) (ip : Ip)
    → IsIp4 n.base
    → IsIp4 ip
    → net_contains n ip
      ≡ (leb (value n.base) (value ip) && ltb (value ip) (value n.base + 2 ^ n.host_bits))
unfolding net_contains
contains4 n ip hb hi = rw (length4 ip hi, length4 n.base hb) refl

-- An IPv4 network that is not the whole ring.
pub record IsSubnet4 (n : IpNet) : Type 0 where
  pub base4 : IsIp4 n.base
  pub top : value n.base + 2 ^ n.host_bits ≤ 4294967296
  pub proper : 2 ^ n.host_bits < 4294967296

-- The addresses in sequence, the first with the value `v`, each with the value after the one before.
pub RunsFrom : ℕ → List Ip → Type 0
RunsFrom v [] = Unit
RunsFrom v (ip ∷ ips) = (value ip ≡ v) × RunsFrom (v + 1) ips

abbrev Collected : IpNet → ℕ → ℕ → Ip → Type 0
Collected n left rounds ip =
    (ips : List Ip) × (collect_ips rounds n ip ≡ some ips)
    × (length ips ≡ left)
    × All (λ x. net_contains n x ≡ true) ips
    × RunsFrom (value n.base + 2 ^ n.host_bits - left) ips

-- With `left` addresses before it, the loop ends after one round more.
collects :
    (n : IpNet) (left rounds : ℕ) (ip : Ip)
    → IsSubnet4 n
    → IsIp4 ip
    → value ip ≡ (value n.base + 2 ^ n.host_bits - left) % 4294967296
    → left ≤ 2 ^ n.host_bits
    → left < rounds
    → Collected n left rounds ip
unfolding collect_ips RunsFrom
collects n left zero ip s h v le lt = absurd (omega arith)
collects n zero (suc rounds) ip s h v le lt =
    let out : net_contains n ip ≡ false =
      rw (contains4 n ip s.base4 h) (let t = s.top in let p = s.proper in ground arith) in
    ([], rw out refl, refl, tt, tt)
collects n (suc left) (suc rounds) ip s h v le lt =
    let low = s.top in
    let into : net_contains n ip ≡ true = rw (contains4 n ip s.base4 h) (ground arith) in
    let (next4, next) = inc_ip_step ip h in
    let step : value (inc_ip ip) ≡ (value n.base + 2 ^ n.host_bits - left) % 4294967296 =
      omega arith in
    let (ips, e, size, inside, runs) =
      collects n left rounds (inc_ip ip) s next4 step (omega arith) (omega arith) in
    let here : value ip ≡ value n.base + 2 ^ n.host_bits - suc left =
      (let b = value4_low ip h in ground arith) in
    let onward : value n.base + 2 ^ n.host_bits - left
        ≡ value n.base + 2 ^ n.host_bits - suc left + 1 =
      omega arith in
    (
      ip ∷ ips,
      rw (into, e) refl,
      ap suc size,
      (into, inside),
      (here, subst (λ v. RunsFrom v ips) onward runs),
    )

All-drop_one : (P : Ip → Type 0) (ips : List Ip) → All P ips → All P (drop 1 ips)
All-drop_one P [] h = tt
All-drop_one P (ip ∷ ips) h = h.1

All-take : (P : Ip → Type 0) (k : ℕ) (ips : List Ip) → All P ips → All P (take k ips)
All-take P zero ips h = tt
All-take P (suc k) [] h = tt
All-take P (suc k) (ip ∷ ips) h = (h.0, All-take P k ips h.1)

length-take : (k : ℕ) (ips : List Ip) → k ≤ length ips → length (take k ips) ≡ k
length-take zero ips h = refl
length-take (suc k) [] h = absurd (omega arith)
length-take (suc k) (ip ∷ ips) h = ap suc (length-take k ips (omega arith))

length-drop_one : (ips : List Ip) → length (drop 1 ips) ≡ length ips - 1
length-drop_one [] = refl
length-drop_one (ip ∷ ips) = omega arith

RunsFrom-drop_one : (v : ℕ) (ips : List Ip) → RunsFrom v ips → RunsFrom (v + 1) (drop 1 ips)
unfolding RunsFrom
RunsFrom-drop_one v [] h = tt
RunsFrom-drop_one v (ip ∷ ips) h = h.1

RunsFrom-take : (v k : ℕ) (ips : List Ip) → RunsFrom v ips → RunsFrom v (take k ips)
unfolding RunsFrom
RunsFrom-take v zero ips h = tt
RunsFrom-take v (suc k) [] h = tt
RunsFrom-take v (suc k) (ip ∷ ips) h = (h.0, RunsFrom-take (v + 1) k ips h.1)

without_ends-hosts :
    (P : Ip → Type 0) (v : ℕ) (ips : List Ip) (size : ℕ)
    → length ips ≡ size
    → All P ips
    → RunsFrom v ips
    → (length (without_ends true ips) ≡ (if ltb 2 size then size - 2 else size))
      × All P (without_ends true ips)
      × RunsFrom (if ltb 2 size then v + 1 else v) (without_ends true ips)
unfolding without_ends
without_ends-hosts P v ips size e h runs = elim (Bool-cases (ltb 2 size)) [
  | inl many ↦
      let d = length-drop_one ips in
      rw (e, many)
        (
          length-take (size - 2) (drop 1 ips) (ground arith),
          All-take P (size - 2) (drop 1 ips) (All-drop_one P ips h),
          RunsFrom-take (v + 1) (size - 2) (drop 1 ips) (RunsFrom-drop_one v ips runs),
        )
  | inr few ↦ rw (e, few) (e, h, runs)
]

-- The addresses of a proper IPv4 network (its last address is one of the ring, and it is not the
-- whole ring) are found after as many rounds as it has addresses and one more: when it has more than
-- two, they are two fewer and run, each the next of the one before, from the address after the base
-- (so that the base and the last address are left out); else they are all, from the base on. Each
-- lies in the network.
pub generate_ips-ends :
    (n : IpNet)
    → IsSubnet4 n
    → (ips : List Ip) × (generate_ips (2 ^ n.host_bits + 1) n ≡ some ips)
      × (length ips ≡ (if ltb 2 (2 ^ n.host_bits) then 2 ^ n.host_bits - 2 else 2 ^ n.host_bits))
      × All (λ ip. net_contains n ip ≡ true) ips
      × RunsFrom (if ltb 2 (2 ^ n.host_bits) then value n.base + 1 else value n.base) ips
unfolding generate_ips is_mapped
generate_ips-ends n s =
    let low = value4_low n.base s.base4 in
    let top = s.top in
    let (ips, e, size, inside, runs) =
      collects n (2 ^ n.host_bits) (2 ^ n.host_bits + 1) n.base s s.base4 (omega arith)
        (omega arith) (omega arith) in
    let start : value n.base + 2 ^ n.host_bits - 2 ^ n.host_bits ≡ value n.base = omega arith in
    let (many, all, hosts) =
      without_ends-hosts _ (value n.base) ips (2 ^ n.host_bits) size inside
        (subst (λ v. RunsFrom v ips) start runs) in
    (without_ends true ips, rw (length4 n.base s.base4, e) refl, many, all, hosts)

-- The network of all addresses.
abbrev IsWholeRing : IpNet → Type 0
IsWholeRing n = IsIp4 n.base × (value n.base ≡ 0) × (n.host_bits ≡ 32)

goes_on :
    (n : IpNet) (rounds : ℕ) (ip : Ip) → IsWholeRing n → IsIp4 ip → collect_ips rounds n ip ≡ none
unfolding collect_ips
goes_on n zero ip w h = refl
goes_on n (suc rounds) ip w h =
    let low = value4_low ip h in
    let into : net_contains n ip ≡ true = rw (contains4 n ip w.0 h, w.1, w.2) (ground arith) in
    rw (into, goes_on n rounds (inc_ip ip) w (inc_ip_step ip h).0) refl

-- The enumeration of the network of all IPv4 addresses ends after no number of rounds.
pub generate_ips-endless :
    (n : IpNet) (rounds : ℕ)
    → IsIp4 n.base
    → value n.base ≡ 0
    → n.host_bits ≡ 32
    → generate_ips rounds n ≡ none
unfolding generate_ips is_mapped
generate_ips-endless n rounds h z all =
    rw (length4 n.base h, goes_on n rounds n.base (h, z, all) h) refl
