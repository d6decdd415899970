-- ===== src/Net/Guard.antt =====
-- src/proxy/ip_guard.rs: the ranges that the proxy does not connect to.
use Prim.Native.Nat.{bit_and}
use s.Common.{
  ℕ, ◌+◌, ◌-◌, ◌*◌, ◌/◌, ◌%◌, ◌^◌, ◌<◌, ◌≡◌, refl, Bool, ◌&&◌, Option, none, some, List, [], ◌∷◌,
  arith, any, is_some, ◌==◌, if◌then◌else◌, Bool-cases, inl, inr,
}
use s.Net.{IpAddr, v4, v6, to_ipv4_mapped, normalize_ip}
use s.Net.Masks.{bit_and-f0, bit_and-c0}

pub data Range : Type 0 where
  this_network loopback private_10 private_172 private_192 link_local multicast reserved : Range
  cgnat test_net_1 test_net_2 test_net_3 : Range
  ipv6_loopback ipv6_ula ipv6_link_local ipv6_multicast : Range

unfoldable pub classify_v4 : ℕ → ℕ → ℕ → ℕ → Option Range
classify_v4 a b c d =
    if a == 0
    then some this_network
    else if a == 127
    then some loopback
    else if a == 10
    then some private_10
    else if a == 172 && bit_and b 0xf0 == 16
    then some private_172
    else if a == 192 && b == 168
    then some private_192
    else if a == 169 && b == 254
    then some link_local
    else if bit_and a 0xf0 == 224
    then some multicast
    else if bit_and a 0xf0 == 240
    then some reserved
    else if a == 100 && bit_and b 0xc0 == 64
    then some cgnat
    else if a == 192 && b == 0 && c == 2
    then some test_net_1
    else if a == 198 && b == 51 && c == 100
    then some test_net_2
    else if a == 203 && b == 0 && c == 113
    then some test_net_3
    else none

-- What is asked of an IPv6 address that embeds no dangerous IPv4 address.
unfoldable pub classify_v6 : ℕ → ℕ → ℕ → ℕ → ℕ → ℕ → ℕ → ℕ → Option Range
classify_v6 s0 s1 s2 s3 s4 s5 s6 s7 =
    let zero_head = s0 == 0 && s1 == 0 && s2 == 0 && s3 == 0 && s4 == 0 && s5 == 0 && s6 == 0 in
    if zero_head && s7 == 1
    then some ipv6_loopback
    else if bit_and s0 0xfe00 == 0xfc00
    then some ipv6_ula
    else if bit_and s0 0xffc0 == 0xfe80
    then some ipv6_link_local
    else if zero_head && s7 == 0
    then some this_network
    else if bit_and s0 0xff00 == 0xff00
    then some ipv6_multicast
    else none

-- 6to4: the IPv4 address in segments 1 and 2.
unfoldable pub classify_6to4 : ℕ → ℕ → ℕ → Option Range
unfolding classify_v4
classify_6to4 s0 s1 s2 =
    if s0 == 0x2002 then classify_v4 (s1 / 256) (s1 % 256) (s2 / 256) (s2 % 256) else none

-- The recursion of the code is on an IPv4 address, where it ends at once.
classify_mapped : Option IpAddr → Option (Option Range)
unfolding classify_v4
classify_mapped none = none
classify_mapped (some (v4 a b c d)) = some (classify_v4 a b c d)
classify_mapped (some (v6 s0 s1 s2 s3 s4 s5 s6 s7)) = none

unfoldable pub classify_dangerous_ip : IpAddr → Option Range
unfolding classify_v4 classify_v6 classify_6to4 classify_mapped to_ipv4_mapped
classify_dangerous_ip (v4 a b c d) = classify_v4 a b c d
classify_dangerous_ip (v6 s0 s1 s2 s3 s4 s5 s6 s7) =
    elim (classify_mapped (to_ipv4_mapped (v6 s0 s1 s2 s3 s4 s5 s6 s7))) [
      | some inner ↦ inner
      | none ↦ elim (classify_6to4 s0 s1 s2) [
        | some range ↦ some range
        | none ↦ classify_v6 s0 s1 s2 s3 s4 s5 s6 s7
      ]
    ]

unfoldable pub is_dangerous_ip : IpAddr → Bool
unfolding classify_dangerous_ip
is_dangerous_ip ip = is_some (classify_dangerous_ip ip)

-- An IPv4-mapped address is judged as the IPv4 address that it stands for.
classify-normalize_ip :
    (ip : IpAddr) → classify_dangerous_ip (normalize_ip ip) ≡ classify_dangerous_ip ip
unfolding classify_dangerous_ip normalize_ip
classify-normalize_ip (v4 a b c d) = refl
classify-normalize_ip (v6 s0 s1 s2 s3 s4 s5 s6 s7) =
    elim (Bool-cases (s0 == 0 && s1 == 0 && s2 == 0 && s3 == 0 && s4 == 0 && s5 == 0xffff)) [
      | inl e ↦ rw (e, classify_dangerous_ip, normalize_ip)
      | inr e ↦ rw (e, classify_dangerous_ip, normalize_ip) (rw (e, to_ipv4_mapped))
    ]

-- A block of addresses: the first address, and how many bits all addresses share.
abbrev pub Block : Type 0
Block = ℕ × ℕ

abbrev pub address : ℕ → ℕ → ℕ → ℕ → ℕ
address a b c d = ((a * 256 + b) * 256 + c) * 256 + d

unfoldable pub in_block : ℕ → Block → Bool
in_block ip (base, bits) = ip / 2 ^ (32 - bits) == base / 2 ^ (32 - bits)

-- 0/8, 127/8, 10/8, 172.16/12, 192.168/16, 169.254/16, 224/4, 240/4, 100.64/10, and the three
-- documentation networks: what the code tests by octets and masks, as networks with a prefix.
abbrev pub refused_blocks : List Block
refused_blocks =
    (address 0 0 0 0, 8)
    ∷ (address 127 0 0 0, 8)
    ∷ (address 10 0 0 0, 8)
    ∷ (address 172 16 0 0, 12)
    ∷ (address 192 168 0 0, 16)
    ∷ (address 169 254 0 0, 16)
    ∷ (address 224 0 0 0, 4)
    ∷ (address 240 0 0 0, 4)
    ∷ (address 100 64 0 0, 10)
    ∷ (address 192 0 2 0, 24)
    ∷ (address 198 51 100 0, 24)
    ∷ (address 203 0 113 0, 24)
    ∷ []

module _ (a b c d : ℕ) (ha : a < 256) (hb : b < 256) (hc : c < 256) (hd : d < 256) where
  in_this_network : in_block (address a b c d) (address 0 0 0 0, 8) ≡ (a == 0)
  unfolding in_block
  in_this_network = ground arith

  in_loopback : in_block (address a b c d) (address 127 0 0 0, 8) ≡ (a == 127)
  unfolding in_block
  in_loopback = ground arith

  in_private_10 : in_block (address a b c d) (address 10 0 0 0, 8) ≡ (a == 10)
  unfolding in_block
  in_private_10 = ground arith

  in_private_172 :
      in_block (address a b c d) (address 172 16 0 0, 12) ≡ (a == 172 && bit_and b 0xf0 == 16)
  unfolding in_block
  in_private_172 = ground (arith, bit_and-f0 b hb)

  in_private_192 : in_block (address a b c d) (address 192 168 0 0, 16) ≡ (a == 192 && b == 168)
  unfolding in_block
  in_private_192 = ground arith

  in_link_local : in_block (address a b c d) (address 169 254 0 0, 16) ≡ (a == 169 && b == 254)
  unfolding in_block
  in_link_local = ground arith

  in_multicast : in_block (address a b c d) (address 224 0 0 0, 4) ≡ (bit_and a 0xf0 == 224)
  unfolding in_block
  in_multicast = ground (arith, bit_and-f0 a ha)

  in_reserved : in_block (address a b c d) (address 240 0 0 0, 4) ≡ (bit_and a 0xf0 == 240)
  unfolding in_block
  in_reserved = ground (arith, bit_and-f0 a ha)

  in_cgnat :
      in_block (address a b c d) (address 100 64 0 0, 10) ≡ (a == 100 && bit_and b 0xc0 == 64)
  unfolding in_block
  in_cgnat = ground (arith, bit_and-c0 b hb)

  in_test_net_1 :
      in_block (address a b c d) (address 192 0 2 0, 24) ≡ (a == 192 && b == 0 && c == 2)
  unfolding in_block
  in_test_net_1 = ground arith

  in_test_net_2 :
      in_block (address a b c d) (address 198 51 100 0, 24) ≡ (a == 198 && b == 51 && c == 100)
  unfolding in_block
  in_test_net_2 = ground arith

  in_test_net_3 :
      in_block (address a b c d) (address 203 0 113 0, 24) ≡ (a == 203 && b == 0 && c == 113)
  unfolding in_block
  in_test_net_3 = ground arith

  -- The tests of octets and masks refuse an IPv4 address exactly when it lies in one of the twelve
  -- networks 0/8, 10/8, 100.64/10, 127/8, 169.254/16, 172.16/12, 192.0.2/24, 192.168/16,
  -- 198.51.100/24, 203.0.113/24, 224/4 and 240/4.
  pub is_dangerous_ip-any :
      is_dangerous_ip (v4 a b c d) ≡ any (in_block (address a b c d)) refused_blocks
  unfolding is_dangerous_ip
  is_dangerous_ip-any =
      rw
        (
          in_this_network, in_loopback, in_private_10, in_private_172, in_private_192,
          in_link_local, in_multicast, in_reserved, in_cgnat, in_test_net_1, in_test_net_2,
          in_test_net_3,
        )
        (ground arith)
