-- ===== src/Socks/Datagram.antt =====
-- `UdpHeader` of src/socks/protocol.rs: the header in front of each datagram.
pub mod Framing
use s.Common.{
  ℕ, zero, suc, ap, ◌∙◌, subst, inl, inr, Bool-cases, Option-cases, ◌+◌, ◌-◌, ◌*◌, ◌/◌, ◌%◌, ◌≤◌,
  ◌≡◌, refl, true, false, Option, none, some, List, [], ◌∷◌, ◌++◌, arith, ltb, ◌==◌, if◌then◌else◌,
  length, take, drop, get_or,
}
use s.Common.Utf8.{is_utf8}
use s.Socks.{
  TargetAddr, ipv4, ipv6, domain, address_bytes, atyp_ipv4, atyp_domain, atyp_ipv6, be_bytes,
  IsTarget,
}

pub record UdpHeader : Type 0 where
  pub frag : ℕ
  pub target : TargetAddr

pub data DatagramError : Type 0 where
  header_too_short ipv4_too_short length_too_short domain_too_short ipv6_too_short : DatagramError
  invalid_domain : DatagramError
  unsupported_address_type : ℕ → DatagramError

pub data Parsed (A : Type 0) : Type 0 where
  ok : A → Parsed A
  err : DatagramError → Parsed A

-- `datagram[from..to]`
unfoldable pub slice : List ℕ → ℕ → ℕ → List ℕ
slice datagram from to = take (to - from) (drop from datagram)

-- `u16::from_be_bytes([datagram[offset], datagram[offset + 1]])`
unfoldable pub port_at : List ℕ → ℕ → ℕ
port_at datagram offset = get_or datagram offset 0 * 256 + get_or datagram (offset + 1) 0

unfoldable pub parse_ipv4 : List ℕ → Parsed (TargetAddr × ℕ)
unfolding slice port_at
parse_ipv4 datagram =
    if ltb (length datagram) (4 + 6)
    then err ipv4_too_short
    else ok (ipv4 (slice datagram 4 8) (port_at datagram 8), 10)

unfoldable pub parse_domain : List ℕ → Parsed (TargetAddr × ℕ)
unfolding slice port_at is_utf8
parse_domain datagram =
    if ltb (length datagram) (4 + 1)
    then err length_too_short
    else (let len = get_or datagram 4 0 in
        if ltb (length datagram) (5 + len + 2)
        then err domain_too_short
        else if is_utf8 (slice datagram 5 (5 + len))
        then ok (domain (slice datagram 5 (5 + len)) (port_at datagram (5 + len)), 5 + len + 2)
        else err invalid_domain)

unfoldable pub parse_ipv6 : List ℕ → Parsed (TargetAddr × ℕ)
unfolding slice port_at
parse_ipv6 datagram =
    if ltb (length datagram) (4 + 18)
    then err ipv6_too_short
    else ok (ipv6 (slice datagram 4 20) (port_at datagram 20), 22)

abbrev pub with_frag : ℕ → Parsed (TargetAddr × ℕ) → Parsed (UdpHeader × ℕ)
with_frag frag (ok (target, offset)) = ok (record { frag = frag; target = target }, offset)
with_frag frag (err e) = err e

-- The header, and how many bytes it took.
unfoldable pub parse : List ℕ → Parsed (UdpHeader × ℕ)
unfolding parse_ipv4 parse_domain parse_ipv6
parse datagram =
    if ltb (length datagram) 4
    then err header_too_short
    else (let atyp = get_or datagram 3 0 in
        with_frag (get_or datagram 2 0) (
          if atyp == atyp_ipv4
          then parse_ipv4 datagram
          else if atyp == atyp_domain
          then parse_domain datagram
          else if atyp == atyp_ipv6
          then parse_ipv6 datagram
          else err (unsupported_address_type atyp)))

abbrev pub after_prefix : ℕ → Option (List ℕ) → Option (List ℕ)
after_prefix frag none = none
after_prefix frag (some bytes) = some (0 ∷ 0 ∷ frag ∷ bytes)

-- None where the assertion on the length of a name fails.
unfoldable pub serialize : UdpHeader → Option (List ℕ)
unfolding address_bytes
serialize h = after_prefix h.frag (address_bytes h.target)
