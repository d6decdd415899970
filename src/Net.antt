-- ===== src/Net.antt =====
-- Internet addresses, and what the program takes from the crate `ipnet` and from `std::net`.
pub mod Masks
pub mod Guard
use s.Common.{
  ℕ, ◌+◌, ◌*◌, ◌/◌, ◌%◌, ◌≡◌, ◌↔◌, Bool, true, ◌&&◌, Option, none, some, arith, ◌==◌, if◌then◌else◌,
  Text, Key, ℕ_discrete,
}

-- Four octets, or eight segments of 16 bits.
pub data IpAddr : Type 0 where
  v4 : ℕ → ℕ → ℕ → ℕ → IpAddr
  v6 : ℕ → ℕ → ℕ → ℕ → ℕ → ℕ → ℕ → ℕ → IpAddr

unfoldable pub IpAddr-discrete : Discrete IpAddr
unfolding ℕ_discrete
IpAddr-discrete = hlevel ℕ_discrete

instance abbrev pub ip_key : Key IpAddr
ip_key = record { dec = IpAddr-discrete }

-- `Ipv6Addr::to_ipv4_mapped` of the standard library: ::ffff:a.b.c.d.
unfoldable pub to_ipv4_mapped : IpAddr → Option IpAddr
to_ipv4_mapped (v4 a b c d) = none
to_ipv4_mapped (v6 s0 s1 s2 s3 s4 s5 s6 s7) =
    if s0 == 0 && s1 == 0 && s2 == 0 && s3 == 0 && s4 == 0 && s5 == 0xffff
    then some (v4 (s6 / 256) (s6 % 256) (s7 / 256) (s7 % 256))
    else none

-- src/security/normalize.rs
unfoldable pub normalize_ip : IpAddr → IpAddr
unfolding to_ipv4_mapped
normalize_ip (v4 a b c d) = v4 a b c d
normalize_ip (v6 s0 s1 s2 s3 s4 s5 s6 s7) = elim (to_ipv4_mapped (v6 s0 s1 s2 s3 s4 s5 s6 s7)) [
  | some ip ↦ ip
  | none ↦ v6 s0 s1 s2 s3 s4 s5 s6 s7
]

-- Networks of the crate `ipnet`, and the parsers and printers that the program calls.
pub record NetApi : Type 1 where
  pub Net : Type 0
  pub contains : Net → IpAddr → Bool
  -- `IpNet::from(ip)`: the network of one address
  pub of_ip : IpAddr → Net
  -- `str::parse::<IpNet>` and `str::parse::<IpAddr>`
  pub parse_net : Text → Option Net
  pub parse_ip : Text → Option IpAddr
  pub print_net : Net → Text
  pub contains-of_ip : (a b : IpAddr) → (contains (of_ip a) b ≡ true) ↔ (a ≡ b)

-- Normalising once is enough.
pub normalize_ip_idem : (ip : IpAddr) → normalize_ip (normalize_ip ip) ≡ normalize_ip ip
unfolding normalize_ip
normalize_ip_idem (v4 a b c d) = ground arith
normalize_ip_idem (v6 s0 s1 s2 s3 s4 s5 s6 s7) = ground arith
