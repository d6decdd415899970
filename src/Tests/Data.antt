-- ===== src/Tests/Data.antt =====
-- Concrete instances of what the models take as parameters, and the inputs of the tests.
use s.Common.{
  ◌+◌, ◌-◌, ◌≡◌, ◌↔◌, Bool, true, false, ◌&&◌, Option, none, some, [], ◌∷◌, ◌==◌, ite,
  if◌then◌else◌, Text, arith, codes,
}
use s.Net.{IpAddr, IpAddr-discrete, v4, v6, NetApi}
use s.Acl.{ParsedAcl, AclPolicy, cidr, host_pattern}
use s.Acl.Parse.{contains_byte}
use s.Acl.Port.{any_port, exact}

-- Networks of one address each, written as a slash and the parts of the address, each moved past
-- the ASCII characters.
abbrev pub print_one : IpAddr → Text
print_one (v4 a b c d) = b'/' ∷ (a + 200) ∷ (b + 200) ∷ (c + 200) ∷ (d + 200) ∷ []
print_one (v6 a b c d e f g h) =
    b'/'
    ∷ (a + 200)
    ∷ (b + 200)
    ∷ (c + 200)
    ∷ (d + 200)
    ∷ (e + 200)
    ∷ (f + 200)
    ∷ (g + 200)
    ∷ (h + 200)
    ∷ []

abbrev pub parse_one : Text → Option IpAddr
parse_one (s ∷ a ∷ b ∷ c ∷ d ∷ []) =
    if s == b'/' then some (v4 (a - 200) (b - 200) (c - 200) (d - 200)) else none
parse_one (s ∷ a ∷ b ∷ c ∷ d ∷ e ∷ f ∷ g ∷ h ∷ []) =
    if s == b'/'
    then some (v6 (a - 200) (b - 200) (c - 200) (d - 200) (e - 200) (f - 200) (g - 200) (h - 200))
    else none
parse_one _ = none

-- Addresses of four single digits with dots between them.
abbrev pub parse_quad : Text → Option IpAddr
parse_quad (a ∷ p ∷ b ∷ q ∷ c ∷ r ∷ d ∷ []) =
    if p == b'.' && q == b'.' && r == b'.'
    then some (v4 (a - 48) (b - 48) (c - 48) (d - 48))
    else none
parse_quad _ = none

abbrev pub same_address : IpAddr → IpAddr → Bool
same_address a b = ite (IpAddr-discrete a b) true false

pub same_address_iff : (a b : IpAddr) → (same_address a b ≡ true) ↔ (a ≡ b)
same_address_iff a b = ground arith

abbrev pub api : NetApi
api = record {
  Net = IpAddr;
  contains = same_address;
  of_ip = λ ip. ip;
  parse_net = parse_one;
  parse_ip = parse_quad;
  print_net = print_one;
  contains-of_ip = same_address_iff;
}

-- Port 80 of example.org is allowed, 1.1.1.1 is denied, and so is everything else.
abbrev pub acl : ParsedAcl IpAddr
acl = record {
  default_policy = AclPolicy.deny;
  allow_rules = host_pattern (codes "example.org") (exact 80) ∷ [];
  deny_rules = cidr (v4 1 1 1 1) any_port ∷ [];
}

pub parse-print_one : (n : IpAddr) → parse_one (print_one n) ≡ some n
parse-print_one (v4 a b c d) = ground arith
parse-print_one (v6 a b c d e f g h) = ground arith

pub print_one-slash : (n : IpAddr) → contains_byte b'/' (print_one n) ≡ true
unfolding contains_byte
print_one-slash (v4 a b c d) = ground arith
print_one-slash (v6 a b c d e f g h) = ground arith

pub print_one-no_bracket : (n : IpAddr) → contains_byte b'[' (print_one n) ≡ false
unfolding contains_byte
print_one-no_bracket (v4 a b c d) = ground arith
print_one-no_bracket (v6 a b c d e f g h) = ground arith
