-- ===== src/Socks.antt =====
-- src/socks/protocol.rs: the codes of SOCKS5, its addresses, and their bytes on the wire.
pub mod Domain
pub mod Stream
pub mod Request
pub mod Auth
pub mod Steps
pub mod Handler
pub mod Roundtrip
pub mod Replies
pub mod Datagram
use s.Common.{
  ℕ, ◌*◌, ◌+◌, ◌/◌, ◌%◌, ◌≤◌, ◌<◌, ◌≡◌, Option, none, some, List, [], ◌∷◌, ◌++◌, leb, if◌then◌else◌,
  Text, length, All, true,
}
use s.Common.Decimal.{decimal}
use s.Common.Utf8.{is_utf8}

abbrev pub socks_version : ℕ
socks_version = 5

abbrev pub auth_password : ℕ
auth_password = 2

abbrev pub auth_no_acceptable : ℕ
auth_no_acceptable = 255

abbrev pub cmd_connect : ℕ
cmd_connect = 1

abbrev pub cmd_udp_associate : ℕ
cmd_udp_associate = 3

abbrev pub atyp_ipv4 : ℕ
atyp_ipv4 = 1

abbrev pub atyp_domain : ℕ
atyp_domain = 3

abbrev pub atyp_ipv6 : ℕ
atyp_ipv6 = 4

abbrev pub reply_success : ℕ
reply_success = 0

abbrev pub reply_general_failure : ℕ
reply_general_failure = 1

abbrev pub reply_not_allowed : ℕ
reply_not_allowed = 2

abbrev pub reply_host_unreachable : ℕ
reply_host_unreachable = 4

abbrev pub reply_connection_refused : ℕ
reply_connection_refused = 5

abbrev pub reply_command_not_supported : ℕ
reply_command_not_supported = 7

abbrev pub reply_address_type_not_supported : ℕ
reply_address_type_not_supported = 8

-- An address of 4 or 16 bytes, or a name; each with a port.
pub data TargetAddr : Type 0 where
  ipv4 : List ℕ → ℕ → TargetAddr
  ipv6 : List ℕ → ℕ → TargetAddr
  domain : Text → ℕ → TargetAddr

abbrev pub IsByte : ℕ → Type 0
IsByte b = b < 256

-- What the types of the source give: arrays of 4 and 16 bytes, UTF-8, ports of 16 bits.
abbrev pub IsTarget : TargetAddr → Type 0
IsTarget (ipv4 ip port) = (length ip ≡ 4) × All IsByte ip × (port < 65536)
IsTarget (ipv6 ip port) = (length ip ≡ 16) × All IsByte ip × (port < 65536)
IsTarget (domain name port) = (is_utf8 name ≡ true) × (port < 65536)

unfoldable pub port : TargetAddr → ℕ
port (ipv4 ip p) = p
port (ipv6 ip p) = p
port (domain name p) = p

unfoldable pub hex_digit : ℕ → ℕ
hex_digit d = if leb d 9 then 48 + d else 87 + d

-- Two bytes as one group: `{:02x}{:02x}`.
unfoldable pub hex_group : ℕ → ℕ → Text
unfolding hex_digit
hex_group a b =
    hex_digit (a / 16) ∷ hex_digit (a % 16) ∷ hex_digit (b / 16) ∷ hex_digit (b % 16) ∷ []

-- The groups of `chunks(2)`, joined by colons; an array of 16 bytes has no odd chunk.
unfoldable pub hex_groups : List ℕ → Text
unfolding hex_group
hex_groups [] = []
hex_groups (a ∷ []) = []
hex_groups (a ∷ b ∷ []) = hex_group a b
hex_groups (a ∷ b ∷ c ∷ rest) = hex_group a b ++ b':' ∷ hex_groups (c ∷ rest)

-- Numbers joined by dots.
unfoldable pub dotted : List ℕ → Text
dotted [] = []
dotted (a ∷ []) = decimal a
dotted (a ∷ b ∷ rest) = decimal a ++ b'.' ∷ dotted (b ∷ rest)

unfoldable pub host_string : TargetAddr → Text
unfolding dotted hex_groups
host_string (ipv4 ip p) = dotted ip
host_string (ipv6 ip p) = hex_groups ip
host_string (domain name p) = name

-- `u16::to_be_bytes`
abbrev pub be_bytes : ℕ → List ℕ
be_bytes p = p / 256 ∷ p % 256 ∷ []

-- The type, the address and the port, as `UdpHeader::serialize` and `send_reply` write them; none
-- where their assertion on the length of a name fails.
unfoldable pub address_bytes : TargetAddr → Option (List ℕ)
address_bytes (ipv4 ip p) = some (atyp_ipv4 ∷ ip ++ be_bytes p)
address_bytes (ipv6 ip p) = some (atyp_ipv6 ∷ ip ++ be_bytes p)
address_bytes (domain name p) =
    if leb (length name) 255 then some (atyp_domain ∷ length name ∷ name ++ be_bytes p) else none
