-- ===== src/Socks/Request.antt =====
-- The greeting and the requests of src/socks/protocol.rs, read off a stream.
use s.Common.{ℕ, Option, none, some, List, [], ◌∷◌, ltb, ◌==◌, if◌then◌else◌}
use s.Net.{NetApi}
use s.Socks.{
  TargetAddr, ipv4, ipv6, domain, atyp_ipv4, atyp_domain, atyp_ipv6, socks_version, cmd_connect,
  cmd_udp_associate, reply_host_unreachable, reply_address_type_not_supported,
  reply_command_not_supported,
}
use s.Socks.Domain.{DomainError, validate_domain, max_domain_length}
use s.Socks.Stream.{
  no_methods, empty_name, invalid_version, unsupported_command, unsupported_address_type,
  name_too_long, invalid_domain, Io, ◌>>=◌, ok, bail, refuse, read_u8, read_exact, read_u16,
  write_all, send_reply, from_utf8,
}

pub data SocksRequest : Type 0 where
  connect udp_associate : TargetAddr → SocksRequest

unfoldable pub require_version : ℕ → Io Unit
require_version ver = if ver == socks_version then ok tt else bail (invalid_version ver)

unfoldable pub read_greeting : Io (List ℕ)
unfolding read_u8 read_exact require_version
read_greeting = do
  ver ← read_u8
  u ← require_version ver
  nmethods ← read_u8
  if nmethods == 0 then bail no_methods else read_exact nmethods

unfoldable pub send_method_selection : ℕ → Io Unit
unfolding write_all
send_method_selection method = write_all (socks_version ∷ method ∷ [])

unfoldable pub read_ipv4 : Io TargetAddr
unfolding read_exact read_u16
read_ipv4 = do ip ← read_exact 4; p ← read_u16; ok (ipv4 ip p)

unfoldable pub read_ipv6 : Io TargetAddr
unfolding read_exact read_u16
read_ipv6 = do ip ← read_exact 16; p ← read_u16; ok (ipv6 ip p)

-- The two tests of the length of a name.
unfoldable pub require_length : ℕ → Io Unit
require_length len =
    if len == 0
    then bail empty_name
    else if ltb max_domain_length len
    then bail (name_too_long len)
    else ok tt

abbrev pub accept : Option DomainError → Io Unit
unfolding send_reply
accept none = ok tt
accept (some e) = refuse reply_host_unreachable (invalid_domain e)

unfoldable pub read_domain : NetApi → Io TargetAddr
unfolding read_u8 read_exact read_u16 from_utf8 require_length validate_domain
read_domain api = do
  len ← read_u8
  u ← require_length len
  bytes ← read_exact len
  name ← from_utf8 bytes
  v ← accept (validate_domain api name)
  p ← read_u16
  ok (domain name p)

-- `match atyp`, which both requests share.
unfoldable pub read_target : NetApi → ℕ → Io TargetAddr
unfolding read_ipv4 read_ipv6 read_domain send_reply
read_target api atyp =
    if atyp == atyp_ipv4
    then read_ipv4
    else if atyp == atyp_domain
    then read_domain api
    else if atyp == atyp_ipv6
    then read_ipv6
    else refuse reply_address_type_not_supported (unsupported_address_type atyp)

-- `match cmd`
unfoldable pub dispatch : ℕ → TargetAddr → Io SocksRequest
unfolding send_reply
dispatch cmd target =
    if cmd == cmd_connect
    then ok (connect target)
    else if cmd == cmd_udp_associate
    then ok (udp_associate target)
    else refuse reply_command_not_supported (unsupported_command cmd)

unfoldable pub read_request : NetApi → Io SocksRequest
unfolding read_u8 require_version read_target dispatch
read_request api = do
  ver ← read_u8
  u ← require_version ver
  cmd ← read_u8
  rsv ← read_u8
  atyp ← read_u8
  target ← read_target api atyp
  dispatch cmd target

unfoldable pub require_connect : ℕ → Io Unit
unfolding send_reply
require_connect cmd =
    if cmd == cmd_connect
    then ok tt
    else refuse reply_command_not_supported (unsupported_command cmd)

unfoldable pub read_connect_request : NetApi → Io TargetAddr
unfolding read_u8 require_version require_connect read_target
read_connect_request api = do
  ver ← read_u8
  u ← require_version ver
  cmd ← read_u8
  v ← require_connect cmd
  rsv ← read_u8
  atyp ← read_u8
  read_target api atyp
