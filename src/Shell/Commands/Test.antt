-- ===== src/Shell/Commands/Test.antt =====
-- src/shell/commands/test_cmd.rs
use s.Common.{
  ℕ, Bool, not, List, [], ◌∷◌, ◌++◌, Option, none, some, if◌then◌else◌, ◌==◌, Text, codes,
}
use s.Common.Decimal.{parse_uint, decimal}
use s.Common.Chars.{as_bytes, from_utf8_lossy}
use s.Net.{NetApi}
use s.Acl.{AclPolicy, check_verbose}
use s.Acl.Port.{split_once}
use s.Acl.Parse.{rsplit_once}
use s.Shell.Context.{ShellContext, CommandResult, line, color, green, red}

abbrev port_of : Text → Option ℕ → Option (Text × ℕ)
port_of host none = none
port_of host (some port) = some (host, port)

-- What stands behind a bracket.
abbrev bracketed : Option (Text × Text) → Option (Text × ℕ)
bracketed none = none
bracketed (some (host, [])) = none
bracketed (some (host, (c ∷ port))) =
    if c == b':' then port_of host (parse_uint 65536 port) else none

abbrev with_host : Text → Option ℕ → Option (Text × ℕ)
with_host [] port = none
with_host (c ∷ cs) port = port_of (c ∷ cs) port

abbrev plain : Option (Text × Text) → Option (Text × ℕ)
plain none = none
plain (some (host, port)) = with_host host (parse_uint 65536 port)

unfoldable pub parse_host_port : Text → Option (Text × ℕ)
unfolding split_once rsplit_once parse_uint
parse_host_port [] = none
parse_host_port (c ∷ input) =
    if c == b'[' then bracketed (split_once b']' input) else plain (rsplit_once b':' (c ∷ input))

abbrev status_line : Text → ℕ → Text → Option Text → CommandResult
status_line host port status (some rule) = line (
    host
    ++ codes ":"
    ++ decimal port
    ++ codes " -> "
    ++ status
    ++ codes " (rule: "
    ++ from_utf8_lossy rule
    ++ codes ")")
status_line host port status none =
    line (host ++ codes ":" ++ decimal port ++ codes " -> " ++ status ++ codes " (default policy)")

abbrev verdict : Bool → Text → ℕ → AclPolicy × Option Text → CommandResult
verdict colors host port (AclPolicy.allow, rule) =
    status_line host port (color green (codes "ALLOWED") colors) rule
verdict colors host port (AclPolicy.deny, rule) =
    status_line host port (color red (codes "DENIED") colors) rule

module _ (api : NetApi) where
  open api use {Net}

  abbrev test_target : ShellContext Net → Text → Option (Text × ℕ) → CommandResult
  test_target ctx target none =
      line (codes "Invalid target '" ++ target ++ codes "'. Expected format: host:port")
  test_target ctx target (some (host, port)) =
      verdict ctx.colors host port (check_verbose api ctx.acl (as_bytes host) port none)

  unfoldable pub run : List Text → ShellContext Net → CommandResult
  unfolding parse_host_port check_verbose as_bytes from_utf8_lossy color decimal
  run args ctx =
      if not ctx.permissions.test_command
      then line (codes "Permission denied: test")
      else elim args [
        | [] ↦ line (codes "Usage: test <host:port>")
        | target ∷ rest ↦ test_target ctx target (parse_host_port target)
      ]
