-- ===== src/Acl.antt =====
-- src/config/acl.rs: rules, policies and the checks of a target against them. Networks and the
-- parsers of addresses are the parameter `api`.
pub mod Pattern
pub mod Port
pub mod Parse
pub mod Decisions
pub mod Merge
use s.Common.{
  ℕ, ◌≤◌, Bool, true, false, ◌&&◌, Option, none, some, List, [], ◌∷◌, ◌++◌, ltb, leb, ◌==◌, is_some,
  if◌then◌else◌, Text, codes,
}
use s.Common.Decimal.{decimal}
use s.Net.{IpAddr, NetApi}
use Pattern.{hostname_matches}
use Port.{PortMatch, port_matches, print_port}

pub data AclPolicy : Type 0 where
  allow deny : AclPolicy

pub data PreCheckResult : Type 0 where
  allow deny defer : PreCheckResult

pub data AclRule (Net : Type 0) : Type 0 where
  cidr : Net → PortMatch → AclRule Net
  host_pattern : Text → PortMatch → AclRule Net

pub record ParsedAcl (Net : Type 0) : Type 0 where
  pub default_policy : AclPolicy
  pub allow_rules : List (AclRule Net)
  pub deny_rules : List (AclRule Net)

-- `for rule in rules { if … { return … } }`: the first rule that the test accepts.
unfoldable pub first_match {ℓ} : {A : Type ℓ} → (A → Bool) → List A → Option A
first_match p [] = none
first_match p (r ∷ rs) = if p r then some r else first_match p rs

module _ (api : NetApi) where
  open api use {Net, contains, parse_ip, print_net}

  -- The address that a network is matched against: the resolved one, or a literal.
  unfoldable pub target_ip : Text → Option IpAddr → Option IpAddr
  target_ip host (some ip) = some ip
  target_ip host none = parse_ip host

  unfoldable pub contains_target : Net → Option IpAddr → Bool
  contains_target network none = false
  contains_target network (some ip) = contains network ip

  unfoldable pub matches : AclRule Net → Text → ℕ → Option IpAddr → Bool
  unfolding target_ip contains_target
  matches (cidr network pm) host port resolved_ip =
      if port_matches pm port then contains_target network (target_ip host resolved_ip) else false
  matches (host_pattern pattern pm) host port resolved_ip =
      if port_matches pm port then hostname_matches host pattern else false

  unfoldable pub check : ParsedAcl Net → Text → ℕ → Option IpAddr → AclPolicy
  unfolding first_match
  check acl host port resolved_ip =
      let hit = λ (r : AclRule Net). matches r host port resolved_ip in
      elim (first_match hit acl.deny_rules) [
        | some r ↦ AclPolicy.deny
        | none ↦ elim (first_match hit acl.allow_rules) [
          | some r ↦ AclPolicy.allow
          | none ↦ acl.default_policy
        ]
      ]

  -- `Display` of a rule.
  unfoldable pub print_rule : AclRule Net → Text
  print_rule (cidr network pm) = print_net network ++ b':' ∷ print_port pm
  print_rule (host_pattern pattern pm) = pattern ++ b':' ∷ print_port pm

  unfoldable pub check_verbose : ParsedAcl Net → Text → ℕ → Option IpAddr → AclPolicy × Option Text
  unfolding first_match print_rule
  check_verbose acl host port resolved_ip =
      let hit = λ (r : AclRule Net). matches r host port resolved_ip in
      elim (first_match hit acl.deny_rules) [
        | some r ↦ (AclPolicy.deny, some (codes "deny:" ++ print_rule r))
        | none ↦ elim (first_match hit acl.allow_rules) [
          | some r ↦ (AclPolicy.allow, some (codes "allow:" ++ print_rule r))
          | none ↦ (acl.default_policy, none)
        ]
      ]

  -- Without a resolved address: names always, networks only where the host is a literal.
  unfoldable pub pre_matches : Text → ℕ → Option IpAddr → AclRule Net → Bool
  unfolding matches
  pre_matches host port literal_ip (host_pattern pattern pm) =
      matches (host_pattern pattern pm) host port none
  pre_matches host port literal_ip (cidr network pm) =
      if is_some literal_ip then matches (cidr network pm) host port literal_ip else false

  unfoldable pub check_hostname_only : ParsedAcl Net → Text → ℕ → PreCheckResult
  unfolding first_match pre_matches
  check_hostname_only acl host port =
      let hit = pre_matches host port (parse_ip host) in
      elim (first_match hit acl.deny_rules) [
        | some r ↦ PreCheckResult.deny
        | none ↦ elim (first_match hit acl.allow_rules) [
          | some r ↦ PreCheckResult.allow
          | none ↦ PreCheckResult.defer
        ]
      ]

  unfoldable pub check_hostname_verbose : ParsedAcl Net → Text → ℕ → PreCheckResult × Option Text
  unfolding first_match pre_matches print_rule
  check_hostname_verbose acl host port =
      let hit = pre_matches host port (parse_ip host) in
      elim (first_match hit acl.deny_rules) [
        | some r ↦ (PreCheckResult.deny, some (codes "deny:" ++ print_rule r))
        | none ↦ elim (first_match hit acl.allow_rules) [
          | some r ↦ (PreCheckResult.allow, some (codes "allow:" ++ print_rule r))
          | none ↦ (PreCheckResult.defer, none)
        ]
      ]
