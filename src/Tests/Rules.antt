-- ===== src/Tests/Rules.antt =====
-- Access rules at concrete targets (src/config/acl.rs, src/proxy/ip_guard.rs).
use s.Common.{◌≡◌, ◌↔◌, ◌⊎◌, refl, true, false, some, [], ◌∷◌, arith, codes, any}
use s.Net.{IpAddr, v4}
use s.Net.Guard.{is_dangerous_ip, is_dangerous_ip-any, in_block, address, refused_blocks}
use s.Acl.{
  ParsedAcl, AclRule, AclPolicy, PreCheckResult, cidr, host_pattern, check, check_hostname_only,
  check_verbose, check_hostname_verbose, matches, pre_matches, print_rule,
}
use s.Acl.Port.{
  PortMatch, any_port, exact, range, parse_port_match, print_port, parse_port_match-print_port,
  parse_port_match-IsPort, IsPort, PortResult,
}
use s.Acl.Parse.{Result, parse, parse-print_rule, contains_byte}
use s.Acl.Merge.{GlobalAclConfig, UserAclConfig, AclPolicyConfig}
use s.Acl.Decisions.{check-eq-deny_iff, check_denies_of_hostname}
use s.Tests.Data.{api, acl, parse-print_one, print_one-slash, print_one-no_bracket}
use s.Acl.Pattern.{to_lower}
use s.Net.{IpAddr-discrete}

check-eq-deny_iff_example :
    (check api acl (codes "a.b") 80 (some (v4 1 1 1 1)) ≡ AclPolicy.deny) ↔ (
      (any (λ r. matches api r (codes "a.b") 80 (some (v4 1 1 1 1))) acl.deny_rules ≡ true)
      ⊎ ((any (λ r. matches api r (codes "a.b") 80 (some (v4 1 1 1 1))) acl.deny_rules ≡ false)
          × (any (λ r. matches api r (codes "a.b") 80 (some (v4 1 1 1 1))) acl.allow_rules ≡ false)
          × (acl.default_policy ≡ AclPolicy.deny)))
check-eq-deny_iff_example = check-eq-deny_iff api acl (codes "a.b") 80 (some (v4 1 1 1 1))

check_denies_of_hostname_example :
    check api acl (codes "1.1.1.1") 443 (some (v4 1 1 1 1)) ≡ AclPolicy.deny
unfolding check_hostname_only IpAddr-discrete s.Acl.Port.port_matches
check_denies_of_hostname_example =
    check_denies_of_hostname api acl (codes "1.1.1.1") 443 (some (v4 1 1 1 1)) (λ l e. e) refl

parse-print_rule_example :
    parse api (print_rule api (host_pattern (codes "a.org") (exact 80)))
    ≡ Result.ok (host_pattern (codes "a.org") (exact 80))
unfolding contains_byte to_lower
parse-print_rule_example =
    parse-print_rule api parse-print_one print_one-slash print_one-no_bracket
      (host_pattern (codes "a.org") (exact 80))
      (ground arith, (λ e. ground (arith, e)), refl, refl, refl, refl, refl)

abbrev global : GlobalAclConfig
global = record {
  default_policy = AclPolicyConfig.allow;
  allow_texts = [];
  deny_texts = codes "a.org:25" ∷ [];
}

abbrev user : UserAclConfig
user = record {
  default_policy = some AclPolicyConfig.allow;
  allow_texts = codes "*" ∷ [];
  deny_texts = [];
  inherit = true;
}

abbrev merged : ParsedAcl IpAddr
merged = record {
  default_policy = AclPolicy.allow;
  allow_rules = host_pattern (codes "*") any_port ∷ [];
  deny_rules = host_pattern (codes "a.org") (exact 25) ∷ [];
}

is_dangerous_ip-any_example :
    is_dangerous_ip (v4 10 0 0 1) ≡ any (in_block (address 10 0 0 1)) refused_blocks
is_dangerous_ip-any_example =
    is_dangerous_ip-any 10 0 0 1 (omega arith) (omega arith) (omega arith) (omega arith)
