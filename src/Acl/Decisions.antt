-- ===== src/Acl/Decisions.antt =====
-- What the checks of src/config/acl.rs decide, and how the check of the name alone, before DNS,
-- fits the full check behind it.
use mathlib.Core.Path.{fun_ext}
use s.Common.{
  ap, ◌≡◌, ◌↔◌, ◌⊎◌, inl, inr, refl, ℕ, Bool, true, false, List, [], ◌∷◌, Option, some, arith, any,
  is_some, if◌then◌else◌, Text, Option-cases,
}
use s.Net.{IpAddr, NetApi}
use s.Acl.{
  AclRule, cidr, host_pattern, ParsedAcl, AclPolicy, PreCheckResult, first_match, matches, check,
  check_verbose, pre_matches, check_hostname_only, check_hostname_verbose,
}

pub first_match-any {ℓ} :
    {A : Type ℓ} (p : A → Bool) (rs : List A) → is_some (first_match p rs) ≡ any p rs
unfolding first_match
first_match-any p [] = refl
first_match-any p (r ∷ rs) = ground (arith, first_match-any p rs)

any_mono {ℓ} :
    {A : Type ℓ} (p q : A → Bool) (rs : List A)
    → ((r : A) → p r ≡ true → q r ≡ true)
    → any p rs ≡ true
    → any q rs ≡ true
any_mono p q [] h e = e
any_mono p q (r ∷ rs) h e = ground (arith, h r, any_mono p q rs h)

module _ (api : NetApi) (acl : ParsedAcl api.Net) (host : Text) (port : ℕ) where
  abbrev hits : Option IpAddr → List (AclRule api.Net) → Bool
  hits ip = any (λ r. matches api r host port ip)

  abbrev pre_hits : List (AclRule api.Net) → Bool
  pre_hits = any (pre_matches api host port (api.parse_ip host))

  check-any :
      (ip : Option IpAddr)
      → check api acl host port ip ≡ (
          if hits ip acl.deny_rules
          then AclPolicy.deny
          else if hits ip acl.allow_rules
          then AclPolicy.allow
          else acl.default_policy)
  unfolding check
  check-any ip = ground (
    arith,
    first_match-any (λ r. matches api r host port ip) acl.deny_rules,
    first_match-any (λ r. matches api r host port ip) acl.allow_rules,
  )

  check_hostname_only-any : check_hostname_only api acl host port ≡ (
      if pre_hits acl.deny_rules
      then PreCheckResult.deny
      else if pre_hits acl.allow_rules
      then PreCheckResult.allow
      else PreCheckResult.defer)
  unfolding check_hostname_only
  check_hostname_only-any = ground (
    arith,
    first_match-any (pre_matches api host port (api.parse_ip host)) acl.deny_rules,
    first_match-any (pre_matches api host port (api.parse_ip host)) acl.allow_rules,
  )

  -- A target is denied exactly when a deny rule matches it, or when no rule at all does and the
  -- default is to deny.
  pub check-eq-deny_iff :
      (ip : Option IpAddr)
      → (check api acl host port ip ≡ AclPolicy.deny) ↔ (
          (hits ip acl.deny_rules ≡ true)
          ⊎ ((hits ip acl.deny_rules ≡ false)
              × (hits ip acl.allow_rules ≡ false)
              × (acl.default_policy ≡ AclPolicy.deny)))
  check-eq-deny_iff ip = (λ e. ground (arith, check-any ip), λ d. ground (arith, check-any ip))

  -- The verbose checks decide as the plain ones do, and name a rule exactly when one matches.
  pub verbose_agrees :
      (ip : Option IpAddr)
      → ((check_verbose api acl host port ip).0 ≡ check api acl host port ip)
        × ((check_hostname_verbose api acl host port).0 ≡ check_hostname_only api acl host port)
        × (is_some (check_verbose api acl host port ip).1
            ≡ (if hits ip acl.deny_rules then true else hits ip acl.allow_rules))
        × (is_some (check_hostname_verbose api acl host port).1
            ≡ (if pre_hits acl.deny_rules then true else pre_hits acl.allow_rules))
  unfolding check check_verbose check_hostname_only check_hostname_verbose
  verbose_agrees ip = (
    ground arith,
    ground arith,
    ground (
      arith,
      first_match-any (λ r. matches api r host port ip) acl.deny_rules,
      first_match-any (λ r. matches api r host port ip) acl.allow_rules,
    ),
    ground (
      arith,
      first_match-any (pre_matches api host port (api.parse_ip host)) acl.deny_rules,
      first_match-any (pre_matches api host port (api.parse_ip host)) acl.allow_rules,
    ),
  )

  -- A rule that the check of the name sees, the full check sees too, where a literal address
  -- resolves to itself.
  pre_matches_sound :
      (ip : Option IpAddr) (r : AclRule api.Net)
      → ((l : IpAddr) → api.parse_ip host ≡ some l → ip ≡ some l)
      → pre_matches api host port (api.parse_ip host) r ≡ true
      → matches api r host port ip ≡ true
  unfolding pre_matches matches
  pre_matches_sound ip (host_pattern pattern pm) literal e = e
  pre_matches_sound ip (cidr network pm) literal e = elim (Option-cases (api.parse_ip host)) [
    | inl no_literal ↦ ground (arith, no_literal)
    | inr (l, is_literal) ↦ ground (arith, is_literal, literal l is_literal)
  ]

  -- What the check of the name denies, the full check denies, whatever the name resolves to, as
  -- long as a literal address resolves to itself.
  pub check_denies_of_hostname :
      (ip : Option IpAddr)
      → ((l : IpAddr) → api.parse_ip host ≡ some l → ip ≡ some l)
      → check_hostname_only api acl host port ≡ PreCheckResult.deny
      → check api acl host port ip ≡ AclPolicy.deny
  check_denies_of_hostname ip literal e = ground (
    arith,
    check-any ip,
    check_hostname_only-any,
    any_mono (pre_matches api host port (api.parse_ip host)) (λ r. matches api r host port ip)
        acl.deny_rules (λ r. pre_matches_sound ip r literal),
  )

  literal_matches :
      (l : IpAddr) (r : AclRule api.Net)
      → api.parse_ip host ≡ some l
      → pre_matches api host port (api.parse_ip host) r ≡ matches api r host port (some l)
  unfolding pre_matches matches
  literal_matches l (host_pattern pattern pm) e = refl
  literal_matches l (cidr network pm) e = ground (arith, e)

  -- For a literal address the check of the name is the full check, but for the default policy.
  check-literal :
      (l : IpAddr)
      → api.parse_ip host ≡ some l
      → check api acl host port (some l) ≡ elim (check_hostname_only api acl host port) [
        | PreCheckResult.deny ↦ AclPolicy.deny
        | PreCheckResult.allow ↦ AclPolicy.allow
        | PreCheckResult.defer ↦ acl.default_policy
      ]
  check-literal l e =
      let same : pre_matches api host port (api.parse_ip host)
          ≡ (λ r. matches api r host port (some l)) =
        fun_ext (λ r. literal_matches l r e) in
      ground (
        arith,
        check-any (some l),
        check_hostname_only-any,
        ap (λ p. any p acl.deny_rules) same,
        ap (λ p. any p acl.allow_rules) same,
      )
