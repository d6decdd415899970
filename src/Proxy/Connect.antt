-- ===== src/Proxy/Connect.antt =====
-- `connect_checked` of src/proxy/mod.rs, with the decisions of src/proxy/acl.rs: the rules before the
-- connection, the slot, the connection, and the rules behind it. What the network answers is an
-- input; logs and audits are left out.
pub mod Checked
use s.Common.{
  ℕ, ◌+◌, ◌≤◌, ◌<◌, ◌≡◌, ◌≢◌, refl, ap, sym, subst, ◌∙◌, Bool, true, false, Option, none, some,
  List, [], ◌∷◌, any, if◌then◌else◌, Text, arith, Bool-cases, Option-cases, inl, inr, Dict,
  text_key,
}
use s.Common.Maps.{Key, lookup}
use s.Net.{IpAddr, v4, NetApi}
use s.Acl.{
  ParsedAcl, AclPolicy, PreCheckResult, check, check_verbose, check_hostname_only,
  check_hostname_verbose,
}
use s.Acl.Decisions.{verbose_agrees, check_denies_of_hostname}
use s.Proxy.Slots.{
  Slots, Acquired, acquired, global_limit, user_limit, acquire_connection, release, u32_mod,
}

pub record AclDecision : Type 0 where
  pub allowed : Bool
  pub matched_rule : Option Text

abbrev pub of_pre : PreCheckResult × Option Text → AclDecision
of_pre (PreCheckResult.deny, rule) = record { allowed = false; matched_rule = rule }
of_pre (PreCheckResult.allow, rule) = record { allowed = true; matched_rule = rule }
of_pre (PreCheckResult.defer, rule) = record { allowed = true; matched_rule = rule }

abbrev pub of_policy : AclPolicy × Option Text → AclDecision
of_policy (AclPolicy.allow, rule) = record { allowed = true; matched_rule = rule }
of_policy (AclPolicy.deny, rule) = record { allowed = false; matched_rule = rule }

-- What the network answers: whether the upstream proxy connects, and the address that a direct
-- connection reaches.
pub record Network : Type 0 where
  pub via_socks5 : Bool
  pub resolved : Option IpAddr

pub data Connection : Type 0 where
  denied_by_name no_global_slot no_user_slot not_connected denied_by_address : Connection
  connected : IpAddr → Connection

-- `([0, 0, 0, 0], 0)`
abbrev pub sentinel : IpAddr
sentinel = v4 0 0 0 0

module _ (api : NetApi) where
  unfoldable pub pre_check_hostname_and_log : ParsedAcl api.Net → Text → ℕ → AclDecision
  pre_check_hostname_and_log acl host port = of_pre (check_hostname_verbose api acl host port)

  unfoldable pub check_and_log : ParsedAcl api.Net → Text → ℕ → Option IpAddr → AclDecision
  check_and_log acl host port ip = of_policy (check_verbose api acl host port ip)

  -- A connection through the upstream proxy; the guard is dropped where it fails.
  unfoldable pub through_proxy : Text → Bool → Slots → Connection × Slots
  through_proxy username via_socks5 s =
      if via_socks5 then (connected sentinel, s) else (not_connected, release username s)

  -- A direct connection, and the check of the address that it reached.
  unfoldable pub directly :
      ParsedAcl api.Net → Text → Text → ℕ → Option IpAddr → Slots → Connection × Slots
  unfolding check_and_log
  directly acl username host port none s = (not_connected, release username s)
  directly acl username host port (some ip) s =
      if (check_and_log acl host port (some ip)).allowed
      then (connected ip, s)
      else (denied_by_address, release username s)

  -- With a slot in hand.
  unfoldable pub with_slot :
      ParsedAcl api.Net → Text → Text → ℕ → Bool → Network → Slots → Connection × Slots
  unfolding through_proxy directly
  with_slot acl username host port upstream_proxy net s =
      if upstream_proxy
      then through_proxy username net.via_socks5 s
      else directly acl username host port net.resolved s

  unfoldable pub after_acquire :
      ParsedAcl api.Net → Text → Text → ℕ → Bool → Network → Slots → Acquired → Connection × Slots
  unfolding with_slot
  after_acquire acl username host port upstream_proxy net s (acquired s') =
      with_slot acl username host port upstream_proxy net s'
  after_acquire acl username host port upstream_proxy net s global_limit = (no_global_slot, s)
  after_acquire acl username host port upstream_proxy net s (user_limit s') = (no_user_slot, s')

  unfoldable pub connect_checked :
      ParsedAcl api.Net → Text → Text → ℕ → ℕ → ℕ → Bool → Network → Slots → Connection × Slots
  unfolding pre_check_hostname_and_log after_acquire
  connect_checked acl username host port max_global max_per_user upstream_proxy net s =
      if (pre_check_hostname_and_log acl host port).allowed
      then after_acquire acl username host port upstream_proxy net s
          (acquire_connection username max_global max_per_user s)
      else (denied_by_name, s)
