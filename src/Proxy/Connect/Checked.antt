-- ===== src/Proxy/Connect/Checked.antt =====
-- What a connection of src/proxy/mod.rs has been checked for, and the slots of those that fail.
use s.Common.{
  ℕ, ◌<◌, ◌≡◌, refl, sym, ◌∙◌, Bool, true, false, Option, none, some, Text, arith, Bool-cases, inl,
  inr, text_key,
}
use s.Common.Maps.{lookup}
use s.Net.{IpAddr, NetApi}
use s.Acl.{
  ParsedAcl, AclPolicy, PreCheckResult, check, check_verbose, check_hostname_only,
  check_hostname_verbose,
}
use s.Acl.Decisions.{verbose_agrees}
use s.Proxy.Slots.{
  Slots, Acquired, acquired, global_limit, user_limit, acquire_connection, release, u32_mod,
}
use s.Proxy.Slots.Release.{release-acquire}
use s.Proxy.Slots.Balance.{Balanced, refused_user}
use s.Proxy.Connect.{
  Network, Connection, connected, denied_by_name, no_global_slot, no_user_slot, not_connected,
  denied_by_address, sentinel, of_pre, of_policy, pre_check_hostname_and_log, check_and_log,
  directly, after_acquire, connect_checked,
}

module _ (api : NetApi) where
  policy_allowed :
      (d : AclPolicy × Option Text) → (of_policy d).allowed ≡ true → d.0 ≡ AclPolicy.allow
  policy_allowed (AclPolicy.allow, rule) h = refl
  policy_allowed (AclPolicy.deny, rule) h = absurd (ground (arith, h))

  pre_allowed :
      (d : PreCheckResult × Option Text) → d.0 ≡ PreCheckResult.defer → (of_pre d).allowed ≡ true
  pre_allowed (PreCheckResult.allow, rule) h = refl
  pre_allowed (PreCheckResult.deny, rule) h = absurd (ground (arith, h))
  pre_allowed (PreCheckResult.defer, rule) h = refl

  checked_policy :
      (acl : ParsedAcl api.Net) (host : Text) (port : ℕ) (ip : Option IpAddr)
      → (check_and_log api acl host port ip).allowed ≡ true
      → (of_policy (check_verbose api acl host port ip)).allowed ≡ true
  unfolding check_and_log
  checked_policy acl host port ip h = h

  directly_allowed :
      (acl : ParsedAcl api.Net) (username host : Text) (port : ℕ) (resolved : Option IpAddr)
      (s : Slots) (ip : IpAddr)
      → (directly api acl username host port resolved s).0 ≡ connected ip
      → ((check_and_log api acl host port (some ip)).allowed ≡ true) × (resolved ≡ some ip)
  unfolding directly
  directly_allowed acl username host port none s ip h = absurd (ground (arith, h))
  directly_allowed acl username host port (some j) s ip h =
      elim (Bool-cases (check_and_log api acl host port (some j)).allowed) [
        | inl good ↦ (ground (arith, h, good), ground (arith, h, good))
        | inr bad ↦ absurd (ground (arith, h, bad))
      ]

  after_allowed :
      (acl : ParsedAcl api.Net) (username host : Text) (port : ℕ) (net : Network) (s : Slots)
      (ip : IpAddr) (a : Acquired)
      → (after_acquire api acl username host port false net s a).0 ≡ connected ip
      → ((check_and_log api acl host port (some ip)).allowed ≡ true) × (net.resolved ≡ some ip)
  unfolding after_acquire
  after_allowed acl username host port net s ip (acquired s') h =
      directly_allowed acl username host port net.resolved s' ip h
  after_allowed acl username host port net s ip global_limit h = absurd (ground (arith, h))
  after_allowed acl username host port net s ip (user_limit s') h = absurd (ground (arith, h))

  -- A direct connection is handed out only for an address that the rules allow.
  pub direct_connection_checked :
      (acl : ParsedAcl api.Net) (username host : Text) (port max_global max_per_user : ℕ)
      (net : Network) (s : Slots) (ip : IpAddr)
      → (connect_checked api acl username host port max_global max_per_user false net s).0
        ≡ connected ip
      → (check api acl host port (some ip) ≡ AclPolicy.allow) × (net.resolved ≡ some ip)
  unfolding connect_checked
  direct_connection_checked acl username host port max_global max_per_user net s ip h =
      let a : Acquired = acquire_connection username max_global max_per_user s in
      elim (Bool-cases (pre_check_hostname_and_log api acl host port).allowed) [
        | inr bad ↦ absurd (ground (arith, h, bad))
        | inl good ↦
            let (allowed, reached) =
              after_allowed acl username host port net s ip a (ground (arith, h, good)) in
            (
              sym (verbose_agrees api acl host port (some ip)).0
                  ∙ policy_allowed (check_verbose api acl host port (some ip))
                      (checked_policy acl host port (some ip) allowed),
              reached,
            )
      ]

  policy_denied :
      (d : AclPolicy × Option Text) → d.0 ≡ AclPolicy.deny → (of_policy d).allowed ≡ false
  policy_denied (AclPolicy.allow, rule) h = absurd (ground (arith, h))
  policy_denied (AclPolicy.deny, rule) h = refl

  -- A target that the check of its name leaves open, and that the rules deny at an address, is
  -- refused when the engine reaches that address itself and is connected when an upstream proxy
  -- connects it, in the same state and with a slot left.
  pub upstream_skips_default :
      (acl : ParsedAcl api.Net) (username host : Text) (port max_global max_per_user : ℕ)
      (ip : IpAddr) (s s' : Slots)
      → check api acl host port (some ip) ≡ AclPolicy.deny
      → check_hostname_only api acl host port ≡ PreCheckResult.defer
      → acquire_connection username max_global max_per_user s ≡ acquired s'
      → ((connect_checked api acl username host port max_global max_per_user false
            (record { via_socks5 = true; resolved = some ip })
            s).0
          ≡ denied_by_address)
        × (connect_checked api acl username host port max_global max_per_user true
              (record { via_socks5 = true; resolved = some ip })
              s
            ≡ (connected sentinel, s'))
  unfolding connect_checked pre_check_hostname_and_log
  upstream_skips_default acl username host port max_global max_per_user ip s s' denied open_ held =
      let passed =
        pre_allowed (check_hostname_verbose api acl host port)
          ((verbose_agrees api acl host port none).1 ∙ open_) in
      let refused =
        policy_denied (check_verbose api acl host port (some ip))
          ((verbose_agrees api acl host port (some ip)).0 ∙ denied) in
      (ground (arith, held, passed, refused), ground (arith, held, passed))

  -- Both counts of two states are the same.
  abbrev pub Same : Text → Slots → Slots → Type 0
  Same other s' s = (s'.global ≡ s.global) × (lookup other s'.users ≡ lookup other s.users)

  abbrev pub Leaves : Text → Slots → Connection × Slots → Type 0
  Leaves other s (connected ip, s') = Unit
  Leaves other s (denied_by_name, s') = Same other s' s
  Leaves other s (no_global_slot, s') = Same other s' s
  Leaves other s (no_user_slot, s') = Same other s' s
  Leaves other s (not_connected, s') = Same other s' s
  Leaves other s (denied_by_address, s') = Same other s' s

  directly-Leaves :
      (acl : ParsedAcl api.Net) (username other host : Text) (port : ℕ) (resolved : Option IpAddr)
      (s s' : Slots)
      → Same other (release username s') s
      → Leaves other s (directly api acl username host port resolved s')
  unfolding directly
  directly-Leaves acl username other host port none s s' h = h
  directly-Leaves acl username other host port (some ip) s s' h =
      elim (Bool-cases (check_and_log api acl host port (some ip)).allowed) [
        | inl good ↦ rw good tt
        | inr bad ↦ rw bad h
      ]

  after-Leaves :
      (acl : ParsedAcl api.Net) (username other host : Text) (port max_global max_per_user : ℕ)
      (upstream_proxy : Bool) (net : Network) (s : Slots) (a : Acquired)
      → max_global < u32_mod
      → Balanced s
      → acquire_connection username max_global max_per_user s ≡ a
      → Leaves other s (after_acquire api acl username host port upstream_proxy net s a)
  unfolding after_acquire
  after-Leaves acl username other host port max_global max_per_user true net s (acquired s') g b e =
      elim (Bool-cases net.via_socks5) [
        | inl up ↦ rw up tt
        | inr down ↦ rw down (release-acquire username other max_global max_per_user s s' g b e)
      ]
  after-Leaves acl username other host port max_global max_per_user false net s (acquired s') g b
        e =
      directly-Leaves acl username other host port net.resolved s s'
        (release-acquire username other max_global max_per_user s s' g b e)
  after-Leaves acl username other host port max_global max_per_user up net s global_limit g b e =
      (refl, refl)
  after-Leaves acl username other host port max_global max_per_user up net s (user_limit s') g b e =
      refused_user username other max_global max_per_user s s' g e

  -- Whatever does not connect leaves the counts of connections as they were.
  pub no_slot_leaks :
      (acl : ParsedAcl api.Net) (username other host : Text) (port max_global max_per_user : ℕ)
      (upstream_proxy : Bool) (net : Network) (s : Slots)
      → max_global < u32_mod
      → Balanced s
      → Leaves other s
          (connect_checked api acl username host port max_global max_per_user upstream_proxy net s)
  unfolding connect_checked
  no_slot_leaks acl username other host port max_global max_per_user up net s g b =
      elim (Bool-cases (pre_check_hostname_and_log api acl host port).allowed) [
        | inl good ↦ rw good (
            after-Leaves acl username other host port max_global max_per_user up net s
              (acquire_connection username max_global max_per_user s) g b refl)
        | inr bad ↦ rw bad (refl, refl)
      ]
