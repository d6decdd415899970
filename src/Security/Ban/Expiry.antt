-- ===== src/Security/Ban/Expiry.antt =====
-- How long a ban of src/security/ban.rs holds, and what the periodic cleanup leaves.
use s.Common.{
  ℕ, ◌+◌, ◌≤◌, ◌≡◌, refl, false, not, ◌&&◌, none, some, List, [], ltb, leb, if◌then◌else◌, length,
  Dict, is_some, arith, inl, inr, Option-cases, Bool-cases,
}
use s.Common.Maps.{
  lookup, insert, remove, contains_key, keep_if, Distinct, lookup-insert_self, lookup-remove,
  lookup-filter_map, insert-Distinct, remove-Distinct, filter_map-Distinct, length-insert_new,
  length-insert_old, length-filter_map-le,
}
use s.Net.{IpAddr, ip_key, NetApi}
use s.Security.Ban.{
  BanManager, is_exempt, record_failure, count_failure, is_banned, ban, unban, banned_ips,
  cleanup_stale_failures, with_bans, max_tracked, push_failure, failures_of, recent_failures,
}

-- Every address stands once in each map, and no more addresses are tracked than the cap allows.
pub record WellFormed {Net : Type 0} (m : BanManager Net) : Type 0 where
  pub failures : Distinct m.failures
  pub bans : Distinct m.bans
  pub tracked : length m.failures ≤ max_tracked

module _ (api : NetApi) where
  -- Whether an address is banned: it has a ban that has not run out.
  is_banned-lookup :
      (ip : IpAddr) (now : ℕ) (m : BanManager api.Net)
      → (is_banned api ip now m).0 ≡ (
          if is_exempt api m ip
          then false
          else elim (lookup ip m.bans) [ none ↦ false | some expiry ↦ ltb now expiry ])
  unfolding is_banned
  is_banned-lookup ip now m = ground arith

  -- The list of bans agrees with the single query.
  is_banned-banned_ips :
      (ip : IpAddr) (now : ℕ) (m : BanManager api.Net)
      → WellFormed m
      → is_exempt api m ip ≡ false
      → (is_banned api ip now m).0 ≡ is_some (lookup ip (banned_ips api now m))
  unfolding banned_ips
  is_banned-banned_ips ip now m w e = ground (
    arith,
    is_banned-lookup ip now m,
    lookup-filter_map (λ ip' expiry. if ltb now expiry then some expiry else none) ip m.bans w.bans,
  )

  -- A manual ban holds for its duration, and a manual unban ends any ban.
  is_banned-ban-unban :
      (ip : IpAddr) (now duration at : ℕ) (m : BanManager api.Net)
      → WellFormed m
      → is_exempt api m ip ≡ false
      → ((is_banned api ip at (ban api ip now duration m)).0 ≡ ltb at (now + duration))
        × ((is_banned api ip at (unban api ip m).1).0 ≡ false)
        × ((unban api ip m).0 ≡ is_some (lookup ip m.bans))
  unfolding ban unban is_exempt contains_key
  is_banned-ban-unban ip now duration at m w e = (
    ground (
      arith,
      is_banned-lookup ip at (ban api ip now duration m),
      lookup-insert_self ip (now + duration) m.bans,
    ),
    ground (arith, is_banned-lookup ip at (unban api ip m).1, lookup-remove ip ip m.bans w.bans),
    refl,
  )

  -- Neither a query nor a cleanup changes what a later query answers, for any address.
  is_banned_stable :
      (ip other : IpAddr) (now later : ℕ) (m : BanManager api.Net)
      → WellFormed m
      → now ≤ later
      → ((is_banned api ip later (is_banned api other now m).1).0 ≡ (is_banned api ip later m).0)
        × ((is_banned api ip later (cleanup_stale_failures api now m)).0
            ≡ (is_banned api ip later m).0)
  unfolding is_banned with_bans cleanup_stale_failures is_exempt
  is_banned_stable ip other now later m w l = (
    ground (arith, lookup-remove other ip m.bans w.bans),
    ground (
      arith,
      lookup-filter_map (λ ip' expiry. if ltb now expiry then some expiry else none) ip m.bans
          w.bans,
    ),
  )

  insert_fits :
      {V : Type 0} (ip : IpAddr) (v : V) (d : Dict IpAddr V)
      → (not (contains_key ip d) && leb max_tracked (length d)) ≡ false
      → length d ≤ max_tracked
      → length (insert ip v d) ≤ max_tracked
  unfolding contains_key
  insert_fits ip v d h l = elim (Option-cases (lookup ip d)) [
    | inl missing ↦ ground (arith, length-insert_new ip v d missing)
    | inr (u, found) ↦ omega (arith, length-insert_old ip v u d found)
  ]

  count_failure-WellFormed :
      (ip : IpAddr) (now : ℕ) (times : List ℕ) (m : BanManager api.Net)
      → (not (contains_key ip m.failures) && leb max_tracked (length m.failures)) ≡ false
      → WellFormed m
      → WellFormed (count_failure api ip now times m)
  unfolding count_failure
  count_failure-WellFormed ip now times m h w = elim (Bool-cases (leb m.threshold (length times))) [
    | inl full ↦ rw full record {
      failures = insert-Distinct ip [] m.failures w.failures;
      bans = insert-Distinct ip (now + m.duration) m.bans w.bans;
      tracked = insert_fits ip [] m.failures h w.tracked;
    }
    | inr low ↦ rw low record {
      failures = insert-Distinct ip times m.failures w.failures;
      bans = w.bans;
      tracked = insert_fits ip times m.failures h w.tracked;
    }
  ]

  record_failure-WellFormed :
      (ip : IpAddr) (now : ℕ) (m : BanManager api.Net)
      → WellFormed m
      → WellFormed (record_failure api ip now m)
  unfolding record_failure
  record_failure-WellFormed ip now m w = elim (Bool-cases (is_exempt api m ip)) [
    | inl exempt ↦ rw exempt w
    | inr counted ↦
        elim (Bool-cases
          (not (contains_key ip m.failures) && leb max_tracked (length m.failures))) [
            | inl full ↦ rw (counted, full) w
            | inr room ↦
                rw (counted, room)
                  (count_failure-WellFormed ip now
                    (push_failure now m.window m.threshold (failures_of (lookup ip m.failures))) m
                    room w)
          ]
  ]

  with_bans-WellFormed :
      (bans : Dict IpAddr ℕ) (m : BanManager api.Net)
      → Distinct bans
      → WellFormed m
      → WellFormed (with_bans api bans m)
  unfolding with_bans
  with_bans-WellFormed bans m d w = record { failures = w.failures; bans = d; tracked = w.tracked }

  is_banned-WellFormed :
      (ip : IpAddr) (now : ℕ) (m : BanManager api.Net)
      → WellFormed m
      → WellFormed (is_banned api ip now m).1
  unfolding is_banned
  is_banned-WellFormed ip now m w =
      ground
        (arith, w, with_bans-WellFormed (remove ip m.bans) m (remove-Distinct ip m.bans w.bans) w)

  cleanup-WellFormed :
      (now : ℕ) (m : BanManager api.Net)
      → WellFormed m
      → WellFormed (cleanup_stale_failures api now m)
  unfolding cleanup_stale_failures
  cleanup-WellFormed now m w = record {
    failures = filter_map-Distinct (recent_failures now m.window) m.failures w.failures;
    bans = filter_map-Distinct (keep_if (λ ip expiry. ltb now expiry)) m.bans w.bans;
    tracked =
        omega (arith, length-filter_map-le (recent_failures now m.window) m.failures, w.tracked);
  }

  -- Every operation keeps one entry for an address in each map, and no more than 100,000 addresses
  -- with failures.
  pub operations-WellFormed :
      (ip : IpAddr) (now duration : ℕ) (m : BanManager api.Net)
      → WellFormed m
      → WellFormed (record_failure api ip now m)
        × WellFormed (is_banned api ip now m).1
        × WellFormed (ban api ip now duration m)
        × WellFormed (unban api ip m).1
        × WellFormed (cleanup_stale_failures api now m)
  unfolding ban unban
  operations-WellFormed ip now duration m w = (
    record_failure-WellFormed ip now m w,
    is_banned-WellFormed ip now m w,
    with_bans-WellFormed (insert ip (now + duration) m.bans) m
        (insert-Distinct ip (now + duration) m.bans w.bans) w,
    with_bans-WellFormed (remove ip m.bans) m (remove-Distinct ip m.bans w.bans) w,
    cleanup-WellFormed now m w,
  )
