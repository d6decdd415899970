-- ===== src/Security/Ban.antt =====
-- src/security/ban.rs: bans after repeated failures. `now` is what the call reads off the clock.
-- Times and durations count the same unit. What is sent to the log and the audit is left out.
pub mod Burst
pub mod Expiry
use s.Common.{
  ℕ, ◌+◌, ◌-◌, ◌*◌, ◌≤◌, ◌<◌, max, Bool, true, false, not, ◌&&◌, ◌||◌, Option, none, some, List, [],
  ◌∷◌, ◌++◌, map, ltb, leb, if◌then◌else◌, Text, length, drop, retain, any, Dict, is_some,
}
use s.Common.Maps.{Key, lookup, contains_key, insert, remove, filter_map, retain_entries}
use s.Net.{IpAddr, ip_key, NetApi}

pub record BanManager (Net : Type 0) : Type 0 where
  pub failures : Dict IpAddr (List ℕ)
  pub bans : Dict IpAddr ℕ
  pub threshold : ℕ
  pub window : ℕ
  pub duration : ℕ
  pub whitelist : List Net
  pub enabled : Bool

-- `self.failures.len() >= 100_000`
abbrev pub max_tracked : ℕ
max_tracked = 100000

-- `now.duration_since(t) < window`; `duration_since` stops at 0.
unfoldable pub is_recent : ℕ → ℕ → ℕ → Bool
is_recent now window t = ltb (now - t) window

unfoldable pub max_entries : ℕ → ℕ
max_entries threshold = max (threshold * 2) 10

-- One failure more: the old ones leave, then as many of the oldest as there is no room for.
unfoldable pub push_failure : ℕ → ℕ → ℕ → List ℕ → List ℕ
unfolding is_recent max_entries
push_failure now window threshold times =
    let recent = retain (is_recent now window) times in
    let kept =
      if leb (max_entries threshold) (length recent)
      then drop (length recent - max_entries threshold + 1) recent
      else recent in
    kept ++ now ∷ []

unfoldable pub failures_of : Option (List ℕ) → List ℕ
failures_of none = []
failures_of (some times) = times

abbrev pub recent_failures : ℕ → ℕ → IpAddr → List ℕ → Option (List ℕ)
recent_failures now window ip times = elim (retain (is_recent now window) times) [
  | [] ↦ none
  | t ∷ ts ↦ some (t ∷ ts)
]

module _ (api : NetApi) where
  open api use {Net, contains, of_ip, parse_net, parse_ip}

  unfoldable pub parse_whitelist : List Text → List Net
  parse_whitelist [] = []
  parse_whitelist (s ∷ entries) = elim (parse_net s) [
    | some network ↦ network ∷ parse_whitelist entries
    | none ↦ elim (parse_ip s) [
      | some ip ↦ of_ip ip ∷ parse_whitelist entries
      | none ↦ parse_whitelist entries
    ]
  ]

  unfoldable pub new : Bool → ℕ → ℕ → ℕ → List Text → BanManager Net
  unfolding parse_whitelist
  new enabled threshold window duration whitelist = record {
    failures = [];
    bans = [];
    threshold = threshold;
    window = window;
    duration = duration;
    whitelist = parse_whitelist whitelist;
    enabled = enabled;
  }

  unfoldable pub update_config : Bool → ℕ → ℕ → ℕ → List Text → BanManager Net → BanManager Net
  unfolding parse_whitelist
  update_config enabled threshold window duration whitelist m = record m {
    threshold = threshold;
    window = window;
    duration = duration;
    whitelist = parse_whitelist whitelist;
    enabled = enabled;
  }

  unfoldable pub is_whitelisted : BanManager Net → IpAddr → Bool
  is_whitelisted m ip = any (λ network. contains network ip) m.whitelist

  -- The first guard of `record_failure` and of `is_banned`.
  unfoldable pub is_exempt : BanManager Net → IpAddr → Bool
  unfolding is_whitelisted
  is_exempt m ip = not m.enabled || is_whitelisted m ip

  -- `failures.entry(ip)` with the new list, and the ban when there are enough.
  unfoldable pub count_failure : IpAddr → ℕ → List ℕ → BanManager Net → BanManager Net
  count_failure ip now times m =
      if leb m.threshold (length times)
      then record m {
        failures = insert ip [] m.failures;
        bans = insert ip (now + m.duration) m.bans;
      }
      else record m { failures = insert ip times m.failures }

  unfoldable pub record_failure : IpAddr → ℕ → BanManager Net → BanManager Net
  unfolding is_exempt push_failure failures_of count_failure
  record_failure ip now m =
      if is_exempt m ip
      then m
      else if not (contains_key ip m.failures) && leb max_tracked (length m.failures)
      then m
      else count_failure ip now
          (push_failure now m.window m.threshold (failures_of (lookup ip m.failures))) m

  unfoldable pub with_bans : Dict IpAddr ℕ → BanManager Net → BanManager Net
  with_bans bans m = record m { bans = bans }

  -- The answer, and the map without the ban that has run out.
  unfoldable pub is_banned : IpAddr → ℕ → BanManager Net → Bool × BanManager Net
  unfolding is_exempt with_bans
  is_banned ip now m = if is_exempt m ip then (false, m) else elim (lookup ip m.bans) [
    | none ↦ (false, m)
    | some expiry ↦ if leb expiry now then (false, with_bans (remove ip m.bans) m) else (true, m)
  ]

  unfoldable pub ban : IpAddr → ℕ → ℕ → BanManager Net → BanManager Net
  unfolding with_bans
  ban ip now duration m = with_bans (insert ip (now + duration) m.bans) m

  unfoldable pub unban : IpAddr → BanManager Net → Bool × BanManager Net
  unfolding with_bans
  unban ip m = (contains_key ip m.bans, with_bans (remove ip m.bans) m)

  unfoldable pub banned_ips : ℕ → BanManager Net → Dict IpAddr ℕ
  banned_ips now m = retain_entries (λ ip expiry. ltb now expiry) m.bans

  unfoldable pub cleanup_stale_failures : ℕ → BanManager Net → BanManager Net
  cleanup_stale_failures now m = record m {
    failures = filter_map (recent_failures now m.window) m.failures;
    bans = retain_entries (λ ip expiry. ltb now expiry) m.bans;
  }
