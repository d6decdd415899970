-- ===== src/Security/Manager.antt =====
-- `SecurityManager` of src/security/mod.rs and src/security/ip_filter.rs: what a connection passes
-- before it may authenticate. Reputations (src/security/ip_reputation.rs) are the parameter `rep`.
use s.Common.{
  ℕ, ◌≡◌, ◌↔◌, refl, Bool, true, false, not, Option, none, some, List, [], ◌∷◌, any, if◌then◌else◌,
  Text, text_key, arith, Bool-cases, inl, inr,
}
use s.Net.{IpAddr, ip_key, NetApi, normalize_ip, normalize_ip_idem}
use s.Security.Ban
use s.Security.Ban.{BanManager, parse_whitelist}
use s.Security.RateLimit.{Governor, Limiters, check_limit, cleanup_stale}

-- The answer of the manager of reputations.
pub record Reputations : Type 1 where
  pub Scores : Type 0
  pub fresh : Bool → ℕ → Scores
  pub should_ban : Scores → IpAddr → Bool

-- What the manager reads of the configuration.
pub record SecurityConfig (Net : Type 0) : Type 0 where
  pub ban_enabled : Bool
  pub ban_threshold : ℕ
  pub ban_window : ℕ
  pub ban_duration : ℕ
  pub ban_whitelist_texts : List Text
  pub ip_reputation_enabled : Bool
  pub ip_reputation_ban_threshold : ℕ
  pub rate_limit_max_users : ℕ
  pub max_new_connections_per_ip_per_minute : ℕ
  pub rate_limit_max_ips : ℕ
  pub allowed_source_ips : List Net

pub data Refusal : Type 0 where
  rate_limited disallowed_source banned_ip low_reputation : Refusal

module _ (api : NetApi) where
  -- src/security/ip_filter.rs
  unfoldable pub is_allowed : IpAddr → List api.Net → Bool
  unfolding normalize_ip
  is_allowed ip [] = true
  is_allowed ip (network ∷ networks) =
      any (λ n. api.contains n (normalize_ip ip)) (network ∷ networks)

module _ (api : NetApi) (gov : Governor) (rep : Reputations) where
  pub record SecurityManager : Type 0 where
    pub ban_manager : BanManager api.Net
    pub rate_limiter : Limiters Text gov.Limiter
    pub ip_rate_limiter : Limiters IpAddr gov.Limiter
    pub max_per_minute : ℕ
    pub ip_reputation : rep.Scores
    pub global_allowed_ips : List api.Net
    pub ban_whitelist : List api.Net

  unfoldable pub new : SecurityConfig api.Net → SecurityManager
  unfolding parse_whitelist Ban.new
  new config = record {
    ban_manager =
        Ban.new api config.ban_enabled config.ban_threshold config.ban_window config.ban_duration
          config.ban_whitelist_texts;
    rate_limiter = record { limiters = []; max_entries = config.rate_limit_max_users };
    ip_rate_limiter = record { limiters = []; max_entries = config.rate_limit_max_ips };
    max_per_minute = config.max_new_connections_per_ip_per_minute;
    ip_reputation = rep.fresh config.ip_reputation_enabled config.ip_reputation_ban_threshold;
    global_allowed_ips = config.allowed_source_ips;
    ban_whitelist = parse_whitelist api config.ban_whitelist_texts;
  }

  -- What is counted for bans stays; the limiters and the reputations start afresh.
  unfoldable pub reload : SecurityConfig api.Net → SecurityManager → SecurityManager
  unfolding new Ban.update_config
  reload config m = record (new config) {
    ban_manager =
        Ban.update_config api config.ban_enabled config.ban_threshold config.ban_window
          config.ban_duration config.ban_whitelist_texts m.ban_manager;
  }

  -- `is_banned` behind `normalize_ip`.
  unfoldable pub banned_at : IpAddr → ℕ → SecurityManager → Bool × SecurityManager
  banned_at ip now m =
      let (banned, bans) = Ban.is_banned api ip now m.ban_manager in
      (banned, record m { ban_manager = bans })

  unfoldable pub is_banned : IpAddr → ℕ → SecurityManager → Bool × SecurityManager
  is_banned ip = banned_at (normalize_ip ip)

  unfoldable pub record_auth_failure : IpAddr → ℕ → SecurityManager → SecurityManager
  record_auth_failure ip now m = record m {
    ban_manager = Ban.record_failure api (normalize_ip ip) now m.ban_manager;
  }

  unfoldable pub check_source_ip : IpAddr → SecurityManager → Bool
  check_source_ip ip m = is_allowed api (normalize_ip ip) m.global_allowed_ips

  -- `ban_whitelist.any(contains) || ip_rate_limiter.check(ip)`, the limiter untouched where the
  -- whitelist holds.
  unfoldable pub check_ip_rate : IpAddr → ℕ → SecurityManager → Bool × SecurityManager
  check_ip_rate ip now m =
      if any (λ network. api.contains network ip) m.ban_whitelist
      then (true, m)
      else (let (allowed, limiters) = check_limit gov ip m.max_per_minute now m.ip_rate_limiter in
          (allowed, record m { ip_rate_limiter = limiters }))

  -- The last two tests.
  unfoldable pub check_standing : IpAddr → ℕ → SecurityManager → Option Refusal × SecurityManager
  check_standing ip now m =
      let (banned, checked) = banned_at ip now m in
      (
        if banned
            then some banned_ip
            else if rep.should_ban checked.ip_reputation ip
            then some low_reputation
            else none,
        checked,
      )

  -- `pre_auth_check` behind `normalize_ip`, which each of its tests applies to the same address.
  unfoldable pub admit : IpAddr → ℕ → ℕ → SecurityManager → Option Refusal × SecurityManager
  admit ip now now' m =
      let (allowed, checked) = check_ip_rate ip now m in
      if not allowed
      then (some rate_limited, checked)
      else if not (is_allowed api ip checked.global_allowed_ips)
      then (some disallowed_source, checked)
      else check_standing ip now' checked

  -- None where the address may go on. The clock is read by the limiter and by the ban.
  unfoldable pub pre_auth_check :
      IpAddr → ℕ → ℕ → SecurityManager → Option Refusal × SecurityManager
  pre_auth_check ip = admit (normalize_ip ip)

  unfoldable pub check_rate_limit : Text → ℕ → ℕ → SecurityManager → Bool × SecurityManager
  unfolding check_limit
  check_rate_limit username rate now m =
      let (allowed, limiters) = check_limit gov username rate now m.rate_limiter in
      (allowed, record m { rate_limiter = limiters })

  unfoldable pub cleanup_rate_limiters : ℕ → ℕ → ℕ → SecurityManager → SecurityManager
  unfolding cleanup_stale
  cleanup_rate_limiters now now' max_age m = record m {
    rate_limiter = record m.rate_limiter {
      limiters = cleanup_stale gov now max_age m.rate_limiter.limiters;
    };
    ip_rate_limiter = record m.ip_rate_limiter {
      limiters = cleanup_stale gov now' max_age m.ip_rate_limiter.limiters;
    };
  }

  -- An IPv4 address that comes mapped into IPv6 is treated as the IPv4 address that it is.
  pub mapped_address_same :
      (ip : IpAddr) (now now' : ℕ) (m : SecurityManager)
      → (pre_auth_check ip now now' m ≡ pre_auth_check (normalize_ip ip) now now' m)
        × (is_banned ip now m ≡ is_banned (normalize_ip ip) now m)
        × (record_auth_failure ip now m ≡ record_auth_failure (normalize_ip ip) now m)
        × (check_source_ip ip m ≡ check_source_ip (normalize_ip ip) m)
  unfolding pre_auth_check is_banned record_auth_failure check_source_ip
  mapped_address_same ip now now' m = rw (normalize_ip_idem ip) (refl, refl, refl, refl)

  rate_keeps :
      (ip : IpAddr) (now : ℕ) (m : SecurityManager)
      → ((check_ip_rate ip now m).1.ban_manager ≡ m.ban_manager)
        × ((check_ip_rate ip now m).1.ip_reputation ≡ m.ip_reputation)
        × ((check_ip_rate ip now m).1.global_allowed_ips ≡ m.global_allowed_ips)
  unfolding check_ip_rate
  rate_keeps ip now m =
      elim (Bool-cases (any (λ network. api.contains network ip) m.ban_whitelist)) [
        | inl exempt ↦ rw exempt (refl, refl, refl)
        | inr counted ↦ rw counted (refl, refl, refl)
      ]

  -- An address goes on exactly when its rate, its network, its bans and its reputation all allow it.
  pub pre_auth_check-none_iff :
      (ip : IpAddr) (now now' : ℕ) (m : SecurityManager)
      → ((pre_auth_check ip now now' m).0 ≡ none) ↔ (
          ((check_ip_rate (normalize_ip ip) now m).0 ≡ true)
          × (check_source_ip ip m ≡ true)
          × ((is_banned ip now' m).0 ≡ false)
          × (rep.should_ban m.ip_reputation (normalize_ip ip) ≡ false))
  unfolding pre_auth_check admit check_standing check_source_ip is_banned banned_at
  pre_auth_check-none_iff ip now now' m =
      let same = rate_keeps (normalize_ip ip) now m in ground (arith, same)
