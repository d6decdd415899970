-- ===== src/Quota/Tracker/Traffic.antt =====
-- Bytes of src/quota/mod.rs: `check_bandwidth_quota`, `record_bytes` and `record_bytes_cached`.
use s.Common.{
  ℕ, ◌+◌, ◌*◌, ◌/◌, ◌%◌, ◌≡◌, ◌↔◌, refl, Bool, true, false, Option, none, some, arith,
  if◌then◌else◌, Text, text_key,
}
use s.Quota.Window.{RollingWindow, record_count, sum, u64_mod}
use s.Quota.Bandwidth.{Float, compute_throttle}
use s.Quota.UserState.{Calendar, UserBandwidthState, lazy_reset}
use s.Quota.Tracker.{
  QuotaTracker, QuotaConfig, Reason, QuotaResult, ok, exceeded, total_bandwidth, daily_bandwidth,
  monthly_bandwidth, hourly_bandwidth, get_user, put_state, over_limit,
}
use s.Quota.Tracker.Connections.{reached}

-- The quotas in the order of the code; the hourly window is read only where the others let pass.
unfoldable pub bandwidth_quota :
    QuotaConfig → UserBandwidthState → ℕ → UserBandwidthState × Option Reason
unfolding over_limit
bandwidth_quota q s now =
    if reached q.total_bandwidth_bytes s.total_bytes
    then (s, some total_bandwidth)
    else if reached q.daily_bandwidth_bytes s.daily_bytes
    then (s, some daily_bandwidth)
    else if reached q.monthly_bandwidth_bytes s.monthly_bytes
    then (s, some monthly_bandwidth)
    else (let (w, hit) = over_limit s.hour_window q.bandwidth_per_hour_bytes now in
        (record s { hour_window = w }, if hit then some hourly_bandwidth else none))

unfoldable pub check_bandwidth_quota :
    Calendar → QuotaTracker → Text → Option QuotaConfig → (ℕ → ℕ) → QuotaTracker × Option Reason
unfolding get_user put_state bandwidth_quota
check_bandwidth_quota cal t username none clock = (t, none)
check_bandwidth_quota cal t username (some q) clock =
    let (t', s0) = get_user cal t username clock in
    let (s, refusal) = bandwidth_quota q (lazy_reset cal s0 (clock 6)) (clock 7) in
    (put_state t' username s, refusal)

-- The windows and the cumulative counters of one user.
unfoldable pub add_bytes : UserBandwidthState → ℕ → (ℕ → ℕ) → UserBandwidthState
add_bytes s bytes clock = record s {
  last_activity = clock 7;
  second_window = record_count s.second_window bytes (clock 8) (clock 9);
  hour_window = record_count s.hour_window bytes (clock 10) (clock 11);
  daily_bytes = (s.daily_bytes + bytes) % u64_mod;
  monthly_bytes = (s.monthly_bytes + bytes) % u64_mod;
  total_bytes = (s.total_bytes + bytes) % u64_mod;
}

abbrev pub quota_check :
    Option QuotaConfig → UserBandwidthState → ℕ → UserBandwidthState × Option Reason
quota_check none s now = (s, none)
quota_check (some q) s now = bandwidth_quota q s now

abbrev pub is_ok : QuotaResult → Bool
is_ok (ok delay) = true
is_ok (exceeded reason) = false

module _ (fl : Float) where
  -- What is left once no quota is exhausted: the delay.
  unfoldable pub throttle :
      RollingWindow
      → ℕ
      → UserBandwidthState
      → ℕ
      → ℕ
      → ℕ
      → (ℕ → ℕ)
      → RollingWindow × UserBandwidthState × ℕ
  throttle server limit_bps s bytes per_conn_limit_kbps aggregate_limit_kbps clock =
      let aggregate_limit_bps = aggregate_limit_kbps * 1000 % u64_mod / 8 in
      let (second, aggregate_rate_bps) = sum s.second_window (clock 15) in
      let (server', server_rate_bps) = sum server (clock 16) in
      (
        server',
        record s { second_window = second },
        compute_throttle fl bytes per_conn_limit_kbps aggregate_rate_bps aggregate_limit_bps
            server_rate_bps limit_bps,
      )

  -- `record_bytes_cached`, on the state of a user: the server's window, the state and the result.
  unfoldable pub record_bytes_cached :
      Calendar
      → RollingWindow
      → ℕ
      → UserBandwidthState
      → ℕ
      → ℕ
      → ℕ
      → Option QuotaConfig
      → (ℕ → ℕ)
      → RollingWindow × UserBandwidthState × QuotaResult
  unfolding add_bytes throttle
  record_bytes_cached cal server limit_bps s0 bytes per_conn_kbps aggregate_kbps quotas clock =
      let s1 = add_bytes (lazy_reset cal s0 (clock 6)) bytes clock in
      let server1 = record_count server bytes (clock 12) (clock 13) in
      let (s2, refusal) = quota_check quotas s1 (clock 14) in
      elim refusal [
        | some reason ↦ (server1, s2, exceeded reason)
        | none ↦
            let (server2, s3, delay) =
              throttle server1 limit_bps s2 bytes per_conn_kbps aggregate_kbps clock in
            (server2, s3, ok delay)
      ]

  -- `record_bytes` does the same behind a lookup of the user.
  unfoldable pub record_bytes :
      Calendar
      → QuotaTracker
      → Text
      → ℕ
      → ℕ
      → ℕ
      → Option QuotaConfig
      → (ℕ → ℕ)
      → QuotaTracker × QuotaResult
  unfolding get_user put_state record_bytes_cached
  record_bytes cal t username bytes per_conn_kbps aggregate_kbps quotas clock =
      let (t', s0) = get_user cal t username clock in
      let (server, s, result) =
        record_bytes_cached cal t.server_bandwidth t.server_bandwidth_limit_bps s0 bytes
          per_conn_kbps aggregate_kbps quotas clock in
      (record (put_state t' username s) { server_bandwidth = server }, result)

  -- Bytes are counted whatever the result, each cumulative counter by the same amount modulo 2^64,
  -- over the counters as the lazy reset leaves them; the connections are not touched.
  record_bytes_cached_counts :
      (cal : Calendar) (server : RollingWindow) (limit : ℕ) (s0 : UserBandwidthState)
      (bytes per_conn aggregate : ℕ) (quotas : Option QuotaConfig) (clock : ℕ → ℕ)
      → let before = lazy_reset cal s0 (clock 6) in
        let s = (record_bytes_cached cal server limit s0 bytes per_conn aggregate quotas clock).1 in
        (s.daily_bytes ≡ (before.daily_bytes + bytes) % u64_mod)
        × (s.monthly_bytes ≡ (before.monthly_bytes + bytes) % u64_mod)
        × (s.total_bytes ≡ (before.total_bytes + bytes) % u64_mod)
        × (s.daily_connections ≡ before.daily_connections)
        × (s.monthly_connections ≡ before.monthly_connections)
  unfolding record_bytes_cached bandwidth_quota
  record_bytes_cached_counts cal server limit s0 bytes per_conn aggregate none clock =
      (refl, refl, refl, refl, refl)
  record_bytes_cached_counts cal server limit s0 bytes per_conn aggregate (some q) clock =
      (ground arith, ground arith, ground arith, ground arith, ground arith)

  -- With quotas, the result is a delay exactly when after the addition each of the four quotas is
  -- unlimited or not reached, the hourly one by the sum of its window.
  record_bytes_cached_ok_iff :
      (cal : Calendar) (server : RollingWindow) (limit : ℕ) (s0 : UserBandwidthState)
      (bytes per_conn aggregate : ℕ) (q : QuotaConfig) (clock : ℕ → ℕ)
      → let s = add_bytes (lazy_reset cal s0 (clock 6)) bytes clock in
        (is_ok (record_bytes_cached cal server limit s0 bytes per_conn aggregate (some q) clock).2
          ≡ true)
        ↔ ((reached q.total_bandwidth_bytes s.total_bytes ≡ false)
            × (reached q.daily_bandwidth_bytes s.daily_bytes ≡ false)
            × (reached q.monthly_bandwidth_bytes s.monthly_bytes ≡ false)
            × (reached q.bandwidth_per_hour_bytes (sum s.hour_window (clock 14)).1 ≡ false))
  unfolding record_bytes_cached bandwidth_quota
  record_bytes_cached_ok_iff cal server limit s0 bytes per_conn aggregate q clock =
      (ground arith, ground arith)
