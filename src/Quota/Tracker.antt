-- ===== src/Quota/Tracker.antt =====
-- src/quota/mod.rs: `QuotaTracker`. A call reads the clock several times: `clock k` is what the
-- k-th place of the call reads. The state of a user is an `Arc` in the map, so a change of it is a
-- change of the map's entry. A refusal carries the reason instead of its text.
pub mod Connections
pub mod Traffic
pub mod Usage
use s.Common.{
  ℕ, zero, suc, ◌+◌, ◌-◌, ◌*◌, ◌/◌, ◌%◌, ◌^◌, Option, none, some, List, [], ◌∷◌, Bool, true, false,
  ltb, leb, ◌==◌, ◌&&◌, if◌then◌else◌, map, Text, text_key, Dict,
}
use s.Common.Maps
use s.Quota.Window.{RollingWindow, empty_window, record_count, sum, u64_mod}
use s.Quota.Bandwidth.{Float, compute_throttle}
use s.Quota.UserState.{Calendar, UserBandwidthState, new_state, lazy_reset, u32_mod}

pub record RateLimitsConfig : Type 0 where
  pub connections_per_second : ℕ
  pub connections_per_minute : ℕ
  pub connections_per_hour : ℕ

pub record QuotaConfig : Type 0 where
  pub daily_bandwidth_bytes : ℕ
  pub daily_connection_limit : ℕ
  pub monthly_bandwidth_bytes : ℕ
  pub monthly_connection_limit : ℕ
  pub bandwidth_per_hour_bytes : ℕ
  pub total_bandwidth_bytes : ℕ

-- The fields of `LimitsConfig` that the tracker reads.
pub record LimitsConfig : Type 0 where
  pub max_bandwidth_mbps : ℕ
  pub max_new_connections_per_second : ℕ
  pub max_new_connections_per_minute : ℕ

pub data Reason : Type 0 where
  server_per_second server_per_minute : Reason
  user_per_second user_per_minute user_per_hour : ℕ → Reason
  daily_connections monthly_connections : Reason
  total_bandwidth daily_bandwidth monthly_bandwidth hourly_bandwidth : Reason

-- `Ok` with a delay in nanoseconds, or the quota that is exhausted.
pub data QuotaResult : Type 0 where
  ok : ℕ → QuotaResult
  exceeded : Reason → QuotaResult

pub record QuotaTracker : Type 0 where
  pub user_state : Dict Text UserBandwidthState
  pub server_conn_per_second : Option RollingWindow
  pub server_conn_per_minute : Option RollingWindow
  pub server_bandwidth : RollingWindow
  pub server_bandwidth_limit_bps : ℕ

-- Megabits to bytes, as the code does it on `u64`.
unfoldable pub bandwidth_limit_bps : ℕ → ℕ
bandwidth_limit_bps max_bandwidth_mbps = max_bandwidth_mbps * 1000000 % u64_mod / 8

unfoldable pub new : LimitsConfig → (ℕ → ℕ) → QuotaTracker
unfolding bandwidth_limit_bps
new limits clock = record {
  user_state = [];
  server_conn_per_second =
      if ltb 0 limits.max_new_connections_per_second
      then some (empty_window 1 1 (clock 0))
      else none;
  server_conn_per_minute =
      if ltb 0 limits.max_new_connections_per_minute
      then some (empty_window 60 60 (clock 1))
      else none;
  server_bandwidth = empty_window 1 1 (clock 2);
  server_bandwidth_limit_bps = bandwidth_limit_bps limits.max_bandwidth_mbps;
}

unfoldable pub update_config : QuotaTracker → LimitsConfig → QuotaTracker
unfolding bandwidth_limit_bps
update_config t limits = record t {
  server_bandwidth_limit_bps = bandwidth_limit_bps limits.max_bandwidth_mbps;
}

unfoldable pub put_state : QuotaTracker → Text → UserBandwidthState → QuotaTracker
put_state t username s = record t { user_state = Maps.insert username s t.user_state }

-- The state of a user that is tracked, or a new one.
unfoldable pub state_of : Calendar → QuotaTracker → Text → (ℕ → ℕ) → UserBandwidthState
state_of cal t username clock = elim (Maps.lookup username t.user_state) [
  | none ↦ new_state cal clock
  | some s ↦ s
]

-- `get_user`: the entry is made where it is missing.
unfoldable pub get_user :
    Calendar → QuotaTracker → Text → (ℕ → ℕ) → QuotaTracker × UserBandwidthState
unfolding put_state state_of
get_user cal t username clock = let s = state_of cal t username clock in (put_state t username s, s)

-- `limit > 0 && window.sum() >= limit`: an unlimited window is not read.
unfoldable pub over_limit : RollingWindow → ℕ → ℕ → RollingWindow × Bool
over_limit w limit now =
    if ltb 0 limit then (let (w', total) = sum w now in (w', leb limit total)) else (w, false)

-- `if let Some(ref limiter) = … { if limiter.sum() >= limit …`
unfoldable pub over_server_limit : Option RollingWindow → ℕ → ℕ → Option RollingWindow × Bool
over_server_limit none limit now = (none, false)
over_server_limit (some w) limit now = let (w', total) = sum w now in (some w', leb limit total)

-- The checks of one user in turn, the first that refuses ends the call.
unfoldable pub check_user_rate :
    UserBandwidthState → RateLimitsConfig → (ℕ → ℕ) → UserBandwidthState × Option Reason
unfolding over_limit
check_user_rate s rates clock =
    let (second, hit_second) =
      over_limit s.conn_per_second rates.connections_per_second (clock 9) in
    let s1 = record s { conn_per_second = second } in
    let (minute, hit_minute) =
      over_limit s.conn_per_minute rates.connections_per_minute (clock 10) in
    let s2 = record s1 { conn_per_minute = minute } in
    let (hour, hit_hour) = over_limit s.conn_per_hour rates.connections_per_hour (clock 11) in
    let s3 = record s2 { conn_per_hour = hour } in
    if hit_second
    then (s1, some (user_per_second rates.connections_per_second))
    else if hit_minute
    then (s2, some (user_per_minute rates.connections_per_minute))
    else if hit_hour
    then (s3, some (user_per_hour rates.connections_per_hour))
    else (s3, none)

-- The part of `check_connection_rate` behind the checks of the server.
unfoldable pub check_rates_of :
    Calendar → QuotaTracker → Text → RateLimitsConfig → (ℕ → ℕ) → QuotaTracker × Option Reason
unfolding get_user put_state check_user_rate
check_rates_of cal t username rates clock =
    let (t', s) = get_user cal t username clock in
    let (s', refusal) = check_user_rate (record s { last_activity = clock 8 }) rates clock in
    (put_state t' username s', refusal)

unfoldable pub check_connection_rate :
    Calendar
    → QuotaTracker
    → Text
    → RateLimitsConfig
    → LimitsConfig
    → (ℕ → ℕ)
    → QuotaTracker × Option Reason
unfolding over_server_limit check_rates_of
check_connection_rate cal t username rates limits clock =
    let (second, hit_second) =
      over_server_limit t.server_conn_per_second limits.max_new_connections_per_second (clock 6) in
    let t1 = record t { server_conn_per_second = second } in
    let (minute, hit_minute) =
      over_server_limit t.server_conn_per_minute limits.max_new_connections_per_minute (clock 7) in
    let t2 = record t1 { server_conn_per_minute = minute } in
    if hit_second
    then (t1, some server_per_second)
    else if hit_minute
    then (t2, some server_per_minute)
    else check_rates_of cal t2 username rates clock
