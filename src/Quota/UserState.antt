-- ===== src/Quota/UserState.antt =====
-- src/quota/mod.rs: the state of one user, and the boundaries at which its counters start afresh.
-- A call reads the clock several times: `clock k` is what the k-th place of the call reads.
use s.Common.{
  ℕ, ◌+◌, ◌*◌, ◌/◌, ◌%◌, ◌^◌, ◌≤◌, ◌<◌, ◌≡◌, Option, none, some, arith, leb, ◌==◌, if◌then◌else◌,
}
use s.Quota.Window.{RollingWindow, empty_window}

-- `u32` counters wrap at 2^32.
abbrev pub u32_mod : ℕ
u32_mod = 2 ^ 32

-- What the code uses of `chrono`: the year and month of a time stamp (none where it is out of
-- range), the first second of a month, and the first second of the time stamp's day.
pub record Calendar : Type 0 where
  pub year_month : ℕ → Option (ℕ × ℕ)
  pub month_start : ℕ → ℕ → Option ℕ
  pub midnight : ℕ → ℕ

unfoldable pub next_day_boundary : ℕ → ℕ
next_day_boundary now = (now / 86400 + 1) * 86400

unfoldable pub next_month : ℕ × ℕ → ℕ × ℕ
next_month (year, month) = if month == 12 then (year + 1, 1) else (year, month + 1)

unfoldable pub next_month_boundary : Calendar → ℕ → ℕ
unfolding next_month
next_month_boundary cal now = elim (cal.year_month now) [
  | none ↦ now + 30 * 86400
  | some ym ↦
      let (year, month) = next_month ym in
      elim (cal.month_start year month) [ none ↦ cal.midnight now | some start ↦ start ]
]

-- The next midnight is later, at most a day away, and at a whole number of days.
next_day_boundary_bounds :
    (now : ℕ)
    → (now < next_day_boundary now)
      × (next_day_boundary now ≤ now + 86400)
      × (next_day_boundary now % 86400 ≡ 0)
unfolding next_day_boundary
next_day_boundary_bounds now = (omega arith, omega arith, omega arith)

pub record UserBandwidthState : Type 0 where
  pub second_window : RollingWindow
  pub hour_window : RollingWindow
  pub daily_bytes : ℕ
  pub daily_connections : ℕ
  pub monthly_bytes : ℕ
  pub monthly_connections : ℕ
  pub daily_reset : ℕ
  pub monthly_reset : ℕ
  pub conn_per_second : RollingWindow
  pub conn_per_minute : RollingWindow
  pub conn_per_hour : RollingWindow
  pub total_bytes : ℕ
  pub last_activity : ℕ

-- `UserBandwidthState::new`. The sizes of its windows are not 0, so `RollingWindow::new` does not
-- panic.
unfoldable pub new_state : Calendar → (ℕ → ℕ) → UserBandwidthState
new_state cal clock = record {
  second_window = empty_window 1 1 (clock 1);
  hour_window = empty_window 3600 60 (clock 2);
  daily_bytes = 0;
  daily_connections = 0;
  monthly_bytes = 0;
  monthly_connections = 0;
  daily_reset = next_day_boundary (clock 0);
  monthly_reset = next_month_boundary cal (clock 0);
  conn_per_second = empty_window 1 1 (clock 3);
  conn_per_minute = empty_window 60 60 (clock 4);
  conn_per_hour = empty_window 3600 60 (clock 5);
  total_bytes = 0;
  last_activity = clock 0;
}

unfoldable pub reset_daily : UserBandwidthState → ℕ → UserBandwidthState
reset_daily s now =
    if leb s.daily_reset now
    then record s { daily_bytes = 0; daily_connections = 0; daily_reset = next_day_boundary now }
    else s

unfoldable pub reset_monthly : Calendar → UserBandwidthState → ℕ → UserBandwidthState
reset_monthly cal s now =
    if leb s.monthly_reset now
    then record s {
      monthly_bytes = 0;
      monthly_connections = 0;
      monthly_reset = next_month_boundary cal now;
    }
    else s

unfoldable pub lazy_reset : Calendar → UserBandwidthState → ℕ → UserBandwidthState
unfolding reset_daily reset_monthly
lazy_reset cal s now = reset_monthly cal (reset_daily s now) now

-- After a lazy reset the daily counters belong to a day that is not over; they are untouched
-- before the boundary and zero behind it. The lifetime total survives.
lazy_reset_lem :
    (cal : Calendar) (s : UserBandwidthState) (now : ℕ)
    → let r = lazy_reset cal s now in
      (now < r.daily_reset)
      × (r.daily_bytes ≡ (if leb s.daily_reset now then 0 else s.daily_bytes))
      × (r.daily_connections ≡ (if leb s.daily_reset now then 0 else s.daily_connections))
      × (r.monthly_bytes ≡ (if leb s.monthly_reset now then 0 else s.monthly_bytes))
      × (r.monthly_connections ≡ (if leb s.monthly_reset now then 0 else s.monthly_connections))
      × (r.total_bytes ≡ s.total_bytes)
unfolding lazy_reset
lazy_reset_lem cal s now = (
  ground (arith, next_day_boundary_bounds now),
  ground arith,
  ground arith,
  ground arith,
  ground arith,
  ground arith,
)

-- A second reset in the same second changes nothing, given that `chrono` puts the next month later.
lazy_reset_idem :
    (cal : Calendar) (s : UserBandwidthState) (now : ℕ)
    → now < next_month_boundary cal now
    → lazy_reset cal (lazy_reset cal s now) now ≡ lazy_reset cal s now
unfolding lazy_reset
lazy_reset_idem cal s now later = ground (arith, next_day_boundary_bounds now)
