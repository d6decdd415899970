-- ===== src/Tests/Quotas.antt =====
-- Quotas and rolling windows at concrete times (src/quota).
use s.Common.{
  ℕ, ◌+◌, ◌-◌, ◌*◌, ◌/◌, ◌%◌, ◌^◌, ◌≡◌, refl, none, some, [], ◌∷◌, Text, text_key, arith, codes,
  ltb, min,
}
use s.Common.Maps
use s.Quota.Window.{RollingWindow, new, sum, record_count, u64_mod}
use s.Quota.Window.History.{History, window_total}
use s.Quota.Window.Totals.{record_all, sum-record_all}
use s.Quota.Window.Forgets.{sum-record_count_forgets}
use s.Quota.Bandwidth.{Float}
use s.Quota.UserState.{Calendar, UserBandwidthState, new_state}
use s.Quota.Tracker.{QuotaTracker, QuotaConfig}
use s.Quota.Tracker.Connections.{tracked, KeepsQuota, attempts, attempts-KeepsQuota}

-- Months of thirty days.
abbrev cal : Calendar
cal = record {
  year_month = λ now. some (now / 31104000, now / 2592000 % 12 + 1);
  month_start = λ year month. some ((year * 12 + month - 1) * 2592000);
  midnight = λ now. now / 86400 * 86400;
}

-- Seconds as whole nanoseconds.
abbrev nanos : Float
nanos = record {
  F = ℕ;
  of_u64 = λ n. n * 1000000000;
  literal = λ m d. m * 1000000000 / 10 ^ d;
  mul = λ a b. a * b / 1000000000;
  div = λ a b. a * 1000000000 / b;
  sub = λ a b. a - b;
  gt = λ a b. ltb b a;
  fmin = λ a b. min a b;
  from_secs = λ a. a;
}

abbrev clock : ℕ → ℕ
clock k = 100

abbrev ann : Text
ann = codes "ann"

abbrev tracker : QuotaTracker
tracker = record {
  user_state = [];
  server_conn_per_second = none;
  server_conn_per_minute = none;
  server_bandwidth = record {
    buckets = 0 ∷ [];
    window_secs = 1;
    bucket_secs = 1;
    last_advance = 100;
    cached_sum = 0;
  };
  server_bandwidth_limit_bps = 0;
}

abbrev quota : QuotaConfig
quota = record {
  daily_bandwidth_bytes = 0;
  daily_connection_limit = 2;
  monthly_bandwidth_bytes = 0;
  monthly_connection_limit = 0;
  bandwidth_per_hour_bytes = 0;
  total_bandwidth_bytes = 1000;
}

attempts-KeepsQuota_example :
    KeepsQuota quota (tracked (attempts cal tracker ann quota (clock ∷ clock ∷ clock ∷ [])) ann)
unfolding Maps.lookup
attempts-KeepsQuota_example =
    attempts-KeepsQuota cal tracker ann quota (clock ∷ clock ∷ clock ∷ []) (omega arith)
      (omega arith) tt

abbrev fresh : UserBandwidthState
fresh = new_state cal clock

abbrev history : History
history = (7, 2) ∷ (5, 3) ∷ (1, 4) ∷ []

abbrev four_seconds : RollingWindow
four_seconds = record {
  buckets = 0 ∷ 0 ∷ 0 ∷ 0 ∷ [];
  window_secs = 4;
  bucket_secs = 1;
  last_advance = 0;
  cached_sum = 0;
}

sum-record_all_example :
    (sum (record_all four_seconds history) 8).1 ≡ window_total 4 8 history % u64_mod
unfolding new
sum-record_all_example =
    sum-record_all 4 0 8 history four_seconds refl (ground arith) (omega arith) (ground arith)

abbrev two_minutes : RollingWindow
two_minutes = record {
  buckets = 0 ∷ 0 ∷ [];
  window_secs = 120;
  bucket_secs = 60;
  last_advance = 59;
  cached_sum = 0;
}

sum-record_count_forgets_example :
    (sum (record_count two_minutes 7 (59 + 1) (59 + 1)) (59 + 60)).1 ≡ (sum two_minutes (59 + 60)).1
sum-record_count_forgets_example =
    sum-record_count_forgets two_minutes 7 0 (omega arith) (omega arith) (omega arith)
