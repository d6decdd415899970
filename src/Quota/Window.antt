-- ===== src/Quota/Window.antt =====
-- src/quota/rolling_window.rs: a ring of buckets with a cached sum. Every reading of the clock is
-- an argument; the atomics are plain fields, so the calls of one window run one after another.
pub mod Ring
pub mod History
pub mod Exact
pub mod Totals
pub mod Forgets
use s.Common.{
  ℕ, zero, suc, ◌+◌, ◌-◌, ◌*◌, ◌/◌, ◌%◌, ◌^◌, List, [], ◌∷◌, Option, none, some, length, get_or,
  set, replicate, ltb, leb, ◌||◌, ◌==◌, min, if◌then◌else◌,
}

-- `u64` arithmetic wraps at 2^64 (`fetch_add` always does).
abbrev pub u64_mod : ℕ
u64_mod = 2 ^ 64

pub record RollingWindow : Type 0 where
  pub buckets : List ℕ
  pub window_secs : ℕ
  pub bucket_secs : ℕ
  pub last_advance : ℕ
  pub cached_sum : ℕ

abbrev pub div_ceil : ℕ → ℕ → ℕ
div_ceil a b = if a % b == 0 then a / b else a / b + 1

unfoldable pub empty_window : ℕ → ℕ → ℕ → RollingWindow
empty_window window_secs num_buckets now = record {
  buckets = replicate num_buckets 0;
  window_secs = window_secs;
  bucket_secs = div_ceil window_secs num_buckets;
  last_advance = now;
  cached_sum = 0;
}

-- `none` is the panic of the `assert!`.
unfoldable pub new : ℕ → ℕ → ℕ → Option RollingWindow
unfolding empty_window
new window_secs num_buckets now =
    if num_buckets == 0 || window_secs == 0
    then none
    else some (empty_window window_secs num_buckets now)

unfoldable pub bucket_index : RollingWindow → ℕ → ℕ
bucket_index w timestamp = timestamp / w.bucket_secs % length w.buckets

-- The loop that zeroes `r` stale buckets: `i` is the loop's counter.
unfoldable pub clear_stale : List ℕ → ℕ → ℕ → ℕ → List ℕ
clear_stale bs start i zero = bs
clear_stale bs start i (suc r) = clear_stale (set bs ((start + i) % length bs) 0) start (i + 1) r

unfoldable pub sum_buckets : List ℕ → ℕ
sum_buckets [] = 0
sum_buckets (b ∷ bs) = b + sum_buckets bs

unfoldable pub zero_all : List ℕ → List ℕ
zero_all [] = []
zero_all (b ∷ bs) = 0 ∷ zero_all bs

-- Where a time step spans the whole ring, everything is zeroed; otherwise the buckets after the
-- one of the last advance, and the sum is computed afresh.
unfoldable pub expire : RollingWindow → ℕ → ℕ → RollingWindow
unfolding bucket_index zero_all
expire w now elapsed_secs =
    let buckets_to_clear = min (elapsed_secs / w.bucket_secs) (length w.buckets) in
    if leb (length w.buckets) buckets_to_clear
    then record w { buckets = zero_all w.buckets; last_advance = now; cached_sum = 0 }
    else (let bs = clear_stale w.buckets (bucket_index w w.last_advance + 1) 0 buckets_to_clear in
        record w { buckets = bs; last_advance = now; cached_sum = sum_buckets bs % u64_mod })

unfoldable pub advance : RollingWindow → ℕ → RollingWindow
unfolding expire
advance w now =
    let elapsed_secs = now - w.last_advance in
    if ltb elapsed_secs w.bucket_secs then w else expire w now elapsed_secs

unfoldable pub add_at : RollingWindow → ℕ → ℕ → RollingWindow
add_at w idx count = record w {
  buckets = set w.buckets idx ((get_or w.buckets idx 0 + count) % u64_mod);
  cached_sum = (w.cached_sum + count) % u64_mod;
}

-- `record`: the clock is read once by `advance` and once more by `current_index`.
unfoldable pub record_count : RollingWindow → ℕ → ℕ → ℕ → RollingWindow
unfolding advance bucket_index add_at
record_count w count now now' = let w' = advance w now in add_at w' (bucket_index w' now') count

-- `sum` advances the window and reads the cached sum.
unfoldable pub sum : RollingWindow → ℕ → RollingWindow × ℕ
unfolding advance
sum w now = let w' = advance w now in (w', w'.cached_sum)
