-- ===== src/Quota/Window/Forgets.antt =====
-- Windows with more than one second to a bucket (src/quota/rolling_window.rs): `advance` looks at
-- the time since the last advance, not at the bucket that the clock stands in.
use native.Mathlib.Nat.{add-zero, mod-add-mod, div_self, div-eq_of_lt-le}
use s.Common.{
  ℕ, zero, suc, ◌+◌, ◌-◌, ◌*◌, ◌/◌, ◌%◌, ◌≤◌, ◌<◌, ◌≡◌, refl, sym, List, [], ◌∷◌, ap, arith, length,
  length-set, set, get_or,
}
use s.Quota.Window.{
  RollingWindow, clear_stale, sum_buckets, u64_mod, bucket_index, expire, advance, add_at,
  record_count, sum,
}

set-set : (bs : List ℕ) (i v : ℕ) → set (set bs i v) i 0 ≡ set bs i 0
set-set [] i v = refl
set-set (b ∷ bs) zero v = refl
set-set (b ∷ bs) (suc i) v = ap (◌∷◌ b) (set-set bs i v)

-- The bucket that one step of the ring clears.
abbrev next_bucket : RollingWindow → ℕ
next_bucket w = (w.last_advance / w.bucket_secs % length w.buckets + 1 + 0) % length w.buckets

expire_one :
    (w : RollingWindow) (now : ℕ)
    → 0 < w.bucket_secs
    → 2 ≤ length w.buckets
    → expire w now w.bucket_secs ≡ record w {
      buckets = set w.buckets (next_bucket w) 0;
      last_advance = now;
      cached_sum = sum_buckets (set w.buckets (next_bucket w) 0) % u64_mod;
    }
unfolding expire clear_stale
expire_one w now p q = ground (arith, div_self p)

advance_early :
    (w : RollingWindow) (now : ℕ) → now - w.last_advance < w.bucket_secs → advance w now ≡ w
unfolding advance
advance_early w now h = ground arith

advance_one :
    (w : RollingWindow)
    → advance w (w.last_advance + w.bucket_secs)
      ≡ expire w (w.last_advance + w.bucket_secs) w.bucket_secs
unfolding advance
advance_one w = ground arith

next_second :
    (w : RollingWindow) (q : ℕ)
    → w.last_advance + 1 ≡ (q + 1) * w.bucket_secs
    → 0 < w.bucket_secs
    → bucket_index w (w.last_advance + 1) ≡ next_bucket w
unfolding bucket_index
next_second w q e p =
    let now : (w.last_advance + 1) / w.bucket_secs ≡ q + 1 =
      grind (arith, div-eq_of_lt-le {k = q + 1} w.bucket_secs {m = w.last_advance + 1}) in
    let last : w.last_advance / w.bucket_secs ≡ q =
      grind (arith, div-eq_of_lt-le {k = q} w.bucket_secs {m = w.last_advance}) in
    rw (now, last, add-zero) (sym (mod-add-mod q (length w.buckets) 1))

sum_after_one :
    (w : RollingWindow)
    → 0 < w.bucket_secs
    → 2 ≤ length w.buckets
    → (sum w (w.last_advance + w.bucket_secs)).1
      ≡ sum_buckets (set w.buckets (next_bucket w) 0) % u64_mod
unfolding sum
sum_after_one w p q = rw (advance_one w, expire_one w (w.last_advance + w.bucket_secs) p q)

record_early :
    (w : RollingWindow) (c now : ℕ)
    → now - w.last_advance < w.bucket_secs
    → record_count w c now now ≡ add_at w (bucket_index w now) c
unfolding record_count
record_early w c now h = rw (advance_early w now h)

-- What is added to the bucket that is cleared next is lost.
sum_after_add :
    (w : RollingWindow) (c : ℕ)
    → 0 < w.bucket_secs
    → 2 ≤ length w.buckets
    → (sum (add_at w (next_bucket w) c) (w.last_advance + w.bucket_secs)).1
      ≡ sum_buckets (set w.buckets (next_bucket w) 0) % u64_mod
unfolding add_at
sum_after_add w c p q =
    let v : ℕ = (get_or w.buckets (next_bucket w) 0 + c) % u64_mod in
    let size : length (set w.buckets (next_bucket w) v) ≡ length w.buckets =
      length-set w.buckets (next_bucket w) v in
    rw (sum_after_one (add_at w (next_bucket w) c) p (rw size q))
      (rw (size, set-set w.buckets (next_bucket w) v))

-- A window whose buckets span two seconds or more, last advanced in the last second of a bucket:
-- whatever is recorded in the next second is not in the sum that is read `bucket_secs` seconds
-- after that advance. It is the sum that the window would have had with nothing recorded.
pub sum-record_count_forgets :
    (w : RollingWindow) (c q : ℕ)
    → 2 ≤ w.bucket_secs
    → 2 ≤ length w.buckets
    → w.last_advance + 1 ≡ (q + 1) * w.bucket_secs
    → let now = w.last_advance + 1 in
      let later = w.last_advance + w.bucket_secs in
      (sum (record_count w c now now) later).1 ≡ (sum w later).1
sum-record_count_forgets w c q p r e =
    rw
      (
        record_early w c (w.last_advance + 1) (omega arith),
        next_second w q e (omega arith),
        sum_after_one w (omega arith) r,
      )
      (sum_after_add w c (omega arith) r)
