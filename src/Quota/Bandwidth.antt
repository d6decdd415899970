-- ===== src/Quota/Bandwidth.antt =====
-- src/quota/bandwidth.rs. The floats of the program are a parameter: a type with the operations
-- that the function uses, and what `Duration::from_secs_f64` makes of them, in nanoseconds.
use s.Common.{ℕ, ◌≤◌, ◌<◌, ◌≡◌, Bool, ◌&&◌, arith, ltb, max, if◌then◌else◌}

pub record Float : Type 1 where
  pub F : Type 0
  pub of_u64 : ℕ → F
  -- `literal m d` is m / 10^d
  pub literal : ℕ → ℕ → F
  pub mul : F → F → F
  pub div : F → F → F
  pub sub : F → F → F
  pub gt : F → F → Bool
  pub fmin : F → F → F
  pub from_secs : F → ℕ

module _ (fl : Float) where
  open fl use {F, of_u64, literal, mul, div, sub, gt, fmin, from_secs}

  -- The throttle of one aggregate, over the delay found so far.
  unfoldable pub throttle_overshoot : ℕ → ℕ → ℕ → ℕ
  throttle_overshoot max_delay rate_bps limit_bps =
      if ltb 0 limit_bps && ltb limit_bps rate_bps
      then (let overshoot_ratio = div (of_u64 rate_bps) (of_u64 limit_bps) in
          let delay_secs = mul (sub overshoot_ratio (literal 1 0)) (literal 1 1) in
          if gt delay_secs (literal 1 3)
          then max max_delay (from_secs (fmin delay_secs (literal 1 0)))
          else max_delay)
      else max_delay

  unfoldable pub throttle_connection : ℕ → ℕ → ℕ
  throttle_connection bytes_just_written per_conn_limit_kbps =
      if ltb 0 per_conn_limit_kbps
      then (let bytes_per_sec =
            div (mul (of_u64 per_conn_limit_kbps) (literal 1000 0)) (literal 8 0) in
          let delay_secs = div (of_u64 bytes_just_written) bytes_per_sec in
          if gt delay_secs (literal 1 3) then max 0 (from_secs delay_secs) else 0)
      else 0

  unfoldable pub compute_throttle : ℕ → ℕ → ℕ → ℕ → ℕ → ℕ → ℕ
  unfolding throttle_overshoot throttle_connection
  compute_throttle bytes per_conn aggregate_rate aggregate_limit server_rate server_limit =
      let per_connection = throttle_connection bytes per_conn in
      let per_user = throttle_overshoot per_connection aggregate_rate aggregate_limit in
      throttle_overshoot per_user server_rate server_limit

  throttle_overshoot-le : (d rate limit : ℕ) → d ≤ throttle_overshoot d rate limit
  unfolding throttle_overshoot
  throttle_overshoot-le d rate limit = ground arith

  throttle_overshoot_within :
      (d rate limit : ℕ) → (0 < limit → rate ≤ limit) → throttle_overshoot d rate limit ≡ d
  unfolding throttle_overshoot
  throttle_overshoot_within d rate limit h = ground arith

  throttle_overshoot_bound :
      (second d rate limit : ℕ)
      → ((x : F) → from_secs (fmin x (literal 1 0)) ≤ second)
      → throttle_overshoot d rate limit ≤ max d second
  unfolding throttle_overshoot
  throttle_overshoot_bound second d rate limit h =
      let ratio : F = div (of_u64 rate) (of_u64 limit) in
      ground (arith, h (mul (sub ratio (literal 1 0)) (literal 1 1)))

  -- Where both aggregates are unlimited or within their limits, the delay is that of the
  -- connection alone.
  compute_throttle_within :
      (bytes per_conn user_rate user_limit server_rate server_limit : ℕ)
      → (0 < user_limit → user_rate ≤ user_limit)
      → (0 < server_limit → server_rate ≤ server_limit)
      → compute_throttle bytes per_conn user_rate user_limit server_rate server_limit
        ≡ throttle_connection bytes per_conn
  unfolding compute_throttle
  compute_throttle_within b p ur ul sr sl hu hs = rw (
    throttle_overshoot_within (throttle_connection b p) ur ul hu,
    throttle_overshoot_within (throttle_connection b p) sr sl hs,
  )

  -- The delay is never below that of the connection, and an aggregate adds at most what one second
  -- comes to as a duration, given that `from_secs` of a number capped at one second is no more.
  compute_throttle_bounds :
      (second bytes per_conn user_rate user_limit server_rate server_limit : ℕ)
      → ((x : F) → from_secs (fmin x (literal 1 0)) ≤ second)
      → let delay = compute_throttle bytes per_conn user_rate user_limit server_rate server_limit in
        (throttle_connection bytes per_conn ≤ delay)
        × (delay ≤ max (throttle_connection bytes per_conn) second)
  unfolding compute_throttle
  compute_throttle_bounds second b p ur ul sr sl h =
      let d : ℕ = throttle_connection b p in
      let d' : ℕ = throttle_overshoot d ur ul in
      (
        omega (arith, throttle_overshoot-le d ur ul, throttle_overshoot-le d' sr sl),
        omega (
          arith,
          throttle_overshoot_bound second d ur ul h,
          throttle_overshoot_bound second d' sr sl h,
        ),
      )
