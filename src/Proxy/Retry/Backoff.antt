-- ===== src/Proxy/Retry/Backoff.antt =====
-- How often and how long src/proxy/retry.rs tries.
use s.Common.{
  ℕ, zero, suc, ◌*◌, ◌≤◌, ◌≡◌, refl, ◌⊎◌, inl, inr, min, Option, none, some, List, [], ◌∷◌, All,
  length, arith,
}
use s.Proxy.Retry.{
  Attempt, connected, refused, double, retry_from, connect_with_retry, max_backoff_ms,
}

-- The delays of `n` retries without any bound on the doubling.
unfoldable pub backoffs : ℕ → ℕ → List ℕ
backoffs delay zero = []
backoffs delay (suc n) = min delay max_backoff_ms ∷ backoffs (delay * 2) n

module _ {A E : Type 0} where
  -- The first of `left` attempts from `k` that connects, or the error of the last one.
  unfoldable pub first_success : (ℕ → Attempt A E) → ℕ → ℕ → Option E → Option (Attempt A E)
  first_success attempt k zero none = none
  first_success attempt k zero (some e) = some (refused e)
  first_success attempt k (suc left) last_err = elim (attempt k) [
    | connected a ↦ some (connected a)
    | refused e ↦ first_success attempt (suc k) left (some e)
  ]

  Attempt-cases : (r : Attempt A E) → ((a : A) × (r ≡ connected a)) ⊎ ((e : E) × (r ≡ refused e))
  Attempt-cases (connected a) = inl (a, refl)
  Attempt-cases (refused e) = inr (e, refl)

  retry_from_result :
      (attempt : ℕ → Attempt A E) (k left delay : ℕ) (last_err : Option E)
      → (retry_from attempt k left delay last_err).1 ≡ first_success attempt k left last_err
  unfolding retry_from first_success
  retry_from_result attempt k zero delay none = refl
  retry_from_result attempt k zero delay (some e) = refl
  retry_from_result attempt zero (suc left) delay last_err = elim (Attempt-cases (attempt 0)) [
    | inl (a, up) ↦ ground (arith, up)
    | inr (e, down) ↦ ground (arith, down, retry_from_result attempt 1 left delay (some e))
  ]
  retry_from_result attempt (suc k) (suc left) delay last_err =
      elim (Attempt-cases (attempt (suc k))) [
        | inl (a, up) ↦ ground (arith, up)
        | inr (e, down) ↦
            ground
              (arith, down, retry_from_result attempt (suc (suc k)) left (double delay) (some e))
      ]

  retry_from_slept :
      (attempt : ℕ → Attempt A E) (k left delay : ℕ) (last_err : Option E)
      → All (λ d. d ≤ max_backoff_ms) (retry_from attempt k left delay last_err).0
        × (length (retry_from attempt k left delay last_err).0 ≤ left)
  unfolding retry_from
  retry_from_slept attempt k zero delay none = (tt, omega arith)
  retry_from_slept attempt k zero delay (some e) = (tt, omega arith)
  retry_from_slept attempt zero (suc left) delay last_err = elim (Attempt-cases (attempt 0)) [
    | inl (a, up) ↦ ground (arith, up)
    | inr (e, down) ↦ ground (arith, down, retry_from_slept attempt 1 left delay (some e))
  ]
  retry_from_slept attempt (suc k) (suc left) delay last_err =
      elim (Attempt-cases (attempt (suc k))) [
        | inl (a, up) ↦ ground (arith, up)
        | inr (e, down) ↦
            ground
              (arith, down, retry_from_slept attempt (suc (suc k)) left (double delay) (some e))
      ]

  refused_slept :
      (attempt : ℕ → Attempt A E) (k left delay ideal : ℕ) (last_err : E)
      → ((i : ℕ) → (e : E) × (attempt i ≡ refused e))
      → min delay max_backoff_ms ≡ min ideal max_backoff_ms
      → (retry_from attempt (suc k) left delay (some last_err)).0 ≡ backoffs ideal left
  unfolding retry_from backoffs
  refused_slept attempt k zero delay ideal last_err fails same = refl
  refused_slept attempt k (suc left) delay ideal last_err fails same =
      let (e, down) = fails (suc k) in
      ground (
        arith,
        down,
        same,
        refused_slept attempt (suc k) left (double delay) (ideal * 2) e fails (omega (arith, same)),
      )

  slept_length :
      (attempt : ℕ → Attempt A E) (max_retries delay : ℕ)
      → length (retry_from attempt 0 (suc max_retries) delay none).0 ≤ max_retries
  unfolding retry_from
  slept_length attempt max_retries delay = elim (Attempt-cases (attempt 0)) [
    | inl (a, up) ↦ ground (arith, up)
    | inr (e, down) ↦
        ground (arith, down, (retry_from_slept attempt 1 max_retries delay (some e)).1)
  ]

  -- The result is the first connection among at most one attempt and `max_retries` retries, or the
  -- error of the last attempt; there are at most as many delays as retries, each of at most ten
  -- seconds.
  pub connect_with_retry_lem :
      (attempt : ℕ → Attempt A E) (max_retries delay : ℕ)
      → ((connect_with_retry attempt max_retries delay).1
          ≡ first_success attempt 0 (suc max_retries) none)
        × All (λ d. d ≤ max_backoff_ms) (connect_with_retry attempt max_retries delay).0
        × (length (connect_with_retry attempt max_retries delay).0 ≤ max_retries)
  unfolding connect_with_retry
  connect_with_retry_lem attempt max_retries delay = (
    retry_from_result attempt 0 (suc max_retries) delay none,
    (retry_from_slept attempt 0 (suc max_retries) delay none).0,
    slept_length attempt max_retries delay,
  )

  -- Where every attempt is refused, the delays double from the first one, up to ten seconds.
  connect_with_retry-backoffs :
      (attempt : ℕ → Attempt A E) (max_retries delay : ℕ)
      → ((i : ℕ) → (e : E) × (attempt i ≡ refused e))
      → (connect_with_retry attempt max_retries delay).0 ≡ backoffs delay max_retries
  unfolding connect_with_retry
  connect_with_retry-backoffs attempt max_retries delay fails =
      let (e, down) = fails 0 in
      ground (arith, down, refused_slept attempt 0 max_retries delay delay e fails refl)
