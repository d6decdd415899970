-- ===== src/Proxy/Retry.antt =====
-- src/proxy/retry.rs. `attempt k` is what the k-th connection attempt comes to.
pub mod Backoff
use s.Common.{
  ℕ, zero, suc, ◌+◌, ◌-◌, ◌*◌, ◌^◌, min, Option, none, some, List, [], ◌∷◌, ◌++◌, ltb,
  if◌then◌else◌,
}

abbrev pub max_backoff_ms : ℕ
max_backoff_ms = 10000

pub data Attempt (A E : Type 0) : Type 0 where
  connected : A → Attempt A E
  refused : E → Attempt A E

-- `u64::saturating_mul(2)`
unfoldable pub double : ℕ → ℕ
double delay = min (delay * 2) (2 ^ 64 - 1)

-- The loop from attempt `k` with `left` attempts to come; the delays that it sleeps, and how it
-- ends: the stream, or the last error. Before the first attempt it does not sleep.
unfoldable pub retry_from :
    {A E : Type 0} → (ℕ → Attempt A E) → ℕ → ℕ → ℕ → Option E → List ℕ × Option (Attempt A E)
unfolding double
retry_from attempt k zero current_delay none = ([], none)
retry_from attempt k zero current_delay (some e) = ([], some (refused e))
retry_from attempt zero (suc left) current_delay last_err = elim (attempt 0) [
  | connected a ↦ ([], some (connected a))
  | refused e ↦ retry_from attempt 1 left current_delay (some e)
]
retry_from attempt (suc k) (suc left) current_delay last_err = elim (attempt (suc k)) [
  | connected a ↦ (min current_delay max_backoff_ms ∷ [], some (connected a))
  | refused e ↦
      let (slept, end) = retry_from attempt (suc (suc k)) left (double current_delay) (some e) in
      (min current_delay max_backoff_ms ∷ slept, end)
]

-- None stands for the error that is made up when there was no attempt.
unfoldable pub connect_with_retry :
    {A E : Type 0} → (ℕ → Attempt A E) → ℕ → ℕ → List ℕ × Option (Attempt A E)
unfolding retry_from
connect_with_retry attempt max_retries delay_ms =
    retry_from attempt 0 (suc max_retries) delay_ms none
