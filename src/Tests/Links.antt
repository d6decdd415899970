-- ===== src/Tests/Links.antt =====
-- Pooled connections and retries (src/proxy/pool.rs, src/proxy/retry.rs).
use s.Common.{ℕ, zero, suc, ◌≤◌, ◌≡◌, true, none, [], Text, codes, length, All}
use s.Proxy.Pool.{ConnectionPool}
use s.Proxy.Retry.{Attempt, connected, refused, connect_with_retry, max_backoff_ms}
use s.Proxy.Retry.Backoff.{first_success, connect_with_retry_lem}

-- Streams are numbers.
abbrev pool : ConnectionPool ℕ
pool = record {
  connections = [];
  max_idle_per_host = 2;
  idle_timeout = 30;
  enabled = true;
  hits = 4;
  misses = 1;
}

abbrev clock : ℕ → ℕ
clock k = 20

-- The third attempt connects.
abbrev third : ℕ → Attempt ℕ Text
third zero = refused (codes "a")
third (suc zero) = refused (codes "b")
third (suc (suc k)) = connected 9

abbrev never : ℕ → Attempt ℕ Text
never k = refused (codes "a")

connect_with_retry_lem_example :
    ((connect_with_retry third 3 100).1 ≡ first_success third 0 4 none)
    × All (λ d. d ≤ max_backoff_ms) (connect_with_retry third 3 100).0
    × (length (connect_with_retry third 3 100).0 ≤ 3)
connect_with_retry_lem_example = connect_with_retry_lem third 3 100
