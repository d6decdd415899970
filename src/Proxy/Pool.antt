-- ===== src/Proxy/Pool.antt =====
-- src/proxy/pool.rs: idle connections for each target. The stack of a target stands with its top,
-- the back of the `Vec`, first. `clock k` is what a call reads for the k-th connection it looks at.
pub mod Reuse
use s.Common.{
  ℕ, suc, ◌+◌, ◌-◌, Bool, true, false, not, Option, none, some, List, [], ◌∷◌, ◌++◌, ltb, leb,
  if◌then◌else◌, Text, text_key, length, retain, Dict,
}
use s.Common.Decimal.{decimal}
use s.Common.Maps.{Key, lookup, insert, remove, filter_map}

pub record PooledConnection (S : Type 0) : Type 0 where
  pub stream : S
  pub created_at : ℕ

pub record ConnectionPool (S : Type 0) : Type 0 where
  pub connections : Dict Text (List (PooledConnection S))
  pub max_idle_per_host : ℕ
  pub idle_timeout : ℕ
  pub enabled : Bool
  pub hits : ℕ
  pub misses : ℕ

-- `format!("{}:{}", host, port)`
unfoldable pub key_of : Text → ℕ → Text
key_of host port = host ++ b':' ∷ decimal port

unfoldable pub is_expired : {S : Type 0} → ℕ → ℕ → PooledConnection S → Bool
is_expired now idle_timeout c = ltb idle_timeout (now - c.created_at)

-- The loop over `conns.pop()`: the first that has not expired, and what is left below it.
unfoldable pub pop_live :
    {S : Type 0}
    → (ℕ → ℕ)
    → ℕ
    → ℕ
    → List (PooledConnection S)
    → Option (S × List (PooledConnection S))
pop_live clock k idle_timeout [] = none
pop_live clock k idle_timeout (c ∷ conns) =
    let below = pop_live clock (suc k) idle_timeout conns in
    if is_expired (clock k) idle_timeout c then below else some (c.stream, conns)

-- The entry of a target that has connections left, or none.
unfoldable pub put_back :
    {S : Type 0}
    → Text
    → List (PooledConnection S)
    → Dict Text (List (PooledConnection S))
    → Dict Text (List (PooledConnection S))
put_back key [] m = remove key m
put_back key (c ∷ conns) m = insert key (c ∷ conns) m

unfoldable pub finish :
    {S : Type 0}
    → Text
    → Option (S × List (PooledConnection S))
    → ConnectionPool S
    → Option S × ConnectionPool S
finish key none p =
    (none, record p { connections = remove key p.connections; misses = p.misses + 1 })
finish key (some (stream, conns)) p =
    (some stream, record p { connections = put_back key conns p.connections; hits = p.hits + 1 })

unfoldable pub get :
    {S : Type 0} → Text → ℕ → (ℕ → ℕ) → ConnectionPool S → Option S × ConnectionPool S
get host port clock p =
    if not p.enabled then (none, p) else elim (lookup (key_of host port) p.connections) [
      | none ↦ (none, p)
      | some conns ↦ finish (key_of host port) (pop_live clock 0 p.idle_timeout conns) p
    ]

unfoldable pub conns_of :
    {S : Type 0} → Option (List (PooledConnection S)) → List (PooledConnection S)
conns_of none = []
conns_of (some conns) = conns

-- `entry(key).or_default()` stays in the map even where the connection is dropped.
unfoldable pub put : {S : Type 0} → Text → ℕ → S → ℕ → ConnectionPool S → ConnectionPool S
put host port stream now p =
    let key = key_of host port in
    let conns = conns_of (lookup key p.connections) in
    if not p.enabled
    then p
    else if leb p.max_idle_per_host (length conns)
    then record p { connections = insert key conns p.connections }
    else record p {
      connections = insert key (record { stream = stream; created_at = now } ∷ conns) p.connections;
    }

abbrev pub live_conns :
    {S : Type 0} → ℕ → ℕ → Text → List (PooledConnection S) → Option (List (PooledConnection S))
live_conns now idle_timeout key conns =
    elim (retain (λ c. not (is_expired now idle_timeout c)) conns) [
      | [] ↦ none
      | c ∷ cs ↦ some (c ∷ cs)
    ]

unfoldable pub cleanup : {S : Type 0} → ℕ → ConnectionPool S → ConnectionPool S
cleanup now p = record p { connections = filter_map (live_conns now p.idle_timeout) p.connections }

-- All idle connections, and the targets that have an entry.
unfoldable pub pool_len : {S : Type 0} → Dict Text (List (PooledConnection S)) → ℕ
pool_len [] = 0
pool_len ((k, conns) ∷ m) = length conns + pool_len m

unfoldable pub host_count : {S : Type 0} → ConnectionPool S → ℕ
host_count p = length p.connections
