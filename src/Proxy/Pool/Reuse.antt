-- ===== src/Proxy/Pool/Reuse.antt =====
-- Which connection src/proxy/pool.rs hands out, and how many it keeps.
use s.Common.{
  ℕ, ◌+◌, ◌-◌, ◌≤◌, ◌<◌, ◌≡◌, true, false, some, List, [], ◌∷◌, ltb, leb, Text, text_key, length,
  Dict, All, arith, Bool-cases, inl, inr,
}
use s.Common.Maps.{lookup, insert, lookup-insert_self}
use s.Proxy.Pool.{
  PooledConnection, ConnectionPool, key_of, is_expired, pop_live, finish, get, put, conns_of,
}

module _ {S : Type 0} where
  -- A connection that was put back is the next one handed out for its target, as long as it has not
  -- expired, where the pool is on and the target has room; the count of hits goes up by one.
  get-put_latest :
      (host : Text) (port now : ℕ) (stream : S) (clock : ℕ → ℕ) (p : ConnectionPool S)
      → p.enabled ≡ true
      → length (conns_of (lookup (key_of host port) p.connections)) < p.max_idle_per_host
      → clock 0 - now ≤ p.idle_timeout
      → ((get host port clock (put host port stream now p)).0 ≡ some stream)
        × ((get host port clock (put host port stream now p)).1.hits ≡ p.hits + 1)
  unfolding get put pop_live finish is_expired
  get-put_latest host port now stream clock p on room young =
      let key : Text = key_of host port in
      let conns : List (PooledConnection S) = conns_of (lookup key p.connections) in
      let young' : ltb p.idle_timeout (clock 0 - now) ≡ false = ground (arith, young) in
      let room' : leb p.max_idle_per_host (length conns) ≡ false = ground (arith, room) in
      (
        ground (
          arith,
          on,
          room',
          young',
          lookup-insert_self key (record { stream = stream; created_at = now } ∷ conns)
              p.connections,
        ),
        ground (
          arith,
          on,
          room',
          young',
          lookup-insert_self key (record { stream = stream; created_at = now } ∷ conns)
              p.connections,
        ),
      )

  -- No target has more idle connections than the pool allows.
  abbrev pub Capped : ℕ → Dict Text (List (PooledConnection S)) → Type 0
  Capped cap = All (λ (e : Text × List (PooledConnection S)). length e.1 ≤ cap)

  insert-Capped :
      (cap : ℕ) (k : Text) (cs : List (PooledConnection S))
      (m : Dict Text (List (PooledConnection S)))
      → length cs ≤ cap
      → Capped cap m
      → Capped cap (insert k cs m)
  unfolding insert
  insert-Capped cap k cs [] l c = (l, tt)
  insert-Capped cap k cs ((j, ds) ∷ m) l c = ground (arith, insert-Capped cap k cs m l c.1)

  lookup-Capped :
      (cap : ℕ) (k : Text) (m : Dict Text (List (PooledConnection S)))
      → Capped cap m
      → length (conns_of (lookup k m)) ≤ cap
  unfolding lookup conns_of
  lookup-Capped cap k [] c = omega arith
  lookup-Capped cap k ((j, ds) ∷ m) c = ground (arith, lookup-Capped cap k m c.1)

  -- Putting a connection back keeps every target within its limit.
  put-Capped :
      (host : Text) (port now : ℕ) (stream : S) (p : ConnectionPool S)
      → Capped p.max_idle_per_host p.connections
      → Capped p.max_idle_per_host (put host port stream now p).connections
  unfolding put
  put-Capped host port now stream p c =
      let key : Text = key_of host port in
      let conns : List (PooledConnection S) = conns_of (lookup key p.connections) in
      elim (Bool-cases p.enabled) [
        | inr off ↦ rw off c
        | inl on ↦ elim (Bool-cases (leb p.max_idle_per_host (length conns))) [
          | inl full ↦
              rw (on, full)
                (insert-Capped p.max_idle_per_host key conns p.connections
                  (lookup-Capped p.max_idle_per_host key p.connections c) c)
          | inr room ↦
              rw (on, room)
                (insert-Capped p.max_idle_per_host key
                  (record { stream = stream; created_at = now } ∷ conns) p.connections
                  (ground (arith, room)) c)
        ]
      ]
