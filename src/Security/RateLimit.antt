-- ===== src/Security/RateLimit.antt =====
-- src/security/rate_limit.rs: the limiters of connection attempts by address (`IpRateLimiter`) and by
-- name (`UserRateLimiter`), which differ in their key and in where the rate comes from. `now` is
-- what the call reads off the clock; times are in seconds.
pub mod Capacity
use s.Common.{
  ℕ, zero, suc, ◌+◌, ◌-◌, ◌/◌, ◌≤◌, ◌<◌, min, Bool, true, false, not, ◌&&◌, ◌||◌, Option, none,
  some, List, [], ◌∷◌, ltb, leb, ◌==◌, if◌then◌else◌, Text, length, take, Dict, map,
}
use s.Common.Maps.{Key, lookup, contains_key, insert, remove, retain_entries}

-- The crate `governor`: a limiter of so many events a minute, and its answer to one event.
pub record Governor : Type 1 where
  pub Limiter : Type 0
  pub per_minute : ℕ → Limiter
  pub check : Limiter → Bool × Limiter

pub record TrackedLimiter (L : Type 0) : Type 0 where
  pub limiter : L
  pub last_used : ℕ

abbrev pub Table : Type 0 → Type 0 → Type 0
Table K L = Dict K (TrackedLimiter L)

pub record Limiters (K L : Type 0) : Type 0 where
  pub limiters : Table K L
  pub max_entries : ℕ

-- `Duration::from_secs(600)`
abbrev pub stale_age : ℕ
stale_age = 600

-- `sort_by_key` is stable: an entry goes behind those that are as old.
unfoldable pub insert_by_time : {K : Type 0} → K × ℕ → List (K × ℕ) → List (K × ℕ)
insert_by_time e [] = e ∷ []
insert_by_time (k, t) ((j, u) ∷ es) =
    let rest = insert_by_time (k, t) es in if leb t u then (k, t) ∷ (j, u) ∷ es else (j, u) ∷ rest

unfoldable pub sort_by_time : {K : Type 0} → List (K × ℕ) → List (K × ℕ)
unfolding insert_by_time
sort_by_time [] = []
sort_by_time (e ∷ es) = insert_by_time e (sort_by_time es)

-- `entry(k).or_insert_with(…)`; a rate of 0 does not come here.
unfoldable pub limiter_of : (gov : Governor) → ℕ → Option (TrackedLimiter gov.Limiter) → gov.Limiter
limiter_of gov rate none = gov.per_minute rate
limiter_of gov rate (some tracked) = tracked.limiter

module _ (gov : Governor) {K : Type 0} ⦃key : Key K⦄ where
  open gov use {Limiter, per_minute, check}

  unfoldable pub ages : Table K Limiter → List (K × ℕ)
  ages [] = []
  ages ((k, tracked) ∷ m) = (k, tracked.last_used) ∷ ages m

  unfoldable pub remove_all : List (K × ℕ) → Table K Limiter → Table K Limiter
  remove_all [] m = m
  remove_all ((k, t) ∷ es) m = remove_all es (remove k m)

  unfoldable pub new : ℕ → Limiters K Limiter
  new max_entries = record { limiters = []; max_entries = max_entries }

  unfoldable pub cleanup_stale : ℕ → ℕ → Table K Limiter → Table K Limiter
  cleanup_stale now max_age = retain_entries (λ k tracked. ltb (now - tracked.last_used) max_age)

  -- The map, and how many entries left it.
  unfoldable pub evict_oldest : ℕ → Table K Limiter → (Table K Limiter) × ℕ
  unfolding ages sort_by_time remove_all
  evict_oldest count m = if count == 0 || length m == 0 then (m, 0) else (
    remove_all (take (min (length m) count) (sort_by_time (ages m))) m,
    min (length m) count,
  )

  -- The emergency in front of a new entry.
  unfoldable pub make_room : K → ℕ → ℕ → Table K Limiter → Table K Limiter
  unfolding cleanup_stale evict_oldest contains_key
  make_room k now max_entries m =
      if not (contains_key k m) && leb max_entries (length m)
      then (let cleaned = cleanup_stale now stale_age m in
          if leb max_entries (length cleaned)
          then (evict_oldest (max_entries / 10) cleaned).0
          else cleaned)
      else m

  unfoldable pub check_entry : K → ℕ → ℕ → Limiters K Limiter → Bool × Limiters K Limiter
  unfolding make_room limiter_of
  check_entry k rate now s =
      let room = make_room k now s.max_entries s.limiters in
      let (allowed, limiter) = check (limiter_of gov rate (lookup k room)) in
      (
        allowed,
        record s { limiters = insert k (record { limiter = limiter; last_used = now }) room },
      )

  -- `check` of both limiters; a rate of 0 means unlimited.
  unfoldable pub check_limit : K → ℕ → ℕ → Limiters K Limiter → Bool × Limiters K Limiter
  unfolding check_entry
  check_limit k rate now s = if rate == 0 then (true, s) else check_entry k rate now s
