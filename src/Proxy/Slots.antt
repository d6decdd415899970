-- ===== src/Proxy/Slots.antt =====
-- The count of connections in src/proxy/mod.rs: `acquire_connection`, and the guard whose `drop`
-- gives the slot back. Each atomic update is one step; the counters are `u32` and wrap.
pub mod Balance
pub mod Release
use s.Common.{
  ℕ, ◌+◌, ◌-◌, ◌%◌, ◌^◌, Option, none, some, [], ltb, leb, ◌==◌, if◌then◌else◌, Text, text_key,
  Dict,
}
use s.Common.Maps.{Key, lookup, insert, remove}

abbrev pub u32_mod : ℕ
u32_mod = 2 ^ 32

-- `global_connections` and `user_connections`
pub record Slots : Type 0 where
  pub global : ℕ
  pub users : Dict Text ℕ

pub data Acquired : Type 0 where
  acquired : Slots → Acquired
  global_limit : Acquired
  user_limit : Slots → Acquired

-- `entry(username).or_insert_with(|| 0)`
unfoldable pub count_of : Text → Dict Text ℕ → ℕ
count_of username users = elim (lookup username users) [ none ↦ 0 | some c ↦ c ]

-- `fetch_add(1)` and `fetch_sub(1)` of an `AtomicU32`
unfoldable pub add_one : ℕ → ℕ
add_one c = (c + 1) % u32_mod

unfoldable pub sub_one : ℕ → ℕ
sub_one c = (c + (u32_mod - 1)) % u32_mod

-- The count of the user, when the global slot is taken.
unfoldable pub acquire_user : Text → ℕ → ℕ → Dict Text ℕ → Acquired
unfolding count_of add_one sub_one
acquire_user username max_per_user global users =
    let c = count_of username users in
    if ltb 0 max_per_user
    then (if leb max_per_user c
        then user_limit (record { global = sub_one global; users = insert username c users })
        else acquired (record { global = global; users = insert username (c + 1) users }))
    else acquired (record { global = global; users = insert username (add_one c) users })

unfoldable pub acquire_connection : Text → ℕ → ℕ → Slots → Acquired
unfolding acquire_user
acquire_connection username max_global max_per_user s =
    if leb max_global s.global
    then global_limit
    else acquire_user username max_per_user (s.global + 1) s.users

-- `fetch_sub` on the user's count, and no entry at 0.
unfoldable pub release_user : Text → Dict Text ℕ → Dict Text ℕ
unfolding sub_one
release_user username users = elim (lookup username users) [
  | none ↦ users
  | some c ↦ if c == 1 then remove username users else insert username (sub_one c) users
]

-- `ConnectionGuard::drop`
unfoldable pub release : Text → Slots → Slots
unfolding release_user sub_one
release username s = record { global = sub_one s.global; users = release_user username s.users }
