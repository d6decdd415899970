-- ===== src/Quota/Tracker/Connections.antt =====
-- `record_connection` of src/quota/mod.rs: it counts a connection, or refuses it and counts nothing.
use s.Common.{
  ℕ, ◌+◌, ◌%◌, ◌≤◌, ◌<◌, ◌≡◌, ◌≢◌, ◌↔◌, ◌⊎◌, inl, inr, refl, Bool, false, Option, none, some, List,
  [], ◌∷◌, arith, ltb, leb, ◌&&◌, if◌then◌else◌, Text, text_key, Option-cases,
}
use s.Common.Maps
use s.Quota.Window.{RollingWindow, record_count}
use s.Quota.UserState.{Calendar, UserBandwidthState, lazy_reset, new_state, u32_mod}
use s.Quota.Tracker.{
  QuotaTracker, QuotaConfig, Reason, daily_connections, monthly_connections, get_user, put_state,
  state_of,
}

-- `limit > 0 && count >= limit`
abbrev pub reached : ℕ → ℕ → Bool
reached limit count = ltb 0 limit && leb limit count

-- A count respects a quota: the quota is 0, which means unlimited, or is not passed.
abbrev pub Within : ℕ → ℕ → Type 0
Within limit count = (limit ≡ 0) ⊎ (count ≤ limit)

unfoldable pub connection_quota : Option QuotaConfig → UserBandwidthState → Option Reason
connection_quota none s = none
connection_quota (some q) s =
    if reached q.daily_connection_limit s.daily_connections
    then some daily_connections
    else if reached q.monthly_connection_limit s.monthly_connections
    then some monthly_connections
    else none

unfoldable pub record_server : Option RollingWindow → ℕ → ℕ → Option RollingWindow
record_server none now now' = none
record_server (some w) now now' = some (record_count w 1 now now')

-- The windows first, then the cumulative counters.
unfoldable pub count_connection : UserBandwidthState → (ℕ → ℕ) → UserBandwidthState
count_connection s clock = record s {
  conn_per_second = record_count s.conn_per_second 1 (clock 7) (clock 8);
  conn_per_minute = record_count s.conn_per_minute 1 (clock 9) (clock 10);
  conn_per_hour = record_count s.conn_per_hour 1 (clock 11) (clock 12);
  daily_connections = (s.daily_connections + 1) % u32_mod;
  monthly_connections = (s.monthly_connections + 1) % u32_mod;
  last_activity = clock 17;
}

-- The state in which the quotas are checked.
unfoldable pub current_state : Calendar → QuotaTracker → Text → (ℕ → ℕ) → UserBandwidthState
current_state cal t username clock = lazy_reset cal (state_of cal t username clock) (clock 6)

unfoldable pub record_connection :
    Calendar → QuotaTracker → Text → Option QuotaConfig → (ℕ → ℕ) → QuotaTracker × Option Reason
unfolding get_user put_state count_connection record_server
record_connection cal t username quotas clock =
    let (t', s0) = get_user cal t username clock in
    let s = lazy_reset cal s0 (clock 6) in
    elim (connection_quota quotas s) [
      | some reason ↦ (put_state t' username s, some reason)
      | none ↦ (
        record (put_state t' username (count_connection s clock)) {
          server_conn_per_second = record_server t.server_conn_per_second (clock 13) (clock 14);
          server_conn_per_minute = record_server t.server_conn_per_minute (clock 15) (clock 16);
        },
        none,
      )
    ]

-- The state of a user behind a call.
abbrev pub tracked : QuotaTracker → Text → Option UserBandwidthState
tracked t username = Maps.lookup username t.user_state

pub tracked-put_state :
    (t : QuotaTracker) (username : Text) (s : UserBandwidthState)
    → tracked (put_state t username s) username ≡ some s
unfolding put_state
tracked-put_state t username s = Maps.lookup-insert_self username s t.user_state

tracked-put_state_ne :
    (t : QuotaTracker) (username other : Text) (s : UserBandwidthState)
    → username ≢ other
    → tracked (put_state t username s) other ≡ tracked t other
unfolding put_state
tracked-put_state_ne t username other s ne = Maps.lookup-insert_ne username other s t.user_state ne

module _ (cal : Calendar) (t : QuotaTracker) (username : Text) (q : QuotaConfig)
    (clock : ℕ → ℕ) where
  -- A connection is accepted exactly when each of the two quotas is unlimited or not yet reached.
  record_connection-eq-none_iff :
      let s = current_state cal t username clock in
      ((record_connection cal t username (some q) clock).1 ≡ none) ↔ (
        (reached q.daily_connection_limit s.daily_connections ≡ false)
        × (reached q.monthly_connection_limit s.monthly_connections ≡ false))
  unfolding record_connection connection_quota current_state
  record_connection-eq-none_iff = (ground arith, ground arith)

  -- An accepted connection is counted, and keeps both counts within their quotas.
  record_connection_accepted :
      (record_connection cal t username (some q) clock).1 ≡ none
      → q.daily_connection_limit < u32_mod
      → q.monthly_connection_limit < u32_mod
      → let s = current_state cal t username clock in
        (s' : UserBandwidthState) × (tracked
            (record_connection cal t username (some q) clock).0
            username
          ≡ some s')
        × (s'.daily_connections ≡ (s.daily_connections + 1) % u32_mod)
        × (s'.monthly_connections ≡ (s.monthly_connections + 1) % u32_mod)
        × Within q.daily_connection_limit s'.daily_connections
        × Within q.monthly_connection_limit s'.monthly_connections
  unfolding record_connection connection_quota current_state
  record_connection_accepted e d m =
      let s : UserBandwidthState = current_state cal t username clock in
      let t' : QuotaTracker = (get_user cal t username clock).0 in
      (
        count_connection s clock,
        ground (arith, tracked-put_state t' username (count_connection s clock)),
        refl,
        refl,
        ground arith,
        ground arith,
      )

  -- A refused connection leaves the counters as the lazy reset left them, and no window counts it.
  record_connection_refused :
      (reason : Reason)
      → (record_connection cal t username (some q) clock).1 ≡ some reason
      → (tracked (record_connection cal t username (some q) clock).0 username
          ≡ some (current_state cal t username clock))
        × ((record_connection cal t username (some q) clock).0.server_conn_per_second
            ≡ t.server_conn_per_second)
        × ((record_connection cal t username (some q) clock).0.server_conn_per_minute
            ≡ t.server_conn_per_minute)
  unfolding record_connection connection_quota current_state
  record_connection_refused reason e =
      let t' : QuotaTracker = (get_user cal t username clock).0 in
      (
        ground (arith, tracked-put_state t' username (current_state cal t username clock)),
        ground arith,
        ground arith,
      )

-- No other user is affected.
record_connection_others :
    (cal : Calendar) (t : QuotaTracker) (username other : Text) (quotas : Option QuotaConfig)
    (clock : ℕ → ℕ)
    → username ≢ other
    → tracked (record_connection cal t username quotas clock).0 other ≡ tracked t other
unfolding record_connection
record_connection_others cal t username other quotas clock ne =
    let s0 : UserBandwidthState = state_of cal t username clock in
    let s : UserBandwidthState = lazy_reset cal s0 (clock 6) in
    let t' : QuotaTracker = put_state t username s0 in
    ground (
      arith,
      tracked-put_state_ne t username other s0 ne,
      tracked-put_state_ne t' username other s ne,
      tracked-put_state_ne t' username other (count_connection s clock) ne,
    )

-- The counts of a tracked user respect the quota.
abbrev pub KeepsQuota : QuotaConfig → Option UserBandwidthState → Type 0
KeepsQuota q none = Unit
KeepsQuota q (some s) =
    Within q.daily_connection_limit s.daily_connections
    × Within q.monthly_connection_limit s.monthly_connections

current_state-KeepsQuota :
    (cal : Calendar) (t : QuotaTracker) (username : Text) (q : QuotaConfig) (clock : ℕ → ℕ)
    → KeepsQuota q (tracked t username)
    → KeepsQuota q (some (current_state cal t username clock))
unfolding current_state lazy_reset state_of new_state
current_state-KeepsQuota cal t username q clock h = ground arith

record_connection-KeepsQuota :
    (cal : Calendar) (t : QuotaTracker) (username : Text) (q : QuotaConfig) (clock : ℕ → ℕ)
    → q.daily_connection_limit < u32_mod
    → q.monthly_connection_limit < u32_mod
    → KeepsQuota q (tracked t username)
    → KeepsQuota q (tracked (record_connection cal t username (some q) clock).0 username)
record_connection-KeepsQuota cal t username q clock d m h =
    elim (Option-cases (record_connection cal t username (some q) clock).1) [
      | inl e ↦
          let (s', at, _, _, w, w') = record_connection_accepted cal t username q clock e d m in
          rw at (w, w')
      | inr (reason, e) ↦
          rw ((record_connection_refused cal t username q clock reason e).0)
            (current_state-KeepsQuota cal t username q clock h)
    ]

-- Any number of connection attempts of one user, each with its own readings of the clock.
unfoldable pub attempts : Calendar → QuotaTracker → Text → QuotaConfig → List (ℕ → ℕ) → QuotaTracker
attempts cal t username q [] = t
attempts cal t username q (clock ∷ clocks) =
    attempts cal (record_connection cal t username (some q) clock).0 username q clocks

-- However often and whenever a user tries to connect, the daily and the monthly count never pass a
-- quota that they respected at the start, as those of a user without an entry do.
pub attempts-KeepsQuota :
    (cal : Calendar) (t : QuotaTracker) (username : Text) (q : QuotaConfig) (clocks : List (ℕ → ℕ))
    → q.daily_connection_limit < u32_mod
    → q.monthly_connection_limit < u32_mod
    → KeepsQuota q (tracked t username)
    → KeepsQuota q (tracked (attempts cal t username q clocks) username)
unfolding attempts
attempts-KeepsQuota cal t username q [] d m h = h
attempts-KeepsQuota cal t username q (clock ∷ clocks) d m h =
    attempts-KeepsQuota cal (record_connection cal t username (some q) clock).0 username q clocks d
      m (record_connection-KeepsQuota cal t username q clock d m h)
