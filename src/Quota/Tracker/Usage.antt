-- ===== src/Quota/Tracker/Usage.antt =====
-- Reports and administration of src/quota/mod.rs: usage, reset, restore, cleanup.
use s.Common.{
  ℕ, ◌-◌, ◌<◌, ◌≡◌, none, some, List, [], ◌∷◌, arith, ltb, if◌then◌else◌, Text, text_key,
  Text-discrete, ite, inl, inr, Option-cases,
}
use s.Common.Maps
use s.Quota.Window.{sum}
use s.Quota.UserState.{Calendar, UserBandwidthState, lazy_reset}
use s.Quota.Tracker.{QuotaTracker, get_user, put_state, state_of}
use s.Quota.Tracker.Connections.{tracked, tracked-put_state}

pub record UserQuotaUsage : Type 0 where
  pub daily_bytes : ℕ
  pub daily_connections : ℕ
  pub monthly_bytes : ℕ
  pub monthly_connections : ℕ
  pub current_rate_bps : ℕ
  pub hourly_bytes : ℕ
  pub total_bytes : ℕ

unfoldable pub usage_of : UserBandwidthState → (ℕ → ℕ) → UserBandwidthState × UserQuotaUsage
usage_of s clock =
    let (second, rate) = sum s.second_window (clock 7) in
    let (hour, hourly) = sum s.hour_window (clock 8) in
    (
      record s { second_window = second; hour_window = hour },
      record {
        daily_bytes = s.daily_bytes;
        daily_connections = s.daily_connections;
        monthly_bytes = s.monthly_bytes;
        monthly_connections = s.monthly_connections;
        current_rate_bps = rate;
        hourly_bytes = hourly;
        total_bytes = s.total_bytes;
      },
    )

unfoldable pub get_user_usage :
    Calendar → QuotaTracker → Text → (ℕ → ℕ) → QuotaTracker × UserQuotaUsage
unfolding get_user put_state usage_of
get_user_usage cal t username clock =
    let (t', s0) = get_user cal t username clock in
    let (s, usage) = usage_of (lazy_reset cal s0 (clock 6)) clock in
    (put_state t' username s, usage)

unfoldable pub cleanup_stale : QuotaTracker → ℕ → ℕ → QuotaTracker
cleanup_stale t max_idle_secs now = record t {
  user_state = Maps.retain_entries (λ _ s. ltb (now - s.last_activity) max_idle_secs) t.user_state;
}

unfoldable pub zero_usage : UserBandwidthState → UserBandwidthState
zero_usage s = record s {
  daily_bytes = 0;
  daily_connections = 0;
  monthly_bytes = 0;
  monthly_connections = 0;
  total_bytes = 0;
}

-- An unknown user is left unknown.
unfoldable pub reset_user : QuotaTracker → Text → QuotaTracker
unfolding zero_usage put_state
reset_user t username = elim (Maps.lookup username t.user_state) [
  | none ↦ t
  | some s ↦ put_state t username (zero_usage s)
]

unfoldable pub restore_user_usage :
    Calendar → QuotaTracker → Text → (ℕ → ℕ) → ℕ → ℕ → ℕ → ℕ → ℕ → QuotaTracker
unfolding get_user put_state
restore_user_usage cal t username clock db dc mb mc total =
    let (t', s) = get_user cal t username clock in
    put_state t' username (record s {
      daily_bytes = db;
      daily_connections = dc;
      monthly_bytes = mb;
      monthly_connections = mc;
      total_bytes = total;
    })

unfoldable pub tracked_users : QuotaTracker → List Text
tracked_users t = names t.user_state
  where
    names : List (Text × UserBandwidthState) → List Text
    names [] = []
    names ((k, s) ∷ m) = k ∷ names m

state_of_tracked :
    (cal : Calendar) (t : QuotaTracker) (username : Text) (clock : ℕ → ℕ) (s : UserBandwidthState)
    → tracked t username ≡ some s
    → state_of cal t username clock ≡ s
unfolding state_of
state_of_tracked cal t username clock s e = ground arith

-- A restored usage is reported as it was restored, as long as no reset is due.
get_user_usage-restore :
    (cal : Calendar) (t : QuotaTracker) (username : Text) (clock clock' : ℕ → ℕ)
    (db dc mb mc total : ℕ)
    → clock' 6 < (state_of cal t username clock).daily_reset
    → clock' 6 < (state_of cal t username clock).monthly_reset
    → let restored = restore_user_usage cal t username clock db dc mb mc total in
      let usage = (get_user_usage cal restored username clock').1 in
      (usage.daily_bytes ≡ db)
      × (usage.daily_connections ≡ dc)
      × (usage.monthly_bytes ≡ mb)
      × (usage.monthly_connections ≡ mc)
      × (usage.total_bytes ≡ total)
unfolding restore_user_usage get_user_usage lazy_reset
get_user_usage-restore cal t username clock clock' db dc mb mc total h k =
    let s : UserBandwidthState = record (state_of cal t username clock) {
      daily_bytes = db;
      daily_connections = dc;
      monthly_bytes = mb;
      monthly_connections = mc;
      total_bytes = total;
    } in
    let t' : QuotaTracker = put_state (get_user cal t username clock).0 username s in
    let found : state_of cal t' username clock' ≡ s =
      state_of_tracked cal t' username clock' s
        (tracked-put_state (get_user cal t username clock).0 username s) in
    rw found (ground arith, ground arith, ground arith, ground arith, ground arith)

-- Exactly the users that were active less than `max_idle_secs` ago are kept, with their state.
tracked-cleanup_stale :
    (t : QuotaTracker) (username : Text) (max_idle_secs now : ℕ)
    → Maps.Distinct t.user_state
    → tracked (cleanup_stale t max_idle_secs now) username
      ≡ Maps.bind_entry
          (λ _ s. if ltb (now - s.last_activity) max_idle_secs then some s else none)
          username
          (tracked t username)
unfolding cleanup_stale
tracked-cleanup_stale t username max_idle_secs now d =
    Maps.lookup-filter_map _ username t.user_state d

-- A reset zeroes the five counters of a tracked user and touches neither its windows nor its
-- boundaries; other users keep their state, and a user without an entry gets none.
tracked-reset_user :
    (t : QuotaTracker) (username other : Text)
    → tracked (reset_user t username) other
      ≡ ite
          (Text-discrete username other)
          (Maps.bind_entry (λ _ s. some (zero_usage s)) username (tracked t username))
          (tracked t other)
unfolding reset_user put_state
tracked-reset_user t username other = elim (Option-cases (tracked t username)) [
  | inl e ↦ ground (arith, e)
  | inr (s, e) ↦ ground (arith, e, Maps.lookup-insert username other (zero_usage s) t.user_state)
]
