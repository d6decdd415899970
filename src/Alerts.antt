-- ===== src/Alerts.antt =====
-- src/alerting/mod.rs: `AlertEngine`. A webhook that is called is a value that the call returns.
pub mod Once
use s.Common.{
  ℕ, ◌+◌, ◌%◌, ◌^◌, ◌≤◌, ◌<◌, ◌≡◌, Bool, true, false, List, [], ◌∷◌, ◌++◌, Option, none, some, ltb,
  leb, if◌then◌else◌, Text, any, codes,
}
use s.Common.Chars.{same_text}
use s.Quota.UserState.{Calendar}
use s.Quota.Tracker.{QuotaTracker}
use s.Quota.Tracker.Usage.{UserQuotaUsage, get_user_usage}

pub data AlertCondition : Type 0 where
  bandwidth_exceeded connections_exceeded monthly_bandwidth_exceeded : AlertCondition
  hourly_bandwidth_exceeded auth_failures : AlertCondition

pub record AlertRule : Type 0 where
  pub name : Text
  pub condition : AlertCondition
  pub threshold : ℕ
  pub window_secs : ℕ
  pub users : List Text
  pub webhook_url : Option Text

pub record AlertingConfig : Type 0 where
  pub enabled : Bool
  pub rules : List AlertRule

-- The tracker is shared with the rest of the server; `dispatcher` says whether there is one.
pub record AlertEngine : Type 0 where
  pub config : AlertingConfig
  pub dispatcher : Bool
  pub quota_tracker : QuotaTracker
  pub fired_alerts : List Text
  pub auth_failure_count : ℕ

-- A call of a webhook: of the URL of the rule, or of the global dispatcher.
pub record Alert : Type 0 where
  pub url : Option Text
  pub rule : Text
  pub username : Text

unfoldable pub new : AlertingConfig → Bool → QuotaTracker → AlertEngine
new config dispatcher quota_tracker = record {
  config = config;
  dispatcher = dispatcher;
  quota_tracker = quota_tracker;
  fired_alerts = [];
  auth_failure_count = 0;
}

abbrev u64_mod : ℕ
u64_mod = 2 ^ 64

unfoldable pub record_auth_failure : AlertEngine → AlertEngine
record_auth_failure e = record e { auth_failure_count = (e.auth_failure_count + 1) % u64_mod }

unfoldable pub bandwidth_for_window : UserQuotaUsage → ℕ → ℕ
bandwidth_for_window usage window_secs =
    if leb window_secs 3600
    then usage.hourly_bytes
    else if leb window_secs 86400
    then usage.daily_bytes
    else usage.monthly_bytes

unfoldable pub connections_for_window : UserQuotaUsage → ℕ → ℕ
connections_for_window usage window_secs =
    if leb window_secs 86400 then usage.daily_connections else usage.monthly_connections

abbrev measured : AlertRule → ℕ → UserQuotaUsage → AlertCondition → ℕ
measured rule failures usage AlertCondition.bandwidth_exceeded =
    bandwidth_for_window usage rule.window_secs
measured rule failures usage AlertCondition.connections_exceeded =
    connections_for_window usage rule.window_secs
measured rule failures usage AlertCondition.monthly_bandwidth_exceeded = usage.monthly_bytes
measured rule failures usage AlertCondition.hourly_bandwidth_exceeded = usage.hourly_bytes
measured rule failures usage AlertCondition.auth_failures = failures

-- Reading the usage of a user may reset its counters.
unfoldable pub check_rule : Calendar → AlertEngine → AlertRule → Text → (ℕ → ℕ) → AlertEngine × Bool
unfolding bandwidth_for_window connections_for_window
check_rule cal e rule username clock =
    let (tracker, usage) = get_user_usage cal e.quota_tracker username clock in
    (
      record e { quota_tracker = tracker },
      ltb rule.threshold (measured rule e.auth_failure_count usage rule.condition),
    )

abbrev pub alert_key : Text → Text → Text
alert_key rule username = rule ++ codes ":" ++ username

abbrev pub to_url : Option Text → Text → Text → List Alert
to_url none rule username = []
to_url (some url) rule username = record { url = some url; rule = rule; username = username } ∷ []

abbrev pub to_dispatcher : Bool → Text → Text → List Alert
to_dispatcher false rule username = []
to_dispatcher true rule username = record { url = none; rule = rule; username = username } ∷ []

abbrev pub is_fired : Text → List Text → Bool
is_fired key keys = any (same_text key) keys

unfoldable pub fire_alert : AlertEngine → AlertRule → Text → AlertEngine × List Alert
fire_alert e rule username =
    let key = alert_key rule.name username in
    if is_fired key e.fired_alerts then (e, []) else (
      record e { fired_alerts = key ∷ e.fired_alerts },
      to_url rule.webhook_url rule.name username ++ to_dispatcher e.dispatcher rule.name username,
    )

-- The loop over the users of a rule; the clock depends on the rule and the user.
unfoldable pub evaluate_users :
    Calendar
    → (Text → Text → ℕ → ℕ)
    → AlertEngine
    → AlertRule
    → List Text
    → AlertEngine × List Alert
evaluate_users cal clock e rule [] = (e, [])
evaluate_users cal clock e rule (u ∷ us) =
    let (checked, exceeded) = check_rule cal e rule u (clock rule.name u) in
    let (fired, alerts) = if exceeded then fire_alert checked rule u else (checked, []) in
    let (last, rest) = evaluate_users cal clock fired rule us in (last, alerts ++ rest)

abbrev pub users_to_check : AlertRule → List Text → List Text
users_to_check rule known_users = elim rule.users [ [] ↦ known_users | u ∷ us ↦ u ∷ us ]

unfoldable pub evaluate_rules :
    Calendar
    → (Text → Text → ℕ → ℕ)
    → AlertEngine
    → List AlertRule
    → List Text
    → AlertEngine × List Alert
unfolding evaluate_users
evaluate_rules cal clock e [] known_users = (e, [])
evaluate_rules cal clock e (rule ∷ rules) known_users =
    let (one, alerts) = evaluate_users cal clock e rule (users_to_check rule known_users) in
    let (last, rest) = evaluate_rules cal clock one rules known_users in (last, alerts ++ rest)

unfoldable pub evaluate :
    Calendar → (Text → Text → ℕ → ℕ) → AlertEngine → List Text → AlertEngine × List Alert
unfolding evaluate_rules
evaluate cal clock e known_users =
    if e.config.enabled then evaluate_rules cal clock e e.config.rules known_users else (e, [])

unfoldable pub reset_fired : AlertEngine → AlertEngine
reset_fired e = record e { fired_alerts = []; auth_failure_count = 0 }
