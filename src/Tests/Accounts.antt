-- ===== src/Tests/Accounts.antt =====
-- Users, pages, alerts and names with passwords at concrete inputs (src/auth, src/api,
-- src/alerting and src/socks/auth.rs).
use s.Common.{
  ℕ, ◌+◌, ◌*◌, ◌≤◌, ◌<◌, ◌≡◌, ◌≢◌, ◌↔◌, refl, Bool, true, false, List, [], ◌∷◌, ◌++◌, Option, none,
  some, Text, text_key, arith, codes, ltb, ◌==◌, any, All,
}
use s.Acl.{AclPolicy, AclRule, ParsedAcl, check, matches, host_pattern}
use s.Acl.Port.{exact}
use s.Acl.Parse.{Result, parse_rules}
use s.Acl.Merge.{AclPolicyConfig, GlobalAclConfig, UserAclConfig}
use s.Quota.Tracker
use s.Quota.Tracker.{QuotaTracker, LimitsConfig}
use s.Quota.UserState.{Calendar}
use s.Config.{
  UserRole, TimeAccessConfig, UserLimits, ServerRetries, ShellColors, GroupConfig, UserConfig,
}
use s.Config.Hours.{Weekday, Moment, now_mins, print_range}
use s.Auth.Inheritance.{group_value}
use s.Auth.User.{Platform, User, group_of, resolve, from_config, check_time_access}
use s.Auth.User.Access.{access_hours_iff, from_config_restricts, global_deny_of_user}
use s.Auth.User.Store.{get}
use s.Auth.Service.{
  Verifiers, AuthService, verify_totp, auth_password, auth_publickey, auth_publickey_certificate,
}
use s.Auth.Service.Totp.{totp_once}
use s.Api.Pagination.{Base64}
use s.Api.Pagination.Pages.{follow, follow_lem}
use s.Alerts.{
  AlertCondition, AlertRule, AlertingConfig, AlertEngine, Alert, alert_key, is_fired,
  record_auth_failure, evaluate,
}
use s.Alerts
use s.Alerts.Once.{evaluate_once}
use s.Socks.Stream.{done, stream}
use s.Socks.Auth.{read_credentials, encoded, read_credentials-encoded}
use s.Net.{IpAddr}
use s.Tests.Data.{api}

-- Dates and keys are numbers.
abbrev pub platform : Platform
platform = record {
  DateTime = ℕ;
  parse_date = λ t. none;
  is_after = λ now exp. ltb exp now;
  PublicKey = ℕ;
  parse_key = λ l. none;
  same_key = λ a b. a == b;
}

abbrev global : GlobalAclConfig
global = record {
  default_policy = AclPolicyConfig.allow;
  allow_texts = [];
  deny_texts = codes "a.org:25" ∷ [];
}

abbrev own : UserAclConfig
own = record { default_policy = none; allow_texts = []; deny_texts = []; inherit = true }

abbrev hours : TimeAccessConfig
hours = record {
  access_hours = some (print_range 8 0 18 30);
  access_days = [];
  timezone = codes "UTC";
}

abbrev bob_config : UserConfig IpAddr
bob_config = record {
  username = codes "bob";
  password_hash = some (codes "hash");
  authorized_keys = [];
  allow_forwarding = true;
  allow_shell = true;
  max_new_connections_per_minute = 0;
  max_bandwidth_kbps = 0;
  source_ips = [];
  expires_at = none;
  upstream_proxy = none;
  acl = own;
  totp_secret = some (codes "secret");
  totp_enabled = true;
  max_aggregate_bandwidth_kbps = 0;
  group = some (codes "ops");
  role = UserRole.user;
  shell_permissions = none;
  motd = none;
  quotas = none;
  time_access = some hours;
  auth_methods = none;
  idle_warning_secs = none;
  colors = none;
  connect_retry = none;
  connect_retry_delay_ms = none;
  aliases = [];
  max_connections = none;
  rate_limits = none;
}

-- The group forbids the shell, and ten new connections in a minute are its limit.
abbrev ops : GroupConfig
ops = record {
  name = codes "ops";
  acl = own;
  max_connections_per_user = none;
  max_bandwidth_kbps = none;
  max_aggregate_bandwidth_kbps = none;
  max_new_connections_per_minute = some 10;
  allow_forwarding = some true;
  allow_shell = some false;
  shell_permissions = none;
  motd = none;
  quotas = none;
  time_access = none;
  auth_methods = none;
  idle_warning_secs = none;
  role = none;
  colors = none;
  connect_retry = none;
  connect_retry_delay_ms = none;
  rate_limits = none;
}

abbrev limits : UserLimits
limits = record { idle_warning_secs = 60; max_connections_per_user = 5 }

abbrev server : ServerRetries
server = record { connect_retry = 2; connect_retry_delay_ms = 500 }

abbrev shell : ShellColors
shell = record { colors = true }

abbrev rule : AclRule IpAddr
rule = host_pattern (codes "a.org") (exact 25)

abbrev bob_acl : ParsedAcl IpAddr
bob_acl = record { default_policy = AclPolicy.allow; allow_rules = []; deny_rules = rule ∷ [] }

abbrev pub bob : User api platform
bob = resolve api platform bob_config (some ops) bob_acl none limits server shell

abbrev pub noon : Moment
noon = record { weekday = Weekday.mon; hour = 12; minute = 0 }

access_hours_iff_example :
    (check_time_access api platform bob noon ≡ true)
    ↔ ((8 * 60 + 0 ≤ now_mins noon) × (now_mins noon < 18 * 60 + 30))
unfolding resolve
access_hours_iff_example =
    access_hours_iff api platform bob noon (codes "UTC") 8 0 18 30 (omega arith) (omega arith)
      (omega arith) (omega arith) refl

from_config_restricts_example :
    (bob.allow_forwarding ≡ true
      → (true ≡ true)
        × (group_value
              (λ g. g.allow_forwarding)
              (group_of api platform (ops ∷ []) (some (codes "ops")))
            ≢ some false))
    × (bob.allow_shell ≡ true
        → (true ≡ true)
          × (group_value
                (λ g. g.allow_shell)
                (group_of api platform (ops ∷ []) (some (codes "ops")))
              ≢ some false))
    × (0 < bob.max_new_connections_per_minute
        → (0 < bob.rate_limits.connections_per_minute)
          × (bob.rate_limits.connections_per_minute ≤ bob.max_new_connections_per_minute))
unfolding from_config s.Acl.Merge.from_config_merged_with_group parse_rules
    s.Acl.Port.parse_port_match s.Acl.Parse.rsplit_once s.Acl.Parse.contains_byte
    s.Common.Decimal.parse_uint s.Common.Decimal.parse_digits s.Common.Text-discrete
    s.Acl.Pattern.to_lower
from_config_restricts_example =
    from_config_restricts api platform bob_config (ops ∷ []) global limits server shell bob refl

global_deny_of_user_example : check api bob.acl (codes "a.org") 25 none ≡ AclPolicy.deny
unfolding from_config s.Acl.Merge.from_config_merged_with_group parse_rules
    s.Acl.Port.parse_port_match s.Acl.Parse.rsplit_once s.Acl.Parse.contains_byte
    s.Common.Decimal.parse_uint s.Common.Decimal.parse_digits s.Common.Text-discrete
    s.Acl.Pattern.to_lower matches s.Acl.Port.port_matches s.Acl.Pattern.hostname_matches
global_deny_of_user_example =
    global_deny_of_user api platform bob_config (ops ∷ []) global limits server shell bob
      (rule ∷ []) (codes "a.org") 25 none refl refl refl refl

abbrev pub verifiers : Verifiers
verifiers = record {
  verify_password = λ p h. true;
  secret_bytes = λ s. some s;
  Validator = Unit;
  new_validator = λ s u. some tt;
  check_current = λ v c t. true;
  Certificate = Unit;
  TrustedCa = Unit;
  verify_certificate = λ c cas u. true;
}

abbrev pub expired_bob : User api platform
expired_bob = record bob { expires_at = some 5 }

abbrev service : AuthService api platform verifiers
service = record { user_store = (codes "bob", expired_bob) ∷ []; trusted_cas = tt ∷ [] }

totp_once_example :
    verify_totp api platform verifiers service
      (verify_totp api platform verifiers service [] (codes "bob") (codes "123456") 100).0
      (codes "bob")
      (codes "123456")
      130
    ≡ ((verify_totp api platform verifiers service [] (codes "bob") (codes "123456") 100).0, false)
unfolding get s.Common.Text-discrete resolve verify_totp s.Auth.Service.accept_code
totp_once_example =
    totp_once api platform verifiers service expired_bob [] (codes "bob") (codes "123456") 100 130
      refl refl refl

abbrev plain_base64 : Base64
plain_base64 = record { encode = λ bs. bs; decode = λ t. some t; decode-encode = λ bs. refl }

abbrev names : List Text
names = codes "a" ∷ codes "b" ∷ codes "c" ∷ []

follow_lem_example : follow plain_base64 (λ t. t) 4 names none 2 ≡ some names
unfolding s.Common.Chars.text_le s.Common.Utf8.is_utf8
follow_lem_example =
    follow_lem plain_base64 (λ t. t) names 2 (omega arith)
      ((refl, (refl, tt)), ((refl, tt), (tt, tt))) (refl, (refl, (refl, tt)))

abbrev pub cal : Calendar
cal = record {
  year_month = λ now. some (2020, 1);
  month_start = λ year month. some 0;
  midnight = λ now. 0;
}

abbrev failures : AlertRule
failures = record {
  name = codes "auth";
  condition = AlertCondition.auth_failures;
  threshold = 0;
  window_secs = 3600;
  users = [];
  webhook_url = some (codes "http://hook");
}

abbrev engine : AlertEngine
engine = record_auth_failure (
    Alerts.new (record { enabled = true; rules = failures ∷ [] }) true
      (Tracker.new
        (record {
          max_bandwidth_mbps = 0;
          max_new_connections_per_second = 0;
          max_new_connections_per_minute = 0;
        })
        (λ place. 0)))

abbrev clocks : Text → Text → ℕ → ℕ
clocks rule_name username place = 1000

evaluate_once_example :
    All
      (λ a.
        (is_fired (alert_key a.rule a.username) engine.fired_alerts ≡ false)
        × (is_fired
              (alert_key a.rule a.username)
              (evaluate cal clocks engine (codes "bob" ∷ [])).0.fired_alerts
            ≡ true))
      (evaluate cal clocks engine (codes "bob" ∷ [])).1
    × ((key : Text)
        → is_fired key engine.fired_alerts ≡ true
        → is_fired key (evaluate cal clocks engine (codes "bob" ∷ [])).0.fired_alerts ≡ true)
evaluate_once_example = evaluate_once cal clocks engine (codes "bob" ∷ [])

read_credentials-encoded_example :
    read_credentials (stream (encoded (codes "bob") (codes "pw") ++ 9 ∷ []) [])
    ≡ done (record { username = codes "bob"; password = codes "pw" }) (stream (9 ∷ []) [])
unfolding s.Common.Utf8.is_utf8
read_credentials-encoded_example =
    read_credentials-encoded (codes "bob") (codes "pw") (9 ∷ []) [] refl refl (omega arith)
      (omega arith)
