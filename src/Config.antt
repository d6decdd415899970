-- ===== src/Config.antt =====
-- Records of src/config/types.rs that several components read.
pub mod Hours
pub mod Maintenance
use s.Common.{Bool, true, Option, List, ℕ, Text, Dict}
use s.Quota.Tracker.{RateLimitsConfig, QuotaConfig}
use s.Acl.Merge.{UserAclConfig}

pub record ShellPermissions : Type 0 where
  pub show_connections : Bool
  pub show_bandwidth : Bool
  pub show_acl : Bool
  pub show_status : Bool
  pub show_history : Bool
  pub show_fingerprint : Bool
  pub test_command : Bool
  pub ping_command : Bool
  pub resolve_command : Bool
  pub bookmark_command : Bool
  pub alias_command : Bool
  pub show_quota : Bool

-- `Default` of `ShellPermissions`
abbrev pub all_permissions : ShellPermissions
all_permissions = record {
  show_connections = true;
  show_bandwidth = true;
  show_acl = true;
  show_status = true;
  show_history = true;
  show_fingerprint = true;
  test_command = true;
  ping_command = true;
  resolve_command = true;
  bookmark_command = true;
  alias_command = true;
  show_quota = true;
}

pub data UserRole : Type 0 where
  user admin : UserRole

-- Texts are lists of characters here and below, as in Shell.
pub record TimeAccessConfig : Type 0 where
  pub access_hours : Option Text
  pub access_days : List Text
  pub timezone : Text

pub record MotdConfig : Type 0 where
  pub enabled : Bool
  pub template : Option Text
  pub colors : Bool

-- The fields of `LimitsConfig`, `ServerConfig` and `ShellConfig` that users inherit.
pub record UserLimits : Type 0 where
  pub idle_warning_secs : ℕ
  pub max_connections_per_user : ℕ

pub record ServerRetries : Type 0 where
  pub connect_retry : ℕ
  pub connect_retry_delay_ms : ℕ

pub record ShellColors : Type 0 where
  pub colors : Bool

pub record GroupConfig : Type 0 where
  pub name : Text
  pub acl : UserAclConfig
  pub max_connections_per_user : Option ℕ
  pub max_bandwidth_kbps : Option ℕ
  pub max_aggregate_bandwidth_kbps : Option ℕ
  pub max_new_connections_per_minute : Option ℕ
  pub allow_forwarding : Option Bool
  pub allow_shell : Option Bool
  pub shell_permissions : Option ShellPermissions
  pub motd : Option MotdConfig
  pub quotas : Option QuotaConfig
  pub time_access : Option TimeAccessConfig
  pub auth_methods : Option (List Text)
  pub idle_warning_secs : Option ℕ
  pub role : Option UserRole
  pub colors : Option Bool
  pub connect_retry : Option ℕ
  pub connect_retry_delay_ms : Option ℕ
  pub rate_limits : Option RateLimitsConfig

pub record UserConfig (Net : Type 0) : Type 0 where
  pub username : Text
  pub password_hash : Option Text
  pub authorized_keys : List Text
  pub allow_forwarding : Bool
  pub allow_shell : Bool
  pub max_new_connections_per_minute : ℕ
  pub max_bandwidth_kbps : ℕ
  pub source_ips : List Net
  pub expires_at : Option Text
  pub upstream_proxy : Option Text
  pub acl : UserAclConfig
  pub totp_secret : Option Text
  pub totp_enabled : Bool
  pub max_aggregate_bandwidth_kbps : ℕ
  pub group : Option Text
  pub role : UserRole
  pub shell_permissions : Option ShellPermissions
  pub motd : Option MotdConfig
  pub quotas : Option QuotaConfig
  pub time_access : Option TimeAccessConfig
  pub auth_methods : Option (List Text)
  pub idle_warning_secs : Option ℕ
  pub colors : Option Bool
  pub connect_retry : Option ℕ
  pub connect_retry_delay_ms : Option ℕ
  pub aliases : Dict Text Text
  pub max_connections : Option ℕ
  pub rate_limits : Option RateLimitsConfig
