-- ===== src/Auth/User.antt =====
-- src/auth/user.rs: `User` and `UserStore`. Dates and keys are parameters.
pub mod Access
pub mod Store
use s.Common.Chars.{same_text}
use s.Common.{
  ℕ, ◌≤◌, ◌<◌, ◌≡◌, ◌↔◌, Bool, true, false, ◌&&◌, ◌||◌, not, List, [], ◌∷◌, ◌++◌, Option, none,
  some, ltb, leb, ◌==◌, min, if◌then◌else◌, Text, text_key, Dict, any, retain, codes,
}
use s.Common.Maps.{Key, lookup, insert}
use s.Net.{IpAddr, NetApi, normalize_ip}
use s.Acl.{ParsedAcl}
use s.Acl.Parse.{Result, AclError}
use s.Acl.Merge.{GlobalAclConfig, UserAclConfig, from_config_merged_with_group}
use s.Acl.Pattern.{eq_ignore_ascii_case}
use s.Quota.Tracker.{RateLimitsConfig, QuotaConfig}
use s.Config.{
  ShellPermissions, UserRole, TimeAccessConfig, MotdConfig, UserLimits, ServerRetries, ShellColors,
  GroupConfig, UserConfig,
}
use s.Config.Hours.{Moment, weekday_name, now_mins, parse_hour_range}
use s.Auth.Inheritance.{
  or_else, unwrap_or, restrict, positive_or, resolve_role, resolve_shell_permissions,
  resolve_rate_limits, group_value,
}

-- The dates of the crate `chrono` and the keys of the crate `russh`.
pub record Platform : Type 1 where
  pub DateTime : Type 0
  pub parse_date : Text → Option DateTime
  pub is_after : DateTime → DateTime → Bool
  pub PublicKey : Type 0
  pub parse_key : Text → Option PublicKey
  pub same_key : PublicKey → PublicKey → Bool

pub data UserError : Type 0 where
  bad_acl : AclError → UserError
  invalid_expires_at : Text → UserError

pub data UserResult {ℓ} (A : Type ℓ) : Type ℓ where
  ok : A → UserResult A
  err : UserError → UserResult A

infixl 5 ◌>>=◌
abbrev pub ◌>>=◌ {ℓ κ} :
    {A : Type ℓ} {B : Type κ} → UserResult A → (A → UserResult B) → UserResult B
ok a >>= f = f a
err e >>= f = err e

-- `?` on the result of the rules.
abbrev pub of_acl {ℓ} : {A : Type ℓ} → Result A → UserResult A
of_acl (Result.ok a) = ok a
of_acl (Result.err e) = err (bad_acl e)

module _ (api : NetApi) (platform : Platform) where
  open api use {Net, contains}
  open platform use {DateTime, parse_date, is_after, PublicKey, parse_key}

  pub record User : Type 0 where
    pub username : Text
    pub password_hash : Option Text
    pub authorized_keys : List Text
    pub parsed_authorized_keys : List PublicKey
    pub allow_forwarding : Bool
    pub allow_shell : Bool
    pub max_new_connections_per_minute : ℕ
    pub max_bandwidth_kbps : ℕ
    pub source_ips : List Net
    pub expires_at : Option DateTime
    pub upstream_proxy : Option Text
    pub acl : ParsedAcl Net
    pub totp_enabled : Bool
    pub totp_secret : Option Text
    pub max_aggregate_bandwidth_kbps : ℕ
    pub group : Option Text
    pub role : UserRole
    pub shell_permissions : ShellPermissions
    pub motd_config : Option MotdConfig
    pub quotas : Option QuotaConfig
    pub time_access : Option TimeAccessConfig
    pub auth_methods : Option (List Text)
    pub idle_warning_secs : ℕ
    pub colors : Bool
    pub connect_retry : ℕ
    pub connect_retry_delay_ms : ℕ
    pub aliases : Dict Text Text
    pub max_connections : ℕ
    pub rate_limits : RateLimitsConfig

  abbrev push_key : Option PublicKey → List PublicKey → List PublicKey
  push_key none keys = keys
  push_key (some k) keys = k ∷ keys

  -- Lines that are no key are skipped.
  unfoldable pub parse_authorized_keys : List Text → List PublicKey
  parse_authorized_keys [] = []
  parse_authorized_keys (l ∷ ls) = push_key (parse_key l) (parse_authorized_keys ls)

  unfoldable pub find_group : List GroupConfig → Text → Option GroupConfig
  find_group [] name = none
  find_group (g ∷ gs) name =
      let rest = find_group gs name in if same_text g.name name then some g else rest

  abbrev pub group_of : List GroupConfig → Option Text → Option GroupConfig
  group_of groups none = none
  group_of groups (some name) = find_group groups name

  abbrev pub group_acl : Option GroupConfig → Option UserAclConfig
  group_acl none = none
  group_acl (some g) = some g.acl

  abbrev expiry_of : Text → Option DateTime → UserResult (Option DateTime)
  expiry_of username none = err (invalid_expires_at username)
  expiry_of username (some d) = ok (some d)

  abbrev parse_expiry : Text → Option Text → UserResult (Option DateTime)
  parse_expiry username none = ok none
  parse_expiry username (some s) = expiry_of username (parse_date s)

  -- The user's own values, those of the group, and the defaults, field by field.
  unfoldable pub resolve :
      UserConfig Net
      → Option GroupConfig
      → ParsedAcl Net
      → Option DateTime
      → UserLimits
      → ServerRetries
      → ShellColors
      → User
  unfolding parse_authorized_keys
  resolve cfg group acl expires_at limits server shell =
      let per_minute =
        positive_or cfg.max_new_connections_per_minute
          (group_value (λ g. g.max_new_connections_per_minute) group) in
      record {
        username = cfg.username;
        password_hash = cfg.password_hash;
        authorized_keys = cfg.authorized_keys;
        parsed_authorized_keys = parse_authorized_keys cfg.authorized_keys;
        allow_forwarding =
            restrict cfg.allow_forwarding (group_value (λ g. g.allow_forwarding) group);
        allow_shell = restrict cfg.allow_shell (group_value (λ g. g.allow_shell) group);
        max_new_connections_per_minute = per_minute;
        max_bandwidth_kbps =
            positive_or cfg.max_bandwidth_kbps (group_value (λ g. g.max_bandwidth_kbps) group);
        source_ips = cfg.source_ips;
        expires_at = expires_at;
        upstream_proxy = cfg.upstream_proxy;
        acl = acl;
        totp_enabled = cfg.totp_enabled;
        totp_secret = cfg.totp_secret;
        max_aggregate_bandwidth_kbps =
            positive_or cfg.max_aggregate_bandwidth_kbps
              (group_value (λ g. g.max_aggregate_bandwidth_kbps) group);
        group = cfg.group;
        role = resolve_role cfg.role (group_value (λ g. g.role) group);
        shell_permissions =
            resolve_shell_permissions cfg.shell_permissions
              (group_value (λ g. g.shell_permissions) group);
        motd_config = or_else cfg.motd (group_value (λ g. g.motd) group);
        quotas = or_else cfg.quotas (group_value (λ g. g.quotas) group);
        time_access = or_else cfg.time_access (group_value (λ g. g.time_access) group);
        auth_methods = or_else cfg.auth_methods (group_value (λ g. g.auth_methods) group);
        idle_warning_secs =
            unwrap_or (or_else cfg.idle_warning_secs (group_value (λ g. g.idle_warning_secs) group))
              limits.idle_warning_secs;
        colors = unwrap_or (or_else cfg.colors (group_value (λ g. g.colors) group)) shell.colors;
        connect_retry =
            unwrap_or (or_else cfg.connect_retry (group_value (λ g. g.connect_retry) group))
              server.connect_retry;
        connect_retry_delay_ms =
            unwrap_or
              (or_else cfg.connect_retry_delay_ms
                (group_value (λ g. g.connect_retry_delay_ms) group))
              server.connect_retry_delay_ms;
        aliases = cfg.aliases;
        max_connections =
            unwrap_or
              (or_else cfg.max_connections (group_value (λ g. g.max_connections_per_user) group))
              limits.max_connections_per_user;
        rate_limits =
            resolve_rate_limits cfg.rate_limits (group_value (λ g. g.rate_limits) group) per_minute;
      }

  unfoldable pub from_config :
      UserConfig Net
      → List GroupConfig
      → GlobalAclConfig
      → UserLimits
      → ServerRetries
      → ShellColors
      → UserResult User
  unfolding find_group
  from_config cfg groups global_acl limits server shell = do
    acl ← of_acl (
        from_config_merged_with_group api global_acl (group_acl (group_of groups cfg.group))
          cfg.acl)
    expires_at ← parse_expiry cfg.username cfg.expires_at
    ok (resolve cfg (group_of groups cfg.group) acl expires_at limits server shell)

  abbrev passed : Option DateTime → DateTime → Bool
  passed none now = false
  passed (some exp) now = is_after now exp

  unfoldable pub is_expired : User → DateTime → Bool
  is_expired u now = passed u.expires_at now

  unfoldable pub is_source_ip_allowed : User → IpAddr → Bool
  unfolding normalize_ip
  is_source_ip_allowed u ip = elim u.source_ips [
    | [] ↦ true
    | network ∷ networks ↦ any (λ n. contains n (normalize_ip ip)) (network ∷ networks)
  ]

  abbrev on_day : List Text → Moment → Bool
  on_day [] now = true
  on_day (d ∷ days) now =
      any (λ day. eq_ignore_ascii_case day (weekday_name now.weekday)) (d ∷ days)

  -- A range that cannot be read does not restrict.
  abbrev in_range : Option (ℕ × ℕ) → ℕ → Bool
  in_range none now = true
  in_range (some (start, end)) now = not (ltb now start || leb end now)

  abbrev in_hours : Option Text → ℕ → Bool
  in_hours none now = true
  in_hours (some hours) now = in_range (parse_hour_range hours) now

  abbrev pub access_at : Option TimeAccessConfig → Moment → Bool
  access_at none now = true
  access_at (some ta) now =
      if on_day ta.access_days now then in_hours ta.access_hours (now_mins now) else false

  unfoldable pub check_time_access : User → Moment → Bool
  unfolding parse_hour_range eq_ignore_ascii_case weekday_name
  check_time_access u now = access_at u.time_access now
