-- ===== src/Auth/Inheritance.antt =====
-- How a value of src/auth/user.rs comes from the user, the group and the defaults.
use s.Common.{ℕ, Bool, ◌&&◌, Option, none, some, ltb, min, if◌then◌else◌, ◌==◌}
use s.Quota.Tracker.{RateLimitsConfig}
use s.Config.{GroupConfig, ShellPermissions, UserRole, all_permissions}

abbrev pub or_else {ℓ} : {A : Type ℓ} → Option A → Option A → Option A
or_else none b = b
or_else (some a) b = some a

abbrev pub unwrap_or {ℓ} : {A : Type ℓ} → Option A → A → A
unwrap_or none d = d
unwrap_or (some a) d = a

abbrev pub group_value {ℓ} : {A : Type ℓ} → (GroupConfig → Option A) → Option GroupConfig → Option A
group_value f none = none
group_value f (some g) = f g

-- `allow_forwarding` and `allow_shell`.
unfoldable pub restrict : Bool → Option Bool → Bool
restrict own none = own
restrict own (some group_val) = own && group_val

-- A limit of 0 is none.
unfoldable pub positive_or : ℕ → Option ℕ → ℕ
positive_or own group = if ltb 0 own then own else unwrap_or group own

unfoldable pub resolve_role : UserRole → Option UserRole → UserRole
resolve_role UserRole.admin group = UserRole.admin
resolve_role UserRole.user group = unwrap_or group UserRole.user

unfoldable pub resolve_shell_permissions :
    Option ShellPermissions → Option ShellPermissions → ShellPermissions
resolve_shell_permissions user group = unwrap_or user (unwrap_or group all_permissions)

-- `Default` of `RateLimitsConfig`.
abbrev no_limits : RateLimitsConfig
no_limits = record {
  connections_per_second = 0;
  connections_per_minute = 0;
  connections_per_hour = 0;
}

-- The stricter of two limits, of which 0 is none.
unfoldable pub strictest : ℕ → ℕ → ℕ
strictest new legacy = if new == 0 then legacy else if legacy == 0 then new else min new legacy

unfoldable pub resolve_rate_limits :
    Option RateLimitsConfig → Option RateLimitsConfig → ℕ → RateLimitsConfig
unfolding strictest
resolve_rate_limits user group legacy_per_minute =
    let base = unwrap_or (or_else user group) no_limits in
    record base { connections_per_minute = strictest base.connections_per_minute legacy_per_minute }
