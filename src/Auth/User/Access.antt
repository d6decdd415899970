-- ===== src/Auth/User/Access.antt =====
-- When a user of src/auth/user.rs may log in, and what a group can take away.
use s.Common.{
  ℕ, ◌+◌, ◌*◌, ◌≤◌, ◌<◌, ◌≡◌, ◌≢◌, ◌↔◌, refl, sym, ap, subst, Bool, true, false, ◌||◌, not, List,
  [], Option, none, some, ltb, leb, Text, any, arith,
}
use s.Net.{IpAddr, NetApi}
use s.Acl.{ParsedAcl, AclRule, AclPolicy, matches, check}
use s.Acl.Parse.{Result, parse_rules}
use s.Acl.Merge.{GlobalAclConfig, from_config_merged_with_group, global_deny_holds}
use s.Config.{GroupConfig, UserConfig, UserLimits, ServerRetries, ShellColors}
use s.Config.Hours.{Moment, now_mins, print_range, parse_hour_range-print_range}
use s.Auth.Inheritance.{group_value, restrict, strictest, resolve_rate_limits}
use s.Auth.User.{
  Platform, User, UserResult, ok, err, of_acl, ◌>>=◌, group_of, group_acl, resolve, from_config,
  check_time_access,
}

in_range_iff : (s e now : ℕ) → (not (ltb now s || leb e now) ≡ true) ↔ ((s ≤ now) × (now < e))
in_range_iff s e now = ground arith

strictest-le : (a b : ℕ) → 0 < b → (0 < strictest a b) × (strictest a b ≤ b)
unfolding strictest
strictest-le a b h = ground (arith, h)

pub bind-ok {ℓ κ} :
    {A : Type ℓ} {B : Type κ} (r : UserResult A) (f : A → UserResult B) (b : B)
    → (r >>= f) ≡ ok b
    → (a : A) × (r ≡ ok a) × (f a ≡ ok b)
bind-ok (ok a) f b e = (a, refl, e)
bind-ok (err x) f b e = cc

of_acl-ok {ℓ} : {A : Type ℓ} (r : Result A) (a : A) → of_acl r ≡ ok a → r ≡ Result.ok a
of_acl-ok (Result.ok x) a e = ground (arith, e)
of_acl-ok (Result.err x) a e = cc

ok-injective {ℓ} : {A : Type ℓ} (a b : A) → UserResult.ok a ≡ ok b → a ≡ b
ok-injective a b e = cc

restrict-true :
    (own : Bool) (group : Option Bool)
    → restrict own group ≡ true
    → (own ≡ true) × (group ≢ some false)
unfolding restrict
restrict-true own none h = (h, λ e. cc)
restrict-true true (some true) h = (refl, λ e. cc)
restrict-true true (some false) h = cc
restrict-true false (some g) h = cc

module _ (api : NetApi) (platform : Platform) where
  open api use {Net}
  open platform use {DateTime}

  -- `check_time_access` of a user whose access is bound to a range of hours, written with two digits
  -- for each number, and to no days holds exactly when the time of the day in UTC is not before the
  -- first one and before the second one, whatever the timezone that is configured; so at no time at
  -- all when the second one is not later in the day.
  pub access_hours_iff :
      (u : User api platform) (now : Moment) (zone : Text) (h m h' m' : ℕ)
      → h < 24
      → m < 60
      → h' < 24
      → m' < 60
      → u.time_access
        ≡ some (record {
          access_hours = some (print_range h m h' m');
          access_days = [];
          timezone = zone;
        })
      → (check_time_access api platform u now ≡ true)
        ↔ ((h * 60 + m ≤ now_mins now) × (now_mins now < h' * 60 + m'))
  unfolding check_time_access
  access_hours_iff u now zone h m h' m' p q p' q' e =
      rw (e, parse_hour_range-print_range h m h' m' p q p' q')
        (in_range_iff (h * 60 + m) (h' * 60 + m') (now_mins now))

  -- What a configured user comes from.
  from_config-ok :
      (cfg : UserConfig Net) (groups : List GroupConfig) (global_acl : GlobalAclConfig)
      (limits : UserLimits) (server : ServerRetries) (shell : ShellColors) (u : User api platform)
      → from_config api platform cfg groups global_acl limits server shell ≡ ok u
      → (acl : ParsedAcl Net) × (expires : Option DateTime) × (from_config_merged_with_group api
            global_acl
            (group_acl api platform (group_of api platform groups cfg.group))
            cfg.acl
          ≡ Result.ok acl)
        × (resolve api platform cfg
              (group_of api platform groups cfg.group)
              acl
              expires
              limits
              server
              shell
            ≡ u)
  unfolding from_config
  from_config-ok cfg groups global_acl limits server shell u e =
      let (acl, ea, e1) =
        bind-ok
          (of_acl (
            from_config_merged_with_group api global_acl
              (group_acl api platform (group_of api platform groups cfg.group)) cfg.acl))
          _ u e in
      let (expires, ed, e2) =
        bind-ok _
          (λ x. ok (
            resolve api platform cfg (group_of api platform groups cfg.group) acl x limits server
              shell))
          u e1 in
      (acl, expires, of_acl-ok _ acl ea, ok-injective _ u e2)

  -- A configured user may forward, or use the shell, only when its own configuration says so and its
  -- group does not say otherwise, so a group that says no wins over a user that says yes, against
  -- the order that the documentation gives; and where the user ends up with a limit of new connections per minute, its rate limits hold one that is not above it.
  pub from_config_restricts :
      (cfg : UserConfig Net) (groups : List GroupConfig) (global_acl : GlobalAclConfig)
      (limits : UserLimits) (server : ServerRetries) (shell : ShellColors) (u : User api platform)
      → from_config api platform cfg groups global_acl limits server shell ≡ ok u
      → (u.allow_forwarding ≡ true
          → (cfg.allow_forwarding ≡ true)
            × (group_value (λ g. g.allow_forwarding) (group_of api platform groups cfg.group)
                ≢ some false))
        × (u.allow_shell ≡ true
            → (cfg.allow_shell ≡ true)
              × (group_value (λ g. g.allow_shell) (group_of api platform groups cfg.group)
                  ≢ some false))
        × (0 < u.max_new_connections_per_minute
            → (0 < u.rate_limits.connections_per_minute)
              × (u.rate_limits.connections_per_minute ≤ u.max_new_connections_per_minute))
  unfolding resolve resolve_rate_limits
  from_config_restricts cfg groups global_acl limits server shell u e =
      let (acl, expires, ea, same) = from_config-ok cfg groups global_acl limits server shell u e in
      subst
        (λ v.
          (v.allow_forwarding ≡ true
            → (cfg.allow_forwarding ≡ true)
              × (group_value (λ g. g.allow_forwarding) (group_of api platform groups cfg.group)
                  ≢ some false))
          × (v.allow_shell ≡ true
              → (cfg.allow_shell ≡ true)
                × (group_value (λ g. g.allow_shell) (group_of api platform groups cfg.group)
                    ≢ some false))
          × (0 < v.max_new_connections_per_minute
              → (0 < v.rate_limits.connections_per_minute)
                × (v.rate_limits.connections_per_minute ≤ v.max_new_connections_per_minute)))
        same
        (restrict-true cfg.allow_forwarding _, restrict-true cfg.allow_shell _, strictest-le _ _)

  -- A deny rule of the global configuration denies its targets to every configured user whose
  -- rules inherit, whatever its own rules and those of its group say.
  pub global_deny_of_user :
      (cfg : UserConfig Net) (groups : List GroupConfig) (global_acl : GlobalAclConfig)
      (limits : UserLimits) (server : ServerRetries) (shell : ShellColors) (u : User api platform)
      (global_rules : List (AclRule Net)) (host : Text) (port : ℕ) (ip : Option IpAddr)
      → from_config api platform cfg groups global_acl limits server shell ≡ ok u
      → cfg.acl.inherit ≡ true
      → parse_rules api global_acl.deny_texts ≡ Result.ok global_rules
      → any (λ r. matches api r host port ip) global_rules ≡ true
      → check api u.acl host port ip ≡ AclPolicy.deny
  unfolding resolve
  global_deny_of_user cfg groups global_acl limits server shell u global_rules host port ip e inh g
        h =
      let (acl, expires, ea, same) = from_config-ok cfg groups global_acl limits server shell u e in
      subst (λ v. check api v.acl host port ip ≡ AclPolicy.deny) same
        (global_deny_holds api global_acl
          (group_acl api platform (group_of api platform groups cfg.group)) cfg.acl global_rules acl
          host port ip inh g ea h)

  pub from_config-username :
      (cfg : UserConfig Net) (groups : List GroupConfig) (global_acl : GlobalAclConfig)
      (limits : UserLimits) (server : ServerRetries) (shell : ShellColors) (u : User api platform)
      → from_config api platform cfg groups global_acl limits server shell ≡ ok u
      → u.username ≡ cfg.username
  unfolding resolve
  from_config-username cfg groups global_acl limits server shell u e =
      let (acl, expires, ea, same) = from_config-ok cfg groups global_acl limits server shell u e in
      sym (ap (λ v. v.username) same)
