-- ===== src/Acl/Merge.antt =====
-- Global, group and user rules of src/config/acl.rs.
use s.Common.{
  ◌≡◌, refl, ℕ, Bool, true, false, List, [], ◌∷◌, ◌++◌, Option, none, some, arith, any,
  if◌then◌else◌, Text, ◌||◌, inl,
}
use s.Net.{IpAddr, NetApi}
use s.Acl.{AclRule, ParsedAcl, AclPolicy, matches, check}
use s.Acl.Parse.{Result, ok, err, ◌>>=◌, parse_rules}
use s.Acl.Decisions.{check-eq-deny_iff}

-- `AclPolicyConfig` of src/config/types.rs
pub data AclPolicyConfig : Type 0 where
  allow deny : AclPolicyConfig

pub record GlobalAclConfig : Type 0 where
  pub default_policy : AclPolicyConfig
  pub allow_texts : List Text
  pub deny_texts : List Text

pub record UserAclConfig : Type 0 where
  pub default_policy : Option AclPolicyConfig
  pub allow_texts : List Text
  pub deny_texts : List Text
  pub inherit : Bool

unfoldable pub to_policy : AclPolicyConfig → AclPolicy
to_policy AclPolicyConfig.allow = AclPolicy.allow
to_policy AclPolicyConfig.deny = AclPolicy.deny

abbrev or_else {ℓ} : {A : Type ℓ} → Option A → Option A → Option A
or_else none b = b
or_else (some a) b = some a

abbrev unwrap_or {ℓ} : {A : Type ℓ} → Option A → A → A
unwrap_or none d = d
unwrap_or (some a) d = a

abbrev policy_of : Option UserAclConfig → Option AclPolicyConfig
policy_of none = none
policy_of (some g) = g.default_policy

abbrev texts_of : (UserAclConfig → List Text) → Option UserAclConfig → List Text
texts_of f none = []
texts_of f (some g) = f g

module _ (api : NetApi) where
  open api use {Net}

  unfoldable pub from_config : AclPolicyConfig → List Text → List Text → Result (ParsedAcl Net)
  from_config policy allow_texts deny_texts = do
    allow_rules ← parse_rules api allow_texts
    deny_rules ← parse_rules api deny_texts
    ok (record {
      default_policy = to_policy policy;
      allow_rules = allow_rules;
      deny_rules = deny_rules;
    })

  -- Global, group and user rules one behind the other; without a group nothing stands between.
  unfoldable pub merge_rules : List Text → List Text → List Text → Result (List (AclRule Net))
  merge_rules globals groups users = do
    global_rules ← parse_rules api globals
    group_rules ← parse_rules api groups
    user_rules ← parse_rules api users
    ok ((global_rules ++ group_rules) ++ user_rules)

  unfoldable pub from_config_merged_with_group :
      GlobalAclConfig → Option UserAclConfig → UserAclConfig → Result (ParsedAcl Net)
  unfolding from_config merge_rules to_policy
  from_config_merged_with_group global group user =
      if user.inherit
      then (do
        deny_rules ←
            merge_rules global.deny_texts (texts_of (λ g. g.deny_texts) group) user.deny_texts
        allow_rules ←
            merge_rules global.allow_texts (texts_of (λ g. g.allow_texts) group) user.allow_texts
        ok (record {
          default_policy =
              to_policy
                (unwrap_or (or_else user.default_policy (policy_of group)) global.default_policy);
          allow_rules = allow_rules;
          deny_rules = deny_rules;
        }))
      else from_config (unwrap_or user.default_policy AclPolicyConfig.allow) user.allow_texts
          user.deny_texts

  unfoldable pub from_config_merged : GlobalAclConfig → UserAclConfig → Result (ParsedAcl Net)
  unfolding from_config_merged_with_group
  from_config_merged global user = from_config_merged_with_group global none user

  -- A user that does not inherit is judged by its own configuration alone.
  not_inherited :
      (global global' : GlobalAclConfig) (group group' : Option UserAclConfig)
      (user : UserAclConfig)
      → user.inherit ≡ false
      → from_config_merged_with_group global group user
        ≡ from_config_merged_with_group global' group' user
  unfolding from_config_merged_with_group
  not_inherited global global' group group' user e = rw e

any-append {ℓ} :
    {A : Type ℓ} (p : A → Bool) (xs ys : List A) → any p (xs ++ ys) ≡ (any p xs || any p ys)
any-append p [] ys = refl
any-append p (x ∷ xs) ys = ground (arith, any-append p xs ys)

bind-ok {ℓ κ} :
    {A : Type ℓ} {B : Type κ} (r : Result A) (f : A → Result B) (b : B)
    → (r >>= f) ≡ ok b
    → (a : A) × (r ≡ ok a) × (f a ≡ ok b)
bind-ok (ok a) f b e = (a, refl, e)
bind-ok (err x) f b e = cc

module _ (api : NetApi) where
  merged_denies :
      (globals groups users : List Text) (global_rules merged : List (AclRule api.Net))
      (p : AclRule api.Net → Bool)
      → merge_rules api globals groups users ≡ ok merged
      → parse_rules api globals ≡ ok global_rules
      → any p global_rules ≡ true
      → any p merged ≡ true
  unfolding merge_rules
  merged_denies globals groups users global_rules merged p e g h =
      let (gs, eg, e1) =
        bind-ok (parse_rules api globals)
          (λ global_rules. do
            group_rules ← parse_rules api groups
            user_rules ← parse_rules api users
            ok ((global_rules ++ group_rules) ++ user_rules))
          merged e in
      let (rs, er, e2) =
        bind-ok (parse_rules api groups)
          (λ group_rules. do
            user_rules ← parse_rules api users
            ok ((gs ++ group_rules) ++ user_rules))
          merged e1 in
      let (us, eu, e3) =
        bind-ok (parse_rules api users) (λ user_rules. ok ((gs ++ rs) ++ user_rules)) merged e2 in
      ground (arith, any-append p (gs ++ rs) us, any-append p gs rs)

  deny_rules_merged :
      (global : GlobalAclConfig) (group : Option UserAclConfig) (user : UserAclConfig)
      (acl : ParsedAcl api.Net)
      → user.inherit ≡ true
      → from_config_merged_with_group api global group user ≡ ok acl
      → merge_rules api global.deny_texts (texts_of (λ g. g.deny_texts) group) user.deny_texts
        ≡ ok acl.deny_rules
  unfolding from_config_merged_with_group
  deny_rules_merged global group user acl inh e =
      let policy : AclPolicyConfig =
        unwrap_or (or_else user.default_policy (policy_of group)) global.default_policy in
      let allowed =
        merge_rules api global.allow_texts (texts_of (λ g. g.allow_texts) group) user.allow_texts in
      let built : List (AclRule api.Net) → List (AclRule api.Net) → ParsedAcl api.Net =
        λ ds rs. record { default_policy = to_policy policy; allow_rules = rs; deny_rules = ds } in
      let (ds, ed, e1) =
        bind-ok
          (merge_rules api global.deny_texts (texts_of (λ g. g.deny_texts) group) user.deny_texts)
          (λ ds. allowed >>= (λ rs. ok (built ds rs))) acl (ground (arith, e, inh)) in
      let (rs, ea, e2) = bind-ok allowed (λ rs. ok (built ds rs)) acl e1 in ground (arith, ed, e2)

  -- What the global configuration denies stays denied for each user that inherits, whatever the
  -- group and the user allow.
  pub global_deny_holds :
      (global : GlobalAclConfig) (group : Option UserAclConfig) (user : UserAclConfig)
      (global_rules : List (AclRule api.Net)) (acl : ParsedAcl api.Net) (host : Text) (port : ℕ)
      (ip : Option IpAddr)
      → user.inherit ≡ true
      → parse_rules api global.deny_texts ≡ ok global_rules
      → from_config_merged_with_group api global group user ≡ ok acl
      → any (λ r. matches api r host port ip) global_rules ≡ true
      → check api acl host port ip ≡ AclPolicy.deny
  unfolding from_config_merged_with_group
  global_deny_holds global group user global_rules acl host port ip inh g e h =
      let merged : any (λ r. matches api r host port ip) acl.deny_rules ≡ true =
        merged_denies global.deny_texts (texts_of (λ g. g.deny_texts) group) user.deny_texts
          global_rules acl.deny_rules (λ r. matches api r host port ip)
          (deny_rules_merged global group user acl inh e) g h in
      (check-eq-deny_iff api acl host port ip).1 (inl merged)
