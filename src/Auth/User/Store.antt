-- ===== src/Auth/User/Store.antt =====
-- `UserStore` of src/auth/user.rs.
use s.Common.Chars.{same_text, text_le}
use s.Common.{
  ℕ, ◌≡◌, refl, subst, Bool, true, false, List, [], ◌∷◌, Option, none, some, if◌then◌else◌, Text,
  text_key, Dict, length, All, arith, is_some,
}
use s.Common.Maps.{lookup, insert, lookup-insert, lookup-insert_self}
use s.Net.{NetApi}
use s.Acl.Merge.{GlobalAclConfig}
use s.Config.{GroupConfig, UserConfig, UserLimits, ServerRetries, ShellColors}
use s.Auth.User.{Platform, User, UserResult, ok, ◌>>=◌, from_config}
use s.Auth.User.Access.{from_config-username, bind-ok}

unfoldable pub insert_text : Text → List Text → List Text
unfolding text_le
insert_text t [] = t ∷ []
insert_text t (u ∷ us) =
    let rest = insert_text t us in
    if same_text t u then u ∷ us else if text_le t u then t ∷ u ∷ us else u ∷ rest

ok-injective {ℓ} : {A : Type ℓ} (a b : A) → UserResult.ok a ≡ ok b → a ≡ b
ok-injective a b e = cc

module _ (api : NetApi) (platform : Platform) where
  open api use {Net}

  abbrev pub Users : Type 0
  Users = Dict Text (User api platform)

  -- The loop over the configurations, from the users so far.
  unfoldable pub add_users :
      Users
      → List (UserConfig Net)
      → List GroupConfig
      → GlobalAclConfig
      → UserLimits
      → ServerRetries
      → ShellColors
      → UserResult Users
  unfolding insert
  add_users users [] groups global_acl limits server shell = ok users
  add_users users (cfg ∷ cfgs) groups global_acl limits server shell =
      from_config api platform cfg groups global_acl limits server shell
      >>= (λ u. add_users (insert u.username u users) cfgs groups global_acl limits server shell)

  unfoldable pub store_from_config :
      List (UserConfig Net)
      → List GroupConfig
      → GlobalAclConfig
      → UserLimits
      → ServerRetries
      → ShellColors
      → UserResult Users
  unfolding add_users
  store_from_config cfgs groups global_acl limits server shell =
      add_users [] cfgs groups global_acl limits server shell

  unfoldable pub get : Users → Text → Option (User api platform)
  unfolding lookup
  get users username = lookup username users

  unfoldable pub usernames : Users → List Text
  usernames [] = []
  usernames ((name, u) ∷ us) = name ∷ usernames us

  unfoldable pub len : Users → ℕ
  len users = length users

  abbrev add_group : Option Text → List Text → List Text
  add_group none groups = groups
  add_group (some g) groups = insert_text g groups

  -- The names of the groups, each once and in order.
  unfoldable pub group_names : Users → List Text
  unfolding insert_text
  group_names [] = []
  group_names ((name, u) ∷ us) = add_group u.group (group_names us)

  abbrev in_group : Text → Option Text → Bool
  in_group group none = false
  in_group group (some g) = same_text g group

  unfoldable pub users_in_group : Users → Text → List (User api platform)
  users_in_group [] group = []
  users_in_group ((name, u) ∷ us) group =
      let rest = users_in_group us group in if in_group group u.group then u ∷ rest else rest

  -- Each user stands under its own name.
  abbrev pub Named : Users → Type 0
  Named users =
      (name : Text) (u : User api platform) → lookup name users ≡ some u → u.username ≡ name

  insert-Named :
      (users : Users) (u : User api platform) → Named users → Named (insert u.username u users)
  insert-Named users u n name v h =
      ground (arith, lookup-insert u.username name u users, h, n name v)

  abbrev Present : Users → Text → Type 0
  Present users name = is_some (lookup name users) ≡ true

  insert-Present :
      (users : Users) (u : User api platform) (name : Text)
      → Present users name
      → Present (insert u.username u users) name
  insert-Present users u name h = ground (arith, lookup-insert u.username name u users, h)

  add_users_lem :
      (cfgs : List (UserConfig Net)) (users store : Users) (groups : List GroupConfig)
      (global_acl : GlobalAclConfig) (limits : UserLimits) (server : ServerRetries)
      (shell : ShellColors)
      → Named users
      → add_users users cfgs groups global_acl limits server shell ≡ ok store
      → Named store
        × ((name : Text) → Present users name → Present store name)
        × All (λ cfg. Present store cfg.username) cfgs
  unfolding add_users
  add_users_lem [] users store groups global_acl limits server shell n e =
      let same : users ≡ store = ok-injective users store e in
      (subst Named same n, λ name h. subst (λ s. Present s name) same h, tt)
  add_users_lem (cfg ∷ cfgs) users store groups global_acl limits server shell n e =
      let (u, eu, e1) =
        bind-ok (from_config api platform cfg groups global_acl limits server shell) _ store e in
      let (named, kept, rest) =
        add_users_lem cfgs (insert u.username u users) store groups global_acl limits server shell
          (insert-Named users u n) e1 in
      let own : Present (insert u.username u users) u.username =
        rw (lookup-insert_self u.username u users) refl in
      (
        named,
        λ name h. kept name (insert-Present users u name h),
        (
          subst (Present store)
              (from_config-username api platform cfg groups global_acl limits server shell u eu)
              (kept u.username own),
          rest,
        ),
      )

  -- When all configurations are accepted, each user of the store has the name it stands under, and
  -- the store knows the name of each configuration.
  store_from_config_lem :
      (cfgs : List (UserConfig Net)) (store : Users) (groups : List GroupConfig)
      (global_acl : GlobalAclConfig) (limits : UserLimits) (server : ServerRetries)
      (shell : ShellColors)
      → store_from_config cfgs groups global_acl limits server shell ≡ ok store
      → Named store × All (λ cfg. is_some (get store cfg.username) ≡ true) cfgs
  unfolding store_from_config get
  store_from_config_lem cfgs store groups global_acl limits server shell e =
      let (named, kept, rest) =
        add_users_lem cfgs [] store groups global_acl limits server shell (λ name u h. cc) e in
      (named, rest)
