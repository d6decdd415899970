-- ===== src/Ssh/Auth/Sessions.antt =====
-- Sessions of src/ssh/handler.rs over any sequence of attempts to authenticate.
use s.Common.{◌≡◌, refl, true, false, Option, none, some, Text, text_key, Bool-cases, inl, inr, []}
use s.Security.Manager.{SecurityManager}
use s.Auth.User.{User}
use s.Auth.User.Store.{get}
use s.Auth.Service
use s.Auth.Service.{UsedCodes}
use s.Socks.Handler.{Crates}
use s.Ssh.Auth.{
  Session, Settings, Times, record_auth_failure, auth_password, auth_publickey, auth_none,
}
use s.Ssh.Auth.Codes.{WellFormed, Known, begin_auth-WellFormed, auth_password-WellFormed}

module _ (crates : Crates) where
  open crates use {api, gov, rep, platform, verifiers}

  key-Known :
      (c : Settings crates) (t : Times crates) (name : Text) (key : platform.PublicKey)
      → Service.auth_publickey api platform verifiers c.auth_service name key t.auth_time ≡ true
      → Known crates c name
  unfolding Service.auth_publickey
  key-Known c t name key h = known_by (get api platform c.auth_service.user_store name) h
    where
      known_by :
          (user : Option (User api platform))
          → Service.key_of api platform verifiers user key t.auth_time ≡ true
          → (u : User api platform) × (user ≡ some u)
      known_by none h = cc
      known_by (some u) h = (u, refl)

  auth_publickey-WellFormed :
      (c : Settings crates) (t : Times crates) (name : Text) (key : platform.PublicKey)
      (s : Session crates)
      → WellFormed crates c s
      → WellFormed crates c (auth_publickey crates c t name key s).1
  unfolding auth_publickey record_auth_failure
  auth_publickey-WellFormed c t name key s w = begin_auth-WellFormed crates c t _ s w (λ s1 w1.
      elim (Bool-cases
        (Service.auth_publickey api platform verifiers c.auth_service name key t.auth_time)) [
          | inl right ↦
              rw right (λ a. let (user, e) = key-Known c t name key right in (name, user, refl, e))
          | inr wrong ↦ rw wrong w1
        ])

  auth_none-WellFormed :
      (c : Settings crates) (t : Times crates) (name : Text) (s : Session crates)
      → WellFormed crates c s
      → WellFormed crates c (auth_none crates c t name s).1
  unfolding auth_none
  auth_none-WellFormed c t name s w = begin_auth-WellFormed crates c t _ s w (λ s1 w1. w1)

  -- `SshHandler::new`, on what the other tasks have left.
  unfoldable pub new : SecurityManager api gov rep → UsedCodes → Session crates
  new security used = record {
    username = none;
    authenticated = false;
    auth_method = [];
    ssh_key_fingerprint = none;
    total_auth_attempts = 0;
    security = security;
    totp_codes = used;
  }

  -- Attempts of one client; between them other tasks change the bans, the limiters and the used
  -- codes. The users and the configuration stay.
  pub data Reachable (c : Settings crates) : Session crates → Type 0 where
    opened : (m : SecurityManager api gov rep) (used : UsedCodes) → Reachable c (new m used)
    password :
        (t : Times crates) (name secret : Text) (s : Session crates)
        → Reachable c s
        → Reachable c (auth_password crates c t name secret s).1
    publickey :
        (t : Times crates) (name : Text) (key : platform.PublicKey) (s : Session crates)
        → Reachable c s
        → Reachable c (auth_publickey crates c t name key s).1
    nothing :
        (t : Times crates) (name : Text) (s : Session crates)
        → Reachable c s
        → Reachable c (auth_none crates c t name s).1
    shared :
        (m : SecurityManager api gov rep) (used : UsedCodes) (s : Session crates)
        → Reachable c s
        → Reachable c (record s { security = m; totp_codes = used })

  Reachable-WellFormed :
      (c : Settings crates) (s : Session crates) → Reachable c s → WellFormed crates c s
  unfolding new
  Reachable-WellFormed c _ (opened m used) = λ a. cc
  Reachable-WellFormed c _ (password t name secret s r) =
      auth_password-WellFormed crates c t name secret s (Reachable-WellFormed c s r)
  Reachable-WellFormed c _ (publickey t name key s r) =
      auth_publickey-WellFormed c t name key s (Reachable-WellFormed c s r)
  Reachable-WellFormed c _ (nothing t name s r) =
      auth_none-WellFormed c t name s (Reachable-WellFormed c s r)
  Reachable-WellFormed c _ (shared m used s r) = Reachable-WellFormed c s r

  -- After any attempts of a client, and whatever other tasks do to the security manager and to the
  -- used codes meanwhile, a session that is authenticated has the name of a user, as long as the
  -- users and the configuration are not reloaded.
  pub authenticated_known :
      (c : Settings crates) (s : Session crates)
      → Reachable c s
      → s.authenticated ≡ true
      → (name : Text) × (user : User api platform) × (s.username ≡ some name)
        × (get api platform c.auth_service.user_store name ≡ some user)
  authenticated_known c s r = Reachable-WellFormed c s r
