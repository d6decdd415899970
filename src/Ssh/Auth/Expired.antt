-- ===== src/Ssh/Auth/Expired.antt =====
-- Users that have expired, before src/ssh/handler.rs.
use s.Common.{◌≡◌, ◌≢◌, refl, Bool, true, false, some, Text, text_key, if◌then◌else◌, arith, leb}
use s.Auth.User.{User, is_expired}
use s.Auth.User.Store.{get}
use s.Auth.Service
use s.Socks.Handler.{Crates}
use s.Ssh.Auth.{
  accept, reject, reject_with_methods, Session, Settings, Times, right_password,
  record_auth_failure, auth_password, auth_publickey,
}
use s.Ssh.Auth.Codes.{begin_auth-accept, finish_password-accept, check_password-right}

module _ (crates : Crates) where
  open crates use {api, platform, verifiers}

  expired_password :
      (c : Settings crates) (t : Times crates) (name password : Text) (user : User api platform)
      → get api platform c.auth_service.user_store name ≡ some user
      → is_expired api platform user t.auth_time ≡ true
      → right_password crates c t name password ≡ false
  unfolding right_password Service.auth_password
  expired_password c t name password user g e = rw (g, e) refl

  expired_key :
      (c : Settings crates) (t : Times crates) (name : Text) (key : platform.PublicKey)
      (user : User api platform)
      → get api platform c.auth_service.user_store name ≡ some user
      → is_expired api platform user t.auth_time ≡ true
      → Service.auth_publickey api platform verifiers c.auth_service name key t.auth_time ≡ false
  unfolding Service.auth_publickey
  expired_key c t name key user g e = rw (g, e) refl

  refused_key :
      (c : Settings crates) (t : Times crates) (b : Bool) (s s1 : Session crates)
      → (if b then (accept, s1) else record_auth_failure crates c t s).0 ≡ accept
      → b ≡ true
  unfolding record_auth_failure
  refused_key c t true s s1 h = refl
  refused_key c t false s s1 h = refusal (leb c.max_auth_attempts s.total_auth_attempts) h
    where
      refusal : (b : Bool) → (if b then reject else reject_with_methods) ≡ accept → false ≡ true
      refusal true h = cc
      refusal false h = cc

  -- Over SSH a user that has expired is accepted neither by password, with or without a code, nor by
  -- public key, in whatever state the session is.
  pub expired_refused :
      (c : Settings crates) (t : Times crates) (name password : Text) (key : platform.PublicKey)
      (s : Session crates) (user : User api platform)
      → get api platform c.auth_service.user_store name ≡ some user
      → is_expired api platform user t.auth_time ≡ true
      → ((auth_password crates c t name password s).0 ≢ accept)
        × ((auth_publickey crates c t name key s).0 ≢ accept)
  unfolding auth_password auth_publickey
  expired_refused c t name password key s user g e = (
    λ h.
        let (s1, accepted, same) = begin_auth-accept crates c t _ s h in
        let (p, right) =
          check_password-right crates c t name password s1.totp_codes
            (finish_password-accept crates c t name s1 _ accepted) in
        ground (arith, right, expired_password c t name p user g e),
    λ h.
        let (s1, accepted, same) = begin_auth-accept crates c t _ s h in
        ground (arith, refused_key c t _ _ _ accepted, expired_key c t name key user g e),
  )
