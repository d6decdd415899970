-- ===== src/Ssh/Auth.antt =====
-- The methods of `SshHandler` in src/ssh/handler.rs that authenticate a client, with `ClientSession`
-- of src/ssh/session.rs. Logs, audits and metrics are left out; what a call reads off the clock is
-- an input.
pub mod Codes
pub mod Sessions
pub mod Expired
use s.Common.{
  ℕ, ◌+◌, ◌%◌, ◌^◌, ◌≡◌, Bool, true, false, ◌&&◌, Option, none, some, List, [], ◌∷◌, Text, text_key,
  codes, any, ltb, leb, min, max, is_some, if◌then◌else◌,
}
use s.Common.Chars.{same_text, as_bytes, from_utf8_lossy}
use s.Net.{IpAddr}
use s.Security.Manager
use s.Security.Manager.{SecurityManager, Refusal}
use s.Auth.User.{User}
use s.Auth.User.Store.{get}
use s.Auth.Password.{Extracted, extracted, panics, extract_totp_from_password}
use s.Auth.Service
use s.Auth.Service.{AuthService, UsedCodes, verify_totp}
use s.Socks.Handler.{Crates}

-- Whether a refusal names the methods to go on with; a panic ends the task.
pub data Answer : Type 0 where
  accept reject reject_with_methods dies : Answer

module _ (crates : Crates) where
  open crates use {api, gov, rep, platform, verifiers}

  -- The session, and what the tasks of the server share.
  pub record Session : Type 0 where
    pub username : Option Text
    pub authenticated : Bool
    pub auth_method : Text
    pub ssh_key_fingerprint : Option Text
    pub total_auth_attempts : ℕ
    pub security : SecurityManager api gov rep
    pub totp_codes : UsedCodes

  -- The configuration, the users and the client; the fingerprint is of the crates `sha2` and `base64`.
  pub record Settings : Type 0 where
    pub peer : IpAddr
    pub ssh_auth_timeout : ℕ
    pub max_auth_attempts : ℕ
    pub totp_required_for : List Text
    pub auth_service : AuthService api platform verifiers
    pub fingerprint : platform.PublicKey → Text

  -- What a call reads off the clock; `elapsed` is in seconds, and `late` where a part of one is over.
  pub record Times : Type 0 where
    pub elapsed : ℕ
    pub late : Bool
    pub ip_rate_time : ℕ
    pub ban_time : ℕ
    pub auth_time : platform.DateTime
    pub code_time : ℕ
    pub failure_time : ℕ

  -- `elapsed > clamp(10, 600)`, fractions of a second included.
  unfoldable pub is_auth_timed_out : Settings → Times → Session → Bool
  is_auth_timed_out c t s =
      let timeout = min (max c.ssh_auth_timeout 10) 600 in
      if s.authenticated
      then false
      else if t.late
      then leb timeout t.elapsed
      else ltb timeout t.elapsed

  abbrev pub refused_or : Option Refusal → (Session → Answer × Session) → Session → Answer × Session
  refused_or none next s = next s
  refused_or (some reason) next s = (reject, s)

  -- What every method begins with.
  unfoldable pub begin_auth :
      Settings → Times → (Session → Answer × Session) → Session → Answer × Session
  unfolding is_auth_timed_out
  begin_auth c t next s =
      let counted = record s { total_auth_attempts = (s.total_auth_attempts + 1) % 2 ^ 32 } in
      let (refusal, security) =
        Manager.pre_auth_check api gov rep c.peer t.ip_rate_time t.ban_time s.security in
      if is_auth_timed_out c t counted
      then (reject, counted)
      else refused_or refusal next (record counted { security = security })

  unfoldable pub record_auth_failure : Settings → Times → Session → Answer × Session
  record_auth_failure c t s = (
    if leb c.max_auth_attempts s.total_auth_attempts then reject else reject_with_methods,
    record s {
      security = Manager.record_auth_failure api gov rep c.peer t.failure_time s.security;
    },
  )

  abbrev has_totp : Option (User api platform) → Bool
  has_totp none = false
  has_totp (some user) = user.totp_enabled && is_some user.totp_secret

  unfoldable pub needs_code : Settings → Text → Bool
  needs_code c user =
      any (same_text (codes "ssh")) c.totp_required_for
      && has_totp (get api platform c.auth_service.user_store user)

  -- A code that is missing fails.
  unfoldable pub check_code : Settings → Times → Text → Option Text → UsedCodes → UsedCodes × Bool
  unfolding verify_totp
  check_code c t user none used = (used, false)
  check_code c t user (some code) used =
      verify_totp api platform verifiers c.auth_service used user (from_utf8_lossy code) t.code_time

  unfoldable pub right_password : Settings → Times → Text → Text → Bool
  unfolding Service.auth_password
  right_password c t user password =
      Service.auth_password api platform verifiers c.auth_service user password t.auth_time

  unfoldable pub check_extracted :
      Settings → Times → Text → Extracted → UsedCodes → Option (UsedCodes × Bool)
  unfolding check_code right_password
  check_extracted c t user panics used = none
  check_extracted c t user (extracted password code) used = some (
      if right_password c t user (from_utf8_lossy password)
      then check_code c t user code used
      else (used, false))

  -- None where the password cannot be split.
  unfoldable pub check_password :
      Settings → Times → Text → Text → UsedCodes → Option (UsedCodes × Bool)
  unfolding needs_code check_extracted extract_totp_from_password as_bytes right_password
  check_password c t user password used =
      if needs_code c user
      then check_extracted c t user (extract_totp_from_password (as_bytes password)) used
      else some (used, right_password c t user password)

  unfoldable pub password_method : Settings → Text → Text
  unfolding needs_code
  password_method c user = if needs_code c user then codes "password+totp" else codes "password"

  unfoldable pub finish_password :
      Settings → Times → Text → Session → Option (UsedCodes × Bool) → Answer × Session
  unfolding password_method record_auth_failure
  finish_password c t user s none = (dies, s)
  finish_password c t user s (some (used, true)) = (
    accept,
    record s {
      username = some user;
      authenticated = true;
      auth_method = password_method c user;
      totp_codes = used;
    },
  )
  finish_password c t user s (some (used, false)) =
      record_auth_failure c t (record s { totp_codes = used })

  unfoldable pub auth_password : Settings → Times → Text → Text → Session → Answer × Session
  unfolding begin_auth check_password finish_password
  auth_password c t user password =
      begin_auth c t
        (λ s. finish_password c t user s (check_password c t user password s.totp_codes))

  unfoldable pub auth_publickey :
      Settings → Times → Text → platform.PublicKey → Session → Answer × Session
  unfolding begin_auth record_auth_failure
  auth_publickey c t user key = begin_auth c t (λ s.
      if Service.auth_publickey api platform verifiers c.auth_service user key t.auth_time
      then (
        accept,
        record s {
          username = some user;
          authenticated = true;
          auth_method = codes "publickey";
          ssh_key_fingerprint = some (c.fingerprint key);
        },
      )
      else record_auth_failure c t s)

  unfoldable pub auth_none : Settings → Times → Text → Session → Answer × Session
  unfolding begin_auth
  auth_none c t user = begin_auth c t (λ s. (reject_with_methods, s))
