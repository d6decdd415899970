-- ===== src/Ssh/Auth/Codes.antt =====
-- Who src/ssh/handler.rs accepts.
use s.Common.{
  ◌+◌, ◌%◌, ◌^◌, ◌≡◌, refl, subst, leb, Bool, true, false, Option, none, some, Text, text_key,
  Bool-cases, inl, inr, if◌then◌else◌,
}
use s.Common.Chars.{as_bytes, from_utf8_lossy}
use s.Security.Manager
use s.Security.Manager.{Refusal}
use s.Auth.User.{User}
use s.Auth.User.Store.{get}
use s.Auth.Password.{Extracted, extracted, panics, extract_totp_from_password}
use s.Auth.Service
use s.Auth.Service.{UsedCodes, verify_totp}
use s.Socks.Handler.{Crates}
use s.Ssh.Auth.{
  Answer, accept, reject, reject_with_methods, Session, Settings, Times, is_auth_timed_out,
  begin_auth, record_auth_failure, needs_code, check_code, refused_or, right_password,
  check_extracted, check_password, finish_password, auth_password,
}

module _ (crates : Crates) where
  open crates use {api, gov, rep, platform, verifiers}

  -- Whoever is authenticated is a user.
  abbrev pub WellFormed : Settings crates → Session crates → Type 0
  WellFormed c s =
      s.authenticated ≡ true
      → (name : Text) × (user : User api platform) × (s.username ≡ some name)
        × (get api platform c.auth_service.user_store name ≡ some user)

  refused_or-WellFormed :
      (c : Settings crates) (r : Option Refusal) (next : Session crates → Answer × Session crates)
      (s : Session crates)
      → WellFormed c s
      → ((s1 : Session crates) → WellFormed c s1 → WellFormed c (next s1).1)
      → WellFormed c (refused_or crates r next s).1
  refused_or-WellFormed c none next s h k = k s h
  refused_or-WellFormed c (some reason) next s h k = h

  pub begin_auth-WellFormed :
      (c : Settings crates) (t : Times crates) (next : Session crates → Answer × Session crates)
      (s : Session crates)
      → WellFormed c s
      → ((s1 : Session crates) → WellFormed c s1 → WellFormed c (next s1).1)
      → WellFormed c (begin_auth crates c t next s).1
  unfolding begin_auth
  begin_auth-WellFormed c t next s h k =
      let counted = record s { total_auth_attempts = (s.total_auth_attempts + 1) % 2 ^ 32 } in
      elim (Bool-cases (is_auth_timed_out crates c t counted)) [
        | inl late ↦ rw late h
        | inr early ↦ rw early (refused_or-WellFormed c _ next _ h k)
      ]

  right_password-known :
      (c : Settings crates) (t : Times crates) (name password : Text)
      → right_password crates c t name password ≡ true
      → (user : User api platform) × (get api platform c.auth_service.user_store name ≡ some user)
  unfolding right_password Service.auth_password
  right_password-known c t name password h =
      known_by (get api platform c.auth_service.user_store name) h
    where
      known_by :
          (user : Option (User api platform))
          → Service.password_of api platform verifiers user password t.auth_time ≡ true
          → (u : User api platform) × (user ≡ some u)
      known_by none h = cc
      known_by (some u) h = (u, refl)

  abbrev pub passes : Option (UsedCodes × Bool) → Bool
  passes none = false
  passes (some (used, b)) = b

  passed :
      (b : Bool) (r : UsedCodes × Bool) (used : UsedCodes)
      → passes (some (if b then r else (used, false))) ≡ true
      → (b ≡ true) × (r.1 ≡ true)
  passed true r used h = (refl, h)
  passed false r used h = cc

  -- The password and the code were there, and both are right.
  abbrev pub CodeGiven : Settings crates → Times crates → Text → Extracted → UsedCodes → Type 0
  CodeGiven c t name e used =
      (password : Text) × (code : Text) × (e ≡ extracted password (some code))
      × (right_password crates c t name (from_utf8_lossy password) ≡ true)
      × ((verify_totp api platform verifiers c.auth_service used name (from_utf8_lossy code)
            t.code_time).1
          ≡ true)

  check_extracted-CodeGiven :
      (c : Settings crates) (t : Times crates) (name : Text) (e : Extracted) (used : UsedCodes)
      → passes (check_extracted crates c t name e used) ≡ true
      → CodeGiven c t name e used
  unfolding check_extracted check_code
  check_extracted-CodeGiven c t name panics used h = cc
  check_extracted-CodeGiven c t name (extracted p none) used h =
      let (right, wrong) =
        passed (right_password crates c t name (from_utf8_lossy p)) (used, false) used h in
      cc
  check_extracted-CodeGiven c t name (extracted p (some code)) used h =
      let (right, verified) =
        passed (right_password crates c t name (from_utf8_lossy p)) _ used h in
      (p, code, refl, right, verified)

  pub begin_auth-accept :
      (c : Settings crates) (t : Times crates) (next : Session crates → Answer × Session crates)
      (s : Session crates)
      → (begin_auth crates c t next s).0 ≡ accept
      → (s1 : Session crates) × ((next s1).0 ≡ accept) × (s1.totp_codes ≡ s.totp_codes)
  unfolding begin_auth
  begin_auth-accept c t next s h =
      let counted = record s { total_auth_attempts = (s.total_auth_attempts + 1) % 2 ^ 32 } in
      let (refusal, security) =
        Manager.pre_auth_check api gov rep c.peer t.ip_rate_time t.ban_time s.security in
      in_time (is_auth_timed_out crates c t counted) counted refusal
        (record counted { security = security }) refl h
    where
      in_time :
          (late : Bool) (counted : Session crates) (r : Option Refusal) (s1 : Session crates)
          → s1.totp_codes ≡ s.totp_codes
          → (if late then (reject, counted) else refused_or crates r next s1).0 ≡ accept
          → (s1 : Session crates) × ((next s1).0 ≡ accept) × (s1.totp_codes ≡ s.totp_codes)
      in_time true counted r s1 e h = cc
      in_time false counted none s1 e h = (s1, h, e)
      in_time false counted (some r) s1 e h = cc

  pub finish_password-accept :
      (c : Settings crates) (t : Times crates) (name : Text) (s : Session crates)
      (r : Option (UsedCodes × Bool))
      → (finish_password crates c t name s r).0 ≡ accept
      → passes r ≡ true
  unfolding finish_password record_auth_failure
  finish_password-accept c t name s none h = cc
  finish_password-accept c t name s (some (used, true)) h = refl
  finish_password-accept c t name s (some (used, false)) h =
      refusal (leb c.max_auth_attempts s.total_auth_attempts) h
    where
      refusal : (b : Bool) → (if b then reject else reject_with_methods) ≡ accept → false ≡ true
      refusal true h = cc
      refusal false h = cc

  check_password-needed :
      (c : Settings crates) (t : Times crates) (name password : Text) (used : UsedCodes)
      → needs_code crates c name ≡ true
      → check_password crates c t name password used
        ≡ check_extracted crates c t name (extract_totp_from_password (as_bytes password)) used
  unfolding check_password
  check_password-needed c t name password used n = rw n refl

  check_password-free :
      (c : Settings crates) (t : Times crates) (name password : Text) (used : UsedCodes)
      → needs_code crates c name ≡ false
      → check_password crates c t name password used
        ≡ some (used, right_password crates c t name password)
  unfolding check_password
  check_password-free c t name password used n = rw n refl

  -- A user that needs a code over SSH is accepted by password only with a code that is right.
  pub auth_password-CodeGiven :
      (c : Settings crates) (t : Times crates) (name password : Text) (s : Session crates)
      → needs_code crates c name ≡ true
      → (auth_password crates c t name password s).0 ≡ accept
      → CodeGiven c t name (extract_totp_from_password (as_bytes password)) s.totp_codes
  unfolding auth_password
  auth_password-CodeGiven c t name password s n h =
      let (s1, accepted, same) = begin_auth-accept c t _ s h in
      subst (CodeGiven c t name (extract_totp_from_password (as_bytes password))) same (
        check_extracted-CodeGiven c t name _ s1.totp_codes (
          subst (λ r. passes r ≡ true) (check_password-needed c t name password s1.totp_codes n)
            (finish_password-accept c t name s1 _ accepted)))

  -- A user of that name.
  abbrev pub Known : Settings crates → Text → Type 0
  Known c name =
      (user : User api platform) × (get api platform c.auth_service.user_store name ≡ some user)

  -- Whatever the password was split into, it is right.
  pub check_password-right :
      (c : Settings crates) (t : Times crates) (name password : Text) (used : UsedCodes)
      → passes (check_password crates c t name password used) ≡ true
      → (right : Text) × (right_password crates c t name right ≡ true)
  check_password-right c t name password used h = elim (Bool-cases (needs_code crates c name)) [
    | inl n ↦
        let (p, code, e, right, verified) =
          check_extracted-CodeGiven c t name _ used
            (subst (λ r. passes r ≡ true) (check_password-needed c t name password used n) h) in
        (from_utf8_lossy p, right)
    | inr f ↦
        (password, subst (λ r. passes r ≡ true) (check_password-free c t name password used f) h)
  ]

  check_password-Known :
      (c : Settings crates) (t : Times crates) (name password : Text) (used : UsedCodes)
      → passes (check_password crates c t name password used) ≡ true
      → Known c name
  check_password-Known c t name password used h =
      let (p, right) = check_password-right c t name password used h in
      right_password-known c t name p right

  finish_password-WellFormed :
      (c : Settings crates) (t : Times crates) (name : Text) (s : Session crates)
      (r : Option (UsedCodes × Bool))
      → WellFormed c s
      → (passes r ≡ true → Known c name)
      → WellFormed c (finish_password crates c t name s r).1
  unfolding finish_password record_auth_failure
  finish_password-WellFormed c t name s none w k = w
  finish_password-WellFormed c t name s (some (used, true)) w k =
      λ a. let (user, e) = k refl in (name, user, refl, e)
  finish_password-WellFormed c t name s (some (used, false)) w k = w

  pub auth_password-WellFormed :
      (c : Settings crates) (t : Times crates) (name password : Text) (s : Session crates)
      → WellFormed c s
      → WellFormed c (auth_password crates c t name password s).1
  unfolding auth_password
  auth_password-WellFormed c t name password s w = begin_auth-WellFormed c t _ s w (λ s1 w1.
      finish_password-WellFormed c t name s1 _ w1
        (check_password-Known c t name password s1.totp_codes))
