-- ===== src/Auth/Service/Totp.antt =====
-- Who passes the checks of src/auth/mod.rs, and that a code passes once.
use s.Common.{
  ℕ, ◌+◌, ◌≡◌, refl, inl, inr, Bool, true, false, List, [], ◌∷◌, Option, none, some, if◌then◌else◌,
  Text, text_key, Bool-cases, is_some,
}
use s.Common.Maps.{lookup, contains_key, lookup-insert_self}
use s.Net.{NetApi}
use s.Auth.User.{Platform, User, is_expired}
use s.Auth.User.Store.{get}
use s.Auth.Service.{
  Verifiers, AuthService, UsedCodes, CodeKey, code_key, accept_code, with_validator, with_secret,
  with_totp, certificate_with, verify_totp, auth_password, auth_publickey,
  auth_publickey_certificate, enforce_totp_hard_cap, max_totp_codes,
}

module _ (api : NetApi) (platform : Platform) (verifiers : Verifiers) where
  open platform use {DateTime, PublicKey}
  open verifiers use {TrustedCa, Certificate, Validator, check_current, secret_bytes, new_validator}

  certificate_with-expired :
      (cas : List TrustedCa) (s : AuthService api platform verifiers) (user : User api platform)
      (username : Text) (cert : Certificate) (now : DateTime)
      → is_expired api platform user now ≡ true
      → certificate_with api platform verifiers cas s (some user) username cert now ≡ false
  certificate_with-expired [] s user username cert now e = refl
  certificate_with-expired (ca ∷ cas) s user username cert now e = rw e refl

  -- A known user that has expired passes neither with a password nor with a key nor with a
  -- certificate.
  expired_passes_nothing :
      (s : AuthService api platform verifiers) (user : User api platform) (username password : Text)
      (key : PublicKey) (cert : Certificate) (now : DateTime)
      → get api platform s.user_store username ≡ some user
      → is_expired api platform user now ≡ true
      → (auth_password api platform verifiers s username password now ≡ false)
        × (auth_publickey api platform verifiers s username key now ≡ false)
        × (auth_publickey_certificate api platform verifiers s username cert now ≡ false)
  unfolding auth_password auth_publickey auth_publickey_certificate
  expired_passes_nothing s user username password key cert now g e = (
    rw (g, e) refl,
    rw (g, e) refl,
    rw g (certificate_with-expired s.trusted_cas s user username cert now e),
  )

  -- A code that is accepted is known from then on.
  accept_code_known :
      (used : UsedCodes) (key : CodeKey) (now later : ℕ)
      → (accept_code api platform verifiers used key now).1 ≡ true
      → accept_code api platform verifiers
          (accept_code api platform verifiers used key now).0
          key
          later
        ≡ ((accept_code api platform verifiers used key now).0, false)
  unfolding accept_code contains_key
  accept_code_known used key now later h = elim (Bool-cases (is_some (lookup key used))) [
    | inl old ↦ rw old (rw old refl)
    | inr fresh ↦
        rw
          (fresh, lookup-insert_self key (now + 60) (enforce_totp_hard_cap used max_totp_codes now))
          refl
  ]

  -- What a second presentation of the same code comes to.
  abbrev Once : (UsedCodes → ℕ → UsedCodes × Bool) → UsedCodes → ℕ → ℕ → Type 0
  Once f used now later = (f used now).1 ≡ true → f (f used now).0 later ≡ ((f used now).0, false)

  checked : Bool → UsedCodes → CodeKey → ℕ → UsedCodes × Bool
  checked b used key now =
      if b then accept_code api platform verifiers used key now else (used, false)

  checked_once :
      (first second : Bool) (used : UsedCodes) (key : CodeKey) (now later : ℕ)
      → (checked first used key now).1 ≡ true
      → checked second (checked first used key now).0 key later
        ≡ ((checked first used key now).0, false)
  unfolding checked
  checked_once true true used key now later h = accept_code_known used key now later h
  checked_once true false used key now later h = refl
  checked_once false second used key now later h = cc

  with_validator-Once :
      (v : Option Validator) (used : UsedCodes) (username code : Text) (now later : ℕ)
      → Once (λ u t. with_validator api platform verifiers u v username code t) used now later
  unfolding checked
  with_validator-Once none used username code now later h = cc
  with_validator-Once (some totp) used username code now later h =
      checked_once (check_current totp code now) (check_current totp code later) used
        (username, code) now later h

  with_secret-Once :
      (secret : Option (List ℕ)) (used : UsedCodes) (username code : Text) (now later : ℕ)
      → Once (λ u t. with_secret api platform verifiers u secret username code t) used now later
  with_secret-Once none used username code now later h = cc
  with_secret-Once (some []) used username code now later h = cc
  with_secret-Once (some (b ∷ bs)) used username code now later h =
      with_validator-Once (new_validator (b ∷ bs) username) used username code now later h

  with_totp-Once :
      (secret : Option Text) (used : UsedCodes) (username code : Text) (now later : ℕ)
      → Once (λ u t. with_totp api platform verifiers u secret username code t) used now later
  with_totp-Once none used username code now later h = cc
  with_totp-Once (some secret) used username code now later h =
      with_secret-Once (secret_bytes secret) used username code now later h

  -- A code that was accepted for a user with TOTP is refused when it is presented right again, at
  -- any time, and that refusal changes nothing.
  pub totp_once :
      (s : AuthService api platform verifiers) (user : User api platform) (used : UsedCodes)
      (username code : Text) (now later : ℕ)
      → get api platform s.user_store username ≡ some user
      → user.totp_enabled ≡ true
      → (verify_totp api platform verifiers s used username code now).1 ≡ true
      → verify_totp api platform verifiers s
          (verify_totp api platform verifiers s used username code now).0
          username
          code
          later
        ≡ ((verify_totp api platform verifiers s used username code now).0, false)
  unfolding verify_totp
  totp_once s user used username code now later g e =
      rw (g, e) (with_totp-Once user.totp_secret used username code now later)
