-- ===== src/Auth/Service.antt =====
-- src/auth/mod.rs: `AuthService` with the codes of TOTP that were used. Hashing, TOTP and
-- certificates are parameters.
pub mod Totp
use s.Common.{
  ℕ, ◌+◌, ◌/◌, ◌≤◌, ◌<◌, ◌≡◌, Bool, true, false, not, ◌&&◌, List, [], ◌∷◌, Option, none, some,
  if◌then◌else◌, Text, text_key, Dict, ltb, leb, length, take, max, any, codes, ℕ_discrete,
  Text-discrete,
}
use s.Common.Maps.{Key, lookup, insert, remove, contains_key, keep_if, retain_entries, filter_map}
use s.Net.{NetApi}
use s.Security.RateLimit.{sort_by_time}
use s.Auth.User.{Platform, User, is_expired}
use s.Auth.User.Store.{Users, get}

abbrev pub max_totp_codes : ℕ
max_totp_codes = 10000

-- A user and a code, with the time until which the code is remembered.
abbrev pub CodeKey : Type 0
CodeKey = Text × Text

unfoldable pub CodeKey-discrete : Discrete CodeKey
unfolding Text-discrete
CodeKey-discrete = hlevel Text-discrete

instance abbrev pub code_key : Key CodeKey
code_key = record { dec = CodeKey-discrete }

abbrev pub UsedCodes : Type 0
UsedCodes = Dict CodeKey ℕ

-- The crates `argon2` and `totp_rs`, and the check of certificates.
pub record Verifiers : Type 1 where
  pub verify_password : Text → Text → Bool
  pub secret_bytes : Text → Option (List ℕ)
  pub Validator : Type 0
  pub new_validator : List ℕ → Text → Option Validator
  pub check_current : Validator → Text → ℕ → Bool
  pub Certificate : Type 0
  pub TrustedCa : Type 0
  pub verify_certificate : Certificate → List TrustedCa → Text → Bool

abbrev pub dummy_hash : Text
dummy_hash =
    codes
      "$argon2id$v=19$m=19456,t=2,p=1$AAAAAAAAAAAAAAAAAAAAAA$AAAAAAAAAAAAAAAAAAAAAAAAAAAAAAAAAAAAAAAAAAA"

unfoldable pub remove_codes : List (CodeKey × ℕ) → UsedCodes → UsedCodes
unfolding remove
remove_codes [] m = m
remove_codes ((k, t) ∷ es) m = remove_codes es (remove k m)

-- First what has expired goes, then a tenth of the codes, the oldest first.
unfoldable pub enforce_totp_hard_cap : UsedCodes → ℕ → ℕ → UsedCodes
unfolding filter_map remove_codes sort_by_time
enforce_totp_hard_cap m max_codes now =
    let kept =
      if leb max_codes (length m) then retain_entries (λ k expiry. ltb now expiry) m else m in
    if leb max_codes (length kept)
    then remove_codes (take (max (max_codes / 10) 1) (sort_by_time kept)) kept
    else kept

module _ (api : NetApi) (platform : Platform) (verifiers : Verifiers) where
  open platform use {DateTime, PublicKey, same_key}
  open verifiers use {
    verify_password, secret_bytes, new_validator, check_current, Certificate, TrustedCa,
    verify_certificate,
  }

  pub record AuthService : Type 0 where
    pub user_store : Users api platform
    pub trusted_cas : List TrustedCa

  abbrev hash_matches : Text → Option Text → Bool
  hash_matches password none = false
  hash_matches password (some hash) = verify_password password hash

  abbrev pub password_of : Option (User api platform) → Text → DateTime → Bool
  password_of none password now = false
  password_of (some user) password now =
      if is_expired api platform user now then false else hash_matches password user.password_hash

  -- Without a user or a hash, the password is checked against a dummy, whose result is dropped.
  unfoldable pub auth_password : AuthService → Text → Text → DateTime → Bool
  auth_password s username password now =
      password_of (get api platform s.user_store username) password now

  -- A code that is valid: refused when it is among the used ones, and noted otherwise.
  unfoldable pub accept_code : UsedCodes → CodeKey → ℕ → UsedCodes × Bool
  unfolding contains_key enforce_totp_hard_cap insert
  accept_code used key now =
      if contains_key key used
      then (used, false)
      else (insert key (now + 60) (enforce_totp_hard_cap used max_totp_codes now), true)

  abbrev pub with_validator :
      UsedCodes → Option verifiers.Validator → Text → Text → ℕ → UsedCodes × Bool
  with_validator used none username code now = (used, false)
  with_validator used (some totp) username code now =
      if check_current totp code now then accept_code used (username, code) now else (used, false)

  -- A secret that is malformed or empty is refused.
  abbrev pub with_secret : UsedCodes → Option (List ℕ) → Text → Text → ℕ → UsedCodes × Bool
  with_secret used none username code now = (used, false)
  with_secret used (some []) username code now = (used, false)
  with_secret used (some (b ∷ bs)) username code now =
      with_validator used (new_validator (b ∷ bs) username) username code now

  abbrev pub with_totp : UsedCodes → Option Text → Text → Text → ℕ → UsedCodes × Bool
  with_totp used none username code now = (used, false)
  with_totp used (some secret) username code now =
      with_secret used (secret_bytes secret) username code now

  abbrev pub totp_of : UsedCodes → Option (User api platform) → Text → Text → ℕ → UsedCodes × Bool
  totp_of used none username code now = (used, false)
  totp_of used (some user) username code now =
      if not user.totp_enabled
      then (used, true)
      else with_totp used user.totp_secret username code now

  unfoldable pub verify_totp : AuthService → UsedCodes → Text → Text → ℕ → UsedCodes × Bool
  verify_totp s used username code now =
      totp_of used (get api platform s.user_store username) username code now

  abbrev pub key_of : Option (User api platform) → PublicKey → DateTime → Bool
  key_of none key now = false
  key_of (some user) key now =
      if is_expired api platform user now
      then false
      else any (same_key key) user.parsed_authorized_keys

  unfoldable pub auth_publickey : AuthService → Text → PublicKey → DateTime → Bool
  auth_publickey s username key now = key_of (get api platform s.user_store username) key now

  abbrev certificate_of :
      AuthService → Option (User api platform) → Text → Certificate → DateTime → Bool
  certificate_of s none username cert now = false
  certificate_of s (some user) username cert now =
      if is_expired api platform user now
      then false
      else verify_certificate cert s.trusted_cas username

  abbrev pub certificate_with :
      List TrustedCa
      → AuthService
      → Option (User api platform)
      → Text
      → Certificate
      → DateTime
      → Bool
  certificate_with [] s user username cert now = false
  certificate_with (ca ∷ cas) s user username cert now = certificate_of s user username cert now

  unfoldable pub auth_publickey_certificate : AuthService → Text → Certificate → DateTime → Bool
  auth_publickey_certificate s username cert now =
      certificate_with s.trusted_cas s (get api platform s.user_store username) username cert now
