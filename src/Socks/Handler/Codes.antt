-- ===== src/Socks/Handler/Codes.antt =====
-- The codes of TOTP in src/socks/handler.rs.
use s.Common.{◌≡◌, refl, Bool, true, false, none, Text, text_key, [], ◌∷◌, ◌++◌}
use s.Common.Chars.{from_utf8_lossy}
use s.Auth.Password.{extracted, extract_totp_from_password}
use s.Auth.Service.{auth_password}
use s.Socks.Stream.{stream}
use s.Socks.Auth.{send_auth_result}
use s.Socks.Steps.{goes}
use s.Socks.Handler.{
  Crates, World, Inputs, authenticate, check_extracted, check_parts, answer_auth, split_password,
  needs_code,
}

module _ (crates : Crates) where
  open crates use {api, platform, verifiers}

  split_without_code :
      (needed : Bool) (password : Text)
      → extract_totp_from_password password ≡ extracted password none
      → split_password crates needed password ≡ extracted password none
  unfolding split_password
  split_without_code true password h = h
  split_without_code false password h = refl

  -- The right password with no code behind it authenticates, also where the configuration and the
  -- user ask for a code; the answer on the wire is success.
  pub authenticate-without_code :
      (i : Inputs crates) (username password : Text) (w : World crates)
      → extract_totp_from_password password ≡ extracted password none
      → auth_password api platform verifiers i.auth_service username
          (from_utf8_lossy password)
          i.auth_time
        ≡ true
      → authenticate crates i username password w
        ≡ goes tt (record w { io = stream w.io.input (w.io.output ++ 1 ∷ 0 ∷ []) })
  unfolding authenticate check_extracted check_parts answer_auth send_auth_result
  authenticate-without_code i username password w h right =
      rw (split_without_code (needs_code crates i username) password h, right) refl
