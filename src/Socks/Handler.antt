-- ===== src/Socks/Handler.antt =====
-- `socks5_handshake` of src/socks/handler.rs: the security manager, the service that authenticates,
-- the quotas and the proxy engine in the order in which a connection meets them. Locks, logs, audits
-- and metrics are left out; what the network answers and what the clocks read are inputs.
pub mod Relay
pub mod Keeps
pub mod Served
pub mod Permits
pub mod Counts
pub mod Codes
use s.Common.{
  ℕ, ◌/◌, ◌%◌, ◌==◌, ◌++◌, ◌≡◌, Bool, true, false, not, ◌&&◌, List, [], ◌∷◌, Option, none, some,
  if◌then◌else◌, Text, text_key, codes, any, is_some,
}
use s.Common.Chars.{same_text, from_utf8_lossy}
use s.Net.{IpAddr, v4, v6, NetApi}
use s.Security.RateLimit.{Governor}
use s.Security.Manager
use s.Security.Manager.{Reputations, SecurityManager, Refusal, banned_ip}
use s.Quota.UserState.{Calendar}
use s.Quota.Tracker.{QuotaTracker, LimitsConfig, Reason, check_connection_rate}
use s.Quota.Tracker.Connections.{record_connection}
use s.Quota.Tracker.Traffic.{check_bandwidth_quota}
use s.Config.Hours.{Moment}
use s.Auth.User.{Platform, User, is_source_ip_allowed, check_time_access}
use s.Auth.User.Store.{get}
use s.Auth.Password.{Extracted, extracted, panics, extract_totp_from_password}
use s.Auth.Service.{Verifiers, AuthService, UsedCodes, auth_password, verify_totp}
use s.Proxy.Upstream.{Urls, resolve_upstream_proxy}
use s.Proxy.Slots.{Slots}
use s.Proxy.Connect.{
  Network, Connection, denied_by_name, no_global_slot, no_user_slot, not_connected,
  denied_by_address, connected, connect_checked,
}
use s.Socks.{
  auth_password as auth_password_method, auth_no_acceptable, TargetAddr, ipv4, ipv6, host_string,
  port, reply_success, reply_general_failure, reply_not_allowed, reply_host_unreachable,
  reply_connection_refused,
}
use s.Socks.Stream.{SocksError, Stream, Outcome, done, failed, Io, no_address, send_reply}
use s.Socks.Steps.{Step, goes, turned_away, broken, dies, ◌>>=◌, socks, require}
use s.Socks.Request.{read_greeting, send_method_selection, read_connect_request}
use s.Socks.Auth.{Credentials, read_credentials, send_auth_result}

-- What failed behind a connection that the network refuses: an error of `std::io`, or another.
pub data NetworkError : Type 0 where
  refused permission_denied other_io other : NetworkError

unfoldable pub network_reply : NetworkError → ℕ
network_reply NetworkError.refused = reply_connection_refused
network_reply NetworkError.permission_denied = reply_not_allowed
network_reply NetworkError.other_io = reply_host_unreachable
network_reply NetworkError.other = reply_general_failure

-- Denials by the rules and by the limits have their own code.
unfoldable pub classify_error_reply : NetworkError → Connection → ℕ
unfolding network_reply
classify_error_reply e denied_by_name = reply_not_allowed
classify_error_reply e no_global_slot = reply_not_allowed
classify_error_reply e no_user_slot = reply_not_allowed
classify_error_reply e denied_by_address = reply_not_allowed
classify_error_reply e not_connected = network_reply e
classify_error_reply e (connected ip) = reply_success

abbrev two_bytes : ℕ → List ℕ
two_bytes n = n / 256 ∷ n % 256 ∷ []

unfoldable pub bind_addr : IpAddr → ℕ → TargetAddr
bind_addr (v4 a b c d) p = ipv4 (a ∷ b ∷ c ∷ d ∷ []) p
bind_addr (v6 a b c d e f g h) p =
    let front = two_bytes a ++ two_bytes b ++ two_bytes c ++ two_bytes d in
    ipv6 (front ++ two_bytes e ++ two_bytes f ++ two_bytes g ++ two_bytes h) p

-- The crates that the handler and its parts stand on.
pub record Crates : Type 1 where
  pub api : NetApi
  pub gov : Governor
  pub rep : Reputations
  pub platform : Platform
  pub verifiers : Verifiers
  pub urls : Urls

module _ (crates : Crates) where
  open crates use {api, gov, rep, platform, verifiers, urls}

  -- What the tasks of the server share, with the stream of the client.
  pub record World : Type 0 where
    pub io : Stream
    pub security : SecurityManager api gov rep
    pub totp_codes : UsedCodes
    pub quotas : QuotaTracker
    pub slots : Slots

  -- The configuration, the users, the client's address, and what comes from outside.
  pub record Inputs : Type 0 where
    pub totp_required_for : List Text
    pub limits : LimitsConfig
    pub max_connections : ℕ
    pub upstream_proxy : Option Text
    pub auth_service : AuthService api platform verifiers
    pub peer : IpAddr
    pub calendar : Calendar
    pub auth_time : platform.DateTime
    pub access_time : Moment
    pub ip_rate_time : ℕ
    pub ban_time : ℕ
    pub code_time : ℕ
    pub failure_time : ℕ
    pub rate_time : ℕ
    pub rate_clock : ℕ → ℕ
    pub connection_clock : ℕ → ℕ
    pub bandwidth_clock : ℕ → ℕ
    pub network : Network
    pub network_error : NetworkError

  abbrev pub Handshake : Type 0 → Type 0
  Handshake A = World → Step World A

  abbrev pub of_outcome : {A : Type 0} → World → Outcome A → Step World A
  of_outcome w (done a s) = goes a (record w { io = s })
  of_outcome w (failed e s) = broken (socks e) (record w { io = s })

  abbrev pub on_stream : {A : Type 0} → Io A → Handshake A
  on_stream m w = of_outcome w (m w.io)

  abbrev stream_of : {A : Type 0} → Outcome A → Stream
  stream_of (done a s) = s
  stream_of (failed e s) = s

  -- What comes of the greeting and of the answer is dropped.
  unfoldable pub answer_banned : Stream → Stream
  unfolding read_greeting send_method_selection
  answer_banned s =
      stream_of (send_method_selection auth_no_acceptable (stream_of (read_greeting s)))

  unfoldable pub refused_with : Option Refusal → Handshake Unit
  unfolding answer_banned
  refused_with none w = goes tt w
  refused_with (some banned_ip) w = turned_away (record w { io = answer_banned w.io })
  refused_with (some Manager.rate_limited) w = turned_away w
  refused_with (some Manager.disallowed_source) w = turned_away w
  refused_with (some Manager.low_reputation) w = turned_away w

  unfoldable pub admit_peer : Inputs → Handshake Unit
  unfolding refused_with
  admit_peer i w =
      let (refusal, security) =
        Manager.pre_auth_check api gov rep i.peer i.ip_rate_time i.ban_time w.security in
      refused_with refusal (record w { security = security })

  abbrev no_method : Handshake Unit
  no_method = on_stream (send_method_selection auth_no_acceptable) >>= (λ u. require false)

  unfoldable pub select_method : List ℕ → Handshake Unit
  unfolding send_method_selection
  select_method methods w =
      if any (λ m. m == auth_password_method) methods
      then on_stream (send_method_selection auth_password_method) w
      else no_method w

  abbrev has_totp : Option (User api platform) → Bool
  has_totp none = false
  has_totp (some user) = user.totp_enabled && is_some user.totp_secret

  -- Whether the end of the password is a code.
  unfoldable pub needs_code : Inputs → Text → Bool
  needs_code i username =
      any (same_text (codes "socks5")) i.totp_required_for
      && has_totp (get api platform i.auth_service.user_store username)

  unfoldable pub split_password : Bool → Text → Extracted
  unfolding extract_totp_from_password
  split_password with_code password =
      if with_code then extract_totp_from_password password else extracted password none

  abbrev check_code : Inputs → Text → Option Text → UsedCodes → UsedCodes × Bool
  unfolding verify_totp
  check_code i username none used = (used, true)
  check_code i username (some code) used =
      verify_totp api platform verifiers i.auth_service used username (from_utf8_lossy code)
        i.code_time

  -- The code is looked at only where the password is right.
  unfoldable pub check_parts : Inputs → Text → Text → Option Text → UsedCodes → UsedCodes × Bool
  unfolding auth_password verify_totp
  check_parts i username password code used =
      if auth_password api platform verifiers i.auth_service username (from_utf8_lossy password)
        i.auth_time
      then check_code i username code used
      else (used, false)

  abbrev pub note_failure : Inputs → Handshake Unit
  note_failure i w = turned_away (record w {
    security = Manager.record_auth_failure api gov rep i.peer i.failure_time w.security;
  })

  unfoldable pub answer_auth : Inputs → Bool → Handshake Unit
  unfolding send_auth_result
  answer_auth i true = on_stream (send_auth_result true)
  answer_auth i false = on_stream (send_auth_result false) >>= (λ u. note_failure i)

  unfoldable pub check_extracted : Inputs → Text → Extracted → Handshake Unit
  unfolding check_parts answer_auth
  check_extracted i username panics w = dies w
  check_extracted i username (extracted password code) w =
      let (used, passed) = check_parts i username password code w.totp_codes in
      answer_auth i passed (record w { totp_codes = used })

  unfoldable pub authenticate : Inputs → Text → Text → Handshake Unit
  unfolding check_extracted split_password needs_code
  authenticate i username password w =
      check_extracted i username (split_password (needs_code i username) password) w
