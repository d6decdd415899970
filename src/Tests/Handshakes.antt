-- ===== src/Tests/Handshakes.antt =====
-- Handshakes of SOCKS5 at concrete inputs (src/socks/handler.rs, src/auth/password.rs).
use s.Common.{
  ℕ, ◌<◌, ◌≡◌, ◌≢◌, refl, Bool, true, false, List, [], ◌∷◌, ◌++◌, Option, none, some, Text,
  text_key, arith, codes, ltb,
}
use s.Net.{v4}
use s.Quota.Tracker
use s.Quota.Tracker.{QuotaTracker, LimitsConfig}
use s.Security.Manager.{SecurityManager}
use s.Auth.Password.{Extracted, extracted, extract_totp_from_password, extract-colon}
use s.Auth.Service.{AuthService}
use s.Proxy.Upstream.{Urls}
use s.Proxy.Slots.{Slots}
use s.Proxy.Slots.Balance.{Balanced, total}
use s.Proxy.Connect.Checked.{Same}
use s.Proxy.Connect.{Network}
use s.Socks.Stream.{stream}
use s.Socks.Steps.{Step, goes, turned_away, broken, dies}
use s.Socks.Handler.{Crates, World, Inputs, NetworkError, authenticate}
use s.Socks.Handler.Relay.{RelayInfo, socks5_handshake}
use s.Socks.Handler.Permits.{Permitted, relay-Permitted}
use s.Socks.Handler.Counts.{handshake-Counts}
use s.Socks.Handler.Codes.{authenticate-without_code}
use s.Ssh.Auth.{Session, Settings, Times, accept, auth_password, auth_publickey}
use s.Ssh.Auth.Codes.{CodeGiven, auth_password-CodeGiven}
use s.Ssh.Auth.Expired.{expired_refused}
use s.Ssh.Auth.Sessions.{opened, password, new, authenticated_known}
use s.Auth.User.{User}
use s.Auth.User.Store.{get}
use s.Common.Chars.{as_bytes}
use s.Tests.Data.{api}
use s.Tests.Guards.{gov, rep, manager}
use s.Tests.Accounts.{platform, verifiers, bob, expired_bob, noon, cal}

extract-colon_example :
    extract_totp_from_password (codes "pw:9:123456")
    ≡ extracted (codes "pw:9") (some (codes "123456"))
extract-colon_example = extract-colon (codes "pw:9") (codes "123456") (omega arith) refl (
  (omega arith, omega arith),
  (
    (omega arith, omega arith),
    (
      (omega arith, omega arith),
      ((omega arith, omega arith), ((omega arith, omega arith), ((omega arith, omega arith), tt))),
    ),
  ),
)

abbrev urls : Urls
urls = record { parse = λ t. none; percent_decode = λ t. some t }

abbrev crates : Crates
crates = record {
  api = api;
  gov = gov;
  rep = rep;
  platform = platform;
  verifiers = verifiers;
  urls = urls;
}

abbrev limits : LimitsConfig
limits = record {
  max_bandwidth_mbps = 0;
  max_new_connections_per_second = 0;
  max_new_connections_per_minute = 0;
}

-- Bob may come from anywhere at noon, and must give a code over SOCKS5.
abbrev inputs : Inputs crates
inputs = record {
  totp_required_for = codes "socks5" ∷ [];
  limits = limits;
  max_connections = 5;
  upstream_proxy = none;
  auth_service = record { user_store = (codes "bob", bob) ∷ []; trusted_cas = [] };
  peer = v4 7 7 7 7;
  calendar = cal;
  auth_time = 5;
  access_time = noon;
  ip_rate_time = 5;
  ban_time = 5;
  code_time = 5;
  failure_time = 5;
  rate_time = 5;
  rate_clock = λ k. 100;
  connection_clock = λ k. 100;
  bandwidth_clock = λ k. 100;
  network = record { via_socks5 = false; resolved = some (v4 9 9 9 9) };
  network_error = NetworkError.other;
}

-- A greeting, the name and the password, and a request for 9.9.9.9:80.
abbrev message : List ℕ
message =
    5 ∷ 1 ∷ 2 ∷ 1 ∷ 3 ∷ codes "bob" ++ 2 ∷ codes "pw" ++ 5 ∷ 1 ∷ 0 ∷ 1 ∷ 9 ∷ 9 ∷ 9 ∷ 9 ∷ 0 ∷ 80 ∷ []

abbrev world : World crates
world = record {
  io = stream message [];
  security = record manager { global_allowed_ips = [] };
  totp_codes = [];
  quotas = Tracker.new limits (λ k. 100);
  slots = record { global = 0; users = [] };
}

abbrev world_of : {A : Type 0} → Step (World crates) A → World crates
world_of (goes a w) = w
world_of (turned_away w) = w
world_of (broken e w) = w
world_of (dies w) = w

abbrev nothing : RelayInfo
nothing = record {
  resolved_addr = v4 0 0 0 0;
  username = [];
  host = [];
  port = 0;
  bandwidth_limit_kbps = 0;
  aggregate_bandwidth_kbps = 0;
  quotas = none;
}

abbrev info_of : Step (World crates) RelayInfo → RelayInfo
info_of (goes info w) = info
info_of (turned_away w) = nothing
info_of (broken e w) = nothing
info_of (dies w) = nothing

authenticate-without_code_example :
    authenticate crates inputs (codes "bob") (codes "pw") world
    ≡ goes tt (record world { io = stream message (1 ∷ 0 ∷ []) })
unfolding extract_totp_from_password s.Auth.Service.auth_password s.Auth.User.Store.get
    s.Common.Text-discrete s.Auth.User.is_expired s.Auth.User.resolve
authenticate-without_code_example =
    authenticate-without_code crates inputs (codes "bob") (codes "pw") world refl refl

relay-Permitted_example :
    Permitted crates inputs world (info_of (socks5_handshake crates inputs world))
unfolding socks5_handshake s.Socks.Handler.admit_peer s.Security.Manager.pre_auth_check
    s.Security.Manager.admit s.Security.Manager.check_ip_rate s.Security.RateLimit.check_limit
    s.Security.Manager.is_allowed s.Security.Manager.check_standing s.Security.Manager.banned_at
    s.Security.Ban.is_banned s.Socks.Handler.select_method s.Socks.Auth.read_credentials
    authenticate s.Common.Text-discrete s.Auth.User.Store.get s.Common.Chars.from_utf8_lossy
    s.Auth.User.resolve s.Auth.User.is_expired s.Auth.Service.auth_password
    s.Security.Manager.check_rate_limit s.Quota.Tracker.check_connection_rate
    s.Quota.Tracker.Connections.record_connection s.Quota.Tracker.Traffic.check_bandwidth_quota
    s.Auth.User.check_time_access s.Auth.User.is_source_ip_allowed s.Proxy.Connect.connect_checked
    s.Socks.Request.read_connect_request s.Auth.Password.extract_totp_from_password
    s.Common.Decimal.parse_digits s.Auth.Inheritance.positive_or Tracker.new
    s.Auth.Inheritance.resolve_rate_limits s.Quota.Window.sum s.Quota.UserState.new_state
    s.Quota.Window.empty_window s.Quota.Tracker.Connections.connection_quota
    s.Auth.Inheritance.restrict s.Acl.check_hostname_verbose s.Acl.Port.port_matches
    s.Proxy.Slots.acquire_connection s.Acl.check_verbose
relay-Permitted_example =
    relay-Permitted crates inputs world (world_of (socks5_handshake crates inputs world))
      (info_of (socks5_handshake crates inputs world)) refl

no_slots-Balanced : Balanced world.slots
unfolding total
no_slots-Balanced = record { distinct = tt; positive = tt; sum = refl; fits = omega arith }

-- The network reaches nothing, so the slot that was taken is given back.
abbrev unreachable : Inputs crates
unreachable = record inputs { network = record { via_socks5 = false; resolved = none } }

handshake-Counts_example :
    Same api (codes "bob") (world_of (socks5_handshake crates unreachable world)).slots world.slots
unfolding socks5_handshake s.Socks.Handler.admit_peer s.Security.Manager.pre_auth_check
    s.Security.Manager.admit s.Security.Manager.check_ip_rate s.Security.RateLimit.check_limit
    s.Security.Manager.is_allowed s.Security.Manager.check_standing s.Security.Manager.banned_at
    s.Security.Ban.is_banned s.Socks.Handler.select_method s.Socks.Auth.read_credentials
    authenticate s.Common.Text-discrete s.Auth.User.Store.get s.Common.Chars.from_utf8_lossy
    s.Auth.User.resolve s.Auth.User.is_expired s.Auth.Service.auth_password
    s.Security.Manager.check_rate_limit s.Quota.Tracker.check_connection_rate
    s.Quota.Tracker.Connections.record_connection s.Quota.Tracker.Traffic.check_bandwidth_quota
    s.Auth.User.check_time_access s.Auth.User.is_source_ip_allowed s.Proxy.Connect.connect_checked
    s.Socks.Request.read_connect_request s.Auth.Password.extract_totp_from_password
    s.Common.Decimal.parse_digits s.Auth.Inheritance.positive_or Tracker.new
    s.Auth.Inheritance.resolve_rate_limits s.Quota.Window.sum s.Quota.UserState.new_state
    s.Quota.Window.empty_window s.Quota.Tracker.Connections.connection_quota
    s.Auth.Inheritance.restrict s.Acl.check_hostname_verbose s.Acl.Port.port_matches
    s.Proxy.Slots.acquire_connection s.Acl.check_verbose
handshake-Counts_example =
    handshake-Counts crates unreachable (codes "bob") world (omega arith) no_slots-Balanced

abbrev settings : Settings crates
settings = record {
  peer = v4 7 7 7 7;
  ssh_auth_timeout = 120;
  max_auth_attempts = 3;
  totp_required_for = codes "ssh" ∷ [];
  auth_service = record { user_store = (codes "bob", bob) ∷ []; trusted_cas = [] };
  fingerprint = λ key. key ∷ [];
}

abbrev times : Times crates
times = record {
  elapsed = 2;
  late = true;
  ip_rate_time = 5;
  ban_time = 5;
  auth_time = 5;
  code_time = 5;
  failure_time = 5;
}

abbrev opened_session : Session crates
opened_session = record {
  username = none;
  authenticated = false;
  auth_method = [];
  ssh_key_fingerprint = none;
  total_auth_attempts = 0;
  security = record manager { global_allowed_ips = [] };
  totp_codes = [];
}

auth_password-CodeGiven_example :
    CodeGiven crates settings times
      (codes "bob")
      (extract_totp_from_password (as_bytes (codes "pw:123456")))
      []
unfolding s.Ssh.Auth.needs_code s.Common.Text-discrete get s.Auth.User.resolve auth_password
    s.Security.Manager.pre_auth_check s.Security.Manager.admit s.Security.Manager.check_ip_rate
    s.Security.RateLimit.check_limit s.Security.Manager.is_allowed s.Security.Manager.check_standing
    s.Security.Manager.banned_at s.Security.Ban.is_banned s.Auth.User.is_expired
    s.Auth.Service.accept_code
auth_password-CodeGiven_example =
    auth_password-CodeGiven crates settings times (codes "bob") (codes "pw:123456") opened_session
      refl refl

abbrev logged_in : Session crates
logged_in =
    (auth_password crates settings times (codes "bob") (codes "pw:123456")
      (new crates (record manager { global_allowed_ips = [] }) [])).1

authenticated_known_example :
    (name : Text) × (user : User api platform) × (logged_in.username ≡ some name)
    × (get api platform settings.auth_service.user_store name ≡ some user)
unfolding auth_password new s.Security.Manager.pre_auth_check s.Security.Manager.admit
    s.Security.Manager.check_ip_rate s.Security.RateLimit.check_limit s.Security.Manager.is_allowed
    s.Security.Manager.check_standing s.Security.Manager.banned_at s.Security.Ban.is_banned
    s.Common.Text-discrete get s.Auth.User.resolve s.Auth.User.is_expired s.Auth.Service.accept_code
authenticated_known_example =
    authenticated_known crates settings logged_in
      (password times (codes "bob") (codes "pw:123456") _
        (opened (record manager { global_allowed_ips = [] }) []))
      refl

abbrev expired_settings : Settings crates
expired_settings = record settings {
  auth_service = record { user_store = (codes "bob", expired_bob) ∷ []; trusted_cas = [] };
}

-- Bob's account ended before this time.
abbrev later_times : Times crates
later_times = record times { auth_time = 6 }

expired_refused_example :
    ((auth_password crates expired_settings later_times
        (codes "bob")
        (codes "pw:123456")
        opened_session).0
      ≢ accept)
    × ((auth_publickey crates expired_settings later_times (codes "bob") 7 opened_session).0
        ≢ accept)
unfolding get s.Common.Text-discrete s.Auth.User.is_expired
expired_refused_example =
    expired_refused crates expired_settings later_times (codes "bob") (codes "pw:123456") 7
      opened_session expired_bob refl refl
