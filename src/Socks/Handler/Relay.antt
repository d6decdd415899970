-- ===== src/Socks/Handler/Relay.antt =====
-- `socks5_handshake` of src/socks/handler.rs from the user that was found to the connection, and as
-- a whole.
use s.Common.{ℕ, Bool, true, false, Option, none, some, Text, text_key, is_some}
use s.Common.Chars.{from_utf8_lossy}
use s.Net.{IpAddr}
use s.Security.Manager
use s.Quota.Tracker.{QuotaTracker, QuotaConfig, Reason, check_connection_rate}
use s.Quota.Tracker.Connections.{record_connection}
use s.Quota.Tracker.Traffic.{check_bandwidth_quota}
use s.Auth.User.{User, is_source_ip_allowed, check_time_access}
use s.Auth.User.Store.{get}
use s.Proxy.Upstream.{resolve_upstream_proxy}
use s.Proxy.Slots.{release}
use s.Proxy.Connect.{
  Connection, denied_by_name, no_global_slot, no_user_slot, not_connected, denied_by_address,
  connected, connect_checked,
}
use s.Socks.{TargetAddr, host_string, port, reply_success}
use s.Socks.Stream.{Outcome, done, failed, no_address, send_reply}
use s.Socks.Request.{read_greeting, read_connect_request}
use s.Socks.Auth.{read_credentials}
use s.Socks.Steps.{Step, goes, turned_away, broken, ◌>>=◌, socks, user_disappeared, require}
use s.Socks.Handler.{
  Crates, World, Inputs, Handshake, on_stream, admit_peer, select_method, authenticate,
  classify_error_reply, bind_addr,
}

pub record RelayInfo : Type 0 where
  pub resolved_addr : IpAddr
  pub username : Text
  pub host : Text
  pub port : ℕ
  pub bandwidth_limit_kbps : ℕ
  pub aggregate_bandwidth_kbps : ℕ
  pub quotas : Option QuotaConfig

module _ (crates : Crates) where
  open crates use {api, gov, rep, platform, verifiers, urls}

  abbrev pub known : {A : Type 0} → Option A → Handshake crates A
  known none w = broken user_disappeared w
  known (some a) w = goes a w

  unfoldable pub known_user : Inputs crates → Text → Handshake crates (User api platform)
  known_user i username = known (get api platform i.auth_service.user_store username)

  unfoldable pub check_rate : Inputs crates → Text → User api platform → Handshake crates Unit
  check_rate i username user w =
      let (allowed, security) =
        Manager.check_rate_limit api gov rep username user.max_new_connections_per_minute
          i.rate_time w.security in
      require allowed (record w { security = security })

  abbrev pub unless_exceeded :
      World crates → QuotaTracker × Option Reason → Step (World crates) Unit
  unless_exceeded w (quotas, none) = goes tt (record w { quotas = quotas })
  unless_exceeded w (quotas, some reason) = turned_away (record w { quotas = quotas })

  -- The rates of all windows, the numbers of connections, and the bytes that are left.
  unfoldable pub check_quotas : Inputs crates → Text → User api platform → Handshake crates Unit
  check_quotas i username user = do
    u ← λ w.
        unless_exceeded w (
          check_connection_rate i.calendar w.quotas username user.rate_limits i.limits i.rate_clock)
    v ← λ w.
        unless_exceeded w
          (record_connection i.calendar w.quotas username user.quotas i.connection_clock)
    λ w.
        unless_exceeded w
          (check_bandwidth_quota i.calendar w.quotas username user.quotas i.bandwidth_clock)

  unfoldable pub check_user : Inputs crates → Text → User api platform → Handshake crates Unit
  unfolding check_rate check_quotas
  check_user i username user = do
    a ← require (is_source_ip_allowed api platform user i.peer)
    b ← require (check_time_access api platform user i.access_time)
    c ← check_rate i username user
    d ← check_quotas i username user
    require user.allow_forwarding

  unfoldable pub relay_info : Text → User api platform → TargetAddr → IpAddr → RelayInfo
  unfolding host_string port
  relay_info username user target ip = record {
    resolved_addr = ip;
    username = username;
    host = host_string target;
    port = port target;
    bandwidth_limit_kbps = user.max_bandwidth_kbps;
    aggregate_bandwidth_kbps = user.max_aggregate_bandwidth_kbps;
    quotas = user.quotas;
  }

  -- The guard of the slot goes with the result, and is dropped where the reply fails.
  abbrev pub after_reply :
      World crates → Text → RelayInfo → Outcome Unit → Step (World crates) RelayInfo
  after_reply w username info (done u s) = goes info (record w { io = s })
  after_reply w username info (failed e s) =
      broken (socks e) (record w { io = s; slots = release username w.slots })

  unfoldable pub refuse_target : Inputs crates → Connection → Handshake crates RelayInfo
  unfolding send_reply classify_error_reply
  refuse_target i c =
      on_stream crates (send_reply (classify_error_reply i.network_error c) no_address)
      >>= (λ u w. turned_away w)

  -- The port of the address that was reached: none behind an upstream proxy.
  abbrev pub bound_port : Bool → ℕ → ℕ
  bound_port true p = 0
  bound_port false p = p

  unfoldable pub answer :
      Inputs crates
      → Text
      → User api platform
      → TargetAddr
      → Bool
      → Connection
      → Handshake crates RelayInfo
  unfolding send_reply refuse_target bind_addr relay_info
  answer i username user target upstream (connected ip) w =
      after_reply w username (relay_info username user target ip)
        (send_reply reply_success (bind_addr ip (bound_port upstream (port target))) w.io)
  answer i username user target upstream denied_by_name w = refuse_target i denied_by_name w
  answer i username user target upstream no_global_slot w = refuse_target i no_global_slot w
  answer i username user target upstream no_user_slot w = refuse_target i no_user_slot w
  answer i username user target upstream not_connected w = refuse_target i not_connected w
  answer i username user target upstream denied_by_address w = refuse_target i denied_by_address w

  unfoldable pub upstream_of : Inputs crates → User api platform → Bool
  unfolding resolve_upstream_proxy
  upstream_of i user = is_some (resolve_upstream_proxy urls user.upstream_proxy i.upstream_proxy)

  unfoldable pub connect_target :
      Inputs crates → Text → User api platform → TargetAddr → Handshake crates RelayInfo
  unfolding answer upstream_of
  connect_target i username user target w =
      let upstream = upstream_of i user in
      let (c, slots) =
        connect_checked api user.acl username (host_string target) (port target) i.max_connections
          user.max_connections upstream i.network w.slots in
      answer i username user target upstream c (record w { slots = slots })

  unfoldable pub serve_user : Inputs crates → Text → User api platform → Handshake crates RelayInfo
  unfolding check_user connect_target read_connect_request
  serve_user i username user = do
    u ← check_user i username user
    target ← on_stream crates (read_connect_request api)
    connect_target i username user target

  -- Behind the names and passwords.
  unfoldable pub serve : Inputs crates → Text → Handshake crates RelayInfo
  unfolding known_user serve_user
  serve i username = do user ← known_user i username; serve_user i username user

  unfoldable pub socks5_handshake : Inputs crates → Handshake crates RelayInfo
  unfolding serve
  socks5_handshake i = do
    u ← admit_peer crates i
    methods ← on_stream crates read_greeting
    v ← select_method crates methods
    creds ← on_stream crates read_credentials
    t ← authenticate crates i (from_utf8_lossy creds.username) creds.password
    serve i (from_utf8_lossy creds.username)
