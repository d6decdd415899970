-- ===== src/Socks/Handler/Served.antt =====
-- Whom src/socks/handler.rs serves once it knows the name.
use s.Common.{
  ◌≡◌, refl, subst, ◌∙◌, Bool, true, false, inl, inr, some, Option-cases, Text, text_key,
}
use s.Net.{IpAddr}
use s.Auth.User.{User, is_source_ip_allowed, check_time_access}
use s.Auth.User.Store.{get}
use s.Proxy.Slots.{Slots}
use s.Proxy.Connect.{
  Connection, denied_by_name, no_global_slot, no_user_slot, not_connected, denied_by_address,
  connected, connect_checked,
}
use s.Socks.{TargetAddr, host_string, port, reply_success}
use s.Socks.Stream.{Stream, Outcome, done, failed, send_reply, no_address}
use s.Socks.Request.{read_connect_request}
use s.Socks.Steps.{
  require, Granted, after-Granted, after-Granted_any, require-Granted, turned_away-Granted,
  after-GrantedIn, Granted-Everywhere, weaken-Granted,
}
use s.Socks.Handler.{Crates, World, Inputs, on_stream, classify_error_reply, bind_addr}
use s.Socks.Handler.Keeps.{Keeps, check_user-Keeps, on_stream-GrantedIn}
use s.Socks.Handler.Relay.{
  RelayInfo, relay_info, after_reply, refuse_target, bound_port, known_user, serve_user, check_user,
  check_rate, check_quotas, answer, upstream_of, connect_target, serve,
}

module _ (crates : Crates) where
  open crates use {api, gov, rep, platform, verifiers}

  abbrev pub UserPermitted : Inputs crates → User api platform → Type 0
  UserPermitted i user =
      (is_source_ip_allowed api platform user i.peer ≡ true)
      × (check_time_access api platform user i.access_time ≡ true)
      × (user.allow_forwarding ≡ true)

  -- The target was read off the stream, and the proxy engine connected the user to it from these
  -- counts of connections.
  abbrev pub Connected :
      Inputs crates → User api platform → Text → Stream → Slots → RelayInfo → Type 0
  Connected i user username io slots info =
      (target : TargetAddr) × (rest : Stream) × (read_connect_request api io ≡ done target rest)
      × (info.username ≡ username)
      × (info.host ≡ host_string target)
      × (info.port ≡ port target)
      × ((connect_checked api user.acl username (host_string target) (port target) i.max_connections
            user.max_connections (upstream_of crates i user) i.network slots).0
          ≡ connected info.resolved_addr)

  forwarding :
      {A B : Type 0}
      → A
      → B
      → (b c : Bool) → c ≡ b
      → (w : World crates) → Granted (λ u. A × B × (c ≡ true)) (require b w)
  forwarding source hours true c e w = (source, hours, e)
  forwarding source hours false c e w = tt

  check_user-Granted :
      (i : Inputs crates) (username : Text) (user : User api platform) (w : World crates)
      → Granted (λ u. UserPermitted i user) (check_user crates i username user w)
  unfolding check_user
  check_user-Granted i username user w =
      after-Granted _ _ (require (is_source_ip_allowed api platform user i.peer) w) _
        (require-Granted (is_source_ip_allowed api platform user i.peer) w)
        (λ a w1 source.
          after-Granted _ _ (require (check_time_access api platform user i.access_time) w1) _
            (require-Granted (check_time_access api platform user i.access_time) w1)
            (λ b w2 hours. after-Granted_any _ (check_rate crates i username user w2) _ (λ c w3.
              after-Granted_any _ (check_quotas crates i username user w3) _ (λ d w4.
                forwarding source hours user.allow_forwarding user.allow_forwarding refl w4))))

  after_reply-Granted :
      (P : RelayInfo → Type 0) (w : World crates) (info : RelayInfo) (username : Text)
      → P info
      → (o : Outcome Unit) → Granted P (after_reply crates w username info o)
  after_reply-Granted P w info username p (done u s) = p
  after_reply-Granted P w info username p (failed e s) = tt

  refuse_target-Granted :
      (P : RelayInfo → Type 0) (i : Inputs crates) (c : Connection) (w : World crates)
      → Granted P (refuse_target crates i c w)
  unfolding refuse_target
  refuse_target-Granted P i c w =
      turned_away-Granted P
        (on_stream crates (send_reply (classify_error_reply i.network_error c) no_address) w)

  answer-Granted :
      (P : RelayInfo → Type 0) (i : Inputs crates) (username : Text) (user : User api platform)
      (target : TargetAddr) (upstream : Bool) (c : Connection) (w : World crates)
      → ((ip : IpAddr) → c ≡ connected ip → P (relay_info crates username user target ip))
      → Granted P (answer crates i username user target upstream c w)
  unfolding answer
  answer-Granted P i username user target upstream (connected ip) w p =
      after_reply-Granted P w _ username (p ip refl)
        (send_reply reply_success (bind_addr ip (bound_port crates upstream (port target))) w.io)
  answer-Granted P i username user target upstream denied_by_name w p =
      refuse_target-Granted P i denied_by_name w
  answer-Granted P i username user target upstream no_global_slot w p =
      refuse_target-Granted P i no_global_slot w
  answer-Granted P i username user target upstream no_user_slot w p =
      refuse_target-Granted P i no_user_slot w
  answer-Granted P i username user target upstream not_connected w p =
      refuse_target-Granted P i not_connected w
  answer-Granted P i username user target upstream denied_by_address w p =
      refuse_target-Granted P i denied_by_address w

  connect_target-Granted :
      (i : Inputs crates) (username : Text) (user : User api platform) (target : TargetAddr)
      (io : Stream) (w : World crates)
      → read_connect_request api io ≡ done target w.io
      → Granted
          (Connected i user username io w.slots)
          (connect_target crates i username user target w)
  unfolding connect_target relay_info
  connect_target-Granted i username user target io w read =
      answer-Granted (Connected i user username io w.slots) i username user target
        (upstream_of crates i user)
        (connect_checked api user.acl username (host_string target) (port target) i.max_connections
          user.max_connections (upstream_of crates i user) i.network w.slots).0
        _ (λ ip e. (target, w.io, read, refl, refl, refl, e))

  -- The user that a relay is for passed the checks, and the connection is the one allowed to it.
  abbrev pub Served : Inputs crates → Text → Stream → Slots → RelayInfo → Type 0
  Served i username io slots info =
      (user : User api platform) × (get api platform i.auth_service.user_store username ≡ some user)
      × UserPermitted i user
      × Connected i user username io slots info

  serve_user-Granted :
      (i : Inputs crates) (username : Text) (user : User api platform) (w : World crates)
      → get api platform i.auth_service.user_store username ≡ some user
      → Granted (Served i username w.io w.slots) (serve_user crates i username user w)
  unfolding serve_user
  serve_user-Granted i username user w found =
      let Q = Served i username w.io w.slots in
      let same : World crates → Type 0 =
        Keeps crates (λ io slots. (io ≡ w.io) × (slots ≡ w.slots)) in
      after-GrantedIn _ Q (check_user crates i username user w) _
        (Granted-Everywhere (λ u. UserPermitted i user) same _
          (check_user-Granted i username user w)
          (check_user-Keeps crates i username user _ w (refl, refl)))
        (λ u w1 (permitted, (io, slots)).
          after-GrantedIn _ Q (on_stream crates (read_connect_request api) w1) _
            (on_stream-GrantedIn crates (read_connect_request api) w1)
            (λ target w2 (read, codes, kept).
              weaken-Granted (Connected i user username w.io w2.slots) Q _
                (connect_target-Granted i username user target w.io w2
                  (subst (λ x. read_connect_request api x ≡ done target w2.io) io read))
                (λ info c. (
                  user,
                  found,
                  permitted,
                  subst (λ x. Connected i user username w.io x info) (kept ∙ slots) c,
                ))))

  pub serve-Granted :
      (i : Inputs crates) (username : Text) (w : World crates)
      → Granted (Served i username w.io w.slots) (serve crates i username w)
  unfolding serve known_user
  serve-Granted i username w =
      elim (Option-cases (get api platform i.auth_service.user_store username)) [
        | inl unknown ↦ rw unknown tt
        | inr (user, found) ↦ rw found (serve_user-Granted i username user w found)
      ]
