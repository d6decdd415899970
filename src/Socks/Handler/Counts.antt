-- ===== src/Socks/Handler/Counts.antt =====
-- The counts of connections over a handshake of src/socks/handler.rs.
use s.Common.{
  ℕ, ◌<◌, ◌≡◌, refl, ap, sym, subst, Bool, true, false, Option, none, some, Option-cases, inl, inr,
  Text, text_key, Bool-cases, any, ◌==◌, List,
}
use s.Common.Chars.{from_utf8_lossy}
use s.Common.Maps.{lookup}
use s.Net.{v4, v6}
use s.Security.Manager.{Refusal, rate_limited, disallowed_source, banned_ip, low_reputation}
use s.Auth.User.{User}
use s.Auth.User.Store.{get}
use s.Auth.Password.{Extracted, extracted, panics}
use s.Proxy.Slots.{Slots, u32_mod}
use s.Proxy.Slots.Balance.{Balanced}
use s.Proxy.Connect.{
  Connection, denied_by_name, no_global_slot, no_user_slot, not_connected, denied_by_address,
  connected, connect_checked,
}
use s.Proxy.Connect.Checked.{Same, Leaves, no_slot_leaks}
use s.Socks.{TargetAddr, host_string, port}
use s.Socks.Stream.{Outcome, done, failed, send_reply, no_address}
use s.Socks.Request.{read_greeting, read_connect_request, send_method_selection}
use s.Socks.Auth.{read_credentials, send_auth_result}
use s.Socks.Steps.{turned_away, after, Everywhere, Ending, after-Ending}
use s.Socks.Handler.{
  Crates, World, Inputs, on_stream, of_outcome, admit_peer, select_method, authenticate,
  check_extracted, answer_auth, refused_with, classify_error_reply, bind_addr, split_password,
  needs_code,
}
use s.Socks.Handler.Keeps.{check_user-Keeps}
use s.Socks.Handler.Relay.{
  RelayInfo, known_user, check_user, answer, refuse_target, upstream_of, connect_target, serve_user,
  serve, socks5_handshake,
}

module _ (crates : Crates) where
  open crates use {api, platform}

  -- The counts are still those.
  abbrev Holds : Slots → World crates → Type 0
  Holds s w = w.slots ≡ s

  of_outcome-Holds :
      {A : Type 0} (s : Slots) (w : World crates) (o : Outcome A)
      → Holds s w
      → Everywhere (Holds s) (of_outcome crates w o)
  of_outcome-Holds s w (done a io) h = h
  of_outcome-Holds s w (failed e io) h = h

  refused_with-Holds :
      (s : Slots) (r : Option Refusal) (w : World crates)
      → Holds s w
      → Everywhere (Holds s) (refused_with crates r w)
  unfolding refused_with
  refused_with-Holds s none w h = h
  refused_with-Holds s (some rate_limited) w h = h
  refused_with-Holds s (some disallowed_source) w h = h
  refused_with-Holds s (some banned_ip) w h = h
  refused_with-Holds s (some low_reputation) w h = h

  select_method-Holds :
      (s : Slots) (methods : List ℕ) (w : World crates)
      → Holds s w
      → Everywhere (Holds s) (select_method crates methods w)
  unfolding select_method send_method_selection
  select_method-Holds s methods w h = elim (Bool-cases (any (λ m. m == 2) methods)) [
    | inl offered ↦ rw offered h
    | inr missing ↦ rw missing h
  ]

  answer_auth-Holds :
      (i : Inputs crates) (s : Slots) (passed : Bool) (w : World crates)
      → Holds s w
      → Everywhere (Holds s) (answer_auth crates i passed w)
  unfolding answer_auth send_auth_result
  answer_auth-Holds i s true w h = h
  answer_auth-Holds i s false w h = h

  check_extracted-Holds :
      (i : Inputs crates) (username : Text) (s : Slots) (e : Extracted) (w : World crates)
      → Holds s w
      → Everywhere (Holds s) (check_extracted crates i username e w)
  unfolding check_extracted
  check_extracted-Holds i username s panics w h = h
  check_extracted-Holds i username s (extracted password code) w h = answer_auth-Holds i s _ _ h

  -- The count of all connections and that of one user are those.
  abbrev pub Counts : Text → Slots → World crates → Type 0
  Counts other s w = Same api other w.slots s

  Holds-Counts : (other : Text) (s : Slots) (w : World crates) → Holds s w → Counts other s w
  Holds-Counts other s w h = (ap (λ x. x.global) h, ap (λ x. lookup other x.users) h)

  turned-Counts :
      (other : Text) (s : Slots) (w : World crates) (o : Outcome Unit)
      → Counts other s w
      → Ending {A = RelayInfo}
          (Counts other s)
          (after (of_outcome crates w o) (λ u w1. turned_away w1))
  turned-Counts other s w (done u io) h = h
  turned-Counts other s w (failed e io) h = h

  refuse_target-Counts :
      (i : Inputs crates) (other : Text) (s : Slots) (c : Connection) (w : World crates)
      → Counts other s w
      → Ending (Counts other s) (refuse_target crates i c w)
  unfolding refuse_target
  refuse_target-Counts i other s c w h =
      turned-Counts other s w (send_reply (classify_error_reply i.network_error c) no_address w.io)
        h

  answer-Counts :
      (i : Inputs crates) (username other : Text) (user : User api platform) (target : TargetAddr)
      (upstream : Bool) (s : Slots) (c : Connection) (w : World crates)
      → Leaves api other s (c, w.slots)
      → Ending (Counts other s) (answer crates i username user target upstream c w)
  unfolding answer send_reply bind_addr
  answer-Counts i username other user target upstream s (connected (v4 a b c d)) w h = tt
  answer-Counts i username other user target upstream s (connected (v6 a b c d e f g k)) w h = tt
  answer-Counts i username other user target upstream s denied_by_name w h =
      refuse_target-Counts i other s denied_by_name w h
  answer-Counts i username other user target upstream s no_global_slot w h =
      refuse_target-Counts i other s no_global_slot w h
  answer-Counts i username other user target upstream s no_user_slot w h =
      refuse_target-Counts i other s no_user_slot w h
  answer-Counts i username other user target upstream s not_connected w h =
      refuse_target-Counts i other s not_connected w h
  answer-Counts i username other user target upstream s denied_by_address w h =
      refuse_target-Counts i other s denied_by_address w h

  connect_target-Counts :
      (i : Inputs crates) (username other : Text) (user : User api platform) (target : TargetAddr)
      (s : Slots) (w : World crates)
      → i.max_connections < u32_mod
      → Balanced s
      → Holds s w
      → Ending (Counts other s) (connect_target crates i username user target w)
  unfolding connect_target
  connect_target-Counts i username other user target s w g b h =
      let r =
        connect_checked api user.acl username (host_string target) (port target) i.max_connections
          user.max_connections (upstream_of crates i user) i.network w.slots in
      answer-Counts i username other user target (upstream_of crates i user) s r.0 _ (
        subst (λ x. Leaves api other x (r.0, r.1)) h
          (no_slot_leaks api user.acl username other (host_string target) (port target)
            i.max_connections user.max_connections (upstream_of crates i user) i.network w.slots g
            (subst Balanced (sym h) b)))

  serve_user-Counts :
      (i : Inputs crates) (username other : Text) (user : User api platform) (s : Slots)
      (w : World crates)
      → i.max_connections < u32_mod
      → Balanced s
      → Holds s w
      → Ending (Counts other s) (serve_user crates i username user w)
  unfolding serve_user
  serve_user-Counts i username other user s w g b h =
      after-Ending (Holds s) (Counts other s) (check_user crates i username user w) _
        (Holds-Counts other s) (check_user-Keeps crates i username user (λ io slots. slots ≡ s) w h)
        (λ u w1 h1.
          after-Ending (Holds s) (Counts other s) (on_stream crates (read_connect_request api) w1) _
            (Holds-Counts other s) (of_outcome-Holds s w1 (read_connect_request api w1.io) h1)
            (λ target w2 h2. connect_target-Counts i username other user target s w2 g b h2))

  serve-Counts :
      (i : Inputs crates) (username other : Text) (s : Slots) (w : World crates)
      → i.max_connections < u32_mod
      → Balanced s
      → Holds s w
      → Ending (Counts other s) (serve crates i username w)
  unfolding serve known_user
  serve-Counts i username other s w g b h =
      elim (Option-cases (get api platform i.auth_service.user_store username)) [
        | inl unknown ↦ rw unknown (Holds-Counts other s w h)
        | inr (user, found) ↦ rw found (serve_user-Counts i username other user s w g b h)
      ]

  -- A handshake that ends without a relay because it is turned away, or by an error or a panic,
  -- leaves the counts of connections as they were, where they add up and the limit of all
  -- connections fits a `u32`.
  pub handshake-Counts :
      (i : Inputs crates) (other : Text) (w : World crates)
      → i.max_connections < u32_mod
      → Balanced w.slots
      → Ending (Counts other w.slots) (socks5_handshake crates i w)
  unfolding socks5_handshake admit_peer authenticate
  handshake-Counts i other w g b =
      let s = w.slots in
      after-Ending (Holds s) (Counts other s) (admit_peer crates i w) _ (Holds-Counts other s)
        (refused_with-Holds s _ _ refl)
        (λ u w1 h1.
          after-Ending (Holds s) (Counts other s) (on_stream crates read_greeting w1) _
            (Holds-Counts other s) (of_outcome-Holds s w1 (read_greeting w1.io) h1)
            (λ methods w2 h2.
              after-Ending (Holds s) (Counts other s) (select_method crates methods w2) _
                (Holds-Counts other s) (select_method-Holds s methods w2 h2)
                (λ v w3 h3.
                  after-Ending (Holds s) (Counts other s) (on_stream crates read_credentials w3) _
                    (Holds-Counts other s) (of_outcome-Holds s w3 (read_credentials w3.io) h3)
                    (λ creds w4 h4.
                      let name = from_utf8_lossy creds.username in
                      after-Ending (Holds s) (Counts other s)
                        (authenticate crates i name creds.password w4) _ (Holds-Counts other s)
                        (check_extracted-Holds i name s
                          (split_password crates (needs_code crates i name) creds.password) w4 h4)
                        (λ t w5 h5. serve-Counts i name other s w5 g b h5)))))
