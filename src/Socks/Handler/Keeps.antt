-- ===== src/Socks/Handler/Keeps.antt =====
-- What the checks of a user in src/socks/handler.rs leave alone: the stream and the counts.
use s.Common.{◌≡◌, refl, Option, none, some, Text, text_key}
use s.Quota.Tracker.{QuotaTracker, Reason, check_connection_rate}
use s.Quota.Tracker.Connections.{record_connection}
use s.Auth.User.{User, is_source_ip_allowed, check_time_access}
use s.Proxy.Slots.{Slots}
use s.Socks.Stream.{Stream, Io, Outcome, done, failed}
use s.Socks.Steps.{GrantedIn, require, Everywhere, after-Everywhere, require-Everywhere}
use s.Socks.Handler.{Crates, World, Inputs, on_stream, of_outcome}
use s.Socks.Handler.Relay.{check_user, check_rate, check_quotas, unless_exceeded}

module _ (crates : Crates) where
  open crates use {api, platform}

  -- A relation between the stream and the counts of connections.
  abbrev pub Keeps : (Stream → Slots → Type 0) → World crates → Type 0
  Keeps R w = R w.io w.slots

  unless_exceeded-Keeps :
      (R : Stream → Slots → Type 0) (w : World crates) (r : QuotaTracker × Option Reason)
      → Keeps R w
      → Everywhere (Keeps R) (unless_exceeded crates w r)
  unless_exceeded-Keeps R w (quotas, none) h = h
  unless_exceeded-Keeps R w (quotas, some reason) h = h

  check_quotas-Keeps :
      (i : Inputs crates) (username : Text) (user : User api platform) (R : Stream → Slots → Type 0)
      (w : World crates)
      → Keeps R w
      → Everywhere (Keeps R) (check_quotas crates i username user w)
  unfolding check_quotas
  check_quotas-Keeps i username user R w h =
      after-Everywhere (Keeps R)
        (unless_exceeded crates w (
          check_connection_rate i.calendar w.quotas username user.rate_limits i.limits
            i.rate_clock))
        _ (unless_exceeded-Keeps R w _ h)
        (λ u w1 h1.
          after-Everywhere (Keeps R)
            (unless_exceeded crates w1
              (record_connection i.calendar w1.quotas username user.quotas i.connection_clock))
            _ (unless_exceeded-Keeps R w1 _ h1) (λ v w2 h2. unless_exceeded-Keeps R w2 _ h2))

  pub check_user-Keeps :
      (i : Inputs crates) (username : Text) (user : User api platform) (R : Stream → Slots → Type 0)
      (w : World crates)
      → Keeps R w
      → Everywhere (Keeps R) (check_user crates i username user w)
  unfolding check_user check_rate
  check_user-Keeps i username user R w h =
      after-Everywhere (Keeps R) (require (is_source_ip_allowed api platform user i.peer) w) _
        (require-Everywhere (Keeps R) (is_source_ip_allowed api platform user i.peer) w h)
        (λ a w1 h1.
          after-Everywhere (Keeps R)
            (require (check_time_access api platform user i.access_time) w1) _
            (require-Everywhere (Keeps R) (check_time_access api platform user i.access_time) w1 h1)
            (λ b w2 h2.
              after-Everywhere (Keeps R) (check_rate crates i username user w2) _
                (require-Everywhere (Keeps R) _ _ h2)
                (λ c w3 h3.
                  after-Everywhere (Keeps R) (check_quotas crates i username user w3) _
                    (check_quotas-Keeps i username user R w3 h3)
                    (λ d w4 h4. require-Everywhere (Keeps R) user.allow_forwarding w4 h4))))

  -- What a call on the stream goes on with: its result and the stream that it leaves, all else as it
  -- was.
  pub on_stream-GrantedIn :
      {A : Type 0} (m : Io A) (w : World crates)
      → GrantedIn
          (λ a w'. (m w.io ≡ done a w'.io) × (w'.totp_codes ≡ w.totp_codes) × (w'.slots ≡ w.slots))
          (on_stream crates m w)
  on_stream-GrantedIn {A = A} m w = of (m w.io) refl
    where
      of :
          (o : Outcome A)
          → m w.io ≡ o
          → GrantedIn
              (λ a w'.
                (m w.io ≡ done a w'.io) × (w'.totp_codes ≡ w.totp_codes) × (w'.slots ≡ w.slots))
              (of_outcome crates w o)
      of (done a s) e = (e, refl, refl)
      of (failed x s) e = tt
