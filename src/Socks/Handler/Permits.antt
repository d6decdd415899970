-- ===== src/Socks/Handler/Permits.antt =====
-- What stands behind a relay of src/socks/handler.rs.
use s.Common.{
  ℕ, ◌≡◌, refl, ap, subst, ◌∙◌, ◌==◌, ◌++◌, List, [], ◌∷◌, any, Bool-cases, inl, inr, Bool, true,
  false, Option, none, some, Text, text_key, if◌then◌else◌,
}
use s.Common.Chars.{from_utf8_lossy}
use s.Security.Manager
use s.Security.Manager.{
  Refusal, SecurityManager, rate_limited, disallowed_source, banned_ip, low_reputation,
}
use s.Auth.Password.{Extracted, extracted, panics}
use s.Auth.Service.{UsedCodes, auth_password}
use s.Socks.Stream.{Stream, done, stream}
use s.Socks.Request.{read_greeting, send_method_selection}
use s.Socks.Auth.{Credentials, read_credentials, send_auth_result}
use s.Socks.Handler.Keeps.{on_stream-GrantedIn}
use s.Socks.Handler.Served.{Served, serve-Granted}
use s.Socks.Steps.{goes, Granted, GrantedIn, after-GrantedIn, weaken-Granted, weaken-GrantedIn}
use s.Socks.Handler.{
  Crates, World, Inputs, on_stream, admit_peer, select_method, authenticate, check_parts,
  check_extracted, answer_auth, refused_with, split_password, needs_code,
}
use s.Socks.Handler.Relay.{RelayInfo, serve, socks5_handshake}

module _ (crates : Crates) where
  open crates use {api, gov, rep, platform, verifiers}

  -- The address passes the checks before the greeting.
  abbrev pub PeerAdmitted : Inputs crates → World crates → Type 0
  PeerAdmitted i w =
      (Manager.pre_auth_check api gov rep i.peer i.ip_rate_time i.ban_time w.security).0 ≡ none

  -- What was sent as the password is split into the password of the user and perhaps a code, which
  -- pass with these used codes.
  abbrev pub PasswordRight : Inputs crates → UsedCodes → Text → Text → Type 0
  PasswordRight i used username sent =
      (password : Text) × (code : Option Text) × (split_password crates
          (needs_code crates i username) sent
        ≡ extracted password code)
      × (auth_password api platform verifiers i.auth_service username (from_utf8_lossy password)
            i.auth_time
          ≡ true)
      × ((check_parts crates i username password code used).1 ≡ true)

  -- A stream with these bytes behind those that were written.
  abbrev pub written : Stream → List ℕ → Stream
  written s bytes = stream s.input (s.output ++ bytes)

  -- What stands behind a relay. The client's stream is read from its start: the greeting, then the
  -- name and the password, then the target, each behind what the server has written in between.
  abbrev pub Permitted : Inputs crates → World crates → RelayInfo → Type 0
  Permitted i w info =
      PeerAdmitted i w
      × ((methods : List ℕ) × (greeted : Stream) × (creds : Credentials) × (told : Stream)
          × (read_greeting w.io ≡ done methods greeted)
          × (read_credentials (written greeted (5 ∷ 2 ∷ [])) ≡ done creds told)
          × PasswordRight i w.totp_codes (from_utf8_lossy creds.username) creds.password
          × Served crates i (from_utf8_lossy creds.username) (written told (1 ∷ 0 ∷ [])) w.slots
              info)

  abbrev Answered : World crates → World crates → Type 0
  Answered w w' = (w'.io ≡ written w.io (1 ∷ 0 ∷ [])) × (w'.slots ≡ w.slots)

  answer_auth-Granted :
      (i : Inputs crates) (passed : Bool) (w : World crates)
      → GrantedIn (λ u w'. (passed ≡ true) × Answered w w') (answer_auth crates i passed w)
  unfolding answer_auth send_auth_result
  answer_auth-Granted i true w = (refl, (refl, refl))
  answer_auth-Granted i false w = tt

  right_part :
      (b : Bool) (checked : UsedCodes × Bool) (used : UsedCodes)
      → (if b then checked else (used, false)).1 ≡ true
      → b ≡ true
  right_part true checked used h = refl
  right_part false checked used h = h

  parts_right :
      (i : Inputs crates) (username password : Text) (code : Option Text) (used : UsedCodes)
      → (check_parts crates i username password code used).1 ≡ true
      → auth_password api platform verifiers i.auth_service username
          (from_utf8_lossy password)
          i.auth_time
        ≡ true
  unfolding check_parts
  parts_right i username password code used h =
      right_part
        (auth_password api platform verifiers i.auth_service username (from_utf8_lossy password)
          i.auth_time)
        _ _ h

  check_extracted-Granted :
      (i : Inputs crates) (username sent : Text) (e : Extracted) (w : World crates)
      → split_password crates (needs_code crates i username) sent ≡ e
      → GrantedIn
          (λ u w'. PasswordRight i w.totp_codes username sent × Answered w w')
          (check_extracted crates i username e w)
  unfolding check_extracted
  check_extracted-Granted i username sent panics w split = tt
  check_extracted-Granted i username sent (extracted password code) w split =
      let checked = check_parts crates i username password code w.totp_codes in
      let noted : World crates = record w { totp_codes = checked.0 } in
      weaken-GrantedIn (λ u w'. (checked.1 ≡ true) × Answered noted w')
        (λ u w'. PasswordRight i w.totp_codes username sent × Answered w w')
        (answer_auth crates i checked.1 noted) (answer_auth-Granted i checked.1 noted)
        (λ u w' (h, answered). (
          (password, code, split, parts_right i username password code w.totp_codes h, h),
          answered,
        ))

  authenticate-Granted :
      (i : Inputs crates) (username sent : Text) (w : World crates)
      → GrantedIn
          (λ u w'. PasswordRight i w.totp_codes username sent × Answered w w')
          (authenticate crates i username sent w)
  unfolding authenticate
  authenticate-Granted i username sent w = check_extracted-Granted i username sent _ w refl

  refused_with-Granted :
      (r : Option Refusal) (w : World crates)
      → GrantedIn (λ u w'. (r ≡ none) × (w' ≡ w)) (refused_with crates r w)
  unfolding refused_with
  refused_with-Granted none w = (refl, refl)
  refused_with-Granted (some rate_limited) w = tt
  refused_with-Granted (some disallowed_source) w = tt
  refused_with-Granted (some banned_ip) w = tt
  refused_with-Granted (some low_reputation) w = tt

  admit_peer-Granted :
      (i : Inputs crates) (w : World crates)
      → GrantedIn
          (λ u w'.
            PeerAdmitted i w
            × (w'.io ≡ w.io)
            × (w'.totp_codes ≡ w.totp_codes)
            × (w'.slots ≡ w.slots))
          (admit_peer crates i w)
  unfolding admit_peer
  admit_peer-Granted i w =
      let r = Manager.pre_auth_check api gov rep i.peer i.ip_rate_time i.ban_time w.security in
      let checked : World crates = record w { security = r.1 } in
      weaken-GrantedIn (λ u w'. (r.0 ≡ none) × (w' ≡ checked))
        (λ u w'.
          PeerAdmitted i w × (w'.io ≡ w.io) × (w'.totp_codes ≡ w.totp_codes) × (w'.slots ≡ w.slots))
        (refused_with crates r.0 checked) (refused_with-Granted r.0 checked)
        (λ u w' (admitted, same).
          (admitted, ap (λ v. v.io) same, ap (λ v. v.totp_codes) same, ap (λ v. v.slots) same))

  select_method-Granted :
      (methods : List ℕ) (w : World crates)
      → GrantedIn
          (λ u w'. w' ≡ record w { io = written w.io (5 ∷ 2 ∷ []) })
          (select_method crates methods w)
  unfolding select_method send_method_selection
  select_method-Granted methods w = elim (Bool-cases (any (λ m. m == 2) methods)) [
    | inl offered ↦ rw offered refl
    | inr missing ↦ rw missing tt
  ]

  serve-Permitted :
      (i : Inputs crates) (w w1 : World crates) (methods : List ℕ) (greeted told : Stream)
      (creds : Credentials)
      → PeerAdmitted i w
      → read_greeting w.io ≡ done methods greeted
      → read_credentials (written greeted (5 ∷ 2 ∷ [])) ≡ done creds told
      → PasswordRight i w.totp_codes (from_utf8_lossy creds.username) creds.password
      → w1.io ≡ written told (1 ∷ 0 ∷ [])
      → w1.slots ≡ w.slots
      → Granted (Permitted i w) (serve crates i (from_utf8_lossy creds.username) w1)
  serve-Permitted i w w1 methods greeted told creds peer greeting read right io slots =
      let name = from_utf8_lossy creds.username in
      weaken-Granted _ (Permitted i w) _ (serve-Granted crates i name w1) (λ info served. (
        peer,
        (
          methods,
          greeted,
          creds,
          told,
          greeting,
          read,
          right,
          subst (λ x. Served crates i name (written told (1 ∷ 0 ∷ [])) x info) slots
              (subst (λ x. Served crates i name x w1.slots info) io served),
        ),
      ))

  handshake-Granted :
      (i : Inputs crates) (w : World crates) → Granted (Permitted i w) (socks5_handshake crates i w)
  unfolding socks5_handshake
  handshake-Granted i w =
      after-GrantedIn _ (Permitted i w) (admit_peer crates i w) _ (admit_peer-Granted i w)
        (λ u w1 (peer, io1, codes1, slots1).
          after-GrantedIn _ (Permitted i w) (on_stream crates read_greeting w1) _
            (on_stream-GrantedIn crates read_greeting w1)
            (λ methods w2 (greeting, codes2, slots2).
              after-GrantedIn _ (Permitted i w) (select_method crates methods w2) _
                (select_method-Granted methods w2)
                (λ v w3 chosen.
                  after-GrantedIn _ (Permitted i w) (on_stream crates read_credentials w3) _
                    (on_stream-GrantedIn crates read_credentials w3)
                    (λ creds w4 (read, codes4, slots4).
                      let name = from_utf8_lossy creds.username in
                      after-GrantedIn _ (Permitted i w)
                        (authenticate crates i name creds.password w4) _
                        (authenticate-Granted i name creds.password w4)
                        (λ t w5 (right, (io5, slots5)).
                          serve-Permitted i w w5 methods w2.io w4.io creds peer
                            (subst (λ x. read_greeting x ≡ done methods w2.io) io1 greeting)
                            (subst (λ x. read_credentials x.io ≡ done creds w4.io) chosen read)
                            (subst (λ x. PasswordRight i x name creds.password)
                              (codes4 ∙ ap (λ x. x.totp_codes) chosen ∙ codes2 ∙ codes1) right)
                            io5 (slots5 ∙ slots4 ∙ ap (λ x. x.slots) chosen ∙ slots2 ∙ slots1))))))

  -- A handshake ends in a relay only for an address that passes the checks before the greeting, and
  -- when the stream of the client, read from its start, brings a greeting, then a name and a
  -- password, with its code if there is one, that are those of a known user, who may come from that
  -- address at that time and may forward, and then a target; and the relay leads to the address that
  -- the proxy engine connected this user to for this target.
  pub relay-Permitted :
      (i : Inputs crates) (w w' : World crates) (info : RelayInfo)
      → socks5_handshake crates i w ≡ goes info w'
      → Permitted i w info
  relay-Permitted i w w' info e = subst (Granted (Permitted i w)) e (handshake-Granted i w)
