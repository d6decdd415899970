-- ===== src/Socks/Roundtrip.antt =====
-- What src/socks/protocol.rs reads of a request that a client encodes as RFC 1928 says.
use s.Common.{
  ℕ, ◌≤◌, ◌≡◌, ◌≢◌, refl, ap, subst, ◌∙◌, true, none, some, List, [], ◌∷◌, ◌++◌, arith, length,
}
use s.Common.Utf8.{is_utf8}
use s.Net.{NetApi}
use s.Socks.{
  TargetAddr, ipv4, ipv6, domain, socks_version, cmd_connect, cmd_udp_associate, be_bytes,
  address_bytes,
}
use s.Socks.Domain.{validate_domain}
use s.Socks.Stream.{stream, done, read_u8, read_exact, read_exact-append, read_u16-be_bytes}
use s.Socks.Request.{
  read_greeting, connect, udp_associate, read_ipv4, read_ipv6, read_domain, read_target,
  read_request, read_connect_request, dispatch, require_version, require_connect,
}

-- A target that the server takes: an address, or a valid name.
abbrev pub IsAccepted : NetApi → TargetAddr → Type 0
IsAccepted api (ipv4 ip p) = length ip ≡ 4
IsAccepted api (ipv6 ip p) = length ip ≡ 16
IsAccepted api (domain name p) =
    (is_utf8 name ≡ true) × (validate_domain api name ≡ none) × (length name ≤ 253)

++_assoc : (xs ys zs : List ℕ) → ((xs ++ ys) ++ zs) ≡ xs ++ (ys ++ zs)
++_assoc [] ys zs = refl
++_assoc (x ∷ xs) ys zs = ap (◌∷◌ x) (++_assoc xs ys zs)

-- An array of bytes in front of a port.
read_exact_back :
    (n p : ℕ) (bytes rest output : List ℕ)
    → length bytes ≡ n
    → read_exact n (stream ((bytes ++ be_bytes p) ++ rest) output)
      ≡ done bytes (stream (be_bytes p ++ rest) output)
read_exact_back n p bytes rest output e =
    subst
      (λ m.
        read_exact m (stream ((bytes ++ be_bytes p) ++ rest) output)
        ≡ done bytes (stream (be_bytes p ++ rest) output))
      e
      (ap (λ input. read_exact (length bytes) (stream input output))
          (++_assoc bytes (be_bytes p) rest)
        ∙ read_exact-append bytes (be_bytes p ++ rest) output)

read_target_back :
    (api : NetApi) (atyp : ℕ) (target : TargetAddr) (address rest output : List ℕ)
    → IsAccepted api target
    → address_bytes target ≡ some (atyp ∷ address)
    → read_target api atyp (stream (address ++ rest) output) ≡ done target (stream rest output)
unfolding read_target read_ipv4 read_ipv6 read_domain address_bytes
read_target_back api atyp (ipv4 ip p) address rest output w e =
    ground (arith, e, read_exact_back 4 p ip rest output w, read_u16-be_bytes p rest output)
read_target_back api atyp (ipv6 ip p) address rest output w e =
    ground (arith, e, read_exact_back 16 p ip rest output w, read_u16-be_bytes p rest output)
read_target_back api atyp (domain name p) address rest output w e = ground (
  arith,
  e,
  w.0,
  w.1,
  read_exact_back (length name) p name rest output refl,
  read_u16-be_bytes p rest output,
)

no_empty_address : (target : TargetAddr) → address_bytes target ≢ some []
unfolding address_bytes
no_empty_address (ipv4 ip p) e = ground (arith, e)
no_empty_address (ipv6 ip p) e = ground (arith, e)
no_empty_address (domain name p) e = ground (arith, e)

-- A request for an accepted target is read back as it was sent, to its last byte and without an
-- answer, whatever its reserved byte.
pub read_request-encoded :
    (api : NetApi) (rsv : ℕ) (target : TargetAddr) (bytes rest output : List ℕ)
    → IsAccepted api target
    → address_bytes target ≡ some bytes
    → (read_request api (stream (socks_version ∷ cmd_connect ∷ rsv ∷ bytes ++ rest) output)
        ≡ done (connect target) (stream rest output))
      × (read_request api (stream (socks_version ∷ cmd_udp_associate ∷ rsv ∷ bytes ++ rest) output)
          ≡ done (udp_associate target) (stream rest output))
      × (read_connect_request api
            (stream (socks_version ∷ cmd_connect ∷ rsv ∷ bytes ++ rest) output)
          ≡ done target (stream rest output))
unfolding read_request read_connect_request read_u8 require_version require_connect dispatch
read_request-encoded api rsv target [] rest output w e = absurd (no_empty_address target e)
read_request-encoded api rsv target (atyp ∷ address) rest output w e =
    let back = read_target_back api atyp target address rest output w e in
    (ground (arith, back), ground (arith, back), ground (arith, back))

-- A greeting that offers any method at all is read back.
read_greeting-encoded :
    (methods rest output : List ℕ)
    → methods ≢ []
    → read_greeting (stream (socks_version ∷ length methods ∷ methods ++ rest) output)
      ≡ done methods (stream rest output)
unfolding read_greeting read_u8 require_version
read_greeting-encoded [] rest output ne = absurd (ne refl)
read_greeting-encoded (m ∷ ms) rest output ne =
    ground (arith, read_exact-append (m ∷ ms) rest output)
