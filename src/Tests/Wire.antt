-- ===== src/Tests/Wire.antt =====
-- SOCKS5 messages byte by byte (src/socks/protocol.rs).
use s.Common.{
  ℕ, ◌≤◌, ◌<◌, ◌≡◌, ◌≢◌, refl, Bool, true, false, Option, none, some, List, [], ◌∷◌, ◌++◌, Text,
  arith, codes, All, length,
}
use s.Socks.{TargetAddr, ipv4, domain}
use s.Socks.Domain.{validate_domain}
use s.Socks.Stream.{stream, done}
use s.Socks.Request.{connect, udp_associate, read_request, read_connect_request}
use s.Socks.Roundtrip.{read_request-encoded}
use s.Socks.Replies.{Answers, requests_answer}
use s.Socks.Datagram.{UdpHeader, Parsed, parse, serialize}
use s.Socks.Datagram.Framing.{parse-serialize}
use s.Tests.Data.{api}

abbrev name : Text
name = codes "a-b.org"

abbrev target : TargetAddr
target = domain name 443

abbrev address : List ℕ
address = 3 ∷ 7 ∷ name ++ 1 ∷ 187 ∷ []

read_request-encoded_example :
    (read_request api (stream (5 ∷ 1 ∷ 0 ∷ address ++ 9 ∷ []) [])
      ≡ done (connect target) (stream (9 ∷ []) []))
    × (read_request api (stream (5 ∷ 3 ∷ 0 ∷ address ++ 9 ∷ []) [])
        ≡ done (udp_associate target) (stream (9 ∷ []) []))
    × (read_connect_request api (stream (5 ∷ 1 ∷ 0 ∷ address ++ 9 ∷ []) [])
        ≡ done target (stream (9 ∷ []) []))
unfolding validate_domain s.Common.Utf8.is_utf8 s.Socks.address_bytes
read_request-encoded_example =
    read_request-encoded api 0 target address (9 ∷ []) [] (refl, refl, omega arith) refl

requests_answer_example :
    Answers [] (read_request api (stream (5 ∷ 2 ∷ 0 ∷ address) []))
    × Answers [] (read_connect_request api (stream (5 ∷ 2 ∷ 0 ∷ address) []))
requests_answer_example = requests_answer api (stream (5 ∷ 2 ∷ 0 ∷ address) [])

abbrev header : UdpHeader
header = record { frag = 0; target = target }

parse-serialize_example : parse (0 ∷ 0 ∷ 0 ∷ address ++ 1 ∷ 2 ∷ []) ≡ Parsed.ok (header, 14)
unfolding s.Common.Utf8.is_utf8 serialize
parse-serialize_example =
    parse-serialize header (0 ∷ 0 ∷ 0 ∷ address) (1 ∷ 2 ∷ []) (refl, omega arith) refl
