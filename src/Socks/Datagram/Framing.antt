-- ===== src/Socks/Datagram/Framing.antt =====
-- Headers of datagrams as `UdpHeader` of src/socks/protocol.rs reads back what it writes.
use s.Common.{
  ℕ, zero, suc, ap, ◌∙◌, subst, inl, inr, Bool-cases, Option-cases, ◌+◌, ◌-◌, ◌/◌, ◌%◌, ◌≤◌, ◌≡◌,
  refl, true, false, some, List, [], ◌∷◌, ◌++◌, arith, ltb, length, take, get_or,
}
use s.Common.Utf8.{is_utf8}
use s.Socks.{TargetAddr, ipv4, ipv6, domain, address_bytes, atyp_domain, be_bytes, IsTarget}
use s.Socks.Datagram.{
  UdpHeader, Parsed, ok, err, slice, port_at, parse_ipv4, parse_domain, parse_ipv6, with_frag,
  parse, serialize,
}

-- The address and the port, with the payload behind them.
address_back :
    (n hi lo : ℕ) (address payload : List ℕ)
    → length address ≡ n
    → (take n ((address ++ hi ∷ lo ∷ []) ++ payload) ≡ address)
      × (get_or ((address ++ hi ∷ lo ∷ []) ++ payload) n 0 ≡ hi)
      × (get_or ((address ++ hi ∷ lo ∷ []) ++ payload) (suc n) 0 ≡ lo)
      × (length ((address ++ hi ∷ lo ∷ []) ++ payload) ≡ n + 2 + length payload)
      × (length (address ++ hi ∷ lo ∷ []) ≡ n + 2)
address_back zero hi lo [] payload e = (refl, refl, refl, omega arith, omega arith)
address_back zero hi lo (a ∷ as') payload e = absurd (ground (arith, e))
address_back (suc n) hi lo [] payload e = absurd (ground (arith, e))
address_back (suc n) hi lo (a ∷ address) payload e =
    let (t, h, l, m, k) = address_back n hi lo address payload (ground (arith, e)) in
    (ap (◌∷◌ a) t, h, l, ground (arith, m), ground (arith, k))

get_or_behind :
    (a b c d e i : ℕ) (rest : List ℕ)
    → get_or (a ∷ b ∷ c ∷ d ∷ e ∷ rest) (5 + i) 0 ≡ get_or rest i 0
get_or_behind a b c d e i rest =
    let shift : 5 + i ≡ suc (suc (suc (suc (suc i)))) = omega arith in
    ap (λ n. get_or (a ∷ b ∷ c ∷ d ∷ e ∷ rest) n 0) shift

-- A parsed header is at least seven bytes long and lies within the datagram.
abbrev Bounded : {A : Type 0} → ℕ → Parsed (A × ℕ) → Type 0
Bounded n (err e) = Unit
Bounded n (ok (a, consumed)) = (7 ≤ consumed) × (consumed ≤ n)

ipv4-Bounded : (datagram : List ℕ) → Bounded (length datagram) (parse_ipv4 datagram)
unfolding parse_ipv4
ipv4-Bounded datagram = elim (Bool-cases (ltb (length datagram) 10)) [
  | inl short ↦ rw short tt
  | inr long ↦ rw long (omega arith, ground (arith, long))
]

ipv6-Bounded : (datagram : List ℕ) → Bounded (length datagram) (parse_ipv6 datagram)
unfolding parse_ipv6
ipv6-Bounded datagram = elim (Bool-cases (ltb (length datagram) 22)) [
  | inl short ↦ rw short tt
  | inr long ↦ rw long (omega arith, ground (arith, long))
]

domain-Bounded : (datagram : List ℕ) → Bounded (length datagram) (parse_domain datagram)
unfolding parse_domain
domain-Bounded datagram =
    let len : ℕ = get_or datagram 4 0 in
    elim (Bool-cases (ltb (length datagram) 5)) [
      | inl none_left ↦ rw none_left tt
      | inr some_left ↦ elim (Bool-cases (ltb (length datagram) (5 + len + 2))) [
        | inl short ↦ rw (some_left, short) tt
        | inr long ↦ elim (Bool-cases (is_utf8 (slice datagram 5 (5 + len)))) [
          | inl text ↦ rw (some_left, long, text) (omega arith, ground (arith, long))
          | inr noise ↦ rw (some_left, long, noise) tt
        ]
      ]
    ]

with_frag-Bounded :
    (n frag : ℕ) (r : Parsed (TargetAddr × ℕ)) → Bounded n r → Bounded n (with_frag frag r)
with_frag-Bounded n frag (ok (target, offset)) b = b
with_frag-Bounded n frag (err e) b = tt

parse-Bounded : (datagram : List ℕ) → Bounded (length datagram) (parse datagram)
unfolding parse
parse-Bounded datagram =
    let n : ℕ = length datagram in
    let frag : ℕ = get_or datagram 2 0 in
    ground (
      arith,
      with_frag-Bounded n frag (parse_ipv4 datagram) (ipv4-Bounded datagram),
      with_frag-Bounded n frag (parse_ipv6 datagram) (ipv6-Bounded datagram),
      with_frag-Bounded n frag (parse_domain datagram) (domain-Bounded datagram),
    )

-- A parsed header is at least seven bytes long and lies within the datagram, so that the payload
-- can be cut off behind it.
parse_bounds :
    (datagram : List ℕ) (h : UdpHeader) (consumed : ℕ)
    → parse datagram ≡ ok (h, consumed)
    → (7 ≤ consumed) × (consumed ≤ length datagram)
parse_bounds datagram h consumed e = subst (Bounded (length datagram)) e (parse-Bounded datagram)

-- A name, its length in front of it and its port behind it.
module _ (frag p : ℕ) (name payload : List ℕ) where
  abbrev framed : List ℕ
  framed = 0 ∷ 0 ∷ frag ∷ atyp_domain ∷ length name ∷ (name ++ be_bytes p) ++ payload

  framed-name : slice framed 5 (5 + length name) ≡ name
  unfolding slice
  framed-name =
      let from : 5 + length name - 5 ≡ length name = omega arith in
      ap (λ n. take n ((name ++ be_bytes p) ++ payload)) from
      ∙ (address_back (length name) (p / 256) (p % 256) name payload refl).0

  framed_port : port_at framed (5 + length name) ≡ p
  unfolding port_at
  framed_port =
      let rest : List ℕ = (name ++ be_bytes p) ++ payload in
      let next : 5 + length name + 1 ≡ 5 + suc (length name) = omega arith in
      let back = address_back (length name) (p / 256) (p % 256) name payload refl in
      rw
        (
          next,
          get_or_behind 0 0 frag 3 (length name) (length name) rest,
          get_or_behind 0 0 frag 3 (length name) (suc (length name)) rest,
          back.1,
          back.2,
        )
        (omega arith)

  framed-length : length framed ≡ 5 + length name + 2 + length payload
  framed-length =
      omega (arith, (address_back (length name) (p / 256) (p % 256) name payload refl).3)

  parse_framed : is_utf8 name ≡ true → parse_domain framed ≡ ok (domain name p, 5 + length name + 2)
  unfolding parse_domain
  parse_framed text =
      let enough : ltb (length framed) 5 ≡ false = ground (arith, framed-length) in
      let room : ltb (length framed) (5 + length name + 2) ≡ false =
        ground (arith, framed-length) in
      rw (enough, room, framed-name, text, framed_port) refl

parse_prefixed :
    (frag : ℕ) (target : TargetAddr) (bytes payload : List ℕ)
    → IsTarget target
    → address_bytes target ≡ some bytes
    → parse (0 ∷ 0 ∷ frag ∷ bytes ++ payload)
      ≡ ok (record { frag = frag; target = target }, 3 + length bytes)
unfolding parse address_bytes
parse_prefixed frag (ipv4 ip p) bytes payload w e =
    ground (arith, e, address_back 4 (p / 256) (p % 256) ip payload w.0)
parse_prefixed frag (ipv6 ip p) bytes payload w e =
    ground (arith, e, address_back 16 (p / 256) (p % 256) ip payload w.0)
parse_prefixed frag (domain name p) bytes payload w e = ground (
  arith,
  e,
  parse_framed frag p name payload w.0,
  framed-length frag p name payload,
  (address_back (length name) (p / 256) (p % 256) name payload refl).4,
)

-- A header that is written in front of a payload is read back, and its end found.
pub parse-serialize :
    (h : UdpHeader) (bytes payload : List ℕ)
    → IsTarget h.target
    → serialize h ≡ some bytes
    → parse (bytes ++ payload) ≡ ok (h, length bytes)
unfolding serialize
parse-serialize h bytes payload w e = elim (Option-cases (address_bytes h.target)) [
  | inl too_long ↦ ground (arith, e, too_long)
  | inr (address, fits) ↦
      ground (arith, e, fits, parse_prefixed h.frag h.target address payload w fits)
]
