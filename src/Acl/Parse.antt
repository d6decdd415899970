-- ===== src/Acl/Parse.antt =====
-- The text of a rule in src/config/acl.rs: `split_host_port` and `AclRule::parse`.
use s.Common.{
  ℕ, ◌<◌, ◌≡◌, ◌≢◌, refl, Bool, true, false, not, ◌&&◌, ◌++◌, List, [], ◌∷◌, Option, none, some,
  arith, ◌==◌, if◌then◌else◌, Text, All,
}
use s.Common.Decimal.{decimal, decimal-digits, IsDigit}
use s.Net.{NetApi}
use s.Acl.{AclRule, cidr, host_pattern, print_rule}
use s.Acl.Port.{
  PortMatch, PortError, PortResult, any_port, exact, range, print_port, parse_port_match,
  split_once, IsPort, parse_port_match-print_port,
}
use s.Acl.Pattern.{lower}

pub data AclError : Type 0 where
  unclosed_bracket : AclError
  bad_port : PortError → AclError

pub data Result {ℓ} (A : Type ℓ) : Type ℓ where
  ok : A → Result A
  err : AclError → Result A

infixl 5 ◌>>=◌
abbrev pub ◌>>=◌ {ℓ κ} : {A : Type ℓ} {B : Type κ} → Result A → (A → Result B) → Result B
ok a >>= f = f a
err e >>= f = err e

unfoldable pub contains_byte : ℕ → Text → Bool
contains_byte c [] = false
contains_byte c (x ∷ xs) = if x == c then true else contains_byte c xs

-- `rfind`: the text before and behind the last `c`.
unfoldable pub rsplit_once : ℕ → Text → Option (Text × Text)
rsplit_once c [] = none
rsplit_once c (x ∷ xs) = elim (rsplit_once c xs) [
  | some (a, b) ↦ some (x ∷ a, b)
  | none ↦ if x == c then some ([], xs) else none
]

abbrev pub star : Text
star = b'*' ∷ []

-- What stands behind the bracket.
unfoldable pub port_behind : Text → Text
port_behind [] = star
port_behind (c ∷ port) = if c == b':' then port else star

unfoldable pub split_bracketed : Option (Text × Text) → Result (Text × Text)
unfolding port_behind
split_bracketed none = err unclosed_bracket
split_bracketed (some (host, behind)) = ok (host, port_behind behind)

unfoldable pub split_plain : Text → Option (Text × Text) → Text × Text
split_plain rule none = (rule, star)
split_plain rule (some (host, port)) =
    if contains_byte b':' host && not (contains_byte b'/' host) then (rule, star) else (host, port)

unfoldable pub split_host_port : Text → Result (Text × Text)
unfolding split_bracketed split_plain
split_host_port [] = ok ([], star)
split_host_port (c ∷ cs) =
    if c == b'['
    then split_bracketed (split_once b']' cs)
    else ok (split_plain (c ∷ cs) (rsplit_once b':' (c ∷ cs)))

unfoldable pub of_port : PortResult → Result PortMatch
of_port (PortResult.ok pm) = ok pm
of_port (PortResult.err e) = err (bad_port e)

module _ (api : NetApi) where
  open api use {Net, of_ip, parse_net, parse_ip, print_net}

  -- A network, an address, or else a pattern in lower case.
  unfoldable pub classify_host : Text → PortMatch → AclRule Net
  classify_host host pm = elim (parse_net host) [
    | some network ↦ cidr network pm
    | none ↦ elim (parse_ip host) [
      | some ip ↦ cidr (of_ip ip) pm
      | none ↦ host_pattern (lower host) pm
    ]
  ]

  unfoldable pub parse : Text → Result (AclRule Net)
  unfolding split_host_port of_port classify_host
  parse rule = do
    parts ← split_host_port rule
    port ← of_port (parse_port_match parts.1)
    ok (classify_host parts.0 port)

  -- `iter().map(parse).collect()`: the rules, or the first error.
  unfoldable pub parse_rules : List Text → Result (List (AclRule Net))
  unfolding parse
  parse_rules [] = ok []
  parse_rules (r ∷ rs) = do rule ← parse r; rules ← parse_rules rs; ok (rule ∷ rules)

  -- A rule that `Display` and `parse` agree on.
  abbrev pub IsPrintable : AclRule Net → Type 0
  IsPrintable (cidr network pm) = IsPort pm
  IsPrintable (host_pattern pattern pm) =
      IsPort pm
      × (pattern ≢ [])
      × (contains_byte b':' pattern ≡ false)
      × (contains_byte b'[' pattern ≡ false)
      × (lower pattern ≡ pattern)
      × (parse_net pattern ≡ none)
      × (parse_ip pattern ≡ none)

rsplit_once-none : (c : ℕ) (xs : Text) → contains_byte c xs ≡ false → rsplit_once c xs ≡ none
unfolding rsplit_once contains_byte
rsplit_once-none c [] h = refl
rsplit_once-none c (x ∷ xs) h = ground (arith, rsplit_once-none c xs)

rsplit_once-append :
    (c : ℕ) (xs ys : Text)
    → contains_byte c ys ≡ false
    → rsplit_once c (xs ++ c ∷ ys) ≡ some (xs, ys)
unfolding rsplit_once
rsplit_once-append c [] ys h = ground (arith, rsplit_once-none c ys h)
rsplit_once-append c (x ∷ xs) ys h = ground (arith, rsplit_once-append c xs ys h)

contains_byte-digits : (c : ℕ) (xs : Text) → 57 < c → All IsDigit xs → contains_byte c xs ≡ false
unfolding contains_byte
contains_byte-digits c [] h d = refl
contains_byte-digits c (x ∷ xs) h d = ground (arith, contains_byte-digits c xs h d.1)

contains_byte-append :
    (c : ℕ) (xs ys : Text)
    → contains_byte c xs ≡ false
    → contains_byte c ys ≡ false
    → contains_byte c (xs ++ ys) ≡ false
unfolding contains_byte
contains_byte-append c [] ys h k = k
contains_byte-append c (x ∷ xs) ys h k = ground (arith, contains_byte-append c xs ys)

no_colon_in_port : (pm : PortMatch) → contains_byte b':' (print_port pm) ≡ false
unfolding print_port contains_byte
no_colon_in_port any_port = refl
no_colon_in_port (exact p) = contains_byte-digits b':' (decimal p) (omega arith) (decimal-digits p)
no_colon_in_port (range lo hi) =
    contains_byte-append b':' (decimal lo) (b'-' ∷ decimal hi)
      (contains_byte-digits b':' (decimal lo) (omega arith) (decimal-digits lo))
      (contains_byte-digits b':' (decimal hi) (omega arith) (decimal-digits hi))

-- A rule's text falls apart at its last colon.
split-printed :
    (host : Text) (pm : PortMatch)
    → host ≢ []
    → contains_byte b'[' host ≡ false
    → (contains_byte b':' host && not (contains_byte b'/' host)) ≡ false
    → split_host_port (host ++ b':' ∷ print_port pm) ≡ ok (host, print_port pm)
unfolding split_host_port contains_byte
split-printed [] pm ne nb nc = absurd (ne refl)
split-printed (h ∷ hs) pm ne nb nc =
    ground (arith, rsplit_once-append b':' (h ∷ hs) (print_port pm) (no_colon_in_port pm))

some_byte : (c : ℕ) (xs : Text) → contains_byte c xs ≡ true → xs ≢ []
unfolding contains_byte
some_byte c [] h e = cc
some_byte c (x ∷ xs) h e = cc

slash_saves :
    (xs : Text)
    → contains_byte b'/' xs ≡ true
    → (contains_byte b':' xs && not (contains_byte b'/' xs)) ≡ false
slash_saves xs h = ground (arith, h)

module _ (api : NetApi) (parse-print : (n : api.Net) → api.parse_net (api.print_net n) ≡ some n)
    (has_slash : (n : api.Net) → contains_byte b'/' (api.print_net n) ≡ true)
    (no_bracket : (n : api.Net) → contains_byte b'[' (api.print_net n) ≡ false) where
  -- A rule that is printed and parsed comes back, given that `ipnet` reads back the networks that
  -- it prints, and prints them with a slash and without a bracket; when the ports of the rule are
  -- valid, and its pattern of names, where it has one, is not empty, is in lower case, holds no
  -- colon and no opening bracket, and reads neither as a network nor as an address.
  pub parse-print_rule :
      (r : AclRule api.Net) → IsPrintable api r → parse api (print_rule api r) ≡ ok r
  unfolding parse print_rule
  parse-print_rule (cidr network pm) h =
      let name : Text = api.print_net network in
      ground (
        arith,
        split-printed name pm (some_byte b'/' name (has_slash network)) (no_bracket network)
            (slash_saves name (has_slash network)),
        parse_port_match-print_port pm h,
        parse-print network,
      )
  parse-print_rule (host_pattern pattern pm) h =
      ground (arith, split-printed pattern pm h.1 h.3, parse_port_match-print_port pm h.0)
