-- ===== src/Socks/Replies.antt =====
-- What the server of src/socks/protocol.rs has written when a request is read, or has failed.
use s.Common.{ℕ, zero, suc, ◌≡◌, refl, ap, subst, Option, none, some, List, [], ◌∷◌, ◌++◌, arith}
use s.Net.{NetApi}
use s.Socks.{
  TargetAddr, socks_version, reply_host_unreachable, reply_address_type_not_supported,
  reply_command_not_supported,
}
use s.Socks.Domain.{DomainError, validate_domain}
use s.Socks.Stream.{
  SocksError, unexpected_eof, no_methods, empty_name, empty_username, empty_password,
  invalid_encoding, reply_too_long, invalid_version, unsupported_command, unsupported_address_type,
  name_too_long, invalid_domain, Stream, Outcome, done, failed, Io, and_then, ◌>>=◌, read_u8,
  read_exact, read_u16, read_from, send_reply, from_utf8,
}
use s.Socks.Request.{
  require_version, require_length, accept, read_ipv4, read_ipv6, read_domain, read_target,
  read_request, read_connect_request, dispatch, require_connect,
}

-- A refusal on the wire: its code, and the address 0.0.0.0:0.
abbrev pub reply_bytes : ℕ → List ℕ
reply_bytes reply = socks_version ∷ reply ∷ 0 ∷ 1 ∷ 0 ∷ 0 ∷ 0 ∷ 0 ∷ 0 ∷ 0 ∷ []

-- Which errors the client is told, and how.
abbrev pub told : SocksError → List ℕ
told unexpected_eof = []
told no_methods = []
told empty_name = []
told empty_username = []
told empty_password = []
told invalid_encoding = []
told reply_too_long = []
told (invalid_version v) = []
told (unsupported_command c) = reply_bytes reply_command_not_supported
told (unsupported_address_type t) = reply_bytes reply_address_type_not_supported
told (name_too_long n) = []
told (invalid_domain e) = reply_bytes reply_host_unreachable

-- Success writes nothing, and a failure writes what the client is told of it.
abbrev pub Answers : {A : Type 0} → List ℕ → Outcome A → Type 0
Answers output (done a s) = s.output ≡ output
Answers output (failed e s) = s.output ≡ output ++ told e

bind-Answers :
    {A B : Type 0} (output : List ℕ) (m : Outcome A) (f : A → Io B)
    → Answers output m
    → ((a : A) (s : Stream) → Answers s.output (f a s))
    → Answers output (and_then m f)
bind-Answers output (done a s) f h k = subst (λ o. Answers o (f a s)) h (k a s)
bind-Answers output (failed e s) f h k = h

append_nil : (xs : List ℕ) → xs ≡ xs ++ []
append_nil [] = refl
append_nil (x ∷ xs) = ap (◌∷◌ x) (append_nil xs)

read_from-Answers : (input output : List ℕ) → Answers output (read_from input output)
read_from-Answers [] output = append_nil output
read_from-Answers (b ∷ bs) output = refl

read_u8-Answers : (s : Stream) → Answers s.output (read_u8 s)
unfolding read_u8
read_u8-Answers s = read_from-Answers s.input s.output

read_exact-Answers : (n : ℕ) (s : Stream) → Answers s.output (read_exact n s)
unfolding read_exact
read_exact-Answers zero s = refl
read_exact-Answers (suc n) s =
    bind-Answers s.output (read_u8 s) _ (read_u8-Answers s) (λ b s'.
      bind-Answers s'.output (read_exact n s') _ (read_exact-Answers n s') (λ bs s''. refl))

read_u16-Answers : (s : Stream) → Answers s.output (read_u16 s)
unfolding read_u16
read_u16-Answers s =
    bind-Answers s.output (read_u8 s) _ (read_u8-Answers s)
      (λ hi s'. bind-Answers s'.output (read_u8 s') _ (read_u8-Answers s') (λ lo s''. refl))

require_version-Answers : (v : ℕ) (s : Stream) → Answers s.output (require_version v s)
unfolding require_version
require_version-Answers v s = ground (arith, append_nil s.output)

require_length-Answers : (n : ℕ) (s : Stream) → Answers s.output (require_length n s)
unfolding require_length
require_length-Answers n s = ground (arith, append_nil s.output)

from_utf8-Answers : (bs : List ℕ) (s : Stream) → Answers s.output (from_utf8 bs s)
unfolding from_utf8
from_utf8-Answers bs s = ground (arith, append_nil s.output)

accept-Answers : (o : Option DomainError) (s : Stream) → Answers s.output (accept o s)
unfolding send_reply
accept-Answers none s = refl
accept-Answers (some e) s = refl

then-Answers :
    {A B : Type 0} (m : Io A) (f : A → Io B)
    → ((s : Stream) → Answers s.output (m s))
    → ((a : A) (s : Stream) → Answers s.output (f a s))
    → (s : Stream) → Answers s.output ((m >>= f) s)
then-Answers m f h k s = bind-Answers s.output (m s) f (h s) k

read_ipv4-Answers : (s : Stream) → Answers s.output (read_ipv4 s)
unfolding read_ipv4
read_ipv4-Answers =
    then-Answers (read_exact 4) _ (read_exact-Answers 4)
      (λ ip. then-Answers read_u16 _ read_u16-Answers (λ p s. refl))

read_ipv6-Answers : (s : Stream) → Answers s.output (read_ipv6 s)
unfolding read_ipv6
read_ipv6-Answers =
    then-Answers (read_exact 16) _ (read_exact-Answers 16)
      (λ ip. then-Answers read_u16 _ read_u16-Answers (λ p s. refl))

read_domain-Answers : (api : NetApi) (s : Stream) → Answers s.output (read_domain api s)
unfolding read_domain
read_domain-Answers api = then-Answers read_u8 _ read_u8-Answers (λ len.
    then-Answers (require_length len) _ (require_length-Answers len) (λ u.
      then-Answers (read_exact len) _ (read_exact-Answers len) (λ bytes.
        then-Answers (from_utf8 bytes) _ (from_utf8-Answers bytes) (λ name.
          then-Answers (accept (validate_domain api name)) _
            (accept-Answers (validate_domain api name))
            (λ v. then-Answers read_u16 _ read_u16-Answers (λ p s. refl))))))

read_target-Answers :
    (api : NetApi) (atyp : ℕ) (s : Stream) → Answers s.output (read_target api atyp s)
unfolding read_target
read_target-Answers api atyp s =
    ground (arith, read_ipv4-Answers s, read_ipv6-Answers s, read_domain-Answers api s)

dispatch-Answers : (cmd : ℕ) (t : TargetAddr) (s : Stream) → Answers s.output (dispatch cmd t s)
unfolding dispatch
dispatch-Answers cmd t s = ground arith

require_connect-Answers : (cmd : ℕ) (s : Stream) → Answers s.output (require_connect cmd s)
unfolding require_connect
require_connect-Answers cmd s = ground arith

-- A request that is read has been answered with nothing yet. One that is refused for its command,
-- for the type of its address, or for a name that `validate_domain` refuses has been answered with
-- the one reply that says so. One that fails in another way, such as by a name that is empty, too
-- long or not UTF-8, has been answered with nothing.
pub requests_answer :
    (api : NetApi) (s : Stream)
    → Answers s.output (read_request api s) × Answers s.output (read_connect_request api s)
unfolding read_request read_connect_request
requests_answer api s = (
  then-Answers read_u8 _ read_u8-Answers
      (λ ver. then-Answers (require_version ver) _ (require_version-Answers ver) (λ u.
        then-Answers read_u8 _ read_u8-Answers (λ cmd.
          then-Answers read_u8 _ read_u8-Answers (λ rsv.
            then-Answers read_u8 _ read_u8-Answers (λ atyp.
              then-Answers (read_target api atyp) _ (read_target-Answers api atyp)
                (λ target. dispatch-Answers cmd target))))))
      s,
  then-Answers read_u8 _ read_u8-Answers
      (λ ver. then-Answers (require_version ver) _ (require_version-Answers ver) (λ u.
        then-Answers read_u8 _ read_u8-Answers (λ cmd.
          then-Answers (require_connect cmd) _ (require_connect-Answers cmd) (λ v.
            then-Answers read_u8 _ read_u8-Answers (λ rsv.
              then-Answers read_u8 _ read_u8-Answers (λ atyp. read_target-Answers api atyp))))))
      s,
)
