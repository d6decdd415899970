-- ===== src/Socks/Stream.antt =====
-- The stream of `AsyncRead + AsyncWrite` that src/socks/protocol.rs reads requests from: the bytes
-- still to come, and the bytes written. A write succeeds; a read beyond the end fails.
use s.Common.{
  ℕ, zero, suc, ◌+◌, ◌*◌, ◌≡◌, refl, List, [], ◌∷◌, ◌++◌, arith, Text, length, ap, if◌then◌else◌,
  Option, none, some,
}
use s.Common.Utf8.{is_utf8}
use s.Socks.{TargetAddr, address_bytes, ipv4, socks_version, be_bytes}
use s.Socks.Domain.{DomainError}

pub data SocksError : Type 0 where
  unexpected_eof no_methods empty_name empty_username empty_password : SocksError
  invalid_encoding reply_too_long : SocksError
  invalid_version unsupported_command unsupported_address_type name_too_long : ℕ → SocksError
  invalid_domain : DomainError → SocksError

pub record Stream : Type 0 where
  pub input : List ℕ
  pub output : List ℕ

-- What a call comes to, and the stream it leaves.
pub data Outcome (A : Type 0) : Type 0 where
  done : A → Stream → Outcome A
  failed : SocksError → Stream → Outcome A

abbrev pub Io : Type 0 → Type 0
Io A = Stream → Outcome A

abbrev pub and_then : {A B : Type 0} → Outcome A → (A → Io B) → Outcome B
and_then (done a s) f = f a s
and_then (failed e s) f = failed e s

infixl 5 ◌>>=◌
abbrev pub ◌>>=◌ : {A B : Type 0} → Io A → (A → Io B) → Io B
(m >>= f) s = and_then (m s) f

abbrev pub ok : {A : Type 0} → A → Io A
ok a s = done a s

-- `bail!`
abbrev pub bail : {A : Type 0} → SocksError → Io A
bail e s = failed e s

abbrev pub read_from : List ℕ → List ℕ → Outcome ℕ
read_from [] output = failed unexpected_eof (record { input = []; output = output })
read_from (b ∷ bs) output = done b (record { input = bs; output = output })

unfoldable pub read_u8 : Io ℕ
read_u8 s = read_from s.input s.output

unfoldable pub read_exact : ℕ → Io (List ℕ)
unfolding read_u8
read_exact zero = ok []
read_exact (suc n) = do b ← read_u8; bs ← read_exact n; ok (b ∷ bs)

unfoldable pub read_u16 : Io ℕ
unfolding read_u8
read_u16 = do hi ← read_u8; lo ← read_u8; ok (hi * 256 + lo)

unfoldable pub write_all : List ℕ → Io Unit
write_all bytes s = done tt (record { input = s.input; output = s.output ++ bytes })

abbrev write_reply : ℕ → Option (List ℕ) → Io Unit
write_reply reply none = bail reply_too_long
write_reply reply (some bytes) = write_all (socks_version ∷ reply ∷ 0 ∷ bytes)

unfoldable pub send_reply : ℕ → TargetAddr → Io Unit
unfolding write_all address_bytes
send_reply reply bind_addr = write_reply reply (address_bytes bind_addr)

-- `TargetAddr::Ipv4([0; 4], 0)`
abbrev pub no_address : TargetAddr
no_address = ipv4 (0 ∷ 0 ∷ 0 ∷ 0 ∷ []) 0

-- `send_reply(…)?; bail!(…)`
abbrev pub refuse : {A : Type 0} → ℕ → SocksError → Io A
unfolding send_reply
refuse reply e = do u ← send_reply reply no_address; bail e

-- `String::from_utf8(bytes).context(…)?`
unfoldable pub from_utf8 : List ℕ → Io Text
unfolding is_utf8
from_utf8 bytes = if is_utf8 bytes then ok bytes else bail invalid_encoding

abbrev pub stream : List ℕ → List ℕ → Stream
stream input output = record { input = input; output = output }

pub read_exact-append :
    (bs rest output : List ℕ)
    → read_exact (length bs) (stream (bs ++ rest) output) ≡ done bs (stream rest output)
unfolding read_exact
read_exact-append [] rest output = refl
read_exact-append (b ∷ bs) rest output = ground (arith, read_exact-append bs rest output)

pub read_u16-be_bytes :
    (p : ℕ) (rest output : List ℕ)
    → read_u16 (stream (be_bytes p ++ rest) output) ≡ done p (stream rest output)
unfolding read_u16
read_u16-be_bytes p rest output = ap (λ n. done n (stream rest output)) (omega arith)
