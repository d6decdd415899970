-- ===== src/Proxy/Upstream.antt =====
-- Upstream proxies: `ParsedUpstreamProxy` of src/config/types.rs and `resolve_upstream_proxy` of
-- src/proxy/mod.rs. The crates `url` and `percent_encoding` are the parameter `urls`.
use s.Common.{ℕ, [], ◌∷◌, Option, none, some, if◌then◌else◌, Text, codes}
use s.Common.Chars.{same_text}
use s.Auth.Inheritance.{or_else, unwrap_or}

-- What the program asks of a `Url`.
pub record Url : Type 0 where
  pub scheme : Text
  pub host_str : Option Text
  pub port : Option ℕ
  pub username : Text
  pub password : Option Text

pub record Urls : Type 0 where
  pub parse : Text → Option Url
  -- `percent_decode_str(…).decode_utf8()`
  pub percent_decode : Text → Option Text

pub record ParsedUpstreamProxy : Type 0 where
  pub host : Text
  pub port : ℕ
  pub username : Option Text
  pub password : Option Text

pub data UrlError : Type 0 where
  invalid_url unsupported_scheme missing_host missing_port invalid_username : UrlError

pub data UrlResult (A : Type 0) : Type 0 where
  ok : A → UrlResult A
  err : UrlError → UrlResult A

infixl 5 ◌>>=◌
abbrev ◌>>=◌ : {A B : Type 0} → UrlResult A → (A → UrlResult B) → UrlResult B
ok a >>= f = f a
err e >>= f = err e

-- `ok_or_else(…)?`
abbrev ok_or : {A : Type 0} → UrlError → Option A → UrlResult A
ok_or e none = err e
ok_or e (some a) = ok a

abbrev some_decoded : Option Text → UrlResult (Option Text)
some_decoded none = err invalid_username
some_decoded (some name) = ok (some name)

abbrev require_scheme : Text → UrlResult Unit
require_scheme scheme = if same_text scheme (codes "socks5") then ok tt else err unsupported_scheme

module _ (urls : Urls) where
  open urls use {parse, percent_decode}

  abbrev decode_username : Text → UrlResult (Option Text)
  decode_username [] = ok none
  decode_username (c ∷ cs) = some_decoded (percent_decode (c ∷ cs))

  -- A password that does not decode is taken as it is.
  abbrev decode_password : Option Text → Option Text
  decode_password none = none
  decode_password (some p) = some (unwrap_or (percent_decode p) p)

  unfoldable pub from_url : Text → UrlResult ParsedUpstreamProxy
  from_url raw = do
    parsed ← ok_or invalid_url (parse raw)
    u ← require_scheme parsed.scheme
    host ← ok_or missing_host parsed.host_str
    port ← ok_or missing_port parsed.port
    username ← decode_username parsed.username
    ok (record {
      host = host;
      port = port;
      username = username;
      password = decode_password parsed.password;
    })

  abbrev ok_of : UrlResult ParsedUpstreamProxy → Option ParsedUpstreamProxy
  ok_of (ok proxy) = some proxy
  ok_of (err e) = none

  abbrev at_url : Option Text → Option ParsedUpstreamProxy
  unfolding from_url
  at_url none = none
  at_url (some url) = ok_of (from_url url)

  -- The URL of the user before that of the configuration; one that cannot be read means none.
  unfoldable pub resolve_upstream_proxy : Option Text → Option Text → Option ParsedUpstreamProxy
  unfolding from_url
  resolve_upstream_proxy user_url global_url = at_url (or_else user_url global_url)
