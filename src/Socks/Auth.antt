-- ===== src/Socks/Auth.antt =====
-- src/socks/auth.rs: names and passwords of RFC 1929.
use s.Common.{
  ℕ, ◌<◌, ◌≡◌, refl, ap, Bool, true, false, List, [], ◌∷◌, ◌++◌, Text, length, if◌then◌else◌, ◌==◌,
  arith,
}
use s.Common.Utf8.{is_utf8}
use s.Socks.Stream.{
  SocksError, Io, done, ◌>>=◌, ok, bail, read_u8, read_exact, write_all, from_utf8, stream,
  empty_username, empty_password, invalid_version, read_exact-append,
}

abbrev pub subneg_version : ℕ
subneg_version = 1

abbrev auth_success : ℕ
auth_success = 0

abbrev auth_failure : ℕ
auth_failure = 1

pub record Credentials : Type 0 where
  pub username : Text
  pub password : Text

unfoldable pub read_sized : SocksError → Io (List ℕ)
unfolding read_u8 read_exact
read_sized empty = do len ← read_u8; if len == 0 then bail empty else read_exact len

abbrev require_subneg : ℕ → Io Unit
require_subneg ver = if ver == subneg_version then ok tt else bail (invalid_version ver)

unfoldable pub read_credentials : Io Credentials
unfolding read_u8 read_sized from_utf8
read_credentials = do
  ver ← read_u8
  u ← require_subneg ver
  username_bytes ← read_sized empty_username
  password_bytes ← read_sized empty_password
  username ← from_utf8 username_bytes
  password ← from_utf8 password_bytes
  ok (record { username = username; password = password })

unfoldable pub send_auth_result : Bool → Io Unit
unfolding write_all
send_auth_result success =
    write_all (subneg_version ∷ (if success then auth_success else auth_failure) ∷ [])

-- The message of RFC 1929.
abbrev pub encoded : Text → Text → List ℕ
encoded username password =
    subneg_version ∷ length username ∷ (username ++ length password ∷ password)

append_assoc : (xs ys zs : List ℕ) → (xs ++ ys) ++ zs ≡ xs ++ (ys ++ zs)
append_assoc [] ys zs = refl
append_assoc (x ∷ xs) ys zs = ap (◌∷◌ x) (append_assoc xs ys zs)

read_sized_back :
    (e : SocksError) (bs rest output : List ℕ)
    → 0 < length bs
    → read_sized e (stream (length bs ∷ bs ++ rest) output) ≡ done bs (stream rest output)
unfolding read_sized read_u8
read_sized_back e bs rest output h =
    let some_bytes : (length bs == 0) ≡ false = ground (arith, h) in
    rw some_bytes (read_exact-append bs rest output)

-- A name and a password that are texts and not empty are read as they were sent, and what follows
-- is left on the stream.
pub read_credentials-encoded :
    (username password : Text) (rest output : List ℕ)
    → is_utf8 username ≡ true
    → is_utf8 password ≡ true
    → 0 < length username
    → 0 < length password
    → read_credentials (stream (encoded username password ++ rest) output)
      ≡ done (record { username = username; password = password }) (stream rest output)
unfolding read_credentials read_u8 from_utf8
read_credentials-encoded username password rest output u p m n =
    rw
      (
        append_assoc username (length password ∷ password) rest,
        read_sized_back empty_username username (length password ∷ password ++ rest) output m,
        read_sized_back empty_password password rest output n,
        u,
        p,
      )
      refl
