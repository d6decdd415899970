-- ===== src/Auth/Password.antt =====
-- src/auth/password.rs: the code of TOTP that comes behind a password, in its bytes. Hashing is left
-- to the crate `argon2`.
use s.Common.{
  ℕ, ◌-◌, ◌≤◌, ◌<◌, ◌≡◌, refl, Bool, true, false, not, ◌&&◌, [], ◌∷◌, ◌++◌, Option, none, some,
  if◌then◌else◌, Text, ltb, leb, ◌==◌, length, take, drop, all, All, arith,
}

-- `str::split_at` panics where it would cut a character in two.
pub data Extracted : Type 0 where
  panics : Extracted
  extracted : Text → Option Text → Extracted

abbrev colon : ℕ
colon = 58

unfoldable pub is_digit : ℕ → Bool
is_digit b = leb 48 b && leb b 57

-- `str::is_char_boundary` at the first byte of the rest.
unfoldable pub at_boundary : Text → Bool
at_boundary [] = true
at_boundary (b ∷ bs) = not (leb 0x80 b && leb b 0xbf)

-- What stands before the last colon and behind it.
unfoldable pub split_last : Text → Option (Text × Text)
split_last [] = none
split_last (b ∷ bs) = elim (split_last bs) [
  | some (front, code) ↦ some (b ∷ front, code)
  | none ↦ if b == colon then some ([], bs) else none
]

abbrev some_text : Text → Bool
some_text [] = false
some_text (b ∷ bs) = true

unfoldable pub is_code : Text → Bool
unfolding is_digit
is_code code = length code == 6 && all is_digit code

-- The last six bytes.
unfoldable pub extract_suffix : Text → Extracted
unfolding at_boundary is_digit
extract_suffix combined =
    let cut = length combined - 6 in
    if ltb 6 (length combined)
    then (if not (at_boundary (drop cut combined))
        then panics
        else if all is_digit (drop cut combined) && some_text (take cut combined)
        then extracted (take cut combined) (some (drop cut combined))
        else extracted combined none)
    else extracted combined none

abbrev extract_at : Text → Option (Text × Text) → Extracted
extract_at combined none = extract_suffix combined
extract_at combined (some (password, code)) =
    if is_code code && some_text password
    then extracted password (some code)
    else extract_suffix combined

unfoldable pub extract_totp_from_password : Text → Extracted
unfolding split_last is_code extract_suffix
extract_totp_from_password combined = extract_at combined (split_last combined)

abbrev pub IsDigit : ℕ → Type 0
IsDigit b = (48 ≤ b) × (b ≤ 57)

split_last-digits : (code : Text) → All IsDigit code → split_last code ≡ none
unfolding split_last
split_last-digits [] h = refl
split_last-digits (b ∷ bs) h = rw (split_last-digits bs h.1) (ground (arith, h.0))

split_last-append :
    (password code : Text)
    → All IsDigit code
    → split_last (password ++ colon ∷ code) ≡ some (password, code)
unfolding split_last
split_last-append [] code h = rw (split_last-digits code h) refl
split_last-append (b ∷ bs) code h = rw (split_last-append bs code h) refl

all-IsDigit : (code : Text) → All IsDigit code → all is_digit code ≡ true
unfolding is_digit
all-IsDigit [] h = refl
all-IsDigit (b ∷ bs) h = ground (arith, h.0, all-IsDigit bs h.1)

is_code-IsDigit : (code : Text) → length code ≡ 6 → All IsDigit code → is_code code ≡ true
unfolding is_code
is_code-IsDigit code l h = rw (l, all-IsDigit code h) refl

-- A password that is not empty and six digits with a colon between them are told apart again,
-- whatever the password holds.
pub extract-colon :
    (password code : Text)
    → 0 < length password
    → length code ≡ 6
    → All IsDigit code
    → extract_totp_from_password (password ++ colon ∷ code) ≡ extracted password (some code)
unfolding extract_totp_from_password
extract-colon [] code n l h = elim n [ ]
extract-colon (b ∷ bs) code n l h =
    rw (split_last-append (b ∷ bs) code h, is_code-IsDigit code l h) refl
