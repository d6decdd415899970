-- ===== src/Acl/Port.antt =====
-- Ports of src/config/acl.rs: `PortMatch`, its `Display` and `parse_port_match`.
use s.Common.{
  ℕ, ◌≤◌, ◌<◌, ◌≡◌, ◌≢◌, refl, Bool, true, false, ◌&&◌, ◌++◌, [], ◌∷◌, Option, none, some, arith,
  ltb, leb, ◌==◌, if◌then◌else◌, Text, All, inl, inr, Option-cases,
}
use s.Common.Decimal.{
  decimal, parse_uint, IsDigit, decimal-digits, decimal_cons, parse_uint-decimal, parse_uint-lt,
}

pub data PortMatch : Type 0 where
  any_port : PortMatch
  exact : ℕ → PortMatch
  range : ℕ → ℕ → PortMatch

unfoldable pub port_matches : PortMatch → ℕ → Bool
port_matches any_port port = true
port_matches (exact p) port = p == port
port_matches (range lo hi) port = leb lo port && leb port hi

unfoldable pub print_port : PortMatch → Text
print_port any_port = b'*' ∷ []
print_port (exact p) = decimal p
print_port (range lo hi) = decimal lo ++ b'-' ∷ decimal hi

pub data PortError : Type 0 where
  invalid_port invalid_range low_above_high : PortError

pub data PortResult : Type 0 where
  ok : PortMatch → PortResult
  err : PortError → PortResult

-- The text before and behind the first `c`.
unfoldable pub split_once : ℕ → Text → Option (Text × Text)
split_once c [] = none
split_once c (x ∷ xs) =
    if x == c
    then some ([], xs)
    else elim (split_once c xs) [ none ↦ none | some (a, b) ↦ some (x ∷ a, b) ]

abbrev u16_mod : ℕ
u16_mod = 65536

unfoldable pub is_star : Text → Bool
is_star [] = false
is_star (c ∷ []) = c == b'*'
is_star (c ∷ d ∷ cs) = false

unfoldable pub check_range : Option ℕ → Option ℕ → PortResult
check_range none hi = err invalid_range
check_range (some lo) none = err invalid_range
check_range (some lo) (some hi) = if ltb hi lo then err low_above_high else ok (range lo hi)

abbrev pub exact_or_error : Option ℕ → PortResult
exact_or_error none = err invalid_port
exact_or_error (some p) = ok (exact p)

unfoldable pub parse_port_match : Text → PortResult
unfolding split_once is_star check_range
parse_port_match port_str =
    if is_star port_str then ok any_port else elim (split_once b'-' port_str) [
      | some (lo, hi) ↦ check_range (parse_uint u16_mod lo) (parse_uint u16_mod hi)
      | none ↦ exact_or_error (parse_uint u16_mod port_str)
    ]

pub split_once-append :
    (c : ℕ) (xs ys : Text) → All (λ x. x ≢ c) xs → split_once c (xs ++ c ∷ ys) ≡ some (xs, ys)
unfolding split_once
split_once-append c [] ys h = ground arith
split_once-append c (x ∷ xs) ys h = ground (arith, split_once-append c xs ys h.1)

split_once-none : (c : ℕ) (xs : Text) → All (λ x. x ≢ c) xs → split_once c xs ≡ none
unfolding split_once
split_once-none c [] h = refl
split_once-none c (x ∷ xs) h = ground (arith, split_once-none c xs h.1)

digits_no_dash : (xs : Text) → All IsDigit xs → All (λ x. x ≢ b'-') xs
digits_no_dash [] h = tt
digits_no_dash (x ∷ xs) h = (omega arith, digits_no_dash xs h.1)

-- Ports are 16 bits, and a range is not empty.
abbrev pub IsPort : PortMatch → Type 0
IsPort any_port = Unit
IsPort (exact p) = p < 65536
IsPort (range lo hi) = (lo ≤ hi) × (hi < 65536)

digit_no_star : (d : ℕ) (xs : Text) → 48 ≤ d → is_star (d ∷ xs) ≡ false
unfolding is_star
digit_no_star d [] h = ground arith
digit_no_star d (x ∷ xs) h = refl

-- A printed number is no star.
star_decimal : (n : ℕ) (rest : Text) → is_star (decimal n ++ rest) ≡ false
star_decimal n rest =
    let (d, ds, e) = decimal_cons n in
    let digit : All IsDigit (d ∷ ds) = rw e at (decimal-digits n) in
    rw e (digit_no_star d (ds ++ rest) digit.0.0)

-- What `Display` prints for a port, `parse_port_match` reads back.
pub parse_port_match-print_port :
    (pm : PortMatch) → IsPort pm → parse_port_match (print_port pm) ≡ ok pm
unfolding parse_port_match print_port
parse_port_match-print_port any_port h = refl
parse_port_match-print_port (exact p) h = ground (
  arith,
  star_decimal p [],
  split_once-none b'-' (decimal p) (digits_no_dash (decimal p) (decimal-digits p)),
  parse_uint-decimal u16_mod p h,
)
parse_port_match-print_port (range lo hi) h = ground (
  arith,
  star_decimal lo (b'-' ∷ decimal hi),
  split_once-append b'-' (decimal lo) (decimal hi)
      (digits_no_dash (decimal lo) (decimal-digits lo)),
  parse_uint-decimal u16_mod lo (omega arith),
  parse_uint-decimal u16_mod hi h.1,
)

check_range-IsPort :
    (lo hi : Text) (l h : Option ℕ) (pm : PortMatch)
    → parse_uint u16_mod lo ≡ l
    → parse_uint u16_mod hi ≡ h
    → check_range l h ≡ ok pm
    → IsPort pm
unfolding check_range
check_range-IsPort lo hi none h pm p q e = cc
check_range-IsPort lo hi (some l) none pm p q e = cc
check_range-IsPort lo hi (some l) (some h) any_port p q e = tt
check_range-IsPort lo hi (some l) (some h) (exact x) p q e = ground arith
check_range-IsPort lo hi (some l) (some h) (range x y) p q e =
    ground (arith, parse_uint-lt u16_mod h hi (omega arith))

parsed_exact :
    (s : Text) (o : Option ℕ) (pm : PortMatch)
    → parse_uint u16_mod s ≡ o
    → exact_or_error o ≡ ok pm
    → IsPort pm
parsed_exact s none pm p e = cc
parsed_exact s (some x) any_port p e = tt
parsed_exact s (some x) (exact y) p e = ground (arith, parse_uint-lt u16_mod x s (omega arith))
parsed_exact s (some x) (range l h) p e = ground arith

-- Whatever the parser accepts is a port or a range that is not empty.
pub parse_port_match-IsPort : (s : Text) (pm : PortMatch) → parse_port_match s ≡ ok pm → IsPort pm
unfolding parse_port_match
parse_port_match-IsPort s pm e = elim (Option-cases (split_once b'-' s)) [
  | inl none_there ↦ ground (arith, none_there, parsed_exact s (parse_uint u16_mod s) pm refl)
  | inr ((lo, hi), there) ↦ ground (
    arith,
    there,
    check_range-IsPort lo hi (parse_uint u16_mod lo) (parse_uint u16_mod hi) pm refl refl,
  )
]
