-- ===== src/Common/Decimal.antt =====
-- Rust's `{}` on unsigned integers and `str::parse` of them, over the bytes of the text.
use Prim.Native.Nat.{ℕ, zero, suc, ◌+◌, ◌-◌, ◌*◌, ◌/◌, ◌%◌, ◌≤◌, ◌<◌}
use mathlib.Core.Path.{◌≡◌, refl}
use mathlib.Core.Logic.{inl, inr}
use mathlib.Core.Bool.{Bool, ◌&&◌}
use mathlib.Core.List.{[], ◌∷◌}
use mathlib.Core.Option.{Option, none, some}
use native.Mathlib.Omega.{arith}
use s.Common.Tests.{ltb, leb, ◌==◌, if◌then◌else◌, Bool-cases}
use s.Common.Lists.{All}
use s.Common.Bytes.{Text}

unfoldable pub is_digit : ℕ → Bool
is_digit c = leb b'0' c && leb c b'9'

-- The digits of `n` in front of `acc`, with fuel.
digits_acc : ℕ → ℕ → Text → Text
digits_acc zero n acc = acc
digits_acc (suc f) n acc =
    let acc' = (48 + n % 10) ∷ acc in
    let rest = digits_acc f (n / 10) acc' in if n / 10 == 0 then acc' else rest

unfoldable pub decimal : ℕ → Text
unfolding digits_acc
decimal n = digits_acc (suc n) n []

-- Digits up to the end, below `limit` at every step.
unfoldable pub parse_digits : ℕ → ℕ → Text → Option ℕ
unfolding is_digit
parse_digits limit n [] = some n
parse_digits limit n (c ∷ cs) =
    let rest = parse_digits limit (n * 10 + (c - 48)) cs in
    if is_digit c && ltb (n * 10 + (c - 48)) limit then rest else none

unfoldable pub parse_nonempty : ℕ → Text → Option ℕ
parse_nonempty limit [] = none
parse_nonempty limit (c ∷ cs) = parse_digits limit 0 (c ∷ cs)

-- `parse::<u16>` and its like: one `+` may stand in front.
unfoldable pub parse_uint : ℕ → Text → Option ℕ
unfolding parse_nonempty
parse_uint limit [] = none
parse_uint limit (c ∷ cs) =
    if c == b'+' then parse_nonempty limit cs else parse_nonempty limit (c ∷ cs)

parse_digits-digits_acc :
    (limit f n : ℕ) (acc : Text)
    → n < f
    → n < limit
    → parse_digits limit 0 (digits_acc f n acc) ≡ parse_digits limit n acc
unfolding parse_digits digits_acc
parse_digits-digits_acc limit zero n acc h k = elim h [ ]
parse_digits-digits_acc limit (suc f) n acc h k =
    ground (arith, parse_digits-digits_acc limit f (n / 10) ((48 + n % 10) ∷ acc))

abbrev pub IsDigit : ℕ → Type 0
IsDigit c = (48 ≤ c) × (c ≤ 57)

digits_acc-digits : (f n : ℕ) (acc : Text) → All IsDigit acc → All IsDigit (digits_acc f n acc)
unfolding digits_acc
digits_acc-digits zero n acc h = h
digits_acc-digits (suc f) n acc h =
    ground (arith, digits_acc-digits f (n / 10) ((48 + n % 10) ∷ acc))

pub decimal-digits : (n : ℕ) → All IsDigit (decimal n)
unfolding decimal
decimal-digits n = digits_acc-digits (suc n) n [] tt

digits_acc_cons :
    (f n c : ℕ) (acc : Text) → (d : ℕ) × (ds : Text) × (digits_acc f n (c ∷ acc) ≡ d ∷ ds)
unfolding digits_acc
digits_acc_cons zero n c acc = (c, acc, refl)
digits_acc_cons (suc f) n c acc = elim (Bool-cases (n / 10 == 0)) [
  | inl last ↦ (48 + n % 10, c ∷ acc, rw last)
  | inr more ↦ rw more (digits_acc_cons f (n / 10) (48 + n % 10) (c ∷ acc))
]

pub decimal_cons : (n : ℕ) → (d : ℕ) × (ds : Text) × (decimal n ≡ d ∷ ds)
unfolding decimal digits_acc
decimal_cons n = elim (Bool-cases (n / 10 == 0)) [
  | inl last ↦ (48 + n % 10, [], rw last)
  | inr more ↦ rw more (digits_acc_cons n (n / 10) (48 + n % 10) [])
]

parse_digits-decimal : (limit n : ℕ) → n < limit → parse_digits limit 0 (decimal n) ≡ some n
unfolding decimal parse_digits
parse_digits-decimal limit n h = parse_digits-digits_acc limit (suc n) n [] (omega arith) h

-- A number that is printed and parsed comes back.
pub parse_uint-decimal : (limit n : ℕ) → n < limit → parse_uint limit (decimal n) ≡ some n
unfolding parse_uint parse_nonempty
parse_uint-decimal limit n h =
    let (d, ds, e) = decimal_cons n in
    let digits : All IsDigit (d ∷ ds) = rw e at (decimal-digits n) in
    let parsed : parse_digits limit 0 (d ∷ ds) ≡ some n =
      rw e at (parse_digits-decimal limit n h) in
    rw e (ground (arith, digits.0, parsed))

parse_digits-lt :
    (limit n m : ℕ) (cs : Text) → n < limit → parse_digits limit n cs ≡ some m → m < limit
unfolding parse_digits
parse_digits-lt limit n m [] h e = ground arith
parse_digits-lt limit n m (c ∷ cs) h e =
    ground (arith, parse_digits-lt limit (n * 10 + (c - 48)) m cs)

-- A parsed number is below the limit of its type.
pub parse_uint-lt : (limit m : ℕ) (cs : Text) → 0 < limit → parse_uint limit cs ≡ some m → m < limit
unfolding parse_uint parse_nonempty
parse_uint-lt limit m [] h e = cc
parse_uint-lt limit m (c ∷ []) h e = ground (arith, parse_digits-lt limit 0 m (c ∷ []))
parse_uint-lt limit m (c ∷ d ∷ cs) h e =
    ground (arith, parse_digits-lt limit 0 m (c ∷ d ∷ cs), parse_digits-lt limit 0 m (d ∷ cs))
