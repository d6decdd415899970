-- ===== src/Config/Hours.antt =====
-- Times of the day of src/auth/user.rs and src/config/types.rs: `parse_hhmm` and
-- `parse_hour_range`, and what the code reads off a date.
use s.Common.{
  ℕ, ◌+◌, ◌*◌, ◌/◌, ◌%◌, ◌<◌, ◌≡◌, ap, ◌∙◌, ◌||◌, List, [], ◌∷◌, ◌++◌, Option, none, some, ltb,
  if◌then◌else◌, Text, codes, arith,
}
use s.Common.Decimal.{parse_uint, parse_nonempty, parse_digits}
use s.Common.Chars.{split, trim, trim_start, trim_end, is_whitespace}

pub data Weekday : Type 0 where
  mon tue wed thu fri sat sun : Weekday

-- What the code reads of a date in UTC.
pub record Moment : Type 0 where
  pub weekday : Weekday
  pub hour : ℕ
  pub minute : ℕ

unfoldable pub weekday_name : Weekday → Text
weekday_name Weekday.mon = codes "mon"
weekday_name Weekday.tue = codes "tue"
weekday_name Weekday.wed = codes "wed"
weekday_name Weekday.thu = codes "thu"
weekday_name Weekday.fri = codes "fri"
weekday_name Weekday.sat = codes "sat"
weekday_name Weekday.sun = codes "sun"

abbrev pub now_mins : Moment → ℕ
now_mins now = now.hour * 60 + now.minute

abbrev pub u32_mod : ℕ
u32_mod = 4294967296

-- Hours and minutes in range, in minutes from midnight.
abbrev minutes_of : Option ℕ → Option ℕ → Option ℕ
minutes_of none m = none
minutes_of (some h) none = none
minutes_of (some h) (some m) = if ltb 23 h || ltb 59 m then none else some (h * 60 + m)

abbrev of_parts : List Text → Option ℕ
of_parts (h ∷ m ∷ []) = minutes_of (parse_uint u32_mod h) (parse_uint u32_mod m)
of_parts _ = none

unfoldable pub parse_hhmm : Text → Option ℕ
unfolding trim split parse_uint
parse_hhmm s = of_parts (split b':' (trim s))

abbrev both : Option ℕ → Option ℕ → Option (ℕ × ℕ)
both none e = none
both (some s) none = none
both (some s) (some e) = some (s, e)

abbrev range_of : List Text → Option (ℕ × ℕ)
range_of (s ∷ e ∷ []) = both (parse_hhmm s) (parse_hhmm e)
range_of _ = none

unfoldable pub parse_hour_range : Text → Option (ℕ × ℕ)
unfolding split parse_hhmm
parse_hour_range s = range_of (split b'-' s)

abbrev two_digits : ℕ → Text
two_digits n = (48 + n / 10) ∷ (48 + n % 10) ∷ []

-- A time of the day, written with two digits each.
abbrev pub print_hhmm : ℕ → ℕ → Text
print_hhmm h m = two_digits h ++ b':' ∷ two_digits m

abbrev pub print_range : ℕ → ℕ → ℕ → ℕ → Text
print_range h m h' m' = print_hhmm h m ++ b'-' ∷ print_hhmm h' m'

parse_uint-two_digits : (n : ℕ) → n < 100 → parse_uint u32_mod (two_digits n) ≡ some n
unfolding parse_uint parse_nonempty parse_digits
parse_uint-two_digits n h = ground arith

split-print_hhmm :
    (h m : ℕ) → h < 24 → m < 60 → split b':' (print_hhmm h m) ≡ two_digits h ∷ two_digits m ∷ []
unfolding split
split-print_hhmm h m p q = ground (arith, p, q)

trim-print_hhmm : (h m : ℕ) → h < 24 → m < 60 → trim (print_hhmm h m) ≡ print_hhmm h m
unfolding trim trim_start trim_end is_whitespace
trim-print_hhmm h m p q = ground (arith, p, q)

parse_hhmm-print_hhmm :
    (h m : ℕ) → h < 24 → m < 60 → parse_hhmm (print_hhmm h m) ≡ some (h * 60 + m)
unfolding parse_hhmm
parse_hhmm-print_hhmm h m p q =
    ap (λ t. of_parts (split b':' t)) (trim-print_hhmm h m p q)
    ∙ ap of_parts (split-print_hhmm h m p q)
    ∙ ground (
      arith,
      p,
      q,
      parse_uint-two_digits h (omega (arith, p)),
      parse_uint-two_digits m (omega (arith, q)),
    )

split-print_range :
    (h m h' m' : ℕ)
    → h < 24
    → m < 60
    → h' < 24
    → m' < 60
    → split b'-' (print_range h m h' m') ≡ print_hhmm h m ∷ print_hhmm h' m' ∷ []
unfolding split
split-print_range h m h' m' p q p' q' = ground (arith, p, q, p', q')

-- A range of two times that are written with two digits each is read as the minutes from midnight.
pub parse_hour_range-print_range :
    (h m h' m' : ℕ)
    → h < 24
    → m < 60
    → h' < 24
    → m' < 60
    → parse_hour_range (print_range h m h' m') ≡ some (h * 60 + m, h' * 60 + m')
unfolding parse_hour_range
parse_hour_range-print_range h m h' m' p q p' q' =
    ap range_of (split-print_range h m h' m' p q p' q')
    ∙ ap (λ o. both o (parse_hhmm (print_hhmm h' m'))) (parse_hhmm-print_hhmm h m p q)
    ∙ ap (λ o. both (some (h * 60 + m)) o) (parse_hhmm-print_hhmm h' m' p' q')
