-- ===== src/Common/Utf8.antt =====
-- `String::from_utf8` of the standard library: which byte sequences are texts.
use Prim.Native.Nat.{ℕ, zero, suc, ◌<◌}
use mathlib.Core.Path.{◌≡◌, refl}
use mathlib.Core.Bool.{Bool, true, false, ◌&&◌}
use mathlib.Core.List.{List, [], ◌∷◌}
use mathlib.Core.Option.{Option, none, some}
use native.Mathlib.Omega.{arith}
use s.Common.Tests.{if◌then◌else◌, leb, ◌==◌}
use s.Common.Lists.{All}

abbrev between : ℕ → ℕ → ℕ → Bool
between lo hi b = leb lo b && leb b hi

-- How many bytes follow the first one, and the bounds of the next.
unfoldable pub utf8_first : ℕ → Option (ℕ × ℕ × ℕ)
utf8_first b =
    if leb b 0x7f
    then some (0, 0x80, 0xbf)
    else if between 0xc2 0xdf b
    then some (1, 0x80, 0xbf)
    else if b == 0xe0
    then some (2, 0xa0, 0xbf)
    else if b == 0xed
    then some (2, 0x80, 0x9f)
    else if between 0xe1 0xef b
    then some (2, 0x80, 0xbf)
    else if b == 0xf0
    then some (3, 0x90, 0xbf)
    else if between 0xf1 0xf3 b
    then some (3, 0x80, 0xbf)
    else if b == 0xf4
    then some (3, 0x80, 0x8f)
    else none

unfoldable pub utf8_next : ℕ × ℕ × ℕ → ℕ → Option (ℕ × ℕ × ℕ)
unfolding utf8_first
utf8_next (zero, lo, hi) b = utf8_first b
utf8_next (suc n, lo, hi) b = if between lo hi b then some (n, 0x80, 0xbf) else none

unfoldable pub utf8_from : ℕ × ℕ × ℕ → List ℕ → Bool
unfolding utf8_next
utf8_from state [] = state.0 == 0
utf8_from state (b ∷ bs) = elim (utf8_next state b) [ none ↦ false | some next ↦ utf8_from next bs ]

unfoldable pub is_utf8 : List ℕ → Bool
unfolding utf8_from
is_utf8 bs = utf8_from (0, 0x80, 0xbf) bs

ascii_from : (bs : List ℕ) → All (λ b. b < 128) bs → utf8_from (0, 0x80, 0xbf) bs ≡ true
unfolding utf8_from utf8_first
ascii_from [] h = refl
ascii_from (b ∷ bs) h = ground (arith, ascii_from bs h.1)

-- ASCII is UTF-8.
pub is_utf8-ascii : (bs : List ℕ) → All (λ b. b < 128) bs → is_utf8 bs ≡ true
unfolding is_utf8
is_utf8-ascii bs h = ascii_from bs h
