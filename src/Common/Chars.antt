-- ===== src/Common/Chars.antt =====
-- What the program uses of `str` and `char`, over the list of a text's characters.
use Prim.Native.Nat.{ℕ, zero, suc, ◌+◌, ◌*◌, ◌/◌, ◌%◌, ◌<◌}
use mathlib.Core.Path.{◌≡◌, refl}
use mathlib.Core.Logic.{ite}
use mathlib.Core.Bool.{Bool, true, false, ◌&&◌, ◌||◌}
use mathlib.Core.List.{List, [], ◌∷◌, ◌++◌}
use mathlib.Core.Option.{Option, none, some}
use native.Mathlib.Omega.{arith}
use s.Common.Tests.{if◌then◌else◌, leb, ltb, ◌==◌}
use s.Common.Lists.{All}
use s.Common.Bytes.{Text, Text-discrete}
use s.Common.Utf8.{utf8_first, utf8_next}

-- `char::is_whitespace`: the property White_Space of Unicode.
unfoldable pub is_whitespace : ℕ → Bool
is_whitespace c =
    (leb 9 c && leb c 13)
    || (c == 32)
    || (c == 0x85)
    || (c == 0xa0)
    || (c == 0x1680)
    || (leb 0x2000 c && leb c 0x200a)
    || (c == 0x2028)
    || (c == 0x2029)
    || (c == 0x202f)
    || (c == 0x205f)
    || (c == 0x3000)

unfoldable pub trim_start : Text → Text
unfolding is_whitespace
trim_start [] = []
trim_start (c ∷ cs) = let rest = trim_start cs in if is_whitespace c then rest else c ∷ cs

-- A character in front of a text whose end is trimmed.
abbrev before_trimmed : ℕ → Text → Text
before_trimmed c [] = if is_whitespace c then [] else c ∷ []
before_trimmed c (d ∷ ds) = c ∷ d ∷ ds

unfoldable pub trim_end : Text → Text
unfolding is_whitespace
trim_end [] = []
trim_end (c ∷ cs) = before_trimmed c (trim_end cs)

unfoldable pub trim : Text → Text
unfolding trim_start trim_end
trim cs = trim_end (trim_start cs)

abbrev pub onto_first : ℕ → List Text → List Text
onto_first x [] = (x ∷ []) ∷ []
onto_first x (l ∷ ls) = (x ∷ l) ∷ ls

-- `split(c)`: an empty text is one empty part.
unfoldable pub split : ℕ → Text → List Text
split c [] = [] ∷ []
split c (x ∷ xs) = let rest = split c xs in if x == c then [] ∷ rest else onto_first x rest

-- `join`
unfoldable pub join : Text → List Text → Text
join sep [] = []
join sep (p ∷ []) = p
join sep (p ∷ q ∷ ps) = p ++ sep ++ join sep (q ∷ ps)

unfoldable pub strip_prefix : Text → Text → Option Text
strip_prefix [] cs = some cs
strip_prefix (p ∷ ps) [] = none
strip_prefix (p ∷ ps) (c ∷ cs) = let rest = strip_prefix ps cs in if p == c then rest else none

abbrev pub first_is : ℕ → Text → Bool
first_is c [] = false
first_is c (d ∷ ds) = d == c

abbrev pub has_char : ℕ → Text → Bool
has_char c [] = false
has_char c (d ∷ ds) = let rest = has_char c ds in if d == c then true else rest

abbrev pub same_text : Text → Text → Bool
same_text a b = ite (Text-discrete a b) true false

-- The order of texts, which is that of their bytes.
unfoldable pub text_le : Text → Text → Bool
text_le [] ys = true
text_le (x ∷ xs) [] = false
text_le (x ∷ xs) (y ∷ ys) =
    let rest = text_le xs ys in if ltb x y then true else if x == y then rest else false

-- The UTF-8 bytes of a character.
unfoldable pub encode_char : ℕ → List ℕ
encode_char c =
    if ltb c 0x80
    then c ∷ []
    else if ltb c 0x800
    then (0xc0 + c / 64) ∷ (0x80 + c % 64) ∷ []
    else if ltb c 0x10000
    then (0xe0 + c / 4096) ∷ (0x80 + c / 64 % 64) ∷ (0x80 + c % 64) ∷ []
    else (0xf0 + c / 262144) ∷ (0x80 + c / 4096 % 64) ∷ (0x80 + c / 64 % 64) ∷ (0x80 + c % 64) ∷ []

-- `as_bytes`
unfoldable pub as_bytes : Text → List ℕ
unfolding encode_char
as_bytes [] = []
as_bytes (c ∷ cs) = encode_char c ++ as_bytes cs

-- The bits of a first byte that belong to the character.
abbrev lead_bits : ℕ → ℕ → ℕ
lead_bits n b = if n == 0 then b else if n == 1 then b % 32 else if n == 2 then b % 16 else b % 8

abbrev replacement : ℕ
replacement = 0xfffd

-- How the bytes `b ∷ bs` go on where no character has begun.
abbrev start_char : (ℕ × ℕ × ℕ → ℕ → Text) → Option (ℕ × ℕ × ℕ) → ℕ → Text → Text
start_char go none b after = replacement ∷ after
start_char go (some (zero, lo, hi)) b after = b ∷ after
start_char go (some (suc n, lo, hi)) b after = go (suc n, lo, hi) (lead_bits (suc n) b)

-- `from_utf8_lossy`: the bytes expected next, the character read so far, and the bytes left. A
-- sequence that breaks off becomes one replacement character, and its last byte is read again.
unfoldable pub decode_from : ℕ × ℕ × ℕ → ℕ → List ℕ → Text
unfolding utf8_next utf8_first
decode_from (zero, lo, hi) acc [] = []
decode_from (suc n, lo, hi) acc [] = replacement ∷ []
decode_from (zero, lo, hi) acc (b ∷ bs) =
    start_char (λ state acc'. decode_from state acc' bs) (utf8_first b) b
      (decode_from (0, 0x80, 0xbf) 0 bs)
decode_from (suc n, lo, hi) acc (b ∷ bs) =
    let again =
      start_char (λ state acc'. decode_from state acc' bs) (utf8_first b) b
        (decode_from (0, 0x80, 0xbf) 0 bs) in
    let next = acc * 64 + b % 64 in
    let finished = next ∷ decode_from (0, 0x80, 0xbf) 0 bs in
    let continued = decode_from (n, 0x80, 0xbf) next bs in
    if leb lo b && leb b hi then (if n == 0 then finished else continued) else replacement ∷ again

unfoldable pub from_utf8_lossy : List ℕ → Text
unfolding decode_from
from_utf8_lossy bs = decode_from (0, 0x80, 0xbf) 0 bs

abbrev pub IsAscii : ℕ → Type 0
IsAscii c = c < 128

pub from_utf8_lossy-ascii : (cs : Text) → All IsAscii cs → from_utf8_lossy cs ≡ cs
unfolding from_utf8_lossy decode_from utf8_first
from_utf8_lossy-ascii [] h = refl
from_utf8_lossy-ascii (c ∷ cs) h = ground (arith, from_utf8_lossy-ascii cs h.1)

pub as_bytes-ascii : (cs : Text) → All IsAscii cs → as_bytes cs ≡ cs
unfolding as_bytes encode_char
as_bytes-ascii [] h = refl
as_bytes-ascii (c ∷ cs) h = ground (arith, as_bytes-ascii cs h.1)
