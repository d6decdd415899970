-- ===== src/Shell/Parser.antt =====
-- src/shell/parser.rs: `tokenize`.
pub mod Quoting
use s.Common.{ℕ, Bool, true, false, not, ◌&&◌, List, [], ◌∷◌, ◌++◌, ◌==◌, if◌then◌else◌, Text}
use s.Common.Chars.{is_whitespace}

-- The variables of the loop.
pub record Tokenizer : Type 0 where
  pub tokens : List Text
  pub current : Text
  pub in_single_quote : Bool
  pub in_double_quote : Bool
  pub escape_next : Bool

-- `current.push(ch)`
abbrev pub push : Tokenizer → ℕ → Tokenizer
push t ch = record t { current = t.current ++ ch ∷ [] }

abbrev pub push_token : List Text → Text → List Text
push_token tokens [] = tokens
push_token tokens (c ∷ cs) = tokens ++ (c ∷ cs) ∷ []

-- One round of the loop.
unfoldable pub step : Tokenizer → ℕ → Tokenizer
unfolding is_whitespace
step t ch =
    if t.escape_next
    then record t { current = t.current ++ ch ∷ []; escape_next = false }
    else if ch == b'\\' && not t.in_single_quote
    then record t { escape_next = true }
    else if ch == b'\'' && not t.in_double_quote
    then record t { in_single_quote = not t.in_single_quote }
    else if ch == b'"' && not t.in_single_quote
    then record t { in_double_quote = not t.in_double_quote }
    else if is_whitespace ch && not t.in_single_quote && not t.in_double_quote
    then record t { tokens = push_token t.tokens t.current; current = [] }
    else push t ch

unfoldable pub scan : Tokenizer → Text → Tokenizer
unfolding step
scan t [] = t
scan t (ch ∷ chs) = scan (step t ch) chs

abbrev pub start : Tokenizer
start = record {
  tokens = [];
  current = [];
  in_single_quote = false;
  in_double_quote = false;
  escape_next = false;
}

unfoldable pub tokenize : Text → List Text
unfolding scan
tokenize input = let t = scan start input in push_token t.tokens t.current
