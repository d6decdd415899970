-- ===== src/Shell/Parser/Quoting.antt =====
-- Words printed in each of the three ways of quoting, and read back by `tokenize`.
use s.Common.{◌≡◌, ◌≢◌, refl, sym, ap, ◌∙◌, true, List, [], ◌∷◌, ◌++◌, map, Text, All, arith}
use s.Common.Chars.{is_whitespace, join}
use s.Shell.Parser.{Tokenizer, step, scan, start, tokenize, push_token}

pub data Style : Type 0 where
  escaped single double : Style

pub record Printed : Type 0 where
  pub style : Style
  pub word : Text

abbrev escape : Text → Text
escape [] = []
escape (c ∷ cs) = b'\\' ∷ c ∷ escape cs

abbrev print_word : Style → Text → Text
print_word Style.escaped cs = escape cs
print_word Style.single cs = b'\'' ∷ cs ++ b'\'' ∷ []
print_word Style.double cs = b'"' ∷ cs ++ b'"' ∷ []

-- Words are not empty, and hold no character that ends their way of quoting.
abbrev pub IsPrintable : Printed → Type 0
IsPrintable p = (p.word ≢ []) × elim p.style [
  | Style.escaped ↦ Unit
  | Style.single ↦ All (λ c. c ≢ b'\'') p.word
  | Style.double ↦ All (λ c. (c ≢ b'"') × (c ≢ b'\\')) p.word
]

unfoldable pub print_all : List Printed → Text
unfolding join
print_all ps = join (b' ' ∷ []) (map (λ p. print_word p.style p.word) ps)

abbrev words : List Printed → List Text
words [] = []
words (p ∷ ps) = p.word ∷ words ps

abbrev plain : List Text → Text → Tokenizer
plain tokens current = record start { tokens = tokens; current = current }

append_assoc {ℓ} : {A : Type ℓ} (xs ys zs : List A) → (xs ++ ys) ++ zs ≡ xs ++ (ys ++ zs)
append_assoc [] ys zs = refl
append_assoc (x ∷ xs) ys zs = ap (λ l. x ∷ l) (append_assoc xs ys zs)

append-nil {ℓ} : {A : Type ℓ} (xs : List A) → xs ++ [] ≡ xs
append-nil [] = refl
append-nil (x ∷ xs) = ap (λ l. x ∷ l) (append-nil xs)

scan-append : (t : Tokenizer) (xs ys : Text) → scan t (xs ++ ys) ≡ scan (scan t xs) ys
unfolding scan
scan-append t [] ys = refl
scan-append t (x ∷ xs) ys = scan-append (step t x) xs ys

scan-escape :
    (tokens : List Text) (current cs : Text)
    → scan (plain tokens current) (escape cs) ≡ plain tokens (current ++ cs)
unfolding scan step
scan-escape tokens current [] = ap (plain tokens) (sym (append-nil current))
scan-escape tokens current (c ∷ cs) =
    scan-escape tokens (current ++ c ∷ []) cs ∙ ap (plain tokens) (append_assoc current (c ∷ []) cs)

scan-single :
    (tokens : List Text) (current cs : Text)
    → All (λ c. c ≢ b'\'') cs
    → scan (record (plain tokens current) { in_single_quote = true }) cs
      ≡ record (plain tokens (current ++ cs)) { in_single_quote = true }
unfolding scan step
scan-single tokens current [] h = rw (append-nil current) refl
scan-single tokens current (c ∷ cs) h =
    ground (arith, scan-single tokens (current ++ c ∷ []) cs h.1, append_assoc current (c ∷ []) cs)

scan-double :
    (tokens : List Text) (current cs : Text)
    → All (λ c. (c ≢ b'"') × (c ≢ b'\\')) cs
    → scan (record (plain tokens current) { in_double_quote = true }) cs
      ≡ record (plain tokens (current ++ cs)) { in_double_quote = true }
unfolding scan step
scan-double tokens current [] h = rw (append-nil current) refl
scan-double tokens current (c ∷ cs) h =
    ground (arith, scan-double tokens (current ++ c ∷ []) cs h.1, append_assoc current (c ∷ []) cs)

scan-print_word :
    (tokens : List Text) (style : Style) (w : Text)
    → IsPrintable (record { style = style; word = w })
    → scan (plain tokens []) (print_word style w) ≡ plain tokens w
unfolding scan step
scan-print_word tokens Style.escaped w h = scan-escape tokens [] w
scan-print_word tokens Style.single w h = ground (
  arith,
  scan-append (record (plain tokens []) { in_single_quote = true }) w (b'\'' ∷ []),
  scan-single tokens [] w h.1,
)
scan-print_word tokens Style.double w h = ground (
  arith,
  scan-append (record (plain tokens []) { in_double_quote = true }) w (b'"' ∷ []),
  scan-double tokens [] w h.1,
)

unfoldable tokens_of : Tokenizer → List Text
tokens_of t = push_token t.tokens t.current

scan_blank :
    (tokens : List Text) (w : Text)
    → w ≢ []
    → scan (plain tokens w) (b' ' ∷ []) ≡ plain (tokens ++ w ∷ []) []
unfolding scan step is_whitespace
scan_blank tokens [] h = absurd (h refl)
scan_blank tokens (c ∷ cs) h = refl

push_token_word : (tokens : List Text) (w : Text) → w ≢ [] → push_token tokens w ≡ tokens ++ w ∷ []
push_token_word tokens [] h = absurd (h refl)
push_token_word tokens (c ∷ cs) h = refl

scan-print_all :
    (tokens : List Text) (ps : List Printed)
    → All IsPrintable ps
    → tokens_of (scan (plain tokens []) (print_all ps)) ≡ tokens ++ words ps
unfolding tokens_of print_all scan
scan-print_all tokens [] h = sym (append-nil tokens)
scan-print_all tokens (p ∷ []) h =
    rw (scan-print_word tokens p.style p.word h.0) (push_token_word tokens p.word h.0.0)
scan-print_all tokens (p ∷ q ∷ ps) h =
    rw
      (
        scan-append (plain tokens []) (print_word p.style p.word ++ b' ' ∷ []) (print_all (q ∷ ps)),
        scan-append (plain tokens []) (print_word p.style p.word) (b' ' ∷ []),
        scan-print_word tokens p.style p.word h.0,
        scan_blank tokens p.word h.0.0,
      )
      (scan-print_all (tokens ++ p.word ∷ []) (q ∷ ps) h.1
        ∙ append_assoc tokens (p.word ∷ []) (words (q ∷ ps)))

-- Words that are printed with backslashes or in single or double quotes, with a blank between two
-- of them, are read back as they were, when each is not empty, holds no single quote where it
-- stands in single quotes, and no double quote and no backslash where it stands in double quotes.
pub tokenize-print_all :
    (ps : List Printed) → All IsPrintable ps → tokenize (print_all ps) ≡ map (λ p. p.word) ps
unfolding tokenize tokens_of print_all
tokenize-print_all ps h = scan-print_all [] ps h
