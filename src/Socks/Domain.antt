-- ===== src/Socks/Domain.antt =====
-- `validate_domain` of src/socks/protocol.rs, on the bytes of the name. A byte above 127 is, like
-- the character it belongs to, no letter, digit or hyphen.
use s.Common.{
  ℕ, ◌≤◌, ◌≡◌, ◌⊎◌, inl, inr, subst, Bool, true, false, ◌&&◌, ◌||◌, Option, none, some, List, [],
  ◌∷◌, ltb, leb, ◌==◌, if◌then◌else◌, Text, length, All, all, is_some, arith, Option-cases,
  Bool-cases,
}
use s.Common.Chars.{split, onto_first}
use s.Net.{NetApi}

pub data DomainError : Type 0 where
  empty_domain root_only purely_numeric empty_label hyphen invalid_character : DomainError
  domain_too_long label_too_long : ℕ → DomainError

abbrev pub max_domain_length : ℕ
max_domain_length = 253

abbrev pub max_label_length : ℕ
max_label_length = 63

-- `strip_suffix('.')`, or the text itself.
unfoldable pub strip_dot : Text → Text
strip_dot [] = []
strip_dot (x ∷ []) = if x == b'.' then [] else x ∷ []
strip_dot (x ∷ y ∷ rest) = x ∷ strip_dot (y ∷ rest)

unfoldable pub is_ascii_digit : ℕ → Bool
is_ascii_digit c = leb b'0' c && leb c b'9'

unfoldable pub is_ascii_alphanumeric : ℕ → Bool
unfolding is_ascii_digit
is_ascii_alphanumeric c =
    is_ascii_digit c || (leb b'a' c && leb c b'z') || (leb b'A' c && leb c b'Z')

unfoldable pub is_numeric_label : Text → Bool
unfolding is_ascii_digit
is_numeric_label [] = false
is_numeric_label (c ∷ cs) = all is_ascii_digit (c ∷ cs)

unfoldable pub ends_with_hyphen : Text → Bool
ends_with_hyphen [] = false
ends_with_hyphen (c ∷ []) = c == b'-'
ends_with_hyphen (c ∷ d ∷ rest) = ends_with_hyphen (d ∷ rest)

unfoldable pub starts_with_hyphen : Text → Bool
starts_with_hyphen [] = false
starts_with_hyphen (c ∷ cs) = c == b'-'

unfoldable pub is_label_byte : ℕ → Bool
unfolding is_ascii_alphanumeric
is_label_byte c = is_ascii_alphanumeric c || (c == b'-')

-- The body of the loop over the labels.
unfoldable pub check_label : Text → Option DomainError
unfolding starts_with_hyphen ends_with_hyphen is_label_byte
check_label [] = some empty_label
check_label (c ∷ cs) =
    if ltb max_label_length (length (c ∷ cs))
    then some (label_too_long (length (c ∷ cs)))
    else if starts_with_hyphen (c ∷ cs) || ends_with_hyphen (c ∷ cs)
    then some hyphen
    else if all is_label_byte (c ∷ cs)
    then none
    else some invalid_character

-- The first error.
unfoldable pub check_labels : List Text → Option DomainError
unfolding check_label
check_labels [] = none
check_labels (l ∷ ls) = elim (check_label l) [ some e ↦ some e | none ↦ check_labels ls ]

-- The part behind `strip_suffix`, of the name and of what is left of it without its last dot.
unfoldable pub check_normalized : NetApi → Text → Text → Option DomainError
unfolding split is_numeric_label check_labels
check_normalized api name [] = some root_only
check_normalized api name (c ∷ cs) =
    let labels = split b'.' (c ∷ cs) in
    if all is_numeric_label labels
    then if is_some (api.parse_ip name) then none else some purely_numeric
    else check_labels labels

-- None where the name is valid.
unfoldable pub validate_domain : NetApi → Text → Option DomainError
unfolding strip_dot check_normalized
validate_domain api [] = some empty_domain
validate_domain api (c ∷ cs) =
    if ltb max_domain_length (length (c ∷ cs))
    then some (domain_too_long (length (c ∷ cs)))
    else check_normalized api (c ∷ cs) (strip_dot (c ∷ cs))

-- The bytes that a name on the wire may have: letters, digits, hyphens and dots.
abbrev pub IsHostByte : ℕ → Type 0
IsHostByte c =
    ((b'0' ≤ c) × (c ≤ b'9'))
    ⊎ (((b'a' ≤ c) × (c ≤ b'z')) ⊎ (((b'A' ≤ c) × (c ≤ b'Z')) ⊎ ((c ≡ b'-') ⊎ (c ≡ b'.'))))

all_bytes {κ} :
    (p : ℕ → Bool) (P : ℕ → Type κ) (l : Text)
    → ((c : ℕ) → p c ≡ true → P c)
    → all p l ≡ true
    → All P l
all_bytes p P [] imp h = tt
all_bytes p P (c ∷ cs) imp h = (imp c (ground (arith, h)), all_bytes p P cs imp (ground (arith, h)))

label_byte : (c : ℕ) → is_label_byte c ≡ true → IsHostByte c
unfolding is_label_byte
label_byte c h = ground (arith, h)

digit_byte : (c : ℕ) → is_ascii_digit c ≡ true → IsHostByte c
unfolding is_ascii_digit
digit_byte c h = ground (arith, h)

checked_bytes : (l : Text) → check_label l ≡ none → All IsHostByte l
unfolding check_label
checked_bytes [] h = tt
checked_bytes (c ∷ cs) h =
    all_bytes is_label_byte IsHostByte (c ∷ cs) label_byte (ground (arith, h))

numeric_bytes : (l : Text) → is_numeric_label l ≡ true → All IsHostByte l
unfolding is_numeric_label
numeric_bytes [] h = tt
numeric_bytes (c ∷ cs) h = all_bytes is_ascii_digit IsHostByte (c ∷ cs) digit_byte h

labels_bytes : (ls : List Text) → check_labels ls ≡ none → All (All IsHostByte) ls
unfolding check_labels
labels_bytes [] h = tt
labels_bytes (l ∷ ls) h = elim (Option-cases (check_label l)) [
  | inl fine ↦ (checked_bytes l fine, labels_bytes ls (ground (arith, h, fine)))
  | inr (e, bad) ↦ absurd (ground (arith, h, bad))
]

numerics_bytes : (ls : List Text) → all is_numeric_label ls ≡ true → All (All IsHostByte) ls
numerics_bytes [] h = tt
numerics_bytes (l ∷ ls) h =
    (numeric_bytes l (ground (arith, h)), numerics_bytes ls (ground (arith, h)))

onto_first_bytes {κ} :
    (P : ℕ → Type κ) (x : ℕ) (ls : List Text) → All (All P) (onto_first x ls) → P x × All (All P) ls
onto_first_bytes P x [] h = (h.0.0, tt)
onto_first_bytes P x (l ∷ ls) h = (h.0.0, (h.0.1, h.1))

-- A text is made of its labels and of dots.
split_bytes {κ} : (P : ℕ → Type κ) (c : ℕ) (xs : Text) → P c → All (All P) (split c xs) → All P xs
unfolding split
split_bytes P c [] pc h = tt
split_bytes P c (x ∷ xs) pc h = elim (Bool-cases (x == c)) [
  | inl same ↦ (subst P (ground (arith, same)) pc, split_bytes P c xs pc (ground (arith, h, same)))
  | inr other ↦
      let parts : P x × All (All P) (split c xs) =
        onto_first_bytes P x (split c xs) (ground (arith, h, other)) in
      (parts.0, split_bytes P c xs pc parts.1)
]

strip_bytes {κ} : (P : ℕ → Type κ) (xs : Text) → P b'.' → All P (strip_dot xs) → All P xs
unfolding strip_dot
strip_bytes P [] pc h = tt
strip_bytes P (x ∷ []) pc h = elim (Bool-cases (x == b'.')) [
  | inl dot ↦ (subst P (ground (arith, dot)) pc, tt)
  | inr other ↦ ground (arith, h, other)
]
strip_bytes P (x ∷ y ∷ ys) pc h = (h.0, strip_bytes P (y ∷ ys) pc h.1)

normalized_bytes :
    (api : NetApi) (name l : Text) → check_normalized api name l ≡ none → All IsHostByte l
unfolding check_normalized
normalized_bytes api name [] h = tt
normalized_bytes api name (c ∷ cs) h =
    let labels : List Text = split b'.' (c ∷ cs) in
    let from : All (All IsHostByte) labels → All IsHostByte (c ∷ cs) =
      split_bytes IsHostByte b'.' (c ∷ cs) (ground arith) in
    elim (Bool-cases (all is_numeric_label labels)) [
      | inl numeric ↦ from (numerics_bytes labels numeric)
      | inr mixed ↦ from (labels_bytes labels (ground (arith, h, mixed)))
    ]

-- A name that passes has no bytes but letters, digits, hyphens and dots, and at most 253 of them.
validate_domain-bytes :
    (api : NetApi) (name : Text)
    → validate_domain api name ≡ none
    → All IsHostByte name × (length name ≤ max_domain_length)
unfolding validate_domain
validate_domain-bytes api [] h = (tt, omega arith)
validate_domain-bytes api (c ∷ cs) h = (
  strip_bytes IsHostByte (c ∷ cs) (ground arith)
      (normalized_bytes api (c ∷ cs) (strip_dot (c ∷ cs)) (ground (arith, h))),
  ground (arith, h),
)
