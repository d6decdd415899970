-- ===== src/Acl/Pattern.antt =====
-- Host names of src/config/acl.rs: `hostname_matches`.
use s.Common.{
  ℕ, zero, suc, ◌+◌, ◌-◌, ◌<◌, ◌≡◌, ◌≢◌, ◌↔◌, ◌⊎◌, inl, inr, refl, ap, Bool, true, false, ◌&&◌,
  ◌||◌, ◌++◌, [], ◌∷◌, Option, none, some, arith, ltb, leb, ◌==◌, if◌then◌else◌, Text, length,
  get_or, take, drop, Bool-cases, Option-cases, length-append, length-take, map,
}

unfoldable pub to_lower : ℕ → ℕ
to_lower c = if leb b'A' c && leb c b'Z' then c + 32 else c

abbrev pub lower : Text → Text
lower = map to_lower

unfoldable pub eq_ignore_ascii_case : Text → Text → Bool
eq_ignore_ascii_case [] [] = true
eq_ignore_ascii_case [] (y ∷ ys) = false
eq_ignore_ascii_case (x ∷ xs) [] = false
eq_ignore_ascii_case (x ∷ xs) (y ∷ ys) = to_lower x == to_lower y && eq_ignore_ascii_case xs ys

-- `*.` in front of what is returned.
unfoldable pub strip_wildcard : Text → Option Text
strip_wildcard [] = none
strip_wildcard (c ∷ []) = none
strip_wildcard (c ∷ d ∷ rest) = if c == b'*' && d == b'.' then some rest else none

unfoldable pub is_all : Text → Bool
is_all [] = false
is_all (c ∷ []) = c == b'*'
is_all (c ∷ d ∷ cs) = false

unfoldable pub suffix_matches : Text → Text → Bool
suffix_matches host suffix =
    eq_ignore_ascii_case host suffix
    || (ltb (length suffix + 1) (length host)
        && (get_or host (length host - length suffix - 1) 0 == b'.'
            && eq_ignore_ascii_case (drop (length host - length suffix) host) suffix))

unfoldable pub hostname_matches : Text → Text → Bool
unfolding eq_ignore_ascii_case strip_wildcard is_all suffix_matches
hostname_matches host pattern = if is_all pattern then true else elim (strip_wildcard pattern) [
  | some suffix ↦ suffix_matches host suffix
  | none ↦ eq_ignore_ascii_case host pattern
]

eq_ignore_ascii_case_iff :
    (xs ys : Text) → (eq_ignore_ascii_case xs ys ≡ true) ↔ (lower xs ≡ lower ys)
unfolding eq_ignore_ascii_case
eq_ignore_ascii_case_iff [] [] = (λ _. refl, λ _. refl)
eq_ignore_ascii_case_iff [] (y ∷ ys) = (λ e. cc, λ e. cc)
eq_ignore_ascii_case_iff (x ∷ xs) [] = (λ e. cc, λ e. cc)
eq_ignore_ascii_case_iff (x ∷ xs) (y ∷ ys) = ground (arith, eq_ignore_ascii_case_iff xs ys)

split_at : (xs : Text) (n : ℕ) → n < length xs → xs ≡ take n xs ++ get_or xs n 0 ∷ drop (suc n) xs
split_at [] n h = elim h [ ]
split_at (x ∷ xs) zero h = refl
split_at (x ∷ xs) (suc n) h = ap (◌∷◌ x) (split_at xs n (omega arith))

get_or-append : (xs ys : Text) (y : ℕ) → get_or (xs ++ y ∷ ys) (length xs) 0 ≡ y
get_or-append [] ys y = refl
get_or-append (x ∷ xs) ys y = get_or-append xs ys y

drop-append : (xs ys : Text) (y : ℕ) → drop (suc (length xs)) (xs ++ y ∷ ys) ≡ ys
drop-append [] ys y = refl
drop-append (x ∷ xs) ys y = drop-append xs ys y

length-lower : (xs : Text) → length (lower xs) ≡ length xs
length-lower [] = refl
length-lower (x ∷ xs) = ap suc (length-lower xs)

-- A host under a domain: something, a dot, and the domain up to case.
abbrev pub Under : Text → Text → Type 0
Under host suffix =
    (pre : Text) × (rest : Text) × (host ≡ pre ++ b'.' ∷ rest)
    × (pre ≢ [])
    × (lower rest ≡ lower suffix)

Under-of_suffix :
    (host suffix : Text)
    → length suffix + 1 < length host
    → get_or host (length host - length suffix - 1) 0 ≡ b'.'
    → lower (drop (length host - length suffix) host) ≡ lower suffix
    → Under host suffix
Under-of_suffix host suffix longer dot same =
    let n : ℕ = length host - length suffix - 1 in
    let next : suc n ≡ length host - length suffix = omega arith in
    let cut : host ≡ take n host ++ get_or host n 0 ∷ drop (suc n) host =
      split_at host n (omega arith) in
    (
      take n host,
      drop (suc n) host,
      rw dot at cut,
      λ e. absurd (omega (arith, ap length e, length-take n host)),
      rw next same,
    )

suffix_of_under :
    (pre rest suffix : Text)
    → pre ≢ []
    → lower rest ≡ lower suffix
    → let host = pre ++ b'.' ∷ rest in
      (length suffix + 1 < length host)
      × (get_or host (length host - length suffix - 1) 0 ≡ b'.')
      × (lower (drop (length host - length suffix) host) ≡ lower suffix)
suffix_of_under [] rest suffix ne same = absurd (ne refl)
suffix_of_under (p ∷ ps) rest suffix ne same =
    let pre : Text = p ∷ ps in
    let host : Text = pre ++ b'.' ∷ rest in
    let size : length rest ≡ length suffix =
      omega (arith, ap length same, length-lower rest, length-lower suffix) in
    let whole : length host ≡ length pre + suc (length rest) = length-append pre (b'.' ∷ rest) in
    let at : length host - length suffix - 1 ≡ length pre = omega arith in
    let behind : length host - length suffix ≡ suc (length pre) = omega arith in
    (omega arith, rw at (get_or-append pre rest b'.'), rw (behind, drop-append pre rest b'.') same)

-- A wildcard pattern matches the domain itself and the names under it, and nothing else.
suffix_matches_iff :
    (host suffix : Text)
    → (suffix_matches host suffix ≡ true) ↔ ((lower host ≡ lower suffix) ⊎ Under host suffix)
unfolding suffix_matches
suffix_matches_iff host suffix = (to (Bool-cases (eq_ignore_ascii_case host suffix)), from)
  where
    behind : Text
    behind = drop (length host - length suffix) host

    to :
        (eq_ignore_ascii_case host suffix ≡ true) ⊎ (eq_ignore_ascii_case host suffix ≡ false)
        → suffix_matches host suffix ≡ true
        → (lower host ≡ lower suffix) ⊎ Under host suffix
    to (inl e) h = inl ((eq_ignore_ascii_case_iff host suffix).0 e)
    to (inr e) h = inr (
        Under-of_suffix host suffix (ground (arith, e)) (ground (arith, e))
          ((eq_ignore_ascii_case_iff behind suffix).0 (ground (arith, e))))

    from : (lower host ≡ lower suffix) ⊎ Under host suffix → suffix_matches host suffix ≡ true
    from (inl e) = rw ((eq_ignore_ascii_case_iff host suffix).1 e)
    from (inr (pre, rest, e, ne, same)) =
        let (longer, dot, tail) = suffix_of_under pre rest suffix ne same in
        let eq : eq_ignore_ascii_case
              (drop (length (pre ++ b'.' ∷ rest) - length suffix) (pre ++ b'.' ∷ rest)) suffix
            ≡ true =
          (eq_ignore_ascii_case_iff _ suffix).1 tail in
        rw e (ground arith)

-- Of the patterns other than `*`, one with `*.` in front matches as above, and any other matches
-- only itself, up to case.
hostname_matches_iff :
    (host pattern : Text)
    → is_all pattern ≡ false
    → (hostname_matches host pattern ≡ true) ↔ (elim (strip_wildcard pattern) [
      | none ↦ lower host ≡ lower pattern
      | some suffix ↦ (lower host ≡ lower suffix) ⊎ Under host suffix
    ])
unfolding hostname_matches
hostname_matches_iff host pattern h = elim (Option-cases (strip_wildcard pattern)) [
  | inl e ↦ rw (h, e) (eq_ignore_ascii_case_iff host pattern)
  | inr (suffix, e) ↦ rw (h, e) (suffix_matches_iff host suffix)
]
