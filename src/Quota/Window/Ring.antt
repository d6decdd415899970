-- ===== src/Quota/Window/Ring.antt =====
-- The ring of src/quota/rolling_window.rs: which buckets the clearing loop zeroes.
use native.Mathlib.Nat.{add-zero, div-add-mod}
use s.Common.{
  ℕ, zero, suc, ◌+◌, ◌%◌, ◌<◌, ◌≡◌, refl, ◌∙◌, ◌≢◌, ◌⊎◌, inl, inr, List, [], ◌∷◌, arith, length,
  get_or, set, length-set, get_or-set_ne, ℕ_discrete,
}
use s.Quota.Window.{clear_stale}

-- Numbers less than `n` apart with one remainder are equal.
pub mod_apart : (a b n : ℕ) → a % n ≡ b % n → a < b → b < a + n → ⊥
mod_apart a b n e h k = grind (arith, div-add-mod a n, div-add-mod b n)

pub length-clear_stale :
    (bs : List ℕ) (start i r : ℕ) → length (clear_stale bs start i r) ≡ length bs
unfolding clear_stale
length-clear_stale bs start i zero = refl
length-clear_stale bs start i (suc r) = omega (
  arith,
  length-clear_stale (set bs ((start + i) % length bs) 0) start (i + 1) r,
  length-set bs ((start + i) % length bs) 0,
)

get_or-set_zero : (bs : List ℕ) (i : ℕ) → get_or (set bs i 0) i 0 ≡ 0
get_or-set_zero [] i = refl
get_or-set_zero (b ∷ bs) zero = refl
get_or-set_zero (b ∷ bs) (suc i) = get_or-set_zero bs i

set_keeps_zero : (bs : List ℕ) (i j : ℕ) → get_or bs j 0 ≡ 0 → get_or (set bs i 0) j 0 ≡ 0
set_keeps_zero bs i j h = elim (ℕ_discrete i j) [
  | yes e ↦ rw e (get_or-set_zero bs j)
  | no ne ↦ rw (get_or-set_ne bs i j 0 0 ne) h
]

-- A zero bucket stays zero.
clear_stale_zero :
    (bs : List ℕ) (start i r j : ℕ) → get_or bs j 0 ≡ 0 → get_or (clear_stale bs start i r) j 0 ≡ 0
unfolding clear_stale
clear_stale_zero bs start i zero j h = h
clear_stale_zero bs start i (suc r) j h =
    clear_stale_zero (set bs ((start + i) % length bs) 0) start (i + 1) r j
      (set_keeps_zero bs _ j h)

-- The loop zeroes the bucket of each of its rounds.
pub clear_stale_hit :
    (bs : List ℕ) (n start i r k : ℕ)
    → length bs ≡ n
    → k < r
    → get_or (clear_stale bs start i r) ((start + i + k) % n) 0 ≡ 0
unfolding clear_stale
clear_stale_hit bs n start i zero k e h = elim h [ ]
clear_stale_hit bs n start i (suc r) zero e h =
    rw (e, add-zero)
      (clear_stale_zero (set bs ((start + i) % n) 0) start (i + 1) r ((start + i) % n)
        (get_or-set_zero bs _))
clear_stale_hit bs n start i (suc r) (suc k) e h =
    let same : start + i + suc k ≡ start + (i + 1) + k = omega arith in
    rw (e, same)
      (clear_stale_hit (set bs ((start + i) % n) 0) n start (i + 1) r k
        (length-set bs ((start + i) % n) 0 ∙ e) (omega arith))

-- It leaves the others alone.
pub clear_stale_miss :
    (bs : List ℕ) (n start i r j : ℕ)
    → length bs ≡ n
    → ((k : ℕ) → k < r → (start + i + k) % n ≢ j)
    → get_or (clear_stale bs start i r) j 0 ≡ get_or bs j 0
unfolding clear_stale
clear_stale_miss bs n start i zero j e h = refl
clear_stale_miss bs n start i (suc r) j e h = rw e (
    clear_stale_miss (set bs ((start + i) % n) 0) n start (i + 1) r j
      (length-set bs ((start + i) % n) 0 ∙ e) later
    ∙ get_or-set_ne bs ((start + i) % n) j 0 0 now)
  where
    later : (k : ℕ) → k < r → (start + (i + 1) + k) % n ≢ j
    later k hk p =
        h (suc k) (omega arith)
          (let same : start + i + suc k ≡ start + (i + 1) + k = omega arith in rw same p)

    now : (start + i) % n ≢ j
    now p = h zero (omega arith) (rw add-zero p)

-- Whether the loop reaches a bucket.
pub clear_stale_cases :
    (n start r j : ℕ)
    → ((k : ℕ) × (k < r) × ((start + k) % n ≡ j)) ⊎ ((k : ℕ) → k < r → (start + k) % n ≢ j)
clear_stale_cases n start zero j = inr (λ k h. elim h [ ])
clear_stale_cases n start (suc r) j = elim (clear_stale_cases n start r j) [
  | inl (k, lt, e) ↦ inl (k, omega arith, e)
  | inr none_below ↦ elim (ℕ_discrete ((start + r) % n) j) [
    | yes e ↦ inl (r, omega arith, e)
    | no ne ↦ inr (λ k lt e. elim (ℕ_discrete k r) [
      | yes same ↦ ne (rw same at e)
      | no other ↦ none_below k (omega arith) e
    ])
  ]
]
