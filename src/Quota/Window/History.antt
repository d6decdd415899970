-- ===== src/Quota/Window/History.antt =====
-- What a rolling window is meant to hold (src/quota/rolling_window.rs): the counts recorded in the
-- last `n` seconds, read off the whole history.
use native.Mathlib.Nat.{mod-lt, add-zero, add-mod_right}
use s.Common.{
  ℕ, zero, suc, ◌+◌, ◌%◌, ◌≤◌, ◌<◌, ◌≡◌, refl, ◌≢◌, List, [], ◌∷◌, arith, length, get_or, All, ltb,
  leb, ◌==◌, Bool, ◌-◌, dec_lt, ℕ_discrete, ◌&&◌, if◌then◌else◌,
}
use s.Quota.Window.{sum_buckets, u64_mod}
use s.Quota.Window.Ring.{mod_apart}

-- Times and counts, newest first.
abbrev pub History : Type 0
History = List (ℕ × ℕ)

unfoldable pub window_total : ℕ → ℕ → History → ℕ
window_total n now [] = 0
window_total n now ((t, c) ∷ h) = (if ltb now (t + n) then c else 0) + window_total n now h

-- The share of one bucket of a ring of `n` buckets of a second each.
unfoldable pub bucket_total : ℕ → ℕ → ℕ → History → ℕ
bucket_total n now i [] = 0
bucket_total n now i ((t, c) ∷ h) =
    (if ltb now (t + n) && (t % n == i) then c else 0) + bucket_total n now i h

abbrev pub AllBefore : ℕ → History → Type 0
AllBefore now = All (λ e. e.0 ≤ now)

unfoldable pub sum_from : ℕ → ℕ → (ℕ → ℕ) → ℕ
sum_from k zero f = 0
sum_from k (suc n) f = f k + sum_from (suc k) n f

sum_from-add :
    (k n : ℕ) (f g : ℕ → ℕ) → sum_from k n (λ i. f i + g i) ≡ sum_from k n f + sum_from k n g
unfolding sum_from
sum_from-add k zero f g = omega arith
sum_from-add k (suc n) f g = omega (arith, sum_from-add (suc k) n f g)

sum_from_zero : (k n : ℕ) → sum_from k n (λ _. 0) ≡ 0
unfolding sum_from
sum_from_zero k zero = refl
sum_from_zero k (suc n) = omega (arith, sum_from_zero (suc k) n)

sum_from_spike :
    (k n a c : ℕ) (b : Bool)
    → sum_from k n (λ i. if b && (a == i) then c else 0)
      ≡ (if b && (leb k a && ltb a (k + n)) then c else 0)
unfolding sum_from
sum_from_spike k zero a c b = ground arith
sum_from_spike k (suc n) a c b = ground (arith, sum_from_spike (suc k) n a c b)

-- The buckets together hold the window.
pub sum_from-bucket_total :
    (n now : ℕ) (h : History)
    → 0 < n
    → sum_from 0 n (λ i. bucket_total n now i h) ≡ window_total n now h
unfolding bucket_total window_total
sum_from-bucket_total n now [] p = sum_from_zero 0 n
sum_from-bucket_total n now ((t, c) ∷ h) p =
    let rest : ℕ → ℕ = λ i. bucket_total n now i h in
    let spike : ℕ → ℕ = λ i. if ltb now (t + n) && (t % n == i) then c else 0 in
    ground (
      arith,
      sum_from-add 0 n spike rest,
      sum_from_spike 0 n (t % n) c (ltb now (t + n)),
      sum_from-bucket_total n now h p,
      mod-lt t p,
    )

pub sum_buckets-sum_from :
    (k : ℕ) (bs : List ℕ) (f : ℕ → ℕ)
    → ((i : ℕ) → i < length bs → get_or bs i 0 ≡ f (k + i) % u64_mod)
    → sum_buckets bs % u64_mod ≡ sum_from k (length bs) f % u64_mod
unfolding sum_buckets sum_from
sum_buckets-sum_from k [] f h = refl
sum_buckets-sum_from k (b ∷ bs) f h = omega (arith, sum_buckets-sum_from (suc k) bs f later, first)
  where
    later : (i : ℕ) → i < length bs → get_or bs i 0 ≡ f (suc k + i) % u64_mod
    later i lt = let e : k + suc i ≡ suc k + i = omega arith in rw (← e) (h (suc i) (omega arith))

    first : b ≡ f k % u64_mod
    first = rw (add-zero k) at (h zero (omega arith))

-- An entry whose bucket is cleared has left the window.
pub bucket_total_hit :
    (n last now k : ℕ) (h : History)
    → last + 1 + k ≤ now
    → AllBefore last h
    → bucket_total n now ((last + 1 + k) % n) h ≡ 0
unfolding bucket_total
bucket_total_hit n last now k [] le b = refl
bucket_total_hit n last now k ((t, c) ∷ h) le b =
    ground (arith, bucket_total_hit n last now k h le b.1, mod_apart t (last + 1 + k) n)

entry_stays :
    (n last now t : ℕ)
    → t ≤ last
    → ((k : ℕ) → last + 1 + k ≤ now → (last + 1 + k) % n ≢ t % n)
    → last < t + n
    → now < t + n
entry_stays n last now t le miss lt = elim (dec_lt now (t + n)) [
  | yes inside ↦ inside
  | no out ↦
      let k : ℕ = t + n - (last + 1) in
      let e : last + 1 + k ≡ t + n = omega arith in
      absurd (miss k (omega arith) (rw (e, add-mod_right t n)))
]

-- An entry whose bucket is not cleared stays in the window.
pub bucket_total_miss :
    (n last now j : ℕ) (h : History)
    → last ≤ now
    → AllBefore last h
    → ((k : ℕ) → last + 1 + k ≤ now → (last + 1 + k) % n ≢ j)
    → bucket_total n now j h ≡ bucket_total n last j h
unfolding bucket_total
bucket_total_miss n last now j [] le b miss = refl
bucket_total_miss n last now j ((t, c) ∷ h) le b miss = elim (ℕ_discrete (t % n) j) [
  | yes e ↦
      let stays : last < t + n → now < t + n = entry_stays n last now t b.0 (rw e miss) in
      ground (arith, bucket_total_miss n last now j h le b.1 miss, stays)
  | no ne ↦ ground (arith, bucket_total_miss n last now j h le b.1 miss)
]

-- After a whole window nothing is left.
pub bucket_total_old :
    (n last now j : ℕ) (h : History)
    → last + n ≤ now
    → AllBefore last h
    → bucket_total n now j h ≡ 0
unfolding bucket_total
bucket_total_old n last now j [] le b = refl
bucket_total_old n last now j ((t, c) ∷ h) le b =
    ground (arith, bucket_total_old n last now j h le b.1)
