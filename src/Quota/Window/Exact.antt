-- ===== src/Quota/Window/Exact.antt =====
-- Windows of one second to a bucket (src/quota/rolling_window.rs): `sum` is exact.
use native.Mathlib.Nat.{add-zero, add_assoc, mod-add-mod}
use s.Common.{
  ℕ, zero, suc, ◌+◌, ◌-◌, ◌%◌, ◌≤◌, ◌<◌, ◌≡◌, refl, ◌∙◌, inl, inr, List, [], ◌∷◌, arith, length,
  get_or, ltb, leb, Bool-cases,
}
use s.Quota.Window.{RollingWindow, clear_stale, zero_all, sum_buckets, u64_mod, expire, advance}
use s.Quota.Window.Ring.{length-clear_stale, clear_stale_hit, clear_stale_miss, clear_stale_cases}
use s.Quota.Window.History.{
  History, bucket_total, AllBefore, bucket_total_hit, bucket_total_miss, bucket_total_old,
}

-- The window holds, bucket by bucket, what the history says.
pub record Tracks (n : ℕ) (h : History) (w : RollingWindow) : Type 0 where
  pub some_buckets : 0 < n
  pub one_second : w.bucket_secs ≡ 1
  pub size : length w.buckets ≡ n
  pub past : AllBefore w.last_advance h
  pub each : (i : ℕ) → i < n → get_or w.buckets i 0 ≡ bucket_total n w.last_advance i h % u64_mod
  pub cached : w.cached_sum ≡ sum_buckets w.buckets % u64_mod

AllBefore-mono : {m n : ℕ} (h : History) → m ≤ n → AllBefore m h → AllBefore n h
AllBefore-mono [] le b = tt
AllBefore-mono (e ∷ h) le b = (omega arith, AllBefore-mono h le b.1)

length-zero_all : (bs : List ℕ) → length (zero_all bs) ≡ length bs
unfolding zero_all
length-zero_all [] = refl
length-zero_all (b ∷ bs) = omega (arith, length-zero_all bs)

get_or-zero_all : (bs : List ℕ) (i : ℕ) → get_or (zero_all bs) i 0 ≡ 0
unfolding zero_all
get_or-zero_all [] i = refl
get_or-zero_all (b ∷ bs) zero = refl
get_or-zero_all (b ∷ bs) (suc i) = get_or-zero_all bs i

sum_buckets-zero_all : (bs : List ℕ) → sum_buckets (zero_all bs) ≡ 0
unfolding sum_buckets zero_all
sum_buckets-zero_all [] = refl
sum_buckets-zero_all (b ∷ bs) = omega (arith, sum_buckets-zero_all bs)

ring_index : (last k n : ℕ) → (last % n + 1 + k) % n ≡ (last + 1 + k) % n
ring_index last k n = rw (add_assoc (last % n) 1 k, add_assoc last 1 k) (mod-add-mod last n (1 + k))

-- The partial clearing, bucket by bucket.
clear_stale_each :
    (n last now j : ℕ) (h : History) (bs : List ℕ)
    → length bs ≡ n
    → last ≤ now
    → AllBefore last h
    → get_or bs j 0 ≡ bucket_total n last j h % u64_mod
    → get_or (clear_stale bs (last % n + 1) 0 (now - last)) j 0 ≡ bucket_total n now j h % u64_mod
clear_stale_each n last now j h bs e le b at_j =
    elim (clear_stale_cases n (last % n + 1) (now - last) j) [
      | inl (k, lt, hit) ↦
          let here : (last % n + 1 + 0 + k) % n ≡ j = rw add-zero hit in
          let there : (last + 1 + k) % n ≡ j = rw (← ring_index last k n) hit in
          let cleared : get_or (clear_stale bs (last % n + 1) 0 (now - last)) j 0 ≡ 0 =
            rw here at (clear_stale_hit bs n (last % n + 1) 0 (now - last) k e lt) in
          let gone : bucket_total n now j h ≡ 0 =
            rw there at (bucket_total_hit n last now k h (omega arith) b) in
          omega (arith, cleared, gone)
      | inr miss ↦
          rw
            (
              clear_stale_miss bs n (last % n + 1) 0 (now - last) j e
                  (λ k lt. rw add-zero (miss k lt)),
              bucket_total_miss n last now j h le b
                  (λ k lt. rw (← ring_index last k n) (miss k (omega arith))),
            )
            at_j
    ]

expire_full :
    (w : RollingWindow) (now e : ℕ)
    → w.bucket_secs ≡ 1
    → length w.buckets ≤ e
    → expire w now e ≡ record w { buckets = zero_all w.buckets; last_advance = now; cached_sum = 0 }
unfolding expire
expire_full w now e one le = ground arith

expire_part :
    (w : RollingWindow) (now e n : ℕ)
    → w.bucket_secs ≡ 1
    → length w.buckets ≡ n
    → e < n
    → let bs = clear_stale w.buckets (w.last_advance % n + 1) 0 e in
      expire w now e
      ≡ record w { buckets = bs; last_advance = now; cached_sum = sum_buckets bs % u64_mod }
unfolding expire
expire_part w now e n one size lt = ground arith

expire_full-Tracks :
    (n now : ℕ) (h : History) (w : RollingWindow)
    → w.last_advance + n ≤ now
    → Tracks n h w
    → Tracks n h (record w { buckets = zero_all w.buckets; last_advance = now; cached_sum = 0 })
expire_full-Tracks n now h w le t = record {
  some_buckets = t.some_buckets;
  one_second = t.one_second;
  size = length-zero_all w.buckets ∙ t.size;
  past = AllBefore-mono h (omega arith) t.past;
  each = λ i lt.
      omega
        (arith, get_or-zero_all w.buckets i, bucket_total_old n w.last_advance now i h le t.past);
  cached = omega (arith, sum_buckets-zero_all w.buckets);
}

expire_part-Tracks :
    (n now : ℕ) (h : History) (w : RollingWindow)
    → w.last_advance ≤ now
    → Tracks n h w
    → let bs = clear_stale w.buckets (w.last_advance % n + 1) 0 (now - w.last_advance) in
      Tracks n h
        (record w { buckets = bs; last_advance = now; cached_sum = sum_buckets bs % u64_mod })
expire_part-Tracks n now h w le t = record {
  some_buckets = t.some_buckets;
  one_second = t.one_second;
  size = length-clear_stale w.buckets (w.last_advance % n + 1) 0 (now - w.last_advance) ∙ t.size;
  past = AllBefore-mono h (omega arith) t.past;
  each = λ i lt. clear_stale_each n w.last_advance now i h w.buckets t.size le t.past (t.each i lt);
  cached = refl;
}

pub advance-Tracks :
    (n now : ℕ) (h : History) (w : RollingWindow)
    → w.last_advance ≤ now
    → Tracks n h w
    → Tracks n h (advance w now) × ((advance w now).last_advance ≡ now)
unfolding advance
advance-Tracks n now h w le t = elim (Bool-cases (ltb (now - w.last_advance) w.bucket_secs)) [
  | inl still ↦ rw still (t, ground (arith, t.one_second))
  | inr moved ↦ rw moved (elim (Bool-cases (leb n (now - w.last_advance))) [
    | inl full ↦
        rw (expire_full w now (now - w.last_advance) t.one_second (ground (arith, t.size)))
          (expire_full-Tracks n now h w (ground arith) t, refl)
    | inr part ↦
        rw (expire_part w now (now - w.last_advance) n t.one_second t.size (ground arith))
          (expire_part-Tracks n now h w le t, refl)
  ])
]
