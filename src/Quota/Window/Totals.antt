-- ===== src/Quota/Window/Totals.antt =====
-- `record` and `sum` of src/quota/rolling_window.rs against the history of what was recorded.
use native.Mathlib.Nat.{mod-lt, zero-add, mod_self, div_self}
use mathlib.Core.Option.{some-injective}
use s.Common.{
  ℕ, zero, suc, ◌+◌, ◌%◌, ◌≤◌, ◌<◌, ◌≡◌, refl, sym, subst, ap, ◌∙◌, List, [], ◌∷◌, some, arith,
  length, get_or, set, length-set, get_or-set_self, get_or-set_ne, length-replicate, replicate,
  ℕ_discrete,
}
use s.Quota.Window.{
  RollingWindow, new, sum_buckets, u64_mod, bucket_index, advance, add_at, record_count, sum,
}
use s.Quota.Window.History.{
  History, window_total, bucket_total, AllBefore, sum_from, sum_from-bucket_total,
  sum_buckets-sum_from,
}
use s.Quota.Window.Exact.{Tracks, advance-Tracks}

sum_buckets-set :
    (bs : List ℕ) (i v : ℕ)
    → i < length bs
    → sum_buckets (set bs i v) + get_or bs i 0 ≡ sum_buckets bs + v
unfolding sum_buckets
sum_buckets-set [] i v h = elim h [ ]
sum_buckets-set (b ∷ bs) zero v h = omega arith
sum_buckets-set (b ∷ bs) (suc i) v h = omega (arith, sum_buckets-set bs i v (omega arith))

bucket_index_one :
    (w : RollingWindow) (n now : ℕ)
    → w.bucket_secs ≡ 1
    → length w.buckets ≡ n
    → bucket_index w now ≡ now % n
unfolding bucket_index
bucket_index_one w n now one size = ground arith

add_at-each :
    (n now c i : ℕ) (h : History) (bs : List ℕ)
    → 0 < n
    → length bs ≡ n
    → get_or bs (now % n) 0 ≡ bucket_total n now (now % n) h % u64_mod
    → get_or bs i 0 ≡ bucket_total n now i h % u64_mod
    → get_or (set bs (now % n) ((get_or bs (now % n) 0 + c) % u64_mod)) i 0
      ≡ bucket_total n now i ((now, c) ∷ h) % u64_mod
unfolding bucket_total
add_at-each n now c i h bs p size here there = elim (ℕ_discrete (now % n) i) [
  | yes e ↦
      let v : ℕ = (get_or bs (now % n) 0 + c) % u64_mod in
      let new_here : get_or (set bs (now % n) v) (now % n) 0 ≡ v =
        get_or-set_self bs (now % n) v 0 (rw size (mod-lt now p)) in
      rw (← e) (ground (arith, new_here))
  | no ne ↦
      ground (arith, get_or-set_ne bs (now % n) i ((get_or bs (now % n) 0 + c) % u64_mod) 0 ne)
]

add_at-Tracks :
    (n now c : ℕ) (h : History) (w : RollingWindow)
    → w.last_advance ≡ now
    → Tracks n h w
    → Tracks n ((now, c) ∷ h) (add_at w (now % n) c)
unfolding add_at
add_at-Tracks n now c h w e t =
    let inside : now % n < length w.buckets = rw t.size (mod-lt now t.some_buckets) in
    record {
      some_buckets = t.some_buckets;
      one_second = t.one_second;
      size = length-set w.buckets (now % n) _ ∙ t.size;
      past = (omega arith, t.past);
      each = λ i lt. rw e (
          add_at-each n now c i h w.buckets t.some_buckets t.size
            (rw e at (t.each (now % n) (mod-lt now t.some_buckets))) (rw e at (t.each i lt)));
      cached = omega (
        arith,
        t.cached,
        sum_buckets-set w.buckets (now % n) ((get_or w.buckets (now % n) 0 + c) % u64_mod) inside,
      );
    }

record_count-Tracks :
    (n now c : ℕ) (h : History) (w : RollingWindow)
    → w.last_advance ≤ now
    → Tracks n h w
    → Tracks n ((now, c) ∷ h) (record_count w c now now)
unfolding record_count
record_count-Tracks n now c h w le t =
    let (t', e) = advance-Tracks n now h w le t in
    rw (bucket_index_one (advance w now) n now t'.one_second t'.size)
      (add_at-Tracks n now c h (advance w now) e t')

-- Every entry of a history is recorded when it happens, the clock reading the same second twice.
unfoldable pub record_all : RollingWindow → History → RollingWindow
record_all w [] = w
record_all w ((t, c) ∷ h) = record_count (record_all w h) c t t

-- Times do not fall, from the creation of the window on.
abbrev pub InOrder : ℕ → History → Type 0
InOrder start [] = Unit
InOrder start ((t, c) ∷ h) = (start ≤ t) × AllBefore t h × InOrder start h

last_of : ℕ → History → ℕ
last_of start [] = start
last_of start ((t, c) ∷ h) = t

last_of-le : (start now : ℕ) (h : History) → start ≤ now → AllBefore now h → last_of start h ≤ now
unfolding last_of
last_of-le start now [] le b = le
last_of-le start now ((t, c) ∷ h) le b = b.0

last_advance-record_count :
    (w : RollingWindow) (n now c : ℕ) (h : History)
    → w.last_advance ≤ now
    → Tracks n h w
    → (record_count w c now now).last_advance ≡ now
unfolding record_count
last_advance-record_count w n now c h le t = (advance-Tracks n now h w le t).1

abbrev fresh : ℕ → ℕ → RollingWindow
fresh n start = record {
  buckets = replicate n 0;
  window_secs = n;
  bucket_secs = 1;
  last_advance = start;
  cached_sum = 0;
}

new_zero : (start : ℕ) {w : RollingWindow} → new 0 0 start ≡ some w → ⊥
unfolding new
new_zero start e = cc

new_shape : (n start : ℕ) → 0 < n → new n n start ≡ some (fresh n start)
unfolding new
new_shape n start p = ground (arith, mod_self n, div_self p)

sum_buckets-replicate : (n : ℕ) → sum_buckets (replicate n 0) ≡ 0
unfolding sum_buckets
sum_buckets-replicate zero = refl
sum_buckets-replicate (suc n) = omega (arith, sum_buckets-replicate n)

get_or-replicate : (n i : ℕ) → get_or {A = ℕ} (replicate n 0) i 0 ≡ 0
get_or-replicate zero i = refl
get_or-replicate (suc n) zero = refl
get_or-replicate (suc n) (suc i) = get_or-replicate n i

fresh-Tracks : (n start : ℕ) → 0 < n → Tracks n [] (fresh n start)
unfolding bucket_total
fresh-Tracks n start p = record {
  some_buckets = p;
  one_second = refl;
  size = length-replicate n 0;
  past = tt;
  each = λ i lt. omega (arith, get_or-replicate n i);
  cached = omega (arith, sum_buckets-replicate n);
}

new-Tracks :
    (n start : ℕ) (w : RollingWindow)
    → new n n start ≡ some w
    → Tracks n [] w × (w.last_advance ≡ start)
new-Tracks zero start w e = absurd (new_zero start e)
new-Tracks (suc m) start w e =
    subst (λ v. Tracks (suc m) [] v × (v.last_advance ≡ start))
      (some-injective _ _ (sym (new_shape (suc m) start (omega arith)) ∙ e))
      (fresh-Tracks (suc m) start (omega arith), refl)

record_all-Tracks :
    (n start : ℕ) (h : History) (w : RollingWindow)
    → new n n start ≡ some w
    → InOrder start h
    → Tracks n h (record_all w h) × ((record_all w h).last_advance ≡ last_of start h)
unfolding record_all last_of
record_all-Tracks n start [] w e o = new-Tracks n start w e
record_all-Tracks n start ((t, c) ∷ h) w e o =
    let (r, l) = record_all-Tracks n start h w e o.2 in
    let before : (record_all w h).last_advance ≤ t = rw l (last_of-le start t h o.0 o.1) in
    (
      record_count-Tracks n t c h (record_all w h) before r,
      last_advance-record_count (record_all w h) n t c h before r,
    )

cached_sum-window_total :
    (n : ℕ) (h : History) (w : RollingWindow)
    → Tracks n h w
    → w.cached_sum ≡ window_total n w.last_advance h % u64_mod
cached_sum-window_total n h w t =
    let f : ℕ → ℕ = λ i. bucket_total n w.last_advance i h in
    let shares : sum_buckets w.buckets % u64_mod ≡ sum_from 0 (length w.buckets) f % u64_mod =
      sum_buckets-sum_from 0 w.buckets f (λ i lt. rw zero-add (t.each i (rw t.size at lt))) in
    let shares' : sum_buckets w.buckets % u64_mod ≡ sum_from 0 n f % u64_mod =
      rw t.size at shares in
    t.cached
    ∙ shares'
    ∙ ap (λ (x : ℕ). x % u64_mod) (sum_from-bucket_total n w.last_advance h t.some_buckets)

-- A window of `n` seconds in `n` buckets, into which everything was recorded in the order of time,
-- and both readings of the clock in each record were of the same second, sums to exactly what was
-- recorded in the last `n` seconds, modulo 2^64.
pub sum-record_all :
    (n start now : ℕ) (h : History) (w : RollingWindow)
    → new n n start ≡ some w
    → InOrder start h
    → start ≤ now
    → AllBefore now h
    → (sum (record_all w h) now).1 ≡ window_total n now h % u64_mod
unfolding sum
sum-record_all n start now h w e o le b =
    let (r, l) = record_all-Tracks n start h w e o in
    let (t, at) = advance-Tracks n now h (record_all w h) (rw l (last_of-le start now h le b)) r in
    rw at at (cached_sum-window_total n h (advance (record_all w h) now) t)
