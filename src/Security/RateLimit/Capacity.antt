-- ===== src/Security/RateLimit/Capacity.antt =====
-- How many entries the limiters of src/security/rate_limit.rs keep.
use s.Common.{
  ℕ, zero, suc, ◌+◌, ◌-◌, ◌/◌, ◌≤◌, ◌<◌, ◌≡◌, ◌≢◌, refl, ap, ◌∙◌, min, true, false, none, some,
  List, [], ◌∷◌, ltb, leb, ◌==◌, if◌then◌else◌, length, take, All, is_some, arith, Bool-cases,
  Option-cases, inl, inr,
}
use s.Common.Maps.{
  Key, lookup, contains_key, insert, remove, keep_if, Distinct, remove-Distinct,
  length-filter_map-le, length-insert_new, length-insert_old, length-insert-le, length-remove-le,
  length-remove-some,
}
use s.Security.RateLimit.{
  Governor, TrackedLimiter, Limiters, stale_age, sort_by_time, insert_by_time, Table, ages,
  remove_all, cleanup_stale, evict_oldest, make_room, check_entry, limiter_of, check_limit,
}

insert_by_time-All :
    {K : Type 0} (P : K × ℕ → Type 0) (e : K × ℕ) (es : List (K × ℕ))
    → P e
    → All P es
    → All P (insert_by_time e es)
unfolding insert_by_time
insert_by_time-All P e [] h a = (h, tt)
insert_by_time-All P (k, t) ((j, u) ∷ es) h a = ground (arith, insert_by_time-All P (k, t) es h a.1)

sort_by_time-All :
    {K : Type 0} (P : K × ℕ → Type 0) (es : List (K × ℕ)) → All P es → All P (sort_by_time es)
unfolding sort_by_time
sort_by_time-All P [] a = tt
sort_by_time-All P (e ∷ es) a =
    insert_by_time-All P e (sort_by_time es) a.0 (sort_by_time-All P es a.1)

length-insert_by_time :
    {K : Type 0} (e : K × ℕ) (es : List (K × ℕ)) → length (insert_by_time e es) ≡ suc (length es)
unfolding insert_by_time
length-insert_by_time e [] = refl
length-insert_by_time (k, t) ((j, u) ∷ es) = ground (arith, length-insert_by_time (k, t) es)

length-sort_by_time : {K : Type 0} (es : List (K × ℕ)) → length (sort_by_time es) ≡ length es
unfolding sort_by_time
length-sort_by_time [] = refl
length-sort_by_time (e ∷ es) =
    ground (arith, length-insert_by_time e (sort_by_time es), length-sort_by_time es)

module _ (gov : Governor) {K : Type 0} ⦃key : Key K⦄ where
  length-remove_all-le :
      (es : List (K × ℕ)) (m : Table K gov.Limiter) → length (remove_all gov es m) ≤ length m
  unfolding remove_all
  length-remove_all-le [] m = omega arith
  length-remove_all-le ((k, t) ∷ es) m =
      omega (arith, length-remove_all-le es (remove k m), length-remove-le k m)

  remove_all-Distinct :
      (es : List (K × ℕ)) (m : Table K gov.Limiter) → Distinct m → Distinct (remove_all gov es m)
  unfolding remove_all
  remove_all-Distinct [] m d = d
  remove_all-Distinct ((k, t) ∷ es) m d =
      remove_all-Distinct es (remove k m) (remove-Distinct k m d)

  ages_tracked :
      (es m : Table K gov.Limiter)
      → All (λ (e : K × ℕ). is_some (lookup e.0 m) ≡ true) (ages gov es)
      → (k : K) (t : TrackedLimiter gov.Limiter)
      → All (λ (e : K × ℕ). is_some (lookup e.0 ((k, t) ∷ m)) ≡ true) (ages gov es)
  unfolding ages lookup
  ages_tracked [] m a k t = tt
  ages_tracked ((j, u) ∷ es) m a k t = (ground (arith, a.0), ages_tracked es m a.1 k t)

  -- Each listed age belongs to an entry of the map.
  ages_in :
      (m : Table K gov.Limiter) → All (λ (e : K × ℕ). is_some (lookup e.0 m) ≡ true) (ages gov m)
  unfolding ages lookup
  ages_in [] = tt
  ages_in ((k, t) ∷ m) = (ground arith, ages_tracked m m (ages_in m) k t)

  length-ages : (m : Table K gov.Limiter) → length (ages gov m) ≡ length m
  unfolding ages
  length-ages [] = refl
  length-ages ((k, t) ∷ m) = ground (arith, length-ages m)

  remove_first :
      (count : ℕ) (es : List (K × ℕ)) (m : Table K gov.Limiter)
      → 1 ≤ count
      → 1 ≤ length es
      → All (λ (e : K × ℕ). is_some (lookup e.0 m) ≡ true) es
      → length (remove_all gov (take count es) m) + 1 ≤ length m
  unfolding remove_all
  remove_first zero es m c l a = absurd (omega arith)
  remove_first (suc n) [] m c l a = absurd (omega arith)
  remove_first (suc n) ((k, t) ∷ es) m c l a = elim (Option-cases (lookup k m)) [
    | inl missing ↦ absurd (ground (arith, a.0, missing))
    | inr (v, found) ↦
        omega (arith, length-remove_all-le (take n es) (remove k m), length-remove-some k v m found)
  ]

  -- Evicting at all makes room for at least one entry.
  evict_oldest_one :
      (count : ℕ) (m : Table K gov.Limiter)
      → 1 ≤ count
      → 1 ≤ length m
      → length (evict_oldest gov count m).0 + 1 ≤ length m
  unfolding evict_oldest
  evict_oldest_one count m c l = ground (
    arith,
    remove_first (min (length m) count) (sort_by_time (ages gov m)) m (omega arith)
        (omega (arith, length-sort_by_time (ages gov m), length-ages m))
        (sort_by_time-All (λ (e : K × ℕ). is_some (lookup e.0 m) ≡ true) (ages gov m) (ages_in m)),
  )

  make_room_lem :
      (k : K) (now cap : ℕ) (m : Table K gov.Limiter)
      → 10 ≤ cap
      → length m ≤ cap
      → lookup k m ≡ none
      → length (make_room gov k now cap m) + 1 ≤ cap
  unfolding make_room contains_key cleanup_stale
  make_room_lem k now cap m c l missing =
      let cleaned : Table K gov.Limiter = cleanup_stale gov now stale_age m in
      let fewer : length cleaned ≤ length m =
        length-filter_map-le (keep_if (λ k tracked. ltb (now - tracked.last_used) stale_age)) m in
      elim (Bool-cases (leb cap (length m))) [
        | inr room ↦ ground (arith, missing, room)
        | inl full ↦ elim (Bool-cases (leb cap (length cleaned))) [
          | inr room ↦ ground (arith, missing, full, room)
          | inl still ↦ ground (
            arith,
            missing,
            full,
            still,
            evict_oldest_one (cap / 10) cleaned (omega arith) (ground (arith, still)),
          )
        ]
      ]

  make_room_known :
      (k : K) (now cap : ℕ) (t : TrackedLimiter gov.Limiter) (m : Table K gov.Limiter)
      → lookup k m ≡ some t
      → make_room gov k now cap m ≡ m
  unfolding make_room contains_key
  make_room_known k now cap t m found = ground (arith, found)

  -- The map that a check with a rate leaves.
  abbrev entered : K → ℕ → ℕ → Table K gov.Limiter → Table K gov.Limiter
  entered k rate now room =
      insert k
        (record { limiter = (gov.check (limiter_of gov rate (lookup k room))).1; last_used = now })
        room

  check_entered :
      (k : K) (rate now : ℕ) (s : Limiters K gov.Limiter)
      → (check_limit gov k rate now s).1.limiters ≡ (
          if rate == 0
          then s.limiters
          else entered k rate now (make_room gov k now s.max_entries s.limiters))
  unfolding check_limit check_entry
  check_entered k rate now s = elim (Bool-cases (rate == 0)) [
    | inl off ↦ rw off refl
    | inr on ↦ rw on refl
  ]

  entered_cap :
      (k : K) (rate now cap : ℕ) (m : Table K gov.Limiter)
      → 10 ≤ cap
      → length m ≤ cap
      → length (entered k rate now (make_room gov k now cap m)) ≤ cap
  entered_cap k rate now cap m c l =
      let room : Table K gov.Limiter = make_room gov k now cap m in
      let t : TrackedLimiter gov.Limiter = record {
        limiter = (gov.check (limiter_of gov rate (lookup k room))).1;
        last_used = now;
      } in
      elim (Option-cases (lookup k m)) [
        | inl missing ↦
            omega (arith, length-insert-le k t room, make_room_lem k now cap m c l missing)
        | inr (u, found) ↦
            let same : room ≡ m = make_room_known k now cap u m found in
            omega (arith, length-insert_old k t u room (ap (lookup k) same ∙ found), ap length same)
      ]

  -- A check keeps the number of entries within the limit, where the limit is at least ten.
  pub check_limit-cap :
      (k : K) (rate now : ℕ) (s : Limiters K gov.Limiter)
      → 10 ≤ s.max_entries
      → length s.limiters ≤ s.max_entries
      → length (check_limit gov k rate now s).1.limiters ≤ s.max_entries
  check_limit-cap k rate now s c l =
      rw (check_entered k rate now s) (elim (Bool-cases (rate == 0)) [
        | inl off ↦ rw off l
        | inr on ↦ rw on (entered_cap k rate now s.max_entries s.limiters c l)
      ])

  make_room_small :
      (k : K) (now cap : ℕ) (m : Table K gov.Limiter)
      → cap < 10
      → cleanup_stale gov now stale_age m ≡ m
      → make_room gov k now cap m ≡ m
  unfolding make_room evict_oldest
  make_room_small k now cap m c recent =
      let nothing : cap / 10 ≡ 0 = omega arith in ground (arith, recent, nothing)

  -- With a limit below ten nothing is evicted: a full map of limiters in recent use grows by each
  -- new key.
  pub check_limit-small_cap :
      (k : K) (rate now : ℕ) (s : Limiters K gov.Limiter)
      → rate ≢ 0
      → s.max_entries < 10
      → s.max_entries ≤ length s.limiters
      → lookup k s.limiters ≡ none
      → cleanup_stale gov now stale_age s.limiters ≡ s.limiters
      → length (check_limit gov k rate now s).1.limiters ≡ length s.limiters + 1
  check_limit-small_cap k rate now s r c f missing recent =
      let m : Table K gov.Limiter = s.limiters in
      let room : Table K gov.Limiter = make_room gov k now s.max_entries m in
      let same : room ≡ m = make_room_small k now s.max_entries m c recent in
      let t : TrackedLimiter gov.Limiter = record {
        limiter = (gov.check (limiter_of gov rate (lookup k room))).1;
        last_used = now;
      } in
      let on : (rate == 0) ≡ false = ground (arith, r) in
      rw (check_entered k rate now s, on)
        (length-insert_new k t room (ap (lookup k) same ∙ missing) ∙ ap (λ r. length r + 1) same)
