-- ===== src/Proxy/DnsCache/Entries.antt =====
-- What src/proxy/dns_cache.rs gives back, and how much it keeps.
use s.Common.{
  ℕ, ◌+◌, ◌-◌, ◌≤◌, ◌≡◌, ◌≢◌, refl, subst, true, false, not, Option, none, some, List, [], ◌∷◌, leb,
  if◌then◌else◌, Text, text_key, length, retain, Dict, All, is_some, arith, Bool-cases,
  Option-cases, inl, inr,
}
use s.Common.Maps.{
  lookup, keep_if, lookup-insert_self, length-filter_map-le, length-insert-le, length-remove-some,
}
use s.Net.Guard.{is_dangerous_ip}
use s.Proxy.DnsCache.{
  DnsCache, CacheEntry, SocketAddr, is_enabled, is_expired, is_safe, validated, hit, get, insert,
  resolve_ttl, evict_lru, oldest, make_room, cleanup_expired,
}

retain_safe : (as' : List SocketAddr) → All (λ a. is_dangerous_ip a.ip ≡ false) (retain is_safe as')
unfolding is_safe
retain_safe [] = tt
retain_safe (a ∷ as') = elim (Bool-cases (is_dangerous_ip a.ip)) [
  | inl bad ↦ rw bad (retain_safe as')
  | inr good ↦ rw good (good, retain_safe as')
]

hit-some :
    (key : Text) (now : ℕ) (entry : CacheEntry) (found addrs : List SocketAddr) (c : DnsCache)
    → (hit key now entry found c).0 ≡ some addrs
    → (found ≡ addrs) × (addrs ≢ [])
unfolding hit
hit-some key now entry [] addrs c h = absurd (ground (arith, h))
hit-some key now entry (a ∷ as') addrs c h = (ground (arith, h), ground (arith, h))

-- With the guard on, a lookup gives at least one address, and none that the guard blocks, whatever
-- was inserted.
pub get_safe :
    (key : Text) (now : ℕ) (c : DnsCache) (addrs : List SocketAddr)
    → (get key true now c).0 ≡ some addrs
    → All (λ a. is_dangerous_ip a.ip ≡ false) addrs × (addrs ≢ [])
unfolding get validated
get_safe key now c addrs h = elim (Bool-cases (is_enabled c.ttl_mode)) [
  | inr off ↦ absurd (ground (arith, h, off))
  | inl on ↦ elim (Option-cases (lookup key c.cache)) [
    | inl missing ↦ absurd (ground (arith, h, on, missing))
    | inr (entry, found) ↦ elim (Bool-cases (is_expired now entry)) [
      | inl expired ↦ absurd (ground (arith, h, on, found, expired))
      | inr live ↦
          let given : (hit key now entry (retain is_safe entry.addrs) c).0 ≡ some addrs =
            ground (arith, h, on, found, live) in
          let (same, some_left) =
            hit-some key now entry (retain is_safe entry.addrs) addrs c given in
          (
            subst (All (λ a. is_dangerous_ip a.ip ≡ false)) same (retain_safe entry.addrs),
            some_left,
          )
    ]
  ]
]

-- What is inserted into an enabled cache is given back until its time to live has passed, and no longer.
get-insert :
    (key : Text) (addrs : List SocketAddr) (native : Option ℕ) (now now' later : ℕ) (c : DnsCache)
    → is_enabled c.ttl_mode ≡ true
    → addrs ≢ []
    → (get key false later (insert key addrs native now now' c)).0
      ≡ (if leb (later - now') (resolve_ttl c.ttl_mode native) then some addrs else none)
unfolding get insert hit validated is_expired
get-insert key [] native now now' later c e ne = absurd (ne refl)
get-insert key (a ∷ as') native now now' later c e ne = ground (
  arith,
  e,
  lookup-insert_self key
      (record {
        addrs = a ∷ as';
        inserted_at = now';
        last_accessed = now';
        ttl = resolve_ttl c.ttl_mode native;
      })
      (make_room now c.max_entries c.cache),
)

oldest_in :
    (m : Dict Text CacheEntry) (k : Text) (t : ℕ)
    → oldest m ≡ some (k, t)
    → is_some (lookup k m) ≡ true
unfolding oldest lookup
oldest_in [] k t h = absurd (ground (arith, h))
oldest_in ((j, e) ∷ m) k t h = elim (Option-cases (oldest m)) [
  | inl none_left ↦ ground (arith, h, none_left)
  | inr ((i, u), other) ↦ ground (arith, h, other, oldest_in m i u other)
]

oldest_some : (m : Dict Text CacheEntry) → 1 ≤ length m → is_some (oldest m) ≡ true
unfolding oldest
oldest_some [] h = absurd (omega arith)
oldest_some ((j, e) ∷ m) h = ground arith

-- A full cache loses at least one entry.
evict_lru_one : (m : Dict Text CacheEntry) → 1 ≤ length m → length (evict_lru m) + 1 ≤ length m
unfolding evict_lru
evict_lru_one m h = elim (Option-cases (oldest m)) [
  | inl empty ↦ absurd (ground (arith, oldest_some m h, empty))
  | inr ((k, t), first) ↦ elim (Option-cases (lookup k m)) [
    | inl missing ↦ absurd (ground (arith, oldest_in m k t first, missing))
    | inr (e, found) ↦ ground (arith, first, length-remove-some k e m found)
  ]
]

make_room_lem :
    (now cap : ℕ) (m : Dict Text CacheEntry)
    → 1 ≤ cap
    → length m ≤ cap
    → length (make_room now cap m) + 1 ≤ cap
unfolding make_room cleanup_expired
make_room_lem now cap m c l =
    let cleaned : Dict Text CacheEntry = cleanup_expired now m in
    let fewer : length cleaned ≤ length m =
      length-filter_map-le (keep_if (λ k entry. not (is_expired now entry))) m in
    elim (Bool-cases (leb cap (length m))) [
      | inr room ↦ ground (arith, room)
      | inl full ↦ elim (Bool-cases (leb cap (length cleaned))) [
        | inr room ↦ ground (arith, full, room)
        | inl still ↦ ground (arith, full, still, evict_lru_one cleaned (ground (arith, still)))
      ]
    ]

-- The cache never holds more names than its limit, where that is not 0.
insert_cap :
    (key : Text) (addrs : List SocketAddr) (native : Option ℕ) (now now' : ℕ) (c : DnsCache)
    → 1 ≤ c.max_entries
    → length c.cache ≤ c.max_entries
    → length (insert key addrs native now now' c).cache ≤ c.max_entries
unfolding insert
insert_cap key addrs native now now' c h l = elim (Bool-cases (is_enabled c.ttl_mode)) [
  | inr off ↦ rw off l
  | inl on ↦ ground (
    arith,
    on,
    make_room_lem now c.max_entries c.cache h l,
    length-insert-le key
        (record {
          addrs = addrs;
          inserted_at = now';
          last_accessed = now';
          ttl = resolve_ttl c.ttl_mode native;
        })
        (make_room now c.max_entries c.cache),
  )
]
