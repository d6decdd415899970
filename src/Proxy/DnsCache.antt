-- ===== src/Proxy/DnsCache.antt =====
-- src/proxy/dns_cache.rs. Times are in seconds; `now` is what the call reads off the clock.
pub mod Entries
use s.Common.{
  ℕ, ◌+◌, ◌-◌, ◌≤◌, ◌<◌, Bool, true, false, not, Option, none, some, List, [], ◌∷◌, ltb, leb,
  if◌then◌else◌, Text, text_key, length, retain, Dict,
}
use s.Common.Maps
use s.Common.Maps.{Key, lookup, remove, retain_entries}
use s.Net.{IpAddr}
use s.Net.Guard.{is_dangerous_ip}

-- The setting of the time to live, an `i64`: follow DNS where it is negative, no cache at 0, and
-- otherwise so many seconds. Which negative number it is makes no difference to the code.
pub data TtlMode : Type 0 where
  follow_native disabled : TtlMode
  custom : ℕ → TtlMode

pub record SocketAddr : Type 0 where
  pub ip : IpAddr
  pub port : ℕ

pub record CacheEntry : Type 0 where
  pub addrs : List SocketAddr
  pub inserted_at : ℕ
  pub last_accessed : ℕ
  pub ttl : ℕ

pub record DnsCache : Type 0 where
  pub cache : Dict Text CacheEntry
  pub ttl_mode : TtlMode
  pub max_entries : ℕ
  pub hits : ℕ
  pub misses : ℕ

unfoldable pub new : TtlMode → ℕ → DnsCache
new ttl_mode max_entries = record {
  cache = [];
  ttl_mode = ttl_mode;
  max_entries = max_entries;
  hits = 0;
  misses = 0;
}

unfoldable pub is_enabled : TtlMode → Bool
is_enabled follow_native = true
is_enabled disabled = false
is_enabled (custom n) = true

unfoldable pub is_expired : ℕ → CacheEntry → Bool
is_expired now entry = ltb entry.ttl (now - entry.inserted_at)

unfoldable pub is_safe : SocketAddr → Bool
unfolding is_dangerous_ip
is_safe a = not (is_dangerous_ip a.ip)

-- The addresses that an entry still gives.
unfoldable pub validated : Bool → CacheEntry → List SocketAddr
validated ip_guard_enabled entry =
    if ip_guard_enabled then retain is_safe entry.addrs else entry.addrs

unfoldable pub miss : Text → DnsCache → DnsCache
miss key c = record c { cache = remove key c.cache; misses = c.misses + 1 }

-- What a live entry gives; nothing and its removal where all its addresses are blocked by now.
unfoldable pub hit :
    Text → ℕ → CacheEntry → List SocketAddr → DnsCache → Option (List SocketAddr) × DnsCache
unfolding miss
hit key now entry [] c = (none, miss key c)
hit key now entry (a ∷ addrs) c = (
  some (a ∷ addrs),
  record c {
    cache = Maps.insert key (record entry { last_accessed = now }) c.cache;
    hits = c.hits + 1;
  },
)

unfoldable pub get : Text → Bool → ℕ → DnsCache → Option (List SocketAddr) × DnsCache
unfolding hit
get key ip_guard_enabled now c =
    if not (is_enabled c.ttl_mode) then (none, c) else elim (lookup key c.cache) [
      | none ↦ (none, c)
      | some entry ↦
          if is_expired now entry
          then (none, miss key c)
          else hit key now entry (validated ip_guard_enabled entry) c
    ]

unfoldable pub resolve_ttl : TtlMode → Option ℕ → ℕ
resolve_ttl follow_native (some t) = t
resolve_ttl follow_native none = 60
resolve_ttl disabled native = 0
resolve_ttl (custom n) native = n

-- `min_by_key`: the first of the entries that were accessed the longest ago.
unfoldable pub oldest : Dict Text CacheEntry → Option (Text × ℕ)
oldest [] = none
oldest ((k, e) ∷ m) = elim (oldest m) [
  | none ↦ some (k, e.last_accessed)
  | some (j, t) ↦ if leb e.last_accessed t then some (k, e.last_accessed) else some (j, t)
]

unfoldable pub evict_lru : Dict Text CacheEntry → Dict Text CacheEntry
unfolding oldest
evict_lru m = elim (oldest m) [ none ↦ m | some (k, t) ↦ remove k m ]

unfoldable pub cleanup_expired : ℕ → Dict Text CacheEntry → Dict Text CacheEntry
cleanup_expired now = retain_entries (λ k entry. not (is_expired now entry))

-- The expired entries first, then the one that was not used for the longest time.
unfoldable pub make_room : ℕ → ℕ → Dict Text CacheEntry → Dict Text CacheEntry
make_room now max_entries m =
    if leb max_entries (length m)
    then (let cleaned = cleanup_expired now m in
        if leb max_entries (length cleaned) then evict_lru cleaned else cleaned)
    else m

-- `now` is read by the cleanup, `now'` for the new entry.
unfoldable pub insert : Text → List SocketAddr → Option ℕ → ℕ → ℕ → DnsCache → DnsCache
insert key addrs native_ttl now now' c = if not (is_enabled c.ttl_mode) then c else record c {
  cache =
      Maps.insert key
        (record {
          addrs = addrs;
          inserted_at = now';
          last_accessed = now';
          ttl = resolve_ttl c.ttl_mode native_ttl;
        })
        (make_room now c.max_entries c.cache);
}
