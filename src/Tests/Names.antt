-- ===== src/Tests/Names.antt =====
-- The cache of names, the slots and the connections behind them (src/proxy).
use s.Common.{
  ℕ, ◌+◌, ◌-◌, ◌≤◌, ◌<◌, ◌≡◌, ◌≢◌, ◌↔◌, ◌⊎◌, refl, Bool, true, false, Option, none, some, List, [],
  ◌∷◌, ◌++◌, Text, text_key, arith, codes, All, length, ltb, leb, if◌then◌else◌,
}
use s.Common.Maps.{lookup}
use s.Net.{IpAddr, IpAddr-discrete, ip_key, v4}
use s.Net.Guard.{is_dangerous_ip}
use s.Acl.{AclPolicy, PreCheckResult, ParsedAcl, host_pattern, check, check_hostname_only}
use s.Acl.Port.{any_port, exact}
use s.Proxy.DnsCache.{
  DnsCache, CacheEntry, SocketAddr, TtlMode, get, insert, is_enabled, resolve_ttl,
}
use s.Proxy.DnsCache.Entries.{get_safe}
use s.Proxy.Slots.{Slots, acquire_connection, release, count_of}
use s.Proxy.Slots.Balance.{Balanced, acquire-Balanced, total}
use s.Proxy.Slots.Release.{release-Balanced}
use s.Proxy.Connect.{Network, connected, denied_by_address, sentinel, connect_checked}
use s.Proxy.Connect.Checked.{direct_connection_checked, upstream_skips_default}
use s.Tests.Data.{api, acl}

abbrev inside : SocketAddr
inside = record { ip = v4 10 0 0 1; port = 80 }

abbrev outside : SocketAddr
outside = record { ip = v4 9 9 9 9; port = 80 }

-- A name that resolved to a private and to a public address at time 5.
abbrev names : DnsCache
names = record {
  cache =
      (
        codes "a.org",
        record { addrs = inside ∷ outside ∷ []; inserted_at = 5; last_accessed = 5; ttl = 60 },
      )
      ∷ [];
  ttl_mode = TtlMode.custom 60;
  max_entries = 1;
  hits = 0;
  misses = 0;
}

get_safe_example :
    All (λ (a : SocketAddr). is_dangerous_ip a.ip ≡ false) (outside ∷ []) × ((outside ∷ []) ≢ [])
unfolding get is_enabled lookup s.Common.Text-discrete s.Proxy.DnsCache.is_expired
    s.Proxy.DnsCache.validated s.Proxy.DnsCache.is_safe
get_safe_example = get_safe (codes "a.org") 9 names (outside ∷ []) refl

abbrev idle : Slots
idle = record { global = 0; users = [] }

abbrev one : Slots
one = record { global = 1; users = (codes "ann", 1) ∷ [] }

abbrev busy : Slots
busy = record { global = 2; users = (codes "ann", 2) ∷ [] }

idle-Balanced : Balanced idle
unfolding total
idle-Balanced = record { distinct = tt; positive = tt; sum = refl; fits = omega arith }

one-Balanced : Balanced one
unfolding total lookup
one-Balanced = record {
  distinct = (refl, tt);
  positive = (ground arith, tt);
  sum = ground arith;
  fits = omega arith;
}

abbrev limit : ℕ
limit = 3

acquire-Balanced_example :
    Balanced busy
    × (2 ≡ 1 + 1)
    × (2 ≤ 5)
    × (count_of (codes "ann") busy.users ≡ count_of (codes "ann") one.users + 1)
    × ((limit ≡ 0) ⊎ (count_of (codes "ann") busy.users ≤ limit))
unfolding acquire_connection lookup s.Common.Text-discrete s.Common.Maps.insert
acquire-Balanced_example =
    acquire-Balanced (codes "ann") 5 limit one busy (omega arith) one-Balanced refl

release-Balanced_example :
    Balanced (release (codes "ann") one)
    × ((release (codes "ann") one).global + 1 ≡ 1)
    × (count_of (codes "ann") (release (codes "ann") one).users + 1 ≡ 1)
unfolding lookup s.Common.Text-discrete
release-Balanced_example = release-Balanced (codes "ann") 1 one one-Balanced refl

abbrev net : Network
net = record { via_socks5 = true; resolved = some (v4 9 9 9 9) }

-- Every rule is missing, and the default is to deny.
abbrev closed : ParsedAcl IpAddr
closed = record { default_policy = AclPolicy.deny; allow_rules = []; deny_rules = [] }

direct_connection_checked_example :
    (check api acl (codes "example.org") 80 (some (v4 9 9 9 9)) ≡ AclPolicy.allow)
    × (net.resolved ≡ some (v4 9 9 9 9))
unfolding connect_checked s.Acl.check_hostname_verbose s.Acl.Port.port_matches
    s.Acl.Pattern.hostname_matches s.Acl.Pattern.to_lower acquire_connection lookup
    s.Acl.check_verbose IpAddr-discrete
direct_connection_checked_example =
    direct_connection_checked api acl (codes "ann") (codes "example.org") 80 5 3 net idle
      (v4 9 9 9 9) refl

upstream_skips_default_example :
    ((connect_checked api closed (codes "ann") (codes "example.org") 80 5 3 false net one).0
      ≡ denied_by_address)
    × (connect_checked api closed (codes "ann") (codes "example.org") 80 5 3 true net one
        ≡ (connected sentinel, busy))
unfolding check check_hostname_only acquire_connection lookup s.Common.Text-discrete
    s.Common.Maps.insert
upstream_skips_default_example =
    upstream_skips_default api closed (codes "ann") (codes "example.org") 80 5 3 (v4 9 9 9 9) one
      busy refl refl refl
