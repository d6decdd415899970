-- ===== src/Tests/Guards.antt =====
-- Bans, limits and what stands before authentication (src/security).
use s.Common.{
  ℕ, ◌+◌, ◌-◌, ◌≤◌, ◌<◌, ◌≡◌, ◌≢◌, ◌↔◌, ◌⊎◌, refl, Bool, true, false, Option, none, some, List, [],
  ◌∷◌, ◌++◌, Text, text_key, arith, codes, All, length, ltb, leb, if◌then◌else◌,
}
use s.Common.{is_some}
use s.Common.Maps.{Key, lookup, Distinct}
use s.Net.{IpAddr, ip_key, v4, v6, normalize_ip}
use s.Security.Ban
use s.Security.Ban.{BanManager, is_exempt}
use s.Security.Ban.Burst.{record_failures, burst_bans}
use s.Security.Ban.Expiry.{WellFormed, operations-WellFormed}
use s.Security.RateLimit.{Governor, Limiters, check_limit, cleanup_stale}
use s.Security.RateLimit.Capacity.{check_limit-cap, check_limit-small_cap}
use s.Security.Manager
use s.Security.Manager.{Reputations, SecurityManager, mapped_address_same, pre_auth_check-none_iff}
use s.Tests.Data.{api}

abbrev pub attacker : IpAddr
attacker = v4 9 9 9 9

-- Three failures within ten seconds ban for a minute.
abbrev bans : BanManager IpAddr
bans = record {
  failures = [];
  bans = [];
  threshold = 3;
  window = 10;
  duration = 60;
  whitelist = [];
  enabled = true;
}

bans-WellFormed : WellFormed bans
bans-WellFormed = record { failures = tt; bans = tt; tracked = omega arith }

burst_bans_example :
    (Ban.is_banned api attacker 50 (record_failures api attacker (1 ∷ 2 ∷ 5 ∷ []) bans)).0
    ≡ ltb 50 (5 + 60)
unfolding is_exempt lookup
burst_bans_example =
    burst_bans api attacker 1 1 50 (2 ∷ 5 ∷ []) bans refl refl (omega arith) (ground arith) refl

operations-WellFormed_example :
    WellFormed (Ban.record_failure api attacker 7 bans)
    × WellFormed (Ban.is_banned api attacker 7 bans).1
    × WellFormed (Ban.ban api attacker 7 60 bans)
    × WellFormed (Ban.unban api attacker bans).1
    × WellFormed (Ban.cleanup_stale_failures api 7 bans)
operations-WellFormed_example = operations-WellFormed api attacker 7 60 bans bans-WellFormed

-- A limiter of so many events, which does not refill.
abbrev pub gov : Governor
gov = record { Limiter = ℕ; per_minute = λ n. n; check = λ n. (ltb 0 n, n - 1) }

abbrev one_user : Limiters Text ℕ
one_user = record {
  limiters = (codes "ann", record { limiter = 3; last_used = 5 }) ∷ [];
  max_entries = 10;
}

abbrev one_slot : Limiters Text ℕ
one_slot = record one_user { max_entries = 1 }

check_limit-cap_example : length (check_limit gov (codes "bob") 5 6 one_user).1.limiters ≤ 10
check_limit-cap_example = check_limit-cap gov (codes "bob") 5 6 one_user (omega arith) (omega arith)

check_limit-small_cap_example :
    length (check_limit gov (codes "bob") 5 6 one_slot).1.limiters ≡ 1 + 1
unfolding lookup s.Common.Text-discrete cleanup_stale s.Common.Maps.filter_map
check_limit-small_cap_example =
    check_limit-small_cap gov (codes "bob") 5 6 one_slot (omega arith) (omega arith) (omega arith)
      refl refl

-- Nobody has a bad reputation.
abbrev pub rep : Reputations
rep = record { Scores = ℕ; fresh = λ enabled threshold. threshold; should_ban = λ scores ip. false }

abbrev pub manager : SecurityManager api gov rep
manager = record {
  ban_manager = bans;
  rate_limiter = one_user;
  ip_rate_limiter = record { limiters = []; max_entries = 10 };
  max_per_minute = 5;
  ip_reputation = 50;
  global_allowed_ips = attacker ∷ [];
  ban_whitelist = [];
}

abbrev mapped : IpAddr
mapped = v6 0 0 0 0 0 0xffff 0x909 0x909

pre_auth_check-none_iff_example :
    ((Manager.pre_auth_check api gov rep mapped 1 2 manager).0 ≡ none) ↔ (
      ((Manager.check_ip_rate api gov rep (normalize_ip mapped) 1 manager).0 ≡ true)
      × (Manager.check_source_ip api gov rep mapped manager ≡ true)
      × ((Manager.is_banned api gov rep mapped 2 manager).0 ≡ false)
      × (rep.should_ban manager.ip_reputation (normalize_ip mapped) ≡ false))
pre_auth_check-none_iff_example = pre_auth_check-none_iff api gov rep mapped 1 2 manager
