-- ===== src/Security/Ban/Burst.antt =====
-- `record_failure` of src/security/ban.rs over several failures of one address.
use s.Common.{
  ℕ, ◌+◌, ◌≤◌, ◌<◌, ◌≡◌, refl, ◌∙◌, false, not, ◌&&◌, none, List, [], ◌∷◌, ◌++◌, ltb, leb, length,
  length-append, retain, All, arith,
}
use s.Common.Maps.{lookup, contains_key, insert, lookup-insert_self}
use s.Net.{IpAddr, ip_key, NetApi}
use s.Security.Ban.{
  BanManager, is_recent, max_entries, push_failure, failures_of, is_exempt, count_failure,
  record_failure, max_tracked, is_banned,
}

-- Failures at the given times, one after the other.
unfoldable pub record_failures :
    (api : NetApi) → IpAddr → List ℕ → BanManager api.Net → BanManager api.Net
record_failures api ip [] m = m
record_failures api ip (t ∷ ts) m = record_failures api ip ts (record_failure api ip t m)

-- Times of one burst, which is no longer than the window.
abbrev pub InBurst : ℕ → ℕ → List ℕ → Type 0
InBurst base window = All (λ t. (base ≤ t) × (t < base + window))

retain_burst :
    (base window now : ℕ) (ts : List ℕ)
    → now < base + window
    → InBurst base window ts
    → retain (is_recent now window) ts ≡ ts
unfolding is_recent
retain_burst base window now [] h a = refl
retain_burst base window now (t ∷ ts) h a = ground (arith, retain_burst base window now ts h a.1)

-- Below the threshold nothing is cut off a burst.
push_burst :
    (base window threshold now : ℕ) (ts : List ℕ)
    → now < base + window
    → InBurst base window ts
    → length ts < threshold
    → push_failure now window threshold ts ≡ ts ++ now ∷ []
unfolding push_failure max_entries
push_burst base window threshold now ts h a l = ground (arith, retain_burst base window now ts h a)

-- The failures of an address, for which the map has an entry or room.
abbrev Tracked : {Net : Type 0} → IpAddr → List ℕ → BanManager Net → Type 0
Tracked ip ts m =
    (failures_of (lookup ip m.failures) ≡ ts)
    × ((not (contains_key ip m.failures) && leb max_tracked (length m.failures)) ≡ false)

abbrev pub last : ℕ → List ℕ → ℕ
last t [] = t
last t (u ∷ us) = last u us

module _ (api : NetApi) (ip : IpAddr) where
  -- One failure of a burst below the threshold.
  record_one :
      (base now : ℕ) (ts : List ℕ) (m : BanManager api.Net)
      → is_exempt api m ip ≡ false
      → Tracked ip ts m
      → now < base + m.window
      → InBurst base m.window ts
      → length ts < m.threshold
      → record_failure api ip now m ≡ count_failure api ip now (ts ++ now ∷ []) m
  unfolding record_failure
  record_one base now ts m e l h a n =
      ground (arith, l, push_burst base m.window m.threshold now ts h a n)

  -- The state after a failure that bans nobody.
  abbrev noted : List ℕ → BanManager api.Net → BanManager api.Net
  noted ts m = record m { failures = insert ip ts m.failures }

  record_below :
      (base now : ℕ) (ts : List ℕ) (m : BanManager api.Net)
      → is_exempt api m ip ≡ false
      → Tracked ip ts m
      → now < base + m.window
      → InBurst base m.window ts
      → length ts + 1 < m.threshold
      → record_failure api ip now m ≡ noted (ts ++ now ∷ []) m
  unfolding count_failure
  record_below base now ts m e l h a n =
      ground (arith, record_one base now ts m e l h a (omega arith), length-append ts (now ∷ []))

  noted-Tracked : (ts : List ℕ) (m : BanManager api.Net) → Tracked ip ts (noted ts m)
  unfolding failures_of contains_key
  noted-Tracked ts m = ground (arith, lookup-insert_self ip ts m.failures)

  append_InBurst :
      (base window now : ℕ) (ts : List ℕ)
      → InBurst base window ts
      → base ≤ now
      → now < base + window
      → InBurst base window (ts ++ now ∷ [])
  append_InBurst base window now [] a b h = ((b, h), tt)
  append_InBurst base window now (t ∷ ts) a b h = (a.0, append_InBurst base window now ts a.1 b h)

  -- Fewer failures than the threshold ban nobody.
  record_few :
      (base : ℕ) (seen ts : List ℕ) (m : BanManager api.Net)
      → is_exempt api m ip ≡ false
      → Tracked ip seen m
      → InBurst base m.window seen
      → InBurst base m.window ts
      → length seen + length ts < m.threshold
      → (record_failures api ip ts m).bans ≡ m.bans
  unfolding record_failures is_exempt count_failure
  record_few base seen [] m e l a b n = refl
  record_few base seen (t ∷ ts) m e l a b n =
      let ts' : List ℕ = seen ++ t ∷ [] in
      ground (
        arith,
        record_below base t seen m e l b.0.1 a (omega arith),
        record_few base ts' ts (noted ts' m) e (noted-Tracked ts' m)
            (append_InBurst base m.window t seen a b.0.0 b.0.1) b.1
            (omega (arith, length-append seen (t ∷ []))),
      )

  record_enough :
      (base t : ℕ) (seen ts : List ℕ) (m : BanManager api.Net)
      → is_exempt api m ip ≡ false
      → Tracked ip seen m
      → InBurst base m.window seen
      → InBurst base m.window (t ∷ ts)
      → length seen + length (t ∷ ts) ≡ m.threshold
      → (record_failures api ip (t ∷ ts) m).bans ≡ insert ip (last t ts + m.duration) m.bans
  unfolding record_failures is_exempt count_failure
  record_enough base t seen [] m e l a b n =
      ground
        (arith, record_one base t seen m e l b.0.1 a (omega arith), length-append seen (t ∷ []))
  record_enough base t seen (u ∷ us) m e l a b n =
      let ts' : List ℕ = seen ++ t ∷ [] in
      ground (
        arith,
        record_below base t seen m e l b.0.1 a (omega arith),
        record_enough base u ts' us (noted ts' m) e (noted-Tracked ts' m)
            (append_InBurst base m.window t seen a b.0.0 b.0.1) b.1
            (omega (arith, length-append seen (t ∷ []))),
      )

  exempt-record_failure :
      (now : ℕ) (m : BanManager api.Net)
      → is_exempt api (record_failure api ip now m) ip ≡ is_exempt api m ip
  unfolding record_failure count_failure is_exempt
  exempt-record_failure now m = ground arith

  exempt-record_failures :
      (ts : List ℕ) (m : BanManager api.Net)
      → is_exempt api (record_failures api ip ts m) ip ≡ is_exempt api m ip
  unfolding record_failures
  exempt-record_failures [] m = refl
  exempt-record_failures (t ∷ ts) m =
      exempt-record_failures ts (record_failure api ip t m) ∙ exempt-record_failure t m

  -- As many failures as the threshold, all within one window, ban an address that had none before,
  -- from the last of them for the duration and no longer, where it is not exempt and the map of
  -- failures has room.
  pub burst_bans :
      (base t at : ℕ) (ts : List ℕ) (m : BanManager api.Net)
      → is_exempt api m ip ≡ false
      → lookup ip m.failures ≡ none
      → length m.failures < max_tracked
      → InBurst base m.window (t ∷ ts)
      → length (t ∷ ts) ≡ m.threshold
      → (is_banned api ip at (record_failures api ip (t ∷ ts) m)).0
        ≡ ltb at (last t ts + m.duration)
  unfolding is_banned failures_of contains_key
  burst_bans base t at ts m e l c b n = ground (
    arith,
    exempt-record_failures (t ∷ ts) m,
    record_enough base t [] ts m e (ground arith, ground arith) tt b (omega (arith, n)),
    lookup-insert_self ip (last t ts + m.duration) m.bans,
  )

  -- Fewer failures than the threshold within one window leave the bans as they are.
  few_failures_ban_nobody :
      (base : ℕ) (ts : List ℕ) (m : BanManager api.Net)
      → is_exempt api m ip ≡ false
      → lookup ip m.failures ≡ none
      → length m.failures < max_tracked
      → InBurst base m.window ts
      → length ts < m.threshold
      → (record_failures api ip ts m).bans ≡ m.bans
  unfolding failures_of contains_key
  few_failures_ban_nobody base ts m e l c b n =
      record_few base [] ts m e (ground arith, ground arith) tt b (omega (arith, n))
