-- ===== src/Proxy/Slots/Balance.antt =====
-- The global count of src/proxy/mod.rs is the sum of the users' counts.
use s.Common.{
  ℕ, ◌+◌, ◌-◌, ◌≤◌, ◌<◌, ◌≡◌, ◌⊎◌, inl, inr, refl, ap, sym, subst, ◌∙◌, true, false, some, [], ◌∷◌,
  ltb, leb, Text, text_key, Dict, All, arith, Bool-cases,
}
use s.Common.Maps.{
  lookup, insert, remove, Distinct, insert-Distinct, lookup-insert_self, lookup-insert,
}
use s.Proxy.Slots.{
  Slots, acquired, user_limit, count_of, add_one, sub_one, global_limit, acquire_user,
  acquire_connection, u32_mod,
}

unfoldable pub total : Dict Text ℕ → ℕ
total [] = 0
total ((k, c) ∷ m) = c + total m

pub total-insert :
    (k : Text) (v : ℕ) (m : Dict Text ℕ) → total (insert k v m) + count_of k m ≡ total m + v
unfolding total insert count_of lookup
total-insert k v [] = omega arith
total-insert k v ((j, c) ∷ m) = ground (arith, total-insert k v m)

pub total-remove : (k : Text) (m : Dict Text ℕ) → total (remove k m) + count_of k m ≡ total m
unfolding total remove count_of lookup
total-remove k [] = omega arith
total-remove k ((j, c) ∷ m) = ground (arith, total-remove k m)

-- The counts add up, none of them is 0, and none wraps.
pub record Balanced (s : Slots) : Type 0 where
  pub distinct : Distinct s.users
  pub positive : All (λ (e : Text × ℕ). 1 ≤ e.1) s.users
  pub sum : s.global ≡ total s.users
  pub fits : s.global < u32_mod

pub insert_positive :
    (k : Text) (v : ℕ) (m : Dict Text ℕ)
    → 1 ≤ v
    → All (λ (e : Text × ℕ). 1 ≤ e.1) m
    → All (λ (e : Text × ℕ). 1 ≤ e.1) (insert k v m)
unfolding insert
insert_positive k v [] h a = (h, tt)
insert_positive k v ((j, c) ∷ m) h a = ground (arith, insert_positive k v m h a.1)

pub remove_positive :
    (k : Text) (m : Dict Text ℕ)
    → All (λ (e : Text × ℕ). 1 ≤ e.1) m
    → All (λ (e : Text × ℕ). 1 ≤ e.1) (remove k m)
unfolding remove
remove_positive k [] a = tt
remove_positive k ((j, c) ∷ m) a = ground (arith, remove_positive k m a.1)

pub positive_count :
    (k : Text) (c : ℕ) (m : Dict Text ℕ)
    → All (λ (e : Text × ℕ). 1 ≤ e.1) m
    → lookup k m ≡ some c
    → 1 ≤ c
unfolding lookup
positive_count k c [] a h = absurd (ground (arith, h))
positive_count k c ((j, d) ∷ m) a h = ground (arith, h, positive_count k c m a.1)

pub count_le_total : (k : Text) (m : Dict Text ℕ) → count_of k m ≤ total m
count_le_total k m = omega (arith, total-remove k m)

abbrev with_user : ℕ → Text → ℕ → Dict Text ℕ → Slots
with_user global username c users = record { global = global; users = insert username c users }

-- The state with one slot more for the user.
abbrev pub taken : Text → Slots → Slots
taken username s = record {
  global = s.global + 1;
  users = insert username (count_of username s.users + 1) s.users;
}

no_wrap : (c : ℕ) → c + 1 < u32_mod → add_one c ≡ c + 1
unfolding add_one
no_wrap c h = omega arith

acquire_full :
    (username : Text) (max_global max_per_user : ℕ) (s : Slots)
    → leb max_global s.global ≡ true
    → acquire_connection username max_global max_per_user s ≡ global_limit
unfolding acquire_connection
acquire_full username max_global max_per_user s h = rw h refl

acquire_room :
    (username : Text) (max_global max_per_user : ℕ) (s : Slots)
    → leb max_global s.global ≡ false
    → acquire_connection username max_global max_per_user s
      ≡ acquire_user username max_per_user (s.global + 1) s.users
unfolding acquire_connection
acquire_room username max_global max_per_user s h = rw h refl

acquired_user :
    (username : Text) (limit global : ℕ) (users : Dict Text ℕ) (s' : Slots)
    → count_of username users + 1 < u32_mod
    → acquire_user username limit global users ≡ acquired s'
    → (with_user global username (count_of username users + 1) users ≡ s')
      × ((limit ≡ 0) ⊎ (count_of username users < limit))
unfolding acquire_user
acquired_user username limit global users s' f h =
    let plus : add_one (count_of username users) ≡ count_of username users + 1 =
      no_wrap (count_of username users) f in
    elim (Bool-cases (ltb 0 limit)) [
      | inr off ↦ (ground (arith, h, off, plus), inl (ground (arith, off)))
      | inl on ↦ elim (Bool-cases (leb limit (count_of username users))) [
        | inl full ↦ absurd (ground (arith, h, on, full))
        | inr room ↦ (ground (arith, h, on, room), inr (ground (arith, room)))
      ]
    ]

pub acquired_is :
    (username : Text) (max_global max_per_user : ℕ) (s s' : Slots)
    → max_global < u32_mod
    → Balanced s
    → acquire_connection username max_global max_per_user s ≡ acquired s'
    → (taken username s ≡ s')
      × (s.global < max_global)
      × ((max_per_user ≡ 0) ⊎ (count_of username s.users < max_per_user))
acquired_is username max_global max_per_user s s' g b h =
    let c : ℕ = count_of username s.users in
    elim (Bool-cases (leb max_global s.global)) [
      | inl full ↦ absurd (ground (arith, acquire_full username max_global max_per_user s full, h))
      | inr room ↦
          let below : s.global < max_global = ground (arith, room) in
          let less : c + 1 < u32_mod =
            omega (arith, count_le_total username s.users, b.sum, g, below) in
          let (same, within) =
            acquired_user username max_per_user (s.global + 1) s.users s' less
              (sym (acquire_room username max_global max_per_user s room) ∙ h) in
          (same, below, within)
    ]

pub taken-Balanced :
    (username : Text) (s : Slots)
    → s.global + 1 < u32_mod
    → Balanced s
    → Balanced (taken username s)
taken-Balanced username s f b = record {
  distinct = insert-Distinct username (count_of username s.users + 1) s.users b.distinct;
  positive =
      insert_positive username (count_of username s.users + 1) s.users (omega arith) b.positive;
  sum = omega (arith, total-insert username (count_of username s.users + 1) s.users, b.sum);
  fits = f;
}

taken-count :
    (username : Text) (s : Slots)
    → count_of username (taken username s).users ≡ count_of username s.users + 1
unfolding count_of
taken-count username s =
    ground (arith, lookup-insert_self username (count_of username s.users + 1) s.users)

-- A slot that is acquired is counted once, for its user and for all, and keeps to both limits.
pub acquire-Balanced :
    (username : Text) (max_global max_per_user : ℕ) (s s' : Slots)
    → max_global < u32_mod
    → Balanced s
    → acquire_connection username max_global max_per_user s ≡ acquired s'
    → Balanced s'
      × (s'.global ≡ s.global + 1)
      × (s'.global ≤ max_global)
      × (count_of username s'.users ≡ count_of username s.users + 1)
      × ((max_per_user ≡ 0) ⊎ (count_of username s'.users ≤ max_per_user))
acquire-Balanced username max_global max_per_user s s' g b h =
    let (same, below, within) = acquired_is username max_global max_per_user s s' g b h in
    let count : count_of username s'.users ≡ count_of username s.users + 1 =
      sym (ap (λ (t : Slots). count_of username t.users) same) ∙ taken-count username s in
    (
      subst Balanced same (taken-Balanced username s (omega (arith, below, g)) b),
      sym (ap (λ (t : Slots). t.global) same),
      omega (arith, below, ap (λ (t : Slots). t.global) same),
      count,
      ground (arith, within, count),
    )

pub sub_held : (c : ℕ) → 1 ≤ c → c < u32_mod → sub_one c ≡ c - 1
unfolding sub_one
sub_held c h f = omega arith

refused_users :
    (username other : Text) (limit global : ℕ) (users : Dict Text ℕ) (s' : Slots)
    → acquire_user username limit (global + 1) users ≡ user_limit s'
    → global + 1 < u32_mod
    → (s'.global ≡ global) × (lookup other s'.users ≡ lookup other users)
unfolding acquire_user
refused_users username other limit global users s' h f =
    let c : ℕ = count_of username users in
    let back : sub_one (global + 1) ≡ global =
      sub_held (global + 1) (omega arith) f ∙ omega arith in
    elim (Bool-cases (ltb 0 limit)) [
      | inr off ↦ absurd (ground (arith, h, off))
      | inl on ↦ elim (Bool-cases (leb limit c)) [
        | inr room ↦ absurd (ground (arith, h, on, room))
        | inl full ↦ (
          ground (arith, h, on, full, back),
          ground (arith, h, on, full, lookup-insert username other c users),
        )
      ]
    ]

-- A refused user changes no count.
pub refused_user :
    (username other : Text) (max_global max_per_user : ℕ) (s s' : Slots)
    → max_global < u32_mod
    → acquire_connection username max_global max_per_user s ≡ user_limit s'
    → (s'.global ≡ s.global) × (lookup other s'.users ≡ lookup other s.users)
refused_user username other max_global max_per_user s s' g h =
    elim (Bool-cases (leb max_global s.global)) [
      | inl full ↦ absurd (ground (arith, acquire_full username max_global max_per_user s full, h))
      | inr room ↦
          refused_users username other max_per_user s.global s.users s'
            (sym (acquire_room username max_global max_per_user s room) ∙ h)
            (ground (arith, room, g))
    ]
