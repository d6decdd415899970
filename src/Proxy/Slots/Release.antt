-- ===== src/Proxy/Slots/Release.antt =====
-- The guard of src/proxy/mod.rs gives back the slot that was acquired, and no other.
use s.Common.{
  ℕ, ◌+◌, ◌-◌, ◌≤◌, ◌<◌, ◌≡◌, inl, inr, ap, sym, subst, ◌∙◌, some, ◌==◌, if◌then◌else◌, Text,
  text_key, Dict, arith, Bool-cases,
}
use s.Common.Maps.{
  lookup, insert, remove, insert-Distinct, remove-Distinct, lookup-insert_self, lookup-insert,
  lookup-remove,
}
use s.Proxy.Slots.{Slots, acquired, count_of, acquire_connection, release_user, release, u32_mod}
use s.Proxy.Slots.Balance.{
  Balanced, total-insert, total-remove, insert_positive, remove_positive, positive_count,
  count_le_total, taken, taken-Balanced, acquired_is, sub_held,
}

abbrev slots : ℕ → Dict Text ℕ → Slots
slots global users = record { global = global; users = users }

held_count :
    (username : Text) (c : ℕ) (users : Dict Text ℕ)
    → lookup username users ≡ some c
    → count_of username users ≡ c
unfolding count_of
held_count username c users h = ground (arith, h)

released :
    (username : Text) (c : ℕ) (users : Dict Text ℕ)
    → lookup username users ≡ some c
    → 1 ≤ c
    → c < u32_mod
    → release_user username users
      ≡ (if c == 1 then remove username users else insert username (c - 1) users)
unfolding release_user
released username c users h p f = ground (arith, h, sub_held c p f)

release-Balanced_of :
    (username : Text) (c : ℕ) (s : Slots)
    → Balanced s
    → lookup username s.users ≡ some c
    → Balanced (
        slots
          (s.global - 1)
          (if c == 1 then remove username s.users else insert username (c - 1) s.users))
release-Balanced_of username c s b h =
    let p : 1 ≤ c = positive_count username c s.users b.positive h in
    let counted : count_of username s.users ≡ c = held_count username c s.users h in
    elim (Bool-cases (c == 1)) [
      | inl last ↦ rw last (record {
        distinct = remove-Distinct username s.users b.distinct;
        positive = remove_positive username s.users b.positive;
        sum = ground (arith, last, total-remove username s.users, counted, b.sum);
        fits = omega (arith, b.fits);
      })
      | inr more ↦
          let two : 2 ≤ c = ground (arith, more, p) in
          rw more (record {
            distinct = insert-Distinct username (c - 1) s.users b.distinct;
            positive = insert_positive username (c - 1) s.users (omega arith) b.positive;
            sum = omega (arith, total-insert username (c - 1) s.users, counted, b.sum, p);
            fits = omega (arith, b.fits);
          })
    ]

release_is :
    (username : Text) (c : ℕ) (s : Slots)
    → Balanced s
    → lookup username s.users ≡ some c
    → (release username s).users
      ≡ (if c == 1 then remove username s.users else insert username (c - 1) s.users)
unfolding release
release_is username c s b h =
    released username c s.users h (positive_count username c s.users b.positive h) (
      omega
        (arith, count_le_total username s.users, held_count username c s.users h, b.sum, b.fits))

release_global :
    (username : Text) (c : ℕ) (s : Slots)
    → Balanced s
    → lookup username s.users ≡ some c
    → (release username s).global ≡ s.global - 1
unfolding release
release_global username c s b h =
    sub_held s.global
      (omega (
        arith,
        count_le_total username s.users,
        held_count username c s.users h,
        b.sum,
        positive_count username c s.users b.positive h,
      ))
      b.fits

released_count :
    (username : Text) (c : ℕ) (s : Slots)
    → Balanced s
    → lookup username s.users ≡ some c
    → count_of username (release username s).users + 1 ≡ c
unfolding count_of
released_count username c s b h = ground (
  arith,
  release_is username c s b h,
  lookup-remove username username s.users b.distinct,
  lookup-insert_self username (c - 1) s.users,
  positive_count username c s.users b.positive h,
)

taken_back :
    (username other : Text) (s : Slots)
    → s.global + 1 < u32_mod
    → Balanced s
    → ((release username (taken username s)).global ≡ s.global)
      × (lookup other (release username (taken username s)).users ≡ lookup other s.users)
unfolding count_of
taken_back username other s f b =
    let c : ℕ = count_of username s.users in
    let b' = taken-Balanced username s f b in
    let held : lookup username (taken username s).users ≡ some (c + 1) =
      lookup-insert_self username (c + 1) s.users in
    (
      omega (arith, release_global username (c + 1) (taken username s) b' held),
      ground (
        arith,
        release_is username (c + 1) (taken username s) b' held,
        lookup-remove username other (taken username s).users b'.distinct,
        lookup-insert username other c (taken username s).users,
        lookup-insert username other (c + 1) s.users,
        positive_count username c s.users b.positive,
      ),
    )

-- A slot that a user holds is given back once.
pub release-Balanced :
    (username : Text) (c : ℕ) (s : Slots)
    → Balanced s
    → lookup username s.users ≡ some c
    → Balanced (release username s)
      × ((release username s).global + 1 ≡ s.global)
      × (count_of username (release username s).users + 1 ≡ c)
release-Balanced username c s b h =
    let users = release_is username c s b h in
    let global = release_global username c s b h in
    let same : release username s
        ≡ slots (s.global - 1)
            (if c == 1 then remove username s.users else insert username (c - 1) s.users) =
      ap (λ g. slots g (release username s).users) global ∙ ap (slots (s.global - 1)) users in
    let p : 1 ≤ c = positive_count username c s.users b.positive h in
    (
      subst Balanced (sym same) (release-Balanced_of username c s b h),
      omega (
        arith,
        global,
        p,
        count_le_total username s.users,
        held_count username c s.users h,
        b.sum,
      ),
      released_count username c s b h,
    )

-- A slot that is acquired and released leaves every count as it was.
pub release-acquire :
    (username other : Text) (max_global max_per_user : ℕ) (s s' : Slots)
    → max_global < u32_mod
    → Balanced s
    → acquire_connection username max_global max_per_user s ≡ acquired s'
    → ((release username s').global ≡ s.global)
      × (lookup other (release username s').users ≡ lookup other s.users)
release-acquire username other max_global max_per_user s s' g b h =
    let (same, below, within) = acquired_is username max_global max_per_user s s' g b h in
    subst
      (λ (t : Slots).
        ((release username t).global ≡ s.global)
        × (lookup other (release username t).users ≡ lookup other s.users))
      same (taken_back username other s (omega (arith, below, g)) b)
