-- ===== src/Common/Maps.antt =====
-- `DashMap` and `HashMap` as association lists over keys with decidable equality. No operation of
-- the program depends on the order in which a map is iterated, except where its comment says so.
use Prim.Native.Nat.{◌+◌, ◌≤◌}
use mathlib.Core.Path.{◌≡◌, refl}
use mathlib.Core.Logic.{ite, ◌≢◌}
use mathlib.Core.Bool.{Bool, true, false}
use mathlib.Core.List.{List, [], ◌∷◌}
use mathlib.Core.Option.{Option, none, some}
use native.Mathlib.Omega.{arith}
use s.Common.Tests.{if◌then◌else◌}
use s.Common.Lists.{length}

pub record Key {ℓ} (K : Type ℓ) : Type ℓ where
  pub dec : Discrete K

abbrev pub Dict {ℓ} : Type ℓ → Type ℓ → Type ℓ
Dict K V = List (K × V)

abbrev pub is_some {ℓ} : {A : Type ℓ} → Option A → Bool
is_some none = false
is_some (some a) = true

module _ {ℓ} {K V : Type ℓ} ⦃key : Key K⦄ where
  unfoldable pub lookup : K → Dict K V → Option V
  lookup k [] = none
  lookup k ((j, v) ∷ m) = ite (key.dec j k) (some v) (lookup k m)

  unfoldable pub contains_key : K → Dict K V → Bool
  unfolding lookup
  contains_key k m = is_some (lookup k m)

  unfoldable pub insert : K → V → Dict K V → Dict K V
  insert k v [] = (k, v) ∷ []
  insert k v ((j, w) ∷ m) = ite (key.dec j k) ((k, v) ∷ m) ((j, w) ∷ insert k v m)

  unfoldable pub remove : K → Dict K V → Dict K V
  remove k [] = []
  remove k ((j, w) ∷ m) = ite (key.dec j k) m ((j, w) ∷ remove k m)

  -- Each key stands once.
  abbrev pub Distinct : Dict K V → Type ℓ
  Distinct [] = Unit
  Distinct ((k, v) ∷ m) = (lookup k m ≡ none) × Distinct m

  pub lookup-insert :
      (k j : K) (v : V) (m : Dict K V)
      → lookup j (insert k v m) ≡ ite (key.dec k j) (some v) (lookup j m)
  unfolding lookup insert
  lookup-insert k j v [] = refl
  lookup-insert k j v ((i, w) ∷ m) = ground (arith, lookup-insert k j v m)

  pub lookup-insert_self : (k : K) (v : V) (m : Dict K V) → lookup k (insert k v m) ≡ some v
  lookup-insert_self k v m = ground (arith, lookup-insert k k v m)

  pub lookup-insert_ne :
      (k j : K) (v : V) (m : Dict K V) → k ≢ j → lookup j (insert k v m) ≡ lookup j m
  lookup-insert_ne k j v m h = ground (arith, lookup-insert k j v m)

  pub lookup-remove :
      (k j : K) (m : Dict K V)
      → Distinct m
      → lookup j (remove k m) ≡ ite (key.dec k j) none (lookup j m)
  unfolding lookup remove
  lookup-remove k j [] d = ground arith
  lookup-remove k j ((i, w) ∷ m) d = ground (arith, lookup-remove k j m d.1)

  pub lookup-remove_self : (k : K) (m : Dict K V) → Distinct m → lookup k (remove k m) ≡ none
  lookup-remove_self k m d = ground (arith, lookup-remove k k m d)

  pub lookup-remove-none :
      (k j : K) (m : Dict K V) → lookup j m ≡ none → lookup j (remove k m) ≡ none
  unfolding lookup remove
  lookup-remove-none k j [] h = refl
  lookup-remove-none k j ((i, w) ∷ m) h = ground (arith, lookup-remove-none k j m)

  pub insert-Distinct : (k : K) (v : V) (m : Dict K V) → Distinct m → Distinct (insert k v m)
  unfolding lookup insert
  insert-Distinct k v [] d = (refl, tt)
  insert-Distinct k v ((i, w) ∷ m) d =
      ground (arith, insert-Distinct k v m d.1, lookup-insert k i v m)

  pub remove-Distinct : (k : K) (m : Dict K V) → Distinct m → Distinct (remove k m)
  unfolding remove
  remove-Distinct k [] d = tt
  remove-Distinct k ((i, w) ∷ m) d =
      ground (arith, remove-Distinct k m d.1, lookup-remove-none k i m d.0)

  pub length-insert_new :
      (k : K) (v : V) (m : Dict K V) → lookup k m ≡ none → length (insert k v m) ≡ length m + 1
  unfolding lookup insert
  length-insert_new k v [] h = omega arith
  length-insert_new k v ((i, w) ∷ m) h = ground (arith, length-insert_new k v m)

  pub length-insert_old :
      (k : K) (v w : V) (m : Dict K V) → lookup k m ≡ some w → length (insert k v m) ≡ length m
  unfolding lookup insert
  length-insert_old k v u [] h = cc
  length-insert_old k v u ((i, w) ∷ m) h = ground (arith, length-insert_old k v u m)

  pub length-insert-le : (k : K) (v : V) (m : Dict K V) → length (insert k v m) ≤ length m + 1
  unfolding insert
  length-insert-le k v [] = omega arith
  length-insert-le k v ((i, w) ∷ m) = ground (arith, length-insert-le k v m)

  pub length-remove-some :
      (k : K) (w : V) (m : Dict K V) → lookup k m ≡ some w → length (remove k m) + 1 ≡ length m
  unfolding lookup remove
  length-remove-some k u [] h = cc
  length-remove-some k u ((i, w) ∷ m) h = ground (arith, length-remove-some k u m)

  pub length-remove-le : (k : K) (m : Dict K V) → length (remove k m) ≤ length m
  unfolding remove
  length-remove-le k [] = omega arith
  length-remove-le k ((i, w) ∷ m) = ground (arith, length-remove-le k m)

  -- `retain` whose closure may also change the value (`DashMap::retain` hands out `&mut V`).
  unfoldable pub filter_map : (K → V → Option V) → Dict K V → Dict K V
  filter_map f [] = []
  filter_map f ((k, v) ∷ m) = elim (f k v) [
    | none ↦ filter_map f m
    | some w ↦ (k, w) ∷ filter_map f m
  ]

  abbrev pub keep_if : (K → V → Bool) → K → V → Option V
  keep_if p k v = if p k v then some v else none

  -- `retain` with a closure that only tests.
  abbrev pub retain_entries : (K → V → Bool) → Dict K V → Dict K V
  retain_entries p = filter_map (keep_if p)

  abbrev pub bind_entry : (K → V → Option V) → K → Option V → Option V
  bind_entry f k none = none
  bind_entry f k (some v) = f k v

  lookup-filter_map-none :
      (f : K → V → Option V) (j : K) (m : Dict K V)
      → lookup j m ≡ none
      → lookup j (filter_map f m) ≡ none
  unfolding lookup filter_map
  lookup-filter_map-none f j [] h = refl
  lookup-filter_map-none f j ((i, w) ∷ m) h = ground (arith, lookup-filter_map-none f j m)

  pub lookup-filter_map :
      (f : K → V → Option V) (j : K) (m : Dict K V)
      → Distinct m
      → lookup j (filter_map f m) ≡ bind_entry f j (lookup j m)
  unfolding lookup filter_map
  lookup-filter_map f j [] d = refl
  lookup-filter_map f j ((i, w) ∷ m) d =
      ground (arith, lookup-filter_map f j m d.1, lookup-filter_map-none f i m d.0)

  pub filter_map-Distinct :
      (f : K → V → Option V) (m : Dict K V) → Distinct m → Distinct (filter_map f m)
  unfolding filter_map
  filter_map-Distinct f [] d = tt
  filter_map-Distinct f ((i, w) ∷ m) d =
      ground (arith, filter_map-Distinct f m d.1, lookup-filter_map-none f i m d.0)

  pub length-filter_map-le :
      (f : K → V → Option V) (m : Dict K V) → length (filter_map f m) ≤ length m
  unfolding filter_map
  length-filter_map-le f [] = omega arith
  length-filter_map-le f ((i, w) ∷ m) = ground (arith, length-filter_map-le f m)
