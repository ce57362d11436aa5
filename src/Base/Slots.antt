-- ===== src/Base/Slots.antt =====
-- Fixed arrays of slots that are occupied or free (`std::array<Slot, N>`), as the stores of the
-- control plane search and fill them. A free slot is `none`: the source resets it to `{}`.
pub mod Lookup
pub mod Keyed
use hibiki_dsp.Base.Tests.{Bool-cases, ◌==◌, if◌then◌else◌}
use hibiki_dsp.Base.Lists.{length, set, get_elem?}
use Prim.Native.Nat.{ℕ, suc, ◌+◌, ◌≤◌, ◌<◌}
use mathlib.Core.Path.{◌≡◌, refl}
use mathlib.Core.Logic.{inl, inr}
use mathlib.Core.Bool.{Bool, true}
use mathlib.Core.Option.{Option, none, some}
use mathlib.Core.List.{List, [], ◌∷◌}
use native.Mathlib.Omega.{arith}

module _ {ℓ} {A : Type ℓ} where
  -- The index of the first occupied slot that passes the test, or the length of the array.
  unfoldable pub find_slot : (A → Bool) → List (Option A) → ℕ
  find_slot p [] = 0
  find_slot p (none ∷ s) = suc (find_slot p s)
  find_slot p (some a ∷ s) = if p a then 0 else suc (find_slot p s)

  -- The index of the first free slot, or the length of the array.
  unfoldable pub free_slot : List (Option A) → ℕ
  free_slot [] = 0
  free_slot (none ∷ s) = 0
  free_slot (some a ∷ s) = suc (free_slot s)

  -- What the first occupied slot that passes the test holds.
  unfoldable pub lookup : (A → Bool) → List (Option A) → Option A
  lookup p [] = none
  lookup p (none ∷ s) = lookup p s
  lookup p (some a ∷ s) = if p a then some a else lookup p s

  unfoldable pub occupied : List (Option A) → ℕ
  occupied [] = 0
  occupied (none ∷ s) = occupied s
  occupied (some a ∷ s) = suc (occupied s)

  -- Where a store writes an entry: over the first match, or else into the first free slot.
  unfoldable pub target_slot : (A → Bool) → List (Option A) → ℕ
  target_slot p s = let index = find_slot p s in if index == length s then free_slot s else index

  pub find_slot-le : (p : A → Bool) (s : List (Option A)) → find_slot p s ≤ length s
  unfolding find_slot
  find_slot-le p [] = omega arith
  find_slot-le p (none ∷ s) = omega (arith, find_slot-le p s)
  find_slot-le p (some a ∷ s) = ground (arith, find_slot-le p s)

  pub free_slot-le : (s : List (Option A)) → free_slot s ≤ length s
  unfolding free_slot
  free_slot-le [] = omega arith
  free_slot-le (none ∷ s) = omega arith
  free_slot-le (some a ∷ s) = omega (arith, free_slot-le s)

  pub occupied-le : (s : List (Option A)) → occupied s ≤ length s
  unfolding occupied
  occupied-le [] = omega arith
  occupied-le (none ∷ s) = omega (arith, occupied-le s)
  occupied-le (some a ∷ s) = omega (arith, occupied-le s)

  -- There is no free slot exactly when all are occupied.
  pub free_slot-full : (s : List (Option A)) → free_slot s ≡ length s → occupied s ≡ length s
  unfolding free_slot occupied
  free_slot-full [] h = refl
  free_slot-full (none ∷ s) h = absurd (omega arith)
  free_slot-full (some a ∷ s) h = omega (arith, free_slot-full s)

  pub free_slot_of_occupied_lt :
      (s : List (Option A)) → occupied s < length s → free_slot s < length s
  unfolding free_slot occupied
  free_slot_of_occupied_lt [] h = absurd (omega arith)
  free_slot_of_occupied_lt (none ∷ s) h = omega arith
  free_slot_of_occupied_lt (some a ∷ s) h = omega (arith, free_slot_of_occupied_lt s)

  -- The search finds nothing exactly when the lookup does.
  pub lookup-missing :
      (p : A → Bool) (s : List (Option A)) → find_slot p s ≡ length s → lookup p s ≡ none
  unfolding find_slot lookup
  lookup-missing p [] h = refl
  lookup-missing p (none ∷ s) h = lookup-missing p s (omega arith)
  lookup-missing p (some a ∷ s) h = ground (arith, lookup-missing p s)

  pub lookup-found :
      (p : A → Bool) (s : List (Option A))
      → find_slot p s < length s
      → (a : A) × (lookup p s ≡ some a)
        × (get_elem? s (find_slot p s) ≡ some (some a))
        × (p a ≡ true)
  unfolding find_slot lookup
  lookup-found p [] h = absurd (omega arith)
  lookup-found p (none ∷ s) h = lookup-found p s (omega arith)
  lookup-found p (some a ∷ s) h = elim (Bool-cases (p a)) [
    | inl e ↦ rw e (a, refl, refl, e)
    | inr e ↦ rw e (lookup-found p s (ground arith))
  ]

  pub occupied-replace :
      (p : A → Bool) (s : List (Option A)) (a : A)
      → find_slot p s < length s
      → occupied (set s (find_slot p s) (some a)) ≡ occupied s
  unfolding find_slot occupied
  occupied-replace p [] a h = refl
  occupied-replace p (none ∷ s) a h = occupied-replace p s a (omega arith)
  occupied-replace p (some b ∷ s) a h = elim (Bool-cases (p b)) [
    | inl e ↦ rw e
    | inr e ↦ rw e (omega (arith, occupied-replace p s a (ground arith)))
  ]

  pub occupied-insert :
      (s : List (Option A)) (a : A)
      → free_slot s < length s
      → occupied (set s (free_slot s) (some a)) ≡ occupied s + 1
  unfolding free_slot occupied
  occupied-insert [] a h = absurd (omega arith)
  occupied-insert (none ∷ s) a h = omega arith
  occupied-insert (some b ∷ s) a h = omega (arith, occupied-insert s a (omega arith))

  pub occupied-clear :
      (p : A → Bool) (s : List (Option A))
      → find_slot p s < length s
      → occupied (set s (find_slot p s) none) + 1 ≡ occupied s
  unfolding find_slot occupied
  occupied-clear p [] h = absurd (omega arith)
  occupied-clear p (none ∷ s) h = occupied-clear p s (omega arith)
  occupied-clear p (some b ∷ s) h = elim (Bool-cases (p b)) [
    | inl e ↦ rw e (omega arith)
    | inr e ↦ rw e (omega (arith, occupied-clear p s (ground arith)))
  ]
