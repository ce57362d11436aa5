-- ===== src/Base/Slots/Keyed.antt =====
-- A slot array whose entries carry a key: storing and removing by key, as a map from keys.
use hibiki_dsp.Base.Tests.{Bool-cases, ◌==◌, if◌then◌else◌}
use hibiki_dsp.Base.Lists.{length, set}
use hibiki_dsp.Base.Key.{Key, beq_ne_sym}
use hibiki_dsp.Base.Slots.{
  find_slot, free_slot, target_slot, lookup, occupied, find_slot-le, occupied-replace,
  occupied-insert,
}
use hibiki_dsp.Base.Slots.Lookup.{
  Absent, Distinct, lookup-Absent, Absent-missing, lookup-replace, lookup-replace_ne, lookup-insert,
  lookup-insert_ne, lookup-clear_ne, Absent-clear,
}
use Prim.Native.Nat.{ℕ, zero, suc, ◌+◌, ◌<◌}
use mathlib.Core.Path.{◌≡◌, sym, subst}
use mathlib.Core.Logic.{inl, inr, ◌⊎◌}
use mathlib.Core.Bool.{Bool, true, false}
use mathlib.Core.Option.{Option, none, some}
use mathlib.Core.List.{List, [], ◌∷◌}
use native.Mathlib.Omega.{arith}
use native.Mathlib.Decide.{ℕ_discrete}

module _ {ℓ κ} {A : Type ℓ} {K : Type κ} (k : Key K) (key : A → K) where
  -- The test of a search for a key, with the operands in the order of the source.
  abbrev pub has_key : K → A → Bool
  has_key j a = k.beq (key a) j

  abbrev pub same_key : A → A → Bool
  same_key a b = k.beq (key b) (key a)

  abbrev pub UniqueKeys : List (Option A) → Type 0
  UniqueKeys = Distinct same_key

  other_key : (i j : K) → k.beq i j ≡ false → (b : A) → has_key i b ≡ true → has_key j b ≡ false
  other_key i j ne b hit = subst (λ x. k.beq x j ≡ false) (sym (k.beq_eq (key b) i hit)) ne

  -- Where the store writes depends on whether the key is there.
  target_cases :
      (j : K) (s : List (Option A))
      → target_slot (has_key j) s < length s
      → ((find_slot (has_key j) s < length s)
          × (target_slot (has_key j) s ≡ find_slot (has_key j) s))
        ⊎ ((find_slot (has_key j) s ≡ length s)
            × (target_slot (has_key j) s ≡ free_slot s)
            × (free_slot s < length s))
  unfolding target_slot
  target_cases j s h = elim (ℕ_discrete (find_slot (has_key j) s) (length s)) [
    | yes e ↦ inr (e, ground arith, ground arith)
    | no ne ↦ inl (omega (arith, find_slot-le (has_key j) s), ground arith)
  ]

  -- After a store the map holds the entry at its key, and is as before at every other key.
  pub lookup-store :
      (s : List (Option A)) (a : A) (j : K)
      → target_slot (has_key (key a)) s < length s
      → lookup (has_key j) (set s (target_slot (has_key (key a)) s) (some a))
        ≡ (if k.beq (key a) j then some a else lookup (has_key j) s)
  lookup-store s a j h = elim (target_cases (key a) s h) [
    | inl (found, e) ↦ rw e (elim (Bool-cases (k.beq (key a) j)) [
      | inl hit ↦
          rw hit (rw (← k.beq_eq (key a) j hit) (lookup-replace _ s a (k.beq_refl (key a)) found))
      | inr miss ↦ rw miss (lookup-replace_ne _ _ s a (other_key (key a) j miss) miss found)
    ])
    | inr (missing, e, room) ↦ rw e (elim (Bool-cases (k.beq (key a) j)) [
      | inl hit ↦
          rw hit
            (rw (← k.beq_eq (key a) j hit) (lookup-insert _ s a (k.beq_refl (key a)) missing room))
      | inr miss ↦ rw miss (lookup-insert_ne _ s a miss room)
    ])
  ]

  -- A store takes a free slot exactly when its key is new.
  pub occupied-store :
      (s : List (Option A)) (a : A)
      → target_slot (has_key (key a)) s < length s
      → occupied (set s (target_slot (has_key (key a)) s) (some a))
        ≡ occupied s + (if find_slot (has_key (key a)) s == length s then 1 else 0)
  occupied-store s a h = elim (target_cases (key a) s h) [
    | inl (found, e) ↦ rw e (ground (arith, occupied-replace (has_key (key a)) s a found))
    | inr (missing, e, room) ↦ rw e (ground (arith, occupied-insert s a room))
  ]

  -- After a removal the key is gone, and the map is as before at every other key.
  pub lookup-remove :
      (s : List (Option A)) (i j : K)
      → UniqueKeys s
      → find_slot (has_key i) s < length s
      → lookup (has_key j) (set s (find_slot (has_key i) s) none)
        ≡ (if k.beq i j then none else lookup (has_key j) s)
  lookup-remove s i j u h = elim (Bool-cases (k.beq i j)) [
    | inl hit ↦ rw hit (
        rw (← k.beq_eq i j hit)
          (lookup-Absent _ _ (Absent-clear same_key (has_key i) s (apart i) u h)))
    | inr miss ↦ rw miss (lookup-clear_ne _ _ s (other_key i j miss) h)
  ]
    where
      apart : (i : K) (a b : A) → has_key i a ≡ true → same_key a b ≡ false → has_key i b ≡ false
      apart i a b hit ne = subst (λ x. k.beq (key b) x ≡ false) (k.beq_eq (key a) i hit) ne

  Absent-replace :
      (s : List (Option A)) (a : A) (j : K) (i : ℕ)
      → k.beq (key a) j ≡ false
      → Absent (has_key j) s
      → Absent (has_key j) (set s i (some a))
  Absent-replace [] a j i ne h = tt
  Absent-replace (none ∷ s) a j zero ne h = (ne, h)
  Absent-replace (some b ∷ s) a j zero ne h = (ne, h.1)
  Absent-replace (none ∷ s) a j (suc i) ne h = Absent-replace s a j i ne h
  Absent-replace (some b ∷ s) a j (suc i) ne h = (h.0, Absent-replace s a j i ne h.1)

  Absent-clear_at :
      (s : List (Option A)) (j : K) (i : ℕ)
      → Absent (has_key j) s
      → Absent (has_key j) (set s i none)
  Absent-clear_at [] j i h = tt
  Absent-clear_at (none ∷ s) j zero h = h
  Absent-clear_at (some b ∷ s) j zero h = h.1
  Absent-clear_at (none ∷ s) j (suc i) h = Absent-clear_at s j i h
  Absent-clear_at (some b ∷ s) j (suc i) h = (h.0, Absent-clear_at s j i h.1)

  -- Removing keeps the keys distinct.
  pub UniqueKeys-remove : (s : List (Option A)) (i : ℕ) → UniqueKeys s → UniqueKeys (set s i none)
  UniqueKeys-remove [] i u = tt
  UniqueKeys-remove (none ∷ s) zero u = u
  UniqueKeys-remove (some b ∷ s) zero u = u.1
  UniqueKeys-remove (none ∷ s) (suc i) u = UniqueKeys-remove s i u
  UniqueKeys-remove (some b ∷ s) (suc i) u =
      (Absent-clear_at s (key b) i u.0, UniqueKeys-remove s i u.1)

  UniqueKeys-insert :
      (s : List (Option A)) (a : A)
      → Absent (has_key (key a)) s
      → UniqueKeys s
      → UniqueKeys (set s (free_slot s) (some a))
  unfolding free_slot
  UniqueKeys-insert [] a h u = tt
  UniqueKeys-insert (none ∷ s) a h u = (h, u)
  UniqueKeys-insert (some b ∷ s) a h u = (
    Absent-replace s a (key b) (free_slot s) (beq_ne_sym k (key b) (key a) h.0) u.0,
    UniqueKeys-insert s a h.1 u.1,
  )

  UniqueKeys-replace :
      (s : List (Option A)) (a : A)
      → UniqueKeys s
      → UniqueKeys (set s (find_slot (has_key (key a)) s) (some a))
  unfolding find_slot
  UniqueKeys-replace [] a u = tt
  UniqueKeys-replace (none ∷ s) a u = UniqueKeys-replace s a u
  UniqueKeys-replace (some b ∷ s) a u = elim (Bool-cases (k.beq (key b) (key a))) [
    | inl hit ↦ rw hit (subst (λ x. Absent (has_key x) s) (k.beq_eq (key b) (key a) hit) u.0, u.1)
    | inr miss ↦ rw miss (
      Absent-replace s a (key b) _ (beq_ne_sym k (key b) (key a) miss) u.0,
      UniqueKeys-replace s a u.1,
    )
  ]

  -- Storing keeps the keys distinct.
  pub UniqueKeys-store :
      (s : List (Option A)) (a : A)
      → target_slot (has_key (key a)) s < length s
      → UniqueKeys s
      → UniqueKeys (set s (target_slot (has_key (key a)) s) (some a))
  UniqueKeys-store s a h u = elim (target_cases (key a) s h) [
    | inl (found, e) ↦ rw e (UniqueKeys-replace s a u)
    | inr (missing, e, room) ↦ rw e (UniqueKeys-insert s a (Absent-missing _ s missing) u)
  ]
