-- ===== src/Base/Entries.antt =====
-- Growing lists whose entries carry a key (a `std::vector`, or an array with a count): the first entry
-- with a key is found, changed in place or erased.
pub mod Map
use hibiki_dsp.Base.Tests.{Bool-cases, if◌then◌else◌}
use hibiki_dsp.Base.Lists.{length, All}
use hibiki_dsp.Base.Key.{Key, beq_ne_sym}
use Prim.Native.Nat.{ℕ, suc, ◌+◌, ◌≤◌}
use mathlib.Core.Path.{◌≡◌, refl, sym, subst, ap, ◌∙◌}
use mathlib.Core.Logic.{inl, inr}
use mathlib.Core.Bool.{Bool, true, false}
use mathlib.Core.Option
use mathlib.Core.Option.{Option, none, some}
use mathlib.Core.List.{List, [], ◌∷◌, ◌++◌}
use native.Mathlib.Omega.{arith}

module _ {ℓ} {A : Type ℓ} where
  unfoldable pub find_entry : (A → Bool) → List A → Option A
  find_entry p [] = none
  find_entry p (a ∷ s) = if p a then some a else find_entry p s

  -- Assign through the reference that the search returns.
  unfoldable pub update_entry : (A → Bool) → (A → A) → List A → List A
  update_entry p f [] = []
  update_entry p f (a ∷ s) = if p a then f a ∷ s else a ∷ update_entry p f s

  unfoldable pub erase_entry : (A → Bool) → List A → List A
  erase_entry p [] = []
  erase_entry p (a ∷ s) = if p a then s else a ∷ erase_entry p s

  pub length-update_entry :
      (p : A → Bool) (f : A → A) (s : List A) → length (update_entry p f s) ≡ length s
  unfolding update_entry
  length-update_entry p f [] = refl
  length-update_entry p f (a ∷ s) = elim (Bool-cases (p a)) [
    | inl hit ↦ rw hit
    | inr miss ↦ rw miss (ap suc (length-update_entry p f s))
  ]

  pub length-erase_entry : (p : A → Bool) (s : List A) → length (erase_entry p s) ≤ length s
  unfolding erase_entry
  length-erase_entry p [] = omega arith
  length-erase_entry p (a ∷ s) = elim (Bool-cases (p a)) [
    | inl hit ↦ rw hit (omega arith)
    | inr miss ↦ rw miss (omega (arith, length-erase_entry p s))
  ]

  pub All-update_entry {κ} :
      (P : A → Type κ) (p : A → Bool) (f : A → A) (s : List A)
      → ((a : A) → p a ≡ true → P a → P (f a))
      → All P s
      → All P (update_entry p f s)
  unfolding update_entry
  All-update_entry P p f [] keep v = v
  All-update_entry P p f (a ∷ s) keep v = elim (Bool-cases (p a)) [
    | inl hit ↦ rw hit (keep a hit v.0, v.1)
    | inr miss ↦ rw miss (v.0, All-update_entry P p f s keep v.1)
  ]

  pub All-erase_entry {κ} :
      (P : A → Type κ) (p : A → Bool) (s : List A) → All P s → All P (erase_entry p s)
  unfolding erase_entry
  All-erase_entry P p [] v = v
  All-erase_entry P p (a ∷ s) v = elim (Bool-cases (p a)) [
    | inl hit ↦ rw hit v.1
    | inr miss ↦ rw miss (v.0, All-erase_entry P p s v.1)
  ]

  pub All-snoc {κ} : (P : A → Type κ) (s : List A) (a : A) → All P s → P a → All P (s ++ (a ∷ []))
  All-snoc P [] a v h = (h, tt)
  All-snoc P (b ∷ s) a v h = (v.0, All-snoc P s a v.1 h)

  pub All-find_entry {κ} :
      (P : A → Type κ) (p : A → Bool) (s : List A) {a : A}
      → All P s
      → find_entry p s ≡ some a
      → P a × (p a ≡ true)
  unfolding find_entry
  All-find_entry P p [] v e = cc
  All-find_entry P p (b ∷ s) {a} v e = elim (Bool-cases (p b)) [
    | inl hit ↦ (subst P (head hit) v.0, subst (λ x. p x ≡ true) (head hit) hit)
    | inr miss ↦ All-find_entry P p s v.1 (rw miss at e)
  ]
    where
      head : p b ≡ true → b ≡ a
      head hit = ground arith

module _ {ℓ κ} {A : Type ℓ} {K : Type κ} (k : Key K) (key : A → K) where
  abbrev pub keyed : K → A → Bool
  keyed j a = k.beq (key a) j

  -- No entry has the key.
  abbrev pub IsNew : K → List A → Type 0
  IsNew j = All (λ a. keyed j a ≡ false)

  abbrev pub DistinctKeys : List A → Type 0
  DistinctKeys [] = Unit
  DistinctKeys (a ∷ s) = IsNew (key a) s × DistinctKeys s

  pub find_entry-none : (j : K) (s : List A) → find_entry (keyed j) s ≡ none → IsNew j s
  unfolding find_entry
  find_entry-none j [] e = tt
  find_entry-none j (a ∷ s) e = elim (Bool-cases (keyed j a)) [
    | inl hit ↦ absurd (found (rw hit at e))
    | inr miss ↦ (miss, find_entry-none j s (rw miss at e))
  ]
    where
      found : some a ≡ none → ⊥
      found e = cc

  find_entry-IsNew : (j : K) (s : List A) → IsNew j s → find_entry (keyed j) s ≡ none
  unfolding find_entry
  find_entry-IsNew j [] v = refl
  find_entry-IsNew j (a ∷ s) v = rw (v.0) (find_entry-IsNew j s v.1)

  -- Changing the entry of one key, the key kept, changes what is found at that key only.
  pub find_entry-update :
      (i j : K) (f : A → A) (s : List A)
      → ((a : A) → keyed i a ≡ true → key (f a) ≡ i)
      → find_entry (keyed j) (update_entry (keyed i) f s)
        ≡ (if k.beq i j then Option.map f (find_entry (keyed j) s) else find_entry (keyed j) s)
  unfolding find_entry update_entry
  find_entry-update i j f [] same = elim (Bool-cases (k.beq i j)) [ inl e ↦ rw e | inr e ↦ rw e ]
  find_entry-update i j f (a ∷ s) same = elim (Bool-cases (keyed i a)) [
    | inl hit ↦ ground (arith, same a hit, k.beq_eq (key a) i hit)
    | inr miss ↦ ground (arith, find_entry-update i j f s same, differs miss)
  ]
    where
      differs : keyed i a ≡ false → k.beq i j ≡ true → keyed j a ≡ false
      differs miss e = subst (λ x. k.beq (key a) x ≡ false) (k.beq_eq i j e) miss

  -- A new entry at the end is found at its key, if none with that key was there.
  pub find_entry-snoc :
      (j : K) (s : List A) (a : A)
      → IsNew (key a) s
      → find_entry (keyed j) (s ++ (a ∷ []))
        ≡ (if k.beq (key a) j then some a else find_entry (keyed j) s)
  unfolding find_entry
  find_entry-snoc j [] a v = refl
  find_entry-snoc j (b ∷ s) a v = ground (arith, find_entry-snoc j s a v.1, differs)
    where
      differs : k.beq (key a) j ≡ true → keyed j b ≡ false
      differs e = subst (λ x. k.beq (key b) x ≡ false) (k.beq_eq (key a) j e) v.0

  -- Erasing by key, where keys are distinct, removes that key only.
  pub find_entry-erase :
      (i j : K) (s : List A)
      → DistinctKeys s
      → find_entry (keyed j) (erase_entry (keyed i) s)
        ≡ (if k.beq i j then none else find_entry (keyed j) s)
  unfolding find_entry erase_entry
  find_entry-erase i j [] u = elim (Bool-cases (k.beq i j)) [ inl e ↦ rw e | inr e ↦ rw e ]
  find_entry-erase i j (a ∷ s) u = elim (Bool-cases (keyed i a)) [
    | inl hit ↦ ground (arith, k.beq_eq (key a) i hit, gone hit)
    | inr miss ↦ ground (arith, find_entry-erase i j s u.1, differs miss)
  ]
    where
      differs : keyed i a ≡ false → k.beq i j ≡ true → keyed j a ≡ false
      differs miss e = subst (λ x. k.beq (key a) x ≡ false) (k.beq_eq i j e) miss

      gone : keyed i a ≡ true → k.beq i j ≡ true → find_entry (keyed j) s ≡ none
      gone hit e =
          find_entry-IsNew j s
            (subst (λ x. IsNew x s) (k.beq_eq (key a) i hit ∙ k.beq_eq i j e) u.0)

  IsNew-update :
      (i j : K) (f : A → A) (s : List A)
      → ((a : A) → keyed i a ≡ true → key (f a) ≡ i)
      → IsNew j s
      → IsNew j (update_entry (keyed i) f s)
  IsNew-update i j f s same v = All-update_entry _ (keyed i) f s keep v
    where
      keep : (a : A) → keyed i a ≡ true → keyed j a ≡ false → keyed j (f a) ≡ false
      keep a hit e = subst (λ x. k.beq x j ≡ false) (k.beq_eq (key a) i hit ∙ sym (same a hit)) e

  pub DistinctKeys-update :
      (i : K) (f : A → A) (s : List A)
      → ((a : A) → keyed i a ≡ true → key (f a) ≡ i)
      → DistinctKeys s
      → DistinctKeys (update_entry (keyed i) f s)
  unfolding update_entry
  DistinctKeys-update i f [] same u = u
  DistinctKeys-update i f (a ∷ s) same u = elim (Bool-cases (keyed i a)) [
    | inl hit ↦ rw hit (subst (λ x. IsNew x s) (k.beq_eq (key a) i hit ∙ sym (same a hit)) u.0, u.1)
    | inr miss ↦ rw miss (IsNew-update i (key a) f s same u.0, DistinctKeys-update i f s same u.1)
  ]

  pub DistinctKeys-erase :
      (p : A → Bool) (s : List A) → DistinctKeys s → DistinctKeys (erase_entry p s)
  unfolding erase_entry
  DistinctKeys-erase p [] u = u
  DistinctKeys-erase p (a ∷ s) u = elim (Bool-cases (p a)) [
    | inl hit ↦ rw hit u.1
    | inr miss ↦ rw miss (All-erase_entry _ p s u.0, DistinctKeys-erase p s u.1)
  ]

  pub DistinctKeys-snoc :
      (s : List A) (a : A) → IsNew (key a) s → DistinctKeys s → DistinctKeys (s ++ (a ∷ []))
  DistinctKeys-snoc [] a v u = (tt, tt)
  DistinctKeys-snoc (b ∷ s) a v u =
      (All-snoc _ s a u.0 (beq_ne_sym k (key b) (key a) v.0), DistinctKeys-snoc s a v.1 u.1)
