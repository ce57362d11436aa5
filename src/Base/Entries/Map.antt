-- ===== src/Base/Entries/Map.antt =====
-- Changing every entry of a list, the keys kept; and the one entry of a key.
use hibiki_dsp.Base.Tests.{Bool-cases}
use hibiki_dsp.Base.Lists.{length, All}
use hibiki_dsp.Base.Key.{Key}
use hibiki_dsp.Base.Entries.{find_entry, update_entry, keyed, IsNew, DistinctKeys}
use Prim.Native.Nat.{suc}
use mathlib.Core.Path.{◌≡◌, refl, sym, subst, ap}
use mathlib.Core.Logic.{inl, inr}
use mathlib.Core.Bool.{Bool, true, false}
use mathlib.Core.Option.{some}
use mathlib.Core.List.{List, [], ◌∷◌, map}
use native.Mathlib.Omega.{arith}

pub length-map {ℓ} : {A : Type ℓ} (f : A → A) (s : List A) → length (map f s) ≡ length s
length-map f [] = refl
length-map f (a ∷ s) = ap suc (length-map f s)

pub All-map {ℓ κ} :
    {A : Type ℓ} (P : A → Type κ) (f : A → A) (s : List A)
    → ((a : A) → P a → P (f a))
    → All P s
    → All P (map f s)
All-map P f [] keep v = v
All-map P f (a ∷ s) keep v = (keep a v.0, All-map P f s keep v.1)

pub All-every {ℓ κ} : {A : Type ℓ} (P : A → Type κ) (s : List A) → ((a : A) → P a) → All P s
All-every P [] h = tt
All-every P (a ∷ s) h = (h a, All-every P s h)

module _ {ℓ κ} {A : Type ℓ} {K : Type κ} (k : Key K) (key : A → K) where
  IsNew-map :
      (f : A → A) (j : K) (s : List A)
      → ((a : A) → key (f a) ≡ key a)
      → IsNew k key j s
      → IsNew k key j (map f s)
  IsNew-map f j s same v = All-map _ f s (λ a h. subst (λ x. k.beq x j ≡ false) (sym (same a)) h) v

  pub DistinctKeys-map :
      (f : A → A) (s : List A)
      → ((a : A) → key (f a) ≡ key a)
      → DistinctKeys k key s
      → DistinctKeys k key (map f s)
  DistinctKeys-map f [] same u = u
  DistinctKeys-map f (a ∷ s) same u = (
    subst (λ x. IsNew k key x (map f s)) (sym (same a)) (IsNew-map f (key a) s same u.0),
    DistinctKeys-map f s same u.1,
  )

  -- Where keys are distinct, the entry that a key finds is the only one with the key.
  pub find_entry-only :
      (j : K) (s : List A) (x : A)
      → DistinctKeys k key s
      → find_entry (keyed k key j) s ≡ some x
      → All (λ a. keyed k key j a ≡ true → a ≡ x) s
  unfolding find_entry
  find_entry-only j [] x u e = tt
  find_entry-only j (a ∷ s) x u e = elim (Bool-cases (keyed k key j a)) [
    | inl hit ↦
        ((λ h. head hit), others s (subst (λ y. IsNew k key y s) (k.beq_eq (key a) j hit) u.0))
    | inr miss ↦ ((λ h. clash miss h), find_entry-only j s x u.1 (rw miss at e))
  ]
    where
      head : keyed k key j a ≡ true → a ≡ x
      head hit = ground arith

      clash : {P : Type ℓ} → keyed k key j a ≡ false → keyed k key j a ≡ true → P
      clash miss h = cc

      others : (t : List A) → IsNew k key j t → All (λ b. keyed k key j b ≡ true → b ≡ x) t
      others [] v = tt
      others (b ∷ t) v = ((λ h. differs (v.0) h), others t v.1)
        where
          differs : {P : Type ℓ} → keyed k key j b ≡ false → keyed k key j b ≡ true → P
          differs miss h = cc

pub All-update_entry_at {ℓ κ} :
    {A : Type ℓ} (P : A → Type κ) (p : A → Bool) (f : A → A) (s : List A)
    → All (λ a. p a ≡ true → P (f a)) s
    → All P s
    → All P (update_entry p f s)
unfolding update_entry
All-update_entry_at P p f [] keep v = v
All-update_entry_at P p f (a ∷ s) keep v = elim (Bool-cases (p a)) [
  | inl hit ↦ rw hit (keep.0 hit, v.1)
  | inr miss ↦ rw miss (v.0, All-update_entry_at P p f s keep.1 v.1)
]

pub All-imp {ℓ κ κ'} :
    {A : Type ℓ} (P : A → Type κ) (Q : A → Type κ') (s : List A)
    → ((a : A) → P a → Q a)
    → All P s
    → All Q s
All-imp P Q [] f v = tt
All-imp P Q (a ∷ s) f v = (f a v.0, All-imp P Q s f v.1)
