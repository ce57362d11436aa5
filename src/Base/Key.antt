-- ===== src/Base/Key.antt =====
-- Equality tests by which the stores find their entries.
use hibiki_dsp.Base.Tests.{Text, text_eq, text_eq_refl, text_eq-eq, ◌==◌, Bool-cases}
use Prim.Native.Nat.{ℕ}
use mathlib.Core.Path.{◌≡◌, ap}
use mathlib.Core.Bool.{Bool, true, false, ◌&&◌}
use mathlib.Core.Logic.{inl, inr}
use native.Mathlib.Omega.{arith}

pub record Key {ℓ} (K : Type ℓ) : Type ℓ where
  pub beq : K → K → Bool
  pub beq_refl : (k : K) → beq k k ≡ true
  pub beq_eq : (j k : K) → beq j k ≡ true → j ≡ k

abbrev pub text_key : Key Text
text_key = record { beq = text_eq; beq_refl = text_eq_refl; beq_eq = text_eq-eq }

pub nat_beq_refl : (n : ℕ) → (n == n) ≡ true
nat_beq_refl n = ground arith

pub nat_beq-eq : (m n : ℕ) → (m == n) ≡ true → m ≡ n
nat_beq-eq m n h = ground arith

abbrev pub nat_key : Key ℕ
nat_key = record { beq = ◌==◌; beq_refl = nat_beq_refl; beq_eq = nat_beq-eq }

module _ {ℓ κ} {K : Type ℓ} {L : Type κ} (k : Key K) (l : Key L) where
  abbrev pub pair_beq : K × L → K × L → Bool
  pair_beq a b = k.beq a.0 b.0 && l.beq a.1 b.1

  pub pair_beq_refl : (a : K × L) → pair_beq a a ≡ true
  pair_beq_refl (x, y) = rw (k.beq_refl x, l.beq_refl y)

  pub pair_beq-eq : (a b : K × L) → pair_beq a b ≡ true → a ≡ b
  pair_beq-eq (x, y) (x', y') h =
      let p : x ≡ x' = k.beq_eq x x' (ground arith) in
      let q : y ≡ y' = l.beq_eq y y' (ground arith) in λ i. (p i, q i)

  abbrev pub pair_key : Key (K × L)
  pair_key = record { beq = pair_beq; beq_refl = pair_beq_refl; beq_eq = pair_beq-eq }

pub beq_ne {ℓ} : {K : Type ℓ} (k : Key K) (x y : K) → (x ≡ y → ⊥) → k.beq x y ≡ false
beq_ne k x y h = elim (Bool-cases (k.beq x y)) [ inl e ↦ absurd (h (k.beq_eq x y e)) | inr e ↦ e ]

pub beq_ne_sym {ℓ} : {K : Type ℓ} (k : Key K) (x y : K) → k.beq x y ≡ false → k.beq y x ≡ false
beq_ne_sym k x y ne = beq_ne k y x λ e. cc (ne, k.beq_refl x, ap (k.beq x) e)
