-- ===== src/Base/Bytes.antt =====
-- Little-endian byte fields: the `append_u16/u32/u64`, `write_*` and `read_*` helpers that the codecs
-- share. A byte is a number; a field of `n` bytes is read and written by the same rules at every width.
use hibiki_dsp.Base.Lists.{length, take, drop, All, length-drop}
use Prim.Native.Nat.{ℕ, zero, suc, ◌+◌, ◌*◌, ◌/◌, ◌%◌, ◌^◌, ◌≤◌, ◌<◌}
use mathlib.Core.Path.{◌≡◌, refl, sym, ap, ap₂, ◌∙◌}
use mathlib.Core.List.{List, [], ◌∷◌, ◌++◌}
use native.Mathlib.Nat.{pow-suc, one-le-pow}
use native.Mathlib.Omega.{arith}

abbrev pub IsByte : ℕ → Type 0
IsByte b = b < 256

-- `(value >> (8 * i)) & 0xff` for i = 0, ..., n - 1.
unfoldable pub le_bytes : ℕ → ℕ → List ℕ
le_bytes zero value = []
le_bytes (suc n) value = (value % 256) ∷ le_bytes n (value / 256)

-- `bytes[0] | bytes[1] << 8 | ...`, for n bytes. The bits of bytes do not overlap, so `|` is `+`.
unfoldable pub read_le : ℕ → List ℕ → ℕ
read_le zero bytes = 0
read_le (suc n) [] = 0
read_le (suc n) (b ∷ bytes) = b + 256 * read_le n bytes

pub length-le_bytes : (n v : ℕ) → length (le_bytes n v) ≡ n
unfolding le_bytes
length-le_bytes zero v = refl
length-le_bytes (suc n) v = ap suc (length-le_bytes n (v / 256))

pub read_le-le_bytes :
    (n v : ℕ) (rest : List ℕ) → v < 256 ^ n → read_le n (le_bytes n v ++ rest) ≡ v
unfolding read_le le_bytes
read_le-le_bytes zero v rest h = omega arith
read_le-le_bytes (suc n) v rest h =
    omega (arith, read_le-le_bytes n (v / 256) rest (omega (arith, pow-suc 256 n)))

pub le_bytes-read_le :
    (n : ℕ) (bytes : List ℕ)
    → All IsByte bytes
    → n ≤ length bytes
    → le_bytes n (read_le n bytes) ≡ take n bytes
unfolding read_le le_bytes
le_bytes-read_le zero bytes v h = refl
le_bytes-read_le (suc n) [] v h = absurd (omega arith)
le_bytes-read_le (suc n) (b ∷ bytes) v h =
    ap₂ ◌∷◌ (omega arith)
      (ap (le_bytes n) (omega arith) ∙ le_bytes-read_le n bytes v.1 (omega arith))

pub read_le-lt : (n : ℕ) (bytes : List ℕ) → All IsByte bytes → read_le n bytes < 256 ^ n
unfolding read_le
read_le-lt zero bytes v = omega arith
read_le-lt (suc n) [] v = omega (arith, one-le-pow (suc n) 256 (omega arith))
read_le-lt (suc n) (b ∷ bytes) v = omega (arith, read_le-lt n bytes v.1, pow-suc 256 n)

pub All-le_bytes : (n v : ℕ) → All IsByte (le_bytes n v)
unfolding le_bytes
All-le_bytes zero v = tt
All-le_bytes (suc n) v = (omega arith, All-le_bytes n (v / 256))

pub All-drop {ℓ κ} :
    {A : Type ℓ} (P : A → Type κ) (n : ℕ) (xs : List A) → All P xs → All P (drop n xs)
All-drop P zero xs v = v
All-drop P (suc n) [] v = tt
All-drop P (suc n) (x ∷ xs) v = All-drop P n xs v.1

pub drop-drop {ℓ} :
    {A : Type ℓ} (k n m : ℕ) (xs : List A) → k + n ≡ m → drop n (drop k xs) ≡ drop m xs
drop-drop zero n m xs e = ap (λ j. drop j xs) (omega arith)
drop-drop (suc k) zero zero xs e = absurd (omega arith)
drop-drop (suc k) (suc n) zero xs e = absurd (omega arith)
drop-drop (suc k) zero (suc m) [] e = refl
drop-drop (suc k) (suc n) (suc m) [] e = refl
drop-drop (suc k) zero (suc m) (x ∷ xs) e = drop-drop k zero m xs (omega arith)
drop-drop (suc k) (suc n) (suc m) (x ∷ xs) e = drop-drop k (suc n) m xs (omega arith)

take-append-drop {ℓ} : {A : Type ℓ} (n : ℕ) (xs : List A) → take n xs ++ drop n xs ≡ xs
take-append-drop zero xs = refl
take-append-drop (suc n) [] = refl
take-append-drop (suc n) (x ∷ xs) = ap (◌∷◌ x) (take-append-drop n xs)

-- A field of n bytes at offset k, written out again before the bytes from m = k + n on.
pub field-bytes :
    (k n m : ℕ) (bytes : List ℕ)
    → k + n ≡ m
    → All IsByte bytes
    → m ≤ length bytes
    → le_bytes n (read_le n (drop k bytes)) ++ drop m bytes ≡ drop k bytes
field-bytes k n m bytes e v h =
    ap₂ ◌++◌
      (le_bytes-read_le n (drop k bytes) (All-drop IsByte k bytes v)
        (omega (arith, length-drop k bytes)))
      (sym (drop-drop k n m bytes e))
    ∙ take-append-drop n (drop k bytes)
