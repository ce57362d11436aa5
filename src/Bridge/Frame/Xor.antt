-- ===== src/Bridge/Frame/Xor.antt =====
-- The mask that RFC 6455 puts on a payload is taken off by the code.
use hibiki_dsp.Base.{
  ℕ, zero, suc, ◌+◌, ◌%◌, ◌<◌, ◌≡◌, refl, ap₂, Bool, true, false, List, [], ◌∷◌, ◌==◌,
  if◌then◌else◌, ==_iff, All, get_or, length, arith,
}
use hibiki_dsp.Base.Bytes.{IsByte}
use hibiki_dsp.Bridge.Frame.{unmask}
use Prim.Native.Nat.{bit_xor}

-- Whether a test passes at every number under a bound.
unfoldable passes_under : (ℕ → Bool) → ℕ → Bool
passes_under test zero = true
passes_under test (suc bound) =
    let under = passes_under test bound in if test bound then under else false

passes_under-at :
    (test : ℕ → Bool) (bound value : ℕ)
    → value < bound
    → passes_under test bound ≡ true
    → test value ≡ true
unfolding passes_under
passes_under-at test zero value inside passed = absurd (omega arith)
passes_under-at test (suc bound) value inside passed =
    ground (arith, passes_under-at test bound value)

xor_bytes :
    passes_under (λ byte. passes_under (λ mask. bit_xor (bit_xor byte mask) mask == byte) 256) 256
    ≡ true
unfolding passes_under
xor_bytes = refl

bit_xor_twice : (b m : ℕ) → IsByte b → IsByte m → bit_xor (bit_xor b m) m ≡ b
bit_xor_twice b m h k =
    let row = passes_under-at _ 256 b h xor_bytes in
    (==_iff (bit_xor (bit_xor b m) m) b).0 (passes_under-at _ 256 m k row)

-- A payload masked as RFC 6455 says: octet i with octet i modulo 4 of the key, so that the first four
-- octets of the payload take the octets a, b, c, d of the key in turn, and the next ones begin at a again.
unfoldable pub masked : ℕ → ℕ → ℕ → ℕ → List ℕ → List ℕ
masked a b c d [] = []
masked a b c d (octet ∷ payload) = bit_xor octet a ∷ masked b c d a payload

pub length-masked :
    (a b c d : ℕ) (payload : List ℕ) → length (masked a b c d payload) ≡ length payload
unfolding masked
length-masked a b c d [] = refl
length-masked a b c d (octet ∷ payload) = omega (arith, length-masked b c d a payload)

-- The code finds the octets a, b, c, d from its index on, and they come round again after four.
pub unmask-masked :
    (mask : List ℕ) (index a b c d : ℕ) (payload : List ℕ)
    → get_or mask (index % 4) 0 ≡ a
    → get_or mask ((index + 1) % 4) 0 ≡ b
    → get_or mask ((index + 2) % 4) 0 ≡ c
    → get_or mask ((index + 3) % 4) 0 ≡ d
    → All IsByte (a ∷ b ∷ c ∷ d ∷ [])
    → All IsByte payload
    → unmask mask index (masked a b c d payload) ≡ payload
unfolding unmask masked
unmask-masked mask index a b c d [] first second third fourth v w = refl
unmask-masked mask index a b c d (octet ∷ payload) first second third fourth v w =
    let one : suc index % 4 ≡ (index + 1) % 4 = omega arith in
    let two : (suc index + 1) % 4 ≡ (index + 2) % 4 = omega arith in
    let three : (suc index + 2) % 4 ≡ (index + 3) % 4 = omega arith in
    let round : (suc index + 3) % 4 ≡ index % 4 = omega arith in
    ap₂ ◌∷◌ (rw first (bit_xor_twice octet a w.0 v.0)) (
      unmask-masked mask (suc index) b c d a payload (rw one second) (rw two third)
        (rw three fourth) (rw round first) (v.1.0, (v.1.1.0, (v.1.1.1.0, (v.0, tt)))) w.1)

pub length-unmask :
    (mask : List ℕ) (index : ℕ) (payload : List ℕ)
    → length (unmask mask index payload) ≡ length payload
unfolding unmask
length-unmask mask index [] = refl
length-unmask mask index (byte ∷ payload) = omega (arith, length-unmask mask (suc index) payload)
