-- ===== src/Utf8.antt =====
-- src/hub/src/control_payloads.cpp: `is_printable_utf8_v1`, the check on every text that enters the
-- control plane. On a byte, `v & 0x3f` is `v % 64`, `v & 0xc0` compares through `v / 64`, and shifts
-- and ors of disjoint bits are products and sums.
pub mod Spec
pub mod Correct
pub mod Nul
use hibiki_dsp.Base.{
  ℕ, zero, suc, ◌+◌, ◌*◌, ◌/◌, ◌%◌, Bool, true, false, ◌&&◌, ◌||◌, not, List, [], ◌∷◌, Option, none,
  some, ltb, leb, ◌==◌, if◌then◌else◌, length,
}

abbrev pub is_continuation : ℕ → Bool
is_continuation value = value / 64 == 2

-- `low <= value && value <= high`
abbrev pub in_range : ℕ → ℕ → ℕ → Bool
in_range low high value = leb low value && leb value high

-- A code point and the bytes behind it, or `none` where the source returns false.
abbrev pub Decoded : Type 0
Decoded = Option (ℕ × List ℕ)

abbrev pub two_bytes : ℕ → List ℕ → Decoded
two_bytes first [] = none
two_bytes first (second ∷ rest) =
    if is_continuation second then some (first % 32 * 64 + second % 64, rest) else none

abbrev pub second_valid_of_three : ℕ → ℕ → Bool
second_valid_of_three first second =
    if first == 0xE0
    then in_range 0xA0 0xBF second
    else if first == 0xED
    then in_range 0x80 0x9F second
    else in_range 0x80 0xBF second

abbrev pub three_bytes : ℕ → List ℕ → Decoded
three_bytes first [] = none
three_bytes first (second ∷ []) = none
three_bytes first (second ∷ third ∷ rest) =
    if not (second_valid_of_three first second) || not (is_continuation third)
    then none
    else some (first % 16 * 4096 + second % 64 * 64 + third % 64, rest)

abbrev pub second_valid_of_four : ℕ → ℕ → Bool
second_valid_of_four first second =
    if first == 0xF0
    then in_range 0x90 0xBF second
    else if first == 0xF4
    then in_range 0x80 0x8F second
    else in_range 0x80 0xBF second

abbrev pub four_bytes : ℕ → List ℕ → Decoded
four_bytes first [] = none
four_bytes first (second ∷ []) = none
four_bytes first (second ∷ third ∷ []) = none
four_bytes first (second ∷ third ∷ fourth ∷ rest) =
    if not (second_valid_of_four first second)
      || not (is_continuation third)
      || not (is_continuation fourth)
    then none
    else some (first % 8 * 262144 + second % 64 * 4096 + third % 64 * 64 + fourth % 64, rest)

-- One round of the loop up to `index += width`, at the bytes from `index` on.
unfoldable pub decode_step : ℕ → List ℕ → Decoded
decode_step first rest =
    if leb first 0x7F
    then (if ltb first 0x20 then none else some (first, rest))
    else if in_range 0xC2 0xDF first
    then two_bytes first rest
    else if in_range 0xE0 0xEF first
    then three_bytes first rest
    else if in_range 0xF0 0xF4 first
    then four_bytes first rest
    else none

abbrev pub is_control : ℕ → Bool
is_control codepoint = ltb codepoint 0x20 || in_range 0x7F 0x9F codepoint

-- A round takes a byte at least, so the length of the text is fuel enough.
unfoldable pub printable_from : ℕ → List ℕ → Bool
printable_from fuel [] = true
printable_from zero (first ∷ rest) = false
printable_from (suc fuel) (first ∷ rest) = elim (decode_step first rest) [
  | none ↦ false
  | some (codepoint, next) ↦ if is_control codepoint then false else printable_from fuel next
]

unfoldable pub is_printable_utf8 : List ℕ → Bool
unfolding printable_from
is_printable_utf8 value = printable_from (length value) value
