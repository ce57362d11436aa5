-- ===== src/Bridge/Frame.antt =====
-- extensions/native_bridge/include/hibiki/ws_transport.hpp and extensions/native_bridge/src/ws_transport.cpp: one
-- masked client frame of a WebSocket. The stream is the list of the bytes that are still to come; a read of more
-- bytes than that fails.
pub mod Xor
pub mod Roundtrip
pub mod Bounds
use hibiki_dsp.Base.{
  ℕ, zero, suc, ◌+◌, ◌*◌, ◌/◌, ◌%◌, ◌^◌, ◌-◌, Bool, true, false, ◌&&◌, ◌||◌, not, List, [], ◌∷◌,
  Option, none, some, ltb, leb, ◌==◌, if◌then◌else◌, length, take, drop, get_or,
}
use Prim.Native.Nat.{bit_xor}

pub record WsFrame : Type 0 where
  pub opcode : ℕ
  pub payload : List ℕ

pub data FrameError : Type 0 where
  incomplete_frame reserved_bits_set fragmented_control_frame : FrameError
  non_canonical_payload_length unmasked_client_frame payload_too_large : FrameError
  truncated_payload : FrameError

-- What a read answers: the error, or the frame (with the error `None`) and the stream behind it.
pub data FrameRead : Type 0 where
  refused : FrameError → FrameRead
  decoded : WsFrame → List ℕ → FrameRead

-- The reader: the bytes asked for and the rest of the stream, or a failure.
abbrev pub read_bytes : ℕ → List ℕ → Option (List ℕ × List ℕ)
read_bytes n stream = if ltb (length stream) n then none else some (take n stream, drop n stream)

-- `length = (length << 8) | byte` over the bytes.
unfoldable pub read_be : ℕ → List ℕ → ℕ
read_be length [] = length
read_be length (byte ∷ bytes) = read_be (length * 256 + byte) bytes

-- The length of the payload, and the stream behind it.
pub data LengthRead : Type 0 where
  bad_length : FrameError → LengthRead
  good_length : ℕ → List ℕ → LengthRead

unfoldable pub read_length : ℕ → List ℕ → LengthRead
read_length short stream =
    if short == 126
    then elim (read_bytes 2 stream) [
      | none ↦ bad_length truncated_payload
      | some (extended, rest) ↦
          let length = get_or extended 0 0 * 256 + get_or extended 1 0 in
          if ltb length 126
          then bad_length non_canonical_payload_length
          else good_length length rest
    ]
    else if short == 127
    then elim (read_bytes 8 stream) [
      | none ↦ bad_length truncated_payload
      | some (extended, rest) ↦
          let length = read_be 0 extended in
          if leb 128 (get_or extended 0 0)
          then bad_length non_canonical_payload_length
          else if leb length 0xFFFF
          then bad_length non_canonical_payload_length
          else good_length length rest
    ]
    else good_length short stream

-- The loop that takes the mask off, from an index on.
unfoldable pub unmask : List ℕ → ℕ → List ℕ → List ℕ
unmask mask index [] = []
unmask mask index (byte ∷ payload) =
    bit_xor byte (get_or mask (index % 4) 0) ∷ unmask mask (suc index) payload

-- The mask and the payload.
unfoldable pub read_payload : ℕ → ℕ → List ℕ → FrameRead
unfolding unmask
read_payload opcode count stream = elim (read_bytes 4 stream) [
  | none ↦ refused truncated_payload
  | some (mask, behind) ↦ elim (read_bytes count behind) [
    | none ↦ refused truncated_payload
    | some (payload, rest) ↦
        decoded (record { opcode = opcode; payload = unmask mask 0 payload }) rest
  ]
]

abbrev pub is_control : ℕ → Bool
is_control opcode = leb 8 opcode

-- The limits on the length.
unfoldable pub read_limited : ℕ → ℕ → LengthRead → FrameRead
unfolding read_payload
read_limited max_payload opcode (bad_length error) = refused error
read_limited max_payload opcode (good_length count stream) =
    if is_control opcode && ltb 125 count
    then refused payload_too_large
    else if ltb max_payload count || ltb (2 ^ 64 - 1) count
    then refused payload_too_large
    else read_payload opcode count stream

-- The tests on the two header bytes: `& 0x70`, `& 0x0f`, `& 0x80` and `& 0x7f`.
unfoldable pub read_header : ℕ → ℕ → ℕ → List ℕ → FrameRead
unfolding read_length read_limited
read_header max_payload first second stream =
    let opcode = first % 16 in
    if not (first / 16 % 8 == 0)
    then refused reserved_bits_set
    else if is_control opcode && (first / 128 % 2 == 0)
    then refused fragmented_control_frame
    else if first / 128 % 2 == 0
    then refused reserved_bits_set
    else if second / 128 % 2 == 0
    then refused unmasked_client_frame
    else read_limited max_payload opcode (read_length (second % 128) stream)

unfoldable pub read_client_frame : ℕ → List ℕ → FrameRead
unfolding read_header
read_client_frame max_payload stream = elim (read_bytes 2 stream) [
  | none ↦ refused incomplete_frame
  | some (header, rest) ↦ read_header max_payload (get_or header 0 0) (get_or header 1 0) rest
]
