-- ===== src/Bridge/Frame/Bounds.antt =====
-- Whatever the stream holds, a frame that is read keeps the limits.
use mathlib.Core.Path.{subst}
use hibiki_dsp.Base.{
  ℕ, ◌%◌, ◌/◌, ◌^◌, ◌-◌, ◌≤◌, ◌<◌, ◌≡◌, ◌⊎◌, ◌&&◌, ◌||◌, not, List, ltb, ◌==◌, length, length-take,
  take, drop, get_or, Bool-cases, inl, inr, arith,
}
use hibiki_dsp.Bridge.Frame.{
  WsFrame, FrameRead, refused, decoded, LengthRead, bad_length, good_length, read_length, unmask,
  read_payload, is_control, read_limited, read_header, read_client_frame,
}
use hibiki_dsp.Bridge.Frame.Xor.{length-unmask}

pub record IsBounded (max_payload : ℕ) (frame : WsFrame) : Type 0 where
  pub four_bits : frame.opcode < 16
  pub limited : length frame.payload ≤ max_payload
  pub control : (frame.opcode < 8) ⊎ (length frame.payload ≤ 125)

abbrev KeepsLimits : ℕ → FrameRead → Type 0
KeepsLimits max_payload (refused error) = Unit
KeepsLimits max_payload (decoded frame rest) = IsBounded max_payload frame

payload-KeepsLimits :
    (max_payload opcode count : ℕ) (stream : List ℕ)
    → opcode < 16
    → count ≤ max_payload
    → (opcode < 8) ⊎ (count ≤ 125)
    → KeepsLimits max_payload (read_payload opcode count stream)
unfolding read_payload
payload-KeepsLimits max_payload opcode count stream h k control =
    elim (Bool-cases (ltb (length stream) 4)) [
      | inl short ↦ rw (read_payload, short) tt
      | inr fits ↦ elim (Bool-cases (ltb (length (drop 4 stream)) count)) [
        | inl truncated ↦ rw (read_payload, fits, truncated) tt
        | inr whole ↦
            let exact : length (unmask (take 4 stream) 0 (take count (drop 4 stream))) ≡ count =
              ground (
                arith,
                length-unmask (take 4 stream) 0 (take count (drop 4 stream)),
                length-take count (drop 4 stream),
              ) in
            rw (read_payload, fits, whole)
              (record {
                four_bits = h;
                limited = omega (arith, exact);
                control = ground (arith, exact);
              })
      ]
    ]

limited-KeepsLimits :
    (max_payload opcode : ℕ) (read : LengthRead)
    → opcode < 16
    → KeepsLimits max_payload (read_limited max_payload opcode read)
unfolding read_limited
limited-KeepsLimits max_payload opcode (bad_length error) h = tt
limited-KeepsLimits max_payload opcode (good_length count stream) h =
    elim (Bool-cases (is_control opcode && ltb 125 count)) [
      | inl long ↦ rw (read_limited, long) tt
      | inr short ↦ elim (Bool-cases (ltb max_payload count || ltb (2 ^ 64 - 1) count)) [
        | inl over ↦ rw (read_limited, short, over) tt
        | inr fits ↦
            rw (read_limited, short, fits)
              (payload-KeepsLimits max_payload opcode count stream h (ground arith) (ground arith))
      ]
    ]

header-KeepsLimits :
    (max_payload first second : ℕ) (stream : List ℕ)
    → KeepsLimits max_payload (read_header max_payload first second stream)
unfolding read_header
header-KeepsLimits max_payload first second stream = elim (Bool-cases (not (first / 16 % 8 == 0))) [
  | inl reserved ↦ rw (read_header, reserved) tt
  | inr clear ↦ elim (Bool-cases (is_control (first % 16) && (first / 128 % 2 == 0))) [
    | inl fragmented ↦ rw (read_header, clear, fragmented) tt
    | inr unfragmented ↦ elim (Bool-cases (first / 128 % 2 == 0)) [
      | inl more ↦ rw (read_header, clear, unfragmented, more) tt
      | inr final ↦ elim (Bool-cases (second / 128 % 2 == 0)) [
        | inl bare ↦ rw (read_header, clear, unfragmented, final, bare) tt
        | inr masked ↦
            rw (read_header, clear, unfragmented, final, masked)
              (limited-KeepsLimits max_payload (first % 16) (read_length (second % 128) stream)
                (omega arith))
      ]
    ]
  ]
]

frame-KeepsLimits :
    (max_payload : ℕ) (stream : List ℕ)
    → KeepsLimits max_payload (read_client_frame max_payload stream)
unfolding read_client_frame
frame-KeepsLimits max_payload stream = elim (Bool-cases (ltb (length stream) 2)) [
  | inl short ↦ rw (read_client_frame, short) tt
  | inr fits ↦
      rw (read_client_frame, fits)
        (header-KeepsLimits max_payload (get_or (take 2 stream) 0 0) (get_or (take 2 stream) 1 0)
          (drop 2 stream))
]

-- Whatever bytes the stream holds, a frame that is read from it has an opcode of four bits, a payload that is not
-- longer than the limit, and, if it is a control frame, not longer than 125 bytes.
pub read_client_frame-IsBounded :
    (max_payload : ℕ) (stream rest : List ℕ) (frame : WsFrame)
    → read_client_frame max_payload stream ≡ decoded frame rest
    → IsBounded max_payload frame
read_client_frame-IsBounded max_payload stream rest frame h =
    subst (KeepsLimits max_payload) h (frame-KeepsLimits max_payload stream)
