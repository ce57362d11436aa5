-- ===== src/Ipc/Stream.antt =====
-- src/hub/src/ipc.cpp: frames cut short or run together on the pipe are told apart from whole ones.
use hibiki_dsp.Base.{
  ℕ, zero, suc, ◌+◌, ◌-◌, ◌^◌, ◌≤◌, ◌<◌, ◌≡◌, refl, ap, true, List, [], ◌∷◌, ◌++◌, none, arith, ltb,
  if◌then◌else◌, length, take, length-take, length-append, ◌∙◌, lt→ltb, le→ltb,
}
use hibiki_dsp.Base.Bytes.{le_bytes, read_le-le_bytes}
use native.Mathlib.Decide.{dec_lt}
use hibiki_dsp.Ipc.{
  IpcFrame, truncated, length_mismatch, ipc_magic, ipc_version, ipc_max_payload_bytes, header_bytes,
  is_valid_message_type, encode_ipc_frame, decode_ipc_frame,
}
use mathlib.Core.List.{append_assoc}

-- The header of an encoded frame.
abbrev sent_header : IpcFrame → List ℕ
sent_header frame =
    le_bytes 4 ipc_magic
    ++ (le_bytes 2 ipc_version
        ++ (le_bytes 2 frame.header.type_value
            ++ (le_bytes 4 (length frame.payload) ++ le_bytes 8 frame.header.request_id)))

-- What `encode_ipc_frame` accepts.
pub record IsSendable (frame : IpcFrame) : Type 0 where
  pub valid : is_valid_message_type frame.header.type_value ≡ true
  pub type_fits : frame.header.type_value < 2 ^ 16
  pub id_fits : frame.header.request_id < 2 ^ 64
  pub size_fits : length frame.payload ≤ ipc_max_payload_bytes

encode-header :
    (frame : IpcFrame)
    → IsSendable frame
    → encode_ipc_frame frame ≡ sent_header frame ++ frame.payload
unfolding encode_ipc_frame le_bytes
encode-header frame s = ground arith

-- A sent header followed by bytes of another length than it announces.
decode-mismatch :
    (frame : IpcFrame) (rest : List ℕ)
    → IsSendable frame
    → (length rest ≡ length frame.payload → ⊥)
    → decode_ipc_frame (sent_header frame ++ rest) ≡ (length_mismatch, none)
unfolding decode_ipc_frame le_bytes
decode-mismatch frame rest s ne = ground (
  arith,
  read_le-le_bytes 4 ipc_magic
      (le_bytes 2 ipc_version
        ++ (le_bytes 2 frame.header.type_value
            ++ (le_bytes 4 (length frame.payload) ++ (le_bytes 8 frame.header.request_id ++ rest))))
      (omega arith),
  read_le-le_bytes 2 ipc_version
      (le_bytes 2 frame.header.type_value
        ++ (le_bytes 4 (length frame.payload) ++ (le_bytes 8 frame.header.request_id ++ rest)))
      (omega arith),
  read_le-le_bytes 2 frame.header.type_value
      (le_bytes 4 (length frame.payload) ++ (le_bytes 8 frame.header.request_id ++ rest))
      s.type_fits,
  read_le-le_bytes 4 (length frame.payload) (le_bytes 8 frame.header.request_id ++ rest)
      (omega arith),
)

decode-short :
    (bytes : List ℕ) → length bytes < header_bytes → decode_ipc_frame bytes ≡ (truncated, none)
unfolding decode_ipc_frame
decode-short bytes h = rw (lt→ltb (length bytes) header_bytes h)

take-append :
    (n : ℕ) (xs ys : List ℕ) → length xs ≤ n → take n (xs ++ ys) ≡ xs ++ take (n - length xs) ys
take-append n [] ys h = ap (λ k. take k ys) (omega arith)
take-append zero (x ∷ xs) ys h = absurd (omega arith)
take-append (suc n) (x ∷ xs) ys h =
    ap (◌∷◌ x) (take-append n xs ys (omega arith) ∙ ap (λ k. xs ++ take k ys) (omega arith))

length-sent_header : (frame : IpcFrame) → length (sent_header frame) ≡ header_bytes
unfolding le_bytes
length-sent_header frame = refl

-- Every proper prefix of an encoded frame is refused: as truncated while the header is incomplete,
-- and as a length mismatch after that.
pub decode-take :
    (frame : IpcFrame) (n : ℕ)
    → IsSendable frame
    → n < length (encode_ipc_frame frame)
    → decode_ipc_frame (take n (encode_ipc_frame frame))
      ≡ (if ltb n header_bytes then truncated else length_mismatch, none)
decode-take frame n s h = elim (dec_lt n header_bytes) [
  | yes short ↦ rw (lt→ltb n header_bytes short) (
      decode-short (take n (encode_ipc_frame frame))
        (omega (arith, length-take n (encode_ipc_frame frame))))
  | no long ↦
      rw
        (
          le→ltb header_bytes n (omega arith),
          encode-header frame s,
          take-append n (sent_header frame) frame.payload (omega (arith, length-sent_header frame)),
        )
        (decode-mismatch frame _ s (shorter (omega arith)))
]
  where
    total : length (encode_ipc_frame frame) ≡ header_bytes + length frame.payload
    total = omega (
      arith,
      ap length (encode-header frame s),
      length-append (sent_header frame) frame.payload,
      length-sent_header frame,
    )

    shorter :
        header_bytes ≤ n
        → length (take (n - length (sent_header frame)) frame.payload) ≡ length frame.payload
        → ⊥
    shorter long e = omega (
      arith,
      total,
      length-sent_header frame,
      length-take (n - length (sent_header frame)) frame.payload,
    )

-- An encoded frame followed by at least one more byte is refused as a length mismatch, so that two
-- frames run together are never taken for one.
pub decode-append :
    (frame : IpcFrame) (extra : List ℕ)
    → IsSendable frame
    → 0 < length extra
    → decode_ipc_frame (encode_ipc_frame frame ++ extra) ≡ (length_mismatch, none)
decode-append frame extra s h =
    rw (encode-header frame s, append_assoc)
      (decode-mismatch frame (frame.payload ++ extra) s
        λ e. absurd (omega (arith, length-append frame.payload extra)))
