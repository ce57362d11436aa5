-- ===== src/Ipc/Codec.antt =====
-- src/hub/src/ipc.cpp: encoding and decoding are inverse, and what each decode error means.
use hibiki_dsp.Base.{
  ℕ, ◌+◌, ◌^◌, ◌≤◌, ◌<◌, ◌≡◌, refl, true, List, ◌++◌, some, arith, length, drop, All, length-drop,
  le→ltb,
}
use hibiki_dsp.Base.Bytes.{IsByte, le_bytes, read_le, read_le-le_bytes, field-bytes}
use hibiki_dsp.Ipc.{
  IpcFrame, no_error, ipc_magic, ipc_version, ipc_max_payload_bytes, header_bytes,
  is_valid_message_type, encode_ipc_frame, decode_ipc_frame, decoded_frame,
}

-- What the header of an encoded frame reads as.
abbrev pub sent_frame : IpcFrame → IpcFrame
sent_frame frame = record {
  header = record {
    magic = ipc_magic;
    version = ipc_version;
    type_value = frame.header.type_value;
    payload_bytes = length frame.payload;
    request_id = frame.header.request_id;
  };
  payload = frame.payload;
}

-- Decoding an encoded frame gives back the type, the request and the payload of every frame that
-- has a valid type, a 64-bit request id and a payload within the limit; magic, version and length
-- are those of the wire format, whatever the frame said.
pub decode-encode :
    (frame : IpcFrame)
    → is_valid_message_type frame.header.type_value ≡ true
    → frame.header.type_value < 2 ^ 16
    → frame.header.request_id < 2 ^ 64
    → length frame.payload ≤ ipc_max_payload_bytes
    → decode_ipc_frame (encode_ipc_frame frame) ≡ (no_error, some (sent_frame frame))
unfolding encode_ipc_frame decode_ipc_frame le_bytes
decode-encode frame valid small id fits = ground (
  arith,
  read_le-le_bytes 4 ipc_magic
      (le_bytes 2 ipc_version
        ++ (le_bytes 2 frame.header.type_value
            ++ (le_bytes 4 (length frame.payload)
                ++ (le_bytes 8 frame.header.request_id ++ frame.payload))))
      (omega arith),
  read_le-le_bytes 2 ipc_version
      (le_bytes 2 frame.header.type_value
        ++ (le_bytes 4 (length frame.payload)
            ++ (le_bytes 8 frame.header.request_id ++ frame.payload)))
      (omega arith),
  read_le-le_bytes 2 frame.header.type_value
      (le_bytes 4 (length frame.payload) ++ (le_bytes 8 frame.header.request_id ++ frame.payload))
      small,
  read_le-le_bytes 4 (length frame.payload) (le_bytes 8 frame.header.request_id ++ frame.payload)
      (omega arith),
  read_le-le_bytes 8 frame.header.request_id frame.payload id,
)

-- The checks that an accepted byte string has passed.
record Accepted (bytes : List ℕ) : Type 0 where
  long : header_bytes ≤ length bytes
  magic : read_le 4 bytes ≡ ipc_magic
  version : read_le 2 (drop 4 bytes) ≡ ipc_version
  valid : is_valid_message_type (read_le 2 (drop 6 bytes)) ≡ true
  small : read_le 4 (drop 8 bytes) ≤ ipc_max_payload_bytes
  exact : length bytes ≡ header_bytes + read_le 4 (drop 8 bytes)

decode-Accepted :
    (bytes : List ℕ) (frame : IpcFrame)
    → decode_ipc_frame bytes ≡ (no_error, some frame)
    → Accepted bytes × (decoded_frame bytes ≡ frame)
unfolding decode_ipc_frame
decode-Accepted bytes frame e = (ground arith, ground arith)

-- The six fields written out again.
fields-bytes :
    (bytes : List ℕ)
    → All IsByte bytes
    → header_bytes ≤ length bytes
    → le_bytes 4 (read_le 4 bytes)
        ++ (le_bytes 2 (read_le 2 (drop 4 bytes))
            ++ (le_bytes 2 (read_le 2 (drop 6 bytes))
                ++ (le_bytes 4 (read_le 4 (drop 8 bytes))
                    ++ (le_bytes 8 (read_le 8 (drop 12 bytes)) ++ drop header_bytes bytes))))
      ≡ bytes
fields-bytes bytes v h = rw (
  field-bytes 12 8 20 bytes refl v h,
  field-bytes 8 4 12 bytes refl v (omega arith),
  field-bytes 6 2 8 bytes refl v (omega arith),
  field-bytes 4 2 6 bytes refl v (omega arith),
  field-bytes 0 4 4 bytes refl v (omega arith),
)

encode-decoded_frame :
    (bytes : List ℕ)
    → All IsByte bytes
    → Accepted bytes
    → encode_ipc_frame (decoded_frame bytes) ≡ bytes
unfolding encode_ipc_frame
encode-decoded_frame bytes v a =
    let size : length (drop header_bytes bytes) ≡ read_le 4 (drop 8 bytes) =
      omega (arith, length-drop header_bytes bytes, a.exact) in
    rw
      (
        size,
        a.valid,
        le→ltb (read_le 4 (drop 8 bytes)) ipc_max_payload_bytes a.small,
        ← a.magic,
        ← a.version,
      )
      (fields-bytes bytes v a.long)

-- Whatever decodes without error is, byte for byte, the encoding of the frame that it decodes to:
-- no two byte strings decode to one frame.
pub encode-decode :
    (bytes : List ℕ) (frame : IpcFrame)
    → All IsByte bytes
    → decode_ipc_frame bytes ≡ (no_error, some frame)
    → encode_ipc_frame frame ≡ bytes
encode-decode bytes frame v e =
    let (a, same) = decode-Accepted bytes frame e in rw (← same) (encode-decoded_frame bytes v a)
