-- ===== src/Ipc.antt =====
-- src/hub/include/hibiki/ipc.hpp and src/hub/src/ipc.cpp: the frames of the control pipe.
pub mod Codec
pub mod Stream
use hibiki_dsp.Base.{
  ℕ, ◌+◌, ◌*◌, ◌-◌, ◌≡◌, Bool, false, ◌||◌, List, [], ◌∷◌, ◌++◌, Option, none, some, ltb, ◌==◌, not,
  if◌then◌else◌, length, drop,
}
use hibiki_dsp.Base.Bytes.{le_bytes, read_le}

abbrev pub ipc_magic : ℕ
ipc_magic = 0x314B4948

abbrev pub ipc_version : ℕ
ipc_version = 1

abbrev pub ipc_max_payload_bytes : ℕ
ipc_max_payload_bytes = 1024 * 1024

abbrev pub header_bytes : ℕ
header_bytes = 20

-- The enumerators of `IpcMessageType`, in order.
pub data IpcMessageType : Type 0 where
  hello volume_notification graph_prepare graph_commit graph_rollback : IpcMessageType
  ack error scene_apply device_switch : IpcMessageType
  device_catalog_snapshot device_catalog_request : IpcMessageType
  control_status_snapshot control_status_request : IpcMessageType
  session_catalog_snapshot session_catalog_request : IpcMessageType
  session_volume_command session_route_command session_route_rule_command : IpcMessageType
  ir_prepare_command scene_catalog_command : IpcMessageType
  eq_visual_snapshot_request eq_visual_snapshot calibration_peq_prepare : IpcMessageType

-- The underlying value of an enumerator.
abbrev pub type_code : IpcMessageType → ℕ
type_code hello = 1
type_code volume_notification = 2
type_code graph_prepare = 3
type_code graph_commit = 4
type_code graph_rollback = 5
type_code ack = 6
type_code error = 7
type_code scene_apply = 8
type_code device_switch = 9
type_code device_catalog_snapshot = 10
type_code device_catalog_request = 11
type_code control_status_snapshot = 12
type_code control_status_request = 13
type_code session_catalog_snapshot = 14
type_code session_catalog_request = 15
type_code session_volume_command = 16
type_code session_route_command = 17
type_code session_route_rule_command = 18
type_code ir_prepare_command = 19
type_code scene_catalog_command = 20
type_code eq_visual_snapshot_request = 21
type_code eq_visual_snapshot = 22
type_code calibration_peq_prepare = 23

-- The cases of the switch in `is_valid_message_type`.
abbrev pub message_types : List IpcMessageType
message_types =
    hello ∷ volume_notification ∷ graph_prepare ∷ graph_commit ∷ graph_rollback ∷ ack ∷ error
    ∷ scene_apply ∷ device_switch ∷ device_catalog_snapshot ∷ device_catalog_request
    ∷ control_status_snapshot ∷ control_status_request ∷ session_catalog_snapshot
    ∷ session_catalog_request ∷ session_volume_command ∷ session_route_command
    ∷ session_route_rule_command ∷ ir_prepare_command ∷ scene_catalog_command
    ∷ eq_visual_snapshot_request ∷ eq_visual_snapshot ∷ calibration_peq_prepare ∷ []

-- The type field of a header is the underlying value, since a `static_cast` from the wire makes any.
any_case : ℕ → List IpcMessageType → Bool
any_case code [] = false
any_case code (t ∷ ts) = (code == type_code t) || any_case code ts

unfoldable pub is_valid_message_type : ℕ → Bool
unfolding any_case
is_valid_message_type code = any_case code message_types

pub record IpcHeader : Type 0 where
  pub magic : ℕ
  pub version : ℕ
  pub type_value : ℕ
  pub payload_bytes : ℕ
  pub request_id : ℕ

pub record IpcFrame : Type 0 where
  pub header : IpcHeader
  pub payload : List ℕ

pub data IpcDecodeError : Type 0 where
  no_error truncated invalid_magic unsupported_version invalid_type : IpcDecodeError
  oversized_payload length_mismatch : IpcDecodeError

-- The empty vector is the refusal.
unfoldable pub encode_ipc_frame : IpcFrame → List ℕ
encode_ipc_frame frame =
    if ltb ipc_max_payload_bytes (length frame.payload)
      || not (is_valid_message_type frame.header.type_value)
    then []
    else le_bytes 4 ipc_magic
      ++ (le_bytes 2 ipc_version
          ++ (le_bytes 2 frame.header.type_value
              ++ (le_bytes 4 (length frame.payload)
                  ++ (le_bytes 8 frame.header.request_id ++ frame.payload))))

-- The `error` out-parameter, and the result.
abbrev pub Decoded : Type 0
Decoded = IpcDecodeError × Option IpcFrame

-- The frame built once all checks have passed.
abbrev pub decoded_frame : List ℕ → IpcFrame
decoded_frame bytes = record {
  header = record {
    magic = ipc_magic;
    version = ipc_version;
    type_value = read_le 2 (drop 6 bytes);
    payload_bytes = read_le 4 (drop 8 bytes);
    request_id = read_le 8 (drop 12 bytes);
  };
  payload = drop header_bytes bytes;
}

unfoldable pub decode_ipc_frame : List ℕ → Decoded
decode_ipc_frame bytes =
    if ltb (length bytes) header_bytes
    then (truncated, none)
    else if not (read_le 4 bytes == ipc_magic)
    then (invalid_magic, none)
    else if not (read_le 2 (drop 4 bytes) == ipc_version)
    then (unsupported_version, none)
    else if not (is_valid_message_type (read_le 2 (drop 6 bytes)))
    then (invalid_type, none)
    else if ltb ipc_max_payload_bytes (read_le 4 (drop 8 bytes))
    then (oversized_payload, none)
    else if not (length bytes - header_bytes == read_le 4 (drop 8 bytes))
    then (length_mismatch, none)
    else (no_error, some (decoded_frame bytes))
