-- ===== src/Tests/Pipe.antt =====
-- Frames, texts and command queues.
use hibiki_dsp.Base.{
  ℕ, ◌≡◌, ◌≤◌, refl, ◌↔◌, true, List, [], ◌∷◌, ◌++◌, none, some, arith, length, take, All,
  if◌then◌else◌, ltb,
}
use hibiki_dsp.Base.Bytes.{IsByte, le_bytes}
use hibiki_dsp.Ipc.{
  IpcFrame, no_error, truncated, length_mismatch, header_bytes, is_valid_message_type,
  encode_ipc_frame, decode_ipc_frame, ipc_magic, ipc_version,
}
use hibiki_dsp.Ipc.Codec.{decode-encode, encode-decode}
use hibiki_dsp.Ipc.Stream.{IsSendable, decode-take, decode-append}
use hibiki_dsp.CommandQueue.{new_queue, capacity}
use hibiki_dsp.CommandQueue.Fifo.{
  replies, spec_replies, push, pop, clear, Call, replies-refine, new_queue-Holds,
}
use hibiki_dsp.CommandQueue.Threads.{
  Event, begin_push, producer_step, begin_pop, consumer_step, start, run, step, call_push, call_pop,
  move_producer, move_consumer,
}
use hibiki_dsp.CommandQueue.Order.{received_in_order}
use hibiki_dsp.Utf8.{is_printable_utf8}
use hibiki_dsp.Utf8.Spec.{encode_all, IsPrintable}
use hibiki_dsp.Utf8.Correct.{is_printable_utf8_iff}

-- A graph commit with a payload of two bytes.
abbrev frame : IpcFrame
frame = record {
  header = record {
    magic = ipc_magic;
    version = ipc_version;
    type_value = 4;
    payload_bytes = 2;
    request_id = 7;
  };
  payload = 10 ∷ 20 ∷ [];
}

abbrev frame_bytes : List ℕ
frame_bytes =
    0x48 ∷ 0x49 ∷ 0x4B ∷ 0x31 ∷ 1 ∷ 0 ∷ 4 ∷ 0 ∷ 2 ∷ 0 ∷ 0 ∷ 0 ∷ 7 ∷ 0 ∷ 0 ∷ 0 ∷ 0 ∷ 0 ∷ 0 ∷ 0 ∷ 10
    ∷ 20 ∷ []

frame-valid : is_valid_message_type 4 ≡ true
unfolding is_valid_message_type
frame-valid = ground arith

encode-frame : encode_ipc_frame frame ≡ frame_bytes
unfolding encode_ipc_frame is_valid_message_type le_bytes
encode-frame = refl

frame-IsSendable : IsSendable frame
frame-IsSendable = record {
  valid = frame-valid;
  type_fits = omega arith;
  id_fits = omega arith;
  size_fits = omega arith;
}

decode-encode_example : decode_ipc_frame (encode_ipc_frame frame) ≡ (no_error, some frame)
decode-encode_example = decode-encode frame frame-valid (omega arith) (omega arith) (omega arith)

frame-IsByte : All IsByte frame_bytes
frame-IsByte = ground arith

decode-frame : decode_ipc_frame frame_bytes ≡ (no_error, some frame)
decode-frame = rw (← encode-frame) decode-encode_example

encode-decode_example : encode_ipc_frame frame ≡ frame_bytes
encode-decode_example = encode-decode frame_bytes frame frame-IsByte decode-frame

decode-take_example :
    decode_ipc_frame (take 21 (encode_ipc_frame frame))
    ≡ (if ltb 21 header_bytes then truncated else length_mismatch, none)
decode-take_example = decode-take frame 21 frame-IsSendable (rw encode-frame (omega arith))

decode-append_example :
    decode_ipc_frame (encode_ipc_frame frame ++ (1 ∷ [])) ≡ (length_mismatch, none)
decode-append_example = decode-append frame (1 ∷ []) frame-IsSendable (omega arith)

abbrev calls : List (Call {A = ℕ} 0)
calls = push 5 ∷ push 6 ∷ pop ∷ clear ∷ pop ∷ []

replies-refine_example : replies 0 (new_queue 0) calls ≡ spec_replies 0 [] calls
replies-refine_example = replies-refine 0 calls (new_queue 0) [] (new_queue-Holds 0)

-- One item sent and received, the two calls interleaved.
abbrev events : List (Event ℕ)
events =
    begin_push 5
    ∷ begin_pop
    ∷ producer_step
    ∷ producer_step
    ∷ producer_step
    ∷ consumer_step
    ∷ consumer_step
    ∷ consumer_step
    ∷ []

run-events : (run 0 (start 0) events).received ≡ 5 ∷ []
unfolding run start step call_push call_pop move_producer move_consumer
run-events = refl

received_in_order_example :
    let s = run 0 (start 0) events in
    (pending : List ℕ) × (s.sent ≡ s.received ++ pending) × (length pending ≤ capacity)
received_in_order_example = received_in_order 0 events

-- The text "ä", and an overlong form of "/".
is_printable_utf8_iff_example :
    (is_printable_utf8 (0xC3 ∷ 0xA4 ∷ []) ≡ true)
    ↔ ((cs : List ℕ) × All IsPrintable cs × (encode_all cs ≡ 0xC3 ∷ 0xA4 ∷ []))
is_printable_utf8_iff_example = is_printable_utf8_iff (0xC3 ∷ 0xA4 ∷ [])
