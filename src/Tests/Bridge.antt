-- ===== src/Tests/Bridge.antt =====
-- A frame of the bridge.
use hibiki_dsp.Base.{ℕ, ◌≡◌, ◌++◌, refl, inr, List, [], ◌∷◌, arith}
use hibiki_dsp.Bridge.Frame.{
  WsFrame, decoded, refused, reserved_bits_set, read_client_frame, read_header, read_length,
  read_limited, read_payload, unmask,
}
use hibiki_dsp.Bridge.Frame.Xor.{masked}
use hibiki_dsp.Bridge.Frame.Roundtrip.{client_frame, read_client_frame-client_frame}
use hibiki_dsp.Bridge.Frame.Bounds.{IsBounded, read_client_frame-IsBounded}

-- A ping with "Hi" under a mask.
abbrev ping : List ℕ
ping = 0x89 ∷ 0x82 ∷ 1 ∷ 2 ∷ 3 ∷ 4 ∷ 73 ∷ 107 ∷ []

abbrev hi : WsFrame
hi = record { opcode = 9; payload = 72 ∷ 105 ∷ [] }

ping-frame : client_frame 9 1 2 3 4 (72 ∷ 105 ∷ []) ≡ ping
unfolding masked
ping-frame = refl

ping-read : read_client_frame 100 ping ≡ decoded hi []
unfolding read_client_frame read_header read_length read_limited read_payload unmask
ping-read = refl

-- A frame that is not final is refused as if a reserved bit were set.
not_final : read_client_frame 100 (0x02 ∷ 0x80 ∷ 0 ∷ 0 ∷ 0 ∷ 0 ∷ []) ≡ refused reserved_bits_set
unfolding read_client_frame read_header
not_final = refl

read_client_frame-client_frame_example :
    read_client_frame 100 (client_frame 9 1 2 3 4 (72 ∷ 105 ∷ []) ++ (7 ∷ [])) ≡ decoded hi (7 ∷ [])
read_client_frame-client_frame_example =
    read_client_frame-client_frame 100 9 1 2 3 4 (72 ∷ 105 ∷ []) (7 ∷ []) (omega arith)
      (omega arith, (omega arith, (omega arith, (omega arith, tt))))
      (omega arith, (omega arith, tt)) (omega arith) (omega arith) (inr (omega arith))

read_client_frame-IsBounded_example : IsBounded 100 hi
read_client_frame-IsBounded_example = read_client_frame-IsBounded 100 ping [] hi ping-read
