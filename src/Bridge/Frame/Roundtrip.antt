-- ===== src/Bridge/Frame/Roundtrip.antt =====
-- A masked client frame, as RFC 6455 lays it out, is read back.
use hibiki_dsp.Base.{
  ℕ, zero, suc, ◌+◌, ◌*◌, ◌/◌, ◌%◌, ◌^◌, ◌-◌, ◌≤◌, ◌<◌, ◌≡◌, ◌⊎◌, ◌∙◌, refl, sym, ap, false, ◌&&◌,
  ◌||◌, List, [], ◌∷◌, ◌++◌, some, ltb, leb, if◌then◌else◌, length, length-append, take, drop,
  get_or, All, Bool-cases, inl, inr, arith,
}
use native.Mathlib.Nat.{pow-suc}
use hibiki_dsp.Base.Bytes.{IsByte}
use hibiki_dsp.Bridge.Frame.{
  decoded, good_length, read_bytes, read_be, read_length, read_payload, is_control, read_limited,
  read_header, read_client_frame,
}
use hibiki_dsp.Bridge.Frame.Xor.{masked, length-masked, unmask-masked}

-- The big-endian bytes of a number.
unfoldable pub be_bytes : ℕ → ℕ → List ℕ
be_bytes zero v = []
be_bytes (suc n) v = be_bytes n (v / 256) ++ (v % 256 ∷ [])

-- The seven bits of the length, and the bytes that extend them, in the shortest form.
abbrev pub short_length : ℕ → ℕ
short_length n = if ltb n 126 then n else if ltb n 65536 then 126 else 127

abbrev pub extended_length : ℕ → List ℕ
extended_length n = if ltb n 126 then [] else if ltb n 65536 then be_bytes 2 n else be_bytes 8 n

-- The whole frame: the final bit and the opcode, the mask bit and the length, the key, the masked payload.
abbrev pub client_frame : ℕ → ℕ → ℕ → ℕ → ℕ → List ℕ → List ℕ
client_frame opcode a b c d payload =
    ((128 + opcode) ∷ (128 + short_length (length payload)) ∷ [])
    ++ (extended_length (length payload) ++ ((a ∷ b ∷ c ∷ d ∷ []) ++ masked a b c d payload))

take_append : (xs ys : List ℕ) → take (length xs) (xs ++ ys) ≡ xs
take_append [] ys = refl
take_append (x ∷ xs) ys = ap (λ zs. x ∷ zs) (take_append xs ys)

drop_append : (xs ys : List ℕ) → drop (length xs) (xs ++ ys) ≡ ys
drop_append [] ys = refl
drop_append (x ∷ xs) ys = drop_append xs ys

-- Bytes that are there are read.
read_bytes-append :
    (n : ℕ) (xs ys : List ℕ) → length xs ≡ n → read_bytes n (xs ++ ys) ≡ some (xs, ys)
read_bytes-append n xs ys h =
    let enough : ltb (length (xs ++ ys)) n ≡ false = ground (arith, length-append xs ys) in
    rw (enough, sym h, take_append xs ys, drop_append xs ys)

length-be_bytes : (n v : ℕ) → length (be_bytes n v) ≡ n
unfolding be_bytes
length-be_bytes zero v = refl
length-be_bytes (suc n) v =
    omega (arith, length-append (be_bytes n (v / 256)) (v % 256 ∷ []), length-be_bytes n (v / 256))

read_be-append :
    (start : ℕ) (xs : List ℕ) (b : ℕ) → read_be start (xs ++ (b ∷ [])) ≡ read_be start xs * 256 + b
unfolding read_be
read_be-append start [] b = refl
read_be-append start (x ∷ xs) b = read_be-append (start * 256 + x) xs b

read_be-be_bytes : (n v : ℕ) → v < 256 ^ n → read_be 0 (be_bytes n v) ≡ v
unfolding read_be be_bytes
read_be-be_bytes zero v h = omega arith
read_be-be_bytes (suc n) v h = omega (
  arith,
  read_be-append 0 (be_bytes n (v / 256)) (v % 256),
  read_be-be_bytes n (v / 256) (omega (arith, pow-suc 256 n)),
)

-- A number below 2 ^ 63 leaves the top bit of its eight bytes clear.
first_byte : (v : ℕ) → v < 2 ^ 63 → leb 128 (get_or (be_bytes 8 v) 0 0) ≡ false
unfolding be_bytes
first_byte v h = ground arith

read_length-short : (n : ℕ) (s : List ℕ) → n < 126 → read_length n s ≡ good_length n s
unfolding read_length
read_length-short n s h = ground arith

read_length-middle :
    (n : ℕ) (s : List ℕ)
    → 126 ≤ n
    → n < 65536
    → read_length 126 (be_bytes 2 n ++ s) ≡ good_length n s
unfolding read_length be_bytes
read_length-middle n s h k =
    rw (read_length, read_bytes-append 2 (be_bytes 2 n) s (length-be_bytes 2 n)) (ground arith)

read_length-long :
    (n : ℕ) (s : List ℕ)
    → 65536 ≤ n
    → n < 2 ^ 63
    → read_length 127 (be_bytes 8 n ++ s) ≡ good_length n s
unfolding read_length
read_length-long n s h k =
    rw
      (
        read_length,
        read_bytes-append 8 (be_bytes 8 n) s (length-be_bytes 8 n),
        first_byte n k,
        read_be-be_bytes 8 n (omega arith),
      )
      (ground arith)

read_length-extended :
    (n : ℕ) (s : List ℕ)
    → n < 2 ^ 63
    → read_length (short_length n) (extended_length n ++ s) ≡ good_length n s
read_length-extended n s h = elim (Bool-cases (ltb n 126)) [
  | inl short ↦ rw short (read_length-short n s (ground arith))
  | inr not_short ↦ elim (Bool-cases (ltb n 65536)) [
    | inl middle ↦ rw (not_short, middle) (read_length-middle n s (ground arith) (ground arith))
    | inr long ↦ rw (not_short, long) (read_length-long n s (ground arith) h)
  ]
]

read_payload-masked :
    (opcode a b c d : ℕ) (payload rest : List ℕ)
    → All IsByte (a ∷ b ∷ c ∷ d ∷ [])
    → All IsByte payload
    → read_payload opcode
        (length payload)
        (((a ∷ b ∷ c ∷ d ∷ []) ++ masked a b c d payload) ++ rest)
      ≡ decoded (record { opcode = opcode; payload = payload }) rest
unfolding read_payload
read_payload-masked opcode a b c d payload rest v w =
    let key = a ∷ b ∷ c ∷ d ∷ [] in
    rw (
      read_payload,
      read_bytes-append 4 key (masked a b c d payload ++ rest) refl,
      read_bytes-append (length payload) (masked a b c d payload) rest
          (length-masked a b c d payload),
      unmask-masked key 0 a b c d payload refl refl refl refl v w,
    )

short_length-lt : (n : ℕ) → short_length n < 128
short_length-lt n = ground arith

header-accepted :
    (max_payload opcode short : ℕ) (stream : List ℕ)
    → opcode < 16
    → short < 128
    → read_header max_payload (128 + opcode) (128 + short) stream
      ≡ read_limited max_payload opcode (read_length short stream)
unfolding read_header
header-accepted max_payload opcode short stream h k =
    let op : (128 + opcode) % 16 ≡ opcode = omega arith in
    let len : (128 + short) % 128 ≡ short = omega arith in
    let reserved : (128 + opcode) / 16 % 8 ≡ 0 = omega arith in
    let final : (128 + opcode) / 128 % 2 ≡ 1 = omega arith in
    let masked : (128 + short) / 128 % 2 ≡ 1 = omega arith in
    rw (read_header, op, len, reserved, final, masked)
      (elim (Bool-cases (is_control opcode)) [ inl e ↦ rw e | inr e ↦ rw e ])

limits-accepted :
    (max_payload opcode count : ℕ) (stream : List ℕ)
    → count ≤ max_payload
    → count < 2 ^ 63
    → (opcode < 8) ⊎ (count ≤ 125)
    → read_limited max_payload opcode (good_length count stream) ≡ read_payload opcode count stream
unfolding read_limited
limits-accepted max_payload opcode count stream h k control =
    let short : (is_control opcode && ltb 125 count) ≡ false = ground arith in
    let fits : (ltb max_payload count || ltb (2 ^ 64 - 1) count) ≡ false = ground arith in
    rw (read_limited, short, fits)

length_regroup :
    (a b : ℕ) (xs ys zs : List ℕ)
    → ((a ∷ b ∷ []) ++ (xs ++ ys)) ++ zs ≡ (a ∷ b ∷ []) ++ (xs ++ (ys ++ zs))
length_regroup a b [] ys zs = refl
length_regroup a b (x ∷ xs) ys zs = ap (λ ws. a ∷ b ∷ ws) (rest (x ∷ xs))
  where
    rest : (ws : List ℕ) → (ws ++ ys) ++ zs ≡ ws ++ (ys ++ zs)
    rest [] = refl
    rest (w ∷ ws) = ap (λ us. w ∷ us) (rest ws)

header-read :
    (max_payload first second : ℕ) (stream : List ℕ)
    → read_client_frame max_payload (first ∷ second ∷ stream)
      ≡ read_header max_payload first second stream
unfolding read_client_frame
header-read max_payload first second stream =
    let enough : ltb (length (first ∷ second ∷ stream)) 2 ≡ false = ground arith in
    rw (read_client_frame, enough)

-- A frame with an opcode of four bits, a masking key of four octets and a payload of bytes that is not longer
-- than the limit, and for a control frame than 125, laid out as RFC 6455 says, with the shortest form of the
-- length and octet i of the payload masked with octet i modulo 4 of the key, is read as that opcode and payload,
-- and the stream is left behind the frame.
pub read_client_frame-client_frame :
    (max_payload opcode a b c d : ℕ) (payload rest : List ℕ)
    → opcode < 16
    → All IsByte (a ∷ b ∷ c ∷ d ∷ [])
    → All IsByte payload
    → length payload ≤ max_payload
    → length payload < 2 ^ 63
    → (opcode < 8) ⊎ (length payload ≤ 125)
    → read_client_frame max_payload (client_frame opcode a b c d payload ++ rest)
      ≡ decoded (record { opcode = opcode; payload = payload }) rest
read_client_frame-client_frame max_payload opcode a b c d payload rest small v w fits long control =
    let sent = (a ∷ b ∷ c ∷ d ∷ []) ++ masked a b c d payload in
    let body = sent ++ rest in
    let count = length payload in
    ap (read_client_frame max_payload)
      (length_regroup (128 + opcode) (128 + short_length count) (extended_length count) sent rest)
    ∙ header-read max_payload (128 + opcode) (128 + short_length count)
        (extended_length count ++ body)
    ∙ header-accepted max_payload opcode (short_length count) (extended_length count ++ body) small
        (short_length-lt count)
    ∙ ap (read_limited max_payload opcode) (read_length-extended count body long)
    ∙ limits-accepted max_payload opcode count body fits long control
    ∙ read_payload-masked opcode a b c d payload rest v w
