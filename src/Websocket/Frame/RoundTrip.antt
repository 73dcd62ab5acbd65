-- ===== src/Websocket/Frame/RoundTrip.antt =====
-- `TakeFrame` reads back what `EncodeFrame` wrote without a mask.
use esp_modem_link.Common.{
  ℕ, zero, suc, ◌*◌, ◌/◌, ◌%◌, ◌^◌, ◌≤◌, ◌<◌, bit_and, bit_or, Bool, true, false, not, ◌&&◌, Option,
  none, some, [], ◌∷◌, ◌++◌, append_assoc, arith, ◌≡◌, refl, sym, ap, ◌∙◌,
}
use esp_modem_link.Common.Bits.{low_byte, low_seven, top_bit, zero-bit_or, shift_or, bit_and-pow}
use esp_modem_link.Common.Lists.{
  Bytes, length, length-append, take-append_length, drop-append_length,
}
use esp_modem_link.Common.Tests.{ltb, lt→ltb, ◌==◌, if◌then◌else◌}
use esp_modem_link.Error.{ok}
use esp_modem_link.Websocket.Frame.{
  WsOpcode, continuation, opcode_number, opcode_from_raw, is_control_opcode, max_control_payload,
  big_endian, length_field, frame_header, frame_bytes, encode_frame, ready, read_length,
  take_payload, take_length, take_opcode, take_frame,
}
use native.Mathlib.Decide.{dec_lt, dec_le}
use native.Mathlib.Nat.{div-div-eq-div-mul, div-le_self, pow-suc}

-- The first byte of a frame.
abbrev pub flag_byte : WsOpcode → Bool → ℕ
flag_byte opcode fin = bit_or (opcode_number opcode) (if fin then 0x80 else 0x00)

pub read_flag_byte :
    (opcode : WsOpcode) (fin : Bool)
    → (not (bit_and (flag_byte opcode fin) 0x70 == 0) ≡ false)
      × (opcode_from_raw (bit_and (flag_byte opcode fin) 0x0f) ≡ some opcode)
      × (not (bit_and (flag_byte opcode fin) 0x80 == 0) ≡ fin)
unfolding opcode_from_raw
read_flag_byte continuation true = (refl, refl, refl)
read_flag_byte continuation false = (refl, refl, refl)
read_flag_byte _ true = (refl, refl, refl)
read_flag_byte _ false = (refl, refl, refl)

-- Up to the length field, which says `seven`.
take_frame_start :
    (opcode : WsOpcode) (fin : Bool) (seven : ℕ) (rest : Bytes)
    → seven < 128
    → take_frame (flag_byte opcode fin ∷ seven ∷ rest)
      ≡ take_length (flag_byte opcode fin ∷ seven ∷ rest) rest fin opcode seven
unfolding take_frame take_opcode
take_frame_start opcode fin seven rest h =
    let (reserved, code, final) = read_flag_byte opcode fin in
    let unmasked : bit_and seven 0x80 ≡ 0 = omega (arith, top_bit seven (omega arith)) in
    let low : bit_and seven 0x7f ≡ seven = omega (arith, low_seven seven (omega arith)) in
    rw (reserved, code, take_opcode, unmasked, low, final)

-- What `EncodeFrame` accepts.
abbrev pub IsSendable : WsOpcode → Bytes → Bool → Type 0
IsSendable opcode payload fin =
    (is_control_opcode opcode && not fin ≡ false)
    × (is_control_opcode opcode && ltb max_control_payload (length payload) ≡ false)

-- The payload is taken from behind a head of `offset` bytes.
take_payload_ready :
    (head payload rest : Bytes) (opcode : WsOpcode) (fin : Bool) (offset : ℕ)
    → IsSendable opcode payload fin
    → offset ≡ length head
    → take_payload (head ++ (payload ++ rest)) fin opcode (length payload) offset
      ≡ (ready (record { fin = fin; opcode = opcode; payload = payload }), rest)
unfolding take_payload
take_payload_ready head payload rest opcode fin offset (whole, short) e =
    rw (e, whole, short, drop-append_length head (payload ++ rest), take-append_length payload rest)
      (ground (
        arith,
        length-append head (payload ++ rest),
        length-append payload rest,
        rw (append_assoc head payload rest, length-append head payload) at
            (drop-append_length (head ++ payload) rest),
      ))

-- One octet of a length: `(length << 8) | byte` gives back the next digit.
read_octet :
    (v n : ℕ)
    → v < 2 ^ 64
    → bit_or (v / 256 ^ suc n * 256 % 2 ^ 64) (bit_and (v / 256 ^ n) 0xff) ≡ v / 256 ^ n
read_octet v n h =
    let q = v / 256 ^ n in
    let digits : v / 256 ^ suc n ≡ q / 256 =
      ap (λ (t : ℕ). v / t) (pow-suc 256 n) ∙ sym (div-div-eq-div-mul v (256 ^ n) 256) in
    let room : q / 256 * 256 % 2 ^ 64 ≡ q / 256 * 256 = omega (arith, div-le_self v (256 ^ n)) in
    rw (digits, low_byte q, room) (omega (arith, shift_or (q / 256) (q % 256) (omega arith)))

read_length-big_endian :
    (n v : ℕ) (rest : Bytes) → v < 2 ^ 64 → read_length n (v / 256 ^ n) (big_endian n v ++ rest) ≡ v
unfolding read_length big_endian
read_length-big_endian zero v rest h = omega arith
read_length-big_endian (suc n) v rest h = rw (read_octet v n h) (read_length-big_endian n v rest h)

pub length-big_endian : (n v : ℕ) → length (big_endian n v) ≡ n
unfolding big_endian
length-big_endian zero v = refl
length-big_endian (suc n) v = ap suc (length-big_endian n v)

-- The three forms of the length.
take_length_short :
    (opcode : WsOpcode) (fin : Bool) (payload rest : Bytes)
    → IsSendable opcode payload fin
    → length payload < 126
    → take_frame (flag_byte opcode fin ∷ length payload ∷ (payload ++ rest))
      ≡ (ready (record { fin = fin; opcode = opcode; payload = payload }), rest)
take_length_short opcode fin payload rest ok_to_send h =
    take_frame_start opcode fin (length payload) (payload ++ rest) (omega arith)
    ∙ unfold take_length in
      ground (
        arith,
        take_payload_ready (flag_byte opcode fin ∷ length payload ∷ []) payload rest opcode fin 2
            ok_to_send refl,
      )

take_length_16 :
    (opcode : WsOpcode) (fin : Bool) (payload rest : Bytes)
    → IsSendable opcode payload fin
    → length payload ≤ 0xffff
    → take_frame (flag_byte opcode fin ∷ 126 ∷ (big_endian 2 (length payload) ++ (payload ++ rest)))
      ≡ (ready (record { fin = fin; opcode = opcode; payload = payload }), rest)
take_length_16 opcode fin payload rest ok_to_send h =
    let n = length payload in
    let word : bit_or (bit_and (n / 256) 0xff * 256) (bit_and (n / 1) 0xff) ≡ n =
      rw (low_byte (n / 256), low_byte (n / 1))
        (omega (arith, shift_or (n / 256 % 256) (n / 1 % 256) (omega arith))) in
    take_frame_start opcode fin 126 (big_endian 2 n ++ (payload ++ rest)) (omega arith)
    ∙ unfold take_length big_endian in
      rw word (
        ground (
          arith,
          take_payload_ready
              (flag_byte opcode fin ∷ 126 ∷ bit_and (n / 256) 0xff ∷ bit_and (n / 1) 0xff ∷ [])
              payload rest opcode fin 4 ok_to_send refl,
        ))

take_length_64 :
    (opcode : WsOpcode) (fin : Bool) (payload rest : Bytes)
    → IsSendable opcode payload fin
    → length payload < 2 ^ 63
    → take_frame (flag_byte opcode fin ∷ 127 ∷ (big_endian 8 (length payload) ++ (payload ++ rest)))
      ≡ (ready (record { fin = fin; opcode = opcode; payload = payload }), rest)
take_length_64 opcode fin payload rest ok_to_send h =
    let n = length payload in
    let head = flag_byte opcode fin ∷ 127 ∷ big_endian 8 n in
    let top : n / 256 ^ 8 ≡ 0 = omega arith in
    let read : read_length 8 0 (big_endian 8 n ++ (payload ++ rest)) ≡ n =
      rw top at (read_length-big_endian 8 n (payload ++ rest) (omega arith)) in
    let clear : bit_and n (2 ^ 63) ≡ 0 = omega (arith, bit_and-pow 63 n) in
    take_frame_start opcode fin 127 (big_endian 8 n ++ (payload ++ rest)) (omega arith)
    ∙ unfold take_length in
      rw (read, clear)
        (ground (
          arith,
          length-append (big_endian 8 n) (payload ++ rest),
          length-big_endian 8 n,
          take_payload_ready head payload rest opcode fin 10 ok_to_send
              (omega (arith, length-big_endian 8 n)),
        ))

-- `EncodeFrame` succeeds on what it accepts, and on nothing else.
pub encode_frame_ok :
    (opcode : WsOpcode) (payload : Bytes) (fin : Bool) (key : Option ℕ) (bytes : Bytes)
    → encode_frame opcode payload fin key ≡ ok bytes
    → IsSendable opcode payload fin × (frame_bytes opcode payload fin key ≡ bytes)
unfolding encode_frame
encode_frame_ok opcode payload fin none bytes e = ground arith
encode_frame_ok opcode payload fin (some key) bytes e = ground arith

pub take_frame_bytes :
    (opcode : WsOpcode) (payload : Bytes) (fin : Bool) (rest : Bytes)
    → IsSendable opcode payload fin
    → length payload < 2 ^ 63
    → take_frame (frame_bytes opcode payload fin none ++ rest)
      ≡ (ready (record { fin = fin; opcode = opcode; payload = payload }), rest)
unfolding frame_bytes frame_header length_field
take_frame_bytes opcode payload fin rest able h = elim (dec_lt (length payload) 126) [
  | yes short ↦
      rw (lt→ltb (length payload) 126 short, zero-bit_or (length payload))
        (take_length_short opcode fin payload rest able short)
  | no long ↦ elim (dec_le (length payload) 0xffff) [
    | yes two ↦ ground (
      arith,
      append_assoc (big_endian 2 (length payload)) payload rest,
      take_length_16 opcode fin payload rest able two,
    )
    | no eight ↦ ground (
      arith,
      append_assoc (big_endian 8 (length payload)) payload rest,
      take_length_64 opcode fin payload rest able h,
    )
  ]
]

-- A frame of a server, as `EncodeFrame` writes it for a payload below 2 ^ 63 bytes, is taken off the
-- buffer whole and unchanged, in each of the three forms of the length, and the bytes behind it stay.
pub take_frame-encode_frame :
    (opcode : WsOpcode) (payload : Bytes) (fin : Bool) (bytes rest : Bytes)
    → encode_frame opcode payload fin none ≡ ok bytes
    → length payload < 2 ^ 63
    → take_frame (bytes ++ rest)
      ≡ (ready (record { fin = fin; opcode = opcode; payload = payload }), rest)
take_frame-encode_frame opcode payload fin bytes rest e h =
    let (able, made) = encode_frame_ok opcode payload fin none bytes e in
    rw (← made) (take_frame_bytes opcode payload fin rest able h)
