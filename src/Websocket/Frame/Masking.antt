-- ===== src/Websocket/Frame/Masking.antt =====
-- The masking of client frames in `EncodeFrame`, and the refusal of masked frames by `TakeFrame`.
use Prim.Native.String.{String}
use esp_modem_link.Common.{
  ℕ, zero, suc, ◌+◌, ◌*◌, ◌/◌, ◌%◌, ◌^◌, ◌<◌, bit_and, bit_or, bit_xor, Bool, true, some, [], ◌∷◌,
  ◌++◌, append_assoc, arith, ◌≡◌, refl, sym, ap₂, ◌∙◌,
}
use esp_modem_link.Common.Bits.{all_below, all_below_sound, agree_below, low_byte}
use esp_modem_link.Common.Lists.{Bytes, IsByte, length, get_or, All}
use esp_modem_link.Common.Tests.{lt→ltb, ◌==◌, ==_iff}
use esp_modem_link.Error.{ok}
use esp_modem_link.Websocket.Frame.{
  WsOpcode, invalid, take_opcode, length_field, big_endian, masked_from, append_masked,
  frame_header, frame_bytes, encode_frame, take_frame,
}
use esp_modem_link.Websocket.Frame.RoundTrip.{encode_frame_ok, flag_byte, read_flag_byte}
use native.Mathlib.Decide.{dec_lt, dec_le}

-- The exclusive or of two bytes, applied twice, for all pairs of bytes.
xor_table : all_below 65536 (λ x. bit_xor (bit_xor (x / 256) (x % 256)) (x % 256) == x / 256) ≡ true
unfolding all_below
xor_table = refl

xor_twice : (a k : ℕ) → a < 256 → k < 256 → bit_xor (bit_xor a k) k ≡ a
xor_twice a k ha hk =
    let x = a * 256 + k in
    let high : x / 256 ≡ a = omega arith in
    let low : x % 256 ≡ k = omega arith in
    rw (high, low) at
      ((==_iff _ _).0 (
        all_below_sound 65536 (λ x. bit_xor (bit_xor (x / 256) (x % 256)) (x % 256) == x / 256) x
          (omega arith) xor_table))

-- Unmasking is masking: a second pass under the same key, from the same octet on, undoes the first.
masked_from_twice :
    (i : ℕ) (mask s : Bytes)
    → ((j : ℕ) → get_or mask j 0 < 256)
    → All IsByte s
    → masked_from i mask (masked_from i mask s) ≡ s
unfolding masked_from
masked_from_twice i mask [] hm h = refl
masked_from_twice i mask (c ∷ cs) hm (hc, hs) =
    ap₂ ◌∷◌ (xor_twice c (get_or mask (i % 4) 0) hc (hm (i % 4)))
      (masked_from_twice (i + 1) mask cs hm hs)

get_or-big_endian : (n v j : ℕ) → get_or (big_endian n v) j 0 < 256
unfolding big_endian
get_or-big_endian zero v j = omega arith
get_or-big_endian (suc n) v zero = omega (arith, low_byte (v / 256 ^ n))
get_or-big_endian (suc n) v (suc j) = get_or-big_endian n v j

-- The second byte of a client frame has the mask bit.
second_byte : (n : ℕ) → n < 128 → bit_and (bit_or 0x80 n) 0x80 ≡ 0x80
unfolding all_below
second_byte = agree_below (λ x. bit_and (bit_or 0x80 x) 0x80) (λ x. 0x80) 128 refl

-- A client frame: the header, the key in network order, and the masked payload, from which a second
-- pass under the key gives the payload back.
pub record ClientFrame (opcode : WsOpcode) (payload : Bytes) (fin : Bool) (key : ℕ) (bytes : Bytes)
    : Type 0 where
  pub masked : Bytes
  pub layout : bytes ≡ frame_header opcode fin 0x80 (length payload) ++ (big_endian 4 key ++ masked)
  pub unmasks : masked_from 0 (big_endian 4 key) masked ≡ payload

-- What `EncodeFrame` writes under a key is a client frame with that key, for every payload.
encode_frame-ClientFrame :
    (opcode : WsOpcode) (payload : Bytes) (fin : Bool) (key : ℕ) (bytes : Bytes)
    → All IsByte payload
    → encode_frame opcode payload fin (some key) ≡ ok bytes
    → ClientFrame opcode payload fin key bytes
unfolding frame_bytes append_masked
encode_frame-ClientFrame opcode payload fin key bytes h e =
    let (able, made) = encode_frame_ok opcode payload fin (some key) bytes e in
    record {
      masked = masked_from 0 (big_endian 4 key) payload;
      layout =
          sym made
          ∙ append_assoc (frame_header opcode fin 0x80 (length payload)) (big_endian 4 key)
              (masked_from 0 (big_endian 4 key) payload);
      unmasks = masked_from_twice 0 (big_endian 4 key) payload (get_or-big_endian 4 key) h;
    }

abbrev pub masked_reason : String
masked_reason = "a frame from the server is masked"

take_frame_second :
    (opcode : WsOpcode) (fin : Bool) (second : ℕ) (rest : Bytes)
    → bit_and second 0x80 ≡ 0x80
    → take_frame (flag_byte opcode fin ∷ second ∷ rest)
      ≡ (invalid masked_reason, flag_byte opcode fin ∷ second ∷ rest)
unfolding take_frame take_opcode
take_frame_second opcode fin second rest h =
    let (reserved, code, final) = read_flag_byte opcode fin in rw (reserved, code, take_opcode, h)

length_field-masked :
    (n : ℕ)
    → (second : ℕ) × (more : Bytes) × (length_field 0x80 n ≡ second ∷ more)
      × (bit_and second 0x80 ≡ 0x80)
unfolding length_field
length_field-masked n = elim (dec_lt n 126) [
  | yes short ↦ (bit_or 0x80 n, [], rw (lt→ltb n 126 short), second_byte n (omega arith))
  | no long ↦ elim (dec_le n 0xffff) [
    | yes two ↦ (254, big_endian 2 n, ground arith, refl)
    | no eight ↦ (255, big_endian 8 n, ground arith, refl)
  ]
]

-- A frame that `EncodeFrame` wrote under a key is one that `TakeFrame` refuses: a client that is sent
-- its own frame fails the connection, and no byte is erased.
take_frame-masked :
    (opcode : WsOpcode) (payload : Bytes) (fin : Bool) (key : ℕ) (bytes rest : Bytes)
    → encode_frame opcode payload fin (some key) ≡ ok bytes
    → take_frame (bytes ++ rest) ≡ (invalid masked_reason, bytes ++ rest)
unfolding frame_bytes append_masked frame_header
take_frame-masked opcode payload fin key bytes rest e =
    let (able, made) = encode_frame_ok opcode payload fin (some key) bytes e in
    let (second, more, field, bit) = length_field-masked (length payload) in
    rw (← made) (rw field (take_frame_second opcode fin second _ bit))
