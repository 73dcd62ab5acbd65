-- ===== src/Websocket/Frame.antt =====
-- src/protocol/websocket/ws_frame.h and ws_frame.cpp: one frame encoded, one frame taken off a
-- buffer. A buffer that a function changes is returned beside its result.
pub mod RoundTrip
pub mod Accepted
pub mod Masking
mod Tests
use esp_modem_link.Common.{
  ℕ, zero, suc, ◌+◌, ◌*◌, ◌/◌, ◌%◌, ◌^◌, ◌<◌, bit_and, bit_or, bit_xor, Bool, true, false, not,
  ◌&&◌, ◌||◌, Option, none, some, List, [], ◌∷◌, ◌++◌,
}
use esp_modem_link.Common.Lists.{Bytes, length, get_or, take, drop}
use esp_modem_link.Common.Tests.{ltb, leb, ◌==◌, if◌then◌else◌}
use esp_modem_link.Error.{NetworkErrc, Result, ok, err, network_error}
use Prim.Native.String.{String}

pub data WsOpcode : Type 0 where
  continuation text binary close ping pong : WsOpcode

-- `static_cast<uint8_t>(opcode)`
abbrev pub opcode_number : WsOpcode → ℕ
opcode_number continuation = 0x0
opcode_number text = 0x1
opcode_number binary = 0x2
opcode_number close = 0x8
opcode_number ping = 0x9
opcode_number pong = 0xa

pub opcode_from_raw : ℕ → Option WsOpcode
opcode_from_raw raw =
    if raw == 0x0
    then some continuation
    else if raw == 0x1
    then some text
    else if raw == 0x2
    then some binary
    else if raw == 0x8
    then some close
    else if raw == 0x9
    then some ping
    else if raw == 0xa
    then some pong
    else none

abbrev pub is_control_opcode : WsOpcode → Bool
is_control_opcode close = true
is_control_opcode ping = true
is_control_opcode pong = true
is_control_opcode _ = false

abbrev pub max_control_payload : ℕ
max_control_payload = 125

-- The payload is always the unmasked bytes.
pub record WsFrame : Type 0 where
  pub fin : Bool
  pub opcode : WsOpcode
  pub payload : Bytes

-- The octets of a number of `n` octets, highest first: `(v >> shift) & 0xFF` for falling shifts.
unfoldable pub big_endian : ℕ → ℕ → Bytes
big_endian zero v = []
big_endian (suc n) v = bit_and (v / 256 ^ n) 0xff ∷ big_endian n v

-- `AppendMasked` from octet `i` on: octet `i` of the payload against octet `i mod 4` of the key.
unfoldable pub masked_from : ℕ → Bytes → Bytes → Bytes
masked_from i mask [] = []
masked_from i mask (c ∷ cs) = bit_xor c (get_or mask (i % 4) 0) ∷ masked_from (i + 1) mask cs

unfoldable pub append_masked : Bytes → Bytes → ℕ → Bytes
append_masked out payload key = out ++ masked_from 0 (big_endian 4 key) payload

-- The second byte and the length octets behind it.
unfoldable pub length_field : ℕ → ℕ → Bytes
length_field mask_bit length =
    if ltb length 126
    then bit_or mask_bit length ∷ []
    else if leb length 0xffff
    then bit_or mask_bit 126 ∷ big_endian 2 length
    else bit_or mask_bit 127 ∷ big_endian 8 length

-- The first byte, and the length field.
unfoldable pub frame_header : WsOpcode → Bool → ℕ → ℕ → Bytes
frame_header opcode fin mask_bit length =
    bit_or (opcode_number opcode) (if fin then 0x80 else 0x00) ∷ length_field mask_bit length

unfoldable pub frame_bytes : WsOpcode → Bytes → Bool → Option ℕ → Bytes
frame_bytes opcode payload fin none = frame_header opcode fin 0x00 (length payload) ++ payload
frame_bytes opcode payload fin (some key) =
    append_masked (frame_header opcode fin 0x80 (length payload) ++ big_endian 4 key) payload key

unfoldable pub encode_frame : WsOpcode → Bytes → Bool → Option ℕ → Result Bytes
unfolding frame_bytes
encode_frame opcode payload fin mask_key =
    if is_control_opcode opcode && not fin
    then err (network_error NetworkErrc.invalid_argument "a control frame cannot be fragmented")
    else if is_control_opcode opcode && ltb max_control_payload (length payload)
    then err (
        network_error NetworkErrc.invalid_argument
          "a control frame cannot carry more than 125 bytes")
    else ok (frame_bytes opcode payload fin mask_key)

-- `WsFrameRead`: its status, with the reason or the frame where the status has one.
pub data WsFrameRead : Type 0 where
  incomplete : WsFrameRead
  ready : WsFrame → WsFrameRead
  invalid : String → WsFrameRead

-- `length = (length << 8) | bytes[i]` over `n` octets, in 64 bits.
pub read_length : ℕ → ℕ → Bytes → ℕ
read_length zero value bytes = value
read_length (suc n) value [] = value
read_length (suc n) value (b ∷ bytes) = read_length n (bit_or (value * 256 % 2 ^ 64) b) bytes

-- `TakeFrame` once the length and the offset of the payload are known.
pub take_payload : Bytes → Bool → WsOpcode → ℕ → ℕ → WsFrameRead × Bytes
take_payload buffer fin opcode length' offset =
    if is_control_opcode opcode && not fin
    then (invalid "a control frame arrived fragmented", buffer)
    else if is_control_opcode opcode && ltb max_control_payload length'
    then (invalid "a control frame carries more than 125 bytes", buffer)
    else if ltb (length buffer) (offset + length')
    then (incomplete, buffer)
    else (
      ready (record { fin = fin; opcode = opcode; payload = take length' (drop offset buffer) }),
      drop (offset + length') buffer,
    )

-- `TakeFrame` from the seven bits of the length on; `rest` is the buffer behind the first two bytes.
pub take_length : Bytes → Bytes → Bool → WsOpcode → ℕ → WsFrameRead × Bytes
take_length buffer rest fin opcode seven =
    if seven == 126
    then (if ltb (length buffer) 4
        then (incomplete, buffer)
        else take_payload buffer fin opcode (bit_or (get_or rest 0 0 * 256) (get_or rest 1 0)) 4)
    else if seven == 127
    then (if ltb (length buffer) 10
        then (incomplete, buffer)
        else if not (bit_and (read_length 8 0 rest) (2 ^ 63) == 0)
        then (invalid "the frame length has its leading bit set", buffer)
        else take_payload buffer fin opcode (read_length 8 0 rest) 10)
    else take_payload buffer fin opcode seven 2

-- `TakeFrame` once the opcode is read, if it is one.
pub take_opcode : Bytes → Bytes → ℕ → ℕ → Option WsOpcode → WsFrameRead × Bytes
take_opcode buffer rest first second none =
    (invalid "the frame header carries a reserved opcode", buffer)
take_opcode buffer rest first second (some opcode) =
    if not (bit_and second 0x80 == 0)
    then (invalid "a frame from the server is masked", buffer)
    else take_length buffer rest (not (bit_and first 0x80 == 0)) opcode (bit_and second 0x7f)

unfoldable pub take_frame : Bytes → WsFrameRead × Bytes
take_frame [] = (incomplete, [])
take_frame (x ∷ []) = (incomplete, x ∷ [])
take_frame (first ∷ second ∷ rest) =
    if not (bit_and first 0x70 == 0)
    then (invalid "a reserved bit is set in the frame header", first ∷ second ∷ rest)
    else take_opcode (first ∷ second ∷ rest) rest first second
        (opcode_from_raw (bit_and first 0x0f))
