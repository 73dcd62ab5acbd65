-- ===== src/Mqtt/Packet.antt =====
-- src/protocol/mqtt/mqtt_packet.h and mqtt_packet.cpp: the wire format of MQTT control packets.
-- A `std::string` is the list of its bytes. Functions that change a buffer or an offset return it.
pub mod Lengths
pub mod Flags
pub mod Stream
pub mod Messages
mod Tests
use esp_modem_link.Common.{
  ℕ, zero, suc, ◌+◌, ◌*◌, ◌/◌, ◌%◌, ◌<◌, bit_and, bit_or, Bool, true, false, not, ◌&&◌, ◌||◌,
  Option, none, some, List, [], ◌∷◌, ◌++◌,
}
use esp_modem_link.Common.Lists.{Bytes, codes, length, get_or, take, drop}
use esp_modem_link.Common.Tests.{ltb, leb, ◌==◌, if◌then◌else◌, ◌>>=◌}

-- `enum class MqttPacketType : uint8_t` holds any byte; these are its named values.
abbrev pub MqttPacketType : Type 0
MqttPacketType = ℕ

abbrev pub connect : MqttPacketType
connect = 1

abbrev pub connack : MqttPacketType
connack = 2

abbrev pub publish : MqttPacketType
publish = 3

abbrev pub puback : MqttPacketType
puback = 4

abbrev pub pubrec : MqttPacketType
pubrec = 5

abbrev pub pubrel : MqttPacketType
pubrel = 6

abbrev pub pubcomp : MqttPacketType
pubcomp = 7

abbrev pub subscribe : MqttPacketType
subscribe = 8

abbrev pub suback : MqttPacketType
suback = 9

abbrev pub unsubscribe : MqttPacketType
unsubscribe = 10

abbrev pub unsuback : MqttPacketType
unsuback = 11

abbrev pub pingreq : MqttPacketType
pingreq = 12

abbrev pub pingresp : MqttPacketType
pingresp = 13

abbrev pub disconnect : MqttPacketType
disconnect = 14

pub record MqttFixedHeader : Type 0 where
  pub type : MqttPacketType
  pub dup : Bool
  pub qos : ℕ
  pub retain : Bool
  pub remaining_length : ℕ

pub record MqttPacket : Type 0 where
  pub header : MqttFixedHeader
  pub body : Bytes

abbrev pub max_remaining_length : ℕ
max_remaining_length = 268435455

-- `flags |= bit` under a condition
abbrev pub or_if : Bool → ℕ → ℕ → ℕ
or_if b bit flags = if b then bit_or flags bit else flags

pub flags_for : MqttFixedHeader → ℕ
flags_for header =
    or_if header.retain 0x01 (bit_or (or_if header.dup 0x08 0) (bit_and header.qos 0x03 * 2 % 256))

-- `AppendUint16` returns the string that it appends to.
pub append_uint16 : Bytes → ℕ → Bytes
append_uint16 out value = out ++ bit_and (value / 256) 0xff ∷ bit_and value 0xff ∷ []

-- The loop of `EncodeRemainingLength`: each round divides the value by 128.
encode_loop : ℕ → Bytes → ℕ → Bytes
encode_loop zero out value = out
encode_loop (suc rounds) out value =
    let byte = value % 128 in
    let more = encode_loop rounds (out ++ bit_or byte 0x80 ∷ []) (value / 128) in
    if ltb 0 (value / 128) then more else out ++ byte ∷ []

-- Five rounds are more than a value of at most four groups of seven bits can take.
pub encode_remaining_length : ℕ → Bytes
unfolding encode_loop
encode_remaining_length value =
    if ltb max_remaining_length value then [] else encode_loop 5 [] value

-- Rounds left, bytes consumed so far, value, multiplier, the bytes not yet read.
pub decode_loop : ℕ → ℕ → ℕ → ℕ → Bytes → Option (ℕ × ℕ)
decode_loop zero i value multiplier buffer = none
decode_loop (suc rounds) i value multiplier [] = none
decode_loop (suc rounds) i value multiplier (byte ∷ buffer) =
    let value' = value + bit_and byte 0x7f * multiplier in
    let more = decode_loop rounds (i + 1) value' (multiplier * 128) buffer in
    if bit_and byte 0x80 == 0 then some (value', i + 1) else more

-- The value, and the bytes consumed.
pub decode_remaining_length : Bytes → Option (ℕ × ℕ)
decode_remaining_length buffer = decode_loop 4 0 0 1 buffer

pub frame : MqttPacketType → ℕ → Bytes → Bytes
frame type flags body =
    bit_or (type * 16) (bit_and flags 0x0f) % 256 ∷ (encode_remaining_length (length body) ++ body)

pub ack_body : ℕ → Bytes
ack_body packet_id = append_uint16 [] packet_id

pub append_string : Bytes → Bytes → Bytes
append_string out value = append_uint16 out (length value % 65536) ++ value

-- `(static_cast<uint8_t>(b[i]) << 8) | static_cast<uint8_t>(b[i + 1])`
pub uint16_at : Bytes → ℕ → ℕ
uint16_at b i = bit_or (get_or b i 0 * 256) (get_or b (i + 1) 0)

-- The string at an offset, and the offset behind it.
pub read_string : Bytes → ℕ → Option (Bytes × ℕ)
read_string buffer offset =
    if ltb (length buffer) (offset + 2)
    then none
    else if ltb (length buffer) (offset + 2 + uint16_at buffer offset)
    then none
    else some (
      take (uint16_at buffer offset) (drop (offset + 2) buffer),
      offset + 2 + uint16_at buffer offset,
    )

-- `TakePacket` once the length field is read: `first` is the flag byte.
pub take_body : ℕ → Bytes → ℕ → ℕ → Option (MqttPacket × Bytes)
take_body first buffer remaining length_bytes =
    if ltb (length buffer) (1 + length_bytes + remaining)
    then none
    else some (
      record {
        header = record {
          type = first / 16;
          dup = not (bit_and first 0x08 == 0);
          qos = bit_and (first / 2) 0x03;
          retain = not (bit_and first 0x01 == 0);
          remaining_length = remaining;
        };
        body = take remaining (drop (1 + length_bytes) buffer);
      },
      drop (1 + length_bytes + remaining) buffer,
    )

-- The packet, and the buffer with the packet's bytes erased; on `none` the buffer is as it was.
pub take_packet : Bytes → Option (MqttPacket × Bytes)
take_packet [] = none
take_packet (first ∷ rest) = do
  (remaining, length_bytes) ← decode_remaining_length rest
  take_body first (first ∷ rest) remaining length_bytes

pub encode_packet : MqttFixedHeader → Bytes → Bytes
encode_packet header body = frame header.type (flags_for header) body
