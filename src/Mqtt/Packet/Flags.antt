-- ===== src/Mqtt/Packet/Flags.antt =====
-- The flag byte in front of a packet: what `FlagsFor` and `Frame` write, and what `TakePacket` reads.
use esp_modem_link.Common.{
  ℕ, ◌+◌, ◌*◌, ◌/◌, ◌%◌, ◌<◌, bit_and, bit_or, arith, Bool, true, false, not, ◌≡◌, refl,
}
use esp_modem_link.Common.Tests.{◌==◌}
use esp_modem_link.Common.Bits.{
  all_below, agree_below, low_two, low_one, low_four, bit_three, shift_or_four,
}
use esp_modem_link.Mqtt.Packet.{MqttFixedHeader, or_if, flags_for}

abbrev bit : Bool → ℕ
bit true = 1
bit false = 0

-- The flag bits of a header, as a number.
abbrev pub flag_value : Bool → ℕ → Bool → ℕ
flag_value dup qos retain = bit dup * 8 + qos % 4 * 2 + bit retain

flags_of :
    (dup retain : Bool) (qos : ℕ)
    → qos < 256
    → or_if retain 0x01 (bit_or (or_if dup 0x08 0) (bit_and qos 0x03 * 2 % 256))
      ≡ flag_value dup qos retain
unfolding all_below
flags_of true true =
    agree_below (λ q. bit_or (bit_or (bit_or 0 8) (bit_and q 3 * 2 % 256)) 1)
      (λ q. 8 + q % 4 * 2 + 1) 256 refl
flags_of true false =
    agree_below (λ q. bit_or (bit_or 0 8) (bit_and q 3 * 2 % 256)) (λ q. 8 + q % 4 * 2 + 0) 256 refl
flags_of false true =
    agree_below (λ q. bit_or (bit_or 0 (bit_and q 3 * 2 % 256)) 1) (λ q. 0 + q % 4 * 2 + 1) 256 refl
flags_of false false =
    agree_below (λ q. bit_or 0 (bit_and q 3 * 2 % 256)) (λ q. 0 + q % 4 * 2 + 0) 256 refl

pub flags_for_value :
    (h : MqttFixedHeader) → h.qos < 256 → flags_for h ≡ flag_value h.dup h.qos h.retain
unfolding flags_for
flags_for_value h q = flags_of h.dup h.retain h.qos q

pub flag_value-lt : (dup retain : Bool) (qos : ℕ) → flag_value dup qos retain < 16
flag_value-lt true true qos = omega arith
flag_value-lt true false qos = omega arith
flag_value-lt false true qos = omega arith
flag_value-lt false false qos = omega arith

-- The first byte of a frame, for a type of four bits and flags of four.
pub first_byte :
    (type flags : ℕ)
    → type < 16
    → flags < 16
    → bit_or (type * 16) (bit_and flags 0x0f) % 256 ≡ type * 16 + flags
first_byte type flags ht hf =
    let nibble : flags % 16 ≡ flags = omega arith in
    rw (low_four flags (omega arith), nibble) (omega (arith, shift_or_four type flags hf))

-- The masks that `TakePacket` applies to a byte, as its digits.
read_masks :
    (first : ℕ)
    → first < 256
    → (bit_and first 0x08 ≡ first / 8 % 2 * 8)
      × (bit_and (first / 2) 0x03 ≡ first / 2 % 4)
      × (bit_and first 0x01 ≡ first % 2)
read_masks first h = (bit_three first h, low_two (first / 2) (omega arith), low_one first h)

-- What `TakePacket` reads back from the first byte.
pub read_flags :
    (type first qos : ℕ) (dup retain : Bool)
    → type < 16
    → first ≡ type * 16 + flag_value dup qos retain
    → (first / 16 ≡ type)
      × (not (bit_and first 0x08 == 0) ≡ dup)
      × (bit_and (first / 2) 0x03 ≡ qos % 4)
      × (not (bit_and first 0x01 == 0) ≡ retain)
read_flags type first qos true true h e = ground (arith, read_masks first)
read_flags type first qos true false h e = ground (arith, read_masks first)
read_flags type first qos false true h e = ground (arith, read_masks first)
read_flags type first qos false false h e = ground (arith, read_masks first)
