-- ===== src/Mqtt/Packet/Messages/RoundTrip.antt =====
-- The parsers of mqtt_packet.cpp read back what its encoders wrote, through the framing.
use esp_modem_link.Common.{
  ℕ, ◌+◌, ◌*◌, ◌/◌, ◌%◌, ◌≤◌, ◌<◌, bit_and, bit_or, arith, Bool, false, some, [], ◌∷◌, ◌++◌,
  append_assoc, append-nil, ◌≡◌, refl, sym, inl, inr,
}
use esp_modem_link.Common.Lists.{
  Bytes, length, length-append, get_or, take-append_length, drop-append_length,
}
use esp_modem_link.Common.Tests.{ltb, ◌==◌, if◌then◌else◌, Bool-cases}
use esp_modem_link.Common.Bits.{shift_or, low_byte}
use esp_modem_link.Mqtt.Packet.Lengths.{length-encode_remaining_length}
use esp_modem_link.Mqtt.Packet.{
  encode_remaining_length, frame, MqttFixedHeader, MqttPacket, MqttPacketType, max_remaining_length,
  publish, pubrel, flags_for, append_uint16, ack_body, append_string, uint16_at, read_string,
  take_packet, encode_packet,
}
use esp_modem_link.Mqtt.Packet.Stream.{take_packet-encode_packet}
use esp_modem_link.Mqtt.Packet.Messages.{
  MqttPublishMessage, parse_publish_at, parse_publish, publish_body, publish_flags, encode_publish,
  parse_packet_id, encode_packet_id_ack,
}

-- The number at the seam, when its two bytes stand there.
get_or-seam : (out rest : Bytes) (x : ℕ) → get_or (out ++ x ∷ rest) (length out) 0 ≡ x
get_or-seam [] rest x = refl
get_or-seam (o ∷ out) rest x = get_or-seam out rest x

get_or-seam_next :
    (out rest : Bytes) (x y : ℕ) → get_or (out ++ x ∷ y ∷ rest) (length out + 1) 0 ≡ y
get_or-seam_next out rest x y =
    let at : length (out ++ x ∷ []) ≡ length out + 1 = omega (arith, length-append out (x ∷ [])) in
    rw (← at, ← append_assoc out (x ∷ []) (y ∷ rest)) (get_or-seam (out ++ x ∷ []) rest y)

word_bytes : (v : ℕ) → v < 65536 → bit_or (bit_and (v / 256) 0xff * 256) (bit_and v 0xff) ≡ v
word_bytes v h =
    rw (low_byte v, low_byte (v / 256))
      (omega (arith, shift_or (v / 256 % 256) (v % 256) (omega arith)))

pub uint16_at-append_uint16 :
    (out rest : Bytes) (v : ℕ)
    → v < 65536
    → uint16_at (append_uint16 out v ++ rest) (length out) ≡ v
unfolding uint16_at append_uint16
uint16_at-append_uint16 out rest v h = rw append_assoc (
    rw
      (
        get_or-seam out (bit_and v 0xff ∷ rest) (bit_and (v / 256) 0xff),
        get_or-seam_next out rest (bit_and (v / 256) 0xff) (bit_and v 0xff),
      )
      (word_bytes v h))

length-append_uint16 : (out : Bytes) (v : ℕ) → length (append_uint16 out v) ≡ length out + 2
unfolding append_uint16
length-append_uint16 out v =
    omega (arith, length-append out (bit_and (v / 256) 0xff ∷ bit_and v 0xff ∷ []))

-- `ReadString` reads back a string that `AppendString` wrote, and stops behind it.
pub read_string-append_string :
    (out value rest : Bytes)
    → length value < 65536
    → read_string (append_string out value ++ rest) (length out)
      ≡ some (value, length out + 2 + length value)
read_string-append_string out value rest h =
    let head = append_uint16 out (length value) in
    let word : length value % 65536 ≡ length value = omega arith in
    let cut : length head ≡ length out + 2 = length-append_uint16 out (length value) in
    unfold append_string in
    rw (word, append_assoc head value rest)
      (unfold read_string in
        ground (
          arith,
          uint16_at-append_uint16 out (value ++ rest) (length value),
          length-append head (value ++ rest),
          length-append value rest,
          rw cut at (drop-append_length head (value ++ rest)),
          take-append_length value rest,
        ))

length-append_string :
    (out value : Bytes) → length (append_string out value) ≡ length out + 2 + length value
unfolding append_string
length-append_string out value = omega (
  arith,
  length-append (append_uint16 out (length value % 65536)) value,
  length-append_uint16 out (length value % 65536),
)

-- The message that `ParsePublish` gives for what `EncodePublish` was given.
abbrev pub message_of : ℕ → Bytes → Bytes → ℕ → Bool → MqttPublishMessage
message_of packet_id topic payload qos retain = record {
  topic = topic;
  packet_id = if ltb 0 qos then packet_id else 0;
  qos = qos;
  retain = retain;
  payload = payload;
}

parse_publish-publish_body :
    (h : MqttFixedHeader) (packet_id : ℕ) (topic payload : Bytes)
    → packet_id < 65536
    → length topic < 65536
    → h.qos ≤ 2
    → parse_publish h (publish_body packet_id topic payload h.qos)
      ≡ some (message_of packet_id topic payload h.qos h.retain)
parse_publish-publish_body h packet_id topic payload hi ht hq = elim (Bool-cases (ltb 0 h.qos)) [
  | inl positive ↦
      let named = append_string [] topic in
      let word = bit_and (packet_id / 256) 0xff ∷ bit_and packet_id 0xff ∷ [] in
      let size : length named ≡ 2 + length topic = length-append_string [] topic in
      let wide : length (append_uint16 named packet_id) ≡ 2 + length topic + 2 =
        rw (length-append_uint16 named packet_id) (omega arith) in
      let named_first : read_string (append_uint16 named packet_id ++ payload) 0
          ≡ some (topic, 2 + length topic) =
        unfold append_uint16 in
        rw (append_assoc named word payload)
          (read_string-append_string [] topic (word ++ payload) ht) in
      unfold parse_publish publish_body parse_publish_at in
      ground (
        arith,
        positive,
        named_first,
        rw size at (uint16_at-append_uint16 named payload packet_id hi),
        rw wide at (drop-append_length (append_uint16 named packet_id) payload),
        length-append (append_uint16 named packet_id) payload,
      )
  | inr zero_qos ↦
      let named = append_string [] topic in
      let size : length named ≡ 2 + length topic = length-append_string [] topic in
      unfold parse_publish publish_body parse_publish_at in
      ground (
        arith,
        zero_qos,
        read_string-append_string [] topic payload ht,
        rw size at (drop-append_length named payload),
      )
]

-- A PUBLISH that was encoded comes off the stream whole, with its DUP flag and its QoS, and parses
-- to the message that was published.
pub parse_publish-encode_publish :
    (packet_id : ℕ) (topic payload : Bytes) (qos : ℕ) (retain dup : Bool) (rest : Bytes)
    → packet_id < 65536
    → length topic < 65536
    → qos ≤ 2
    → length (publish_body packet_id topic payload qos) ≤ max_remaining_length
    → (p : MqttPacket) × (take_packet
          (encode_publish packet_id topic payload qos retain dup ++ rest)
        ≡ some (p, rest))
      × (p.header.type ≡ publish)
      × (p.header.dup ≡ dup)
      × (p.header.qos ≡ qos)
      × (parse_publish p.header p.body ≡ some (message_of packet_id topic payload qos retain))
unfolding encode_publish publish_flags flags_for
parse_publish-encode_publish packet_id topic payload qos retain dup rest hi ht hq hm =
    let body = publish_body packet_id topic payload qos in
    let h : MqttFixedHeader = record {
      type = publish;
      dup = dup;
      qos = qos;
      retain = retain;
      remaining_length = length body;
    } in
    (
      record { header = h; body = body },
      unfold encode_packet in
          take_packet-encode_packet h body rest (omega arith) (omega arith) refl hm,
      refl,
      refl,
      refl,
      parse_publish-publish_body h packet_id topic payload hi ht hq,
    )

-- The header under which an acknowledgement travels.
abbrev ack_header : MqttPacketType → MqttFixedHeader
ack_header type = record {
  type = type;
  dup = false;
  qos = if type == pubrel then 1 else 0;
  retain = false;
  remaining_length = 2;
}

flags_for-ack_header :
    (type : MqttPacketType)
    → (flags_for (ack_header type) ≡ (if type == pubrel then 0x02 else 0x00))
      × ((ack_header type).qos < 4)
unfolding flags_for
flags_for-ack_header type = elim (Bool-cases (type == pubrel)) [
  | inl release ↦ rw release (refl, omega arith)
  | inr other ↦ rw other (refl, omega arith)
]

length-ack_body : (packet_id : ℕ) → length (ack_body packet_id) ≡ 2
unfolding ack_body
length-ack_body packet_id = length-append_uint16 [] packet_id

parse_packet_id-ack_body :
    (packet_id : ℕ) → packet_id < 65536 → parse_packet_id (ack_body packet_id) ≡ some packet_id
unfolding parse_packet_id ack_body
parse_packet_id-ack_body packet_id h =
    let word : uint16_at (append_uint16 [] packet_id) 0 ≡ packet_id =
      rw append-nil at (uint16_at-append_uint16 [] [] packet_id h) in
    ground (arith, word, length-append_uint16 [] packet_id)

-- An acknowledgement of any type comes off the stream whole and gives back its packet id; a PUBREL
-- alone carries a set flag, the lower QoS bit.
pub parse_packet_id-encode_packet_id_ack :
    (type : MqttPacketType) (packet_id : ℕ) (rest : Bytes)
    → type < 16
    → packet_id < 65536
    → (p : MqttPacket) × (take_packet (encode_packet_id_ack type packet_id ++ rest)
        ≡ some (p, rest))
      × (p.header.type ≡ type)
      × (p.header.qos ≡ (if type == pubrel then 1 else 0))
      × (parse_packet_id p.body ≡ some packet_id)
unfolding encode_packet_id_ack encode_packet
parse_packet_id-encode_packet_id_ack type packet_id rest ht hi =
    let (flags, small) = flags_for-ack_header type in
    (
      record { header = ack_header type; body = ack_body packet_id },
      rw (← flags) (
          take_packet-encode_packet (ack_header type) (ack_body packet_id) rest ht small
            (sym (length-ack_body packet_id)) (omega (arith, length-ack_body packet_id))),
      refl,
      refl,
      parse_packet_id-ack_body packet_id hi,
    )

pub length-publish_body :
    (packet_id : ℕ) (topic payload : Bytes) (qos : ℕ)
    → length (publish_body packet_id topic payload qos) ≤ length topic + length payload + 4
unfolding publish_body
length-publish_body packet_id topic payload qos =
    let named = append_string [] topic in
    ground (
      arith,
      length-append_string [] topic,
      length-append_uint16 named packet_id,
      length-append (append_uint16 named packet_id) payload,
      length-append named payload,
    )

pub length-encode_publish :
    (packet_id : ℕ) (topic payload : Bytes) (qos : ℕ) (retain dup : Bool)
    → length topic + length payload + 4 ≤ max_remaining_length
    → length (encode_publish packet_id topic payload qos retain dup)
      ≤ length topic + length payload + 9
unfolding encode_publish frame
length-encode_publish packet_id topic payload qos retain dup h =
    let body = publish_body packet_id topic payload qos in
    let size = length-publish_body packet_id topic payload qos in
    let (some_bytes, few) = length-encode_remaining_length (length body) (omega (arith, size)) in
    omega (arith, length-append (encode_remaining_length (length body)) body, size, few)

pub length-encode_packet_id_ack :
    (type : MqttPacketType) (packet_id : ℕ) → length (encode_packet_id_ack type packet_id) ≤ 7
unfolding encode_packet_id_ack frame
length-encode_packet_id_ack type packet_id =
    let body = ack_body packet_id in
    let size : length body ≡ 2 = length-ack_body packet_id in
    let (some_bytes, few) = length-encode_remaining_length (length body) (omega (arith, size)) in
    omega (arith, length-append (encode_remaining_length (length body)) body, size, few)
