-- ===== src/Mqtt/Packet/Tests.antt =====
-- Runs of the MQTT framing, and each theorem on it at a concrete input.
use esp_modem_link.Common.{true, false, none, some, [], ◌∷◌, ◌++◌, arith, ◌≡◌, refl}
use esp_modem_link.Mqtt.Packet.{
  MqttFixedHeader, encode_remaining_length, encode_packet, take_packet, encode_loop, frame,
  flags_for,
}
use esp_modem_link.Mqtt.Packet.Stream.{
  take_packet-encode_packet, take_packet_prefix, take_packet-Taken, Taken,
}

-- A header of a PUBLISH at QoS 1 with a body of three bytes.
abbrev header : MqttFixedHeader
header = record { type = 3; dup = false; qos = 1; retain = true; remaining_length = 3 }

take_packet-encode_packet_example :
    take_packet (encode_packet header (1 ∷ 2 ∷ 3 ∷ []) ++ 9 ∷ [])
    ≡ some (record { header = header; body = 1 ∷ 2 ∷ 3 ∷ [] }, 9 ∷ [])
take_packet-encode_packet_example =
    take_packet-encode_packet header (1 ∷ 2 ∷ 3 ∷ []) (9 ∷ []) (omega arith) (omega arith) refl
      (omega arith)

take_packet-Taken_example :
    Taken
      (encode_packet header (1 ∷ 2 ∷ 3 ∷ []) ++ 9 ∷ [])
      (4 ∷ [])
      (record { header = header; body = 1 ∷ 2 ∷ 3 ∷ [] })
      (9 ∷ [])
take_packet-Taken_example =
    take_packet-Taken (encode_packet header (1 ∷ 2 ∷ 3 ∷ []) ++ 9 ∷ []) (4 ∷ [])
      (record { header = header; body = 1 ∷ 2 ∷ 3 ∷ [] }) (9 ∷ []) take_packet-encode_packet_example

encode_packet_header : encode_packet header (1 ∷ 2 ∷ 3 ∷ []) ≡ 51 ∷ 3 ∷ 1 ∷ 2 ∷ 3 ∷ []
unfolding encode_packet encode_remaining_length encode_loop frame flags_for
encode_packet_header = refl

take_packet_prefix_example : take_packet (51 ∷ 3 ∷ 1 ∷ []) ≡ none
take_packet_prefix_example =
    take_packet_prefix header (1 ∷ 2 ∷ 3 ∷ []) (51 ∷ 3 ∷ 1 ∷ []) (3 ∷ []) 2 (omega arith)
      (omega arith) refl (omega arith) encode_packet_header
