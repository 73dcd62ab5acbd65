-- ===== src/Mqtt/Client/Session/Wire.antt =====
-- What a call of the application puts on the wire, read back by the decoder of mqtt_packet.cpp.
use esp_modem_link.Common.{
  ℕ, ◌+◌, ◌≤◌, ◌<◌, arith, Bool, true, false, some, [], ◌∷◌, ◌++◌, append-nil, ◌≡◌,
}
use esp_modem_link.Common.Lists.{Bytes, length}
use esp_modem_link.Common.Tests.{ltb, if◌then◌else◌}
use esp_modem_link.Error.{ok}
use esp_modem_link.Mqtt.Packet.{MqttPacket, max_remaining_length, take_packet}
use esp_modem_link.Mqtt.Packet
use esp_modem_link.Mqtt.Packet.Messages.{parse_publish, encode_publish}
use esp_modem_link.Mqtt.Packet.Messages.RoundTrip.{
  message_of, length-publish_body, parse_publish-encode_publish,
}
use esp_modem_link.Mqtt.Client.{Client, Transport, sends, next_packet_id, send_packet}
use esp_modem_link.Mqtt.Client.Session.{publish}

-- The id that `Publish` uses: none at QoS 0.
abbrev pub publish_id : ℕ → Client → ℕ
publish_id qos c = if ltb 0 qos then (next_packet_id c).1 else 0

publish_effect :
    (net : Transport) (topic payload : Bytes) (qos : ℕ) (retain : Bool) (c : Client)
    → c.connected ≡ true
    → c.transport ≡ true
    → let bytes = encode_publish (publish_id qos c) topic payload qos retain false in
      ((publish net topic payload qos retain c).0.log ≡ c.log ++ sends bytes ∷ [])
      × (net c.log bytes ≡ ok tt
          → (publish net topic payload qos retain c).1 ≡ ok (publish_id qos c))
unfolding publish next_packet_id send_packet
publish_effect net topic payload qos retain c on up = ground arith

publish_id_range : (qos : ℕ) (c : Client) → c.last_packet_id ≤ 0xffff → publish_id qos c < 65536
unfolding next_packet_id
publish_id_range qos c h = ground arith

-- On an established session `Publish` sends one packet, and it parses to the message that the
-- application gave; if the transport takes the bytes, the call returns the id in that message.
pub publish_wire :
    (net : Transport) (topic payload : Bytes) (qos : ℕ) (retain : Bool) (c : Client)
    → c.connected ≡ true
    → c.transport ≡ true
    → c.last_packet_id ≤ 0xffff
    → qos ≤ 2
    → length topic < 65536
    → length topic + length payload + 4 ≤ max_remaining_length
    → (bytes : Bytes) × (p : MqttPacket) × ((publish net topic payload qos retain c).0.log
        ≡ c.log ++ sends bytes ∷ [])
      × (take_packet bytes ≡ some (p, []))
      × (p.header.type ≡ Packet.publish)
      × (p.header.dup ≡ false)
      × (parse_publish p.header p.body
          ≡ some (message_of (publish_id qos c) topic payload qos retain))
      × (net c.log bytes ≡ ok tt
          → (publish net topic payload qos retain c).1 ≡ ok (publish_id qos c))
publish_wire net topic payload qos retain c on up hl hq ht hm =
    let id = publish_id qos c in
    let bytes = encode_publish id topic payload qos retain false in
    let (logged, returned) = publish_effect net topic payload qos retain c on up in
    let (p, taken, type, dup, level, parsed) =
      parse_publish-encode_publish id topic payload qos retain false [] (publish_id_range qos c hl)
        ht hq (omega (arith, length-publish_body id topic payload qos)) in
    (bytes, p, logged, rw append-nil at taken, type, dup, parsed, returned)
