-- ===== src/Mqtt/Client/Handlers/OnWire.antt =====
-- QoS 2 delivery from the bytes up: what `OnTransportData` does with the encoded packets of the
-- exchange.
use esp_modem_link.Common.{
  ℕ, suc, ◌+◌, ◌≤◌, ◌<◌, Bool, true, false, Option, none, some, List, [], ◌∷◌, ◌++◌, map,
  append-nil, arith, ◌≡◌, refl, sym, ap, ◌∙◌,
}
use esp_modem_link.Common.Lists.{Bytes, length, All}
use esp_modem_link.Common.Tests.{ltb}
use esp_modem_link.Mqtt.Packet.{MqttPacket, publish, pubrel, take_packet}
use esp_modem_link.Mqtt.Packet.Messages.{
  MqttPublishMessage, encode_publish, encode_packet_id_ack, parse_publish, parse_packet_id,
}
use esp_modem_link.Mqtt.Packet.Messages.RoundTrip.{
  message_of, length-publish_body, length-encode_publish, length-encode_packet_id_ack,
  parse_publish-encode_publish, parse_packet_id-encode_packet_id_ack,
}
use esp_modem_link.Mqtt.Client.{Client, Transport, max_buffered_bytes}
use esp_modem_link.Mqtt.Client.Handlers.{
  accept_publish, publish_read, handle_publish, answer_pubrel, handle_pubrel, handle_packet,
  take_loop, on_transport_data,
}
use esp_modem_link.Mqtt.Client.Handlers.ExactlyOnce.{
  Inbound, publishes, releases, receive, receive_all, delivered, delivers_spec, slots,
  receive_all-delivers_spec,
}
use esp_modem_link.Mqtt.Client.Handlers.Receive.{
  take_loop_stop, take_loop_next, take_packet-nil, accept_publish-Keeps, answer_pubrel-Keeps,
}

-- A packet that empties the buffer is the only one, whatever the fuel beyond two rounds.
two_rounds :
    (fuel : ℕ) (net : Transport) (p : MqttPacket) (c : Client)
    → take_packet c.rx_buffer ≡ some (p, [])
    → (handle_packet net p (record c { rx_buffer = [] })).rx_buffer ≡ []
    → take_loop (suc (suc fuel)) net c ≡ some (handle_packet net p (record c { rx_buffer = [] }))
two_rounds fuel net p c taken kept =
    let handled = handle_packet net p (record c { rx_buffer = [] }) in
    take_loop_next (suc fuel) net c taken
    ∙ take_loop_stop fuel net handled (ap take_packet kept ∙ take_packet-nil)

-- One whole packet, handed over while the buffer is empty, is handled and nothing else is.
one_packet :
    (net : Transport) (bytes : Bytes) (p : MqttPacket) (c : Client)
    → c.rx_buffer ≡ []
    → take_packet bytes ≡ some (p, [])
    → length bytes ≤ max_buffered_bytes
    → (handle_packet net p (record c { rx_buffer = [] })).rx_buffer ≡ []
    → on_transport_data net bytes c ≡ some (handle_packet net p (record c { rx_buffer = [] }))
unfolding on_transport_data
one_packet net [] p c idle taken fits kept = cc (taken, take_packet-nil)
one_packet net (x ∷ xs) p c idle taken fits kept =
    let small : ltb max_buffered_bytes (length (x ∷ xs)) ≡ false = ground arith in
    let fuel : length (x ∷ xs) + 1 ≡ suc (suc (length xs)) = omega arith in
    rw (idle, small, fuel)
      (two_rounds (length xs) net p (record c { rx_buffer = x ∷ xs }) taken kept)

-- The bytes of a packet of the exchange; a repeated PUBLISH may carry the DUP flag.
pub wire : Bool × Inbound → Bytes
wire (dup, publishes m) = encode_publish m.packet_id m.topic m.payload 2 m.retain dup
wire (dup, releases id) = encode_packet_id_ack pubrel id

-- The packets handed over one by one.
pub receive_wire : Transport → List (Bool × Inbound) → Client → Option Client
receive_wire net [] c = some c
receive_wire net (e ∷ es) c = elim (on_transport_data net (wire e) c) [
  | none ↦ none
  | some d ↦ receive_wire net es d
]

-- What a broker can send: a QoS 2 message whose fields fit the packet and the receive buffer.
abbrev pub IsInbound : Bool × Inbound → Type 0
IsInbound (dup, publishes m) =
    (m.qos ≡ 2)
    × (m.packet_id < 65536)
    × (length m.topic < 65536)
    × (length m.topic + length m.payload + 9 ≤ max_buffered_bytes)
IsInbound (dup, releases id) = id < 65536

empty_buffer : (c : Client) → c.rx_buffer ≡ [] → record c { rx_buffer = [] } ≡ c
empty_buffer c idle = ap (λ (b : Bytes). record c { rx_buffer = b }) (sym idle)

message_of-same :
    (m : MqttPublishMessage) → m.qos ≡ 2 → message_of m.packet_id m.topic m.payload 2 m.retain ≡ m
message_of-same m h = ap (λ (q : ℕ). record m { qos = q }) (sym h)

handle_packet-publish :
    (net : Transport) (p : MqttPacket) (m : MqttPublishMessage) (c : Client)
    → p.header.type ≡ publish
    → p.header.qos ≡ 2
    → parse_publish p.header p.body ≡ some m
    → handle_packet net p c ≡ accept_publish net 2 m c
unfolding handle_packet handle_publish publish_read
handle_packet-publish net p m c type level parsed = ground (arith, parsed)

handle_packet-pubrel :
    (net : Transport) (p : MqttPacket) (id : ℕ) (c : Client)
    → p.header.type ≡ pubrel
    → parse_packet_id p.body ≡ some id
    → handle_packet net p c ≡ answer_pubrel net id c
unfolding handle_packet handle_pubrel
handle_packet-pubrel net p id c type parsed = ground (arith, parsed)

-- One packet of the exchange, from its bytes.
on_transport_data-receive :
    (net : Transport) (e : Bool × Inbound) (c : Client)
    → c.rx_buffer ≡ []
    → IsInbound e
    → (on_transport_data net (wire e) c ≡ some (receive net e.1 c))
      × ((receive net e.1 c).rx_buffer ≡ [])
unfolding wire receive
on_transport_data-receive net (dup, publishes m) c idle (level, hi, ht, fits) =
    let (p, taken, type, dup', two, parsed) =
      parse_publish-encode_publish m.packet_id m.topic m.payload 2 m.retain dup [] hi ht
        (omega arith) (omega (arith, length-publish_body m.packet_id m.topic m.payload 2)) in
    let size = length-encode_publish m.packet_id m.topic m.payload 2 m.retain dup (omega arith) in
    let emptied = record c { rx_buffer = [] } in
    let handled : handle_packet net p emptied ≡ accept_publish net 2 m c =
      handle_packet-publish net p m emptied type two (parsed ∙ ap some (message_of-same m level))
      ∙ ap (accept_publish net 2 m) (empty_buffer c idle) in
    let kept : (accept_publish net 2 m c).rx_buffer ≡ [] = accept_publish-Keeps net 2 m c ∙ idle in
    (
      one_packet net (wire (dup, publishes m)) p c idle (rw append-nil at taken)
            (omega (arith, size)) (ap (λ (d : Client). d.rx_buffer) handled ∙ kept)
          ∙ ap some handled,
      kept,
    )
on_transport_data-receive net (dup, releases id) c idle hi =
    let (p, taken, type, one, parsed) =
      parse_packet_id-encode_packet_id_ack pubrel id [] (omega arith) hi in
    let emptied = record c { rx_buffer = [] } in
    let handled : handle_packet net p emptied ≡ answer_pubrel net id c =
      handle_packet-pubrel net p id emptied type parsed
      ∙ ap (answer_pubrel net id) (empty_buffer c idle) in
    let kept : (answer_pubrel net id c).rx_buffer ≡ [] = answer_pubrel-Keeps net id c ∙ idle in
    (
      one_packet net (wire (dup, releases id)) p c idle (rw append-nil at taken)
            (omega (arith, length-encode_packet_id_ack pubrel id))
            (ap (λ (d : Client). d.rx_buffer) handled ∙ kept)
          ∙ ap some handled,
      kept,
    )

receive_wire-receive_all :
    (net : Transport) (es : List (Bool × Inbound)) (c : Client)
    → c.rx_buffer ≡ []
    → All IsInbound es
    → receive_wire net es c ≡ some (receive_all net (map (λ e. e.1) es) c)
unfolding receive_wire receive_all
receive_wire-receive_all net [] c idle ok = refl
receive_wire-receive_all net (e ∷ es) c idle (ok, oks) =
    let (taken, kept) = on_transport_data-receive net e c idle ok in
    rw (taken, receive_wire) (receive_wire-receive_all net es (receive net e.1 c) kept oks)

-- Encoded QoS 2 packets, whose fields fit their widths and the receive buffer, handed over one by one
-- as bytes to a client with an empty buffer and a message callback: the client takes each of them,
-- and what it delivers is what the table of slots delivers.
pub receive_wire-delivers_spec :
    (net : Transport) (es : List (Bool × Inbound)) (c : Client)
    → c.rx_buffer ≡ []
    → c.callbacks.on_message ≡ true
    → All IsInbound es
    → (d : Client) × (receive_wire net es c ≡ some d)
      × (delivered d.log ≡ delivered c.log ++ delivers_spec (slots c) (map (λ e. e.1) es))
receive_wire-delivers_spec net es c idle set ok = (
  receive_all net (map (λ e. e.1) es) c,
  receive_wire-receive_all net es c idle ok,
  receive_all-delivers_spec net (map (λ e. e.1) es) c set,
)
