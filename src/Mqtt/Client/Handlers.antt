-- ===== src/Mqtt/Client/Handlers.antt =====
-- src/protocol/mqtt/software_mqtt_client.cpp: what the client does with an inbound packet, and the
-- loop that takes packets off the receive buffer. A callback does not call back into the client.
pub mod ExactlyOnce
pub mod Receive
pub mod OnWire
use Prim.Native.String.{String}
use esp_modem_link.Common.{
  ℕ, zero, suc, ◌+◌, ◌*◌, Bool, true, false, not, ◌&&◌, ◌||◌, Option, none, some, List, [], ◌∷◌,
  ◌++◌,
}
use esp_modem_link.Common.Int.{ℤ, pos}
use esp_modem_link.Common.Lists.{Bytes, length}
use esp_modem_link.Common.Map.{lookup, insert, emplace, erase, or_else}
use esp_modem_link.Common.Tests.{ltb, ◌==◌, if◌then◌else◌}
use esp_modem_link.Error.{NetworkError, NetworkErrc, network_error, text}
use esp_modem_link.Mqtt.Packet.{
  MqttPacket, MqttPacketType, connack, publish, puback, pubrec, pubrel, pubcomp, suback, unsuback,
  pingresp, take_packet,
}
use esp_modem_link.Mqtt.Packet.Messages.{
  MqttConnack, MqttConnectReturnCode, accepted, unacceptable_protocol, identifier_rejected,
  server_unavailable, bad_credentials, not_authorized, MqttPublishMessage, MqttSuback,
  parse_connack, parse_publish, parse_suback, parse_packet_id, encode_packet_id_ack,
}
use esp_modem_link.Mqtt.Client.{
  Client, Transport, Effect, acknowledges, max_buffered_bytes, emit_if, report_error, deliver, sent,
  send_packet, teardown,
}

-- `DescribeConnectReturnCode`
pub describe : MqttConnectReturnCode → String
describe accepted = "connection accepted"
describe unacceptable_protocol = "unacceptable protocol version"
describe identifier_rejected = "client identifier rejected"
describe server_unavailable = "server unavailable"
describe bad_credentials = "bad user name or password"
describe not_authorized = "not authorized"

-- The wire value of a return code.
pub code_number : MqttConnectReturnCode → ℕ
code_number accepted = 0
code_number unacceptable_protocol = 1
code_number identifier_rejected = 2
code_number server_unavailable = 3
code_number bad_credentials = 4
code_number not_authorized = 5

is_credentials : MqttConnectReturnCode → Bool
is_credentials not_authorized = true
is_credentials bad_credentials = true
is_credentials _ = false

-- The error that a refusal leaves for `Connect`.
pub refusal : MqttConnectReturnCode → NetworkError
unfolding describe code_number is_credentials
refusal code = record {
  code =
      if is_credentials code then NetworkErrc.mqtt_not_authorized else NetworkErrc.connect_failed;
  native = pos (code_number code);
  context = text (describe code);
}

-- The answer of `HandleConnack` within the window, before `connack_ready_` is set.
connack_answer : Option MqttConnack → Client → Client
connack_answer none c = record c {
  connack_error = some (network_error NetworkErrc.protocol_error "malformed CONNACK");
}
connack_answer (some a) c = elim a.code [
  | accepted ↦ record c { connected = true }
  | code ↦ record c { connack_error = some (refusal code) }
]

pub handle_connack : MqttPacket → Client → Client
unfolding connack_answer
handle_connack packet c =
    if not c.connecting
    then c
    else record (connack_answer (parse_connack packet.body) (record c { connecting = false })) {
      connack_ready = true;
    }

abbrev pub protocol_error : String → NetworkError
protocol_error s = network_error NetworkErrc.protocol_error s

-- A PUBLISH that was read, at the QoS of its header.
pub accept_publish : Transport → ℕ → MqttPublishMessage → Client → Client
accept_publish net qos m c =
    if qos == 2
    then sent net (encode_packet_id_ack pubrec m.packet_id)
        (record c { pending_qos2 = emplace m.packet_id m c.pending_qos2 })
    else if qos == 1
    then deliver m (sent net (encode_packet_id_ack puback m.packet_id) c)
    else deliver m c

publish_read : Transport → ℕ → Option MqttPublishMessage → Client → Client
publish_read net qos none c = report_error (protocol_error "malformed PUBLISH from broker") c
publish_read net qos (some m) c = accept_publish net qos m c

pub handle_publish : Transport → MqttPacket → Client → Client
unfolding publish_read
handle_publish net packet c =
    if ltb 2 packet.header.qos
    then teardown false (
        report_error
          (record {
            code = NetworkErrc.protocol_error;
            native = pos packet.header.qos;
            context = text "PUBLISH with both QoS bits set";
          })
          c)
    else publish_read net packet.header.qos (parse_publish packet.header packet.body) c

-- A handler of a packet that carries a packet id and nothing else.
abbrev with_packet_id : MqttPacket → String → (ℕ → Client → Client) → Client → Client
with_packet_id packet complaint handle c = elim (parse_packet_id packet.body) [
  | none ↦ report_error (protocol_error complaint) c
  | some packet_id ↦ handle packet_id c
]

pub answer_pubrec : Transport → ℕ → Client → Client
answer_pubrec net packet_id c = sent net (encode_packet_id_ack pubrel packet_id) c

pub handle_pubrec : Transport → MqttPacket → Client → Client
handle_pubrec net packet c =
    with_packet_id packet "malformed PUBREC from broker" (answer_pubrec net) c

deliver_held : Option MqttPublishMessage → Client → Client
deliver_held none c = c
deliver_held (some m) c = deliver m c

pub answer_pubrel : Transport → ℕ → Client → Client
unfolding deliver_held
answer_pubrel net packet_id c = deliver_held (lookup packet_id c.pending_qos2) (
    sent net (encode_packet_id_ack pubcomp packet_id)
      (record c { pending_qos2 = erase packet_id c.pending_qos2 }))

pub handle_pubrel : Transport → MqttPacket → Client → Client
handle_pubrel net packet c =
    with_packet_id packet "malformed PUBREL from broker" (answer_pubrel net) c

pub handle_publish_complete : MqttPacket → Client → Client
handle_publish_complete packet c =
    with_packet_id packet "malformed publish acknowledgement from broker"
      (λ packet_id d. emit_if d.callbacks.on_publish_ack (acknowledges packet_id) d) c

-- One report for the first refused filter.
report_refused : Bytes → Bytes → Client → Client
report_refused topic [] c = c
report_refused topic (code ∷ codes) c =
    let rest = report_refused topic codes c in
    if code == 0x80
    then report_error
        (record {
          code = NetworkErrc.protocol_error;
          native = pos 0x80;
          context = text "broker refused the subscription to '" ++ (topic ++ text "'");
        })
        c
    else rest

suback_read : Option MqttSuback → Client → Client
suback_read none c = report_error (protocol_error "malformed SUBACK from broker") c
suback_read (some s) c =
    report_refused (or_else (lookup s.packet_id c.pending_topics) []) s.return_codes
      (record c { pending_topics = erase s.packet_id c.pending_topics })

pub handle_suback : MqttPacket → Client → Client
unfolding report_refused suback_read
handle_suback packet c = suback_read (parse_suback packet.body) c

pub handle_unsuback : MqttPacket → Client → Client
handle_unsuback packet c =
    with_packet_id packet "malformed UNSUBACK from broker"
      (λ packet_id d. record d { pending_topics = erase packet_id d.pending_topics }) c

pub handle_packet : Transport → MqttPacket → Client → Client
handle_packet net packet c =
    let type = packet.header.type in
    if type == connack
    then handle_connack packet c
    else if type == publish
    then handle_publish net packet c
    else if type == puback || type == pubcomp
    then handle_publish_complete packet c
    else if type == pubrec
    then handle_pubrec net packet c
    else if type == pubrel
    then handle_pubrel net packet c
    else if type == suback
    then handle_suback packet c
    else if type == unsuback
    then handle_unsuback packet c
    else if type == pingresp
    then record c { ping_sent_ms = 0 }
    else c

-- The loop of `OnTransportData`. `none` means that the fuel ran out.
pub take_loop : ℕ → Transport → Client → Option Client
take_loop zero net c = none
take_loop (suc fuel) net c = elim (take_packet c.rx_buffer) [
  | none ↦ some c
  | some (packet, rest) ↦
      take_loop fuel net (handle_packet net packet (record c { rx_buffer = rest }))
]

abbrev pub overflow_error : NetworkError
overflow_error =
    network_error NetworkErrc.buffer_overflow "inbound MQTT stream exceeds the buffer limit"

pub on_transport_data : Transport → Bytes → Client → Option Client
on_transport_data net incoming c =
    let d = record c { rx_buffer = c.rx_buffer ++ incoming } in
    if ltb max_buffered_bytes (length d.rx_buffer)
    then some (teardown false (report_error overflow_error (record d { rx_buffer = [] })))
    else take_loop (length d.rx_buffer + 1) net d
