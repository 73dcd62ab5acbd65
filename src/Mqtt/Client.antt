-- ===== src/Mqtt/Client.antt =====
-- src/protocol/mqtt/software_mqtt_client.h and .cpp: the state of the client and its handling of
-- inbound packets. The transport and the application are behind the interface of the source: what
-- the client does to them is a log of effects, newest last, and the transport answers a `Send` by
-- any function of that log. The clock is a field of the state.
pub mod Handlers
pub mod Session
use esp_modem_link.Common.{
  ℕ, zero, suc, ◌+◌, ◌*◌, Bool, true, false, not, ◌&&◌, ◌||◌, Option, none, some, List, [], ◌∷◌,
  ◌++◌,
}
use esp_modem_link.Common.Int.{ℤ, pos}
use esp_modem_link.Common.Lists.{Bytes, length}
use esp_modem_link.Common.Map.{lookup, insert, emplace, erase, or_else}
use esp_modem_link.Common.Tests.{ltb, ◌==◌, if◌then◌else◌}
use esp_modem_link.Error.{
  NetworkError, NetworkErrc, Result, ok, err, network_error, text, protocol_error,
}
use esp_modem_link.Mqtt.Packet.{
  MqttPacket, connack, publish, puback, pubrec, pubrel, pubcomp, suback, unsuback, pingresp,
  take_packet,
}
use esp_modem_link.Mqtt.Packet.Messages.{
  MqttConnack, MqttConnectReturnCode, accepted, unacceptable_protocol, identifier_rejected,
  server_unavailable, bad_credentials, not_authorized, MqttPublishMessage, MqttSuback, MqttWill,
  parse_connack, parse_publish, parse_suback, parse_packet_id, encode_packet_id_ack,
  encode_disconnect,
}

-- What the client does to the transport and to the callbacks that are set.
pub data Effect : Type 0 where
  sends : Bytes → Effect
  closes : Effect
  delivers : MqttPublishMessage → Effect
  acknowledges : ℕ → Effect
  reports : NetworkError → Effect
  tells_connected tells_disconnected : Effect

-- Which callbacks the application has set.
pub record Callbacks : Type 0 where
  pub on_connected : Bool
  pub on_disconnected : Bool
  pub on_message : Bool
  pub on_publish_ack : Bool
  pub on_error : Bool

pub record Client : Type 0 where
  pub callbacks : Callbacks
  pub transport : Bool
  pub rx_buffer : Bytes
  pub client_id : Bytes
  pub username : Bytes
  pub password : Bytes
  pub has_credentials : Bool
  pub keep_alive_seconds : ℤ
  pub has_will : Bool
  pub will : MqttWill
  pub connected : Bool
  pub connecting : Bool
  pub connack_ready : Bool
  pub connack_error : Option NetworkError
  pub last_packet_id : ℕ
  pub pending_topics : List (ℕ × Bytes)
  pub pending_qos2 : List (ℕ × MqttPublishMessage)
  pub keepalive_running : Bool
  pub last_sent_ms : ℕ
  pub ping_sent_ms : ℕ
  pub clock : ℕ
  pub log : List Effect

abbrev pub max_buffered_bytes : ℕ
max_buffered_bytes = 64 * 1024

-- How the transport answers a `Send`, from what has happened so far.
abbrev pub Transport : Type 0
Transport = List Effect → Bytes → Result (Unit {0})

abbrev pub emit : Effect → Client → Client
emit e c = record c { log = c.log ++ e ∷ [] }

abbrev pub emit_if : Bool → Effect → Client → Client
emit_if b e c = if b then emit e c else c

pub report_error : NetworkError → Client → Client
report_error e c = emit_if c.callbacks.on_error (reports e) c

pub deliver : MqttPublishMessage → Client → Client
deliver m c = emit_if c.callbacks.on_message (delivers m) c

pub next_packet_id : Client → Client × ℕ
next_packet_id c =
    let id = if c.last_packet_id == 0xffff then 1 else c.last_packet_id + 1 in
    (record c { last_packet_id = id }, id)

abbrev pub not_connected_error : NetworkError
not_connected_error = network_error NetworkErrc.not_connected "not connected"

-- `transport->Send`, by the answer `r`: the bytes count as offered either way.
send_answer : Result (Unit {0}) → Client → Client × Result (Unit {0})
send_answer (ok u) c = (record c { last_sent_ms = c.clock }, ok u)
send_answer (err e) c = (c, err e)

pub send_packet : Transport → Bytes → Client → Client × Result (Unit {0})
unfolding send_answer
send_packet net packet c =
    if c.transport
    then send_answer (net c.log packet) (emit (sends packet) c)
    else (c, err not_connected_error)

abbrev pub sent : Transport → Bytes → Client → Client
sent net packet c = (send_packet net packet c).0

-- The fields that `Teardown` clears before it turns to the transport.
pub forget_session : Client → Client
forget_session c = record c {
  transport = false;
  connected = false;
  connecting = false;
  connack_ready = false;
  rx_buffer = [];
  pending_qos2 = [];
  pending_topics = [];
  keepalive_running = false;
  ping_sent_ms = 0;
}

pub teardown : Bool → Client → Client
unfolding forget_session
teardown send_disconnect c =
    let d = forget_session c in
    if c.transport
    then emit_if c.callbacks.on_disconnected tells_disconnected
        (emit closes (emit_if send_disconnect (sends encode_disconnect) d))
    else d

pub on_transport_closed : Client → Client
on_transport_closed c = teardown false c
