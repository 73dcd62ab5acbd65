-- ===== src/Mqtt/Tests.antt =====
-- Runs of the MQTT codec and client, and each theorem at a concrete input.
use esp_modem_link.Common.{◌≤◌, true, false, none, some, [], ◌∷◌, ◌++◌, arith, ◌≡◌, ◌≢◌, refl}
use esp_modem_link.Common.Int.{pos}
use esp_modem_link.Common.Lists.{Bytes, length}
use esp_modem_link.Common.Map.{lookup}
use esp_modem_link.Error.{ok}
use esp_modem_link.Mqtt.Packet.{MqttPacket, take_packet, publish}
use esp_modem_link.Mqtt.Packet.Messages.{
  MqttPublishMessage, MqttWill, encode_publish, parse_publish,
}
use esp_modem_link.Mqtt.Packet.Messages.RoundTrip.{
  message_of, length-publish_body, parse_publish-encode_publish,
}
use esp_modem_link.Mqtt.Client.{Client, Transport, sends, max_buffered_bytes}
use esp_modem_link.Mqtt.Client.Handlers.{on_transport_data}
use esp_modem_link.Mqtt.Client.Handlers.ExactlyOnce.{
  delivered, publishes, releases, receive_all, again, receive_all-delivers_spec, exactly_once,
}
use esp_modem_link.Mqtt.Client.Handlers.OnWire.{receive_wire, receive_wire-delivers_spec}
use esp_modem_link.Mqtt.Client.Handlers.Receive.{on_transport_data_ends}
use esp_modem_link.Mqtt.Client.Session
use esp_modem_link.Mqtt.Client.Session.PacketIds.{id_after, id_after-distinct}
use esp_modem_link.Mqtt.Client.Session.Wire.{publish_id, publish_wire}

parse_publish-encode_publish_example :
    (p : MqttPacket) × (take_packet (encode_publish 7 (97 ∷ []) (1 ∷ 2 ∷ []) 1 false true ++ [])
      ≡ some (p, []))
    × (p.header.type ≡ publish)
    × (p.header.dup ≡ true)
    × (p.header.qos ≡ 1)
    × (parse_publish p.header p.body ≡ some (message_of 7 (97 ∷ []) (1 ∷ 2 ∷ []) 1 false))
parse_publish-encode_publish_example =
    parse_publish-encode_publish 7 (97 ∷ []) (1 ∷ 2 ∷ []) 1 false true [] (omega arith)
      (omega arith) (omega arith) (omega (arith, length-publish_body 7 (97 ∷ []) (1 ∷ 2 ∷ []) 1))

-- A transport that takes every send.
abbrev accepts : Transport
accepts log packet = ok tt

abbrev nothing : MqttWill
nothing = record { topic = []; payload = []; qos = 0; retain = false }

-- An established session in which every callback is set.
abbrev established : Client
established = record {
  callbacks = record {
    on_connected = true;
    on_disconnected = true;
    on_message = true;
    on_publish_ack = true;
    on_error = true;
  };
  transport = true;
  rx_buffer = [];
  client_id = [];
  username = [];
  password = [];
  has_credentials = false;
  keep_alive_seconds = pos 60;
  has_will = false;
  will = nothing;
  connected = true;
  connecting = false;
  connack_ready = true;
  connack_error = none;
  last_packet_id = 65534;
  pending_topics = [];
  pending_qos2 = [];
  keepalive_running = true;
  last_sent_ms = 0;
  ping_sent_ms = 0;
  clock = 1000;
  log = [];
}

abbrev first : MqttPublishMessage
first = record { topic = 97 ∷ []; packet_id = 5; qos = 2; retain = false; payload = 1 ∷ [] }

abbrev second : MqttPublishMessage
second = record { topic = 98 ∷ []; packet_id = 6; qos = 2; retain = false; payload = 2 ∷ [] }

receive_all-delivers_spec_example :
    delivered
      (receive_all accepts
        (publishes first ∷ publishes second ∷ publishes first ∷ releases 6 ∷ releases 5 ∷ [])
        established).log
    ≡ second ∷ first ∷ []
unfolding lookup
receive_all-delivers_spec_example =
    receive_all-delivers_spec accepts
      (publishes first ∷ publishes second ∷ publishes first ∷ releases 6 ∷ releases 5 ∷ [])
      established refl

exactly_once_example :
    delivered
      (receive_all accepts (publishes first ∷ (publishes first ∷ [] ++ again 2 5)) established).log
    ≡ first ∷ []
unfolding lookup
exactly_once_example =
    exactly_once accepts first (publishes first ∷ []) 1 established refl refl ((refl, tt))

on_transport_data_ends_example :
    (d : Client) × (on_transport_data accepts (208 ∷ 0 ∷ 48 ∷ []) established ≡ some d)
    × (take_packet d.rx_buffer ≡ none)
    × (length d.rx_buffer ≤ max_buffered_bytes)
on_transport_data_ends_example = on_transport_data_ends accepts (208 ∷ 0 ∷ 48 ∷ []) established

id_after-distinct_example :
    (1 ≤ id_after 1 established)
    × (id_after 1 established ≤ 65535)
    × (id_after 1 established ≢ id_after 4 established)
id_after-distinct_example =
    id_after-distinct 1 4 established (omega arith) (omega arith) (omega arith)

publish_wire_example :
    (bytes : Bytes) × (p : MqttPacket) × ((Session.publish accepts
        (97 ∷ [])
        (1 ∷ [])
        2
        false
        established).0.log
      ≡ sends bytes ∷ [])
    × (take_packet bytes ≡ some (p, []))
    × (p.header.type ≡ publish)
    × (p.header.dup ≡ false)
    × (parse_publish p.header p.body
        ≡ some (message_of (publish_id 2 established) (97 ∷ []) (1 ∷ []) 2 false))
    × (accepts [] bytes ≡ ok tt
        → (Session.publish accepts (97 ∷ []) (1 ∷ []) 2 false established).1
          ≡ ok (publish_id 2 established))
publish_wire_example =
    publish_wire accepts (97 ∷ []) (1 ∷ []) 2 false established refl refl (omega arith)
      (omega arith) (omega arith) (omega arith)

receive_wire-delivers_spec_example :
    (d : Client) × (receive_wire accepts
        ((false, publishes first) ∷ (true, publishes first) ∷ (false, releases 5) ∷ [])
        established
      ≡ some d)
    × (delivered d.log ≡ first ∷ [])
unfolding lookup
receive_wire-delivers_spec_example =
    receive_wire-delivers_spec accepts
      ((false, publishes first) ∷ (true, publishes first) ∷ (false, releases 5) ∷ []) established
      refl refl
      (
        (refl, omega arith, omega arith, omega arith),
        ((refl, omega arith, omega arith, omega arith), (omega arith, tt)),
      )
