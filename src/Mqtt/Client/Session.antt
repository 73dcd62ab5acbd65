-- ===== src/Mqtt/Client/Session.antt =====
-- src/protocol/mqtt/software_mqtt_client.cpp: the calls of the application and the keep-alive task.
-- `Connect` blocks on a CONNACK: it is modelled as the part before the wait and the part behind it.
-- Data that the transport hands over inside a call of it counts as arriving after that call.
pub mod PacketIds
pub mod Wire
use esp_modem_link.Common.{
  ℕ, zero, suc, ◌+◌, ◌*◌, ◌%◌, Bool, true, false, not, ◌&&◌, ◌||◌, Option, none, some, List, [],
  ◌∷◌, ◌++◌,
}
use esp_modem_link.Common.Int.{ℤ, pos, negsuc}
use esp_modem_link.Common.Lists.{Bytes}
use esp_modem_link.Common.Map.{insert, erase}
use esp_modem_link.Common.Tests.{ltb, leb, ◌==◌, if◌then◌else◌}
use esp_modem_link.Error.{
  NetworkError, NetworkErrc, Result, ok, err, network_error, text, timeout_error,
}
use esp_modem_link.Mqtt.Packet.Messages.{
  MqttConnectOptions, MqttWill, encode_connect, encode_publish, encode_subscribe,
  encode_unsubscribe, encode_pingreq,
}
use esp_modem_link.Mqtt.Client.{
  Client, Transport, tells_connected, emit_if, report_error, next_packet_id, not_connected_error,
  send_packet, teardown,
}

pub set_keep_alive : ℤ → Client → Client
set_keep_alive seconds c = record c { keep_alive_seconds = seconds }

pub set_client_id : Bytes → Client → Client
set_client_id id c = record c { client_id = id }

pub set_credentials : Bytes → Bytes → Client → Client
set_credentials user pass c = record c { username = user; password = pass; has_credentials = true }

pub set_will : MqttWill → Client → Client
set_will will c = record c { will = will; has_will = true }

-- `static_cast<uint16_t>(keep_alive_seconds_ < 0 ? 0 : keep_alive_seconds_)`
keep_alive_field : ℤ → ℕ
keep_alive_field (pos n) = n % 65536
keep_alive_field (negsuc n) = 0

pub connect_options : Bool → Client → MqttConnectOptions
unfolding keep_alive_field
connect_options clean_session c = record {
  client_id = c.client_id;
  username = c.username;
  password = c.password;
  has_username = c.has_credentials;
  has_password = c.has_credentials;
  clean_session = clean_session;
  keep_alive_seconds = keep_alive_field c.keep_alive_seconds;
  has_will = c.has_will;
  will = c.will;
}

-- The CONNECT went out, or the connection is taken down again.
connect_sent : Client × Result (Unit {0}) → Client × Result (Unit {0})
connect_sent (c, ok u) = (c, ok u)
connect_sent (c, err e) = (teardown false c, err e)

-- `Connect` up to the wait. `created` and `opened` are the answers of the transport's factory and of
-- its `Connect`; success means that the call now waits for the CONNACK.
pub connect_start :
    Transport → Result (Unit {0}) → Result (Unit {0}) → Bool → Client → Client × Result (Unit {0})
unfolding connect_sent
connect_start net created opened clean_session c =
    if c.connected || c.transport
    then (c, err (network_error NetworkErrc.already_connected "already connected"))
    else let options = connect_options clean_session c in
      let waiting = record c {
        connecting = true;
        connack_ready = false;
        connack_error = none;
        rx_buffer = [];
      } in
      elim created [
        | err e ↦ (waiting, err e)
        | ok _ ↦ elim opened [
          | err e ↦ (waiting, err e)
          | ok _ ↦
              connect_sent
                (send_packet net (encode_connect options) (record waiting { transport = true }))
        ]
      ]

pub stop_keep_alive : Client → Client
stop_keep_alive c = record c { keepalive_running = false }

-- `seconds <= 0`
is_off : ℤ → Bool
is_off (pos n) = n == 0
is_off (negsuc n) = true

pub start_keep_alive : Client → Client
unfolding is_off stop_keep_alive
start_keep_alive c = if is_off c.keep_alive_seconds then c else record (stop_keep_alive c) {
  last_sent_ms = c.clock;
  ping_sent_ms = 0;
  keepalive_running = true;
}

-- The answer to a CONNACK that came.
connect_answered : Option NetworkError → Client → Client × Result (Unit {0})
connect_answered (some e) c = (teardown false c, err e)
connect_answered none c =
    (emit_if c.callbacks.on_connected tells_connected (start_keep_alive c), ok tt)

-- `Connect` behind the wait, which ends with a CONNACK or when the time is over.
pub connect_finish : Client → Client × Result (Unit {0})
unfolding connect_answered
connect_finish c =
    if not c.connack_ready
    then (teardown true c, err (timeout_error (text "no CONNACK from broker")))
    else connect_answered c.connack_error c

pub disconnect : Client → Client
disconnect c = teardown true (stop_keep_alive c)

-- The id that a send went out under, or the error of the send.
answered : ℕ → Client × Result (Unit {0}) → Client × Result ℕ
answered id (c, ok u) = (c, ok id)
answered id (c, err e) = (c, err e)

pub publish : Transport → Bytes → Bytes → ℕ → Bool → Client → Client × Result ℕ
unfolding answered
publish net topic payload qos retain c =
    if not c.connected
    then (c, err not_connected_error)
    else let (d, id) = if ltb 0 qos then next_packet_id c else (c, 0) in
      answered id (send_packet net (encode_publish id topic payload qos retain false) d)

-- A SUBSCRIBE or UNSUBSCRIBE that could not be sent is forgotten again.
remembered : ℕ → Client × Result (Unit {0}) → Client × Result ℕ
remembered id (c, ok u) = (c, ok id)
remembered id (c, err e) = (record c { pending_topics = erase id c.pending_topics }, err e)

-- `Subscribe` and `Unsubscribe` up to the packet, which `encode` builds from the id.
request : Transport → Bytes → (ℕ → Bytes) → Client → Client × Result ℕ
unfolding remembered
request net topic encode c =
    if not c.connected
    then (c, err not_connected_error)
    else let (d, id) = next_packet_id c in
      remembered id (
        send_packet net (encode id)
          (record d { pending_topics = insert id topic d.pending_topics }))

pub subscribe : Transport → Bytes → ℕ → Client → Client × Result ℕ
unfolding request
subscribe net topic qos c = request net topic (λ id. encode_subscribe id topic qos) c

-- `Unsubscribe` gives no id back.
without_id : Client × Result ℕ → Client × Result (Unit {0})
without_id (c, ok id) = (c, ok tt)
without_id (c, err e) = (c, err e)

pub unsubscribe : Transport → Bytes → Client → Client × Result (Unit {0})
unfolding request without_id
unsubscribe net topic c = without_id (request net topic (λ id. encode_unsubscribe id topic) c)

-- The time of a PINGREQ is kept only if it went out.
ping_answered : Client × Result (Unit {0}) → Client
ping_answered (c, ok u) = record c { ping_sent_ms = c.clock }
ping_answered (c, err e) = c

-- One round of `KeepAliveLoop` behind the sleep, at the clock of the state; `seconds` is the period
-- that the loop read when it began. `now - t >= interval` is `t + interval <= now`.
pub keep_alive_round : Transport → ℕ → Client → Client
unfolding ping_answered
keep_alive_round net seconds c =
    let interval = seconds * 1000 in
    if not c.keepalive_running
    then c
    else if not (c.ping_sent_ms == 0)
    then (if leb (c.ping_sent_ms + interval) c.clock
        then teardown false
            (report_error (network_error NetworkErrc.timeout "no PINGRESP from broker") c)
        else c)
    else if leb (c.last_sent_ms + interval) c.clock
    then ping_answered (send_packet net encode_pingreq c)
    else c
