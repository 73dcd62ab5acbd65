-- ===== src/Mqtt/Packet/Messages.antt =====
-- src/protocol/mqtt/mqtt_packet.cpp: the bodies of the single packet types, parsed and encoded.
pub mod RoundTrip
use esp_modem_link.Common.{
  ℕ, ◌+◌, ◌*◌, ◌/◌, ◌%◌, bit_and, bit_or, Bool, true, false, not, ◌&&◌, ◌||◌, Option, none, some,
  List, [], ◌∷◌, ◌++◌,
}
use esp_modem_link.Common.Lists.{Bytes, codes, length, get_or, drop}
use esp_modem_link.Common.Tests.{ltb, ◌==◌, if◌then◌else◌, ◌>>=◌}
use esp_modem_link.Mqtt.Packet.{
  MqttPacketType, MqttFixedHeader, publish, connect, subscribe, unsubscribe, pingreq, disconnect,
  pubrel, flags_for, or_if, append_uint16, ack_body, append_string, uint16_at, read_string, frame,
}

pub data MqttConnectReturnCode : Type 0 where
  accepted unacceptable_protocol identifier_rejected : MqttConnectReturnCode
  server_unavailable bad_credentials not_authorized : MqttConnectReturnCode

-- The enumerator of a return code that was found to be at most 5.
pub return_code_of : ℕ → MqttConnectReturnCode
return_code_of code =
    if code == 0
    then accepted
    else if code == 1
    then unacceptable_protocol
    else if code == 2
    then identifier_rejected
    else if code == 3
    then server_unavailable
    else if code == 4
    then bad_credentials
    else not_authorized

pub record MqttConnack : Type 0 where
  pub session_present : Bool
  pub code : MqttConnectReturnCode

pub parse_connack : Bytes → Option MqttConnack
unfolding return_code_of
parse_connack body =
    if not (length body == 2)
    then none
    else if not (bit_and (get_or body 0 0) 0xfe == 0)
    then none
    else if ltb 5 (get_or body 1 0)
    then none
    else some (record {
      session_present = not (bit_and (get_or body 0 0) 0x01 == 0);
      code = return_code_of (get_or body 1 0);
    })

pub record MqttPublishMessage : Type 0 where
  pub topic : Bytes
  pub packet_id : ℕ
  pub qos : ℕ
  pub retain : Bool
  pub payload : Bytes

-- `ParsePublish` once the topic is read, up to the byte at `offset`.
pub parse_publish_at : MqttFixedHeader → Bytes → Bytes → ℕ → Option MqttPublishMessage
parse_publish_at header body topic offset =
    if ltb 0 header.qos
    then (if ltb (length body) (offset + 2)
        then none
        else some (record {
          topic = topic;
          packet_id = uint16_at body offset % 65536;
          qos = header.qos;
          retain = header.retain;
          payload = drop (offset + 2) body;
        }))
    else some (record {
      topic = topic;
      packet_id = 0;
      qos = header.qos;
      retain = header.retain;
      payload = drop offset body;
    })

pub parse_publish : MqttFixedHeader → Bytes → Option MqttPublishMessage
parse_publish header body =
    if ltb 2 header.qos
    then none
    else read_string body 0 >>= λ r. parse_publish_at header body r.0 r.1

pub record MqttSuback : Type 0 where
  pub packet_id : ℕ
  pub return_codes : Bytes

pub parse_suback : Bytes → Option MqttSuback
parse_suback body =
    if ltb (length body) 3
    then none
    else some (record { packet_id = uint16_at body 0 % 65536; return_codes = drop 2 body })

pub parse_packet_id : Bytes → Option ℕ
parse_packet_id body = if not (length body == 2) then none else some (uint16_at body 0 % 65536)

pub record MqttWill : Type 0 where
  pub topic : Bytes
  pub payload : Bytes
  pub qos : ℕ
  pub retain : Bool

pub record MqttConnectOptions : Type 0 where
  pub client_id : Bytes
  pub username : Bytes
  pub password : Bytes
  pub has_username : Bool
  pub has_password : Bool
  pub clean_session : Bool
  pub keep_alive_seconds : ℕ
  pub has_will : Bool
  pub will : MqttWill

pub connect_flags : MqttConnectOptions → ℕ
connect_flags o =
    let session = or_if o.clean_session 0x02 0 in
    let will =
      if o.has_will
      then or_if o.will.retain 0x20
          (bit_or (bit_or session 0x04) (bit_and o.will.qos 0x03 * 8 % 256))
      else session in
    or_if o.has_username 0x80 (or_if o.has_password 0x40 will)

-- `if (test) AppendString(body, value);`
abbrev append_string_if : Bool → Bytes → Bytes → Bytes
append_string_if test value out = if test then append_string out value else out

pub connect_body : MqttConnectOptions → Bytes
connect_body o =
    let head = append_string [] (codes "MQTT") ++ 4 ∷ connect_flags o % 256 ∷ [] in
    let client = append_string (append_uint16 head o.keep_alive_seconds) o.client_id in
    let will =
      append_string_if o.has_will o.will.payload
        (append_string_if o.has_will o.will.topic client) in
    append_string_if o.has_password o.password (append_string_if o.has_username o.username will)

pub encode_connect : MqttConnectOptions → Bytes
encode_connect options = frame connect 0 (connect_body options)

pub publish_body : ℕ → Bytes → Bytes → ℕ → Bytes
publish_body packet_id topic payload qos =
    let named = append_string [] topic in
    (if ltb 0 qos then append_uint16 named packet_id else named) ++ payload

-- The header that `EncodePublish` fills in; its type and length are the default ones.
pub publish_flags : ℕ → Bool → Bool → ℕ
publish_flags qos retain dup =
    flags_for
      (record { type = connect; dup = dup; qos = qos; retain = retain; remaining_length = 0 })

pub encode_publish : ℕ → Bytes → Bytes → ℕ → Bool → Bool → Bytes
encode_publish packet_id topic payload qos retain dup =
    frame publish (publish_flags qos retain dup) (publish_body packet_id topic payload qos)

pub subscribe_body : ℕ → Bytes → ℕ → Bytes
subscribe_body packet_id topic qos =
    append_string (ack_body packet_id) topic ++ bit_and qos 0x03 ∷ []

pub encode_subscribe : ℕ → Bytes → ℕ → Bytes
encode_subscribe packet_id topic qos = frame subscribe 0x02 (subscribe_body packet_id topic qos)

pub encode_unsubscribe : ℕ → Bytes → Bytes
encode_unsubscribe packet_id topic =
    frame unsubscribe 0x02 (append_string (ack_body packet_id) topic)

pub encode_packet_id_ack : MqttPacketType → ℕ → Bytes
encode_packet_id_ack type packet_id =
    frame type (if type == pubrel then 0x02 else 0x00) (ack_body packet_id)

pub encode_pingreq : Bytes
encode_pingreq = frame pingreq 0 []

pub encode_disconnect : Bytes
encode_disconnect = frame disconnect 0 []
