-- ===== src/Mqtt/Client/Handlers/Receive.antt =====
-- `OnTransportData` of software_mqtt_client.cpp: the loop ends, and the receive buffer is bounded.
use esp_modem_link.Common.{
  ℕ, zero, suc, ◌+◌, ◌≤◌, ◌<◌, Bool, false, Option, none, some, [], ◌∷◌, ◌++◌, arith, ◌≡◌, refl, ap,
  ◌∙◌, ◌⊎◌, inl, inr,
}
use esp_modem_link.Common.Lists.{Bytes, length, length-append}
use esp_modem_link.Common.Tests.{ltb, Bool-cases, Option-cases}
use esp_modem_link.Error.{NetworkError}
use esp_modem_link.Mqtt.Packet.{MqttPacket, take_packet}
use esp_modem_link.Mqtt.Packet.Stream.{take_packet-Taken}
use esp_modem_link.Mqtt.Packet.Messages.{
  MqttConnack, MqttPublishMessage, parse_connack, parse_publish, parse_suback,
}
use esp_modem_link.Mqtt.Client.{
  Client, Transport, max_buffered_bytes, report_error, deliver, sent, send_packet, teardown,
}
use esp_modem_link.Mqtt.Client.Handlers.{
  connack_answer, handle_connack, accept_publish, publish_read, handle_publish, answer_pubrec,
  handle_pubrec, deliver_held, answer_pubrel, handle_pubrel, handle_publish_complete,
  report_refused, suback_read, handle_suback, handle_unsuback, handle_packet, take_loop,
  overflow_error, on_transport_data,
}

-- A step that leaves the receive buffer alone, or clears it.
abbrev Keeps : Client → Client → Type 0
Keeps c d = (d.rx_buffer ≡ c.rx_buffer) ⊎ (d.rx_buffer ≡ [])

report_error-Keeps : (e : NetworkError) (c : Client) → (report_error e c).rx_buffer ≡ c.rx_buffer
unfolding report_error
report_error-Keeps e c = ground arith

deliver-Keeps : (m : MqttPublishMessage) (c : Client) → (deliver m c).rx_buffer ≡ c.rx_buffer
unfolding deliver
deliver-Keeps m c = ground arith

sent-Keeps :
    (net : Transport) (packet : Bytes) (c : Client) → (sent net packet c).rx_buffer ≡ c.rx_buffer
unfolding send_packet
sent-Keeps net packet c = ground arith

connack_answer-Keeps :
    (a : Option MqttConnack) (c : Client) → (connack_answer a c).rx_buffer ≡ c.rx_buffer
unfolding connack_answer
connack_answer-Keeps none c = refl
connack_answer-Keeps (some a) c = ground arith

handle_connack-Keeps : (p : MqttPacket) (c : Client) → (handle_connack p c).rx_buffer ≡ c.rx_buffer
unfolding handle_connack
handle_connack-Keeps p c =
    ground (arith, connack_answer-Keeps (parse_connack p.body) (record c { connecting = false }))

pub accept_publish-Keeps :
    (net : Transport) (qos : ℕ) (m : MqttPublishMessage) (c : Client)
    → (accept_publish net qos m c).rx_buffer ≡ c.rx_buffer
unfolding accept_publish send_packet deliver
accept_publish-Keeps net qos m c = ground arith

publish_read-Keeps :
    (net : Transport) (qos : ℕ) (o : Option MqttPublishMessage) (c : Client)
    → (publish_read net qos o c).rx_buffer ≡ c.rx_buffer
unfolding publish_read
publish_read-Keeps net qos none c = report_error-Keeps _ c
publish_read-Keeps net qos (some m) c = accept_publish-Keeps net qos m c

handle_publish-Keeps :
    (net : Transport) (p : MqttPacket) (c : Client) → Keeps c (handle_publish net p c)
unfolding handle_publish teardown
handle_publish-Keeps net p c = elim (Bool-cases (ltb 2 p.header.qos)) [
  | inl bad ↦ inr (rw bad (ground arith))
  | inr fine ↦ inl (rw fine (publish_read-Keeps net p.header.qos (parse_publish p.header p.body) c))
]

handle_pubrec-Keeps :
    (net : Transport) (p : MqttPacket) (c : Client)
    → (handle_pubrec net p c).rx_buffer ≡ c.rx_buffer
unfolding handle_pubrec answer_pubrec send_packet report_error
handle_pubrec-Keeps net p c = ground arith

pub answer_pubrel-Keeps :
    (net : Transport) (id : ℕ) (c : Client) → (answer_pubrel net id c).rx_buffer ≡ c.rx_buffer
unfolding answer_pubrel deliver_held deliver send_packet
answer_pubrel-Keeps net id c = ground arith

handle_pubrel-Keeps :
    (net : Transport) (p : MqttPacket) (c : Client)
    → (handle_pubrel net p c).rx_buffer ≡ c.rx_buffer
unfolding handle_pubrel answer_pubrel deliver_held deliver send_packet report_error
handle_pubrel-Keeps net p c = ground arith

handle_publish_complete-Keeps :
    (p : MqttPacket) (c : Client) → (handle_publish_complete p c).rx_buffer ≡ c.rx_buffer
unfolding handle_publish_complete report_error
handle_publish_complete-Keeps p c = ground arith

report_refused-Keeps :
    (topic codes : Bytes) (c : Client) → (report_refused topic codes c).rx_buffer ≡ c.rx_buffer
unfolding report_refused report_error
report_refused-Keeps topic [] c = refl
report_refused-Keeps topic (code ∷ codes) c = ground (arith, report_refused-Keeps topic codes c)

handle_suback-Keeps : (p : MqttPacket) (c : Client) → (handle_suback p c).rx_buffer ≡ c.rx_buffer
unfolding handle_suback
handle_suback-Keeps p c = elim (Option-cases (parse_suback p.body)) [
  | inl bad ↦ rw (bad, suback_read) (report_error-Keeps _ c)
  | inr (s, read) ↦ rw (read, suback_read) (report_refused-Keeps _ s.return_codes _)
]

handle_unsuback-Keeps :
    (p : MqttPacket) (c : Client) → (handle_unsuback p c).rx_buffer ≡ c.rx_buffer
unfolding handle_unsuback report_error
handle_unsuback-Keeps p c = ground arith

handle_packet-Keeps :
    (net : Transport) (p : MqttPacket) (c : Client) → Keeps c (handle_packet net p c)
unfolding handle_packet
handle_packet-Keeps net p c = ground (
  arith,
  handle_connack-Keeps p c,
  handle_publish-Keeps net p c,
  handle_publish_complete-Keeps p c,
  handle_pubrec-Keeps net p c,
  handle_pubrel-Keeps net p c,
  handle_suback-Keeps p c,
  handle_unsuback-Keeps p c,
)

length-Keeps : (c d : Client) → Keeps c d → length d.rx_buffer ≤ length c.rx_buffer
length-Keeps c d (inl same) = rw same (omega arith)
length-Keeps c d (inr cleared) = rw cleared (omega arith)

teardown_clears : (b : Bool) (c : Client) → (teardown b c).rx_buffer ≡ []
unfolding teardown
teardown_clears b c = ground arith

-- What the loop ends with: no whole packet is left, and the buffer has not grown.
record Drained (c d : Client) : Type 0 where
  no_packet : take_packet d.rx_buffer ≡ none
  not_longer : length d.rx_buffer ≤ length c.rx_buffer

taken_shorter :
    (buffer : Bytes) (p : MqttPacket) (rest : Bytes)
    → take_packet buffer ≡ some (p, rest)
    → length rest < length buffer
taken_shorter buffer p rest e =
    let t = take_packet-Taken buffer [] p rest e in
    omega
      (arith, length-append t.field (p.body ++ rest), length-append p.body rest, ap length t.splits)

pub take_loop_stop :
    (fuel : ℕ) (net : Transport) (c : Client)
    → take_packet c.rx_buffer ≡ none
    → take_loop (suc fuel) net c ≡ some c
unfolding take_loop
take_loop_stop fuel net c e = rw (e, take_loop)

pub take_loop_next :
    (fuel : ℕ) (net : Transport) (c : Client) {p : MqttPacket} {rest : Bytes}
    → take_packet c.rx_buffer ≡ some (p, rest)
    → take_loop (suc fuel) net c
      ≡ take_loop fuel net (handle_packet net p (record c { rx_buffer = rest }))
unfolding take_loop
take_loop_next fuel net c e = rw (e, take_loop)

take_loop-Drained :
    (fuel : ℕ) (net : Transport) (c : Client)
    → length c.rx_buffer < fuel
    → (d : Client) × (take_loop fuel net c ≡ some d) × Drained c d
take_loop-Drained zero net c h = absurd (omega arith)
take_loop-Drained (suc fuel) net c h = elim (Option-cases (take_packet c.rx_buffer)) [
  | inl empty ↦
      (c, take_loop_stop fuel net c empty, record { no_packet = empty; not_longer = omega arith })
  | inr ((p, rest), taken) ↦
      let shorter = taken_shorter c.rx_buffer p rest taken in
      let left = record c { rx_buffer = rest } in
      let handled = handle_packet net p left in
      let kept = length-Keeps left handled (handle_packet-Keeps net p left) in
      let (d, runs, drained) = take_loop-Drained fuel net handled (omega arith) in
      (
        d,
        take_loop_next fuel net c taken ∙ runs,
        record { no_packet = drained.no_packet; not_longer = omega (arith, drained.not_longer) },
      )
]

pub take_packet-nil : take_packet [] ≡ none
take_packet-nil = elim (Option-cases (take_packet [])) [
  | inl e ↦ e
  | inr ((p, rest), taken) ↦ absurd (omega (arith, taken_shorter [] p rest taken))
]

-- Whatever the transport hands over, the receive handler ends; it then holds at most 64 KiB, and no
-- whole packet is left in the buffer.
pub on_transport_data_ends :
    (net : Transport) (incoming : Bytes) (c : Client)
    → (d : Client) × (on_transport_data net incoming c ≡ some d)
      × (take_packet d.rx_buffer ≡ none)
      × (length d.rx_buffer ≤ max_buffered_bytes)
unfolding on_transport_data
on_transport_data_ends net incoming c =
    let buffered = record c { rx_buffer = c.rx_buffer ++ incoming } in
    elim (Bool-cases (ltb max_buffered_bytes (length (c.rx_buffer ++ incoming)))) [
      | inl over ↦ (
        teardown false (report_error overflow_error (record c { rx_buffer = [] })),
        rw over,
        rw (teardown_clears false (report_error overflow_error (record c { rx_buffer = [] })))
            take_packet-nil,
        rw (teardown_clears false (report_error overflow_error (record c { rx_buffer = [] })))
            (omega arith),
      )
      | inr fits ↦
          let (d, runs, drained) =
            take_loop-Drained (length buffered.rx_buffer + 1) net buffered (omega arith) in
          (d, rw fits runs, drained.no_packet, ground (arith, drained.not_longer))
    ]
