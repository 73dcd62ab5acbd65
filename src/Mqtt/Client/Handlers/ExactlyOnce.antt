-- ===== src/Mqtt/Client/Handlers/ExactlyOnce.antt =====
-- Delivery at QoS 2: `HandlePublish` and `HandlePubrel` of software_mqtt_client.cpp against a table
-- of slots, one for each packet id.
use esp_modem_link.Common.{
  ℕ, zero, suc, true, Option, none, some, List, [], ◌∷◌, ◌++◌, append_assoc, append-nil, arith, ◌≡◌,
  refl, sym, ap, ◌∙◌, inl, inr,
}
use esp_modem_link.Common.Lists.{Bytes, All}
use esp_modem_link.Common.Map.{lookup, emplace, erase, or_else, lookup-emplace, lookup-erase}
use esp_modem_link.Common.Tests.{◌==◌, ==_iff, if◌then◌else◌, Bool-cases}
use esp_modem_link.Mqtt.Packet.{pubrec, pubcomp}
use esp_modem_link.Mqtt.Packet.Messages.{MqttPublishMessage, encode_packet_id_ack}
use esp_modem_link.Mqtt.Client.{
  Client, Callbacks, Transport, Effect, sends, closes, delivers, acknowledges, reports,
  tells_connected, tells_disconnected, deliver, sent, send_packet,
}
use esp_modem_link.Mqtt.Client.Handlers.{accept_publish, answer_pubrel, deliver_held}
use mathlib.Core.Path.{fun_ext}

-- The messages that a log shows to the application.
abbrev pub delivered : List Effect → List MqttPublishMessage
delivered [] = []
delivered (delivers m ∷ es) = m ∷ delivered es
delivered (e ∷ es) = delivered es

pub delivered-append : (es fs : List Effect) → delivered (es ++ fs) ≡ delivered es ++ delivered fs
delivered-append [] fs = refl
delivered-append (delivers m ∷ es) fs = ap (◌∷◌ m) (delivered-append es fs)
delivered-append (sends b ∷ es) fs = delivered-append es fs
delivered-append (closes ∷ es) fs = delivered-append es fs
delivered-append (acknowledges n ∷ es) fs = delivered-append es fs
delivered-append (reports e ∷ es) fs = delivered-append es fs
delivered-append (tells_connected ∷ es) fs = delivered-append es fs
delivered-append (tells_disconnected ∷ es) fs = delivered-append es fs

-- A send delivers nothing and leaves the held messages and the callbacks alone.
pub sent_keeps :
    (net : Transport) (packet : Bytes) (c : Client)
    → (delivered (sent net packet c).log ≡ delivered c.log)
      × ((sent net packet c).pending_qos2 ≡ c.pending_qos2)
      × ((sent net packet c).callbacks ≡ c.callbacks)
unfolding send_packet
sent_keeps net packet c =
    ground (arith, delivered-append c.log (sends packet ∷ []), append-nil (delivered c.log))

-- Inbound packets of the QoS 2 exchange.
pub data Inbound : Type 0 where
  publishes : MqttPublishMessage → Inbound
  releases : ℕ → Inbound

unfoldable pub receive : Transport → Inbound → Client → Client
receive net (publishes m) c = accept_publish net 2 m c
receive net (releases id) c = answer_pubrel net id c

unfoldable pub receive_all : Transport → List Inbound → Client → Client
receive_all net [] c = c
receive_all net (e ∷ es) c = receive_all net es (receive net e c)

-- The specification: each id has a slot. A PUBLISH fills an empty slot; a PUBREL empties a slot and
-- delivers what it held.
abbrev pub Slots : Type 0
Slots = ℕ → Option MqttPublishMessage

abbrev pub filled : Slots → MqttPublishMessage → Slots
filled s m k = if m.packet_id == k then some (or_else (s m.packet_id) m) else s k

abbrev pub emptied : Slots → ℕ → Slots
emptied s id k = if id == k then none else s k

abbrev pub held : Option MqttPublishMessage → List MqttPublishMessage
held none = []
held (some m) = m ∷ []

abbrev pub delivers_spec : Slots → List Inbound → List MqttPublishMessage
delivers_spec s [] = []
delivers_spec s (publishes m ∷ es) = delivers_spec (filled s m) es
delivers_spec s (releases id ∷ es) = held (s id) ++ delivers_spec (emptied s id) es

-- The slots that the client holds.
abbrev pub slots : Client → Slots
slots c k = lookup k c.pending_qos2

receive_publishes :
    (net : Transport) (m : MqttPublishMessage) (c : Client)
    → (delivered (receive net (publishes m) c).log ≡ delivered c.log)
      × ((receive net (publishes m) c).callbacks ≡ c.callbacks)
      × ((k : ℕ) → slots (receive net (publishes m) c) k ≡ filled (slots c) m k)
unfolding receive accept_publish
receive_publishes net m c =
    let held_back = record c { pending_qos2 = emplace m.packet_id m c.pending_qos2 } in
    let (logs, table, calls) = sent_keeps net (encode_packet_id_ack pubrec m.packet_id) held_back in
    (logs, calls, λ k. rw table (lookup-emplace m.packet_id k m c.pending_qos2))

deliver_held_keeps :
    (o : Option MqttPublishMessage) (c : Client)
    → c.callbacks.on_message ≡ true
    → (delivered (deliver_held o c).log ≡ delivered c.log ++ held o)
      × ((deliver_held o c).pending_qos2 ≡ c.pending_qos2)
      × ((deliver_held o c).callbacks ≡ c.callbacks)
unfolding deliver_held deliver
deliver_held_keeps none c set = (sym (append-nil (delivered c.log)), refl, refl)
deliver_held_keeps (some m) c set = rw set (delivered-append c.log (delivers m ∷ []), refl, refl)

receive_releases :
    (net : Transport) (id : ℕ) (c : Client)
    → c.callbacks.on_message ≡ true
    → (delivered (receive net (releases id) c).log ≡ delivered c.log ++ held (slots c id))
      × ((receive net (releases id) c).callbacks ≡ c.callbacks)
      × ((k : ℕ) → slots (receive net (releases id) c) k ≡ emptied (slots c) id k)
unfolding receive answer_pubrel
receive_releases net id c set =
    let erased = record c { pending_qos2 = erase id c.pending_qos2 } in
    let acked = sent net (encode_packet_id_ack pubcomp id) erased in
    let (logs, table, calls) = sent_keeps net (encode_packet_id_ack pubcomp id) erased in
    let (logs', table', calls') =
      deliver_held_keeps (lookup id c.pending_qos2) acked
        (ap (λ (x : Callbacks). x.on_message) calls ∙ set) in
    (
      logs' ∙ ap (λ (l : List MqttPublishMessage). l ++ held (slots c id)) logs,
      calls' ∙ calls,
      λ k. rw (table', table) (lookup-erase id k c.pending_qos2),
    )

-- On every sequence of QoS 2 packets a client with a message callback delivers what the table of slots
-- delivers: each message at the release of its id, the first copy that was held under the id, and only
-- once.
pub receive_all-delivers_spec :
    (net : Transport) (es : List Inbound) (c : Client)
    → c.callbacks.on_message ≡ true
    → delivered (receive_all net es c).log ≡ delivered c.log ++ delivers_spec (slots c) es
unfolding receive_all
receive_all-delivers_spec net [] c set = sym (append-nil (delivered c.log))
receive_all-delivers_spec net (publishes m ∷ es) c set =
    let (logs, calls, table) = receive_publishes net m c in
    receive_all-delivers_spec net es (receive net (publishes m) c)
      (ap (λ (x : Callbacks). x.on_message) calls ∙ set)
    ∙ rw (logs, fun_ext table) refl
receive_all-delivers_spec net (releases id ∷ es) c set =
    let (logs, calls, table) = receive_releases net id c set in
    receive_all-delivers_spec net es (receive net (releases id) c)
      (ap (λ (x : Callbacks). x.on_message) calls ∙ set)
    ∙ rw (logs, fun_ext table)
        (append_assoc (delivered c.log) (held (slots c id))
          (delivers_spec (emptied (slots c) id) es))

abbrev pub Repeats : ℕ → Inbound → Type 0
Repeats id (publishes m) = m.packet_id ≡ id
Repeats id (releases k) = ⊥

-- `n` further releases of an id.
abbrev pub again : ℕ → ℕ → List Inbound
again zero id = []
again (suc n) id = releases id ∷ again n id

filled_occupied : (s : Slots) (m m' : MqttPublishMessage) → s m.packet_id ≡ some m' → filled s m ≡ s
filled_occupied s m m' e = fun_ext (λ k. at k)
  where
    at : (k : ℕ) → filled s m k ≡ s k
    at k = elim (Bool-cases (m.packet_id == k)) [
      | inl same ↦
          let here : m.packet_id ≡ k = (==_iff m.packet_id k).0 same in
          rw (same, e) (sym e ∙ ap s here)
      | inr other ↦ rw other
    ]

delivers_spec-Repeats :
    (s : Slots) (id : ℕ) (m : MqttPublishMessage) (es fs : List Inbound)
    → s id ≡ some m
    → All (Repeats id) es
    → delivers_spec s (es ++ fs) ≡ delivers_spec s fs
delivers_spec-Repeats s id m [] fs e all = refl
delivers_spec-Repeats s id m (publishes m' ∷ es) fs e (same, all) =
    ap (λ (t : Slots). delivers_spec t (es ++ fs)) (filled_occupied s m' m (ap s same ∙ e))
    ∙ delivers_spec-Repeats s id m es fs e all
delivers_spec-Repeats s id m (releases k ∷ es) fs e all = elim all.0 [ ]

delivers_spec-again : (n id : ℕ) (s : Slots) → s id ≡ none → delivers_spec s (again n id) ≡ []
delivers_spec-again zero id s e = refl
delivers_spec-again (suc n) id s e = rw e (delivers_spec-again n id (emptied s id) (ground arith))

-- Where a message callback is set, a message that is published at QoS 2 under a free id, repeated any
-- number of times before the release, and released any number of times from one on, reaches the
-- application exactly once, with the content of the first copy.
pub exactly_once :
    (net : Transport) (m : MqttPublishMessage) (repeats : List Inbound) (n : ℕ) (c : Client)
    → c.callbacks.on_message ≡ true
    → lookup m.packet_id c.pending_qos2 ≡ none
    → All (Repeats m.packet_id) repeats
    → delivered (receive_all net (publishes m ∷ (repeats ++ again (suc n) m.packet_id)) c).log
      ≡ delivered c.log ++ m ∷ []
exactly_once net m repeats n c set free all =
    let id = m.packet_id in
    let s = filled (slots c) m in
    let first : s id ≡ some m = ground (arith, free) in
    receive_all-delivers_spec net (publishes m ∷ (repeats ++ again (suc n) id)) c set
    ∙ rw (delivers_spec-Repeats s id m repeats (again (suc n) id) first all)
        (rw (delivers_spec-again n id (emptied s id) (ground arith), first) refl)
