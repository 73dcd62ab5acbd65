-- ===== src/Mqtt/Packet/Stream.antt =====
-- `TakePacket` on a byte stream that arrives in pieces, and on what `EncodePacket` framed.
use esp_modem_link.Common.{
  ℕ, suc, ◌+◌, ◌*◌, ◌%◌, ◌≤◌, ◌<◌, bit_and, bit_or, arith, none, some, [], ◌∷◌, ◌++◌, append_assoc,
  append-nil, ◌≡◌, sym, ◌∙◌, inl, inr, ap,
}
use esp_modem_link.Common.Lists.{
  Bytes, length, length-append, take, drop, take-append-drop, length-take, length-drop,
  take-append_length, drop-append_length, take-append_le, drop-append_le, drop-drop,
}
use esp_modem_link.Common.Tests.{Option-cases}
use esp_modem_link.Mqtt.Packet.{
  MqttFixedHeader, MqttPacket, max_remaining_length, flags_for, encode_remaining_length,
  decode_remaining_length, frame, take_body, take_packet, encode_packet,
}
use esp_modem_link.Mqtt.Packet.Flags.{
  flag_value, flags_for_value, flag_value-lt, first_byte, read_flags,
}
use esp_modem_link.Mqtt.Packet.Lengths.{
  decode-encode_remaining_length, decode_remaining_length_ok, decode_remaining_length_malformed,
  Continues, LengthField, length_value, decode_remaining_length-LengthField,
}

-- `TakePacket` on a byte, a length field `field`, and a body of the length that the field says.
take_body_frame :
    (h : MqttFixedHeader) (first : ℕ) (field body rest : Bytes)
    → h.type < 16
    → h.qos < 4
    → h.remaining_length ≡ length body
    → first ≡ h.type * 16 + flag_value h.dup h.qos h.retain
    → take_body first (first ∷ (field ++ (body ++ rest))) (length body) (length field)
      ≡ some (record { header = h; body = body }, rest)
unfolding take_body
take_body_frame h first field body rest ht hq hl e =
    let n : 1 + length field ≡ suc (length field) = omega arith in
    let m : 1 + length field + length body ≡ suc (length (field ++ body)) =
      omega (arith, length-append field body) in
    ground (
      arith,
      n,
      m,
      read_flags h.type first h.qos h.dup h.retain ht e,
      length-append field (body ++ rest),
      length-append body rest,
      drop-append_length field (body ++ rest),
      take-append_length body rest,
      drop-append_length (field ++ body) rest,
      append_assoc field body rest,
    )

take_packet_frame :
    (first : ℕ) (buffer : Bytes) (v n : ℕ)
    → decode_remaining_length buffer ≡ some (v, n)
    → take_packet (first ∷ buffer) ≡ take_body first (first ∷ buffer) v n
unfolding take_packet
take_packet_frame first buffer v n e = rw e

-- `TakePacket` reads back what `EncodePacket` framed, for a type of four bits, a QoS of two and a body
-- of the declared length within the limit, and leaves what follows it.
pub take_packet-encode_packet :
    (h : MqttFixedHeader) (body rest : Bytes)
    → h.type < 16
    → h.qos < 4
    → h.remaining_length ≡ length body
    → length body ≤ max_remaining_length
    → take_packet (encode_packet h body ++ rest) ≡ some (record { header = h; body = body }, rest)
unfolding encode_packet frame
take_packet-encode_packet h body rest ht hq hl hm =
    let field = encode_remaining_length (length body) in
    let first = bit_or (h.type * 16) (bit_and (flags_for h) 0x0f) % 256 in
    let flags = flags_for_value h (omega arith) in
    let e : first ≡ h.type * 16 + flag_value h.dup h.qos h.retain = rw flags (
      first_byte h.type (flag_value h.dup h.qos h.retain) ht
        (flag_value-lt h.dup h.retain h.qos)) in
    rw append_assoc (
      take_packet_frame first (field ++ (body ++ rest)) (length body) (length field)
        (decode-encode_remaining_length (length body) (body ++ rest) hm)
      ∙ take_body_frame h first field body rest ht hq hl e)

take_body_ok :
    (first : ℕ) (buffer more : Bytes) (v n : ℕ) (p : MqttPacket) (rest : Bytes)
    → take_body first buffer v n ≡ some (p, rest)
    → (take_body first (buffer ++ more) v n ≡ some (p, rest ++ more))
      × (take (1 + n + v) buffer ++ rest ≡ buffer)
      × (length rest + (1 + n + v) ≡ length buffer)
      × (p.header.remaining_length ≡ v)
      × (length p.body ≡ v)
      × (p.body ++ rest ≡ drop (1 + n) buffer)
unfolding take_body
take_body_ok first buffer more v n p rest e = ground (
  arith,
  length-append buffer more,
  drop-append_le (1 + n) buffer more,
  take-append_le v (drop (1 + n) buffer) more,
  drop-append_le (1 + n + v) buffer more,
  length-drop (1 + n) buffer,
  length-take v (drop (1 + n) buffer),
  length-drop (1 + n + v) buffer,
  take-append-drop (1 + n + v) buffer,
  take-append-drop v (drop (1 + n) buffer),
  drop-drop v (1 + n) buffer,
)

-- A packet that was taken, against the buffer that it was taken from and any bytes behind it.
pub record Taken (buffer more : Bytes) (p : MqttPacket) (rest : Bytes) : Type 0 where
  -- Bytes that arrive later change neither the packet nor what comes before them.
  pub stable : take_packet (buffer ++ more) ≡ some (p, rest ++ more)
  -- Exactly the packet is erased: its first byte, the octets of its length, and its body.
  pub first : ℕ
  pub field : Bytes
  pub splits : first ∷ (field ++ (p.body ++ rest)) ≡ buffer
  pub form : LengthField field
  pub at_most : length field ≤ 4
  pub says : length_value field ≡ length p.body
  pub declared : p.header.remaining_length ≡ length p.body

-- Whatever `TakePacket` takes, it erases the packet's own bytes and no more; it takes the same
-- packet if more bytes had arrived; and the body has the length that the header declares.
pub take_packet-Taken :
    (buffer more : Bytes) (p : MqttPacket) (rest : Bytes)
    → take_packet buffer ≡ some (p, rest)
    → Taken buffer more p rest
take_packet-Taken [] more p rest e = unfold take_packet in cc
take_packet-Taken (first ∷ buffer) more p rest e =
    elim (Option-cases (decode_remaining_length buffer)) [
      | inl short ↦ unfold take_packet in cc
      | inr ((v, n), d) ↦
          let (later, fits, positive, small) = decode_remaining_length_ok buffer more v n d in
          let taken : take_body first (first ∷ buffer) v n ≡ some (p, rest) =
            sym (take_packet_frame first buffer v n d) ∙ e in
          let (stays, splits, sizes, says, holds, body) =
            take_body_ok first (first ∷ buffer) more v n p rest taken in
          let next : 1 + n ≡ suc n = omega arith in
          let (field, behind, front, form, count, value) =
            decode_remaining_length-LengthField buffer v n d in
          let behind_field : p.body ++ rest ≡ behind =
            body
            ∙ ap (λ (t : ℕ). drop t (first ∷ buffer)) next
            ∙ ap (λ (t : ℕ). drop t buffer) (sym count)
            ∙ ap (drop (length field)) (sym front)
            ∙ drop-append_length field behind in
          record {
            stable = take_packet_frame first (buffer ++ more) v n later ∙ stays;
            first = first;
            field = field;
            splits = ap (◌∷◌ first) (ap (◌++◌ field) behind_field ∙ front);
            form = form;
            at_most = omega (arith, small, count);
            says = value ∙ sym holds;
            declared = says ∙ sym holds;
          }
    ]

-- Every proper prefix of a framed packet is incomplete: nothing is taken from it.
pub take_packet_prefix :
    (h : MqttFixedHeader) (body front back : Bytes) (x : ℕ)
    → h.type < 16
    → h.qos < 4
    → h.remaining_length ≡ length body
    → length body ≤ max_remaining_length
    → encode_packet h body ≡ front ++ (x ∷ back)
    → take_packet front ≡ none
take_packet_prefix h body front back x ht hq hl hm e = elim (Option-cases (take_packet front)) [
  | inl none_yet ↦ none_yet
  | inr ((p, rest), early) ↦
      absurd (contradiction (take_packet-Taken front (x ∷ back) p rest early))
]
  where
    whole : take_packet (front ++ (x ∷ back)) ≡ some (record { header = h; body = body }, [])
    whole = rw (append-nil, e) at (take_packet-encode_packet h body [] ht hq hl hm)

    contradiction : {p : MqttPacket} {rest : Bytes} → Taken front (x ∷ back) p rest → ⊥
    contradiction {p} {rest} t = ground (arith, whole, t.stable, length-append rest (x ∷ back))

-- A malformed length field blocks the stream: no bytes that arrive later make it yield a packet.
take_packet_malformed :
    (first b0 b1 b2 b3 : ℕ) (more : Bytes)
    → Continues b0
    → Continues b1
    → Continues b2
    → Continues b3
    → take_packet (first ∷ b0 ∷ b1 ∷ b2 ∷ b3 ∷ more) ≡ none
unfolding take_packet
take_packet_malformed first b0 b1 b2 b3 more h0 h1 h2 h3 =
    rw (decode_remaining_length_malformed b0 b1 b2 b3 more h0 h1 h2 h3)
