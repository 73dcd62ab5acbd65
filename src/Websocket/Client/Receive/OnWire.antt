-- ===== src/Websocket/Client/Receive/OnWire.antt =====
-- Messages from the bytes up: what `OnTransportData` delivers of the encoded frames of a stream.
use esp_modem_link.Common.{
  ℕ, zero, suc, ◌≤◌, ◌<◌, ◌^◌, Bool, true, false, Option, none, some, List, [], ◌∷◌, ◌++◌,
  append_assoc, append-nil, ◌≡◌, refl, sym, ap, ◌∙◌, arith,
}
use esp_modem_link.Common.Lists.{Bytes, length, length-append}
use esp_modem_link.Common.Tests.{ltb, if◌then◌else◌}
use esp_modem_link.Websocket.Frame.{WsFrame, frame_bytes, frame_header, take_frame}
use esp_modem_link.Websocket.Frame.RoundTrip.{IsSendable, take_frame_bytes}
use esp_modem_link.Websocket.Client.{Client, Surroundings, max_message_bytes}
use esp_modem_link.Websocket.Client.Receive.{
  frame_read, drain_frames, handle_frame, consume_handshake, queue_inbound, on_transport_data,
}
use esp_modem_link.Websocket.Client.Receive.Reassembly.{
  Message, deliveries, Stream, ends, single, first, middle, last, pinged, ponged, data_opcode,
  Holds, Handles,
}
use esp_modem_link.Websocket.Client.Receive.Frames.{
  Handles-ping, Handles-pong, Handles-single, Handles-first, Handles-middle, Handles-last,
}

-- The bytes of frames as a server writes them, without a mask.
unfoldable pub wire : List WsFrame → Bytes
wire [] = []
wire (f ∷ fs) = frame_bytes f.opcode f.payload f.fin none ++ wire fs

-- An upgraded client whose buffer is the bytes of frames.
record IsReady (c : Client) (fs : List WsFrame) (fuel : ℕ) : Type 0 where
  done : c.handshake_done ≡ true
  listens : c.callbacks.on_message ≡ true
  buffer : c.rx_buffer ≡ wire fs
  enough : length (wire fs) < fuel
  fits : length (wire fs) ≤ max_message_bytes

abbrev Delivers : Client → List Message → Option Client → Type 0
Delivers c ms o = (d : Client) × (o ≡ some d) × (deliveries d.log ≡ deliveries c.log ++ ms)

-- A frame has more bytes than its payload.
length-frame : (f : WsFrame) → length f.payload < length (frame_bytes f.opcode f.payload f.fin none)
unfolding frame_bytes frame_header
length-frame f =
    omega (arith, length-append (frame_header f.opcode f.fin 0 (length f.payload)) f.payload)

drain_next :
    (fuel : ℕ) (env : Surroundings) (f : WsFrame) (fs : List WsFrame) (c : Client)
    → IsSendable f.opcode f.payload f.fin
    → IsReady c (f ∷ fs) (suc fuel)
    → drain_frames (suc fuel) env c
      ≡ drain_frames fuel env (handle_frame env f (record c { rx_buffer = wire fs }))
unfolding drain_frames frame_read wire
drain_next fuel env f fs c able r =
    let small : length f.payload < 2 ^ 63 = omega (
      arith,
      r.fits,
      length-frame f,
      length-append (frame_bytes f.opcode f.payload f.fin none) (wire fs),
    ) in
    ap
      (λ (b : Bool).
        if b then frame_read env (drain_frames fuel env) c (take_frame c.rx_buffer) else some c)
      r.done
    ∙ ap (frame_read env (drain_frames fuel env) c)
        (ap take_frame r.buffer ∙ take_frame_bytes f.opcode f.payload f.fin (wire fs) able small)

Holds-buffer :
    (held : Option Message) (c : Client) (buffer : Bytes)
    → Holds held c
    → Holds held (record c { rx_buffer = buffer })
Holds-buffer none c buffer h = h
Holds-buffer (some m) c buffer h = h

drain_stop :
    (fuel : ℕ) (env : Surroundings) (c : Client)
    → IsReady c [] (suc fuel)
    → drain_frames (suc fuel) env c ≡ some c
unfolding drain_frames frame_read wire take_frame
drain_stop fuel env c r =
    ap
      (λ (b : Bool).
        if b then frame_read env (drain_frames fuel env) c (take_frame c.rx_buffer) else some c)
      r.done
    ∙ ap (frame_read env (drain_frames fuel env) c) (ap take_frame r.buffer)

data-IsSendable : (b : Bool) (payload : Bytes) (fin : Bool) → IsSendable (data_opcode b) payload fin
data-IsSendable true payload fin = (refl, refl)
data-IsSendable false payload fin = (refl, refl)

-- One frame, and then the rest of the stream.
proceed :
    (fuel : ℕ) (env : Surroundings) (f : WsFrame) (fs : List WsFrame) (c : Client)
    → (held : Option Message) (new ms : List Message) → IsSendable f.opcode f.payload f.fin
    → IsReady c (f ∷ fs) (suc fuel)
    → Handles
        (record c { rx_buffer = wire fs })
        (handle_frame env f (record c { rx_buffer = wire fs }))
        held
        new
    → ((d : Client) → IsReady d fs fuel → Holds held d → Delivers d ms (drain_frames fuel env d))
    → Delivers c (new ++ ms) (drain_frames (suc fuel) env c)
unfolding wire
proceed fuel env f fs c held new ms able r h rest =
    let d = handle_frame env f (record c { rx_buffer = wire fs }) in
    let size = length-append (frame_bytes f.opcode f.payload f.fin none) (wire fs) in
    let ready' : IsReady d fs fuel = record {
      done = h.done ∙ r.done;
      listens = h.listens ∙ r.listens;
      buffer = h.buffer;
      enough = omega (arith, r.enough, length-frame f, size);
      fits = omega (arith, r.fits, size);
    } in
    let (e, ends', delivered) = rest d ready' h.holds in
    (
      e,
      drain_next fuel env f fs c able r ∙ ends',
      delivered
          ∙ ap (λ (l : List Message). l ++ ms) h.delivered
          ∙ append_assoc (deliveries c.log) new ms,
    )

drain_frames-Delivers :
    (fuel : ℕ) (env : Surroundings) (held : Option Message) (fs : List WsFrame) (ms : List Message)
    (c : Client)
    → Stream held fs ms
    → IsReady c fs fuel
    → Holds held c
    → Delivers c ms (drain_frames fuel env c)
drain_frames-Delivers zero env held fs ms c s r h = absurd (omega (arith, r.enough))
drain_frames-Delivers (suc fuel) env held fs ms c (ends same) r h =
    (c, drain_stop fuel env c r, sym (append-nil (deliveries c.log)))
drain_frames-Delivers (suc fuel) env held fs ms c (single b payload fs' ms' s) r h =
    proceed fuel env _ fs' c none ((payload, b) ∷ []) ms' (data-IsSendable b payload true) r
      (Handles-single env b payload (record c { rx_buffer = wire fs' }) h r.listens)
      (λ d r' h'. drain_frames-Delivers fuel env none fs' ms' d s r' h')
drain_frames-Delivers (suc fuel) env held fs ms c (first b payload fs' ms' s) r h =
    proceed fuel env _ fs' c (some (payload, b)) [] ms' (data-IsSendable b payload false) r
      (Handles-first env b payload (record c { rx_buffer = wire fs' }) h)
      (λ d r' h'. drain_frames-Delivers fuel env (some (payload, b)) fs' ms' d s r' h')
drain_frames-Delivers (suc fuel) env held fs ms c (middle b front payload fs' ms' fits s) r h =
    proceed fuel env _ fs' c (some (front ++ payload, b)) [] ms' (refl, refl) r
      (Handles-middle env b front payload (record c { rx_buffer = wire fs' }) h fits)
      (λ d r' h'. drain_frames-Delivers fuel env (some (front ++ payload, b)) fs' ms' d s r' h')
drain_frames-Delivers (suc fuel) env held fs ms c (last b front payload fs' ms' fits s) r h =
    proceed fuel env _ fs' c none ((front ++ payload, b) ∷ []) ms' (refl, refl) r
      (Handles-last env b front payload (record c { rx_buffer = wire fs' }) h fits r.listens)
      (λ d r' h'. drain_frames-Delivers fuel env none fs' ms' d s r' h')
drain_frames-Delivers (suc fuel) env held fs ms c (pinged held' payload fs' ms' short s) r h =
    proceed fuel env _ fs' c held' [] ms' (refl, ground arith) r
      (Handles-ping env held' payload (record c { rx_buffer = wire fs' })
        (Holds-buffer held' c (wire fs') h))
      (λ d r' h'. drain_frames-Delivers fuel env held' fs' ms' d s r' h')
drain_frames-Delivers (suc fuel) env held fs ms c (ponged held' payload fs' ms' short s) r h =
    proceed fuel env _ fs' c held' [] ms' (refl, ground arith) r
      (Handles-pong env held' payload (record c { rx_buffer = wire fs' })
        (Holds-buffer held' c (wire fs') h))
      (λ d r' h'. drain_frames-Delivers fuel env held' fs' ms' d s r' h')

queue_inbound-empty :
    (size_mod : ℕ) (env : Surroundings) (data' : Bytes) (c : Client)
    → c.rx_buffer ≡ []
    → c.handshake_done ≡ true
    → length data' ≤ max_message_bytes
    → queue_inbound size_mod env data' c ≡ (record c { rx_buffer = data' }, true)
unfolding queue_inbound
queue_inbound-empty size_mod env data' c idle done fits =
    let joined : c.rx_buffer ++ data' ≡ data' = ap (λ (b : Bytes). b ++ data') idle in
    let small : ltb max_message_bytes (length data') ≡ false = ground arith in
    rw (joined, small)
      (ap
        (λ (b : Bool).
          if b
          then (record c { rx_buffer = data' }, true)
          else (consume_handshake size_mod (record c { rx_buffer = data' }), true))
        done)

-- The encoded frames of a stream, at most 64 KiB, handed over together to an upgraded client with an
-- empty buffer and a message callback: it delivers exactly the messages that the stream carries, each
-- put together from its fragments, in order and with the kind of its first frame, whatever pings and
-- pongs stand between them and however the transport answers what is sent for them.
pub on_transport_data-delivers :
    (size_mod : ℕ) (env : Surroundings) (held : Option Message) (fs : List WsFrame)
    (ms : List Message) (c : Client)
    → Stream held fs ms
    → Holds held c
    → c.rx_buffer ≡ []
    → c.handshake_done ≡ true
    → c.callbacks.on_message ≡ true
    → length (wire fs) ≤ max_message_bytes
    → (d : Client) × (on_transport_data size_mod env (wire fs) c ≡ some d)
      × (deliveries d.log ≡ deliveries c.log ++ ms)
unfolding on_transport_data
on_transport_data-delivers size_mod env held fs ms c s h idle done set fits =
    let queued = record c { rx_buffer = wire fs } in
    let (d, taken, delivered) =
      drain_frames-Delivers (suc (length (wire fs))) env held fs ms queued s
        (record { done = done; listens = set; buffer = refl; enough = omega arith; fits = fits })
        (Holds-buffer held c (wire fs) h) in
    (
      d,
      ap
            (λ (q : Client × Bool).
              if q.1 then drain_frames (suc (length q.0.rx_buffer)) env q.0 else some q.0)
            (queue_inbound-empty size_mod env (wire fs) c idle done fits)
          ∙ taken,
      delivered,
    )
