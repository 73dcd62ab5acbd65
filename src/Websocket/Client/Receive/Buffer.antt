-- ===== src/Websocket/Client/Receive/Buffer.antt =====
-- The receive buffer: the loop over its frames ends, and it stays within its limit.
use esp_modem_link.Common.{
  ℕ, zero, suc, ◌+◌, ◌≤◌, ◌<◌, Bool, true, false, Option, none, some, [], ◌∷◌, ◌++◌, ◌≡◌, refl, ap,
  inl, inr, arith,
}
use esp_modem_link.Common.Lists.{Bytes, codes, length, drop, length-drop, length-append}
use esp_modem_link.Common.Tests.{ltb, if◌then◌else◌, Bool-cases, Option-cases}
use esp_modem_link.Websocket.Frame.{
  WsFrame, WsOpcode, continuation, text, binary, close, ping, pong, WsFrameRead, incomplete, ready,
  invalid, take_frame,
}
use esp_modem_link.Websocket.Frame.Accepted.{FrameAt, IsHead-length, Sound, take_frame-Sound}
use esp_modem_link.Websocket.Client.{
  Client, Surroundings, send_frame, teardown, fail, forget_session, code_message_too_big,
  max_message_bytes,
}
use esp_modem_link.Websocket.Client.Sends.{send_frame-Sends}
use esp_modem_link.Websocket.Client.Receive.{
  Taken, keeps, whole, violates, take_data, data_taken, handle_data_frame, continue_message,
  answer_close, handle_close_frame, handle_opcode, handle_frame, frame_read, drain_frames,
  consume_handshake, handshake_parsed, queue_inbound, on_transport_data, index_of_blank_line,
  overflow_error,
}

-- The buffer is left as it was, or emptied.
abbrev pub Shrinks : Client → Client → Type 0
Shrinks c d = length d.rx_buffer ≤ length c.rx_buffer

teardown-rx_buffer :
    (code : ℕ) (reason : Bytes) (c : Client) → (teardown code reason c).rx_buffer ≡ []
unfolding teardown forget_session
teardown-rx_buffer code reason c = ground arith

send_frame-rx_buffer :
    (env : Surroundings) (opcode : WsOpcode) (payload : Bytes) (fin : Bool) (c : Client)
    → (send_frame env opcode payload fin c).client.rx_buffer ≡ c.rx_buffer
send_frame-rx_buffer env opcode payload fin c =
    ap (λ (d : Client). d.rx_buffer) (send_frame-Sends env opcode payload fin c).same

torn_down : (code : ℕ) (reason : Bytes) (c d : Client) → Shrinks c (teardown code reason d)
torn_down code reason c d = omega (arith, ap length (teardown-rx_buffer code reason d))

fail-Shrinks :
    (env : Surroundings) (e : _) (code : ℕ) (reason : Bytes) (c d : Client)
    → Shrinks c (fail env e code reason d)
unfolding fail
fail-Shrinks env e code reason c d = torn_down code reason c _

take_data-rx_buffer : (frame : WsFrame) (c : Client) → (take_data frame c).0.rx_buffer ≡ c.rx_buffer
unfolding take_data continue_message
take_data-rx_buffer frame c = ground arith

data_taken-Shrinks :
    (env : Surroundings) (taken : Taken) (c : Client) → Shrinks c (data_taken env taken c)
unfolding data_taken
data_taken-Shrinks env keeps c = omega arith
data_taken-Shrinks env (whole message binary') c = ground arith
data_taken-Shrinks env (violates too_big violation) c = fail-Shrinks env _ _ _ c c

handle_data_frame-Shrinks :
    (env : Surroundings) (frame : WsFrame) (c : Client) → Shrinks c (handle_data_frame env frame c)
unfolding handle_data_frame
handle_data_frame-Shrinks env frame c =
    let (d, taken) = take_data frame c in
    omega (arith, data_taken-Shrinks env taken d, ap length (take_data-rx_buffer frame c))

handle_close_frame-Shrinks :
    (env : Surroundings) (payload : Bytes) (c : Client)
    → Shrinks c (handle_close_frame env payload c)
unfolding handle_close_frame answer_close
handle_close_frame-Shrinks env [] c = torn_down _ _ c _
handle_close_frame-Shrinks env (x ∷ []) c = fail-Shrinks env _ _ _ c c
handle_close_frame-Shrinks env (x ∷ y ∷ reason) c = torn_down _ _ c _

handle_opcode-Shrinks :
    (env : Surroundings) (opcode : WsOpcode) (frame : WsFrame) (c : Client)
    → Shrinks c (handle_opcode env opcode frame c)
unfolding handle_opcode
handle_opcode-Shrinks env ping frame c =
    omega (arith, ap length (send_frame-rx_buffer env pong frame.payload true c))
handle_opcode-Shrinks env pong frame c = ground arith
handle_opcode-Shrinks env close frame c = handle_close_frame-Shrinks env frame.payload c
handle_opcode-Shrinks env continuation frame c = handle_data_frame-Shrinks env frame c
handle_opcode-Shrinks env text frame c = handle_data_frame-Shrinks env frame c
handle_opcode-Shrinks env binary frame c = handle_data_frame-Shrinks env frame c

handle_frame-Shrinks :
    (env : Surroundings) (frame : WsFrame) (c : Client) → Shrinks c (handle_frame env frame c)
unfolding handle_frame
handle_frame-Shrinks env frame c = handle_opcode-Shrinks env frame.opcode frame c

-- The loop has ended, with no more in the buffer than before.
abbrev Drained : Client → Option Client → Type 0
Drained c o = (d : Client) × (o ≡ some d) × Shrinks c d

gated-Drained :
    (b : Bool) (c : Client) (o : Option Client) → Drained c o → Drained c (if b then o else some c)
gated-Drained true c o h = h
gated-Drained false c o h = (c, refl, omega arith)

FrameAt-shorter :
    (buffer : Bytes) (f : WsFrame) (rest : Bytes)
    → FrameAt buffer f rest
    → length rest < length buffer
FrameAt-shorter buffer f rest h = omega (
  arith,
  ap length h.splits,
  length-append h.head (f.payload ++ rest),
  length-append f.payload rest,
  IsHead-length h.head (length f.payload) h.form,
)

frame_read-Drained :
    (env : Surroundings) (continue : Client → Option Client) (c : Client)
    (read : WsFrameRead × Bytes)
    → Sound c.rx_buffer read
    → ((d : Client) → length d.rx_buffer < length c.rx_buffer → Drained d (continue d))
    → Drained c (frame_read env continue c read)
unfolding frame_read
frame_read-Drained env continue c (incomplete, buffer) h k = (c, refl, omega arith)
frame_read-Drained env continue c (invalid violation, buffer) h k =
    (_, refl, fail-Shrinks env _ _ _ c (record c { rx_buffer = buffer }))
frame_read-Drained env continue c (ready frame, buffer) h k =
    let taken = record c { rx_buffer = buffer } in
    let handled = handle_frame-Shrinks env frame taken in
    let shorter : length buffer < length c.rx_buffer = FrameAt-shorter c.rx_buffer frame buffer h in
    let (d, ends, small) = k (handle_frame env frame taken) (omega (arith, handled, shorter)) in
    (d, ends, omega (arith, small, handled, shorter))

drain_frames-Drained :
    (fuel : ℕ) (env : Surroundings) (c : Client)
    → length c.rx_buffer < fuel
    → Drained c (drain_frames fuel env c)
unfolding drain_frames
drain_frames-Drained zero env c h = absurd (omega arith)
drain_frames-Drained (suc fuel) env c h = gated-Drained c.handshake_done c _ (
    frame_read-Drained env (drain_frames fuel env) c (take_frame c.rx_buffer)
      (take_frame-Sound c.rx_buffer) (λ d shorter. drain_frames-Drained fuel env d (omega arith)))

handshake_parsed-rx_buffer : (o : _) (c : Client) → (handshake_parsed o c).rx_buffer ≡ c.rx_buffer
unfolding handshake_parsed
handshake_parsed-rx_buffer none c = refl
handshake_parsed-rx_buffer (some parsed) c = refl

consume_handshake-Shrinks : (size_mod : ℕ) (c : Client) → Shrinks c (consume_handshake size_mod c)
unfolding consume_handshake
consume_handshake-Shrinks size_mod c = elim (Option-cases (index_of_blank_line c.rx_buffer)) [
  | inl missing ↦ rw (consume_handshake, missing) (omega arith)
  | inr (end, found) ↦
      rw (consume_handshake, found)
        (omega (
          arith,
          ap length (
              handshake_parsed-rx_buffer _
                (record c { rx_buffer = drop (end + 4) c.rx_buffer; handshake_done = true })),
          length-drop (end + 4) c.rx_buffer,
        ))
]

accepted-fits :
    (done : Bool) (d e : Client)
    → length d.rx_buffer ≤ max_message_bytes
    → Shrinks d e
    → length (if◌then◌else◌ {A = Client × Bool} done (d, true) (e, true)).0.rx_buffer
      ≤ max_message_bytes
accepted-fits true d e h k = h
accepted-fits false d e h k = omega (arith, h, k)

queue_inbound-fits :
    (size_mod : ℕ) (env : Surroundings) (data' : Bytes) (c : Client)
    → length (queue_inbound size_mod env data' c).0.rx_buffer ≤ max_message_bytes
unfolding queue_inbound
queue_inbound-fits size_mod env data' c =
    let buffer = c.rx_buffer ++ data' in
    elim (Bool-cases (ltb max_message_bytes (length buffer))) [
      | inl long ↦
          let emptied = record c { rx_buffer = [] } in
          let small : length
                (fail env overflow_error code_message_too_big (codes "message too big")
                  emptied).rx_buffer
              ≤ 0 =
            fail-Shrinks env overflow_error code_message_too_big (codes "message too big") emptied
              emptied in
          rw long (omega (arith, small))
      | inr fits ↦
          let queued = record c { rx_buffer = buffer } in
          rw fits (
            accepted-fits c.handshake_done queued (consume_handshake size_mod queued) (ground arith)
              (consume_handshake-Shrinks size_mod queued))
    ]

-- Whatever arrives, the client takes it: the loop over the frames ends, and what is left for the
-- next arrival is at most 64 KiB.
pub on_transport_data-ends :
    (size_mod : ℕ) (env : Surroundings) (data' : Bytes) (c : Client)
    → (d : Client) × (on_transport_data size_mod env data' c ≡ some d)
      × (length d.rx_buffer ≤ max_message_bytes)
unfolding on_transport_data
on_transport_data-ends size_mod env data' c =
    let (d, queued) = queue_inbound size_mod env data' c in
    let small = queue_inbound-fits size_mod env data' c in
    let (e, ends, shrunk) = drain_frames-Drained (suc (length d.rx_buffer)) env d (omega arith) in
    elim (Bool-cases queued) [
      | inl taken ↦ (e, rw taken ends, omega (arith, shrunk, small))
      | inr refused ↦ (d, rw refused refl, small)
    ]
