-- ===== src/Websocket/Client/Receive/Linked.antt =====
-- A disconnected client holds no transport: kept by whatever arrives.
use esp_modem_link.Common.{
  ℕ, zero, suc, Bool, true, false, Option, none, some, [], ◌∷◌, ◌++◌, inl, inr, arith,
}
use esp_modem_link.Common.Lists.{Bytes, length}
use esp_modem_link.Common.Tests.{if◌then◌else◌, Option-cases}
use esp_modem_link.Websocket.Frame.{
  WsFrame, WsOpcode, continuation, text, binary, close, ping, pong, WsFrameRead, incomplete, ready,
  invalid, take_frame,
}
use esp_modem_link.Websocket.Client.{Client, Surroundings, send_frame, code_no_status}
use esp_modem_link.Websocket.Client.Linked.{
  Linked, Linked-same, teardown-Linked, fail-Linked, send_frame-Linked,
}
use esp_modem_link.Websocket.Client.Receive.{
  Taken, keeps, whole, violates, take_data, data_taken, handle_data_frame, continue_message,
  answer_close, handle_close_frame, handle_opcode, handle_frame, frame_read, drain_frames,
  consume_handshake, handshake_parsed, queue_inbound, on_transport_data, index_of_blank_line,
  close_code,
}

take_data-Linked : (frame : WsFrame) (c : Client) → Linked c → Linked (take_data frame c).0
unfolding take_data continue_message
take_data-Linked frame c h = Linked-same c (take_data frame c).0 (ground arith) (ground arith) h

data_taken-Linked :
    (env : Surroundings) (taken : Taken) (c : Client) → Linked c → Linked (data_taken env taken c)
unfolding data_taken
data_taken-Linked env keeps c h = h
data_taken-Linked env (whole message binary') c h =
    Linked-same c (data_taken env (whole message binary') c) (ground arith) (ground arith) h
data_taken-Linked env (violates too_big violation) c h = fail-Linked env _ _ _ c

answer_close-Linked :
    (env : Surroundings) (payload : Bytes) (code : ℕ) (reason : Bytes) (c : Client)
    → Linked (answer_close env payload code reason c)
unfolding answer_close
answer_close-Linked env payload code reason c =
    let d = record c { close_sent = true } in
    teardown-Linked code reason
      (if c.close_sent then d else (send_frame env close payload true d).client)

handle_close_frame-Linked :
    (env : Surroundings) (payload : Bytes) (c : Client) → Linked (handle_close_frame env payload c)
unfolding handle_close_frame
handle_close_frame-Linked env [] c = answer_close-Linked env [] code_no_status [] c
handle_close_frame-Linked env (x ∷ []) c = fail-Linked env _ _ _ c
handle_close_frame-Linked env (x ∷ y ∷ reason) c =
    answer_close-Linked env (x ∷ y ∷ reason) (close_code x y) reason c

handle_data_frame-Linked :
    (env : Surroundings) (frame : WsFrame) (c : Client)
    → Linked c
    → Linked (handle_data_frame env frame c)
unfolding handle_data_frame
handle_data_frame-Linked env frame c h =
    data_taken-Linked env (take_data frame c).1 (take_data frame c).0 (take_data-Linked frame c h)

handle_opcode-Linked :
    (env : Surroundings) (opcode : WsOpcode) (frame : WsFrame) (c : Client)
    → Linked c
    → Linked (handle_opcode env opcode frame c)
unfolding handle_opcode
handle_opcode-Linked env ping frame c h = send_frame-Linked env pong frame.payload true c h
handle_opcode-Linked env pong frame c h =
    Linked-same c (handle_opcode env pong frame c) (ground arith) (ground arith) h
handle_opcode-Linked env close frame c h = handle_close_frame-Linked env frame.payload c
handle_opcode-Linked env continuation frame c h = handle_data_frame-Linked env frame c h
handle_opcode-Linked env text frame c h = handle_data_frame-Linked env frame c h
handle_opcode-Linked env binary frame c h = handle_data_frame-Linked env frame c h

abbrev pub Gives : Option Client → Type 0
Gives none = Unit
Gives (some d) = Linked d

gated-Gives :
    (b : Bool) (c : Client) (o : Option Client)
    → Linked c
    → Gives o
    → Gives (if b then o else some c)
gated-Gives true c o h k = k
gated-Gives false c o h k = h

frame_read-Gives :
    (env : Surroundings) (continue : Client → Option Client) (c : Client)
    (read : WsFrameRead × Bytes)
    → Linked c
    → ((d : Client) → Linked d → Gives (continue d))
    → Gives (frame_read env continue c read)
unfolding frame_read handle_frame
frame_read-Gives env continue c (incomplete, buffer) h k = h
frame_read-Gives env continue c (invalid violation, buffer) h k =
    fail-Linked env _ _ _ (record c { rx_buffer = buffer })
frame_read-Gives env continue c (ready frame, buffer) h k =
    k (handle_frame env frame (record c { rx_buffer = buffer }))
      (handle_opcode-Linked env frame.opcode frame (record c { rx_buffer = buffer }) h)

drain_frames-Gives :
    (fuel : ℕ) (env : Surroundings) (c : Client) → Linked c → Gives (drain_frames fuel env c)
unfolding drain_frames
drain_frames-Gives zero env c h = tt
drain_frames-Gives (suc fuel) env c h = gated-Gives c.handshake_done c _ h (
    frame_read-Gives env (drain_frames fuel env) c (take_frame c.rx_buffer) h
      (drain_frames-Gives fuel env))

handshake_parsed-Linked : (o : _) (c : Client) → Linked c → Linked (handshake_parsed o c)
unfolding handshake_parsed
handshake_parsed-Linked none c h = h
handshake_parsed-Linked (some parsed) c h = h

consume_handshake-Linked :
    (size_mod : ℕ) (c : Client) → Linked c → Linked (consume_handshake size_mod c)
unfolding consume_handshake
consume_handshake-Linked size_mod c h = elim (Option-cases (index_of_blank_line c.rx_buffer)) [
  | inl missing ↦ rw (consume_handshake, missing) h
  | inr (end, found) ↦ rw (consume_handshake, found) (handshake_parsed-Linked _ _ h)
]

queued-Linked :
    (long done : Bool) (d e f : Client)
    → Linked d
    → Linked e
    → Linked f
    → Linked
        (if◌then◌else◌ {A = Client × Bool} long
          (d, false)
          (if done then (e, true) else (f, true))).0
queued-Linked true done d e f hd he hf = hd
queued-Linked false true d e f hd he hf = he
queued-Linked false false d e f hd he hf = hf

queue_inbound-Linked :
    (size_mod : ℕ) (env : Surroundings) (data' : Bytes) (c : Client)
    → Linked c
    → Linked (queue_inbound size_mod env data' c).0
unfolding queue_inbound
queue_inbound-Linked size_mod env data' c h =
    let queued = record c { rx_buffer = c.rx_buffer ++ data' } in
    queued-Linked _ c.handshake_done _ queued (consume_handshake size_mod queued)
      (fail-Linked env _ _ _ (record c { rx_buffer = [] })) h
      (consume_handshake-Linked size_mod queued h)

pub on_transport_data-Gives :
    (size_mod : ℕ) (env : Surroundings) (data' : Bytes) (c : Client)
    → Linked c
    → Gives (on_transport_data size_mod env data' c)
unfolding on_transport_data
on_transport_data-Gives size_mod env data' c h =
    let (d, queued) = queue_inbound size_mod env data' c in
    let linked = queue_inbound-Linked size_mod env data' c h in
    gated-Gives queued d _ linked (drain_frames-Gives (suc (length d.rx_buffer)) env d linked)
