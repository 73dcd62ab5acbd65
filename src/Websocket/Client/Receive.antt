-- ===== src/Websocket/Client/Receive.antt =====
-- src/protocol/websocket/software_ws_client.cpp: what the client does with what it receives.
pub mod Reassembly
pub mod Frames
pub mod Buffer
pub mod OnWire
pub mod Linked
use esp_modem_link.Common.{
  ℕ, zero, suc, ◌+◌, ◌*◌, ◌^◌, bit_or, Bool, true, false, not, ◌&&◌, ◌||◌, Option, none, some, List,
  [], ◌∷◌, ◌++◌,
}
use esp_modem_link.Common.Decimal.{to_decimal}
use esp_modem_link.Common.Int.{ℤ, pos, negsuc}
use esp_modem_link.Common.Lists.{Bytes, codes, length, take, drop, equal, starts_with}
use esp_modem_link.Common.Tests.{ltb, ◌==◌, if◌then◌else◌}
use esp_modem_link.Error.{NetworkError, NetworkErrc, Result, ok, err, network_error}
use esp_modem_link.Websocket.Frame.{
  WsFrame, WsOpcode, continuation, text, binary, close, ping, pong, WsFrameRead, incomplete, ready,
  invalid, take_frame,
}
use esp_modem_link.Websocket.Handshake.{
  WsHandshakeResponse, parse_handshake_response, compute_sec_web_socket_accept,
}
use esp_modem_link.Websocket.Client.{
  Client, Surroundings, Effect, delivers, pongs, emit_if, send_frame, teardown, fail, report_error,
  max_message_bytes, code_protocol_error, code_no_status, code_message_too_big,
}
use mathlib.Core.Option
use Prim.Native.String.{String}

-- What the client makes of a data frame: nothing to deliver yet, a whole message, or a violation, with
-- whether it is one of size.
pub data Taken : Type 0 where
  keeps : Taken
  whole : Bytes → Bool → Taken
  violates : Bool → String → Taken

abbrev pub is_continuation : WsOpcode → Bool
is_continuation continuation = true
is_continuation _ = false

abbrev pub is_binary : WsOpcode → Bool
is_binary binary = true
is_binary _ = false

-- A continuation of an open message, which `payload` is with it.
pub continue_message : Bool → Bytes → Client → Client × Taken
continue_message fin payload c =
    if ltb max_message_bytes (length payload)
    then (
      record c { fragment_payload = payload },
      violates true "a fragmented message exceeds the size limit",
    )
    else if fin
    then (
      record c { fragment_payload = []; fragment_open = false },
      whole payload c.fragment_binary,
    )
    else (record c { fragment_payload = payload }, keeps)

-- The part of `HandleDataFrame` that holds the lock.
pub take_data : WsFrame → Client → Client × Taken
unfolding continue_message
take_data frame c =
    if is_continuation frame.opcode && not c.fragment_open
    then (c, violates false "a continuation frame arrived with no message to continue")
    else if not (is_continuation frame.opcode) && c.fragment_open
    then (c, violates false "a new message started before the last one finished")
    else if is_continuation frame.opcode
    then continue_message frame.fin (c.fragment_payload ++ frame.payload) c
    else if frame.fin
    then (c, whole frame.payload (is_binary frame.opcode))
    else (
      record c {
        fragment_open = true;
        fragment_binary = is_binary frame.opcode;
        fragment_payload = frame.payload;
      },
      keeps,
    )

pub data_taken : Surroundings → Taken → Client → Client
data_taken env keeps c = c
data_taken env (whole message binary') c =
    emit_if c.callbacks.on_message (delivers message binary') c
data_taken env (violates too_big violation) c =
    fail env
      (network_error (if too_big then NetworkErrc.buffer_overflow else NetworkErrc.protocol_error)
        violation)
      (if too_big then code_message_too_big else code_protocol_error)
      (if too_big then codes "message too big" else codes violation) c

pub handle_data_frame : Surroundings → WsFrame → Client → Client
unfolding take_data
handle_data_frame env frame c = let (d, taken) = take_data frame c in data_taken env taken d

-- The status code and the reason of a close frame of two bytes or more.
abbrev pub close_code : ℕ → ℕ → ℕ
close_code high low = bit_or (high * 2 ^ 8) low

-- The reply to the peer's close frame is the other half of the handshake, and goes out once.
pub answer_close : Surroundings → Bytes → ℕ → Bytes → Client → Client
answer_close env payload code reason c =
    let d = record c { close_sent = true } in
    teardown code reason (if c.close_sent then d else (send_frame env close payload true d).client)

pub handle_close_frame : Surroundings → Bytes → Client → Client
unfolding answer_close
handle_close_frame env [] c = answer_close env [] code_no_status [] c
handle_close_frame env (x ∷ []) c =
    fail env
      (network_error NetworkErrc.protocol_error
        "a close frame carries a single byte, which cannot be a status code")
      code_protocol_error (codes "malformed close frame") c
handle_close_frame env (x ∷ y ∷ reason) c =
    answer_close env (x ∷ y ∷ reason) (close_code x y) reason c

handle_opcode : Surroundings → WsOpcode → WsFrame → Client → Client
unfolding handle_data_frame handle_close_frame
handle_opcode env ping frame c = (send_frame env pong frame.payload true c).client
handle_opcode env pong frame c =
    let d = record c { ping_sent_ms = 0 } in emit_if d.callbacks.on_pong (pongs frame.payload) d
handle_opcode env close frame c = handle_close_frame env frame.payload c
handle_opcode env _ frame c = handle_data_frame env frame c

pub handle_frame : Surroundings → WsFrame → Client → Client
unfolding handle_opcode
handle_frame env frame c = handle_opcode env frame.opcode frame c

-- What a round of `DrainFrames` does with what `TakeFrame` found.
pub frame_read :
    Surroundings → (Client → Option Client) → Client → WsFrameRead × Bytes → Option Client
frame_read env continue c (incomplete, buffer) = some c
frame_read env continue c (invalid violation, buffer) = some (
    fail env (network_error NetworkErrc.protocol_error violation) code_protocol_error
      (codes violation) (record c { rx_buffer = buffer }))
frame_read env continue c (ready frame, buffer) =
    continue (handle_frame env frame (record c { rx_buffer = buffer }))

-- `none` means that the fuel ran out.
pub drain_frames : ℕ → Surroundings → Client → Option Client
unfolding frame_read
drain_frames zero env c = none
drain_frames (suc fuel) env c =
    if c.handshake_done
    then frame_read env (drain_frames fuel env) c (take_frame c.rx_buffer)
    else some c

-- `s.find("\r\n\r\n")`
pub index_of_blank_line : Bytes → Option ℕ
index_of_blank_line [] = none
index_of_blank_line (c ∷ cs) =
    let later = Option.map suc (index_of_blank_line cs) in
    if starts_with (c ∷ cs) (codes "\r\n\r\n") then some 0 else later

abbrev is_switching : ℤ → Bool
is_switching (pos n) = n == 101
is_switching (negsuc n) = false

-- A status as `std::to_string` writes it; no response has a negative one.
abbrev status_text : ℤ → Bytes
status_text (pos n) = to_decimal n
status_text (negsuc n) = b'-' ∷ to_decimal (suc n)

-- What is wrong with the answer to the upgrade, if anything is.
pub handshake_verdict : Bytes → Result WsHandshakeResponse → Option NetworkError
handshake_verdict key (err e) = some e
handshake_verdict key (ok response) =
    if not (is_switching response.status)
    then some (record {
      code = NetworkErrc.ws_handshake_failed;
      native = response.status;
      context = codes "the server answered the upgrade with " ++ status_text response.status;
    })
    else if not (equal response.accept (compute_sec_web_socket_accept key))
    then some (
        network_error NetworkErrc.ws_handshake_failed
          "the server's Sec-WebSocket-Accept does not match the key that was sent")
    else none

-- The parser of the head always answers, so `none` is not met.
pub handshake_parsed : Option (Result WsHandshakeResponse) → Client → Client
handshake_parsed none c = c
handshake_parsed (some parsed) c = record c {
  handshake_error = handshake_verdict c.handshake_key parsed;
}

pub consume_handshake : ℕ → Client → Client
unfolding handshake_parsed
consume_handshake size_mod c = elim (index_of_blank_line c.rx_buffer) [
  | none ↦ c
  | some end ↦
      handshake_parsed (parse_handshake_response size_mod (take (end + 4) c.rx_buffer))
        (record c { rx_buffer = drop (end + 4) c.rx_buffer; handshake_done = true })
]

abbrev pub overflow_error : NetworkError
overflow_error =
    network_error NetworkErrc.buffer_overflow "the inbound stream exceeds the buffer limit"

-- Whether the buffer took the data, beside the client.
pub queue_inbound : ℕ → Surroundings → Bytes → Client → Client × Bool
queue_inbound size_mod env data' c =
    let buffer = c.rx_buffer ++ data' in
    if ltb max_message_bytes (length buffer)
    then (
      fail env overflow_error code_message_too_big (codes "message too big")
          (record c { rx_buffer = [] }),
      false,
    )
    else if c.handshake_done
    then (record c { rx_buffer = buffer }, true)
    else (consume_handshake size_mod (record c { rx_buffer = buffer }), true)

-- A round takes two bytes at least.
pub on_transport_data : ℕ → Surroundings → Bytes → Client → Option Client
unfolding queue_inbound
on_transport_data size_mod env data' c =
    let (d, queued) = queue_inbound size_mod env data' c in
    if queued then drain_frames (suc (length d.rx_buffer)) env d else some d
