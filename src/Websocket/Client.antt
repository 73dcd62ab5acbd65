-- ===== src/Websocket/Client.antt =====
-- src/protocol/websocket/software_ws_client.h and .cpp: the state of the client, what it sends, and
-- how a connection ends. What the client does to the transport and to the callbacks is a log of
-- effects, newest last, and the transport answers a `Send` by any function of that log. The clock is
-- a field of the state, and `random n` is the n-th number that `platform::RandomUint32` gives. A
-- callback does not call back into the client.
pub mod Receive
pub mod CloseFrame
pub mod Session
pub mod Maintain
pub mod Sends
pub mod Linked
mod Tests
use esp_modem_link.Common.{
  ℕ, zero, suc, ◌+◌, ◌-◌, ◌*◌, ◌/◌, ◌%◌, bit_and, ◌^◌, Bool, true, false, not, ◌&&◌, ◌||◌, Option,
  none, some, List, [], ◌∷◌, ◌++◌,
}
use esp_modem_link.Common.Int.{ℤ, pos}
use esp_modem_link.Common.Lists.{Bytes, length, take, get_or}
use esp_modem_link.Common.Tests.{ltb, leb, ◌==◌, if◌then◌else◌}
use esp_modem_link.Error.{NetworkError, NetworkErrc, Result, ok, err, network_error}
use esp_modem_link.Http.Headers.{Headers, set_header}
use esp_modem_link.Websocket.Frame.{
  WsOpcode, close, ping, text, binary, continuation, encode_frame, max_control_payload,
}

-- What the client does to its transport and to the callbacks that are set.
pub data Effect : Type 0 where
  opens : Bool → Bytes → ℕ → Effect
  sends : Bytes → Effect
  closes : Effect
  delivers : Bytes → Bool → Effect
  pongs : Bytes → Effect
  reports : NetworkError → Effect
  tells_connected : Effect
  tells_disconnected : ℕ → Bytes → Effect

pub data State : Type 0 where
  disconnected handshaking opened : State

-- Which callbacks the application has set.
pub record Callbacks : Type 0 where
  pub on_connected : Bool
  pub on_disconnected : Bool
  pub on_message : Bool
  pub on_pong : Bool
  pub on_error : Bool

-- Seconds that are not positive count as zero. The delays of a schedule are in `backoff`.
pub record HeartbeatConfig : Type 0 where
  pub interval : ℕ
  pub timeout : ℕ
  pub enabled : Bool

-- `max_retries` is `none` where it is negative.
pub record ReconnectConfig : Type 0 where
  pub enabled : Bool
  pub max_retries : Option ℕ

pub record Client : Type 0 where
  pub callbacks : Callbacks
  pub state : State
  pub transport : Bool
  pub rx_buffer : Bytes
  pub headers : Headers
  pub url : Bytes
  pub user_closed : Bool
  pub heartbeat : HeartbeatConfig
  pub reconnect : ReconnectConfig
  pub reconnect_attempt : ℕ
  pub reconnect_exhausted : Bool
  pub handshake_key : Bytes
  pub handshake_done : Bool
  pub handshake_error : Option NetworkError
  pub fragment_open : Bool
  pub fragment_binary : Bool
  pub fragment_payload : Bytes
  pub send_fragment_open : Bool
  pub close_sent : Bool
  pub connected : Bool
  pub maintain_running : Bool
  pub last_sent_ms : ℕ
  pub ping_sent_ms : ℕ
  pub clock : ℕ
  pub draws : ℕ
  pub log : List Effect

abbrev pub max_message_bytes : ℕ
max_message_bytes = 64 * 1024

-- What the surroundings answer: the transport to a `Send`, and the random numbers.
pub record Surroundings : Type 0 where
  pub answer : List Effect → Bytes → Result (Unit {0})
  pub random : ℕ → ℕ

abbrev pub emit : Effect → Client → Client
emit e c = record c { log = c.log ++ e ∷ [] }

abbrev pub emit_if : Bool → Effect → Client → Client
emit_if b e c = if b then emit e c else c

pub report_error : NetworkError → Client → Client
report_error e c = emit_if c.callbacks.on_error (reports e) c

abbrev pub is_open : State → Bool
is_open opened = true
is_open _ = false

abbrev pub is_disconnected : State → Bool
is_disconnected disconnected = true
is_disconnected _ = false

abbrev pub not_connected_error : NetworkError
not_connected_error = network_error NetworkErrc.not_connected "not connected"

-- `WebSocketCloseCode`, as far as the client names it.
abbrev pub code_normal : ℕ
code_normal = 1000

abbrev pub code_protocol_error : ℕ
code_protocol_error = 1002

abbrev pub code_no_status : ℕ
code_no_status = 1005

abbrev pub code_abnormal_closure : ℕ
code_abnormal_closure = 1006

abbrev pub code_message_too_big : ℕ
code_message_too_big = 1009

abbrev pub max_close_reason : ℕ
max_close_reason = max_control_payload - 2

-- `while (end > 0 && (reason[end] & 0xC0) == 0x80) --end;`
pub back_off : ℕ → Bytes → ℕ
back_off zero reason = zero
back_off (suc end) reason =
    let shorter = back_off end reason in
    if bit_and (get_or reason (suc end) 0) 0xc0 == 0x80 then shorter else suc end

pub fit_reason : Bytes → Bytes
fit_reason reason =
    if leb (length reason) max_close_reason
    then reason
    else take (back_off max_close_reason reason) reason

pub close_payload : ℕ → Bytes → Bytes
close_payload code reason =
    if code == code_no_status
    then []
    else bit_and (code / 2 ^ 8) 0xff ∷ bit_and code 0xff ∷ fit_reason reason

pub record Sending : Type 0 where
  pub client : Client
  pub result : Result (Unit {0})

-- `transport->Send`, by the answer: the bytes count as offered either way.
send_answer : Result (Unit {0}) → Client → Sending
send_answer (ok u) c = record { client = record c { last_sent_ms = c.clock }; result = ok u }
send_answer (err e) c = record { client = c; result = err e }

-- `SendFrame` once the frame is encoded.
send_encoded : Surroundings → Result Bytes → Client → Sending
unfolding send_answer
send_encoded env (err e) c = record { client = c; result = err e }
send_encoded env (ok bytes) c =
    if c.transport
    then send_answer (env.answer c.log bytes) (emit (sends bytes) c)
    else record { client = c; result = err not_connected_error }

-- The key of a frame is drawn first.
pub send_frame : Surroundings → WsOpcode → Bytes → Bool → Client → Sending
unfolding send_encoded
send_frame env opcode payload fin c =
    send_encoded env (encode_frame opcode payload fin (some (env.random c.draws)))
      (record c { draws = suc c.draws })

-- The time of a ping that went out is kept.
ping_sent : Result (Unit {0}) → Client → Sending
ping_sent (ok u) c = record { client = record c { ping_sent_ms = c.clock }; result = ok u }
ping_sent (err e) c = record { client = c; result = err e }

pub send_ping : Surroundings → Bytes → Client → Sending
unfolding ping_sent
send_ping env payload c = let s = send_frame env ping payload true c in ping_sent s.result s.client

-- A failed send is reported, not returned.
pub reported : Result (Unit {0}) → Client → Client
reported (ok u) c = c
reported (err e) c = report_error e c

pub ping_peer : Surroundings → Bytes → Client → Client
unfolding reported
ping_peer env payload c =
    if ltb max_control_payload (length payload)
    then report_error
        (network_error NetworkErrc.invalid_argument "a ping payload cannot exceed 125 bytes") c
    else let s = send_ping env payload c in reported s.result s.client

-- The answer of the transport is not looked at.
close_encoded : Surroundings → Result Bytes → Client → Client
close_encoded env (err e) c = c
close_encoded env (ok bytes) c = let d = emit (sends bytes) c in record d { last_sent_ms = d.clock }

-- Whether there was a connection to send it over, beside the client.
pub send_close_frame : Surroundings → ℕ → Bytes → Client → Client × Bool
unfolding close_encoded
send_close_frame env code reason c =
    let d = record c { close_sent = true } in
    if not (is_open c.state) then (c, false) else if not c.transport then (d, false) else (
      close_encoded env
          (encode_frame close (close_payload code reason) true (some (env.random c.draws)))
          (record d { draws = suc c.draws }),
      true,
    )

-- The fields that `Teardown` clears before it turns to the transport.
pub forget_session : Client → Client
forget_session c = record c {
  state = disconnected;
  transport = false;
  rx_buffer = [];
  fragment_open = false;
  fragment_binary = false;
  fragment_payload = [];
  send_fragment_open = false;
  close_sent = false;
  ping_sent_ms = 0;
}

-- The application hears of the end of a connection that was open, and of no other.
pub teardown : ℕ → Bytes → Client → Client
unfolding forget_session
teardown code reason c =
    let d = forget_session c in
    if not c.transport
    then d
    else if is_open c.state
    then emit_if c.callbacks.on_disconnected (tells_disconnected code reason)
        (record (emit closes d) { connected = false })
    else emit closes d

pub fail : Surroundings → NetworkError → ℕ → Bytes → Client → Client
unfolding report_error
fail env error code reason c =
    teardown code reason (send_close_frame env code reason (report_error error c)).0

pub on_transport_closed : Client → Client
on_transport_closed c = teardown code_abnormal_closure [] c

-- The opcode of the next frame of a message that the caller splits up.
abbrev fragment_opcode : Bool → Bool → WsOpcode
fragment_opcode true binary' = continuation
fragment_opcode false binary' = if binary' then binary else text

-- `data` is a null pointer, with a length, where it is `none`.
pub send_fragment : Surroundings → Option Bytes → Bool → Bool → Client → Sending
send_fragment env none binary' fin c = record {
  client = c;
  result = err (network_error NetworkErrc.invalid_argument "no data to send");
}
send_fragment env (some data') binary' fin c =
    if is_open c.state
    then send_frame env (fragment_opcode c.send_fragment_open binary') data' fin
        (record c { send_fragment_open = not fin })
    else record { client = c; result = err not_connected_error }

pub send : Surroundings → Bytes → Bool → Client → Sending
send env data' binary' c = send_fragment env (some data') binary' true c

pub set_client_header : Bytes → Bytes → Client → Client
set_client_header key value c = record c { headers = set_header key value c.headers }

pub set_heartbeat : HeartbeatConfig → Client → Client
set_heartbeat config c = record c { heartbeat = config }

pub set_auto_reconnect : ReconnectConfig → Client → Client
set_auto_reconnect config c = record c {
  reconnect = config;
  reconnect_attempt = 0;
  reconnect_exhausted = false;
}
