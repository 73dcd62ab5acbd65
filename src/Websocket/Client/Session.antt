-- ===== src/Websocket/Client/Session.antt =====
-- src/protocol/websocket/software_ws_client.cpp: `ParseWebSocketUrl`, `Connect`, `Establish`, `Close` and
-- the destructor. What arrives while a call waits is given as a list, and an answer of the
-- transport factory or of the transport's `Connect` as a value. TLS settings are left out: the
-- factory is asked for a transport with or without TLS.
pub mod Linked
use esp_modem_link.Common.{
  ℕ, zero, suc, ◌+◌, ◌-◌, ◌*◌, Bool, true, false, not, ◌&&◌, ◌||◌, Option, none, some, List, [],
  ◌∷◌, ◌++◌,
}
use esp_modem_link.Common.Decimal.{to_decimal}
use esp_modem_link.Common.Int.{pos}
use esp_modem_link.Common.Lists.{Bytes, codes, drop, starts_with}
use esp_modem_link.Common.Tests.{ltb, leb, ◌==◌, if◌then◌else◌}
use esp_modem_link.Error.{NetworkError, NetworkErrc, Result, ok, err, network_error, timeout_error}
use esp_modem_link.Http.Headers.{find_header}
use esp_modem_link.Http.Url.{ParsedUrl, parse_url}
use esp_modem_link.Websocket.Handshake.{make_sec_web_socket_key, build_handshake_request}
use esp_modem_link.Websocket.Client.{
  Client, State, disconnected, handshaking, opened, is_disconnected, Surroundings, Sending,
  HeartbeatConfig, Effect, opens, sends, tells_connected, emit, emit_if, report_error, teardown,
  send_close_frame, send_ping, reported, on_transport_closed, code_abnormal_closure,
}
use esp_modem_link.Websocket.Client.Receive.{on_transport_data}

pub parse_web_socket_url : Bytes → Result ParsedUrl
parse_web_socket_url url =
    if starts_with url (codes "ws://")
    then parse_url (codes "http://" ++ drop 5 url)
    else if starts_with url (codes "wss://")
    then parse_url (codes "https://" ++ drop 6 url)
    else err (network_error NetworkErrc.invalid_argument "URL must start with ws:// or wss://")

-- What the receive thread meets while another waits.
pub data Arrival : Type 0 where
  bytes : Bytes → Arrival
  closed : Arrival

pub arrive : ℕ → Surroundings → Arrival → Client → Option Client
arrive size_mod env (bytes data') c = on_transport_data size_mod env data' c
arrive size_mod env closed c = some (on_transport_closed c)

pub arrive_all : ℕ → Surroundings → List Arrival → Client → Option Client
unfolding arrive
arrive_all size_mod env [] c = some c
arrive_all size_mod env (a ∷ rest) c = elim (arrive size_mod env a c) [
  | none ↦ none
  | some d ↦ arrive_all size_mod env rest d
]

-- How an attempt to connect goes: the factory, the transport, and what arrives before the wait ends.
pub record Attempt : Type 0 where
  pub made : Result (Unit {0})
  pub reached : Result (Unit {0})
  pub arrivals : List Arrival

abbrev already_connected : NetworkError
already_connected = network_error NetworkErrc.already_connected "already connected"

abbrev pub refused : Client → NetworkError → Sending
refused c e = record { client = c; result = err e }

-- A key that the caller set as a header is taken; otherwise one is drawn.
key_chosen : Surroundings → Option Bytes → Client → Client
key_chosen env (some (x ∷ xs)) c = record c { handshake_key = x ∷ xs }
key_chosen env _ c = record c {
  handshake_key = make_sec_web_socket_key env.random c.draws;
  draws = c.draws + 4;
}

-- The part of `Establish` that holds the lock first.
prepared : Surroundings → Client → Client
unfolding key_chosen
prepared env c = record (key_chosen env (find_header (codes "Sec-WebSocket-Key") c.headers) c) {
  handshake_done = false;
  handshake_error = none;
  rx_buffer = [];
  fragment_open = false;
  fragment_binary = false;
  fragment_payload = [];
  send_fragment_open = false;
  close_sent = false;
  state = handshaking;
}

abbrev dropped : Client → NetworkError → Sending
dropped c e = refused (teardown code_abnormal_closure [] c) e

-- What the answer to the upgrade makes of the client, by the error that it left.
handshake_answer : Option NetworkError → Client → Sending
handshake_answer (some e) c = dropped c e
handshake_answer none c = record {
  client = record c { state = opened; connected = true; last_sent_ms = c.clock };
  result = ok tt;
}

-- The end of the wait for the answer to the upgrade.
pub answered : Client → Sending
unfolding handshake_answer
answered c =
    if not c.handshake_done
    then dropped c (timeout_error (codes "the server did not answer the upgrade"))
    else handshake_answer c.handshake_error c

waited : Option Client → Option Sending
unfolding answered
waited none = none
waited (some c) = some (answered c)

-- `Establish` once the request is handed to the transport, by its answer.
request_sent : ℕ → Surroundings → List Arrival → Result (Unit {0}) → Client → Option Sending
unfolding waited arrive_all
request_sent size_mod env arrivals (err e) c = some (dropped c e)
request_sent size_mod env arrivals (ok u) c = waited (arrive_all size_mod env arrivals c)

-- `Establish` once the transport is asked to connect, by its answer.
transport_reached :
    ℕ → Surroundings → List Arrival → Bytes → Result (Unit {0}) → Client → Option Sending
unfolding request_sent
transport_reached size_mod env arrivals request (err e) c =
    some (refused (record c { state = disconnected }) e)
transport_reached size_mod env arrivals request (ok u) c =
    request_sent size_mod env arrivals (env.answer c.log request)
      (emit (sends request) (record c { transport = true }))

-- `Establish` once the factory is asked for a transport, by its answer.
transport_made :
    ℕ → Surroundings → Attempt → ParsedUrl → Result (Unit {0}) → Client → Option Sending
unfolding transport_reached
transport_made size_mod env attempt parsed (err e) c =
    some (refused (record c { state = disconnected }) e)
transport_made size_mod env attempt parsed (ok u) c =
    transport_reached size_mod env attempt.arrivals
      (build_handshake_request parsed c.handshake_key c.headers) attempt.reached
      (emit (opens parsed.tls parsed.host parsed.port) c)

-- `Establish` once the URL is parsed, or refused.
establish_at : ℕ → Surroundings → Attempt → Result ParsedUrl → Client → Option Sending
unfolding transport_made prepared
establish_at size_mod env attempt (err e) c = some (refused c e)
establish_at size_mod env attempt (ok parsed) c =
    if is_disconnected c.state
    then transport_made size_mod env attempt parsed attempt.made (prepared env c)
    else some (refused c already_connected)

pub establish : ℕ → Surroundings → Attempt → Bytes → Client → Option Sending
unfolding establish_at parse_web_socket_url
establish size_mod env attempt url c =
    establish_at size_mod env attempt (parse_web_socket_url url) c

-- `Connect` once the connection is tried: the maintenance task starts, and then the application hears.
connect_answer : Result (Unit {0}) → Client → Sending
connect_answer (err e) c = refused c e
connect_answer (ok u) c = record {
  client = emit_if c.callbacks.on_connected tells_connected (record c { maintain_running = true });
  result = ok u;
}

connect_tried : Option Sending → Option Sending
unfolding connect_answer
connect_tried none = none
connect_tried (some s) = some (connect_answer s.result s.client)

pub connect : ℕ → Surroundings → Attempt → Bytes → Client → Option Sending
unfolding establish connect_tried
connect size_mod env attempt url c =
    if is_disconnected c.state
    then connect_tried (
        establish size_mod env attempt url (record c {
          url = url;
          user_closed = false;
          reconnect_attempt = 0;
          reconnect_exhausted = false;
        }))
    else some (refused c already_connected)

-- `Close` once the close frame is sent or not; `replies` is what arrives in the two seconds.
close_wait : ℕ → Bytes → Option Client → Option Client
close_wait code reason none = none
close_wait code reason (some c) = some (teardown code reason c)

-- A close that had nothing to send its frame over ends at once.
close_sent_or_not : ℕ → Surroundings → List Arrival → ℕ → Bytes → Client × Bool → Option Client
unfolding close_wait
close_sent_or_not size_mod env replies code reason (c, false) = some c
close_sent_or_not size_mod env replies code reason (c, true) =
    close_wait code reason (arrive_all size_mod env replies c)

pub close_client : ℕ → Surroundings → List Arrival → ℕ → Bytes → Client → Option Client
unfolding close_sent_or_not
close_client size_mod env replies code reason c =
    let d = record c { user_closed = true; maintain_running = false } in
    if code == code_abnormal_closure
    then some (
        teardown code reason (
          report_error
            (record {
              code = NetworkErrc.invalid_argument;
              native = pos 1006;
              context = codes "1006 describes how a connection ended and cannot be requested";
            })
            d))
    else close_sent_or_not size_mod env replies code reason (send_close_frame env code reason d)

-- The destructor, once the maintenance task is stopped.
pub destroy : Surroundings → Client → Client
destroy env c =
    teardown code_abnormal_closure []
      (send_close_frame env 1000 [] (record c { user_closed = true; maintain_running = false })).0
