-- ===== src/Websocket/Client/Maintain.antt =====
-- src/protocol/websocket/software_ws_client.cpp: a turn of `MaintainLoop` behind its sleep.
pub mod Linked
pub mod Heartbeat
pub mod Steps
use esp_modem_link.Common.{
  ℕ, zero, suc, ◌+◌, ◌-◌, ◌*◌, Bool, true, false, not, ◌&&◌, ◌||◌, Option, none, some, List, [],
  ◌∷◌, ◌++◌,
}
use esp_modem_link.Common.Decimal.{to_decimal}
use esp_modem_link.Common.Int.{pos}
use esp_modem_link.Common.Lists.{Bytes, codes, drop, starts_with}
use esp_modem_link.Common.Tests.{ltb, leb, ◌==◌, if◌then◌else◌}
use esp_modem_link.Error.{NetworkError, NetworkErrc, Result, ok, err, network_error, timeout_error}
use esp_modem_link.Http.Headers.{find_header}
use esp_modem_link.Http.Url.{ParsedUrl, parse_url}
use esp_modem_link.Websocket.Handshake.{make_sec_web_socket_key, build_handshake_request}
use esp_modem_link.Websocket.Client.{
  Client, State, disconnected, handshaking, opened, is_disconnected, Surroundings, Sending,
  HeartbeatConfig, Effect, opens, sends, tells_connected, emit, emit_if, report_error, teardown,
  send_close_frame, send_ping, reported, on_transport_closed, code_abnormal_closure,
}
use esp_modem_link.Websocket.Client.Receive.{on_transport_data}
use esp_modem_link.Websocket.Client.Session.{Attempt, establish}

-- A ping once nothing was sent for the interval.
ping_when_idle : Surroundings → ℕ → Client → Client
ping_when_idle env interval c =
    let s = send_ping env [] c in
    if leb (c.last_sent_ms + interval * 1000) c.clock then reported s.result s.client else c

abandon : Client → Client
abandon c =
    teardown code_abnormal_closure (codes "no pong from the peer")
      (report_error (network_error NetworkErrc.timeout "the peer did not answer a ping") c)

-- The end of the connection once the deadline of a ping is over.
abandon_when_late : ℕ → Client → Client
unfolding abandon
abandon_when_late deadline c =
    if leb (c.ping_sent_ms + deadline * 1000) c.clock then abandon c else c

-- A timeout of zero is the interval.
abbrev pub pong_deadline : HeartbeatConfig → ℕ
pong_deadline config = if config.timeout == 0 then config.interval else config.timeout

-- A turn of the maintenance loop on an open connection.
pub heartbeat_turn : Surroundings → Client → Client
unfolding ping_when_idle abandon_when_late
heartbeat_turn env c =
    let d = record c { reconnect_attempt = 0 } in
    if not c.heartbeat.enabled || c.heartbeat.interval == 0
    then d
    else if c.ping_sent_ms == 0
    then ping_when_idle env c.heartbeat.interval d
    else abandon_when_late (pong_deadline c.heartbeat) d

-- Whether the schedule allows no further attempt.
abbrev retries_spent : Option ℕ → ℕ → Bool
retries_spent none attempt = false
retries_spent (some most) attempt = leb most attempt

give_up : Client → Client
give_up c =
    if c.reconnect_exhausted
    then c
    else report_error
        (record {
          code = NetworkErrc.connect_failed;
          native = pos c.reconnect_attempt;
          context =
              codes "giving up after "
              ++ (to_decimal c.reconnect_attempt ++ codes " reconnection attempts");
        })
        (record c { reconnect_exhausted = true })

-- What a turn does with the end of an attempt, of which there were `attempts` before.
reconnect_answer : ℕ → Result (Unit {0}) → Client → Client
reconnect_answer attempts (err e) c = report_error e (record c { reconnect_attempt = suc attempts })
reconnect_answer attempts (ok u) c =
    emit_if c.callbacks.on_connected tells_connected
      (record c { reconnect_attempt = 0; reconnect_exhausted = false })

reconnect_tried : ℕ → Option Sending → Option Client
unfolding reconnect_answer
reconnect_tried attempts none = none
reconnect_tried attempts (some s) = some (reconnect_answer attempts s.result s.client)

-- A turn without a connection; `unstopped` is that the task is not stopped while it waits.
pub reconnect_turn : ℕ → Surroundings → Attempt → Bool → Client → Option Client
unfolding give_up reconnect_tried
reconnect_turn size_mod env attempt unstopped c =
    if retries_spent c.reconnect.max_retries c.reconnect_attempt
    then some (give_up c)
    else if unstopped
    then reconnect_tried c.reconnect_attempt (establish size_mod env attempt c.url c)
    else some c

pub turn_in : State → ℕ → Surroundings → Attempt → Bool → Client → Option Client
unfolding heartbeat_turn reconnect_turn
turn_in opened size_mod env attempt unstopped c = some (heartbeat_turn env c)
turn_in handshaking size_mod env attempt unstopped c = some c
turn_in disconnected size_mod env attempt unstopped c =
    if not c.reconnect.enabled || c.user_closed
    then some c
    else reconnect_turn size_mod env attempt unstopped c

-- A turn of `MaintainLoop` behind its sleep.
pub maintain_turn : ℕ → Surroundings → Attempt → Bool → Client → Option Client
unfolding turn_in
maintain_turn size_mod env attempt unstopped c = turn_in c.state size_mod env attempt unstopped c
