-- ===== src/Websocket/Client/Maintain/Linked.antt =====
-- A disconnected client holds no transport: kept by the maintenance loop.
use esp_modem_link.Common.{ℕ, suc, ◌+◌, ◌*◌, Bool, true, false, not, ◌||◌, Option, none, some, []}
use esp_modem_link.Common.Tests.{leb, ◌==◌, if-both, if◌then◌else◌}
use esp_modem_link.Error.{Result, ok, err}
use esp_modem_link.Websocket.Client.{
  Client, Surroundings, Sending, State, disconnected, handshaking, opened, send_ping, reported,
}
use esp_modem_link.Websocket.Client.Linked.{
  Linked, teardown-Linked, report_error-Linked, reported-Linked, send_ping-Linked,
}
use esp_modem_link.Websocket.Client.Receive.Linked.{Gives}
use esp_modem_link.Websocket.Client.Session.{Attempt, establish}
use esp_modem_link.Websocket.Client.Maintain.{
  ping_when_idle, abandon, abandon_when_late, pong_deadline, heartbeat_turn, give_up,
  reconnect_answer, reconnect_tried, reconnect_turn, turn_in,
}
use esp_modem_link.Websocket.Client.Session.Linked.{GivesSending, establish-Gives}

ping_when_idle-Linked :
    (env : Surroundings) (interval : ℕ) (c : Client)
    → Linked c
    → Linked (ping_when_idle env interval c)
unfolding ping_when_idle
ping_when_idle-Linked env interval c h =
    let s = send_ping env [] c in
    if-both Linked (leb (c.last_sent_ms + interval * 1000) c.clock) (reported s.result s.client) c
      (reported-Linked s.result s.client (send_ping-Linked env [] c h)) h

abandon-Linked : (c : Client) → Linked (abandon c)
unfolding abandon
abandon-Linked c = teardown-Linked _ _ _

abandon_when_late-Linked :
    (deadline : ℕ) (c : Client) → Linked c → Linked (abandon_when_late deadline c)
unfolding abandon_when_late
abandon_when_late-Linked deadline c h =
    if-both Linked (leb (c.ping_sent_ms + deadline * 1000) c.clock) (abandon c) c (abandon-Linked c)
      h

heartbeat_turn-Linked : (env : Surroundings) (c : Client) → Linked c → Linked (heartbeat_turn env c)
unfolding heartbeat_turn
heartbeat_turn-Linked env c h =
    let d = record c { reconnect_attempt = 0 } in
    let idle = ping_when_idle env c.heartbeat.interval d in
    let late = abandon_when_late (pong_deadline c.heartbeat) d in
    if-both Linked (not c.heartbeat.enabled || c.heartbeat.interval == 0) d
      (if c.ping_sent_ms == 0 then idle else late) h
      (if-both Linked (c.ping_sent_ms == 0) idle late
        (ping_when_idle-Linked env c.heartbeat.interval d h)
        (abandon_when_late-Linked (pong_deadline c.heartbeat) d h))

reconnect_answer-Linked :
    (n : ℕ) (r : Result (Unit {0})) (c : Client) → Linked c → Linked (reconnect_answer n r c)
unfolding reconnect_answer
reconnect_answer-Linked n (err e) c h =
    report_error-Linked e (record c { reconnect_attempt = suc n }) h
reconnect_answer-Linked n (ok u) c h =
    if-both Linked c.callbacks.on_connected _
      (record c { reconnect_attempt = 0; reconnect_exhausted = false }) h h

reconnect_tried-Gives : (n : ℕ) (o : Option Sending) → GivesSending o → Gives (reconnect_tried n o)
unfolding reconnect_tried
reconnect_tried-Gives n none h = tt
reconnect_tried-Gives n (some s) h = reconnect_answer-Linked n s.result s.client h

reconnect_turn-Gives :
    (size_mod : ℕ) (env : Surroundings) (attempt : Attempt) (unstopped : Bool) (c : Client)
    → Linked c
    → Gives (reconnect_turn size_mod env attempt unstopped c)
unfolding reconnect_turn give_up
reconnect_turn-Gives size_mod env attempt unstopped c h =
    if-both Gives _ (some (give_up c)) _
      (if-both Linked c.reconnect_exhausted c _ h
        (report_error-Linked _ (record c { reconnect_exhausted = true }) h))
      (if-both Gives unstopped _ (some c)
        (reconnect_tried-Gives c.reconnect_attempt (establish size_mod env attempt c.url c)
          (establish-Gives size_mod env attempt c.url c h))
        h)

pub turn_in-Gives :
    (s : State) (size_mod : ℕ) (env : Surroundings) (attempt : Attempt) (unstopped : Bool)
    (c : Client)
    → Linked c
    → Gives (turn_in s size_mod env attempt unstopped c)
unfolding turn_in
turn_in-Gives opened size_mod env attempt unstopped c h = heartbeat_turn-Linked env c h
turn_in-Gives handshaking size_mod env attempt unstopped c h = h
turn_in-Gives disconnected size_mod env attempt unstopped c h =
    if-both Gives _ (some c) _ h (reconnect_turn-Gives size_mod env attempt unstopped c h)
