-- ===== src/Websocket/Client/Maintain/Heartbeat.antt =====
-- The heartbeat of an open connection.
use esp_modem_link.Common.{
  ℕ, suc, ◌+◌, ◌*◌, ◌≤◌, ◌<◌, Bool, true, false, not, ◌||◌, some, [], ◌∷◌, ◌++◌, ◌≡◌, refl, ap, ◌∙◌,
  arith,
}
use esp_modem_link.Common.Lists.{Bytes}
use esp_modem_link.Common.Tests.{leb, ◌==◌, if◌then◌else◌}
use esp_modem_link.Websocket.Client.{
  Client, Surroundings, Sending, State, opened, sends, send_ping, reported, is_disconnected,
  teardown, forget_session,
}
use esp_modem_link.Websocket.Client.Sends.{Takes, ping_frame, send_ping_ok}
use esp_modem_link.Websocket.Client.Session.{Attempt}
use esp_modem_link.Websocket.Client.Maintain.{
  ping_when_idle, abandon, abandon_when_late, pong_deadline, heartbeat_turn, turn_in, maintain_turn,
}

-- An open connection on which nothing was sent for the interval, and no ping is unanswered.
pub record IsIdle (c : Client) : Type 0 where
  pub opened' : c.state ≡ opened
  pub up : c.transport ≡ true
  pub enabled : c.heartbeat.enabled ≡ true
  pub positive : 0 < c.heartbeat.interval
  pub quiet : c.ping_sent_ms ≡ 0
  pub started : 0 < c.clock
  pub due : c.last_sent_ms + c.heartbeat.interval * 1000 ≤ c.clock

-- The client with a ping out since the time of its clock.
pinged : Bytes → Client → Client
pinged frame c = record c {
  reconnect_attempt = 0;
  draws = suc c.draws;
  last_sent_ms = c.clock;
  ping_sent_ms = c.clock;
  log = c.log ++ sends frame ∷ [];
}

heartbeat_turn-pings :
    (env : Surroundings) (c : Client)
    → IsIdle c
    → Takes env
    → heartbeat_turn env c ≡ pinged (ping_frame (env.random c.draws)) c
unfolding heartbeat_turn ping_when_idle reported pinged
heartbeat_turn-pings env c h takes =
    let d = record c { reconnect_attempt = 0 } in
    let idle = ping_when_idle env c.heartbeat.interval d in
    let overdue = abandon_when_late (pong_deadline c.heartbeat) d in
    let sent = send_ping_ok env d h.up takes in
    let on : (not c.heartbeat.enabled || c.heartbeat.interval == 0) ≡ false =
      ground (arith, h.enabled, h.positive) in
    let none_out : (c.ping_sent_ms == 0) ≡ true = ground (arith, h.quiet) in
    let due : leb (c.last_sent_ms + c.heartbeat.interval * 1000) c.clock ≡ true =
      ground (arith, h.due) in
    ap (λ (b : Bool). if b then d else if c.ping_sent_ms == 0 then idle else overdue) on
    ∙ ap (λ (b : Bool). if b then idle else overdue) none_out
    ∙ ap
        (λ (b : Bool).
          if b then reported (send_ping env [] d).result (send_ping env [] d).client else d)
        due
    ∙ ap (λ (s : Sending). reported s.result s.client) sent

heartbeat_turn-abandons :
    (env : Surroundings) (c : Client)
    → c.heartbeat.enabled ≡ true
    → 0 < c.heartbeat.interval
    → 0 < c.ping_sent_ms
    → c.ping_sent_ms + pong_deadline c.heartbeat * 1000 ≤ c.clock
    → heartbeat_turn env c ≡ abandon (record c { reconnect_attempt = 0 })
unfolding heartbeat_turn abandon_when_late
heartbeat_turn-abandons env c enabled positive out late =
    let d = record c { reconnect_attempt = 0 } in
    let idle = ping_when_idle env c.heartbeat.interval d in
    let overdue = abandon_when_late (pong_deadline c.heartbeat) d in
    let on : (not c.heartbeat.enabled || c.heartbeat.interval == 0) ≡ false =
      ground (arith, enabled, positive) in
    let one_out : (c.ping_sent_ms == 0) ≡ false = ground (arith, out) in
    let passed : leb (c.ping_sent_ms + pong_deadline c.heartbeat * 1000) c.clock ≡ true =
      ground (arith, late) in
    ap (λ (b : Bool). if b then d else if c.ping_sent_ms == 0 then idle else overdue) on
    ∙ ap (λ (b : Bool). if b then idle else overdue) one_out
    ∙ ap (λ (b : Bool). if b then abandon d else d) passed

abandoned :
    (c : Client) → (is_disconnected (abandon c).state ≡ true) × ((abandon c).transport ≡ false)
unfolding abandon teardown forget_session
abandoned c = (ground arith, ground arith)

-- A silent peer is noticed: where the heartbeat is due, with a clock that is not zero, and the
-- transport takes what it is given, a turn of the maintenance task sends one frame, the six bytes of an
-- empty ping with the next random number for its key, and leaves the connection open with the time of
-- the ping; and where nothing happens before the next turn, one at or after the deadline ends the
-- connection and lets go of its transport.
pub maintain_turn-notices :
    (size_mod : ℕ) (env : Surroundings) (attempt : Attempt) (unstopped : Bool) (c : Client)
    (now : ℕ)
    → IsIdle c
    → Takes env
    → c.clock + pong_deadline c.heartbeat * 1000 ≤ now
    → (d : Client) × (maintain_turn size_mod env attempt unstopped c ≡ some d)
      × (d.state ≡ opened)
      × (d.log ≡ c.log ++ sends (ping_frame (env.random c.draws)) ∷ [])
      × (d.ping_sent_ms ≡ c.clock)
      × ((e : Client) × (maintain_turn size_mod env attempt unstopped (record d { clock = now })
            ≡ some e)
          × (is_disconnected e.state ≡ true)
          × (e.transport ≡ false))
unfolding maintain_turn turn_in pinged
maintain_turn-notices size_mod env attempt unstopped c now h takes late =
    let turned = heartbeat_turn-pings env c h takes in
    let d = pinged (ping_frame (env.random c.draws)) c in
    let (gone, free) = abandoned (record d { clock = now }) in
    (
      d,
      ap (λ (s : State). turn_in s size_mod env attempt unstopped c) h.opened' ∙ ap some turned,
      h.opened',
      refl,
      refl,
      (
        abandon (record d { clock = now }),
        ap (λ (s : State). turn_in s size_mod env attempt unstopped (record d { clock = now }))
              h.opened'
            ∙ ap some (
                heartbeat_turn-abandons env (record d { clock = now }) h.enabled h.positive
                  h.started late),
        gone,
        free,
      ),
    )
