-- ===== src/Websocket/Client/Linked.antt =====
-- A client that is disconnected holds no transport: what sending and closing does to this.
use esp_modem_link.Common.{
  ℕ, suc, Bool, true, false, not, Option, none, some, [], ◌≡◌, sym, ap, ◌∙◌, arith,
}
use esp_modem_link.Common.Lists.{Bytes, length}
use esp_modem_link.Common.Tests.{if-both, ltb}
use esp_modem_link.Error.{Result, ok, err, NetworkError}
use esp_modem_link.Websocket.Frame.{max_control_payload, WsOpcode, close, ping, encode_frame}
use esp_modem_link.Websocket.Client.{
  Client, Surroundings, Sending, is_disconnected, send_frame, send_close_frame, teardown,
  forget_session, on_transport_closed, code_abnormal_closure, close_encoded, is_open, close_payload,
  ping_sent, reported, send_ping, ping_peer, send_fragment, fail, report_error,
}
use esp_modem_link.Websocket.Client.Sends.{send_frame-Sends}

abbrev pub Linked : Client → Type 0
Linked c = is_disconnected c.state ≡ true → c.transport ≡ false

pub Linked-same :
    (c d : Client) → d.state ≡ c.state → d.transport ≡ c.transport → Linked c → Linked d
Linked-same c d s t h e = t ∙ h (ap is_disconnected (sym s) ∙ e)

pub teardown-Linked : (code : ℕ) (reason : Bytes) (c : Client) → Linked (teardown code reason c)
unfolding teardown forget_session
teardown-Linked code reason c e = ground arith

pub fail-Linked :
    (env : Surroundings) (e : NetworkError) (code : ℕ) (reason : Bytes) (c : Client)
    → Linked (fail env e code reason c)
unfolding fail
fail-Linked env e code reason c =
    teardown-Linked code reason (send_close_frame env code reason (report_error e c)).0

pub send_frame-Linked :
    (env : Surroundings) (opcode : WsOpcode) (payload : Bytes) (fin : Bool) (c : Client)
    → Linked c
    → Linked (send_frame env opcode payload fin c).client
send_frame-Linked env opcode payload fin c h =
    let same = (send_frame-Sends env opcode payload fin c).same in
    Linked-same c (send_frame env opcode payload fin c).client (ap (λ (d : Client). d.state) same)
      (ap (λ (d : Client). d.transport) same) h

pub on_transport_closed-Linked : (c : Client) → Linked (on_transport_closed c)
unfolding on_transport_closed
on_transport_closed-Linked c = teardown-Linked code_abnormal_closure [] c

pub report_error-Linked : (e : NetworkError) (c : Client) → Linked c → Linked (report_error e c)
unfolding report_error
report_error-Linked e c h = if-both Linked c.callbacks.on_error _ c h h

close_encoded-Linked :
    (env : Surroundings) (r : Result Bytes) (c : Client) → Linked c → Linked (close_encoded env r c)
unfolding close_encoded
close_encoded-Linked env (err e) c h = h
close_encoded-Linked env (ok bytes) c h = h

pub send_close_frame-Linked :
    (env : Surroundings) (code : ℕ) (reason : Bytes) (c : Client)
    → Linked c
    → Linked (send_close_frame env code reason c).0
unfolding send_close_frame
send_close_frame-Linked env code reason c h =
    let d = record c { close_sent = true } in
    if-both (λ (p : Client × Bool). Linked p.0) (not (is_open c.state)) (c, false) _ h
      (if-both (λ (p : Client × Bool). Linked p.0) (not c.transport) (d, false) _ h
        (close_encoded-Linked env
          (encode_frame close (close_payload code reason) true (some (env.random c.draws)))
          (record d { draws = suc c.draws }) h))

ping_sent-Linked : (r : Result (Unit {0})) (c : Client) → Linked c → Linked (ping_sent r c).client
unfolding ping_sent
ping_sent-Linked (ok u) c h = h
ping_sent-Linked (err e) c h = h

pub reported-Linked : (r : Result (Unit {0})) (c : Client) → Linked c → Linked (reported r c)
unfolding reported
reported-Linked (ok u) c h = h
reported-Linked (err e) c h = report_error-Linked e c h

pub send_ping-Linked :
    (env : Surroundings) (payload : Bytes) (c : Client)
    → Linked c
    → Linked (send_ping env payload c).client
unfolding send_ping
send_ping-Linked env payload c h =
    let s = send_frame env ping payload true c in
    ping_sent-Linked s.result s.client (send_frame-Linked env ping payload true c h)

pub ping_peer-Linked :
    (env : Surroundings) (payload : Bytes) (c : Client)
    → Linked c
    → Linked (ping_peer env payload c)
unfolding ping_peer
ping_peer-Linked env payload c h =
    let s = send_ping env payload c in
    if-both Linked (ltb max_control_payload (length payload)) _ _ (report_error-Linked _ c h)
      (reported-Linked s.result s.client (send_ping-Linked env payload c h))

pub send_fragment-Linked :
    (env : Surroundings) (data' : Option Bytes) (binary' fin : Bool) (c : Client)
    → Linked c
    → Linked (send_fragment env data' binary' fin c).client
unfolding send_fragment
send_fragment-Linked env none binary' fin c h = h
send_fragment-Linked env (some data') binary' fin c h =
    if-both (λ (s : Sending). Linked s.client) (is_open c.state) _ _
      (send_frame-Linked env _ data' fin (record c { send_fragment_open = not fin }) h) h
