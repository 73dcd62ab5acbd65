-- ===== src/Websocket/Client/Session/Linked.antt =====
-- A disconnected client holds no transport: kept by connecting and closing.
use esp_modem_link.Common.{
  ℕ, Bool, true, false, not, Option, none, some, List, [], ◌∷◌, ◌≡◌, refl, ◌∙◌, inl, inr,
}
use esp_modem_link.Common.Lists.{Bytes}
use esp_modem_link.Common.Tests.{Bool-cases, ◌==◌, if-both}
use esp_modem_link.Error.{Result, ok, err, NetworkError}
use esp_modem_link.Http.Url.{ParsedUrl}
use esp_modem_link.Websocket.Handshake.{build_handshake_request}
use esp_modem_link.Websocket.Client.{
  Client, Surroundings, Sending, opens, sends, emit, is_disconnected, send_close_frame,
  code_abnormal_closure,
}
use esp_modem_link.Websocket.Client.Linked.{
  Linked, teardown-Linked, on_transport_closed-Linked, send_close_frame-Linked,
}
use esp_modem_link.Websocket.Client.Receive.Linked.{Gives, on_transport_data-Gives}
use esp_modem_link.Websocket.Client.Session.{
  Arrival, bytes, closed, arrive, arrive_all, Attempt, handshake_answer, answered, waited,
  request_sent, transport_reached, transport_made, prepared, key_chosen, establish_at, establish,
  parse_web_socket_url, connect_answer, connect_tried, connect, close_wait, close_sent_or_not,
  close_client,
}

abbrev pub GivesSending : Option Sending → Type 0
GivesSending none = Unit
GivesSending (some s) = Linked s.client

pub arrive-Gives :
    (size_mod : ℕ) (env : Surroundings) (a : Arrival) (c : Client)
    → Linked c
    → Gives (arrive size_mod env a c)
unfolding arrive
arrive-Gives size_mod env (bytes data') c h = on_transport_data-Gives size_mod env data' c h
arrive-Gives size_mod env closed c h = on_transport_closed-Linked c

Gives-chain :
    (o : Option Client) (k : Client → Option Client)
    → Gives o
    → ((c : Client) → Linked c → Gives (k c))
    → Gives (elim o [ none ↦ none | some d ↦ k d ])
Gives-chain none k h f = tt
Gives-chain (some d) k h f = f d h

arrive_all-Gives :
    (size_mod : ℕ) (env : Surroundings) (arrivals : List Arrival) (c : Client)
    → Linked c
    → Gives (arrive_all size_mod env arrivals c)
unfolding arrive_all
arrive_all-Gives size_mod env [] c h = h
arrive_all-Gives size_mod env (a ∷ rest) c h =
    Gives-chain (arrive size_mod env a c) (arrive_all size_mod env rest)
      (arrive-Gives size_mod env a c h) (arrive_all-Gives size_mod env rest)

handshake_answer-Linked :
    (o : Option NetworkError) (c : Client) → Linked (handshake_answer o c).client
unfolding handshake_answer
handshake_answer-Linked (some e) c = teardown-Linked code_abnormal_closure [] c
handshake_answer-Linked none c = λ e. cc

answered-Linked : (c : Client) → Linked (answered c).client
unfolding answered
answered-Linked c =
    if-both (λ (s : Sending). Linked s.client) (not c.handshake_done) _ _
      (teardown-Linked code_abnormal_closure [] c) (handshake_answer-Linked c.handshake_error c)

waited-Gives : (o : Option Client) → GivesSending (waited o)
unfolding waited
waited-Gives none = tt
waited-Gives (some c) = answered-Linked c

request_sent-Gives :
    (size_mod : ℕ) (env : Surroundings) (arrivals : List Arrival) (r : Result (Unit {0}))
    (c : Client)
    → GivesSending (request_sent size_mod env arrivals r c)
unfolding request_sent
request_sent-Gives size_mod env arrivals (err e) c = teardown-Linked code_abnormal_closure [] c
request_sent-Gives size_mod env arrivals (ok u) c =
    waited-Gives (arrive_all size_mod env arrivals c)

-- Before it is connected the transport is not kept.
transport_reached-Gives :
    (size_mod : ℕ) (env : Surroundings) (arrivals : List Arrival) (request : Bytes)
    (reached : Result (Unit {0})) (c : Client)
    → c.transport ≡ false
    → GivesSending (transport_reached size_mod env arrivals request reached c)
unfolding transport_reached
transport_reached-Gives size_mod env arrivals request (err e) c free = λ _. free
transport_reached-Gives size_mod env arrivals request (ok u) c free =
    request_sent-Gives size_mod env arrivals (env.answer c.log request)
      (emit (sends request) (record c { transport = true }))

transport_made-Gives :
    (size_mod : ℕ) (env : Surroundings) (attempt : Attempt) (parsed : ParsedUrl)
    (made : Result (Unit {0})) (c : Client)
    → c.transport ≡ false
    → GivesSending (transport_made size_mod env attempt parsed made c)
unfolding transport_made
transport_made-Gives size_mod env attempt parsed (err e) c free = λ _. free
transport_made-Gives size_mod env attempt parsed (ok u) c free =
    transport_reached-Gives size_mod env attempt.arrivals
      (build_handshake_request parsed c.handshake_key c.headers) attempt.reached
      (emit (opens parsed.tls parsed.host parsed.port) c) free

key_chosen-transport :
    (env : Surroundings) (o : Option Bytes) (c : Client)
    → (key_chosen env o c).transport ≡ c.transport
unfolding key_chosen
key_chosen-transport env none c = refl
key_chosen-transport env (some []) c = refl
key_chosen-transport env (some (x ∷ xs)) c = refl

establish_at-Gives :
    (size_mod : ℕ) (env : Surroundings) (attempt : Attempt) (r : Result ParsedUrl) (c : Client)
    → Linked c
    → GivesSending (establish_at size_mod env attempt r c)
unfolding establish_at prepared
establish_at-Gives size_mod env attempt (err e) c h = h
establish_at-Gives size_mod env attempt (ok parsed) c h =
    elim (Bool-cases (is_disconnected c.state)) [
      | inl idle ↦ rw idle (
          transport_made-Gives size_mod env attempt parsed attempt.made (prepared env c)
            (key_chosen-transport env _ c ∙ h idle))
      | inr busy ↦ rw busy h
    ]

pub establish-Gives :
    (size_mod : ℕ) (env : Surroundings) (attempt : Attempt) (url : Bytes) (c : Client)
    → Linked c
    → GivesSending (establish size_mod env attempt url c)
unfolding establish
establish-Gives size_mod env attempt url c h =
    establish_at-Gives size_mod env attempt (parse_web_socket_url url) c h

connect_answer-Linked :
    (r : Result (Unit {0})) (c : Client) → Linked c → Linked (connect_answer r c).client
unfolding connect_answer
connect_answer-Linked (err e) c h = h
connect_answer-Linked (ok u) c h =
    if-both Linked c.callbacks.on_connected _ (record c { maintain_running = true }) h h

connect_tried-Gives : (o : Option Sending) → GivesSending o → GivesSending (connect_tried o)
unfolding connect_tried
connect_tried-Gives none h = tt
connect_tried-Gives (some s) h = connect_answer-Linked s.result s.client h

pub connect-Gives :
    (size_mod : ℕ) (env : Surroundings) (attempt : Attempt) (url : Bytes) (c : Client)
    → Linked c
    → GivesSending (connect size_mod env attempt url c)
unfolding connect
connect-Gives size_mod env attempt url c h =
    let fresh = record c {
      url = url;
      user_closed = false;
      reconnect_attempt = 0;
      reconnect_exhausted = false;
    } in
    if-both GivesSending (is_disconnected c.state) _ _
      (connect_tried-Gives (establish size_mod env attempt url fresh)
        (establish-Gives size_mod env attempt url fresh h))
      h

close_wait-Gives :
    (code : ℕ) (reason : Bytes) (o : Option Client) → Gives (close_wait code reason o)
unfolding close_wait
close_wait-Gives code reason none = tt
close_wait-Gives code reason (some c) = teardown-Linked code reason c

close_sent_or_not-Gives :
    (size_mod : ℕ) (env : Surroundings) (replies : List Arrival) (code : ℕ) (reason : Bytes)
    (p : Client × Bool)
    → Linked p.0
    → Gives (close_sent_or_not size_mod env replies code reason p)
unfolding close_sent_or_not
close_sent_or_not-Gives size_mod env replies code reason (c, false) h = h
close_sent_or_not-Gives size_mod env replies code reason (c, true) h =
    close_wait-Gives code reason (arrive_all size_mod env replies c)

pub close_client-Gives :
    (size_mod : ℕ) (env : Surroundings) (replies : List Arrival) (code : ℕ) (reason : Bytes)
    (c : Client)
    → Linked c
    → Gives (close_client size_mod env replies code reason c)
unfolding close_client
close_client-Gives size_mod env replies code reason c h =
    let d = record c { user_closed = true; maintain_running = false } in
    if-both Gives (code == code_abnormal_closure) _ _ (teardown-Linked code reason _) (
      close_sent_or_not-Gives size_mod env replies code reason (send_close_frame env code reason d)
        (send_close_frame-Linked env code reason d h))
