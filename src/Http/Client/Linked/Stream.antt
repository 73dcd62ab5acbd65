-- ===== src/Http/Client/Linked/Stream.antt =====
-- The flags of the client in software_http_client.cpp, over the streamed requests and their bodies.
use esp_modem_link.Common.{
  ℕ, Bool, true, false, not, ◌&&◌, Option, none, some, [], ◌∷◌, ◌≡◌, refl, inl, inr,
}
use esp_modem_link.Common.Int.{ℤ}
use esp_modem_link.Common.Lists.{Bytes, equal}
use esp_modem_link.Common.Tests.{◌==◌, if◌then◌else◌, if-both, Bool-cases}
use esp_modem_link.Error.{Result, ok, err}
use esp_modem_link.Http.Url.{ParsedUrl, parse_url}
use esp_modem_link.Http.Client.{
  default_tls_config, HttpResponse, creates, connects, sends, Client, Surroundings, RequestState,
  Ran, then_do, emit,
}
use esp_modem_link.Http.Client.Arrivals.{wait}
use esp_modem_link.Http.Client.Connection.{
  drop_transport, equal_flag, reusable, connect_answer, create_answer, open_connection,
  ensure_connected,
}
use esp_modem_link.Http.Client.Start.{
  clear_exchange, rendered, send_answer, send_request, upload_open_error, start_request,
}
use esp_modem_link.Http.Client.Redirects.{redirect_loop, hops}
use esp_modem_link.Http.Client.Execute.{configured}
use esp_modem_link.Http.Client.Stream.{
  await_headers, open_attempt, has_expect, arm_upload, measured_body_error, expect_error,
  begin_chunked_upload, begun, opened, open_url, open_stream, take_pending, read, close,
}
use esp_modem_link.Http.Client.Linked.{
  Linked, RunLinked, then_do-Linked, drop_transport-Linked, start_request-Linked, wait-Linked,
}
use esp_modem_link.Http.Client.Linked.Execute.{LoopLinked, redirect_loop-Linked}

pub await_headers-Linked :
    (env : Surroundings) (c : Client) → Linked c → Linked (await_headers env c).0
unfolding await_headers
await_headers-Linked env c h = wait-Linked env c h

open_attempt-Linked :
    (env : Surroundings) (request : RequestState) (c : Client)
    → Linked c
    → Linked (open_attempt env request c).0
unfolding open_attempt
open_attempt-Linked env request c h =
    then_do-Linked (start_request env request false c) (λ u d. await_headers env d)
      (start_request-Linked env request false c h) (λ u d. await_headers-Linked env d)

-- Behind a request that started there is a transport.
Sendable : Ran (Unit {0}) → Type 0
Sendable (c, err e) = Unit
Sendable (c, ok u) = c.transport ≡ true

send_answer-Sendable :
    (answer : Result ℤ) (c : Client) → c.transport ≡ true → Sendable (send_answer answer c)
unfolding Sendable send_answer
send_answer-Sendable (err e) c h = tt
send_answer-Sendable (ok n) c h = h

then_do-Sendable :
    (r : Ran (Unit {0})) (f : Unit {0} → Client → Ran (Unit {0}))
    → Sendable r
    → ((d : Client) → d.transport ≡ true → Sendable (f tt d))
    → Sendable (then_do r f)
unfolding Sendable
then_do-Sendable (c, err e) f h k = tt
then_do-Sendable (c, ok u) f h k = k c h

connect_answer-Sendable :
    (url : ParsedUrl) (answer : Result (Unit {0})) (c : Client)
    → c.transport ≡ true
    → Sendable (connect_answer url answer c)
unfolding Sendable connect_answer
connect_answer-Sendable url (err e) c h = tt
connect_answer-Sendable url (ok u) c h = h

create_answer-Sendable :
    (env : Surroundings) (url : ParsedUrl) (answer : Result (Unit {0})) (c : Client)
    → Sendable (create_answer env url answer c)
unfolding Sendable create_answer
create_answer-Sendable env url (err e) c = tt
create_answer-Sendable env url (ok u) c =
    connect_answer-Sendable url (env.connect c.log url.host url.port)
      (emit (connects url.host url.port) (record c { transport = true })) refl

second_true : (a b c : Bool) → (a && (b && c)) ≡ true → b ≡ true
second_true true true c h = refl
second_true true false c h = cc
second_true false b c h = cc

reusable-transport : (url : ParsedUrl) (c : Client) → reusable url c ≡ true → c.transport ≡ true
reusable-transport url c h =
    second_true c.connected c.transport
      (c.settings.keep_alive
        && (equal url.host c.connected_host
            && (url.port == c.connected_port && equal_flag url.tls c.connected_tls)))
      h

ensure_connected-Sendable :
    (env : Surroundings) (url : ParsedUrl) (c : Client) → Sendable (ensure_connected env url c)
unfolding Sendable ensure_connected open_connection
ensure_connected-Sendable env url c = elim (Bool-cases (reusable url c)) [
  | inl again ↦ rw again (reusable-transport url c again)
  | inr fresh ↦ rw fresh (
      let d = drop_transport c in
      let config = if url.tls then d.settings.tls else default_tls_config in
      create_answer-Sendable env url (env.create d.log url.tls config)
        (emit (creates url.tls config) d))
]

start_request-Sendable :
    (env : Surroundings) (request : RequestState) (chunked : Bool) (c : Client)
    → Sendable (start_request env request chunked c)
unfolding Sendable start_request send_request clear_exchange
start_request-Sendable env request chunked c =
    let begin : Unit {0} → Client → Ran (Unit {0}) =
      λ u d. send_request env request chunked (clear_exchange d) in
    let begun = then_do (ensure_connected env request.url c) begin in
    if-both Sendable c.upload_active (c, err upload_open_error) begun tt
      (then_do-Sendable (ensure_connected env request.url c) begin
        (ensure_connected-Sendable env request.url c)
        (λ d up.
          let e = clear_exchange d in
          let bytes = rendered e.settings request chunked in
          send_answer-Sendable (env.send e.log bytes) (emit (sends bytes) e) up))

armed-Linked :
    (r : Ran (Unit {0}))
    → Linked r.0
    → Sendable r
    → Linked (then_do {B = Unit {0}} r (λ u d. (arm_upload d, ok tt))).0
unfolding Sendable
armed-Linked (c, ok u) h up = (h.0, λ e. (up, refl))
armed-Linked (c, err e) h up = h

begin_chunked_upload-Linked :
    (env : Surroundings) (request : RequestState) (c : Client)
    → Linked c
    → Linked (begin_chunked_upload env request c).0
unfolding begin_chunked_upload
begin_chunked_upload-Linked env request c h =
    let started = start_request env request true c in
    let armed : Ran (Unit {0}) = then_do started (λ u d. (arm_upload d, ok tt)) in
    if-both RunLinked (not (equal request.body [])) (c, err measured_body_error)
      (if has_expect request.headers then (c, err expect_error) else armed) h
      (if-both RunLinked (has_expect request.headers) (c, err expect_error) armed h
        (armed-Linked started (start_request-Linked env request true c h)
          (start_request-Sendable env request true c)))

begun-Linked : (r : Ran (Unit {0})) → Linked r.0 → Linked (begun r).0
unfolding begun
begun-Linked (c, ok u) h = h
begun-Linked (c, err e) h = h

opened-Linked : (o : Option (Ran HttpResponse)) → LoopLinked o → LoopLinked (opened o)
unfolding opened
opened-Linked none h = tt
opened-Linked (some (c, err e)) h = h
opened-Linked (some (c, ok head)) h = h

open_url-Linked :
    (env : Surroundings) (method : Bytes) (url : Result ParsedUrl) (c : Client)
    → Linked c
    → LoopLinked (open_url env method url c)
unfolding open_url
open_url-Linked env method (err e) c h = h
open_url-Linked env method (ok url) c h =
    let request = configured method url c in
    let d = record c { streaming = true } in
    let begin = begin_chunked_upload env request d in
    let loop = redirect_loop (hops d) (open_attempt env) 0 request d in
    if-both LoopLinked c.settings.chunked_upload (some (begun begin)) (opened loop)
      (begun-Linked begin (begin_chunked_upload-Linked env request d h))
      (opened-Linked loop
        (redirect_loop-Linked (hops d) 0 (open_attempt env) request d (open_attempt-Linked env) h))

pub open_stream-Linked :
    (env : Surroundings) (method url : Bytes) (c : Client)
    → Linked c
    → LoopLinked (open_stream env method url c)
unfolding open_stream
open_stream-Linked env method url c h = open_url-Linked env method (parse_url url) c h

take_pending-Linked :
    (size : ℕ) (pending : Bytes) (c : Client) → Linked c → Linked (take_pending size pending c).0
unfolding take_pending
take_pending-Linked size [] c h = h
take_pending-Linked size (b ∷ bs) c h = h

pub read-Linked :
    (env : Surroundings) (size : ℕ) (c : Client) → Linked c → Linked (read env size c).0
unfolding read
read-Linked env size c h =
    let d = wait env c in take_pending-Linked size d.pending d (wait-Linked env c h)

pub close-Linked : (c : Client) → Linked (close c)
unfolding close
close-Linked c = drop_transport-Linked c
