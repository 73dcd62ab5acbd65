-- ===== src/Http/Client/Linked.antt =====
-- What connects the flags of the client in software_http_client.cpp: the definition, over
-- the connection, the start of a request and the callbacks.
pub mod Execute
pub mod Stream
pub mod Upload
use esp_modem_link.Common.{
  ℕ, zero, suc, Bool, true, false, not, ◌&&◌, ◌||◌, Option, none, some, List, [], ◌∷◌, ◌≡◌, refl,
  sym, ap, ◌∙◌,
}
use esp_modem_link.Common.Int.{ℤ}
use esp_modem_link.Common.Lists.{Bytes, codes, length, equal}
use esp_modem_link.Common.Tests.{◌==◌, ltb, leb, if◌then◌else◌, if-both}
use esp_modem_link.Error.{NetworkError, Result, ok, err}
use esp_modem_link.Http.Redirect.{redirect_location, resolve_redirect}
use esp_modem_link.Http.Url.{ParsedUrl, parse_url}
use esp_modem_link.Http.Parser.Feed.{feed}
use esp_modem_link.Http.Client.{
  default_tls_config, creates, connects, sends, Client, Surroundings, RequestState, Ran, then_do,
  emit,
}
use esp_modem_link.Http.Client.Arrivals.{wait}
use esp_modem_link.Http.Client.Connection.{
  drop_transport, or_drop, reusable, connect_answer, create_answer, open_connection,
  ensure_connected,
}
use esp_modem_link.Http.Client.Start.{
  clear_exchange, rendered, send_answer, send_request, upload_open_error, start_request,
}
use esp_modem_link.Http.Client.Stream.{begun}
use esp_modem_link.Http.Client.Arrivals.Receives.{Receives, arrive-Receives, wait-Receives}

-- A connection needs a transport, and a chunked body that is being written needs a transport and the
-- framing of chunks.
abbrev pub Linked : Client → Type 0
Linked c =
    (c.connected ≡ true → c.transport ≡ true)
    × (c.upload_active ≡ true → (c.transport ≡ true) × (c.upload_chunked ≡ true))

module _ {ℓ} {A : Type ℓ} where
  abbrev pub RunLinked : Ran A → Type 0
  RunLinked r = Linked r.0

  pub then_do-Linked {κ} :
      {B : Type κ} (r : Ran A) (f : A → Client → Ran B)
      → Linked r.0
      → ((a : A) (d : Client) → Linked d → Linked (f a d).0)
      → Linked (then_do r f).0
  then_do-Linked (d, ok a) f h k = k a d h
  then_do-Linked (d, err e) f h k = h

pub Receives-Linked : (c d : Client) → Receives c d → Linked c → Linked d
Receives-Linked c d r h = rw r.same h

pub drop_transport-Linked : (c : Client) → Linked (drop_transport c)
unfolding drop_transport
drop_transport-Linked c = (λ e. cc, λ e. cc)

pub or_drop-Linked {ℓ} : {A : Type ℓ} (r : Ran A) → Linked r.0 → Linked (or_drop r).0
or_drop-Linked (c, ok a) h = h
or_drop-Linked (c, err e) h = drop_transport-Linked c

connect_answer-Linked :
    (url : ParsedUrl) (answer : Result (Unit {0})) (c : Client)
    → Linked (record c { connected = true })
    → Linked (connect_answer url answer c).0
unfolding connect_answer
connect_answer-Linked url (err e) c h = drop_transport-Linked c
connect_answer-Linked url (ok u) c h = h

-- A client without a connection and without an upload.
abbrev Idle : Client → Type 0
Idle c = (c.connected ≡ false) × (c.upload_active ≡ false)

create_answer-Linked :
    (env : Surroundings) (url : ParsedUrl) (answer : Result (Unit {0})) (c : Client)
    → Idle c
    → Linked (create_answer env url answer c).0
unfolding create_answer
create_answer-Linked env url (err e) c (h, k) = (λ e'. cc, λ e'. cc)
create_answer-Linked env url (ok u) c (h, k) =
    let d = emit (connects url.host url.port) (record c { transport = true }) in
    connect_answer-Linked url (env.connect c.log url.host url.port) d (λ e. refl, λ e. cc)

ensure_connected-Linked :
    (env : Surroundings) (url : ParsedUrl) (c : Client)
    → Linked c
    → Linked (ensure_connected env url c).0
unfolding ensure_connected open_connection drop_transport
ensure_connected-Linked env url c h =
    let d = drop_transport c in
    let config = if url.tls then d.settings.tls else default_tls_config in
    if-both RunLinked (reusable url c) (c, ok tt) (open_connection env url d) h
      (create_answer-Linked env url (env.create d.log url.tls config)
        (emit (creates url.tls config) d) (refl, refl))

send_answer-Linked : (answer : Result ℤ) (c : Client) → Linked c → Linked (send_answer answer c).0
unfolding send_answer
send_answer-Linked (err e) c h = drop_transport-Linked c
send_answer-Linked (ok n) c h = h

pub start_request-Linked :
    (env : Surroundings) (request : RequestState) (chunked : Bool) (c : Client)
    → Linked c
    → Linked (start_request env request chunked c).0
unfolding start_request clear_exchange send_request
start_request-Linked env request chunked c h =
    let begin : Unit {0} → Client → Ran (Unit {0}) =
      λ u d. send_request env request chunked (clear_exchange d) in
    let begun = then_do (ensure_connected env request.url c) begin in
    if-both RunLinked c.upload_active (c, err upload_open_error) begun h
      (then_do-Linked (ensure_connected env request.url c) begin
        (ensure_connected-Linked env request.url c h)
        (λ u d k.
          let e = clear_exchange d in
          let bytes = rendered e.settings request chunked in
          send_answer-Linked (env.send e.log bytes) (emit (sends bytes) e) (k.0, λ x. cc)))

pub wait-Linked : (env : Surroundings) (c : Client) → Linked c → Linked (wait env c)
wait-Linked env c h =
    Receives-Linked (record c { waits = suc c.waits }) (wait env c) (wait-Receives env c) h
