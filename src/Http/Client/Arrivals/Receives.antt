-- ===== src/Http/Client/Arrivals/Receives.antt =====
-- What the callbacks of software_http_client.cpp leave of the client.
use esp_modem_link.Common.{
  suc, Option, none, some, List, [], ◌∷◌, ◌++◌, Bool, ℕ, ◌≡◌, refl, ap, ◌∙◌,
}
use esp_modem_link.Common.Lists.{Bytes}
use esp_modem_link.Common.Tests.{if-both}
use esp_modem_link.Error.{NetworkError, Result, ok, err}
use esp_modem_link.Http.Parser.{HttpParser, Step}
use esp_modem_link.Http.Parser.Feed.{feed}
use esp_modem_link.Http.Client.{Client, HttpResponse, Surroundings, Arrival, data', closed, failed}
use esp_modem_link.Http.Client.Arrivals.{
  handle_body, handle_pieces, note_error, fed, on_transport_data, on_transport_closed,
  on_transport_error, arrive, arrive_all, wait, is_complete,
}

-- The callbacks change the parser, the verdict on the exchange and what was received, and nothing of
-- the connection, the settings or the upload.
pub record Receives (c d : Client) : Type 0 where
  pub parser : HttpParser
  pub parse_failed : Bool
  pub parse_error : Option NetworkError
  pub is_closed : Bool
  pub pending : Bytes
  pub response : HttpResponse
  pub same : d ≡ record c {
    parser = parser;
    parse_failed = parse_failed;
    parse_error = parse_error;
    is_closed = is_closed;
    pending = pending;
    response = response;
  }

abbrev received :
    HttpParser → Bool → Option NetworkError → Bool → Bytes → HttpResponse → Client → Client
received p f e b q r c = record c {
  parser = p;
  parse_failed = f;
  parse_error = e;
  is_closed = b;
  pending = q;
  response = r;
}

-- The fields of `d`, where the rest is that of `c`.
abbrev from_fields :
    (c d : Client)
    → d ≡ received d.parser d.parse_failed d.parse_error d.is_closed d.pending d.response c
    → Receives c d
from_fields c d h = record {
  parser = d.parser;
  parse_failed = d.parse_failed;
  parse_error = d.parse_error;
  is_closed = d.is_closed;
  pending = d.pending;
  response = d.response;
  same = h;
}

then_receives : (c d e : Client) → Receives c d → Receives d e → Receives c e
then_receives c d e h k = record {
  parser = k.parser;
  parse_failed = k.parse_failed;
  parse_error = k.parse_error;
  is_closed = k.is_closed;
  pending = k.pending;
  response = k.response;
  same =
      k.same
      ∙ ap (received k.parser k.parse_failed k.parse_error k.is_closed k.pending k.response) h.same;
}

handle_body-Receives : (piece : Bytes) (c : Client) → Receives c (handle_body piece c)
unfolding handle_body
handle_body-Receives piece c =
    let streamed = record c { pending = c.pending ++ piece } in
    let buffered = record c { response = record c.response { body = c.response.body ++ piece } } in
    if-both (Receives c) c.streaming streamed buffered (from_fields c streamed refl)
      (from_fields c buffered refl)

handle_pieces-Receives : (pieces : List Bytes) (c : Client) → Receives c (handle_pieces pieces c)
unfolding handle_pieces
handle_pieces-Receives [] c = from_fields c c refl
handle_pieces-Receives (piece ∷ pieces) c =
    let d = handle_body piece c in
    then_receives c d (handle_pieces pieces d) (handle_body-Receives piece c)
      (handle_pieces-Receives pieces d)

note_error-Receives : (result : Result ℕ) (c : Client) → Receives c (note_error result c)
unfolding note_error
note_error-Receives (ok n) c = from_fields c c refl
note_error-Receives (err e) c = from_fields c (note_error (err e) c) refl

fed-Receives : (s : Option Step) (c : Client) → Receives c (fed s c)
unfolding fed
fed-Receives none c = from_fields c c refl
fed-Receives (some (p, result)) c =
    let d = record c { parser = record p { emitted = [] } } in
    let e = handle_pieces p.emitted d in
    then_receives c d (note_error result e) (from_fields c d refl) (
      then_receives d e (note_error result e) (handle_pieces-Receives p.emitted d)
        (note_error-Receives result e))

-- Every callback.
pub arrive-Receives : (size_mod : ℕ) (a : Arrival) (c : Client) → Receives c (arrive size_mod a c)
unfolding arrive on_transport_data on_transport_closed on_transport_error
arrive-Receives size_mod (data' bytes) c =
    let s = feed size_mod c.parser bytes in
    if-both (Receives c) (is_complete c.parser.state) c (fed s c) (from_fields c c refl)
      (fed-Receives s c)
arrive-Receives size_mod closed c = from_fields c (on_transport_closed c) refl
arrive-Receives size_mod (failed e) c = from_fields c (on_transport_error e c) refl

arrive_all-Receives :
    (size_mod : ℕ) (arrivals : List Arrival) (c : Client)
    → Receives c (arrive_all size_mod arrivals c)
unfolding arrive_all
arrive_all-Receives size_mod [] c = from_fields c c refl
arrive_all-Receives size_mod (a ∷ rest) c =
    let d = arrive size_mod a c in
    then_receives c d (arrive_all size_mod rest d) (arrive-Receives size_mod a c)
      (arrive_all-Receives size_mod rest d)

-- A wait, which is counted.
pub wait-Receives :
    (env : Surroundings) (c : Client) → Receives (record c { waits = suc c.waits }) (wait env c)
unfolding wait
wait-Receives env c =
    arrive_all-Receives env.size_mod (env.arrivals c.waits) (record c { waits = suc c.waits })
