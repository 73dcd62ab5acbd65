-- ===== src/Http/Client/Start.antt =====
-- `StartRequest` of software_http_client.cpp.
use esp_modem_link.Common.{Bool, true, false, none, []}
use esp_modem_link.Common.Int.{ℤ}
use esp_modem_link.Common.Lists.{Bytes, codes}
use esp_modem_link.Common.Tests.{if◌then◌else◌}
use esp_modem_link.Error.{NetworkError, NetworkErrc, Result, ok, err, network_error}
use esp_modem_link.Http.Parser.{reset}
use esp_modem_link.Http.Request.{HttpRequestOptions, build_http_request}
use esp_modem_link.Http.Client.{
  Client, Settings, RequestState, Ran, Surroundings, sends, emit, then_do, no_response,
}
use esp_modem_link.Http.Client.Connection.{drop_transport, ensure_connected}

-- The parser and the buffers as a request finds them.
unfoldable pub clear_exchange : Client → Client
clear_exchange c = record c {
  parser = record (reset c.parser) { on_body = true; emitted = [] };
  parse_failed = false;
  parse_error = none;
  is_closed = false;
  response = no_response;
  pending = if c.streaming then [] else c.pending;
  upload_chunked = false;
  upload_active = false;
}

pub request_options : Settings → RequestState → Bool → HttpRequestOptions
request_options settings request chunked = record {
  method = request.method;
  headers = request.headers;
  body = request.body;
  keep_alive = settings.keep_alive;
  user_agent = codes "esp-modem-link/1.0";
  chunked_upload = chunked;
}

abbrev pub rendered : Settings → RequestState → Bool → Bytes
rendered settings request chunked =
    build_http_request request.url (request_options settings request chunked)

-- How many bytes were taken is not looked at.
unfoldable pub send_answer : Result ℤ → Client → Ran (Unit {0})
send_answer (err e) c = (drop_transport c, err e)
send_answer (ok n) c = (c, ok tt)

unfoldable pub send_request : Surroundings → RequestState → Bool → Client → Ran (Unit {0})
unfolding send_answer
send_request env request chunked c =
    let bytes = rendered c.settings request chunked in
    send_answer (env.send c.log bytes) (emit (sends bytes) c)

abbrev pub upload_open_error : NetworkError
upload_open_error =
    network_error NetworkErrc.invalid_argument
      "a chunked request body is still open; call EndBody() to finish it or Close() to abandon it before starting another request"

unfoldable pub start_request : Surroundings → RequestState → Bool → Client → Ran (Unit {0})
start_request env request chunked c =
    if c.upload_active
    then (c, err upload_open_error)
    else then_do (ensure_connected env request.url c)
        (λ u d. send_request env request chunked (clear_exchange d))
