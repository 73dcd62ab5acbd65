-- ===== src/Http/Client/Execute.antt =====
-- `Execute`, `ExecuteAttempt` and `ExecuteOnce` of software_http_client.cpp: the buffered requests.
pub mod Exchange
pub mod Refused
use esp_modem_link.Common.{Bool, true, false, ◌&&◌, ◌||◌, Option, some, [], ◌∷◌}
use esp_modem_link.Common.Lists.{Bytes, codes, equal}
use esp_modem_link.Common.Tests.{if◌then◌else◌}
use esp_modem_link.Error.{NetworkError, NetworkErrc, Result, ok, err, network_error}
use esp_modem_link.Http.Headers.{Headers}
use esp_modem_link.Http.Parser.{set_header}
use esp_modem_link.Http.Url.{ParsedUrl, parse_url}
use esp_modem_link.Http.Client.{
  Client, HttpResponse, RequestState, Ran, Surroundings, then_do, no_response,
}
use esp_modem_link.Http.Client.Connection.{drop_transport}
use esp_modem_link.Http.Client.Arrivals.{wait, is_complete, failed_error}
use esp_modem_link.Http.Client.Start.{start_request}
use esp_modem_link.Http.Client.Redirects.{redirect_loop, hops}

pub method_is_repeatable : Bytes → Bool
method_is_repeatable method =
    equal method (codes "GET") || equal method (codes "HEAD") || equal method (codes "OPTIONS")

-- `response_.headers[key] = value` over the headers of the parser.
pub copy_headers : Headers → Headers → Headers
copy_headers [] held = held
copy_headers ((key, value) ∷ rest) held = copy_headers rest (set_header key value held)

abbrev pub response_timeout_error : NetworkError
response_timeout_error = network_error NetworkErrc.timeout "timed out waiting for the HTTP response"

abbrev pub response_lost_error : NetworkError
response_lost_error =
    network_error NetworkErrc.connection_lost "connection closed before the response was complete"

-- The response is complete: it is handed out, and the connection is kept if it may be.
unfoldable pub take_response : Client → Ran HttpResponse
take_response c =
    let result = record c.response {
      status_code = c.parser.status_code;
      headers = copy_headers c.parser.headers c.response.headers;
    } in
    let d = record c { response = no_response } in
    (if c.settings.keep_alive then d else drop_transport d, ok result)

-- Behind the wait for the response.
unfoldable pub collect_response : Client → Ran HttpResponse
unfolding take_response
collect_response c =
    if c.parse_failed
    then (drop_transport c, err (failed_error c))
    else if is_complete c.parser.state
    then take_response c
    else (
      drop_transport c,
      err (if c.is_closed then response_lost_error else response_timeout_error),
    )

unfoldable pub execute_once : Surroundings → RequestState → Client → Ran HttpResponse
execute_once env request c =
    then_do (start_request env request false (record c { streaming = false }))
      (λ u d. collect_response (wait env d))

abbrev pub is_connection_lost : NetworkErrc → Bool
is_connection_lost NetworkErrc.connection_lost = true
is_connection_lost _ = false

-- The first result, with the repeat that a lost connection may get.
unfoldable pub repeat_if_lost :
    Bool → (Client → Ran HttpResponse) → Ran HttpResponse → Ran HttpResponse
repeat_if_lost repeatable again (c, ok response) = (c, ok response)
repeat_if_lost repeatable again (c, err e) =
    let second = again c in if repeatable && is_connection_lost e.code then second else (c, err e)

-- The loop goes round twice at most.
unfoldable pub execute_attempt : Surroundings → RequestState → Client → Ran HttpResponse
unfolding repeat_if_lost
execute_attempt env request c =
    repeat_if_lost (method_is_repeatable request.method) (execute_once env request)
      (execute_once env request c)

-- The request that the caller configured.
abbrev pub configured : Bytes → ParsedUrl → Client → RequestState
configured method url c = record {
  method = method;
  url = url;
  body = c.settings.request_body;
  headers = c.settings.headers;
}

unfoldable pub execute_url :
    Surroundings → Bytes → Result ParsedUrl → Client → Option (Ran HttpResponse)
execute_url env method (err e) c = some (c, err e)
execute_url env method (ok url) c =
    redirect_loop (hops c) (execute_attempt env) 0 (configured method url c) c

-- `none` would be a chain of redirects that does not end.
unfoldable pub execute : Surroundings → Bytes → Bytes → Client → Option (Ran HttpResponse)
unfolding execute_url
execute env method url c = execute_url env method (parse_url url) c
