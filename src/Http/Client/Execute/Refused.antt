-- ===== src/Http/Client/Execute/Refused.antt =====
-- A request that is started while the body of another one is being written, in software_http_client.cpp.
use esp_modem_link.Common.{Bool, true, false, some, ◌≡◌, refl, ap, ◌∙◌}
use esp_modem_link.Common.Lists.{Bytes}
use esp_modem_link.Common.Tests.{if◌then◌else◌}
use esp_modem_link.Error.{Result, ok, err}
use esp_modem_link.Http.Url.{ParsedUrl, parse_url}
use esp_modem_link.Http.Client.{HttpResponse, Client, Surroundings, RequestState, Ran, then_do}
use esp_modem_link.Http.Client.Connection.{ensure_connected}
use esp_modem_link.Http.Client.Arrivals.{wait}
use esp_modem_link.Http.Client.Start.{
  clear_exchange, send_request, upload_open_error, start_request,
}
use esp_modem_link.Http.Client.Redirects.{after_attempt, redirect_loop}
use esp_modem_link.Http.Client.Execute.{
  method_is_repeatable, collect_response, execute_once, repeat_if_lost, execute_attempt, configured,
  execute_url, execute,
}

start_request-refused :
    (env : Surroundings) (request : RequestState) (chunked : Bool) (c : Client)
    → c.upload_active ≡ true
    → start_request env request chunked c ≡ (c, err upload_open_error)
unfolding start_request
start_request-refused env request chunked c active =
    ap
      (λ (b : Bool).
        if b
        then (c, err upload_open_error)
        else then_do (ensure_connected env request.url c)
            (λ u d. send_request env request chunked (clear_exchange d)))
      active

not_repeated :
    (repeatable : Bool) (again : Client → Ran HttpResponse) (c : Client)
    → repeat_if_lost repeatable again (c, err upload_open_error) ≡ (c, err upload_open_error)
unfolding repeat_if_lost
not_repeated true again c = refl
not_repeated false again c = refl

execute_attempt-refused :
    (env : Surroundings) (request : RequestState) (c : Client)
    → c.upload_active ≡ true
    → execute_attempt env request c ≡ (record c { streaming = false }, err upload_open_error)
unfolding execute_attempt execute_once
execute_attempt-refused env request c active =
    let d = record c { streaming = false } in
    let repeatable = method_is_repeatable request.method in
    ap
      (λ (r : Ran (Unit {0})).
        repeat_if_lost repeatable (execute_once env request)
          (then_do r (λ u e. collect_response (wait env e))))
      (start_request-refused env request false d active)
    ∙ not_repeated repeatable (execute_once env request) d

-- `Execute` of a URL that `ParseUrl` accepts, on a client whose chunked body is still being written: it
-- sends nothing, opens nothing and returns the error; it leaves the client as it was except that it no
-- longer counts as streaming.
pub execute-refused :
    (env : Surroundings) (method url : Bytes) (parsed : ParsedUrl) (c : Client)
    → parse_url url ≡ ok parsed
    → c.upload_active ≡ true
    → execute env method url c ≡ some (record c { streaming = false }, err upload_open_error)
unfolding execute execute_url redirect_loop after_attempt
execute-refused env method url parsed c e active =
    let first = configured method parsed c in
    let rest = redirect_loop c.settings.max_redirects (execute_attempt env) 1 in
    ap (λ (p : Result ParsedUrl). execute_url env method p c) e
    ∙ ap (after_attempt rest 0 first) (execute_attempt-refused env first c active)
