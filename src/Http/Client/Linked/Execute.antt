-- ===== src/Http/Client/Linked/Execute.antt =====
-- The flags of the client in software_http_client.cpp, over the redirects and `Execute`.
use esp_modem_link.Common.{ℕ, zero, suc, Bool, false, not, ◌&&◌, ◌||◌, Option, none, some, [], ◌∷◌}
use esp_modem_link.Common.Int.{ℤ}
use esp_modem_link.Common.Lists.{Bytes}
use esp_modem_link.Common.Tests.{◌==◌, leb, if◌then◌else◌, if-both}
use esp_modem_link.Error.{Result, ok, err}
use esp_modem_link.Http.Redirect.{redirect_location, resolve_redirect}
use esp_modem_link.Http.Url.{ParsedUrl, parse_url}
use esp_modem_link.Http.Client.{HttpResponse, no_response, Client, Surroundings, RequestState, Ran}
use esp_modem_link.Http.Client.Arrivals.{is_complete, wait, failed_error}
use esp_modem_link.Http.Client.Connection.{drop_transport}
use esp_modem_link.Http.Client.Start.{start_request}
use esp_modem_link.Http.Client.Redirects.{
  is_redirect, too_many_error, hop_to, hop_location, apply_redirect, Attempt, after_redirect,
  after_attempt, redirect_loop, hops,
}
use esp_modem_link.Http.Client.Execute.{
  method_is_repeatable, response_timeout_error, response_lost_error, take_response,
  collect_response, execute_once, is_connection_lost, repeat_if_lost, execute_attempt, configured,
  execute_url, execute,
}
use esp_modem_link.Http.Client.Linked.{
  Linked, RunLinked, then_do-Linked, drop_transport-Linked, start_request-Linked, wait-Linked,
}

hop_to-Linked :
    (status : ℤ) (request : RequestState) (next : Result ParsedUrl) (c : Client)
    → Linked c
    → Linked (hop_to status request next c).0
unfolding hop_to
hop_to-Linked status request (err e) c h = h
hop_to-Linked status request (ok next) c h =
    if-both Linked c.streaming (drop_transport c) c (drop_transport-Linked c) h

hop_location-Linked :
    (response : HttpResponse) (at : ℕ) (request : RequestState) (location : Bytes) (c : Client)
    → Linked c
    → Linked (hop_location response at request location c).0
unfolding hop_location
hop_location-Linked response at request [] c h = h
hop_location-Linked response at request (b ∷ bs) c h =
    let next = resolve_redirect request.url (b ∷ bs) in
    if-both RunLinked (leb c.settings.max_redirects at)
      (c, err (too_many_error response.status_code c.settings.max_redirects))
      (hop_to response.status_code request next c) h
      (hop_to-Linked response.status_code request next c h)

apply_redirect-Linked :
    (response : HttpResponse) (at : ℕ) (request : RequestState) (c : Client)
    → Linked c
    → Linked (apply_redirect response at request c).0
unfolding apply_redirect
apply_redirect-Linked response at request c h =
    let location = redirect_location response.headers in
    let located = hop_location response at request location c in
    let off = not c.settings.follow_redirects || c.settings.max_redirects == 0 in
    if-both RunLinked (not (is_redirect response.status_code)) (c, ok none)
      (if off then (c, ok none) else located) h
      (if-both RunLinked off (c, ok none) located h
        (hop_location-Linked response at request location c h))

module _ {ℓ} {A : Type ℓ} where
  -- What a call leaves, if it returns.
  abbrev pub LoopLinked : Option (Ran A) → Type 0
  LoopLinked none = Unit
  LoopLinked (some r) = Linked r.0

abbrev Continue : Type 0
Continue = RequestState → Client → Option (Ran HttpResponse)

after_redirect-Linked :
    (continue : Continue) (response : HttpResponse) (r : Ran (Option RequestState))
    → ((request : RequestState) (c : Client) → Linked c → LoopLinked (continue request c))
    → Linked r.0
    → LoopLinked (after_redirect continue response r)
unfolding after_redirect
after_redirect-Linked continue response (c, err e) k h = h
after_redirect-Linked continue response (c, ok none) k h = h
after_redirect-Linked continue response (c, ok (some next)) k h = k next c h

after_attempt-Linked :
    (continue : Continue) (at : ℕ) (request : RequestState) (r : Ran HttpResponse)
    → ((next : RequestState) (c : Client) → Linked c → LoopLinked (continue next c))
    → Linked r.0
    → LoopLinked (after_attempt continue at request r)
unfolding after_attempt
after_attempt-Linked continue at request (c, err e) k h = h
after_attempt-Linked continue at request (c, ok response) k h =
    after_redirect-Linked continue response (apply_redirect response at request c) k
      (apply_redirect-Linked response at request c h)

pub redirect_loop-Linked :
    (fuel at : ℕ) (attempt : Attempt) (request : RequestState) (c : Client)
    → ((r : RequestState) (d : Client) → Linked d → Linked (attempt r d).0)
    → Linked c
    → LoopLinked (redirect_loop fuel attempt at request c)
unfolding redirect_loop
redirect_loop-Linked zero at attempt request c k h = tt
redirect_loop-Linked (suc fuel) at attempt request c k h =
    after_attempt-Linked (redirect_loop fuel attempt (suc at)) at request (attempt request c)
      (λ r d. redirect_loop-Linked fuel (suc at) attempt r d k) (k request c h)

take_response-Linked : (c : Client) → Linked c → Linked (take_response c).0
unfolding take_response
take_response-Linked c h =
    let d = record c { response = no_response } in
    if-both Linked c.settings.keep_alive d (drop_transport d) h (drop_transport-Linked d)

collect_response-Linked : (c : Client) → Linked c → Linked (collect_response c).0
unfolding collect_response
collect_response-Linked c h =
    let lost : Ran HttpResponse = (
      drop_transport c,
      err (if c.is_closed then response_lost_error else response_timeout_error),
    ) in
    if-both RunLinked c.parse_failed (drop_transport c, err (failed_error c))
      (if is_complete c.parser.state then take_response c else lost) (drop_transport-Linked c)
      (if-both RunLinked (is_complete c.parser.state) (take_response c) lost
        (take_response-Linked c h) (drop_transport-Linked c))

execute_once-Linked :
    (env : Surroundings) (request : RequestState) (c : Client)
    → Linked c
    → Linked (execute_once env request c).0
unfolding execute_once
execute_once-Linked env request c h =
    let d = record c { streaming = false } in
    then_do-Linked (start_request env request false d) (λ u e. collect_response (wait env e))
      (start_request-Linked env request false d h)
      (λ u e k. collect_response-Linked (wait env e) (wait-Linked env e k))

repeat_if_lost-Linked :
    (repeatable : Bool) (again : Client → Ran HttpResponse) (r : Ran HttpResponse)
    → ((d : Client) → Linked d → Linked (again d).0)
    → Linked r.0
    → Linked (repeat_if_lost repeatable again r).0
unfolding repeat_if_lost
repeat_if_lost-Linked repeatable again (c, ok response) k h = h
repeat_if_lost-Linked repeatable again (c, err e) k h =
    if-both RunLinked (repeatable && is_connection_lost e.code) (again c) (c, err e) (k c h) h

execute_attempt-Linked :
    (env : Surroundings) (request : RequestState) (c : Client)
    → Linked c
    → Linked (execute_attempt env request c).0
unfolding execute_attempt
execute_attempt-Linked env request c h =
    repeat_if_lost-Linked (method_is_repeatable request.method) (execute_once env request)
      (execute_once env request c) (execute_once-Linked env request)
      (execute_once-Linked env request c h)

execute_url-Linked :
    (env : Surroundings) (method : Bytes) (url : Result ParsedUrl) (c : Client)
    → Linked c
    → LoopLinked (execute_url env method url c)
unfolding execute_url
execute_url-Linked env method (err e) c h = h
execute_url-Linked env method (ok url) c h =
    redirect_loop-Linked (hops c) 0 (execute_attempt env) (configured method url c) c
      (execute_attempt-Linked env) h

pub execute-Linked :
    (env : Surroundings) (method url : Bytes) (c : Client)
    → Linked c
    → LoopLinked (execute env method url c)
unfolding execute
execute-Linked env method url c h = execute_url-Linked env method (parse_url url) c h
