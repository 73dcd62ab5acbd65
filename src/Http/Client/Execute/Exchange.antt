-- ===== src/Http/Client/Execute/Exchange.antt =====
-- `Execute` of software_http_client.cpp: that it returns, and what it sends on the way.
use esp_modem_link.Common.{◌*◌, ◌≤◌, Bool, true, false, arith, ◌≡◌, refl, ap, ℕ, ◌⊎◌, inl, inr}
use esp_modem_link.Common.Lists.{Bytes, codes, equal_iff, equal}
use esp_modem_link.Common.Tests.{if◌then◌else◌, if-both, Bool-cases}
use esp_modem_link.Error.{Result, ok, err}
use esp_modem_link.Http.Url.{ParsedUrl, parse_url}
use esp_modem_link.Http.Client.{
  Client, Settings, HttpResponse, RequestState, Ran, Surroundings, no_response, then_do,
}
use esp_modem_link.Http.Client.Arrivals.{wait, is_complete, failed_error}
use esp_modem_link.Http.Client.Connection.{drop_transport}
use esp_modem_link.Http.Client.Start.{start_request, rendered}
use esp_modem_link.Http.Client.Redirects.{redirect_loop, hops}
use esp_modem_link.Http.Client.Redirects.Credentials.{Follows, start, StaysHome, Follows-StaysHome}
use esp_modem_link.Http.Client.Redirects.Loop.{Returns, redirect_loop-Returns}
use esp_modem_link.Http.Client.Requests.{
  Sends, quiet, then_sends, widen, drop_transport-Sends, start_request-Sends, wait-Sends,
  then_do-Sends,
}
use esp_modem_link.Http.Client.Execute.{
  take_response, collect_response, execute_once, is_connection_lost, repeat_if_lost,
  execute_attempt, configured, execute_url, execute, method_is_repeatable, response_lost_error,
  response_timeout_error,
}

module _ {ℓ} (P : Bytes → Type ℓ) where
  take_response-Sends : (c : Client) → Sends P 0 c (take_response c).0
  unfolding take_response
  take_response-Sends c =
      let d = record c { response = no_response } in
      if-both (Sends P 0 c) c.settings.keep_alive d (drop_transport d) (quiet P c d refl refl)
        (then_sends P 0 0 c d (drop_transport d) (quiet P c d refl refl) (drop_transport-Sends P d))

  collect_response-Sends : (c : Client) → Sends P 0 c (collect_response c).0
  unfolding collect_response
  collect_response-Sends c =
      let Q = λ (r : Ran HttpResponse). Sends P 0 c r.0 in
      let lost : Ran HttpResponse = (
        drop_transport c,
        err (if c.is_closed then response_lost_error else response_timeout_error),
      ) in
      if-both Q c.parse_failed (drop_transport c, err (failed_error c))
        (if is_complete c.parser.state then take_response c else lost) (drop_transport-Sends P c)
        (if-both Q (is_complete c.parser.state) (take_response c) lost (take_response-Sends c)
          (drop_transport-Sends P c))

  execute_once-Sends :
      (env : Surroundings) (request : RequestState) (c : Client)
      → P (rendered c.settings request false)
      → Sends P 1 c (execute_once env request c).0
  unfolding execute_once
  execute_once-Sends env request c h =
      let d = record c { streaming = false } in
      let collect : Unit {0} → Client → Ran HttpResponse = λ u e. collect_response (wait env e) in
      let begun = start_request env request false d in
      then_sends P 0 1 c d (then_do begun collect).0 (quiet P c d refl refl) (
        then_do-Sends P 1 0 d begun collect (start_request-Sends P env request false d h)
          (λ u e same.
            then_sends P 0 0 e (wait env e) (collect_response (wait env e)).0 (wait-Sends P env e)
              (collect_response-Sends (wait env e))))

  repeat_if_lost-Sends :
      (repeatable : Bool) (again : Client → Ran HttpResponse) (c : Client) (r : Ran HttpResponse)
      → Sends P 1 c r.0
      → ((d : Client) → d.settings ≡ c.settings → Sends P 1 d (again d).0)
      → Sends P (if repeatable then 2 else 1) c (repeat_if_lost repeatable again r).0
  unfolding repeat_if_lost
  repeat_if_lost-Sends true again c (d, ok response) h k = widen P 1 2 c d (omega arith) h
  repeat_if_lost-Sends false again c (d, ok response) h k = h
  repeat_if_lost-Sends true again c (d, err e) h k =
      if-both (λ (r : Ran HttpResponse). Sends P 2 c r.0) (is_connection_lost e.code) (again d)
        (d, err e) (then_sends P 1 1 c d (again d).0 h (k d h.same))
        (widen P 1 2 c d (omega arith) h)
  repeat_if_lost-Sends false again c (d, err e) h k = h

  pub execute_attempt-Sends :
      (env : Surroundings) (request : RequestState) (c : Client)
      → P (rendered c.settings request false)
      → Sends P
          (if method_is_repeatable request.method then 2 else 1)
          c
          (execute_attempt env request c).0
  unfolding execute_attempt
  execute_attempt-Sends env request c h =
      repeat_if_lost-Sends (method_is_repeatable request.method) (execute_once env request) c
        (execute_once env request c) (execute_once-Sends env request c h)
        (λ d same. execute_once-Sends env request d (rw same h))

-- The text of a request of the chain that `first` starts, which takes no credentials abroad.
abbrev pub OnTheWay : Settings → RequestState → Bytes → Type 0
OnTheWay settings first bytes =
    (request : RequestState) × Follows first request
    × StaysHome first request
    × (bytes ≡ rendered settings request false)

-- What is rendered of the method and the URL that the caller asked for.
abbrev pub Asked : Bytes → Bytes → Client → Bytes → Type 0
Asked method url c bytes =
    (parsed : ParsedUrl) × (parse_url url ≡ ok parsed)
    × OnTheWay c.settings (configured method parsed c) bytes

attempts_at_most : (b : Bool) → (if b then 2 else 1) ≤ 2
attempts_at_most true = omega arith
attempts_at_most false = omega arith

chain-Returns :
    (env : Surroundings) (method url : Bytes) (parsed : ParsedUrl) (c : Client)
    → parse_url url ≡ ok parsed
    → Returns
        (Asked method url c)
        (hops c * 2)
        c
        (redirect_loop (hops c) (execute_attempt env) 0 (configured method parsed c) c)
chain-Returns env method url parsed c e =
    let first = configured method parsed c in
    let P = Asked method url c in
    redirect_loop-Returns P first c.settings 2 (execute_attempt env)
      (λ request f d same.
        widen P (if method_is_repeatable request.method then 2 else 1) 2 d
          (execute_attempt env request d).0 (attempts_at_most (method_is_repeatable request.method))
          (execute_attempt-Sends P env request d (
            parsed,
            e,
            (
              request,
              f,
              Follows-StaysHome first request f,
              ap (λ s. rendered s request false) same,
            ),
          )))
      (hops c) 0 first c (omega arith) (omega arith) start refl

execute_url-Returns :
    (env : Surroundings) (method url : Bytes) (parsed : Result ParsedUrl) (c : Client)
    → parse_url url ≡ parsed
    → Returns (Asked method url c) (hops c * 2) c (execute_url env method parsed c)
unfolding execute_url
execute_url-Returns env method url (err x) c e = (
  c,
  err x,
  refl,
  widen (Asked method url c) 0 (hops c * 2) c c (omega arith)
      (quiet (Asked method url c) c c refl refl),
)
execute_url-Returns env method url (ok parsed) c e = chain-Returns env method url parsed c e

-- `Execute` returns, for every factory, transport and server: it sends two requests at most for each
-- of the allowed redirects and for the first one, all that it sends are requests of the chain, a
-- request to another origin than the first one has no header of credentials, and the settings stay.
pub execute-Returns :
    (env : Surroundings) (method url : Bytes) (c : Client)
    → Returns (Asked method url c) (hops c * 2) c (execute env method url c)
unfolding execute
execute-Returns env method url c = execute_url-Returns env method url (parse_url url) c refl

-- The methods that have no side effect.
abbrev pub Safe : Bytes → Type 0
Safe method = (method ≡ codes "GET") ⊎ ((method ≡ codes "HEAD") ⊎ (method ≡ codes "OPTIONS"))

method_is_repeatable-Safe : (method : Bytes) → Safe method ⊎ (method_is_repeatable method ≡ false)
unfolding method_is_repeatable
method_is_repeatable-Safe method = elim (Bool-cases (equal method (codes "GET"))) [
  | inl get ↦ inl (inl ((equal_iff method (codes "GET")).0 get))
  | inr no_get ↦ elim (Bool-cases (equal method (codes "HEAD"))) [
    | inl head ↦ inl (inr (inl ((equal_iff method (codes "HEAD")).0 head)))
    | inr no_head ↦ elim (Bool-cases (equal method (codes "OPTIONS"))) [
      | inl options ↦ inl (inr (inr ((equal_iff method (codes "OPTIONS")).0 options)))
      | inr no_options ↦ inr (rw (no_get, no_head, no_options) refl)
    ]
  ]
]

-- What one attempt sends is the request as it is rendered, `n` times at most.
abbrev pub SendsIt : ℕ → Surroundings → RequestState → Client → Type 0
SendsIt n env request c =
    Sends (λ bytes. bytes ≡ rendered c.settings request false) n c (execute_attempt env request c).0

-- One attempt sends nothing but the request that it is given, twice at most; and where the method is
-- none of GET, HEAD and OPTIONS, once at most.
pub execute_attempt-at_most :
    (env : Surroundings) (request : RequestState) (c : Client)
    → SendsIt 2 env request c × (Safe request.method ⊎ SendsIt 1 env request c)
execute_attempt-at_most env request c =
    let P : Bytes → Type 0 = λ bytes. bytes ≡ rendered c.settings request false in
    let repeatable = method_is_repeatable request.method in
    let bound : ℕ = if repeatable then 2 else 1 in
    let d = (execute_attempt env request c).0 in
    let h = execute_attempt-Sends P env request c refl in
    (
      widen P bound 2 c d (attempts_at_most repeatable) h,
      elim (method_is_repeatable-Safe request.method) [
        | inl safe ↦ inl safe
        | inr unsafe ↦
            let once : bound ≤ 1 = ground (arith, unsafe) in inr (widen P bound 1 c d once h)
      ],
    )
