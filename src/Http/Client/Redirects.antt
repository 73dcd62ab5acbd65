-- ===== src/Http/Client/Redirects.antt =====
-- `ApplyRedirect` of software_http_client.cpp, and the loop over the hops of `Execute` and `Open`.
pub mod Credentials
pub mod Loop
use esp_modem_link.Common.{
  ℕ, zero, suc, Bool, false, not, ◌&&◌, ◌||◌, Option, none, some, [], ◌∷◌, ◌++◌,
}
use esp_modem_link.Common.Decimal.{to_decimal}
use esp_modem_link.Common.Int.{ℤ, pos, negsuc}
use esp_modem_link.Common.Lists.{Bytes, codes, equal}
use esp_modem_link.Common.Tests.{leb, ◌==◌, if◌then◌else◌}
use esp_modem_link.Error.{NetworkError, NetworkErrc, Result, ok, err}
use esp_modem_link.Http.Headers.{Headers}
use esp_modem_link.Http.Redirect.{
  is_redirect_status, redirect_location, resolve_redirect, same_origin, is_credential_header,
}
use esp_modem_link.Http.Url.{ParsedUrl}
use esp_modem_link.Http.Client.{Client, HttpResponse, RequestState, Ran}
use esp_modem_link.Http.Client.Connection.{drop_transport}

abbrev pub is_redirect : ℤ → Bool
is_redirect (pos status) = is_redirect_status status
is_redirect (negsuc n) = false

-- `request.headers.erase(std::remove_if(…))`
pub without_credentials : Headers → Headers
without_credentials [] = []
without_credentials ((name, value) ∷ rest) =
    let others = without_credentials rest in
    if is_credential_header name then others else (name, value) ∷ others

-- Whether the hop is taken with a plain GET.
abbrev pub becomes_get : ℤ → Bytes → Bool
becomes_get (pos status) method =
    status == 303
    || (status == 301 || status == 302)
      && (not (equal method (codes "GET")) && not (equal method (codes "HEAD")))
becomes_get (negsuc n) method = false

-- The request of the next hop.
pub redirected_request : ℤ → ParsedUrl → RequestState → RequestState
redirected_request status next request =
    let get = becomes_get status request.method in
    record {
      method = if get then codes "GET" else request.method;
      url = next;
      body = if get then [] else request.body;
      headers =
          if same_origin request.url next
          then request.headers
          else without_credentials request.headers;
    }

abbrev pub too_many_error : ℤ → ℕ → NetworkError
too_many_error status max = record {
  code = NetworkErrc.protocol_error;
  native = status;
  context = codes "the request was redirected more than " ++ (to_decimal max ++ codes " times");
}

-- Behind `ResolveRedirect`. A streaming caller gives its connection up.
unfoldable pub hop_to : ℤ → RequestState → Result ParsedUrl → Client → Ran (Option RequestState)
hop_to status request (err e) c = (c, err e)
hop_to status request (ok next) c = (
  if c.streaming then drop_transport c else c,
  ok (some (redirected_request status next request)),
)

-- A response that names where to go.
unfoldable pub hop_location :
    HttpResponse → ℕ → RequestState → Bytes → Client → Ran (Option RequestState)
unfolding hop_to
hop_location response hop request [] c = (c, ok none)
hop_location response hop request (b ∷ bs) c =
    if leb c.settings.max_redirects hop
    then (c, err (too_many_error response.status_code c.settings.max_redirects))
    else hop_to response.status_code request (resolve_redirect request.url (b ∷ bs)) c

-- `none` where the response is the answer, and otherwise the request of the next hop.
unfoldable pub apply_redirect : HttpResponse → ℕ → RequestState → Client → Ran (Option RequestState)
unfolding hop_location
apply_redirect response hop request c =
    if not (is_redirect response.status_code)
    then (c, ok none)
    else if not c.settings.follow_redirects || c.settings.max_redirects == 0
    then (c, ok none)
    else hop_location response hop request (redirect_location response.headers) c

-- One request of a chain: `ExecuteAttempt`, or the start of a streamed request.
abbrev pub Attempt : Type 0
Attempt = RequestState → Client → Ran HttpResponse

-- Behind `ApplyRedirect`, with the rest of the loop.
unfoldable pub after_redirect :
    (RequestState → Client → Option (Ran HttpResponse))
    → HttpResponse
    → Ran (Option RequestState)
    → Option (Ran HttpResponse)
after_redirect continue response (c, err e) = some (c, err e)
after_redirect continue response (c, ok none) = some (c, ok response)
after_redirect continue response (c, ok (some next)) = continue next c

-- Behind the request of one hop.
unfoldable pub after_attempt :
    (RequestState → Client → Option (Ran HttpResponse))
    → ℕ
    → RequestState
    → Ran HttpResponse
    → Option (Ran HttpResponse)
unfolding after_redirect
after_attempt continue hop request (c, err e) = some (c, err e)
after_attempt continue hop request (c, ok response) =
    after_redirect continue response (apply_redirect response hop request c)

-- `for (int hop = 0;; ++hop)`. `none` means that the fuel ran out.
unfoldable pub redirect_loop : ℕ → Attempt → ℕ → RequestState → Client → Option (Ran HttpResponse)
unfolding after_attempt
redirect_loop zero attempt hop request c = none
redirect_loop (suc fuel) attempt hop request c =
    after_attempt (redirect_loop fuel attempt (suc hop)) hop request (attempt request c)

-- One request and a redirect for each hop that the limit allows.
abbrev pub hops : Client → ℕ
hops c = suc c.settings.max_redirects
