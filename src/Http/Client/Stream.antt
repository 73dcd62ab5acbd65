-- ===== src/Http/Client/Stream.antt =====
-- `Open`, `AwaitHeaders`, `Read`, `Close` and the accessors of software_http_client.cpp.
pub mod Delivered
use esp_modem_link.Common.{ℕ, Bool, true, false, not, ◌||◌, Option, none, some, [], ◌∷◌}
use esp_modem_link.Common.Int.{ℤ}
use esp_modem_link.Common.Lists.{Bytes, codes, take, drop, equal}
use esp_modem_link.Common.Search.{to_lower}
use esp_modem_link.Common.Tests.{if◌then◌else◌}
use esp_modem_link.Error.{NetworkError, NetworkErrc, Result, ok, err, network_error}
use esp_modem_link.Http.Headers.{Headers}
use esp_modem_link.Http.Parser.{State, status_line, headers, error}
use esp_modem_link.Http.Parser.Feed.{get_header}
use esp_modem_link.Http.Url.{ParsedUrl, parse_url}
use esp_modem_link.Http.Client.{Client, HttpResponse, RequestState, Ran, Surroundings, then_do}
use esp_modem_link.Http.Client.Connection.{drop_transport}
use esp_modem_link.Http.Client.Arrivals.{wait, is_complete, failed_error}
use esp_modem_link.Http.Client.Start.{start_request}
use esp_modem_link.Http.Client.Redirects.{redirect_loop, hops}
use esp_modem_link.Http.Client.Execute.{configured}

abbrev pub before_body : State → Bool
before_body status_line = true
before_body headers = true
before_body _ = false

abbrev pub is_status_line : State → Bool
is_status_line status_line = true
is_status_line _ = false

abbrev pub is_error : State → Bool
is_error error = true
is_error _ = false

abbrev pub head_lost_error : NetworkError
head_lost_error =
    network_error NetworkErrc.connection_lost
      "connection closed before the HTTP response headers arrived"

abbrev pub head_timeout_error : NetworkError
head_timeout_error =
    network_error NetworkErrc.timeout "timed out waiting for the HTTP response headers"

-- Behind the wait for the head.
pub read_head : Client → Result HttpResponse
read_head c =
    if c.parse_failed
    then err (failed_error c)
    else if is_error c.parser.state
    then err (network_error NetworkErrc.protocol_error "malformed HTTP response")
    else if before_body c.parser.state
    then err (if c.is_closed then head_lost_error else head_timeout_error)
    else ok (record { status_code = c.parser.status_code; headers = c.parser.headers; body = [] })

unfoldable pub await_headers : Surroundings → Client → Ran HttpResponse
await_headers env c = let d = wait env c in (d, read_head d)

-- One request of the loop of `Open`.
unfoldable pub open_attempt : Surroundings → RequestState → Client → Ran HttpResponse
open_attempt env request c =
    then_do (start_request env request false c) (λ u d. await_headers env d)

abbrev pub has_expect : Headers → Bool
has_expect [] = false
has_expect ((key, value) ∷ rest) = equal (to_lower key) (codes "expect") || has_expect rest

abbrev pub arm_upload : Client → Client
arm_upload c = record c { upload_chunked = true; upload_active = true }

abbrev pub measured_body_error : NetworkError
measured_body_error =
    network_error NetworkErrc.invalid_argument
      "a body was set with SetBody() and chunked upload is on; a chunked body is written with Write(), not set in advance. SetBody(\"\") clears the one that is held"

abbrev pub expect_error : NetworkError
expect_error =
    network_error NetworkErrc.invalid_argument
      "Expect: 100-continue cannot be used with a chunked upload; the interim response is not handled"

unfoldable pub begin_chunked_upload : Surroundings → RequestState → Client → Ran (Unit {0})
begin_chunked_upload env request c =
    if not (equal request.body [])
    then (c, err measured_body_error)
    else if has_expect request.headers
    then (c, err expect_error)
    else then_do (start_request env request true c) (λ u d. (arm_upload d, ok tt))

-- An upload that was not begun is not streamed.
unfoldable pub begun : Ran (Unit {0}) → Ran (Unit {0})
begun (c, ok u) = (c, ok tt)
begun (c, err e) = (record c { streaming = false }, err e)

-- The head of the answer stays in the parser.
unfoldable pub opened : Option (Ran HttpResponse) → Option (Ran (Unit {0}))
opened none = none
opened (some (c, err e)) = some (c, err e)
opened (some (c, ok head)) = some (c, ok tt)

unfoldable pub open_url : Surroundings → Bytes → Result ParsedUrl → Client → Option (Ran (Unit {0}))
unfolding begun opened
open_url env method (err e) c = some (c, err e)
open_url env method (ok url) c =
    let request = configured method url c in
    let d = record c { streaming = true } in
    if c.settings.chunked_upload
    then some (begun (begin_chunked_upload env request d))
    else opened (redirect_loop (hops d) (open_attempt env) 0 request d)

-- `none` would be a chain of redirects that does not end.
unfoldable pub open_stream : Surroundings → Bytes → Bytes → Client → Option (Ran (Unit {0}))
unfolding open_url
open_stream env method url c = open_url env method (parse_url url) c

abbrev pub body_lost_error : NetworkError
body_lost_error =
    network_error NetworkErrc.connection_lost "connection closed before the response was complete"

-- Why there is nothing to read: no bytes and no error is the end of the body.
pub nothing_pending : Client → Result Bytes
nothing_pending c =
    if c.parse_failed
    then err (failed_error c)
    else if is_complete c.parser.state
    then ok []
    else if c.is_closed
    then err body_lost_error
    else err (network_error NetworkErrc.timeout "timed out reading HTTP body")

unfoldable pub take_pending : ℕ → Bytes → Client → Ran Bytes
take_pending size [] c = (c, nothing_pending c)
take_pending size (b ∷ bs) c = (record c { pending = drop size (b ∷ bs) }, ok (take size (b ∷ bs)))

-- The bytes that are put in the buffer; their number is what `Read` returns.
unfoldable pub read : Surroundings → ℕ → Client → Ran Bytes
unfolding take_pending
read env size c = let d = wait env c in take_pending size d.pending d

unfoldable pub close : Client → Client
close c = record (drop_transport c) { pending = []; streaming = false }

pub get_status_code : Client → Result ℤ
get_status_code c =
    if is_status_line c.parser.state
    then err (network_error NetworkErrc.not_connected "no response started")
    else ok c.parser.status_code

pub get_response_header : Bytes → Client → Bytes
get_response_header key c = get_header key c.parser

pub get_content_length : Client → ℕ
get_content_length c = c.parser.content_length

pub is_chunked : Client → Bool
is_chunked c = c.parser.chunked
