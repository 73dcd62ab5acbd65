-- ===== src/Http/Client/Arrivals.antt =====
-- The callbacks of the transport in software_http_client.cpp, and the waits of its calls.
pub mod Receives
pub mod Twins
use esp_modem_link.Common.{ℕ, suc, Bool, true, false, Option, none, some, List, [], ◌∷◌, ◌++◌}
use esp_modem_link.Common.Lists.{Bytes}
use esp_modem_link.Common.Tests.{if◌then◌else◌}
use esp_modem_link.Error.{NetworkError, NetworkErrc, Result, ok, err, network_error}
use esp_modem_link.Http.Parser.{State, Step, complete}
use esp_modem_link.Http.Parser.Feed.{feed, finish}
use esp_modem_link.Http.Client.{Client, Surroundings, Arrival, data', closed, failed}

pub handle_body : Bytes → Client → Client
handle_body piece c =
    if c.streaming
    then record c { pending = c.pending ++ piece }
    else record c { response = record c.response { body = c.response.body ++ piece } }

-- The body callback is given the pieces of one call of `Feed` in order.
pub handle_pieces : List Bytes → Client → Client
handle_pieces [] c = c
handle_pieces (piece ∷ pieces) c = handle_pieces pieces (handle_body piece c)

-- An error of the parser is kept for the call that waits.
note_error : Result ℕ → Client → Client
note_error (ok consumed) c = c
note_error (err e) c = record c { parse_failed = true; parse_error = some e }

-- `none` would be a call of `Feed` that does not return; there is none by `feed_total`.
fed : Option Step → Client → Client
unfolding note_error
fed none c = c
fed (some (p, result)) c =
    note_error result (handle_pieces p.emitted (record c { parser = record p { emitted = [] } }))

abbrev pub is_complete : State → Bool
is_complete complete = true
is_complete _ = false

pub on_transport_data : ℕ → Bytes → Client → Client
unfolding fed
on_transport_data size_mod bytes c =
    if is_complete c.parser.state then c else fed (feed size_mod c.parser bytes) c

pub on_transport_closed : Client → Client
on_transport_closed c = record c { is_closed = true; parser = finish c.parser }

pub on_transport_error : NetworkError → Client → Client
on_transport_error e c = record c { parse_failed = true; parse_error = some e }

pub arrive : ℕ → Arrival → Client → Client
arrive size_mod (data' bytes) c = on_transport_data size_mod bytes c
arrive size_mod closed c = on_transport_closed c
arrive size_mod (failed e) c = on_transport_error e c

pub arrive_all : ℕ → List Arrival → Client → Client
arrive_all size_mod [] c = c
arrive_all size_mod (a ∷ rest) c = arrive_all size_mod rest (arrive size_mod a c)

-- `cv_.wait_for`: what comes in until the call goes on.
pub wait : Surroundings → Client → Client
wait env c = arrive_all env.size_mod (env.arrivals c.waits) (record c { waits = suc c.waits })

abbrev error_or : Option NetworkError → NetworkError → NetworkError
error_or (some e) d = e
error_or none d = d

pub failed_error : Client → NetworkError
failed_error c =
    error_or c.parse_error (network_error NetworkErrc.protocol_error "HTTP request failed")
