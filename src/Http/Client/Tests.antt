-- ===== src/Http/Client/Tests.antt =====
-- The theorems on the client at concrete inputs, and runs.
use esp_modem_link.Common.{
  ℕ, suc, ◌*◌, ◌^◌, true, false, some, List, [], ◌∷◌, arith, ◌≡◌, refl, ◌⊎◌,
}
use esp_modem_link.Common.Int.{pos}
use esp_modem_link.Common.Lists.{Bytes, codes, length}
use esp_modem_link.AtParser.{to_hex_string}
use esp_modem_link.Error.{ok, err}
use esp_modem_link.Http.Parser.Feed.{chunk_digits}
use esp_modem_link.Http.Url.{ParsedUrl, url_text}
use esp_modem_link.Http.Url.RoundTrip.{IsUrl, parse_url-url_text}
use esp_modem_link.Http.Client.{
  Arrival, data', closed, Client, new_client, Surroundings, RequestState,
}
use esp_modem_link.Http.Client.Arrivals.{arrive_all, wait}
use esp_modem_link.Http.Client.Arrivals.Twins.{streams, buffers, arrive_all-streams}
use esp_modem_link.Http.Client.Start.{upload_open_error}
use esp_modem_link.Http.Client.Redirects.{hops}
use esp_modem_link.Http.Client.Redirects.Loop.{Returns}
use esp_modem_link.Http.Client.Execute.{execute}
use esp_modem_link.Http.Client.Execute.Exchange.{
  Asked, execute-Returns, execute_attempt-at_most, SendsIt, Safe,
}
use esp_modem_link.Http.Client.Execute.Refused.{execute-refused}
use esp_modem_link.Http.Client.Stream.{read}
use esp_modem_link.Http.Client.Stream.Delivered.{Read, read-Read}
use esp_modem_link.Http.Client.Upload.{terminator, write, end_body}
use esp_modem_link.Http.Client.Upload.Once.{end_body-once}
use esp_modem_link.Http.Client.Upload.Wire.{IsChunk, upload-Sends}
use esp_modem_link.Http.Client.Upload.Size.{chunk_digits-to_hex_string}
use esp_modem_link.Http.Client.Linked.{Linked}
use esp_modem_link.Http.Client.Linked.Upload.{at_rest, writes, ends_body, Operations-Linked}
use esp_modem_link.Http.Client.Requests.{Sends}

-- A server that moves the first request away and answers the second one.
abbrev moved : Bytes
moved = codes "HTTP/1.1 302 Found\r\nLocation: http://b/y\r\nContent-Length: 0\r\n\r\n"

abbrev answer : Bytes
answer = codes "HTTP/1.1 200 OK\r\nContent-Length: 2\r\n\r\nhi"

abbrev arrivals : ℕ → List Arrival
arrivals ℕ.zero = data' moved ∷ []
arrivals (suc n) = data' answer ∷ []

abbrev world : Surroundings
world = record {
  size_mod = 2 ^ 32;
  create = λ log tls config. ok tt;
  connect = λ log host port. ok tt;
  send = λ log bytes. ok (pos (length bytes));
  arrivals = arrivals;
}

execute-Returns_example :
    Returns
      (Asked (codes "GET") (codes "http://a/x") new_client)
      (hops new_client * 2)
      new_client
      (execute world (codes "GET") (codes "http://a/x") new_client)
execute-Returns_example = execute-Returns world (codes "GET") (codes "http://a/x") new_client

abbrev place : ParsedUrl
place = record { tls = false; host = codes "a"; port = 80; path = codes "/x" }

abbrev post : RequestState
post = record { method = codes "POST"; url = place; body = codes "z"; headers = [] }

execute_attempt-at_most_example :
    SendsIt 2 world post new_client × (Safe post.method ⊎ SendsIt 1 world post new_client)
execute_attempt-at_most_example = execute_attempt-at_most world post new_client

-- A client in the middle of an upload.
abbrev uploading : Client
uploading = record new_client {
  transport = true;
  connected = true;
  upload_chunked = true;
  upload_active = true;
  streaming = true;
}

uploading-Linked : Linked uploading
uploading-Linked = (λ e. refl, λ e. (refl, refl))

Operations-Linked_example :
    Linked (end_body world (write world (some (codes "ab")) 2 uploading).0).0
Operations-Linked_example =
    Operations-Linked world uploading
      (end_body world (write world (some (codes "ab")) 2 uploading).0).0
      (ends_body (writes at_rest (some (codes "ab")) 2)) uploading-Linked

end_body-once_example :
    let d = (end_body world uploading).0 in
    ((end_body world d).0 ≡ d) × ((write world (some (codes "ab")) 2 d).0 ≡ d)
end_body-once_example = end_body-once world world (some (codes "ab")) 2 uploading uploading-Linked

upload-Sends_example :
    Sends IsChunk 1 uploading (write world (some (codes "ab")) 2 uploading).0
    × Sends (λ bytes. bytes ≡ terminator) 1 uploading (end_body world uploading).0
upload-Sends_example = upload-Sends world (some (codes "ab")) 2 uploading

chunk_digits-to_hex_string_example : chunk_digits (2 ^ 32) 0 (to_hex_string 4660) ≡ some 4660
chunk_digits-to_hex_string_example =
    chunk_digits-to_hex_string (2 ^ 32) 4660 (omega arith) (omega arith)

-- Four bytes are pending, of which three are read.
abbrev reading : Client
reading = record uploading { pending = codes "abcd"; upload_active = false }

read-Read_example : Read 3 (wait world reading) (read world 3 reading)
read-Read_example = read-Read world 3 reading

place-IsUrl : IsUrl place
place-IsUrl = record {
  host_bytes = ((refl, (λ e. omega arith), (λ e. omega arith)), tt);
  some_host = λ e. cc;
  port_positive = omega arith;
  port_small = omega arith;
  rest = codes "x";
  absolute = refl;
}

execute-refused_example :
    execute world (codes "GET") (url_text place) uploading
    ≡ some (record uploading { streaming = false }, err upload_open_error)
execute-refused_example =
    execute-refused world (codes "GET") (url_text place) place uploading
      (parse_url-url_text place place-IsUrl) refl

abbrev pieces : List Arrival
pieces = data' (codes "HTTP/1.1 200 OK\r\n\r\nab") ∷ data' (codes "c") ∷ closed ∷ []

arrive_all-streams_example :
    let s = arrive_all (2 ^ 32) pieces (streams [] new_client) in
    let b = arrive_all (2 ^ 32) pieces (buffers [] new_client) in
    (s.pending ≡ b.response.body)
    × (s.parser ≡ b.parser)
    × (s.parse_failed ≡ b.parse_failed)
    × (s.parse_error ≡ b.parse_error)
    × (s.is_closed ≡ b.is_closed)
arrive_all-streams_example = arrive_all-streams (2 ^ 32) pieces [] new_client
