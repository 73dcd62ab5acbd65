-- ===== src/Http/Parser/Feed/Tests.antt =====
-- Runs of the response parser, and each theorem at a concrete input.
use esp_modem_link.Common.{arith, true, false, some, List, [], ◌∷◌, ◌≡◌, refl}
use esp_modem_link.Common.Int.{pos}
use esp_modem_link.Common.Lists.{Bytes, codes}
use esp_modem_link.Error.{ok}
use esp_modem_link.Http.Parser.Feed.Body.{feed-body, Handed}
use esp_modem_link.Http.Parser.{State, HttpParser, initial, take_line, complete}
use esp_modem_link.Common.Search.{
  index_of, index_of_crlf, trim_with, drop_while, drop_while_back, to_lower,
}
use esp_modem_link.AtParser.{parse_int, decimal, digits_value, in_range}
use esp_modem_link.Http.Parser.{
  feed_status_line, feed_headers, status_line_read, header_read, status_fields, version_fields,
  status_rest, header_at, header_fields, set_header, end_of_headers,
}
use esp_modem_link.Http.Parser.Feed.{
  feed, feed_loop, feed_state, emit_body, feed_body, after_step, bank,
}
use esp_modem_link.Http.Parser.Feed.Length.{feed_all, received, complete-length}

-- A response in two pieces, the second with a byte of the next response.
abbrev pieces : List Bytes
pieces = codes "HTTP/1.1 200 OK\r\nContent-Length: 2\r\n\r\n" ∷ codes "hi!" ∷ []

abbrev whole : HttpParser
whole = record {
  state = complete;
  buffer = [];
  http_major = pos 1;
  http_minor = pos 1;
  status_code = pos 200;
  reason = codes "OK";
  headers = (codes "content-length", codes "2") ∷ [];
  body = codes "hi";
  on_body = false;
  emitted = [];
  content_length = 2;
  has_content_length = true;
  chunked = false;
  body_remaining = 0;
  chunk_remaining = 0;
}

run : feed_all 65536 (initial false) pieces ≡ some whole
unfolding feed_all feed feed_loop feed_state feed_status_line take_line index_of_crlf index_of
    feed_headers emit_body feed_body after_step status_line_read header_read bank status_fields
    version_fields status_rest trim_with drop_while drop_while_back parse_int decimal digits_value
    in_range header_at header_fields set_header to_lower end_of_headers
run = refl

complete-length_example : received whole ≡ 2
complete-length_example = complete-length 65536 false pieces whole run refl refl refl

-- A parser that waits for two bytes of a body.
abbrev midway : HttpParser
midway = record whole { state = State.body; body = []; body_remaining = 2 }

feed-body_example :
    (q : HttpParser) × (feed 65536 midway (codes "hi!") ≡ some (q, ok 2))
    × Handed (codes "hi") midway q
    × (q.body_remaining ≡ 0)
    × (q.state ≡ complete)
    × (q.buffer ≡ [])
feed-body_example =
    feed-body 65536 midway (codes "hi!") (omega arith)
      (record { in_body = refl; no_buffer = refl; counted = refl; more = omega arith })
