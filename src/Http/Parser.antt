-- ===== src/Http/Parser.antt =====
-- src/protocol/http/http_parser.h and http_parser.cpp: the incremental response parser. A member
-- function returns the parser beside its result. `std::map` is an association list; the bytes that
-- the body callback is given are kept in `emitted`. `size_mod` is 2 ^ w for the width w of the
-- platform's `size_t`, whose conversions and products wrap.
pub mod Feed
use esp_modem_link.Common.{
  ℕ, zero, suc, ◌+◌, ◌-◌, ◌*◌, ◌%◌, ◌<◌, min, Bool, true, false, not, ◌&&◌, ◌||◌, Option, none,
  some, List, [], ◌∷◌, ◌++◌,
}
use esp_modem_link.Common.Int.{ℤ, pos, negsuc}
use esp_modem_link.Common.Lists.{Bytes, codes, length, take, drop, equal, starts_with}
use esp_modem_link.Common.Search.{index_of, index_of_crlf, trim_with, is_blank, to_lower}
use esp_modem_link.Common.Tests.{ltb, ◌==◌, if◌then◌else◌}
use esp_modem_link.AtParser.{parse_int, hex_char_to_nibble}
use esp_modem_link.Error.{NetworkErrc, Result, ok, err, network_error}
use Prim.Native.String.{String}

pub data State : Type 0 where
  status_line headers body chunk_size chunk_data : State
  chunk_data_end chunk_trailer complete error : State

pub record HttpParser : Type 0 where
  pub state : State
  pub buffer : Bytes
  pub http_major : ℤ
  pub http_minor : ℤ
  pub status_code : ℤ
  pub reason : Bytes
  pub headers : List (Bytes × Bytes)
  pub body : Bytes
  pub on_body : Bool
  pub emitted : List Bytes
  pub content_length : ℕ
  pub has_content_length : Bool
  pub chunked : Bool
  pub body_remaining : ℕ
  pub chunk_remaining : ℕ

-- `Reset` keeps the callback.
pub reset : HttpParser → HttpParser
reset p = record p {
  state = status_line;
  buffer = [];
  http_major = pos 0;
  http_minor = pos 0;
  status_code = pos 0;
  reason = [];
  headers = [];
  body = [];
  content_length = 0;
  has_content_length = false;
  chunked = false;
  body_remaining = 0;
  chunk_remaining = 0;
}

-- A parser as it is made, before or after a callback is set.
abbrev pub initial : Bool → HttpParser
initial on_body = record {
  state = status_line;
  buffer = [];
  http_major = pos 0;
  http_minor = pos 0;
  status_code = pos 0;
  reason = [];
  headers = [];
  body = [];
  on_body = on_body;
  emitted = [];
  content_length = 0;
  has_content_length = false;
  chunked = false;
  body_remaining = 0;
  chunk_remaining = 0;
}

abbrev pub trim : Bytes → Bytes
trim s = trim_with is_blank s

-- What a state makes of the bytes at hand: the parser, and the bytes consumed or an error.
abbrev pub Step : Type 0
Step = HttpParser × Result ℕ

abbrev pub fails : HttpParser → String → Step
fails p s = (p, err (network_error NetworkErrc.protocol_error s))

-- Up to a bare line feed, when there is no CRLF.
line_to_lf : Bytes → Option ℕ → Option (Bytes × ℕ)
line_to_lf data' none = none
line_to_lf data' (some i) = some (take i data', i + 1)

line_to_crlf : Bytes → Option ℕ → Option (Bytes × ℕ)
line_to_crlf data' none = line_to_lf data' (index_of b'\n' data')
line_to_crlf data' (some i) = some (take i data', i + 2)

-- A line, and the bytes that it takes with its end.
pub take_line : Bytes → Option (Bytes × ℕ)
unfolding line_to_lf line_to_crlf
take_line data' = line_to_crlf data' (index_of_crlf data')

-- A state that works line by line waits for a whole line.
abbrev pub on_line : HttpParser → (Bytes → ℕ → Step) → Option (Bytes × ℕ) → Step
on_line p handle none = (p, ok 0)
on_line p handle (some (line, consumed)) = handle line consumed

abbrev pub by_line : HttpParser → (Bytes → ℕ → Step) → Bytes → Step
by_line p handle data' = on_line p handle (take_line data')

-- The status code and the reason phrase, from the text behind the version.
status_fields : HttpParser → Bytes → ℕ → Step
status_fields p remainder consumed =
    let code_end = index_of b' ' remainder in
    let code_field : Bytes = elim code_end [ none ↦ remainder | some i ↦ take i remainder ] in
    elim (parse_int code_field) [
      | none ↦ fails p "malformed HTTP status code"
      | some code ↦ (
        record p {
          status_code = code;
          reason = elim code_end [ none ↦ [] | some i ↦ trim (drop (i + 1) remainder) ];
          state = headers;
        },
        ok consumed,
      )
    ]

-- The two numbers of the version, and then the rest of the line.
version_fields : HttpParser → Option ℤ → Option ℤ → Bytes → ℕ → Step
version_fields p (some major) (some minor) remainder consumed =
    status_fields (record p { http_major = major; http_minor = minor }) remainder consumed
version_fields p _ _ remainder consumed = fails p "malformed HTTP version"

-- The line behind `HTTP/`, with the place of its first blank.
status_rest : HttpParser → Bytes → Option ℕ → ℕ → Step
status_rest p rest none consumed = fails p "HTTP status line has no status code"
status_rest p rest (some space) consumed =
    let version = take space rest in
    elim (index_of b'.' version) [
      | none ↦ fails p "malformed HTTP version"
      | some dot ↦
          version_fields p (parse_int (take dot version)) (parse_int (drop (dot + 1) version))
            (trim (drop (space + 1) rest)) consumed
    ]

pub status_line_read : HttpParser → Bytes → ℕ → Step
unfolding status_rest version_fields status_fields
status_line_read p line consumed =
    if not (starts_with line (codes "HTTP/"))
    then fails p "malformed HTTP status line"
    else status_rest p (drop 5 line) (index_of b' ' (drop 5 line)) consumed

pub feed_status_line : HttpParser → Bytes → Step
feed_status_line p = by_line p (status_line_read p)

-- The blank line that ends the header block decides how the body is framed.
pub end_of_headers : HttpParser → HttpParser
end_of_headers p =
    if p.chunked
    then record p { state = chunk_size }
    else if p.has_content_length
    then (if p.content_length == 0
        then record p { body_remaining = p.content_length; state = complete }
        else record p { body_remaining = p.content_length; state = body })
    else record p { state = body; body_remaining = 0 }

-- `static_cast<size_t>(int)`
abbrev pub to_size : ℕ → ℤ → ℕ
to_size size_mod (pos n) = n % size_mod
to_size size_mod (negsuc n) = (size_mod - suc n % size_mod) % size_mod

-- `headers_[name] = value`
unfoldable pub set_header : Bytes → Bytes → List (Bytes × Bytes) → List (Bytes × Bytes)
set_header name value [] = (name, value) ∷ []
set_header name value ((n, v) ∷ hs) =
    let rest = set_header name value hs in if equal n name then (n, value) ∷ hs else (n, v) ∷ rest

abbrev store_header : Bytes → Bytes → HttpParser → HttpParser
store_header name value p = record p { headers = set_header name value p.headers }

-- `s.find("chunked") != npos`
abbrev contains : Bytes → Bytes → Bool
contains [] part = starts_with [] part
contains (x ∷ xs) part = starts_with (x ∷ xs) part || contains xs part

-- A header line with its name in lower case.
header_fields : ℕ → HttpParser → Bytes → Bytes → ℕ → Step
header_fields size_mod p name value consumed =
    if equal name []
    then fails p "empty HTTP header name"
    else if equal name (codes "content-length")
    then elim (parse_int value) [
      | none ↦ fails p "malformed Content-Length"
      | some len ↦ (
        store_header name value
            (record p { content_length = to_size size_mod len; has_content_length = true }),
        ok consumed,
      )
    ]
    else if equal name (codes "transfer-encoding") && contains (to_lower value) (codes "chunked")
    then (store_header name value (record p { chunked = true }), ok consumed)
    else (store_header name value p, ok consumed)

header_at : ℕ → HttpParser → Bytes → Option ℕ → ℕ → Step
header_at size_mod p line none consumed = fails p "malformed HTTP header line"
header_at size_mod p line (some colon) consumed =
    header_fields size_mod p (to_lower (trim (take colon line))) (trim (drop (colon + 1) line))
      consumed

pub header_read : ℕ → HttpParser → Bytes → ℕ → Step
unfolding header_at header_fields
header_read size_mod p [] consumed = (end_of_headers p, ok consumed)
header_read size_mod p (c ∷ cs) consumed =
    header_at size_mod p (c ∷ cs) (index_of b':' (c ∷ cs)) consumed

pub feed_headers : ℕ → HttpParser → Bytes → Step
feed_headers size_mod p = by_line p (header_read size_mod p)
