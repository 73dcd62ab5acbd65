-- ===== src/Http/Parser/Feed.antt =====
-- src/protocol/http/http_parser.cpp: the body states, and `Feed`, `Finish` and `GetHeader`.
pub mod Total
pub mod Length
pub mod Chunks
pub mod Body
pub mod Lines
mod Tests
use esp_modem_link.Common.{
  ℕ, zero, suc, ◌+◌, ◌-◌, ◌*◌, ◌%◌, ◌<◌, min, Bool, true, false, not, ◌&&◌, ◌||◌, Option, none,
  some, List, [], ◌∷◌, ◌++◌,
}
use esp_modem_link.Common.Lists.{Bytes, length, take, drop, equal}
use esp_modem_link.Common.Search.{index_of, to_lower}
use esp_modem_link.Common.Tests.{ltb, ◌==◌, if◌then◌else◌}
use esp_modem_link.AtParser.{hex_char_to_nibble}
use esp_modem_link.Error.{Result, ok, err}
use esp_modem_link.Http.Parser.{
  State, status_line, headers, body, chunk_size, chunk_data, chunk_data_end, chunk_trailer,
  complete, error, HttpParser, Step, fails, trim, by_line, feed_status_line, feed_headers,
}

pub emit_body : Bytes → HttpParser → HttpParser
emit_body [] p = p
emit_body (c ∷ cs) p =
    if p.on_body
    then record p { emitted = p.emitted ++ (c ∷ cs) ∷ [] }
    else record p { body = p.body ++ c ∷ cs }

pub feed_body : HttpParser → Bytes → Step
feed_body p data' =
    if p.body_remaining == 0 && not p.has_content_length
    then (emit_body data' p, ok (length data'))
    else let n = min (length data') p.body_remaining in
      let q = emit_body (take n data') p in
      let left = p.body_remaining - n in
      (record q { body_remaining = left; state = if left == 0 then complete else q.state }, ok n)

-- `value = value * 16 + digit` over the digits, in the width of `size_t`.
pub chunk_digits : ℕ → ℕ → Bytes → Option ℕ
chunk_digits size_mod value [] = some value
chunk_digits size_mod value (c ∷ cs) = elim (hex_char_to_nibble c) [
  | none ↦ none
  | some digit ↦ chunk_digits size_mod ((value * 16 + digit) % size_mod) cs
]

-- The size field in front of a chunk extension.
before_extension : Bytes → Option ℕ → Bytes
before_extension field none = field
before_extension field (some semi) = trim (take semi field)

chunk_size_value : HttpParser → Option ℕ → ℕ → Step
chunk_size_value p none consumed = fails p "malformed chunk size"
chunk_size_value p (some value) consumed =
    if value == 0
    then (record p { state = chunk_trailer }, ok consumed)
    else (record p { chunk_remaining = value; state = chunk_data }, ok consumed)

pub chunk_size_read : ℕ → HttpParser → Bytes → ℕ → Step
unfolding before_extension chunk_size_value
chunk_size_read size_mod p line consumed =
    let field = before_extension (trim line) (index_of b';' (trim line)) in
    if equal field []
    then fails p "empty chunk size"
    else chunk_size_value p (chunk_digits size_mod 0 field) consumed

pub feed_chunk_size : ℕ → HttpParser → Bytes → Step
feed_chunk_size size_mod p = by_line p (chunk_size_read size_mod p)

pub feed_chunk_data : HttpParser → Bytes → Step
feed_chunk_data p data' =
    let n = min (length data') p.chunk_remaining in
    let q = emit_body (take n data') p in
    let left = p.chunk_remaining - n in
    (
      record q { chunk_remaining = left; state = if left == 0 then chunk_data_end else q.state },
      ok n,
    )

pub feed_chunk_data_end : HttpParser → Bytes → Step
feed_chunk_data_end p [] = (p, ok 0)
feed_chunk_data_end p (c ∷ []) =
    if c == b'\n' then (record p { state = chunk_size }, ok 1) else (p, ok 0)
feed_chunk_data_end p (c ∷ d ∷ rest) =
    if c == b'\n'
    then (record p { state = chunk_size }, ok 1)
    else if not (c == b'\r') || not (d == b'\n')
    then fails p "chunk data not terminated by CRLF"
    else (record p { state = chunk_size }, ok 2)

trailer_read : HttpParser → Bytes → ℕ → Step
trailer_read p [] consumed = (record p { state = complete }, ok consumed)
trailer_read p (c ∷ cs) consumed = (p, ok consumed)

pub feed_chunk_trailer : HttpParser → Bytes → Step
unfolding trailer_read
feed_chunk_trailer p = by_line p (trailer_read p)

-- The `switch` of `Feed`.
pub feed_state : ℕ → State → HttpParser → Bytes → Step
feed_state size_mod status_line p rest = feed_status_line p rest
feed_state size_mod headers p rest = feed_headers size_mod p rest
feed_state size_mod body p rest = feed_body p rest
feed_state size_mod chunk_size p rest = feed_chunk_size size_mod p rest
feed_state size_mod chunk_data p rest = feed_chunk_data p rest
feed_state size_mod chunk_data_end p rest = feed_chunk_data_end p rest
feed_state size_mod chunk_trailer p rest = feed_chunk_trailer p rest
feed_state size_mod complete p rest = (p, ok 0)
feed_state size_mod error p rest = (p, ok 0)

abbrev pub is_final : State → Bool
is_final complete = true
is_final error = true
is_final _ = false

-- What the loop does with the step of a state: an error ends it, and so does a step of no bytes.
after_step : (HttpParser → ℕ → Bytes → Option Step) → ℕ → Bytes → Step → Option Step
after_step continue consumed rest (q, err e) = some (record q { state = error; buffer = [] }, err e)
after_step continue consumed rest (q, ok zero) = some (q, ok consumed)
after_step continue consumed rest (q, ok (suc n)) =
    continue q (consumed + suc n) (drop (suc n) rest)

-- The loop of `Feed` on the bytes that are left. `none` means that the fuel ran out.
pub feed_loop : ℕ → ℕ → HttpParser → ℕ → Bytes → Option Step
unfolding after_step
feed_loop zero size_mod p consumed rest = none
feed_loop (suc fuel) size_mod p consumed [] = some (p, ok consumed)
feed_loop (suc fuel) size_mod p consumed (c ∷ cs) = elim (is_final p.state) [
  | true ↦ some (p, ok consumed)
  | false ↦
      after_step (feed_loop fuel size_mod) consumed (c ∷ cs)
        (feed_state size_mod p.state p (c ∷ cs))
]

-- `Feed` behind the loop, on all the bytes `data'` of which the first `banked` came from the buffer.
pub bank : Bytes → ℕ → Step → Step
bank data' banked (p, err e) = (p, err e)
bank data' banked (p, ok consumed) = (
  record p { buffer = if is_final p.state then [] else drop consumed data' },
  ok (consumed - banked),
)

-- A round of the loop takes a byte at least.
pub feed : ℕ → HttpParser → Bytes → Option Step
feed size_mod p incoming =
    if is_final p.state
    then some (p, ok 0)
    else elim (feed_loop (length (p.buffer ++ incoming) + 1) size_mod p 0 (p.buffer ++ incoming)) [
      | none ↦ none
      | some s ↦ some (bank (p.buffer ++ incoming) (length p.buffer) s)
    ]

-- The end of the connection completes a body that has no length and no chunks, and nothing else.
finish_state : State → HttpParser → HttpParser
finish_state body p =
    if not p.has_content_length && not p.chunked then record p { state = complete } else p
finish_state s p = p

pub finish : HttpParser → HttpParser
unfolding finish_state
finish p = finish_state p.state p

find_header : Bytes → List (Bytes × Bytes) → Bytes
find_header name [] = []
find_header name ((n, v) ∷ hs) = if equal n name then v else find_header name hs

pub get_header : Bytes → HttpParser → Bytes
unfolding find_header
get_header name p = find_header (to_lower (trim name)) p.headers
