-- ===== src/Http/Client/Upload.antt =====
-- `Write` and `EndBody` of software_http_client.cpp: the chunked body of an upload. A buffer is a byte
-- string, or `none` for a null pointer with a size beside it.
pub mod Once
pub mod Size
pub mod Wire
use esp_modem_link.Common.{Bool, ℕ, zero, suc, false, not, ◌&&◌, Option, none, some, [], ◌∷◌, ◌++◌}
use esp_modem_link.Common.Decimal.{to_decimal}
use esp_modem_link.Common.Int.{ℤ, pos, negsuc, int_max}
use esp_modem_link.Common.Lists.{Bytes, codes, length}
use esp_modem_link.Common.Tests.{ltb, ◌==◌, if◌then◌else◌}
use esp_modem_link.AtParser.{to_hex_string}
use esp_modem_link.Error.{
  NetworkError, NetworkErrc, Result, ok, err, network_error, not_supported_error, text,
}
use esp_modem_link.Http.Parser.{to_size}
use esp_modem_link.Http.Client.{Client, HttpResponse, Ran, Surroundings, sends, emit, then_do}
use esp_modem_link.Http.Client.Connection.{drop_transport, or_drop}
use esp_modem_link.Http.Client.Redirects.{is_redirect}
use esp_modem_link.Http.Client.Stream.{is_status_line, await_headers}

-- A chunk: its size in hexadecimal, the bytes, and the line ends.
pub chunk_frame : Bytes → Bytes
chunk_frame piece = to_hex_string (length piece) ++ (codes "\r\n" ++ (piece ++ codes "\r\n"))

abbrev pub terminator : Bytes
terminator = codes "0\r\n\r\n"

abbrev pub no_upload_error : NetworkError
no_upload_error =
    network_error NetworkErrc.invalid_argument
      "the chunked request body is no longer being written - it was ended by EndBody(), or the server answered before it was finished"

-- `std::to_string(status)`
abbrev pub int_text : ℤ → Bytes
int_text (pos n) = to_decimal n
int_text (negsuc n) = b'-' ∷ to_decimal (suc n)

abbrev pub answered_early_error : ℤ → NetworkError
answered_early_error status = record {
  code = NetworkErrc.protocol_error;
  native = status;
  context =
      codes "the server answered with status "
      ++ (int_text status
          ++ codes
              " before the request body was finished, so no more was sent; the response is readable");
}

-- Behind `Send`: the transport has to take all of it.
unfoldable pub all_sent : ℕ → ℕ → NetworkError → Result ℤ → Client → Ran (Unit {0})
all_sent size_mod size short (err e) c = (drop_transport c, err e)
all_sent size_mod size short (ok n) c =
    if to_size size_mod n == size then (c, ok tt) else (drop_transport c, err short)

abbrev pub short_chunk_error : NetworkError
short_chunk_error =
    network_error NetworkErrc.transmit_failed
      "the transport accepted only part of a chunk, so the framing no longer matches the bytes on the wire"

-- All of `bytes` over the transport.
unfoldable pub send_all :
    Surroundings → Bytes → NetworkError → NetworkError → Client → Ran (Unit {0})
unfolding all_sent
send_all env bytes gone short c =
    if c.transport
    then all_sent env.size_mod (length bytes) short (env.send c.log bytes) (emit (sends bytes) c)
    else (c, err gone)

abbrev pub no_buffer_error : NetworkError
no_buffer_error = network_error NetworkErrc.invalid_argument "Write() was given no buffer"

abbrev pub chunk_too_large_error : NetworkError
chunk_too_large_error =
    network_error NetworkErrc.invalid_argument
      "a chunk larger than INT_MAX bytes cannot be reported as a length"

abbrev pub write_dropped_error : NetworkError
write_dropped_error =
    network_error NetworkErrc.not_connected
      "the connection was dropped while the chunked body was being written"

-- A piece that is refused or empty is not sent.
unfoldable pub write_piece : Surroundings → Option Bytes → ℕ → Client → Ran ℕ
write_piece env none zero c = (c, ok 0)
write_piece env none (suc size) c = (c, err no_buffer_error)
write_piece env (some []) size c = (c, ok 0)
write_piece env (some (b ∷ bs)) size c =
    let piece = b ∷ bs in
    if ltb int_max (length piece)
    then (c, err chunk_too_large_error)
    else then_do (send_all env (chunk_frame piece) write_dropped_error short_chunk_error c)
        (λ u d. (d, ok (length piece)))

abbrev pub write_not_open_error : Bool → NetworkError
write_not_open_error asked =
    if asked
    then network_error NetworkErrc.not_connected
        "no chunked request is open; call Open() before Write()"
    else not_supported_error (
        text
          "streaming a request body requires SetChunkedUpload(true) before Open(); a body that is known up front belongs in SetBody()")

abbrev pub write_closed_error : NetworkError
write_closed_error =
    network_error NetworkErrc.not_connected
      "the connection was closed while the chunked body was being written"

-- `size` counts only where the buffer is a null pointer.
unfoldable pub write : Surroundings → Option Bytes → ℕ → Client → Ran ℕ
write env buffer size c =
    if not c.upload_chunked
    then (c, err (write_not_open_error c.settings.chunked_upload))
    else if not c.upload_active
    then (c, err no_upload_error)
    else if c.is_closed
    then (c, err write_closed_error)
    else if not (is_status_line c.parser.state)
    then (record c { upload_active = false }, err (answered_early_error c.parser.status_code))
    else write_piece env buffer size c

abbrev pub streamed_redirect_error : ℤ → NetworkError
streamed_redirect_error status = record {
  code = NetworkErrc.protocol_error;
  native = status;
  context =
      codes
        "the server answered a streamed request body with a redirect, and a body that has already gone out cannot be sent again; read the status and the Location, or turn following off to treat it as an answer";
}

-- The head of the answer to an upload.
unfoldable pub answer_upload : HttpResponse → Client → Ran (Unit {0})
answer_upload head c =
    if c.settings.follow_redirects && is_redirect head.status_code
    then (drop_transport c, err (streamed_redirect_error head.status_code))
    else (c, ok tt)

abbrev pub short_terminator_error : NetworkError
short_terminator_error =
    network_error NetworkErrc.transmit_failed "the request body terminator could not be sent whole"

abbrev pub end_dropped_error : NetworkError
end_dropped_error =
    network_error NetworkErrc.not_connected
      "the connection was dropped before the request body was ended"

-- The terminator, and the wait for the answer.
unfoldable pub finish_body : Surroundings → Client → Ran (Unit {0})
finish_body env c =
    then_do (send_all env terminator end_dropped_error short_terminator_error c)
      (λ u d. then_do (or_drop (await_headers env d)) answer_upload)

abbrev pub end_not_open_error : Bool → NetworkError
end_not_open_error asked =
    if asked
    then network_error NetworkErrc.not_connected
        "no chunked request is open; call Open() before EndBody()"
    else not_supported_error (
        text
          "EndBody() ends a chunked request body, and none was asked for; SetChunkedUpload(true) before Open()")

unfoldable pub end_body : Surroundings → Client → Ran (Unit {0})
end_body env c =
    if not c.upload_chunked
    then (c, err (end_not_open_error c.settings.chunked_upload))
    else if not c.upload_active
    then (c, err no_upload_error)
    else finish_body env (record c { upload_active = false })
