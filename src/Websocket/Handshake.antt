-- ===== src/Websocket/Handshake.antt =====
-- src/protocol/websocket/ws_handshake.h and ws_handshake.cpp. `platform::RandomUint32` is a parameter:
-- `random n` is the n-th number drawn.
pub mod Base64
pub mod Sha1
mod Tests
use esp_modem_link.Common.{ℕ, zero, ◌+◌, Bool, true, false, Option, none, some, List, [], ◌∷◌, ◌++◌}
use esp_modem_link.Common.Int.{ℤ, pos}
use esp_modem_link.Common.Lists.{Bytes, codes}
use esp_modem_link.Common.Tests.{if◌then◌else◌}
use esp_modem_link.Error.{NetworkErrc, Result, ok, err, network_error}
use esp_modem_link.Http.Headers.{Headers, set_headers, header_lines}
use esp_modem_link.Http.Parser.{HttpParser, Step, initial}
use esp_modem_link.Http.Parser.Feed.{feed, get_header}
use esp_modem_link.Http.Request.{host_header, request_path}
use esp_modem_link.Http.Url.{ParsedUrl}
use esp_modem_link.Websocket.Frame.{big_endian}
use esp_modem_link.Websocket.Handshake.Base64.{base64_encode}
use esp_modem_link.Websocket.Handshake.Sha1.{sha1}

abbrev web_socket_guid : Bytes
web_socket_guid = codes "258EAFA5-E914-47DA-95CA-C5AB0DC85B11"

unfoldable pub compute_sec_web_socket_accept : Bytes → Bytes
compute_sec_web_socket_accept key = base64_encode (sha1 (key ++ web_socket_guid))

-- The sixteen bytes of a key, from the four numbers drawn from the `draws`-th on.
unfoldable pub key_bytes : (ℕ → ℕ) → ℕ → Bytes
key_bytes random draws =
    big_endian 4 (random draws)
    ++ (big_endian 4 (random (draws + 1))
        ++ (big_endian 4 (random (draws + 2)) ++ big_endian 4 (random (draws + 3))))

unfoldable pub make_sec_web_socket_key : (ℕ → ℕ) → ℕ → Bytes
make_sec_web_socket_key random draws = base64_encode (key_bytes random draws)

pub record WsHandshakeResponse : Type 0 where
  pub status : ℤ
  pub accept : Bytes

-- Whether a parser has read no status line.
abbrev no_status : ℤ → Bool
no_status (pos zero) = true
no_status _ = false

-- What is read off the parser that was fed the head.
unfoldable pub handshake_response : Step → Result WsHandshakeResponse
handshake_response (p, err e) = err e
handshake_response (p, ok consumed) =
    if no_status p.status_code
    then err (network_error NetworkErrc.protocol_error "the response has no status line")
    else ok
        (record { status = p.status_code; accept = get_header (codes "Sec-WebSocket-Accept") p })

-- `none` is a parser whose loop runs out of fuel.
unfoldable pub parse_handshake_response : ℕ → Bytes → Option (Result WsHandshakeResponse)
parse_handshake_response size_mod head = elim (feed size_mod (initial false) head) [
  | none ↦ none
  | some step ↦ some (handshake_response step)
]

abbrev handshake_headers : ParsedUrl → Bytes → Headers
handshake_headers url key =
    (codes "Host", host_header url)
    ∷ (codes "Upgrade", codes "websocket")
    ∷ (codes "Connection", codes "Upgrade")
    ∷ (codes "Sec-WebSocket-Key", key)
    ∷ (codes "Sec-WebSocket-Version", codes "13")
    ∷ []

unfoldable pub build_handshake_request : ParsedUrl → Bytes → Headers → Bytes
build_handshake_request url key headers =
    codes "GET "
    ++ (request_path url.path
        ++ (codes " HTTP/1.1\r\n"
            ++ (header_lines (set_headers headers (handshake_headers url key))
                ++ (b'\r' ∷ b'\n' ∷ []))))
