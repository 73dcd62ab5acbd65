-- ===== src/Http/Request.antt =====
-- src/protocol/http/http_request_builder.h and .cpp: `HttpRequestOptions` and `BuildHttpRequest`.
pub mod Framing
use esp_modem_link.Common.{Bool, true, false, List, [], ◌∷◌, ◌++◌}
use esp_modem_link.Common.Decimal.{to_decimal}
use esp_modem_link.Common.Lists.{Bytes, codes, length}
use esp_modem_link.Common.Tests.{if◌then◌else◌}
use esp_modem_link.Http.Headers.{Headers, set_header, set_headers, remove_header, header_lines}
use esp_modem_link.Http.Url.{ParsedUrl, port_text}

pub record HttpRequestOptions : Type 0 where
  pub method : Bytes
  pub headers : Headers
  pub body : Bytes
  pub keep_alive : Bool
  pub user_agent : Bytes
  pub chunked_upload : Bool

-- The `Host` header has the port only where it is not the one of the scheme.
abbrev pub host_header : ParsedUrl → Bytes
host_header url = url.host ++ port_text url.tls url.port

abbrev pub default_headers : ParsedUrl → HttpRequestOptions → Headers
default_headers url options =
    (codes "Host", host_header url)
    ∷ (codes "User-Agent", options.user_agent)
    ∷ (codes "Connection", if options.keep_alive then codes "keep-alive" else codes "close")
    ∷ []

-- The headers that say how long the body is.
abbrev pub framed : Bool → Bytes → Headers → Headers
framed true body headers =
    set_header (codes "Transfer-Encoding") (codes "chunked")
      (remove_header (codes "Content-Length") headers)
framed false body headers = set_header (codes "Content-Length") (to_decimal (length body)) headers

pub request_headers : ParsedUrl → HttpRequestOptions → Headers
request_headers url options =
    framed options.chunked_upload options.body
      (set_headers options.headers (default_headers url options))

-- `url.path.empty() ? "/" : url.path`
abbrev pub request_path : Bytes → Bytes
request_path [] = b'/' ∷ []
request_path (c ∷ cs) = c ∷ cs

pub build_http_request : ParsedUrl → HttpRequestOptions → Bytes
build_http_request url options =
    options.method
    ++ (b' '
        ∷ (request_path url.path
            ++ (codes " HTTP/1.1\r\n"
                ++ (header_lines (request_headers url options)
                    ++ (b'\r' ∷ b'\n' ∷ (if options.chunked_upload then [] else options.body))))))
