-- ===== src/Http/Url.antt =====
-- src/protocol/http/http_request_builder.h and .cpp: `ParsedUrl` and `ParseUrl`.
pub mod RoundTrip
use esp_modem_link.Common.{
  ℕ, zero, suc, ◌+◌, ◌≤◌, ◌<◌, Bool, true, false, not, ◌&&◌, ◌||◌, Option, none, some, List, [],
  ◌∷◌, ◌++◌,
}
use esp_modem_link.Common.Decimal.{to_decimal}
use esp_modem_link.Common.Int.{ℤ, pos, negsuc}
use esp_modem_link.Common.Lists.{Bytes, codes, length, take, drop, equal, starts_with}
use esp_modem_link.Common.Search.{index_of, last_index_of, index_where}
use esp_modem_link.Common.Tests.{ltb, leb, ◌==◌, if◌then◌else◌}
use esp_modem_link.AtParser.{parse_int}
use esp_modem_link.Error.{NetworkError, NetworkErrc, Result, ok, err, network_error}
use Prim.Native.String.{String}

pub record ParsedUrl : Type 0 where
  pub tls : Bool
  pub host : Bytes
  pub port : ℕ
  pub path : Bytes

abbrev pub default_http_port : ℕ
default_http_port = 80

abbrev pub default_https_port : ℕ
default_https_port = 443

-- The port that a scheme implies.
abbrev pub default_port : Bool → ℕ
default_port tls = if tls then default_https_port else default_http_port

abbrev pub url_error : String → NetworkError
url_error context = network_error NetworkErrc.invalid_argument context

-- `s.substr(0, end)`, where `none` is `npos`.
abbrev pub up_to : Option ℕ → Bytes → Bytes
up_to none s = s
up_to (some end) s = take end s

-- The scheme of a URL, and what follows its slashes.
abbrev pub scheme_of : Bytes → Option (Bool × Bytes)
scheme_of url =
    if starts_with url (codes "http://")
    then some (false, drop 7 url)
    else if starts_with url (codes "https://")
    then some (true, drop 8 url)
    else none

-- A byte that ends the authority.
abbrev pub is_path_start : ℕ → Bool
is_path_start c = c == b'/' || c == b'?'

-- A path begins with a slash, also where the URL has a query alone.
abbrev pub with_slash : Bytes → Bytes
with_slash [] = b'/' ∷ []
with_slash (c ∷ cs) = if c == b'?' then b'/' ∷ c ∷ cs else c ∷ cs

abbrev pub path_of : Option ℕ → Bytes → Bytes
path_of none rest = with_slash (b'/' ∷ [])
path_of (some authority_end) rest = with_slash (drop authority_end rest)

-- Userinfo is dropped.
abbrev pub without_userinfo : Option ℕ → Bytes → Bytes
without_userinfo none authority = authority
without_userinfo (some at) authority = drop (at + 1) authority

-- `!port || *port <= 0 || *port > 65535` is refused.
abbrev pub port_of : Option ℤ → Option ℕ
port_of none = none
port_of (some (pos n)) = if n == 0 || ltb 65535 n then none else some n
port_of (some (negsuc n)) = none

pub host_checked : Bool → Bytes → ℕ → Bytes → Result ParsedUrl
host_checked tls [] port path = err (url_error "URL has no host")
host_checked tls (c ∷ cs) port path =
    ok (record { tls = tls; host = c ∷ cs; port = port; path = path })

-- The host and the port of an authority that has no userinfo.
pub host_and_port : Bool → Bytes → Bytes → Option ℕ → Result ParsedUrl
unfolding host_checked
host_and_port tls path authority none = host_checked tls authority (default_port tls) path
host_and_port tls path authority (some colon) =
    elim (port_of (parse_int (drop (colon + 1) authority))) [
      | none ↦ err (url_error "URL has an invalid port")
      | some port ↦ host_checked tls (take colon authority) port path
    ]

pub authority_read : Bool → Bytes → Bytes → Result ParsedUrl
unfolding host_and_port
authority_read tls path [] = err (url_error "URL has no host")
authority_read tls path (c ∷ cs) =
    let authority = without_userinfo (index_of b'@' (c ∷ cs)) (c ∷ cs) in
    host_and_port tls path authority (last_index_of b':' authority)

pub parse_url : Bytes → Result ParsedUrl
unfolding authority_read
parse_url url = elim (scheme_of url) [
  | none ↦ err (url_error "URL must start with http:// or https://")
  | some (tls, rest) ↦
      let end = index_where is_path_start rest in
      authority_read tls (path_of end rest) (up_to end rest)
]

-- The scheme of a URL as text.
abbrev pub scheme_text : Bool → Bytes
scheme_text tls = if tls then codes "https://" else codes "http://"

-- The port where it is not the one that the scheme implies.
abbrev pub port_text : Bool → ℕ → Bytes
port_text tls port = if port == default_port tls then [] else b':' ∷ to_decimal port

-- An address as a URL.
unfoldable pub url_text : ParsedUrl → Bytes
url_text u = scheme_text u.tls ++ (u.host ++ (port_text u.tls u.port ++ u.path))
