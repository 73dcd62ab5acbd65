-- ===== src/Http/Redirect.antt =====
-- src/protocol/http/http_redirect.h and http_redirect.cpp. The segments of a path are a stack with
-- its top first; a response's headers are in the order of their map.
pub mod Relative
pub mod Normal
pub mod Origin
use esp_modem_link.Common.{
  ℕ, zero, suc, ◌+◌, Bool, true, false, not, ◌&&◌, ◌||◌, Option, none, some, List, [], ◌∷◌, ◌++◌,
}
use esp_modem_link.Common.Lists.{Bytes, codes, take, drop, equal, starts_with}
use esp_modem_link.Common.Search.{index_of, index_where, last_index_of, to_lower}
use esp_modem_link.Common.Tests.{◌==◌, if◌then◌else◌}
use esp_modem_link.Error.{NetworkError, NetworkErrc, Result, ok, err, network_error}
use esp_modem_link.Http.Headers.{Headers, same_name, find_header}
use esp_modem_link.Http.Url.{ParsedUrl, parse_url, up_to, port_text, scheme_text, is_path_start}
use Prim.Native.String.{String}

-- `path.substr(path.find('?'))`, empty where there is none.
abbrev pub from_index : Option ℕ → Bytes → Bytes
from_index none s = []
from_index (some at) s = drop at s

-- A byte in front of the pieces of a path.
abbrev pub put_byte : ℕ → List Bytes → List Bytes
put_byte c [] = if c == b'/' then [] ∷ [] ∷ [] else (c ∷ []) ∷ []
put_byte c (piece ∷ pieces) = if c == b'/' then [] ∷ piece ∷ pieces else (c ∷ piece) ∷ pieces

-- The pieces of a path between its slashes, the empty ones included.
unfoldable pub split_path : Bytes → List Bytes
split_path [] = [] ∷ []
split_path (c ∷ cs) = put_byte c (split_path cs)

abbrev pub is_dot : Bytes → Bool
is_dot segment = equal segment (codes ".")

abbrev pub is_dot_dot : Bytes → Bool
is_dot_dot segment = equal segment (codes "..")

abbrev pub is_nil : Bytes → Bool
is_nil [] = true
is_nil (c ∷ cs) = false

-- `pop_back` of a stack whose top is the head.
abbrev pub pop_segment : List Bytes → List Bytes
pop_segment [] = []
pop_segment (s ∷ stack) = stack

-- One turn of the loop over the segments, on the stack with its top first.
abbrev pub push_segment : Bytes → List Bytes → List Bytes
push_segment segment stack =
    if is_dot_dot segment
    then pop_segment stack
    else if is_dot segment || is_nil segment
    then stack
    else segment ∷ stack

unfoldable pub push_segments : List Bytes → List Bytes → List Bytes
push_segments [] stack = stack
push_segments (segment ∷ rest) stack = push_segments rest (push_segment segment stack)

-- The segments of a stack with its top first, each behind a slash.
unfoldable pub join_segments : List Bytes → Bytes
join_segments [] = []
join_segments (segment ∷ below) = join_segments below ++ b'/' ∷ segment

-- `path_part.ends_with(suffix)`
unfoldable pub ends_with : Bytes → Bytes → Bool
ends_with suffix [] = equal [] suffix
ends_with suffix (c ∷ cs) = equal (c ∷ cs) suffix || ends_with suffix cs

-- A path that names a directory.
abbrev pub is_directory : Bytes → Bool
is_directory path =
    ends_with (codes "/") path
    || equal path (codes ".")
    || equal path (codes "..")
    || ends_with (codes "/.") path
    || ends_with (codes "/..") path

-- The root is a slash alone; a directory below it keeps its trailing slash.
abbrev pub written_path : List Bytes → Bool → Bytes
written_path [] directory = b'/' ∷ []
written_path (s ∷ stack) directory =
    join_segments (s ∷ stack) ++ (if directory then b'/' ∷ [] else [])

unfoldable pub normalize_path : Bytes → Bytes
normalize_path path =
    let query_at = index_of b'?' path in
    let path_part = up_to query_at path in
    written_path (push_segments (split_path path_part) []) (is_directory path_part)
    ++ from_index query_at path

-- Up to the last slash of the base path.
abbrev pub directory_of : Option ℕ → Bytes → Bytes
directory_of none path = []
directory_of (some last_slash) path = take (last_slash + 1) path

abbrev pub resolve_relative : Bytes → Bytes → Bytes
resolve_relative base location = directory_of (last_index_of b'/' base) base ++ location

pub resolve_path : ParsedUrl → Bytes → Bytes
resolve_path from location =
    let base = up_to (index_of b'?' from.path) from.path in
    elim location [
      | [] ↦ resolve_relative base []
      | c ∷ cs ↦
          if c == b'?'
          then base ++ c ∷ cs
          else if c == b'/'
          then c ∷ cs
          else resolve_relative base (c ∷ cs)
    ]

abbrev pub is_redirect_status : ℕ → Bool
is_redirect_status status =
    status == 301 || status == 302 || status == 303 || status == 307 || status == 308

abbrev pub found_or_empty : Option Bytes → Bytes
found_or_empty none = []
found_or_empty (some value) = value

-- The first header of a response that is named so.
pub redirect_location : Headers → Bytes
redirect_location headers = found_or_empty (find_header (codes "Location") headers)

abbrev pub redirect_error : String → Bytes → NetworkError
redirect_error context shown =
    let e = network_error NetworkErrc.protocol_error context in
    record e { context = e.context ++ shown }

-- What the resolved URL is parsed to.
abbrev pub redirected : Bytes → Result ParsedUrl → Result ParsedUrl
redirected resolved (ok parsed) = ok parsed
redirected resolved (err e) =
    err (redirect_error "the redirect points somewhere this client cannot go: " resolved)

-- `location.substr(0, location.find_first_of("/?")).find(':') != npos`
abbrev pub has_colon : Option ℕ → Bool
has_colon none = false
has_colon (some at) = true

abbrev pub names_scheme : Bytes → Bool
names_scheme location =
    has_colon (index_of b':' (up_to (index_where is_path_start location) location))

-- The URL that a `Location` without a fragment names.
pub resolved_url : ParsedUrl → Bytes → Result Bytes
resolved_url from location =
    if starts_with location (codes "http://") || starts_with location (codes "https://")
    then ok location
    else if starts_with location (codes "//")
    then ok ((if from.tls then codes "https:" else codes "http:") ++ location)
    else if names_scheme location
    then err (redirect_error "the redirect names a scheme this client cannot follow: " location)
    else ok (
        scheme_text from.tls
        ++ (from.host
            ++ (port_text from.tls from.port ++ normalize_path (resolve_path from location))))

abbrev pub follow : Result Bytes → Result ParsedUrl
follow (err e) = err e
follow (ok resolved) = redirected resolved (parse_url resolved)

pub resolve_location : ParsedUrl → Bytes → Result ParsedUrl
resolve_location from [] =
    err (network_error NetworkErrc.protocol_error "the redirect has an empty Location")
resolve_location from (c ∷ cs) = follow (resolved_url from (c ∷ cs))

-- The fragment is dropped first.
pub resolve_redirect : ParsedUrl → Bytes → Result ParsedUrl
resolve_redirect from location = resolve_location from (up_to (index_of b'#' location) location)

abbrev equal_tls : Bool → Bool → Bool
equal_tls true b = b
equal_tls false b = not b

pub same_origin : ParsedUrl → ParsedUrl → Bool
same_origin a b = equal_tls a.tls b.tls && a.port == b.port && same_name a.host b.host

pub is_credential_header : Bytes → Bool
is_credential_header name =
    let lower = to_lower name in
    equal lower (codes "authorization")
    || equal lower (codes "cookie")
    || equal lower (codes "proxy-authorization")
