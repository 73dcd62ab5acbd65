-- ===== src/Http/Headers.antt =====
-- The header lists that the clients assemble: the `set_header` and `remove_header` of `BuildHttpRequest`
-- in src/protocol/http/http_request_builder.cpp, and the same loop in src/protocol/websocket/ws_handshake.cpp
-- and software_ws_client.cpp, with `HeaderValue` of the latter.
pub mod Distinct
use esp_modem_link.Common.{◌≡◌, Bool, true, false, Option, none, some, List, [], ◌∷◌, ◌++◌}
use esp_modem_link.Common.Lists.{Bytes, All, codes, equal}
use esp_modem_link.Common.Search.{to_lower}
use esp_modem_link.Common.Tests.{if◌then◌else◌}

abbrev pub Headers : Type 0
Headers = List (Bytes × Bytes)

-- `ToLower(a) == ToLower(b)`
abbrev pub same_name : Bytes → Bytes → Bool
same_name a b = equal (to_lower a) (to_lower b)

-- A header that is there keeps its place and its name.
unfoldable pub set_header : Bytes → Bytes → Headers → Headers
set_header key value [] = (key, value) ∷ []
set_header key value ((name, held) ∷ rest) =
    let others = set_header key value rest in
    if same_name name key then (name, value) ∷ rest else (name, held) ∷ others

-- `for (const auto& [key, value] : options.headers) set_header(key, value);`
unfoldable pub set_headers : Headers → Headers → Headers
set_headers [] headers = headers
set_headers ((key, value) ∷ rest) headers = set_headers rest (set_header key value headers)

unfoldable pub remove_header : Bytes → Headers → Headers
remove_header key [] = []
remove_header key ((name, held) ∷ rest) =
    let others = remove_header key rest in
    if same_name name key then others else (name, held) ∷ others

-- The value of the first header of that name.
unfoldable pub find_header : Bytes → Headers → Option Bytes
find_header key [] = none
find_header key ((name, held) ∷ rest) =
    let later = find_header key rest in if same_name name key then some held else later

-- The header lines of a request.
pub header_lines : Headers → Bytes
header_lines [] = []
header_lines ((name, value) ∷ rest) =
    name ++ (codes ": " ++ (value ++ (b'\r' ∷ b'\n' ∷ header_lines rest)))

-- No two headers have one name.
abbrev pub Distinct : Headers → Type 0
Distinct [] = Unit
Distinct ((name, held) ∷ rest) =
    All (λ (h : Bytes × Bytes). same_name h.0 name ≡ false) rest × Distinct rest
