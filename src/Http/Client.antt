-- ===== src/Http/Client.antt =====
-- src/protocol/http/software_http_client.h and .cpp: the state of the client and what the caller
-- sets. What the client does to its transports is a log of effects, newest last, and
-- the factory and the transport answer by any functions of that log. The callbacks of the transport
-- are functions of their own; what they are given while a call waits is a list to each wait, and a
-- wait whose list does not bring what it waits for is one that times out. `size_mod` is 2 ^ w for the
-- width w of `size_t`. The locks are not modelled.
pub mod Connection
pub mod Arrivals
pub mod Start
pub mod Requests
mod Tests
pub mod Linked
pub mod Redirects
pub mod Execute
pub mod Stream
pub mod Upload
use esp_modem_link.Common.{
  ℕ, zero, suc, ◌+◌, ◌%◌, Bool, true, false, not, ◌&&◌, ◌||◌, Option, none, some, List, [], ◌∷◌,
  ◌++◌,
}
use esp_modem_link.Common.Int.{ℤ, pos, negsuc}
use esp_modem_link.Common.Lists.{Bytes, codes, equal}
use esp_modem_link.Common.Tests.{◌==◌, if◌then◌else◌}
use esp_modem_link.Error.{NetworkError, NetworkErrc, Result, ok, err, network_error}
use esp_modem_link.Http.Headers.{Headers}
use esp_modem_link.Http.Parser.{HttpParser, State, Step, reset, initial, complete}
use esp_modem_link.Http.Parser.Feed.{feed, finish}
use esp_modem_link.Http.Request.{HttpRequestOptions, build_http_request}
use esp_modem_link.Http.Url.{ParsedUrl}

-- `TlsConfig`, the timeout in seconds.
pub record TlsConfig : Type 0 where
  pub verify_certificate : Bool
  pub verify_hostname : Bool
  pub ca_cert : Bytes
  pub client_cert : Bytes
  pub client_key : Bytes
  pub alpn_protocols : Bytes
  pub handshake_timeout : ℕ

abbrev pub default_tls_config : TlsConfig
default_tls_config = record {
  verify_certificate = false;
  verify_hostname = false;
  ca_cert = [];
  client_cert = [];
  client_key = [];
  alpn_protocols = [];
  handshake_timeout = 10;
}

-- The headers are a map, here an association list.
pub record HttpResponse : Type 0 where
  pub status_code : ℤ
  pub headers : Headers
  pub body : Bytes

abbrev pub no_response : HttpResponse
no_response = record { status_code = pos 0; headers = []; body = [] }

-- What the client asks of the factory and of the transport.
pub data Effect : Type 0 where
  creates : Bool → TlsConfig → Effect
  connects : Bytes → ℕ → Effect
  sends : Bytes → Effect
  disconnects : Effect

-- What a callback of the transport is given.
pub data Arrival : Type 0 where
  data' : Bytes → Arrival
  closed : Arrival
  failed : NetworkError → Arrival

-- What the caller sets, which no request changes.
pub record Settings : Type 0 where
  pub timeout : ℕ
  pub headers : Headers
  pub request_body : Bytes
  pub keep_alive : Bool
  pub follow_redirects : Bool
  pub max_redirects : ℕ
  pub tls : TlsConfig
  pub chunked_upload : Bool

pub record Client : Type 0 where
  pub settings : Settings
  pub transport : Bool
  pub upload_chunked : Bool
  pub upload_active : Bool
  pub parser : HttpParser
  pub parse_failed : Bool
  pub parse_error : Option NetworkError
  pub is_closed : Bool
  pub streaming : Bool
  pub pending : Bytes
  pub response : HttpResponse
  pub connected : Bool
  pub connected_host : Bytes
  pub connected_port : ℕ
  pub connected_tls : Bool
  pub waits : ℕ
  pub log : List Effect

-- A client as it is made.
abbrev pub new_client : Client
new_client = record {
  settings = record {
    timeout = 10000;
    headers = [];
    request_body = [];
    keep_alive = false;
    follow_redirects = true;
    max_redirects = 5;
    tls = default_tls_config;
    chunked_upload = false;
  };
  transport = false;
  upload_chunked = false;
  upload_active = false;
  parser = initial false;
  parse_failed = false;
  parse_error = none;
  is_closed = false;
  streaming = false;
  pending = [];
  response = no_response;
  connected = false;
  connected_host = [];
  connected_port = 0;
  connected_tls = false;
  waits = 0;
  log = [];
}

-- What the surroundings answer. `arrivals n` is what comes in during the n-th wait.
pub record Surroundings : Type 0 where
  pub size_mod : ℕ
  pub create : List Effect → Bool → TlsConfig → Result (Unit {0})
  pub connect : List Effect → Bytes → ℕ → Result (Unit {0})
  pub send : List Effect → Bytes → Result ℤ
  pub arrivals : ℕ → List Arrival

-- A request as it changes down a redirect chain.
pub record RequestState : Type 0 where
  pub method : Bytes
  pub url : ParsedUrl
  pub body : Bytes
  pub headers : Headers

-- A call that leaves the client beside its result.
abbrev pub Ran {ℓ} : Type ℓ → Type ℓ
Ran A = Client × Result A

-- The next call of a chain, which an error ends.
abbrev pub then_do {ℓ κ} : {A : Type ℓ} {B : Type κ} → Ran A → (A → Client → Ran B) → Ran B
then_do (c, ok a) f = f a c
then_do (c, err e) f = (c, err e)

abbrev pub emit : Effect → Client → Client
emit e c = record c { log = c.log ++ e ∷ [] }

pub set_timeout : ℕ → Client → Client
set_timeout timeout c = record c { settings = record c.settings { timeout = timeout } }

-- Nothing is replaced here: that is left to the request builder.
pub add_header : Bytes → Bytes → Client → Client
add_header key value c = record c {
  settings = record c.settings { headers = c.settings.headers ++ (key, value) ∷ [] };
}

pub set_body : Bytes → Client → Client
set_body body c = record c { settings = record c.settings { request_body = body } }

pub set_keep_alive : Bool → Client → Client
set_keep_alive enable c = record c { settings = record c.settings { keep_alive = enable } }

pub set_follow_redirects : Bool → Client → Client
set_follow_redirects enable c = record c {
  settings = record c.settings { follow_redirects = enable };
}

-- `max < 0 ? 0 : max`
abbrev pub at_least_zero : ℤ → ℕ
at_least_zero (pos n) = n
at_least_zero (negsuc n) = 0

pub set_max_redirects : ℤ → Client → Client
set_max_redirects max c = record c {
  settings = record c.settings { max_redirects = at_least_zero max };
}

pub set_chunked_upload : Bool → Client → Client
set_chunked_upload enable c = record c { settings = record c.settings { chunked_upload = enable } }

pub set_tls_config : TlsConfig → Client → Client
set_tls_config config c = record c { settings = record c.settings { tls = config } }
