-- ===== src/Http/Client/Connection.antt =====
-- `DropTransport` and `EnsureConnected` of software_http_client.cpp.
use esp_modem_link.Common.{Bool, true, false, not, ◌&&◌}
use esp_modem_link.Common.Lists.{equal}
use esp_modem_link.Common.Tests.{◌==◌, if◌then◌else◌}
use esp_modem_link.Error.{Result, ok, err}
use esp_modem_link.Http.Url.{ParsedUrl}
use esp_modem_link.Http.Client.{
  Client, Ran, Surroundings, creates, connects, disconnects, emit, default_tls_config,
}

-- The fields behind the transport are cleared whether there was one or not.
unfoldable pub drop_transport : Client → Client
drop_transport c =
    let d = if c.transport then emit disconnects c else c in
    record d { transport = false; connected = false; upload_active = false; upload_chunked = false }

-- A failed call drops the transport.
abbrev pub or_drop {ℓ} : {A : Type ℓ} → Ran A → Ran A
or_drop (c, ok a) = (c, ok a)
or_drop (c, err e) = (drop_transport c, err e)

abbrev pub equal_flag : Bool → Bool → Bool
equal_flag true b = b
equal_flag false b = not b

-- The open connection leads where the URL does and may be used again.
abbrev pub reusable : ParsedUrl → Client → Bool
reusable url c =
    c.connected
    && (c.transport
        && (c.settings.keep_alive
            && (equal url.host c.connected_host
                && (url.port == c.connected_port && equal_flag url.tls c.connected_tls))))

-- Behind `transport_->Connect`.
unfoldable pub connect_answer : ParsedUrl → Result (Unit {0}) → Client → Ran (Unit {0})
connect_answer url (err e) c = (drop_transport c, err e)
connect_answer url (ok u) c = (
  record c {
    connected = true;
    connected_host = url.host;
    connected_port = url.port;
    connected_tls = url.tls;
  },
  ok tt,
)

-- Behind `factory_`.
unfoldable pub create_answer :
    Surroundings → ParsedUrl → Result (Unit {0}) → Client → Ran (Unit {0})
unfolding connect_answer
create_answer env url (err e) c = (c, err e)
create_answer env url (ok u) c =
    connect_answer url (env.connect c.log url.host url.port)
      (emit (connects url.host url.port) (record c { transport = true }))

-- The held configuration goes to TLS connections only.
unfoldable pub open_connection : Surroundings → ParsedUrl → Client → Ran (Unit {0})
unfolding create_answer
open_connection env url c =
    let config = if url.tls then c.settings.tls else default_tls_config in
    create_answer env url (env.create c.log url.tls config) (emit (creates url.tls config) c)

unfoldable pub ensure_connected : Surroundings → ParsedUrl → Client → Ran (Unit {0})
ensure_connected env url c =
    if reusable url c then (c, ok tt) else open_connection env url (drop_transport c)
