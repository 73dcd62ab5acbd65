-- ===== src/Websocket/Client/Tests.antt =====
-- The theorems on the client at concrete inputs.
use esp_modem_link.Common.{◌≡◌, ◌≤◌, ◌^◌, ◌++◌, refl, true, false, none, some, List, [], ◌∷◌, arith}
use esp_modem_link.Common.Lists.{codes, length}
use esp_modem_link.Error.{ok}
use esp_modem_link.Websocket.Frame.{
  WsFrame, continuation, text, ping, frame_bytes, frame_header, length_field,
}
use esp_modem_link.Websocket.Client.{
  Client, Surroundings, disconnected, opened, is_disconnected, max_message_bytes, set_client_header,
  sends,
}
use esp_modem_link.Websocket.Client.Receive.{on_transport_data}
use esp_modem_link.Websocket.Client.Receive.Buffer.{on_transport_data-ends}
use esp_modem_link.Websocket.Client.Receive.OnWire.{wire, on_transport_data-delivers}
use esp_modem_link.Websocket.Client.Receive.Reassembly.{
  Stream, ends, first, pinged, last, frame_of, deliveries,
}
use esp_modem_link.Websocket.Client.Sends.{Takes, ping_frame}
use esp_modem_link.Websocket.Client.Session.{Attempt}
use esp_modem_link.Websocket.Client.Maintain.{maintain_turn}
use esp_modem_link.Websocket.Client.Maintain.Heartbeat.{IsIdle, maintain_turn-notices}
use esp_modem_link.Websocket.Client.Maintain.Steps.{
  Steps, none_yet, and_then, sets_header, time_passes, Steps-Linked,
}

abbrev quiet_line : Surroundings
quiet_line = record { answer = λ log bytes. ok tt; random = λ n. n }

abbrev fresh : Client
fresh = record {
  callbacks = record {
    on_connected = true;
    on_disconnected = true;
    on_message = true;
    on_pong = true;
    on_error = true;
  };
  state = disconnected;
  transport = false;
  rx_buffer = [];
  headers = [];
  url = [];
  user_closed = false;
  heartbeat = record { interval = 5; timeout = 0; enabled = true };
  reconnect = record { enabled = false; max_retries = none };
  reconnect_attempt = 0;
  reconnect_exhausted = false;
  handshake_key = [];
  handshake_done = false;
  handshake_error = none;
  fragment_open = false;
  fragment_binary = false;
  fragment_payload = [];
  send_fragment_open = false;
  close_sent = false;
  connected = false;
  maintain_running = false;
  last_sent_ms = 0;
  ping_sent_ms = 0;
  clock = 9000;
  draws = 0;
  log = [];
}

abbrev upgraded : Client
upgraded = record fresh {
  state = opened;
  transport = true;
  handshake_done = true;
  connected = true;
}

-- A message in two fragments with a ping between them.
abbrev two_fragments : List WsFrame
two_fragments =
    frame_of text false (codes "he")
    ∷ frame_of ping true []
    ∷ frame_of continuation true (codes "llo")
    ∷ []

two_fragments-Stream : Stream none two_fragments ((codes "hello", false) ∷ [])
two_fragments-Stream = first false (codes "he") _ _ (
    pinged (some (codes "he", false)) [] _ _ (omega arith)
      (last false (codes "he") (codes "llo") [] [] (omega arith) (ends none)))

two_fragments_fit : length (wire two_fragments) ≤ max_message_bytes
unfolding wire frame_bytes frame_header length_field
two_fragments_fit = omega arith

on_transport_data-delivers_example :
    (d : Client) × (on_transport_data (2 ^ 32) quiet_line (wire two_fragments) upgraded ≡ some d)
    × (deliveries d.log ≡ deliveries upgraded.log ++ (codes "hello", false) ∷ [])
on_transport_data-delivers_example =
    on_transport_data-delivers (2 ^ 32) quiet_line none two_fragments ((codes "hello", false) ∷ [])
      upgraded two_fragments-Stream refl refl refl refl two_fragments_fit

on_transport_data-ends_example :
    (d : Client) × (on_transport_data (2 ^ 32) quiet_line (0x81 ∷ []) upgraded ≡ some d)
    × (length d.rx_buffer ≤ max_message_bytes)
on_transport_data-ends_example = on_transport_data-ends (2 ^ 32) quiet_line (0x81 ∷ []) upgraded

header_set :
    Steps
      (2 ^ 32)
      quiet_line
      fresh
      (set_client_header (codes "A") (codes "b") (record fresh { clock = 1 }))
header_set =
    and_then _ _ (and_then _ _ none_yet (time_passes 1)) (sets_header (codes "A") (codes "b"))

Steps-Linked_example :
    (set_client_header (codes "A") (codes "b") (record fresh { clock = 1 })).transport ≡ false
unfolding set_client_header
Steps-Linked_example =
    Steps-Linked (2 ^ 32) quiet_line fresh
      (set_client_header (codes "A") (codes "b") (record fresh { clock = 1 })) refl header_set refl

upgraded-IsIdle : IsIdle upgraded
upgraded-IsIdle = record {
  opened' = refl;
  up = refl;
  enabled = refl;
  positive = omega arith;
  quiet = refl;
  started = omega arith;
  due = omega arith;
}

quiet_line-Takes : Takes quiet_line
quiet_line-Takes log bytes = refl

abbrev no_attempt : Attempt
no_attempt = record { made = ok tt; reached = ok tt; arrivals = [] }

maintain_turn-notices_example :
    (d : Client) × (maintain_turn (2 ^ 32) quiet_line no_attempt true upgraded ≡ some d)
    × (d.state ≡ opened)
    × (d.log ≡ upgraded.log ++ sends (ping_frame (quiet_line.random upgraded.draws)) ∷ [])
    × (d.ping_sent_ms ≡ upgraded.clock)
    × ((e : Client) × (maintain_turn
            (2 ^ 32)
            quiet_line
            no_attempt
            true
            (record d { clock = 20000 })
          ≡ some e)
        × (is_disconnected e.state ≡ true)
        × (e.transport ≡ false))
maintain_turn-notices_example =
    maintain_turn-notices (2 ^ 32) quiet_line no_attempt true upgraded 20000 upgraded-IsIdle
      quiet_line-Takes (omega arith)
