-- ===== src/Websocket/Client/Maintain/Steps.antt =====
-- The life of a client as steps, and what holds of every client that steps reach.
use esp_modem_link.Common.{ℕ, Bool, true, false, Option, some, List, ◌≡◌}
use mathlib.Core.Path.{subst}
use esp_modem_link.Common.Lists.{Bytes}
use esp_modem_link.Websocket.Client.{
  Client, Surroundings, Sending, HeartbeatConfig, ReconnectConfig, is_disconnected, send_fragment,
  ping_peer, set_client_header, set_heartbeat, set_auto_reconnect,
}
use esp_modem_link.Websocket.Client.Linked.{Linked, ping_peer-Linked, send_fragment-Linked}
use esp_modem_link.Websocket.Client.Receive.Linked.{Gives}
use esp_modem_link.Websocket.Client.Session.{Arrival, arrive, Attempt, connect, close_client}
use esp_modem_link.Websocket.Client.Maintain.{maintain_turn}
use esp_modem_link.Websocket.Client.Session.Linked.{
  GivesSending, connect-Gives, close_client-Gives, arrive-Gives,
}
use esp_modem_link.Websocket.Client.Maintain.Linked.{turn_in-Gives}

-- What can happen to a client between two moments.
pub data Step (size_mod : ℕ) (env : Surroundings) (c : Client) : Client → Type 0 where
  connects :
      (attempt : Attempt) (url : Bytes) (s : Sending)
      → connect size_mod env attempt url c ≡ some s
      → Step size_mod env c s.client
  sends_fragment :
      (data' : Option Bytes) (binary' fin : Bool)
      → Step size_mod env c (send_fragment env data' binary' fin c).client
  pings : (payload : Bytes) → Step size_mod env c (ping_peer env payload c)
  ends :
      (replies : List Arrival) (code : ℕ) (reason : Bytes) (d : Client)
      → close_client size_mod env replies code reason c ≡ some d
      → Step size_mod env c d
  meets : (a : Arrival) (d : Client) → arrive size_mod env a c ≡ some d → Step size_mod env c d
  maintains :
      (attempt : Attempt) (unstopped : Bool) (d : Client)
      → maintain_turn size_mod env attempt unstopped c ≡ some d
      → Step size_mod env c d
  sets_header : (key value : Bytes) → Step size_mod env c (set_client_header key value c)
  sets_heartbeat : (config : HeartbeatConfig) → Step size_mod env c (set_heartbeat config c)
  sets_reconnect : (config : ReconnectConfig) → Step size_mod env c (set_auto_reconnect config c)
  time_passes : (now : ℕ) → Step size_mod env c (record c { clock = now })

pub data Steps (size_mod : ℕ) (env : Surroundings) (c : Client) : Client → Type 0 where
  none_yet : Steps size_mod env c c
  and_then :
      (d e : Client) → Steps size_mod env c d → Step size_mod env d e → Steps size_mod env c e

Gives-some : (o : Option Client) (d : Client) → o ≡ some d → Gives o → Linked d
Gives-some o d e h = subst Gives e h

GivesSending-some :
    (o : Option Sending) (s : Sending) → o ≡ some s → GivesSending o → Linked s.client
GivesSending-some o s e h = subst GivesSending e h

Step-Linked :
    (size_mod : ℕ) (env : Surroundings) (c d : Client) → Step size_mod env c d → Linked c → Linked d
unfolding maintain_turn set_client_header set_heartbeat set_auto_reconnect
Step-Linked size_mod env c d (connects attempt url s e) h =
    GivesSending-some (connect size_mod env attempt url c) s e
      (connect-Gives size_mod env attempt url c h)
Step-Linked size_mod env c d (sends_fragment data' binary' fin) h =
    send_fragment-Linked env data' binary' fin c h
Step-Linked size_mod env c d (pings payload) h = ping_peer-Linked env payload c h
Step-Linked size_mod env c d (ends replies code reason d' e) h =
    Gives-some (close_client size_mod env replies code reason c) d e
      (close_client-Gives size_mod env replies code reason c h)
Step-Linked size_mod env c d (meets a d' e) h =
    Gives-some (arrive size_mod env a c) d e (arrive-Gives size_mod env a c h)
Step-Linked size_mod env c d (maintains attempt unstopped d' e) h =
    Gives-some (maintain_turn size_mod env attempt unstopped c) d e
      (turn_in-Gives c.state size_mod env attempt unstopped c h)
Step-Linked size_mod env c d (sets_header key value) h = h
Step-Linked size_mod env c d (sets_heartbeat config) h = h
Step-Linked size_mod env c d (sets_reconnect config) h = h
Step-Linked size_mod env c d (time_passes now) h = h

-- Whatever the application calls, the maintenance task does and the peer sends, in any order: a
-- client that began without a transport, and is disconnected, holds none.
pub Steps-Linked :
    (size_mod : ℕ) (env : Surroundings) (c d : Client)
    → c.transport ≡ false
    → Steps size_mod env c d
    → is_disconnected d.state ≡ true
    → d.transport ≡ false
Steps-Linked size_mod env c d free none_yet idle = free
Steps-Linked size_mod env c d free (and_then b d' before step) idle =
    Step-Linked size_mod env b d step (Steps-Linked size_mod env c b free before) idle
