-- ===== src/Websocket/Client/Receive/Reassembly.antt =====
-- Messages put together from frames: a stream of frames with the messages that it carries, and what
-- a frame of it may do to the client.
use esp_modem_link.Common.{
  ◌≤◌, Bool, true, false, Option, none, some, List, [], ◌∷◌, ◌++◌, map, ◌≡◌, refl, ap,
}
use esp_modem_link.Common.Lists.{Bytes, length}
use esp_modem_link.Websocket.Frame.{
  WsFrame, WsOpcode, continuation, text, binary, ping, pong, max_control_payload,
}
use esp_modem_link.Websocket.Client.{
  Client, Effect, opens, sends, closes, delivers, pongs, reports, tells_connected,
  tells_disconnected, max_message_bytes,
}

-- A message, with whether it is binary.
abbrev pub Message : Type 0
Message = Bytes × Bool

-- The messages that the application was given.
unfoldable pub deliveries : List Effect → List Message
deliveries [] = []
deliveries (delivers message binary' ∷ log) = (message, binary') ∷ deliveries log
deliveries (opens tls host port ∷ log) = deliveries log
deliveries (sends bytes ∷ log) = deliveries log
deliveries (closes ∷ log) = deliveries log
deliveries (pongs payload ∷ log) = deliveries log
deliveries (reports e ∷ log) = deliveries log
deliveries (tells_connected ∷ log) = deliveries log
deliveries (tells_disconnected code reason ∷ log) = deliveries log

abbrev pub frame_of : WsOpcode → Bool → Bytes → WsFrame
frame_of opcode fin payload = record { fin = fin; opcode = opcode; payload = payload }

abbrev pub data_opcode : Bool → WsOpcode
data_opcode true = binary
data_opcode false = text

-- What frames carry while the front of a message is held, or none is. A message is one frame, or a
-- first frame and continuations; pings and pongs stand anywhere.
pub data Stream : Option Message → List WsFrame → List Message → Type 0 where
  ends : (held : Option Message) → Stream held [] []
  single :
      (b : Bool) (payload : Bytes) (fs : List WsFrame) (ms : List Message)
      → Stream none fs ms
      → Stream none (frame_of (data_opcode b) true payload ∷ fs) ((payload, b) ∷ ms)
  first :
      (b : Bool) (payload : Bytes) (fs : List WsFrame) (ms : List Message)
      → Stream (some (payload, b)) fs ms
      → Stream none (frame_of (data_opcode b) false payload ∷ fs) ms
  middle :
      (b : Bool) (front payload : Bytes) (fs : List WsFrame) (ms : List Message)
      → length (front ++ payload) ≤ max_message_bytes
      → Stream (some (front ++ payload, b)) fs ms
      → Stream (some (front, b)) (frame_of continuation false payload ∷ fs) ms
  last :
      (b : Bool) (front payload : Bytes) (fs : List WsFrame) (ms : List Message)
      → length (front ++ payload) ≤ max_message_bytes
      → Stream none fs ms
      → Stream
          (some (front, b))
          (frame_of continuation true payload ∷ fs)
          ((front ++ payload, b) ∷ ms)
  pinged :
      (held : Option Message) (payload : Bytes) (fs : List WsFrame) (ms : List Message)
      → length payload ≤ max_control_payload
      → Stream held fs ms
      → Stream held (frame_of ping true payload ∷ fs) ms
  ponged :
      (held : Option Message) (payload : Bytes) (fs : List WsFrame) (ms : List Message)
      → length payload ≤ max_control_payload
      → Stream held fs ms
      → Stream held (frame_of pong true payload ∷ fs) ms

-- The front of a message that the client holds.
abbrev pub Holds : Option Message → Client → Type 0
Holds none c = c.fragment_open ≡ false
Holds (some (front, b)) c =
    (c.fragment_open ≡ true) × (c.fragment_payload ≡ front) × (c.fragment_binary ≡ b)

-- What a frame of a stream does to the client: it delivers `new`, holds `held`, and leaves alone what
-- the loop over the frames reads.
pub record Handles (c d : Client) (held : Option Message) (new : List Message) : Type 0 where
  pub holds : Holds held d
  pub delivered : deliveries d.log ≡ deliveries c.log ++ new
  pub buffer : d.rx_buffer ≡ c.rx_buffer
  pub done : d.handshake_done ≡ c.handshake_done
  pub listens : d.callbacks.on_message ≡ c.callbacks.on_message

pub deliveries-append :
    (log more : List Effect) → deliveries (log ++ more) ≡ deliveries log ++ deliveries more
unfolding deliveries
deliveries-append [] more = refl
deliveries-append (delivers m b ∷ log) more = ap (◌∷◌ (m, b)) (deliveries-append log more)
deliveries-append (opens _ _ _ ∷ log) more = deliveries-append log more
deliveries-append (sends _ ∷ log) more = deliveries-append log more
deliveries-append (closes ∷ log) more = deliveries-append log more
deliveries-append (pongs _ ∷ log) more = deliveries-append log more
deliveries-append (reports _ ∷ log) more = deliveries-append log more
deliveries-append (tells_connected ∷ log) more = deliveries-append log more
deliveries-append (tells_disconnected _ _ ∷ log) more = deliveries-append log more

pub deliveries-sends : (frames : List Bytes) → deliveries (map sends frames) ≡ []
unfolding deliveries
deliveries-sends [] = refl
deliveries-sends (f ∷ frames) = deliveries-sends frames
