-- ===== src/Websocket/Client/Sends.antt =====
-- What sending a frame leaves of the client.
use esp_modem_link.Common.{
  ℕ, suc, Bool, true, false, some, List, [], ◌∷◌, ◌++◌, map, append-nil, ◌≡◌, refl, sym, ap, ◌∙◌,
}
use esp_modem_link.Common.Lists.{Bytes}
use esp_modem_link.Common.Tests.{if◌then◌else◌}
use esp_modem_link.Error.{Result, ok, err}
use esp_modem_link.Websocket.Frame.{
  WsOpcode, encode_frame, frame_bytes, append_masked, masked_from, frame_header, length_field,
  big_endian,
}
use esp_modem_link.Websocket.Client.{
  Client, Surroundings, Sending, Effect, sends, send_frame, send_encoded, send_answer,
  not_connected_error, send_ping, ping_sent,
}

-- Only the random numbers, the time of the last frame and what was sent may change.
pub record Sends (c d : Client) : Type 0 where
  pub drawn : ℕ
  pub at : ℕ
  pub frames : List Bytes
  pub same : d ≡ record c { draws = drawn; last_sent_ms = at; log = c.log ++ map sends frames }

-- Nothing was sent, but a key may have been drawn.
unsent : (drawn : ℕ) (c : Client) → Sends c (record c { draws = drawn })
unsent drawn c = record {
  drawn = drawn;
  at = c.last_sent_ms;
  frames = [];
  same = ap (λ (l : List Effect). record c { draws = drawn; log = l }) (sym (append-nil c.log));
}

send_answer-Sends :
    (answer : Result (Unit {0})) (bytes : Bytes) (drawn : ℕ) (c : Client)
    → Sends c
        (send_answer answer (record c { draws = drawn; log = c.log ++ sends bytes ∷ [] })).client
unfolding send_answer
send_answer-Sends (ok u) bytes drawn c = record {
  drawn = drawn;
  at = c.clock;
  frames = bytes ∷ [];
  same = refl;
}
send_answer-Sends (err e) bytes drawn c = record {
  drawn = drawn;
  at = c.last_sent_ms;
  frames = bytes ∷ [];
  same = refl;
}

offered-Sends :
    (transport : Bool) (answer : Result (Unit {0})) (bytes : Bytes) (drawn : ℕ) (c : Client)
    → Sends c
        (if transport
          then send_answer answer (record c { draws = drawn; log = c.log ++ sends bytes ∷ [] })
          else record {
            client = record c { draws = drawn };
            result = err not_connected_error;
          }).client
offered-Sends true answer bytes drawn c = send_answer-Sends answer bytes drawn c
offered-Sends false answer bytes drawn c = unsent drawn c

send_encoded-Sends :
    (env : Surroundings) (encoded : Result Bytes) (drawn : ℕ) (c : Client)
    → Sends c (send_encoded env encoded (record c { draws = drawn })).client
unfolding send_encoded
send_encoded-Sends env (err e) drawn c = unsent drawn c
send_encoded-Sends env (ok bytes) drawn c =
    offered-Sends c.transport (env.answer c.log bytes) bytes drawn c

-- Sending a frame.
pub send_frame-Sends :
    (env : Surroundings) (opcode : WsOpcode) (payload : Bytes) (fin : Bool) (c : Client)
    → Sends c (send_frame env opcode payload fin c).client
unfolding send_frame
send_frame-Sends env opcode payload fin c =
    send_encoded-Sends env (encode_frame opcode payload fin (some (env.random c.draws)))
      (suc c.draws) c

-- A transport that takes every byte string.
abbrev pub Takes : Surroundings → Type 0
Takes env = (log : List Effect) (bytes : Bytes) → env.answer log bytes ≡ ok tt

-- The six bytes of an empty ping: a whole frame with the opcode 9, masked, of no length, and its key.
abbrev pub ping_frame : ℕ → Bytes
ping_frame key = 0x89 ∷ 0x80 ∷ big_endian 4 key

-- An empty ping over a transport that takes it.
pub send_ping_ok :
    (env : Surroundings) (c : Client)
    → c.transport ≡ true
    → Takes env
    → send_ping env [] c ≡ record {
      client = record c {
        draws = suc c.draws;
        last_sent_ms = c.clock;
        ping_sent_ms = c.clock;
        log = c.log ++ sends (ping_frame (env.random c.draws)) ∷ [];
      };
      result = ok tt;
    }
unfolding send_ping ping_sent send_frame send_encoded send_answer encode_frame frame_bytes
    append_masked masked_from frame_header length_field big_endian
send_ping_ok env c up takes =
    let frame = ping_frame (env.random c.draws) in
    let drawn = record c { draws = suc c.draws } in
    let noted : Sending → Sending = λ s. ping_sent s.result s.client in
    ap
      (λ (b : Bool). noted (
        if b
        then send_answer (env.answer c.log frame) (record drawn { log = c.log ++ sends frame ∷ [] })
        else record { client = drawn; result = err not_connected_error }))
      up
    ∙ ap
        (λ (r : Result (Unit {0})).
          noted (send_answer r (record drawn { log = c.log ++ sends frame ∷ [] })))
        (takes c.log frame)
