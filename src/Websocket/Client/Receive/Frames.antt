-- ===== src/Websocket/Client/Receive/Frames.antt =====
-- What the client makes of each frame of a stream.
use esp_modem_link.Common.{
  ℕ, ◌≤◌, Bool, true, false, Option, none, some, List, [], ◌∷◌, ◌++◌, map, append-nil, ◌≡◌, refl,
  sym, ap₂, ap, ◌∙◌, arith,
}
use mathlib.Core.Path.{subst}
use esp_modem_link.Common.Lists.{Bytes, length}
use esp_modem_link.Websocket.Frame.{continuation, ping, pong}
use esp_modem_link.Websocket.Client.{
  Client, Surroundings, Effect, sends, delivers, pongs, emit, emit_if, max_message_bytes,
}
use esp_modem_link.Websocket.Client.Sends.{send_frame-Sends}
use esp_modem_link.Websocket.Client.Receive.{
  take_data, data_taken, continue_message, handle_data_frame, handle_opcode, handle_frame,
}
use esp_modem_link.Websocket.Client.Receive.Reassembly.{
  Message, deliveries, deliveries-append, deliveries-sends, frame_of, data_opcode, Holds, Handles,
}

-- A data frame of a message of its own.
handles-single :
    (env : Surroundings) (b : Bool) (payload : Bytes) (c : Client)
    → Holds none c
    → c.callbacks.on_message ≡ true
    → handle_frame env (frame_of (data_opcode b) true payload) c ≡ emit (delivers payload b) c
unfolding handle_frame handle_opcode handle_data_frame take_data data_taken
handles-single env true payload c idle set = ground arith
handles-single env false payload c idle set = ground arith

handles-first :
    (env : Surroundings) (b : Bool) (payload : Bytes) (c : Client)
    → Holds none c
    → handle_frame env (frame_of (data_opcode b) false payload) c
      ≡ record c { fragment_open = true; fragment_binary = b; fragment_payload = payload }
unfolding handle_frame handle_opcode handle_data_frame take_data data_taken
handles-first env true payload c idle = ground arith
handles-first env false payload c idle = ground arith

handles-middle :
    (env : Surroundings) (payload : Bytes) (c : Client)
    → c.fragment_open ≡ true
    → length (c.fragment_payload ++ payload) ≤ max_message_bytes
    → handle_frame env (frame_of continuation false payload) c
      ≡ record c { fragment_payload = c.fragment_payload ++ payload }
unfolding handle_frame handle_opcode handle_data_frame take_data continue_message data_taken
handles-middle env payload c held fits = ground arith

handles-last :
    (env : Surroundings) (payload : Bytes) (c : Client)
    → c.fragment_open ≡ true
    → length (c.fragment_payload ++ payload) ≤ max_message_bytes
    → c.callbacks.on_message ≡ true
    → handle_frame env (frame_of continuation true payload) c
      ≡ emit
          (delivers (c.fragment_payload ++ payload) c.fragment_binary)
          (record c { fragment_payload = []; fragment_open = false })
unfolding handle_frame handle_opcode handle_data_frame take_data continue_message data_taken
handles-last env payload c held fits set = ground arith

Holds-with :
    (held : Option Message) (c : Client) (n t : ℕ) (log : List Effect)
    → Holds held c
    → Holds held (record c { draws = n; last_sent_ms = t; log = log })
Holds-with none c n t log h = h
Holds-with (some m) c n t log h = h

pub Handles-ping :
    (env : Surroundings) (held : Option Message) (payload : Bytes) (c : Client)
    → Holds held c
    → Handles c (handle_frame env (frame_of ping true payload) c) held []
unfolding handle_frame handle_opcode
Handles-ping env held payload c h =
    let s = send_frame-Sends env pong payload true c in
    let after = record c {
      draws = s.drawn;
      last_sent_ms = s.at;
      log = c.log ++ map sends s.frames;
    } in
    let quiet : Handles c after held [] = record {
      holds = Holds-with held c s.drawn s.at (c.log ++ map sends s.frames) h;
      delivered =
          deliveries-append c.log (map sends s.frames)
          ∙ ap (λ (m : List Message). deliveries c.log ++ m) (deliveries-sends s.frames);
      buffer = refl;
      done = refl;
      listens = refl;
    } in
    subst (λ (d : Client). Handles c d held []) (sym s.same) quiet

Holds-ping_sent :
    (held : Option Message) (c : Client) (t : ℕ) (log : List Effect)
    → Holds held c
    → Holds held (record c { ping_sent_ms = t; log = log })
Holds-ping_sent none c t log h = h
Holds-ping_sent (some m) c t log h = h

Handles-emit_if :
    (set : Bool) (held : Option Message) (payload : Bytes) (c : Client)
    → Holds held c
    → Handles c (emit_if set (pongs payload) (record c { ping_sent_ms = 0 })) held []
unfolding deliveries
Handles-emit_if true held payload c h = record {
  holds = Holds-ping_sent held c 0 (c.log ++ pongs payload ∷ []) h;
  delivered = deliveries-append c.log (pongs payload ∷ []);
  buffer = refl;
  done = refl;
  listens = refl;
}
Handles-emit_if false held payload c h = record {
  holds = Holds-ping_sent held c 0 c.log h;
  delivered = sym (append-nil (deliveries c.log));
  buffer = refl;
  done = refl;
  listens = refl;
}

pub Handles-pong :
    (env : Surroundings) (held : Option Message) (payload : Bytes) (c : Client)
    → Holds held c
    → Handles c (handle_frame env (frame_of pong true payload) c) held []
unfolding handle_frame handle_opcode
Handles-pong env held payload c h = Handles-emit_if c.callbacks.on_pong held payload c h

pub Handles-single :
    (env : Surroundings) (b : Bool) (payload : Bytes) (c : Client)
    → Holds none c
    → c.callbacks.on_message ≡ true
    → Handles c
        (handle_frame env (frame_of (data_opcode b) true payload) c)
        none
        ((payload, b) ∷ [])
unfolding deliveries
Handles-single env b payload c idle set =
    subst (λ (d : Client). Handles c d none ((payload, b) ∷ []))
      (sym (handles-single env b payload c idle set))
      (record {
        holds = idle;
        delivered = deliveries-append c.log (delivers payload b ∷ []);
        buffer = refl;
        done = refl;
        listens = refl;
      })

pub Handles-first :
    (env : Surroundings) (b : Bool) (payload : Bytes) (c : Client)
    → Holds none c
    → Handles c (handle_frame env (frame_of (data_opcode b) false payload) c) (some (payload, b)) []
Handles-first env b payload c idle =
    subst (λ (d : Client). Handles c d (some (payload, b)) [])
      (sym (handles-first env b payload c idle))
      (record {
        holds = (refl, refl, refl);
        delivered = sym (append-nil (deliveries c.log));
        buffer = refl;
        done = refl;
        listens = refl;
      })

pub Handles-middle :
    (env : Surroundings) (b : Bool) (front payload : Bytes) (c : Client)
    → Holds (some (front, b)) c
    → length (front ++ payload) ≤ max_message_bytes
    → Handles c
        (handle_frame env (frame_of continuation false payload) c)
        (some (front ++ payload, b))
        []
Handles-middle env b front payload c (held, front', kind) fits =
    let joined : c.fragment_payload ++ payload ≡ front ++ payload =
      ap (λ (f : Bytes). f ++ payload) front' in
    subst (λ (d : Client). Handles c d (some (front ++ payload, b)) [])
      (sym (handles-middle env payload c held (omega (arith, ap length joined))))
      (record {
        holds = (held, joined, kind);
        delivered = sym (append-nil (deliveries c.log));
        buffer = refl;
        done = refl;
        listens = refl;
      })

pub Handles-last :
    (env : Surroundings) (b : Bool) (front payload : Bytes) (c : Client)
    → Holds (some (front, b)) c
    → length (front ++ payload) ≤ max_message_bytes
    → c.callbacks.on_message ≡ true
    → Handles c
        (handle_frame env (frame_of continuation true payload) c)
        none
        ((front ++ payload, b) ∷ [])
unfolding deliveries
Handles-last env b front payload c (held, front', kind) fits set =
    let joined : c.fragment_payload ++ payload ≡ front ++ payload =
      ap (λ (f : Bytes). f ++ payload) front' in
    subst (λ (d : Client). Handles c d none ((front ++ payload, b) ∷ []))
      (sym (handles-last env payload c held (omega (arith, ap length joined)) set))
      (record {
        holds = refl;
        delivered =
            deliveries-append c.log
              (delivers (c.fragment_payload ++ payload) c.fragment_binary ∷ [])
            ∙ ap₂ (λ (p : Bytes) (k : Bool). deliveries c.log ++ (p, k) ∷ []) joined kind;
        buffer = refl;
        done = refl;
        listens = refl;
      })
