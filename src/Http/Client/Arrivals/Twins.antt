-- ===== src/Http/Client/Arrivals/Twins.antt =====
-- The two ways in which software_http_client.cpp takes in a body: buffered for `Execute`, and pending
-- for `Read`.
use esp_modem_link.Common.{
  ℕ, Bool, true, false, Option, none, some, List, [], ◌∷◌, ◌++◌, ◌≡◌, refl, ap, ◌∙◌,
}
use esp_modem_link.Common.Lists.{Bytes}
use esp_modem_link.Common.Tests.{if◌then◌else◌}
use esp_modem_link.Error.{Result, ok, err}
use esp_modem_link.Http.Parser.{Step}
use esp_modem_link.Http.Parser.Feed.{feed}
use esp_modem_link.Http.Client.{Arrival, data', closed, failed, Client}
use esp_modem_link.Http.Client.Arrivals.{
  handle_body, handle_pieces, note_error, fed, is_complete, on_transport_data, on_transport_closed,
  on_transport_error, arrive, arrive_all,
}

-- A client that streams, and one that buffers, with the same body so far.
abbrev pub streams : Bytes → Client → Client
streams body c = record c { streaming = true; pending = body }

abbrev pub buffers : Bytes → Client → Client
buffers body c = record c { streaming = false; response = record c.response { body = body } }

-- Two clients that differ as these two do.
abbrev pub Twins : Client → Client → Type 0
Twins s b = (body : Bytes) × (c : Client) × (s ≡ streams body c) × (b ≡ buffers body c)

-- A callback that treats the twins alike.
abbrev Alike : (Client → Client) → Type 0
Alike f = (body : Bytes) (c : Client) → Twins (f (streams body c)) (f (buffers body c))

handle_pieces-Alike : (pieces : List Bytes) → Alike (handle_pieces pieces)
unfolding handle_pieces handle_body
handle_pieces-Alike [] body c = (body, c, refl, refl)
handle_pieces-Alike (piece ∷ pieces) body c = handle_pieces-Alike pieces (body ++ piece) c

note_error-Alike : (result : Result ℕ) → Alike (note_error result)
unfolding note_error
note_error-Alike (ok n) body c = (body, c, refl, refl)
note_error-Alike (err e) body c = (body, note_error (err e) c, refl, refl)

both-Alike : (f g : Client → Client) → Alike f → Alike g → Alike (λ c. g (f c))
both-Alike f g hf hg body c =
    let (body', d, es, eb) = hf body c in
    let (body'', e, fs, fb) = hg body' d in (body'', e, ap g es ∙ fs, ap g eb ∙ fb)

fed-Alike : (s : Option Step) → Alike (fed s)
unfolding fed
fed-Alike none body c = (body, c, refl, refl)
fed-Alike (some (p, result)) body c =
    both-Alike (handle_pieces p.emitted) (note_error result) (handle_pieces-Alike p.emitted)
      (note_error-Alike result) body (record c { parser = record p { emitted = [] } })

if-Alike :
    (b : Bool) (f : Client → Client)
    → Alike f
    → (body : Bytes) (c : Client)
    → Twins
        (if b then streams body c else f (streams body c))
        (if b then buffers body c else f (buffers body c))
if-Alike true f h body c = (body, c, refl, refl)
if-Alike false f h body c = h body c

arrive-Alike : (size_mod : ℕ) (a : Arrival) → Alike (arrive size_mod a)
unfolding arrive on_transport_data on_transport_closed on_transport_error
arrive-Alike size_mod (data' bytes) body c =
    let s = feed size_mod c.parser bytes in
    if-Alike (is_complete c.parser.state) (fed s) (fed-Alike s) body c
arrive-Alike size_mod closed body c = (body, on_transport_closed c, refl, refl)
arrive-Alike size_mod (failed e) body c = (body, on_transport_error e c, refl, refl)

arrive_all-Alike : (size_mod : ℕ) (arrivals : List Arrival) → Alike (arrive_all size_mod arrivals)
unfolding arrive_all
arrive_all-Alike size_mod [] body c = (body, c, refl, refl)
arrive_all-Alike size_mod (a ∷ rest) body c =
    both-Alike (arrive size_mod a) (arrive_all size_mod rest) (arrive-Alike size_mod a)
      (arrive_all-Alike size_mod rest) body c

-- Whatever comes in, in whatever pieces: the bytes that wait for `Read` in a streaming client are the
-- bytes of the body that `Execute` would have buffered, and the parser, the noted error and the word
-- that the peer has closed are the same for both.
pub arrive_all-streams :
    (size_mod : ℕ) (arrivals : List Arrival) (body : Bytes) (c : Client)
    → let s = arrive_all size_mod arrivals (streams body c) in
      let b = arrive_all size_mod arrivals (buffers body c) in
      (s.pending ≡ b.response.body)
      × (s.parser ≡ b.parser)
      × (s.parse_failed ≡ b.parse_failed)
      × (s.parse_error ≡ b.parse_error)
      × (s.is_closed ≡ b.is_closed)
arrive_all-streams size_mod arrivals body c =
    let (body', d, es, eb) = arrive_all-Alike size_mod arrivals body c in
    rw (es, eb) (refl, refl, refl, refl, refl)
