-- ===== src/Http/Client/Requests.antt =====
-- What a call of the client in software_http_client.cpp sends: the settings it leaves, and the byte
-- strings that it gives to the transport.
use esp_modem_link.Common.{
  ℕ, ◌+◌, ◌≤◌, Bool, true, false, List, [], ◌∷◌, ◌++◌, append_assoc, append-nil, arith, ◌≡◌, refl,
  sym, ap, ◌∙◌,
}
use esp_modem_link.Common.Int.{ℤ}
use esp_modem_link.Common.Lists.{Bytes, All, All-append, length, length-append}
use esp_modem_link.Common.Tests.{if-both, if◌then◌else◌}
use esp_modem_link.Error.{Result, ok, err}
use esp_modem_link.Http.Url.{ParsedUrl}
use esp_modem_link.Http.Client.{
  Client, RequestState, Ran, Surroundings, Effect, creates, connects, sends, disconnects, emit,
  then_do, default_tls_config,
}
use esp_modem_link.Http.Client.Arrivals.{wait}
use esp_modem_link.Http.Client.Arrivals.Receives.{wait-Receives}
use esp_modem_link.Http.Client.Connection.{
  drop_transport, reusable, connect_answer, create_answer, open_connection, ensure_connected,
}
use esp_modem_link.Http.Client.Start.{
  clear_exchange, rendered, send_answer, send_request, start_request, upload_open_error,
}

-- The byte strings that were given to the transport.
abbrev pub sent : List Effect → List Bytes
sent [] = []
sent (sends bytes ∷ es) = bytes ∷ sent es
sent (creates tls config ∷ es) = sent es
sent (connects host port ∷ es) = sent es
sent (disconnects ∷ es) = sent es

sent-append : (es fs : List Effect) → sent (es ++ fs) ≡ sent es ++ sent fs
sent-append [] fs = refl
sent-append (sends bytes ∷ es) fs = ap (◌∷◌ bytes) (sent-append es fs)
sent-append (creates tls config ∷ es) fs = sent-append es fs
sent-append (connects host port ∷ es) fs = sent-append es fs
sent-append (disconnects ∷ es) fs = sent-append es fs

-- From `c` to `d` at most `n` byte strings are sent, which are all as `P` says.
pub record Sends {ℓ} (P : Bytes → Type ℓ) (n : ℕ) (c d : Client) : Type ℓ where
  pub same : d.settings ≡ c.settings
  pub effects : List Effect
  pub logged : d.log ≡ c.log ++ effects
  pub at_most : length (sent effects) ≤ n
  pub each : All P (sent effects)

module _ {ℓ} (P : Bytes → Type ℓ) where
  -- Another client with the same settings and log.
  pub quiet : (c d : Client) → d.settings ≡ c.settings → d.log ≡ c.log → Sends P 0 c d
  quiet c d same logged = record {
    same = same;
    effects = [];
    logged = logged ∙ sym (append-nil c.log);
    at_most = omega arith;
    each = tt;
  }

  pub then_sends : (n m : ℕ) (c d e : Client) → Sends P n c d → Sends P m d e → Sends P (n + m) c e
  then_sends n m c d e h k = record {
    same = k.same ∙ h.same;
    effects = h.effects ++ k.effects;
    logged =
        k.logged
        ∙ ap (λ (l : List Effect). l ++ k.effects) h.logged
        ∙ append_assoc c.log h.effects k.effects;
    at_most =
        let count = ap length (sent-append h.effects k.effects) in
        let sum = length-append (sent h.effects) (sent k.effects) in
        omega (arith, h.at_most, k.at_most, count, sum);
    each =
        rw (sent-append h.effects k.effects)
          (All-append P (sent h.effects) (sent k.effects) h.each k.each);
  }

  pub widen : (n m : ℕ) (c d : Client) → n ≤ m → Sends P n c d → Sends P m c d
  widen n m c d le h = record {
    same = h.same;
    effects = h.effects;
    logged = h.logged;
    at_most = omega (arith, h.at_most, le);
    each = h.each;
  }

  -- A call of the transport or of the factory that sends nothing.
  silent :
      (e : Effect) (c d : Client)
      → sent (e ∷ []) ≡ []
      → d.settings ≡ c.settings
      → d.log ≡ c.log ++ e ∷ []
      → Sends P 0 c d
  silent e c d none_sent same logged = record {
    same = same;
    effects = e ∷ [];
    logged = logged;
    at_most = rw none_sent (omega arith);
    each = rw none_sent tt;
  }

  dropped-Sends :
      (b : Bool) (c : Client)
      → let d = if b then emit disconnects c else c in
        Sends P 0 c (record d {
          transport = false;
          connected = false;
          upload_active = false;
          upload_chunked = false;
        })
  dropped-Sends true c =
      silent disconnects c
        (record c {
          transport = false;
          connected = false;
          upload_active = false;
          upload_chunked = false;
          log = c.log ++ disconnects ∷ [];
        })
        refl refl refl
  dropped-Sends false c =
      quiet c
        (record c {
          transport = false;
          connected = false;
          upload_active = false;
          upload_chunked = false;
        })
        refl refl

  pub drop_transport-Sends : (c : Client) → Sends P 0 c (drop_transport c)
  unfolding drop_transport
  drop_transport-Sends c = dropped-Sends c.transport c

  connect_answer-Sends :
      (url : ParsedUrl) (answer : Result (Unit {0})) (c : Client)
      → Sends P 0 c (connect_answer url answer c).0
  unfolding connect_answer
  connect_answer-Sends url (err e) c = drop_transport-Sends c
  connect_answer-Sends url (ok u) c = quiet c (connect_answer url (ok u) c).0 refl refl

  create_answer-Sends :
      (env : Surroundings) (url : ParsedUrl) (answer : Result (Unit {0})) (c : Client)
      → Sends P 0 c (create_answer env url answer c).0
  unfolding create_answer
  create_answer-Sends env url (err e) c = quiet c c refl refl
  create_answer-Sends env url (ok u) c =
      let d = emit (connects url.host url.port) (record c { transport = true }) in
      then_sends 0 0 c d (connect_answer url (env.connect c.log url.host url.port) d).0
        (silent (connects url.host url.port) c d refl refl refl)
        (connect_answer-Sends url (env.connect c.log url.host url.port) d)

  open_connection-Sends :
      (env : Surroundings) (url : ParsedUrl) (c : Client)
      → Sends P 0 c (open_connection env url c).0
  unfolding open_connection
  open_connection-Sends env url c =
      let config = if url.tls then c.settings.tls else default_tls_config in
      let d = emit (creates url.tls config) c in
      then_sends 0 0 c d (create_answer env url (env.create c.log url.tls config) d).0
        (silent (creates url.tls config) c d refl refl refl)
        (create_answer-Sends env url (env.create c.log url.tls config) d)

  ensure_connected-Sends :
      (env : Surroundings) (url : ParsedUrl) (c : Client)
      → Sends P 0 c (ensure_connected env url c).0
  unfolding ensure_connected
  ensure_connected-Sends env url c =
      let d = drop_transport c in
      if-both (λ (r : Ran (Unit {0})). Sends P 0 c r.0) (reusable url c) (c, ok tt)
        (open_connection env url d) (quiet c c refl refl)
        (then_sends 0 0 c d (open_connection env url d).0 (drop_transport-Sends c)
          (open_connection-Sends env url d))

  send_answer-Sends : (answer : Result ℤ) (c : Client) → Sends P 0 c (send_answer answer c).0
  unfolding send_answer
  send_answer-Sends (err e) c = drop_transport-Sends c
  send_answer-Sends (ok n) c = quiet c c refl refl

  send_request-Sends :
      (env : Surroundings) (request : RequestState) (chunked : Bool) (c : Client)
      → P (rendered c.settings request chunked)
      → Sends P 1 c (send_request env request chunked c).0
  unfolding send_request
  send_request-Sends env request chunked c h =
      let bytes = rendered c.settings request chunked in
      let d = emit (sends bytes) c in
      then_sends 1 0 c d (send_answer (env.send c.log bytes) d).0
        (record {
          same = refl;
          effects = sends bytes ∷ [];
          logged = refl;
          at_most = omega arith;
          each = (h, tt);
        })
        (send_answer-Sends (env.send c.log bytes) d)

  -- A call behind one that sends nothing of its own.
  pub then_do-Sends {κ μ} :
      {A : Type κ} {B : Type μ} (n m : ℕ) (c : Client) (r : Ran A) (f : A → Client → Ran B)
      → Sends P n c r.0
      → ((a : A) (d : Client) → d.settings ≡ c.settings → Sends P m d (f a d).0)
      → Sends P (n + m) c (then_do r f).0
  then_do-Sends n m c (d, ok a) f h k = then_sends n m c d (f a d).0 h (k a d h.same)
  then_do-Sends n m c (d, err e) f h k = widen n (n + m) c d (omega arith) h

  pub wait-Sends : (env : Surroundings) (c : Client) → Sends P 0 c (wait env c)
  wait-Sends env c =
      let h = wait-Receives env c in
      quiet c (wait env c) (ap (λ (d : Client). d.settings) h.same)
        (ap (λ (d : Client). d.log) h.same)

  -- A request that starts is sent once, as it is rendered.
  pub start_request-Sends :
      (env : Surroundings) (request : RequestState) (chunked : Bool) (c : Client)
      → P (rendered c.settings request chunked)
      → Sends P 1 c (start_request env request chunked c).0
  unfolding start_request clear_exchange
  start_request-Sends env request chunked c h =
      let begin : Unit {0} → Client → Ran (Unit {0}) =
        λ u d. send_request env request chunked (clear_exchange d) in
      let begun = then_do (ensure_connected env request.url c) begin in
      if-both (λ (r : Ran (Unit {0})). Sends P 1 c r.0) c.upload_active (c, err upload_open_error)
        begun (widen 0 1 c c (omega arith) (quiet c c refl refl))
        (then_do-Sends 0 1 c (ensure_connected env request.url c) begin
          (ensure_connected-Sends env request.url c)
          (λ u d same.
            then_sends 0 1 d (clear_exchange d) (begin u d).0 (quiet d (clear_exchange d) refl refl)
              (send_request-Sends env request chunked (clear_exchange d) (rw same h))))
