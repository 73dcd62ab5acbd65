-- ===== src/Http/Client/Upload/Once.antt =====
-- That the body of an upload ends once in software_http_client.cpp.
use esp_modem_link.Common.{ℕ, Bool, true, false, not, ◌&&◌, Option, ◌≡◌, refl, ap, ◌∙◌}
use esp_modem_link.Common.Int.{ℤ}
use esp_modem_link.Common.Lists.{Bytes, length}
use esp_modem_link.Common.Tests.{◌==◌, if◌then◌else◌, if-both}
use esp_modem_link.Error.{NetworkError, Result, ok, err}
use esp_modem_link.Http.Parser.{to_size}
use esp_modem_link.Http.Client.{HttpResponse, sends, Client, Surroundings, Ran, then_do, emit}
use esp_modem_link.Http.Client.Arrivals.{wait}
use esp_modem_link.Http.Client.Connection.{drop_transport, or_drop}
use esp_modem_link.Http.Client.Redirects.{is_redirect}
use esp_modem_link.Http.Client.Stream.{is_status_line, await_headers}
use esp_modem_link.Http.Client.Upload.{
  terminator, no_upload_error, answered_early_error, all_sent, send_all, write_piece,
  write_not_open_error, write_closed_error, write, streamed_redirect_error, answer_upload,
  short_terminator_error, end_dropped_error, finish_body, end_not_open_error, end_body,
}
use esp_modem_link.Http.Client.Arrivals.Receives.{wait-Receives}
use esp_modem_link.Http.Client.Linked.{Linked}

-- No body is being written any more.
Over : Ran (Unit {0}) → Type 0
Over r = r.0.upload_active ≡ false

drop_transport-Over : (c : Client) → (drop_transport c).upload_active ≡ false
unfolding drop_transport
drop_transport-Over c = refl

all_sent-Over :
    (size_mod size : ℕ) (short : NetworkError) (answer : Result ℤ) (c : Client)
    → c.upload_active ≡ false
    → Over (all_sent size_mod size short answer c)
unfolding Over all_sent
all_sent-Over size_mod size short (err e) c h = drop_transport-Over c
all_sent-Over size_mod size short (ok n) c h =
    if-both Over (to_size size_mod n == size) (c, ok tt) (drop_transport c, err short) h
      (drop_transport-Over c)

send_all-Over :
    (env : Surroundings) (bytes : Bytes) (gone short : NetworkError) (c : Client)
    → c.upload_active ≡ false
    → Over (send_all env bytes gone short c)
unfolding Over send_all
send_all-Over env bytes gone short c h =
    let answer = env.send c.log bytes in
    let d = emit (sends bytes) c in
    if-both Over c.transport (all_sent env.size_mod (length bytes) short answer d) (c, err gone)
      (all_sent-Over env.size_mod (length bytes) short answer d h) h

answer_upload-Over :
    (head : HttpResponse) (c : Client) → c.upload_active ≡ false → Over (answer_upload head c)
unfolding Over answer_upload
answer_upload-Over head c h =
    if-both Over (c.settings.follow_redirects && is_redirect head.status_code)
      (drop_transport c, err (streamed_redirect_error head.status_code)) (c, ok tt)
      (drop_transport-Over c) h

wait-active : (env : Surroundings) (c : Client) → (wait env c).upload_active ≡ c.upload_active
wait-active env c = ap (λ (d : Client). d.upload_active) (wait-Receives env c).same

answered-Over :
    (r : Ran HttpResponse) → r.0.upload_active ≡ false → Over (then_do (or_drop r) answer_upload)
unfolding Over
answered-Over (c, ok head) h = answer_upload-Over head c h
answered-Over (c, err e) h = drop_transport-Over c

ended-Over :
    (env : Surroundings) (r : Ran (Unit {0}))
    → Over r
    → Over (then_do r (λ u d. then_do (or_drop (await_headers env d)) answer_upload))
unfolding Over await_headers
ended-Over env (c, err e) h = h
ended-Over env (c, ok u) h = answered-Over (await_headers env c) (wait-active env c ∙ h)

-- The two gates of `Write` and `EndBody`.
gates {ℓ κ} :
    {A : Type ℓ} (P : A → Type κ) (chunked active : Bool) (x y z : A)
    → (active ≡ true → chunked ≡ true)
    → (active ≡ false → P x)
    → (active ≡ false → P y)
    → (active ≡ true → P z)
    → P (if not chunked then x else if not active then y else z)
gates P true true x y z g hx hy hz = hz refl
gates P true false x y z g hx hy hz = hy refl
gates P false false x y z g hx hy hz = hx refl
gates P false true x y z g hx hy hz = absurd (let e = g refl in cc)

end_body-Over : (env : Surroundings) (c : Client) → Linked c → Over (end_body env c)
unfolding Over end_body finish_body
end_body-Over env c linked =
    let d = record c { upload_active = false } in
    gates Over c.upload_chunked c.upload_active
      (c, err (end_not_open_error c.settings.chunked_upload)) (c, err no_upload_error)
      (finish_body env d) (λ e. (linked.1 e).1) (λ e. e) (λ e. e)
      (λ e.
        ended-Over env (send_all env terminator end_dropped_error short_terminator_error d)
          (send_all-Over env terminator end_dropped_error short_terminator_error d refl))

end_body-refused :
    (env : Surroundings) (c : Client) → c.upload_active ≡ false → (end_body env c).0 ≡ c
unfolding end_body
end_body-refused env c over =
    gates (λ (r : Ran (Unit {0})). r.0 ≡ c) c.upload_chunked c.upload_active
      (c, err (end_not_open_error c.settings.chunked_upload)) (c, err no_upload_error)
      (finish_body env (record c { upload_active = false })) (λ e. absurd (cc)) (λ e. refl)
      (λ e. refl) (λ e. absurd (cc))

write-refused :
    (env : Surroundings) (buffer : Option Bytes) (size : ℕ) (c : Client)
    → c.upload_active ≡ false
    → (write env buffer size c).0 ≡ c
unfolding write
write-refused env buffer size c over =
    let early : Ran ℕ =
      (record c { upload_active = false }, err (answered_early_error c.parser.status_code)) in
    gates (λ (r : Ran ℕ). r.0 ≡ c) c.upload_chunked c.upload_active
      (c, err (write_not_open_error c.settings.chunked_upload)) (c, err no_upload_error)
      (if c.is_closed
        then (c, err write_closed_error)
        else if not (is_status_line c.parser.state)
        then early
        else write_piece env buffer size c)
      (λ e. absurd (cc)) (λ e. refl) (λ e. refl) (λ e. absurd (cc))

-- A body ends once, in a client of which a chunked body that is being written has a transport and the
-- framing of chunks, and a connection a transport: behind `EndBody`, whatever came of it, a second
-- `EndBody` and a `Write` of anything send nothing and change nothing.
pub end_body-once :
    (env later : Surroundings) (buffer : Option Bytes) (size : ℕ) (c : Client)
    → Linked c
    → let d = (end_body env c).0 in ((end_body later d).0 ≡ d) × ((write later buffer size d).0 ≡ d)
unfolding Over
end_body-once env later buffer size c linked =
    let over = end_body-Over env c linked in
    (
      end_body-refused later (end_body env c).0 over,
      write-refused later buffer size (end_body env c).0 over,
    )
