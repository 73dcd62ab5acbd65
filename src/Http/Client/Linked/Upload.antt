-- ===== src/Http/Client/Linked/Upload.antt =====
-- The flags of the client in software_http_client.cpp, over the body of an upload, and over every
-- sequence of operations and callbacks.
use esp_modem_link.Common.{ℕ, zero, suc, false, not, ◌&&◌, Option, none, some, [], ◌∷◌}
use esp_modem_link.Common.Int.{ℤ, int_max}
use esp_modem_link.Common.Lists.{Bytes, length}
use esp_modem_link.Common.Tests.{◌==◌, ltb, if◌then◌else◌, if-both}
use esp_modem_link.Error.{NetworkError, Result, ok, err}
use esp_modem_link.Http.Parser.{to_size}
use esp_modem_link.Http.Client.{
  HttpResponse, sends, Arrival, Settings, Client, Surroundings, Ran, then_do, emit,
}
use esp_modem_link.Http.Client.Arrivals.{arrive}
use esp_modem_link.Http.Client.Connection.{drop_transport, or_drop}
use esp_modem_link.Http.Client.Redirects.{is_redirect}
use esp_modem_link.Http.Client.Execute.{execute}
use esp_modem_link.Http.Client.Stream.{is_status_line, await_headers, open_stream, read, close}
use esp_modem_link.Http.Client.Upload.{
  chunk_frame, terminator, no_upload_error, answered_early_error, all_sent, short_chunk_error,
  send_all, chunk_too_large_error, write_dropped_error, write_piece, write_not_open_error,
  write_closed_error, write, streamed_redirect_error, answer_upload, short_terminator_error,
  end_dropped_error, finish_body, end_not_open_error, end_body,
}
use esp_modem_link.Http.Client.Arrivals.Receives.{arrive-Receives}
use esp_modem_link.Http.Client.Linked.{
  Linked, RunLinked, then_do-Linked, Receives-Linked, drop_transport-Linked, or_drop-Linked,
}
use esp_modem_link.Http.Client.Linked.Execute.{LoopLinked, execute-Linked}
use esp_modem_link.Http.Client.Linked.Stream.{
  await_headers-Linked, open_stream-Linked, read-Linked, close-Linked,
}

all_sent-Linked :
    (size_mod size : ℕ) (short : NetworkError) (answer : Result ℤ) (c : Client)
    → Linked c
    → Linked (all_sent size_mod size short answer c).0
unfolding all_sent
all_sent-Linked size_mod size short (err e) c h = drop_transport-Linked c
all_sent-Linked size_mod size short (ok n) c h =
    if-both RunLinked (to_size size_mod n == size) (c, ok tt) (drop_transport c, err short) h
      (drop_transport-Linked c)

send_all-Linked :
    (env : Surroundings) (bytes : Bytes) (gone short : NetworkError) (c : Client)
    → Linked c
    → Linked (send_all env bytes gone short c).0
unfolding send_all
send_all-Linked env bytes gone short c h =
    let answer = env.send c.log bytes in
    let d = emit (sends bytes) c in
    if-both RunLinked c.transport (all_sent env.size_mod (length bytes) short answer d)
      (c, err gone) (all_sent-Linked env.size_mod (length bytes) short answer d h) h

write_piece-Linked :
    (env : Surroundings) (buffer : Option Bytes) (size : ℕ) (c : Client)
    → Linked c
    → Linked (write_piece env buffer size c).0
unfolding write_piece
write_piece-Linked env none zero c h = h
write_piece-Linked env none (suc size) c h = h
write_piece-Linked env (some []) size c h = h
write_piece-Linked env (some (b ∷ bs)) size c h =
    let piece = b ∷ bs in
    let frame = chunk_frame piece in
    let framed = send_all env frame write_dropped_error short_chunk_error c in
    let count : Unit {0} → Client → Ran ℕ = λ u d. (d, ok (length piece)) in
    if-both RunLinked (ltb int_max (length piece)) (c, err chunk_too_large_error)
      (then_do framed count) h
      (then_do-Linked framed count
        (send_all-Linked env frame write_dropped_error short_chunk_error c h) (λ u d k. k))

write-Linked :
    (env : Surroundings) (buffer : Option Bytes) (size : ℕ) (c : Client)
    → Linked c
    → Linked (write env buffer size c).0
unfolding write
write-Linked env buffer size c h =
    let piece = write_piece env buffer size c in
    let early : Ran ℕ =
      (record c { upload_active = false }, err (answered_early_error c.parser.status_code)) in
    let answered = if not (is_status_line c.parser.state) then early else piece in
    let going = if c.is_closed then (c, err write_closed_error) else answered in
    if-both RunLinked (not c.upload_chunked)
      (c, err (write_not_open_error c.settings.chunked_upload))
      (if not c.upload_active then (c, err no_upload_error) else going) h
      (if-both RunLinked (not c.upload_active) (c, err no_upload_error) going h
        (if-both RunLinked c.is_closed (c, err write_closed_error) answered h
          (if-both RunLinked (not (is_status_line c.parser.state)) early piece (h.0, λ e. cc)
            (write_piece-Linked env buffer size c h))))

answer_upload-Linked :
    (head : HttpResponse) (c : Client) → Linked c → Linked (answer_upload head c).0
unfolding answer_upload
answer_upload-Linked head c h =
    if-both RunLinked (c.settings.follow_redirects && is_redirect head.status_code)
      (drop_transport c, err (streamed_redirect_error head.status_code)) (c, ok tt)
      (drop_transport-Linked c) h

finish_body-Linked : (env : Surroundings) (c : Client) → Linked c → Linked (finish_body env c).0
unfolding finish_body
finish_body-Linked env c h =
    then_do-Linked (send_all env terminator end_dropped_error short_terminator_error c)
      (λ u d. then_do (or_drop (await_headers env d)) answer_upload)
      (send_all-Linked env terminator end_dropped_error short_terminator_error c h)
      (λ u d k.
        then_do-Linked (or_drop (await_headers env d)) answer_upload
          (or_drop-Linked (await_headers env d) (await_headers-Linked env d k))
          answer_upload-Linked)

end_body-Linked : (env : Surroundings) (c : Client) → Linked c → Linked (end_body env c).0
unfolding end_body
end_body-Linked env c h =
    let d = record c { upload_active = false } in
    if-both RunLinked (not c.upload_chunked) (c, err (end_not_open_error c.settings.chunked_upload))
      (if not c.upload_active then (c, err no_upload_error) else finish_body env d) h
      (if-both RunLinked (not c.upload_active) (c, err no_upload_error) (finish_body env d) h
        (finish_body-Linked env d (h.0, λ e. cc)))

-- What a call leaves, where it returns.
abbrev left {ℓ} : {A : Type ℓ} → Option (Ran A) → Client → Client
left none c = c
left (some r) c = r.0

-- The operations of the client and the callbacks of its transport, in any order.
pub data Operations (env : Surroundings) : Client → Client → Type 0 where
  at_rest : {c : Client} → Operations env c c
  set :
      {c d : Client}
      → Operations env c d
      → (settings : Settings) → Operations env c (record d { settings = settings })
  arrives :
      {c d : Client}
      → Operations env c d
      → (a : Arrival) → Operations env c (arrive env.size_mod a d)
  executes :
      {c d : Client}
      → Operations env c d
      → (method url : Bytes) → Operations env c (left (execute env method url d) d)
  opens :
      {c d : Client}
      → Operations env c d
      → (method url : Bytes) → Operations env c (left (open_stream env method url d) d)
  reads : {c d : Client} → Operations env c d → (size : ℕ) → Operations env c (read env size d).0
  writes :
      {c d : Client}
      → Operations env c d
      → (buffer : Option Bytes) (size : ℕ) → Operations env c (write env buffer size d).0
  ends_body : {c d : Client} → Operations env c d → Operations env c (end_body env d).0
  closes : {c d : Client} → Operations env c d → Operations env c (close d)

left-Linked {ℓ} :
    {A : Type ℓ} (o : Option (Ran A)) (c : Client) → LoopLinked o → Linked c → Linked (left o c)
left-Linked none c h k = k
left-Linked (some r) c h k = h

-- From a client that is so, as a new one is, in whatever order the operations are called and the
-- callbacks come in, with any settings: a client that counts as connected has a transport, and so does
-- one whose chunked body is being written, which is also written in chunks.
pub Operations-Linked :
    (env : Surroundings) (c d : Client) → Operations env c d → Linked c → Linked d
Operations-Linked env c d at_rest h = h
Operations-Linked env c d (set {d = x} s settings) h = Operations-Linked env c x s h
Operations-Linked env c d (arrives {d = x} s a) h =
    Receives-Linked x d (arrive-Receives env.size_mod a x) (Operations-Linked env c x s h)
Operations-Linked env c d (executes {d = x} s method url) h =
    let k = Operations-Linked env c x s h in
    left-Linked (execute env method url x) x (execute-Linked env method url x k) k
Operations-Linked env c d (opens {d = x} s method url) h =
    let k = Operations-Linked env c x s h in
    left-Linked (open_stream env method url x) x (open_stream-Linked env method url x k) k
Operations-Linked env c d (reads {d = x} s size) h =
    read-Linked env size x (Operations-Linked env c x s h)
Operations-Linked env c d (writes {d = x} s buffer size) h =
    write-Linked env buffer size x (Operations-Linked env c x s h)
Operations-Linked env c d (ends_body {d = x} s) h =
    end_body-Linked env x (Operations-Linked env c x s h)
Operations-Linked env c d (closes {d = x} s) h = close-Linked x
