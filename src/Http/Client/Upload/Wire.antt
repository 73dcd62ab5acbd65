-- ===== src/Http/Client/Upload/Wire.antt =====
-- What `Write` and `EndBody` of software_http_client.cpp put on the wire.
use esp_modem_link.Common.{
  ℕ, zero, suc, ◌≤◌, ◌<◌, false, not, ◌&&◌, Option, none, some, [], ◌∷◌, arith, ◌≡◌, refl, inl, inr,
}
use esp_modem_link.Common.Int.{ℤ, int_max}
use esp_modem_link.Common.Lists.{Bytes, length}
use esp_modem_link.Common.Tests.{ltb, ◌==◌, if◌then◌else◌, if-both, Bool-cases}
use esp_modem_link.Error.{NetworkError, Result, ok, err}
use esp_modem_link.Http.Parser.{to_size}
use esp_modem_link.Http.Client.{HttpResponse, sends, Client, Surroundings, Ran, then_do, emit}
use esp_modem_link.Http.Client.Connection.{drop_transport, or_drop}
use esp_modem_link.Http.Client.Redirects.{is_redirect}
use esp_modem_link.Http.Client.Stream.{is_status_line, await_headers}
use esp_modem_link.Http.Client.Upload.{
  chunk_frame, terminator, no_upload_error, answered_early_error, all_sent, short_chunk_error,
  send_all, write_dropped_error, write_piece, write_not_open_error, write_closed_error, write,
  streamed_redirect_error, answer_upload, short_terminator_error, end_dropped_error, finish_body,
  end_not_open_error, end_body,
}
use esp_modem_link.Http.Client.Requests.{
  Sends, quiet, then_sends, widen, drop_transport-Sends, wait-Sends, then_do-Sends,
}

-- The frame of a piece that is not empty and whose size fits an `int`.
abbrev pub IsChunk : Bytes → Type 0
IsChunk bytes =
    (piece : Bytes) × (0 < length piece) × (length piece ≤ int_max) × (bytes ≡ chunk_frame piece)

module _ {ℓ} (P : Bytes → Type ℓ) where
  all_sent-Sends :
      (size_mod size : ℕ) (short : NetworkError) (answer : Result ℤ) (c : Client)
      → Sends P 0 c (all_sent size_mod size short answer c).0
  unfolding all_sent
  all_sent-Sends size_mod size short (err e) c = drop_transport-Sends P c
  all_sent-Sends size_mod size short (ok n) c =
      if-both (λ (r : Ran (Unit {0})). Sends P 0 c r.0) (to_size size_mod n == size) (c, ok tt)
        (drop_transport c, err short) (quiet P c c refl refl) (drop_transport-Sends P c)

  send_all-Sends :
      (env : Surroundings) (bytes : Bytes) (gone short : NetworkError) (c : Client)
      → P bytes
      → Sends P 1 c (send_all env bytes gone short c).0
  unfolding send_all
  send_all-Sends env bytes gone short c h =
      let answer = env.send c.log bytes in
      let d = emit (sends bytes) c in
      let offered = all_sent env.size_mod (length bytes) short answer d in
      if-both (λ (r : Ran (Unit {0})). Sends P 1 c r.0) c.transport offered (c, err gone)
        (then_sends P 1 0 c d offered.0
          (record {
            same = refl;
            effects = sends bytes ∷ [];
            logged = refl;
            at_most = omega arith;
            each = (h, tt);
          })
          (all_sent-Sends env.size_mod (length bytes) short answer d))
        (widen P 0 1 c c (omega arith) (quiet P c c refl refl))

write_piece-Sends :
    (env : Surroundings) (buffer : Option Bytes) (size : ℕ) (c : Client)
    → Sends IsChunk 1 c (write_piece env buffer size c).0
unfolding write_piece
write_piece-Sends env none zero c =
    widen IsChunk 0 1 c c (omega arith) (quiet IsChunk c c refl refl)
write_piece-Sends env none (suc size) c =
    widen IsChunk 0 1 c c (omega arith) (quiet IsChunk c c refl refl)
write_piece-Sends env (some []) size c =
    widen IsChunk 0 1 c c (omega arith) (quiet IsChunk c c refl refl)
write_piece-Sends env (some (b ∷ bs)) size c =
    let piece = b ∷ bs in
    let framed = send_all env (chunk_frame piece) write_dropped_error short_chunk_error c in
    let count : Unit {0} → Client → Ran ℕ = λ u d. (d, ok (length piece)) in
    elim (Bool-cases (ltb int_max (length piece))) [
      | inl large ↦ rw large (widen IsChunk 0 1 c c (omega arith) (quiet IsChunk c c refl refl))
      | inr small ↦ rw small (
          then_do-Sends IsChunk 1 0 c framed count
            (send_all-Sends IsChunk env (chunk_frame piece) write_dropped_error short_chunk_error c
              (piece, omega arith, ground arith, refl))
            (λ u d same. quiet IsChunk d d refl refl))
    ]

write-Sends :
    (env : Surroundings) (buffer : Option Bytes) (size : ℕ) (c : Client)
    → Sends IsChunk 1 c (write env buffer size c).0
unfolding write
write-Sends env buffer size c =
    let Q = λ (r : Ran ℕ). Sends IsChunk 1 c r.0 in
    let here = widen IsChunk 0 1 c c (omega arith) (quiet IsChunk c c refl refl) in
    let over = record c { upload_active = false } in
    let piece = write_piece env buffer size c in
    let early : Ran ℕ = (over, err (answered_early_error c.parser.status_code)) in
    let answered = if not (is_status_line c.parser.state) then early else piece in
    let going = if c.is_closed then (c, err write_closed_error) else answered in
    if-both Q (not c.upload_chunked) (c, err (write_not_open_error c.settings.chunked_upload))
      (if not c.upload_active then (c, err no_upload_error) else going) here
      (if-both Q (not c.upload_active) (c, err no_upload_error) going here
        (if-both Q c.is_closed (c, err write_closed_error) answered here
          (if-both Q (not (is_status_line c.parser.state)) early piece
            (widen IsChunk 0 1 c over (omega arith) (quiet IsChunk c over refl refl))
            (write_piece-Sends env buffer size c))))

answer_upload-Sends {ℓ} :
    (P : Bytes → Type ℓ) (head : HttpResponse) (c : Client) → Sends P 0 c (answer_upload head c).0
unfolding answer_upload
answer_upload-Sends P head c =
    if-both (λ (r : Ran (Unit {0})). Sends P 0 c r.0)
      (c.settings.follow_redirects && is_redirect head.status_code)
      (drop_transport c, err (streamed_redirect_error head.status_code)) (c, ok tt)
      (drop_transport-Sends P c) (quiet P c c refl refl)

or_drop-Sends {ℓ κ} :
    {A : Type κ} (P : Bytes → Type ℓ) (c : Client) (r : Ran A)
    → Sends P 0 c r.0
    → Sends P 0 c (or_drop r).0
or_drop-Sends P c (d, ok a) h = h
or_drop-Sends P c (d, err e) h =
    then_sends P 0 0 c d (drop_transport d) h (drop_transport-Sends P d)

end_body-Sends :
    (env : Surroundings) (c : Client) → Sends (λ bytes. bytes ≡ terminator) 1 c (end_body env c).0
unfolding end_body finish_body await_headers
end_body-Sends env c =
    let P : Bytes → Type 0 = λ bytes. bytes ≡ terminator in
    let Q = λ (r : Ran (Unit {0})). Sends P 1 c r.0 in
    let here = widen P 0 1 c c (omega arith) (quiet P c c refl refl) in
    let d = record c { upload_active = false } in
    let framed = send_all env terminator end_dropped_error short_terminator_error d in
    let answer : Unit {0} → Client → Ran (Unit {0}) =
      λ u e. then_do (or_drop (await_headers env e)) answer_upload in
    let finished = finish_body env d in
    if-both Q (not c.upload_chunked) (c, err (end_not_open_error c.settings.chunked_upload))
      (if not c.upload_active then (c, err no_upload_error) else finished) here
      (if-both Q (not c.upload_active) (c, err no_upload_error) finished here
        (then_sends P 0 1 c d finished.0 (quiet P c d refl refl) (
          then_do-Sends P 1 0 d framed answer
            (send_all-Sends P env terminator end_dropped_error short_terminator_error d refl)
            (λ u e same.
              then_do-Sends P 0 0 e (or_drop (await_headers env e)) answer_upload
                (or_drop-Sends P e (await_headers env e) (wait-Sends P env e))
                (λ head x same'. answer_upload-Sends P head x)))))

-- While a body is written, a call of `Write` sends one chunk at most, and a chunk is never the empty
-- one that would end the body; `EndBody` sends the end of the body at most once and nothing else.
pub upload-Sends :
    (env : Surroundings) (buffer : Option Bytes) (size : ℕ) (c : Client)
    → Sends IsChunk 1 c (write env buffer size c).0
      × Sends (λ bytes. bytes ≡ terminator) 1 c (end_body env c).0
upload-Sends env buffer size c = (write-Sends env buffer size c, end_body-Sends env c)
