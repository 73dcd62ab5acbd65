-- ===== src/Http/Parser/Feed/Length.antt =====
-- The framing of a body by Content-Length in http_parser.cpp, over any number of calls of `Feed`.
use esp_modem_link.Common.{
  ℕ, zero, suc, ◌+◌, ◌-◌, min, Bool, true, false, not, ◌&&◌, Option, none, some, List, [], ◌∷◌,
  ◌++◌, arith, ◌≡◌, refl, sym, ◌∙◌, inl, inr,
}
use esp_modem_link.Common.Lists.{Bytes, length, drop, take, length-append, length-take}
use esp_modem_link.Common.Tests.{◌==◌, ==_iff, if◌then◌else◌, Bool-cases, Option-cases}
use esp_modem_link.Error.{ok, err}
use esp_modem_link.Http.Parser.{
  State, status_line, headers, body, chunk_size, chunk_data, chunk_data_end, chunk_trailer,
  complete, error, HttpParser, Step, initial, on_line, take_line, status_line_read, end_of_headers,
  header_read, feed_status_line, feed_headers,
}
use esp_modem_link.Http.Parser.Feed.Total.{feed_total}
use mathlib.Core.Path.{subst}
use esp_modem_link.Http.Parser.Feed.{
  emit_body, feed_body, chunk_size_read, feed_chunk_size, feed_chunk_data, feed_chunk_data_end,
  feed_chunk_trailer, trailer_read, feed_state, is_final, after_step, feed_loop, bank, feed,
}

pub total : List Bytes → ℕ
total [] = 0
total (d ∷ ds) = length d + total ds

total-append : (ds : List Bytes) (d : Bytes) → total (ds ++ d ∷ []) ≡ total ds + length d
unfolding total
total-append [] d = omega arith
total-append (e ∷ ds) d = omega (arith, total-append ds d)

-- The body bytes so far, in the parser or with the callback.
abbrev pub received : HttpParser → ℕ
received p = length p.body + total p.emitted

pub received-emit_body :
    (d : Bytes) (p : HttpParser) → received (emit_body d p) ≡ received p + length d
unfolding emit_body
received-emit_body [] p = omega arith
received-emit_body (c ∷ cs) p =
    ground (arith, total-append p.emitted (c ∷ cs), length-append p.body (c ∷ cs))

-- What `emit_body` leaves alone.
pub emit_body_keeps :
    (d : Bytes) (p : HttpParser)
    → ((emit_body d p).state ≡ p.state)
      × ((emit_body d p).has_content_length ≡ p.has_content_length)
      × ((emit_body d p).content_length ≡ p.content_length)
      × ((emit_body d p).chunked ≡ p.chunked)
unfolding emit_body
emit_body_keeps [] p = (refl, refl, refl, refl)
emit_body_keeps (c ∷ cs) p = ground arith

-- What each state knows of the body.
abbrev pub Framed : State → HttpParser → Type 0
Framed status_line p = received p ≡ 0
Framed headers p = received p ≡ 0
Framed body p =
    (p.chunked ≡ false)
    × (p.has_content_length ≡ true → received p + p.body_remaining ≡ p.content_length)
Framed complete p = p.chunked ≡ false → p.has_content_length ≡ true → received p ≡ p.content_length
Framed error p = Unit
Framed _ p = p.chunked ≡ true

abbrev pub FramedStep : Step → Type 0
FramedStep (q, err e) = Unit
FramedStep (q, ok n) = Framed q.state q

status_line_read-Framed :
    (p : HttpParser) (line : Bytes) (n : ℕ)
    → received p ≡ 0
    → FramedStep (status_line_read p line n)
unfolding status_line_read
status_line_read-Framed p line n h = ground arith

end_of_headers-Framed :
    (p : HttpParser) → received p ≡ 0 → Framed (end_of_headers p).state (end_of_headers p)
unfolding end_of_headers
end_of_headers-Framed p h = ground arith

header_read-Framed :
    (size_mod : ℕ) (p : HttpParser) (line : Bytes) (n : ℕ)
    → p.state ≡ headers
    → received p ≡ 0
    → FramedStep (header_read size_mod p line n)
unfolding header_read
header_read-Framed size_mod p [] n s h = end_of_headers-Framed p h
header_read-Framed size_mod p (c ∷ cs) n s h = ground arith

close_delimited :
    (p : HttpParser)
    → (p.body_remaining == 0 && not p.has_content_length) ≡ true
    → p.has_content_length ≡ false
close_delimited p h = ground arith

pub take-min : (n : ℕ) (d : Bytes) → length (take (min (length d) n) d) ≡ min (length d) n
take-min n d = omega (arith, length-take (min (length d) n) d)

feed_body-Framed :
    (p : HttpParser) (rest : Bytes) → p.state ≡ body → Framed body p → FramedStep (feed_body p rest)
unfolding feed_body
feed_body-Framed p rest s (plain, count) =
    elim (Bool-cases (p.body_remaining == 0 && not p.has_content_length)) [
      | inl open_ended ↦
          let (st, has, len, chk) = emit_body_keeps rest p in
          rw open_ended (rw (st ∙ s) (chk ∙ plain, λ h. cc (has, close_delimited p open_ended)))
      | inr counted ↦
          let n = min (length rest) p.body_remaining in
          let (st, has, len, chk) = emit_body_keeps (take n rest) p in
          let grown = received-emit_body (take n rest) p in
          let taken = take-min p.body_remaining rest in
          rw counted (elim (Bool-cases (p.body_remaining - n == 0)) [
            | inl done ↦
                rw done (λ c h.
                  omega (arith, grown, taken, len, count (sym has ∙ h), (==_iff _ _).0 done))
            | inr more ↦
                rw (more, st ∙ s)
                  (chk ∙ plain, λ h. omega (arith, grown, taken, len, count (sym has ∙ h)))
          ])
    ]

chunk_size_read-Framed :
    (size_mod : ℕ) (p : HttpParser) (line : Bytes) (n : ℕ)
    → p.chunked ≡ true
    → FramedStep (chunk_size_read size_mod p line n)
unfolding chunk_size_read
chunk_size_read-Framed size_mod p line n h = ground arith

feed_chunk_data-Framed :
    (p : HttpParser) (rest : Bytes)
    → p.state ≡ chunk_data
    → p.chunked ≡ true
    → FramedStep (feed_chunk_data p rest)
unfolding feed_chunk_data
feed_chunk_data-Framed p rest s h =
    let n = min (length rest) p.chunk_remaining in
    let (st, has, len, chk) = emit_body_keeps (take n rest) p in
    elim (Bool-cases (p.chunk_remaining - n == 0)) [
      | inl done ↦ rw done (chk ∙ h)
      | inr more ↦ rw (more, st ∙ s) (chk ∙ h)
    ]

feed_chunk_data_end-Framed :
    (p : HttpParser) (rest : Bytes)
    → p.state ≡ chunk_data_end
    → p.chunked ≡ true
    → FramedStep (feed_chunk_data_end p rest)
unfolding feed_chunk_data_end
feed_chunk_data_end-Framed p [] s h = rw s h
feed_chunk_data_end-Framed p (c ∷ []) s h = ground arith
feed_chunk_data_end-Framed p (c ∷ d ∷ rest) s h = ground arith

trailer_read-Framed :
    (p : HttpParser) (line : Bytes) (n : ℕ)
    → p.state ≡ chunk_trailer
    → p.chunked ≡ true
    → FramedStep (trailer_read p line n)
unfolding trailer_read
trailer_read-Framed p [] n s h = λ plain. cc
trailer_read-Framed p (c ∷ cs) n s h = rw s h

-- A state that waits for a whole line.
on_line-Framed :
    (p : HttpParser) (handle : Bytes → ℕ → Step) (o : Option (Bytes × ℕ))
    → Framed p.state p
    → ((line : Bytes) (n : ℕ) → FramedStep (handle line n))
    → FramedStep (on_line p handle o)
on_line-Framed p handle none h each = h
on_line-Framed p handle (some (line, n)) h each = each line n

feed_state-Framed :
    (size_mod : ℕ) (s : State) (p : HttpParser) (rest : Bytes)
    → p.state ≡ s
    → Framed s p
    → FramedStep (feed_state size_mod s p rest)
unfolding feed_state feed_status_line feed_headers feed_chunk_size feed_chunk_trailer
feed_state-Framed size_mod status_line p rest s h =
    on_line-Framed p (status_line_read p) (take_line rest) (rw s h)
      (λ l n. status_line_read-Framed p l n h)
feed_state-Framed size_mod headers p rest s h =
    on_line-Framed p (header_read size_mod p) (take_line rest) (rw s h)
      (λ l n. header_read-Framed size_mod p l n s h)
feed_state-Framed size_mod body p rest s h = feed_body-Framed p rest s h
feed_state-Framed size_mod chunk_size p rest s h =
    on_line-Framed p (chunk_size_read size_mod p) (take_line rest) (rw s h)
      (λ l n. chunk_size_read-Framed size_mod p l n h)
feed_state-Framed size_mod chunk_data p rest s h = feed_chunk_data-Framed p rest s h
feed_state-Framed size_mod chunk_data_end p rest s h = feed_chunk_data_end-Framed p rest s h
feed_state-Framed size_mod chunk_trailer p rest s h =
    on_line-Framed p (trailer_read p) (take_line rest) (rw s h)
      (λ l n. trailer_read-Framed p l n s h)
feed_state-Framed size_mod complete p rest s h = rw s h
feed_state-Framed size_mod error p rest s h = rw s tt

-- What the loop leaves, error or not.
abbrev FramedEnd : Option Step → Type 0
FramedEnd none = Unit
FramedEnd (some (q, r)) = Framed q.state q

after_step-Framed :
    (continue : HttpParser → ℕ → Bytes → Option Step) (consumed : ℕ) (rest : Bytes) (s : Step)
    → FramedStep s
    → ((q : HttpParser) (n : ℕ) (t : Bytes) → Framed q.state q → FramedEnd (continue q n t))
    → FramedEnd (after_step continue consumed rest s)
unfolding after_step
after_step-Framed continue consumed rest (q, err e) h each = tt
after_step-Framed continue consumed rest (q, ok zero) h each = h
after_step-Framed continue consumed rest (q, ok (suc n)) h each =
    each q (consumed + suc n) (drop (suc n) rest) h

feed_loop-Framed :
    (fuel size_mod : ℕ) (p : HttpParser) (consumed : ℕ) (rest : Bytes)
    → Framed p.state p
    → FramedEnd (feed_loop fuel size_mod p consumed rest)
unfolding feed_loop
feed_loop-Framed zero size_mod p consumed rest h = tt
feed_loop-Framed (suc fuel) size_mod p consumed [] h = h
feed_loop-Framed (suc fuel) size_mod p consumed (c ∷ cs) h = elim (Bool-cases (is_final p.state)) [
  | inl final ↦ rw (final, feed_loop) h
  | inr busy ↦
      rw (busy, feed_loop)
        (after_step-Framed (feed_loop fuel size_mod) consumed (c ∷ cs)
          (feed_state size_mod p.state p (c ∷ cs))
          (feed_state-Framed size_mod p.state p (c ∷ cs) refl h)
          (λ q n t f. feed_loop-Framed fuel size_mod q n t f))
]

Framed-buffer :
    (s : State) (p : HttpParser) (b : Bytes) → Framed s p → Framed s (record p { buffer = b })
Framed-buffer status_line p b h = h
Framed-buffer _ p b h = h

bank-Framed :
    (data' : Bytes) (banked : ℕ) (s : Step)
    → FramedEnd (some s)
    → FramedEnd (some (bank data' banked s))
unfolding bank
bank-Framed data' banked (p, err e) h = h
bank-Framed data' banked (p, ok consumed) h =
    Framed-buffer p.state p (if is_final p.state then [] else drop consumed data') h

feed-Framed :
    (size_mod : ℕ) (p : HttpParser) (incoming : Bytes)
    → Framed p.state p
    → FramedEnd (feed size_mod p incoming)
unfolding feed
feed-Framed size_mod p incoming h = elim (Bool-cases (is_final p.state)) [
  | inl final ↦ rw final h
  | inr busy ↦ rw busy (
      let data' = p.buffer ++ incoming in
      elim (Option-cases (feed_loop (length data' + 1) size_mod p 0 data')) [
        | inl stuck ↦ rw stuck tt
        | inr (s, found) ↦ rw found (
            bank-Framed data' (length p.buffer) s
              (rw found at (feed_loop-Framed (length data' + 1) size_mod p 0 data' h)))
      ])
]

-- The parser after a run of calls of `Feed`, whatever each of them returned.
unfoldable pub feed_all : ℕ → HttpParser → List Bytes → Option HttpParser
feed_all size_mod p [] = some p
feed_all size_mod p (incoming ∷ rest) = elim (feed size_mod p incoming) [
  | none ↦ none
  | some (q, r) ↦ feed_all size_mod q rest
]

feed_all-Framed :
    (size_mod : ℕ) (pieces : List Bytes) (p q : HttpParser)
    → Framed p.state p
    → feed_all size_mod p pieces ≡ some q
    → Framed q.state q
unfolding feed_all
feed_all-Framed size_mod [] p q h e =
    let same : p ≡ q = cc in subst (λ (x : HttpParser). Framed x.state x) same h
feed_all-Framed size_mod (incoming ∷ rest) p q h e =
    let (s, found) = feed_total size_mod p incoming in
    feed_all-Framed size_mod rest s.0 q (rw found at (feed-Framed size_mod p incoming h))
      (rw (found, feed_all) at e)

-- A response that announced a length and is not chunked is complete only when exactly that many body
-- bytes were received, however the bytes were split over the calls.
pub complete-length :
    (size_mod : ℕ) (on_body : Bool) (pieces : List Bytes) (q : HttpParser)
    → feed_all size_mod (initial on_body) pieces ≡ some q
    → q.state ≡ complete
    → q.chunked ≡ false
    → q.has_content_length ≡ true
    → received q ≡ q.content_length
unfolding total
complete-length size_mod on_body pieces q e done plain has =
    (rw done at (feed_all-Framed size_mod pieces (initial on_body) q refl e)) plain has
