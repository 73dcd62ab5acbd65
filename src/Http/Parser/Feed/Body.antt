-- ===== src/Http/Parser/Feed/Body.antt =====
-- What one call of `Feed` does with the bytes of a body whose length is known.
use esp_modem_link.Common.{
  ℕ, zero, suc, ◌+◌, ◌-◌, ◌<◌, min, Bool, true, false, Option, some, [], ◌∷◌, ◌++◌, arith, ◌≡◌,
  refl, ap, ◌∙◌, inl, inr, ◌⊎◌, append_assoc, append-nil, sym, List,
}
use esp_modem_link.Common.Lists.{Bytes, length, length-drop, drop, take}
use esp_modem_link.Common.Tests.{◌==◌, if◌then◌else◌, Bool-cases}
use esp_modem_link.Error.{ok}
use esp_modem_link.Http.Parser.{body, complete, HttpParser, Step}
use esp_modem_link.Http.Parser.Feed.Length.{emit_body_keeps}
use esp_modem_link.Http.Parser.Feed.{
  emit_body, feed_body, feed_state, is_final, after_step, feed_loop, bank, feed,
}

-- A parser in the middle of a body of a known length, with nothing in its buffer.
pub record Reading (p : HttpParser) : Type 0 where
  pub in_body : p.state ≡ body
  pub no_buffer : p.buffer ≡ []
  pub counted : p.has_content_length ≡ true
  pub more : 0 < p.body_remaining

-- The parser after the first `n` of the bytes at hand.
abbrev stepped : HttpParser → Bytes → ℕ → HttpParser
stepped p rest n = record (emit_body (take n rest) p) {
  body_remaining = p.body_remaining - n;
  state = if p.body_remaining - n == 0 then complete else (emit_body (take n rest) p).state;
}

feed_body-stepped :
    (p : HttpParser) (rest : Bytes)
    → p.has_content_length ≡ true
    → feed_body p rest ≡ (
      stepped p rest (min (length rest) p.body_remaining),
      ok (min (length rest) p.body_remaining),
    )
unfolding feed_body
feed_body-stepped p rest counted = ground arith

after_step-ok :
    (continue : HttpParser → ℕ → Bytes → Option Step) (consumed : ℕ) (rest : Bytes) (q : HttpParser)
    (n : ℕ)
    → 0 < n
    → after_step continue consumed rest (q, ok n) ≡ continue q (consumed + n) (drop n rest)
unfolding after_step
after_step-ok continue consumed rest q zero h = absurd (omega arith)
after_step-ok continue consumed rest q (suc n) h = refl

loop_stops :
    (fuel size_mod : ℕ) (q : HttpParser) (consumed : ℕ) (rest : Bytes)
    → (length rest ≡ 0) ⊎ (is_final q.state ≡ true)
    → feed_loop (suc fuel) size_mod q consumed rest ≡ some (q, ok consumed)
unfolding feed_loop
loop_stops fuel size_mod q consumed [] h = refl
loop_stops fuel size_mod q consumed (c ∷ cs) (inl e) = absurd (omega arith)
loop_stops fuel size_mod q consumed (c ∷ cs) (inr final) = rw (final, feed_loop) refl

loop_in_body :
    (fuel size_mod : ℕ) (p : HttpParser) (c : ℕ) (cs : Bytes)
    → p.state ≡ body
    → feed_loop (suc fuel) size_mod p 0 (c ∷ cs)
      ≡ after_step (feed_loop fuel size_mod) 0 (c ∷ cs) (feed_body p (c ∷ cs))
unfolding feed_loop feed_state
loop_in_body fuel size_mod p c cs e = ground arith

-- Behind a step all bytes are used or the body is complete.
stepped_stops :
    (p : HttpParser) (rest : Bytes)
    → let n = min (length rest) p.body_remaining in
      (length (drop n rest) ≡ 0) ⊎ (is_final (stepped p rest n).state ≡ true)
stepped_stops p rest =
    let n = min (length rest) p.body_remaining in
    elim (Bool-cases (p.body_remaining - n == 0)) [
      | inl done ↦ inr (rw done refl)
      | inr more ↦ inl (ground (arith, length-drop n rest))
    ]

stepped_state :
    (p : HttpParser) (rest : Bytes)
    → p.state ≡ body
    → let n = min (length rest) p.body_remaining in
      (stepped p rest n).state ≡ (if n == p.body_remaining then complete else body)
stepped_state p rest e =
    let n = min (length rest) p.body_remaining in
    ground (arith, (emit_body_keeps (take n rest) p).0)

drained :
    (final : Bool) (s : Bytes) → (length s ≡ 0) ⊎ (final ≡ true) → (if final then [] else s) ≡ []
drained true s h = refl
drained false [] h = refl
drained false (c ∷ cs) (inl e) = absurd (omega arith)
drained false (c ∷ cs) (inr e) = cc

feed_fresh :
    (size_mod : ℕ) (p : HttpParser) (incoming : Bytes) (s : Step)
    → is_final p.state ≡ false
    → p.buffer ≡ []
    → feed_loop (length incoming + 1) size_mod p 0 incoming ≡ some s
    → feed size_mod p incoming ≡ some (bank incoming 0 s)
unfolding feed
feed_fresh size_mod p incoming s busy empty loop =
    let joined : p.buffer ++ incoming ≡ incoming = ap (λ (b : Bytes). b ++ incoming) empty in
    let banked : length p.buffer ≡ 0 = ap length empty in
    rw (busy, joined, loop, joined, banked) refl

-- The loop goes round once, and then all bytes are used or the body is complete.
body_round :
    (fuel size_mod : ℕ) (p : HttpParser) (c : ℕ) (cs : Bytes)
    → Reading p
    → feed_loop (suc (suc fuel)) size_mod p 0 (c ∷ cs)
      ≡ some (
        stepped p (c ∷ cs) (min (length (c ∷ cs)) p.body_remaining),
        ok (min (length (c ∷ cs)) p.body_remaining),
      )
body_round fuel size_mod p c cs r =
    let n = min (length (c ∷ cs)) p.body_remaining in
    let q = stepped p (c ∷ cs) n in
    let some_bytes : 0 < n = omega (arith, r.more) in
    let stop = stepped_stops p (c ∷ cs) in
    let start : 0 + n ≡ n = omega arith in
    loop_in_body (suc fuel) size_mod p c cs r.in_body
    ∙ ap (after_step (feed_loop (suc fuel) size_mod) 0 (c ∷ cs))
        (feed_body-stepped p (c ∷ cs) r.counted)
    ∙ after_step-ok (feed_loop (suc fuel) size_mod) 0 (c ∷ cs) q n some_bytes
    ∙ loop_stops fuel size_mod q (0 + n) (drop n (c ∷ cs)) stop
    ∙ ap (λ (k : ℕ). some (q, ok k)) start

-- The bytes of all pieces that the callback was given.
abbrev pub pieces_of : List Bytes → Bytes
pieces_of [] = []
pieces_of (piece ∷ pieces) = piece ++ pieces_of pieces

pieces_of-snoc :
    (pieces : List Bytes) (piece : Bytes)
    → pieces_of (pieces ++ piece ∷ []) ≡ pieces_of pieces ++ piece
pieces_of-snoc [] piece = append-nil piece
pieces_of-snoc (d ∷ ds) piece =
    ap (◌++◌ d) (pieces_of-snoc ds piece) ∙ sym (append_assoc d (pieces_of ds) piece)

-- From `p` to `q` just these bytes are handed on: to the callback, or to the body where none is set.
abbrev pub Handed : Bytes → HttpParser → HttpParser → Type 0
Handed bytes p q =
    (pieces_of q.emitted ≡ pieces_of p.emitted ++ (if p.on_body then bytes else []))
    × (q.body ≡ p.body ++ (if p.on_body then [] else bytes))

given :
    (b : Bool) (bytes : Bytes) (p : HttpParser)
    → let q =
        if b
        then record p { emitted = p.emitted ++ bytes ∷ [] }
        else record p { body = p.body ++ bytes } in
      (pieces_of q.emitted ≡ pieces_of p.emitted ++ (if b then bytes else []))
      × (q.body ≡ p.body ++ (if b then [] else bytes))
given true bytes p = (pieces_of-snoc p.emitted bytes, sym (append-nil p.body))
given false bytes p = (sym (append-nil (pieces_of p.emitted)), refl)

nothing_given : (b : Bool) (s : Bytes) → s ≡ s ++ (if b then [] else [])
nothing_given true s = sym (append-nil s)
nothing_given false s = sym (append-nil s)

emit_body-Handed : (bytes : Bytes) (p : HttpParser) → Handed bytes p (emit_body bytes p)
unfolding emit_body
emit_body-Handed [] p =
    (nothing_given p.on_body (pieces_of p.emitted), nothing_given p.on_body p.body)
emit_body-Handed (c ∷ cs) p = given p.on_body (c ∷ cs) p

-- In the middle of a body of a known length, with nothing banked, one call with a byte or more takes
-- the bytes at hand up to the end of the body and no more, hands exactly those on, in order, to the
-- callback or to the body where no callback is set, and completes the response when and only when it has them all; bytes of a following response are left to the caller.
pub feed-body :
    (size_mod : ℕ) (p : HttpParser) (incoming : Bytes)
    → 0 < length incoming
    → Reading p
    → let n = min (length incoming) p.body_remaining in
      (q : HttpParser) × (feed size_mod p incoming ≡ some (q, ok n))
      × Handed (take n incoming) p q
      × (q.body_remaining ≡ p.body_remaining - n)
      × (q.state ≡ (if n == p.body_remaining then complete else body))
      × (q.buffer ≡ [])
unfolding bank
feed-body size_mod p [] h r = absurd (omega arith)
feed-body size_mod p (c ∷ cs) h r =
    let n = min (length (c ∷ cs)) p.body_remaining in
    let q = stepped p (c ∷ cs) n in
    let busy : is_final p.state ≡ false = rw r.in_body refl in
    let fuel : length (c ∷ cs) + 1 ≡ suc (suc (length cs)) = omega arith in
    let whole : n - 0 ≡ n = omega arith in
    let loop : feed_loop (length (c ∷ cs) + 1) size_mod p 0 (c ∷ cs) ≡ some (q, ok n) =
      rw fuel (body_round (length cs) size_mod p c cs r) in
    (
      record q { buffer = if is_final q.state then [] else drop n (c ∷ cs) },
      feed_fresh size_mod p (c ∷ cs) (q, ok n) busy r.no_buffer loop
          ∙ ap
              (λ (k : ℕ).
                some (record q { buffer = if is_final q.state then [] else drop n (c ∷ cs) }, ok k))
              whole,
      emit_body-Handed (take n (c ∷ cs)) p,
      refl,
      stepped_state p (c ∷ cs) r.in_body,
      drained (is_final q.state) (drop n (c ∷ cs)) (stepped_stops p (c ∷ cs)),
    )
