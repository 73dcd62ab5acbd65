-- ===== src/Http/Parser/Feed/Total.antt =====
-- `Feed` of http_parser.cpp ends on every input.
use esp_modem_link.Common.{
  ℕ, zero, suc, ◌+◌, ◌<◌, Option, none, some, [], ◌∷◌, ◌++◌, arith, ◌≡◌, ◌≢◌, inl, inr,
}
use esp_modem_link.Common.Lists.{Bytes, length, drop, length-drop}
use esp_modem_link.Common.Tests.{Bool-cases, Option-cases}
use esp_modem_link.Error.{ok, err}
use esp_modem_link.Http.Parser.{HttpParser, Step}
use esp_modem_link.Http.Parser.Feed.{feed_state, is_final, after_step, feed_loop, bank, feed}

after_step-ne-none :
    (continue : HttpParser → ℕ → Bytes → Option Step) (consumed : ℕ) (rest : Bytes) (s : Step)
    → ((q : HttpParser) (n : ℕ) → continue q (consumed + suc n) (drop (suc n) rest) ≢ none)
    → after_step continue consumed rest s ≢ none
unfolding after_step
after_step-ne-none continue consumed rest (q, err e) h = λ x. cc
after_step-ne-none continue consumed rest (q, ok zero) h = λ x. cc
after_step-ne-none continue consumed rest (q, ok (suc n)) h = h q n

feed_loop-ne-none :
    (fuel size_mod consumed : ℕ) (p : HttpParser) (rest : Bytes)
    → length rest < fuel
    → feed_loop fuel size_mod p consumed rest ≢ none
unfolding feed_loop
feed_loop-ne-none zero size_mod consumed p rest h e = absurd (omega arith)
feed_loop-ne-none (suc fuel) size_mod consumed p [] h e = cc
feed_loop-ne-none (suc fuel) size_mod consumed p (c ∷ cs) h e =
    elim (Bool-cases (is_final p.state)) [
      | inl final ↦ cc (rw (final, feed_loop) at e)
      | inr busy ↦
          after_step-ne-none (feed_loop fuel size_mod) consumed (c ∷ cs)
            (feed_state size_mod p.state p (c ∷ cs))
            (λ q n.
              feed_loop-ne-none fuel size_mod (consumed + suc n) q (drop n cs)
                (omega (arith, length-drop n cs)))
            (rw (busy, feed_loop) at e)
    ]

-- Every call of `Feed` returns, whatever the state of the parser and the bytes.
pub feed_total :
    (size_mod : ℕ) (p : HttpParser) (incoming : Bytes)
    → (s : Step) × (feed size_mod p incoming ≡ some s)
unfolding feed
feed_total size_mod p incoming = elim (Bool-cases (is_final p.state)) [
  | inl final ↦ ((p, ok 0), rw final)
  | inr busy ↦
      let data' = p.buffer ++ incoming in
      elim (Option-cases (feed_loop (length data' + 1) size_mod p 0 data')) [
        | inl stuck ↦
            absurd (feed_loop-ne-none (length data' + 1) size_mod 0 p data' (omega arith) stuck)
        | inr (s, found) ↦ (bank data' (length p.buffer) s, rw (busy, found))
      ]
]
