-- ===== src/Http/Client/Stream/Delivered.antt =====
-- What `Read` of software_http_client.cpp hands out.
use esp_modem_link.Common.{
  ℕ, zero, suc, ◌≤◌, ◌<◌, true, false, [], ◌∷◌, ◌++◌, arith, ◌≡◌, refl, sym, ap, ◌∙◌, inl, inr,
}
use esp_modem_link.Common.Lists.{Bytes, length, take-append-drop, length-take}
use esp_modem_link.Common.Tests.{Bool-cases}
use esp_modem_link.Error.{ok, err}
use esp_modem_link.Http.Client.{Client, Surroundings, Ran}
use esp_modem_link.Http.Client.Arrivals.{is_complete, wait}
use esp_modem_link.Http.Client.Stream.{nothing_pending, take_pending, read}

-- What was read, in terms of the client `c` behind the wait.
abbrev pub Read : ℕ → Client → Ran Bytes → Type 0
Read size c (d, err e) =
    (c.pending ≡ []) × (d ≡ c) × (is_complete c.parser.state ≡ true → c.parse_failed ≡ true)
Read size c (d, ok bytes) =
    (bytes ++ d.pending ≡ c.pending)
    × (d ≡ record c { pending = d.pending })
    × (length bytes ≤ size)
    × (bytes ≡ [] → 0 < size → (is_complete c.parser.state ≡ true) × (c.parse_failed ≡ false))

nothing_pending-Read : (size : ℕ) (c : Client) → c.pending ≡ [] → Read size c (c, nothing_pending c)
unfolding nothing_pending
nothing_pending-Read size c empty = elim (Bool-cases c.parse_failed) [
  | inl failed' ↦ rw failed' (empty, refl, λ e. refl)
  | inr sound ↦ elim (Bool-cases (is_complete c.parser.state)) [
    | inl whole ↦ rw (sound, whole) (refl, refl, omega arith, λ e more. (whole, refl))
    | inr part ↦ elim (Bool-cases c.is_closed) [
      | inl gone ↦ rw (sound, part, gone) (empty, refl, λ e. cc)
      | inr late ↦ rw (sound, part, late) (empty, refl, λ e. cc)
    ]
  ]
]

take_pending-Read :
    (size : ℕ) (pending : Bytes) (c : Client)
    → c.pending ≡ pending
    → Read size c (take_pending size pending c)
unfolding take_pending
take_pending-Read size [] c e = nothing_pending-Read size c e
take_pending-Read zero (b ∷ bs) c e = (sym e, refl, omega arith, λ x more. absurd (omega arith))
take_pending-Read (suc size) (b ∷ bs) c e = (
  ap (◌∷◌ b) (take-append-drop size bs) ∙ sym e,
  refl,
  omega (arith, length-take size bs),
  λ x more. cc,
)

-- `Read` takes what was received from the front and loses nothing of it: what it hands out and what
-- it leaves are together what was there, it hands out no more than the buffer holds, and it changes
-- nothing else. No bytes into a buffer with room mean that the parser has completed the response. It
-- fails only where nothing is left to hand out, and for a complete response only if an error was noted.
pub read-Read :
    (env : Surroundings) (size : ℕ) (c : Client) → Read size (wait env c) (read env size c)
unfolding read
read-Read env size c = take_pending-Read size (wait env c).pending (wait env c) refl
