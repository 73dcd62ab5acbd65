-- ===== src/Http/Parser/Feed/Chunks.antt =====
-- The size line of a chunk in http_parser.cpp, against the number that its digits stand for.
use esp_modem_link.Common.{
  ℕ, ◌+◌, ◌*◌, ◌/◌, ◌%◌, Option, none, some, [], ◌∷◌, arith, ◌≡◌, refl, sym, ap, ◌∙◌, inl, inr,
}
use esp_modem_link.Common.Lists.{Bytes}
use esp_modem_link.Common.Tests.{Option-cases}
use esp_modem_link.AtParser.{hex_char_to_nibble}
use esp_modem_link.Http.Parser.Feed.{chunk_digits}
use mathlib.Core.Option
use native.Mathlib.Nat.{div-add-mod', add-mul-mod_self_right}

-- The number that the digits of a text stand for, behind the number of those before them.
unfoldable pub hex_value : ℕ → Bytes → Option ℕ
hex_value value [] = some value
hex_value value (c ∷ cs) = elim (hex_char_to_nibble c) [
  | none ↦ none
  | some digit ↦ hex_value (value * 16 + digit) cs
]

digit_mod : (m v d : ℕ) → (v % m * 16 + d) % m ≡ (v * 16 + d) % m
digit_mod m v d =
    let split : v * 16 + d ≡ v % m * 16 + d + v / m * 16 * m = omega (arith, div-add-mod' v m) in
    sym (ap (λ x. x % m) split ∙ add-mul-mod_self_right (v % m * 16 + d) (v / m * 16) m)

-- The size that the parser reads is the number that the digits stand for, in the width of `size_t`:
-- for every text, whether all its characters are digits or not.
pub chunk_digits-hex_value :
    (size_mod value : ℕ) (s : Bytes)
    → chunk_digits size_mod (value % size_mod) s
      ≡ Option.map (λ n. n % size_mod) (hex_value value s)
unfolding chunk_digits hex_value
chunk_digits-hex_value size_mod value [] = refl
chunk_digits-hex_value size_mod value (c ∷ cs) = elim (Option-cases (hex_char_to_nibble c)) [
  | inl bad ↦ rw (chunk_digits, hex_value, bad) refl
  | inr (digit, read) ↦
      rw (chunk_digits, hex_value, read, digit_mod size_mod value digit)
        (chunk_digits-hex_value size_mod (value * 16 + digit) cs)
]
