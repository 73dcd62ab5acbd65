-- ===== src/Http/Client/Upload/Size.antt =====
-- The size line of a chunk: what `ToHexString` of at_parser.cpp writes for software_http_client.cpp, and
-- what the chunk reader of http_parser.cpp makes of it.
use esp_modem_link.Common.{
  ℕ, zero, suc, ◌+◌, ◌*◌, ◌/◌, ◌%◌, ◌^◌, ◌<◌, bit_and, Bool, some, [], ◌∷◌, ◌++◌, append_assoc,
  append-nil, arith, ◌≡◌, refl, sym, ap, ◌∙◌, inl, inr,
}
use esp_modem_link.Common.Bits.{low_nibble}
use esp_modem_link.Common.Lists.{Bytes}
use esp_modem_link.Common.Tests.{Option-cases, ltb, ◌==◌, if◌then◌else◌, Bool-cases}
use esp_modem_link.AtParser.{hex_char_to_nibble, hex_digit, hex_loop, to_hex_string}
use esp_modem_link.AtParser.Hex.{hex_char_to_nibble-hex_digit}
use esp_modem_link.Http.Parser.Feed.{chunk_digits}
use esp_modem_link.Http.Parser.Feed.Chunks.{hex_value, chunk_digits-hex_value}
use native.Mathlib.Nat.{pow-suc}
use mathlib.Core.Option
use mathlib.Core.List.{reverse, reverse-append}

-- The digits of a number, the lowest first.
digits : ℕ → ℕ → Bytes
digits zero value = []
digits (suc rounds) value =
    let rest = digits rounds (value / 16) in
    if ltb 0 value then hex_digit (bit_and value 0x0f) ∷ rest else []

hex_loop-digits :
    (rounds value : ℕ) (out : Bytes) → hex_loop rounds value out ≡ out ++ digits rounds value
unfolding hex_loop digits
hex_loop-digits zero value out = sym (append-nil out)
hex_loop-digits (suc rounds) value out = elim (Bool-cases (ltb 0 value)) [
  | inl more ↦
      rw (more, hex_loop)
        (hex_loop-digits rounds (value / 16) (out ++ hex_digit (bit_and value 0x0f) ∷ [])
          ∙ append_assoc out (hex_digit (bit_and value 0x0f) ∷ []) (digits rounds (value / 16)))
  | inr done ↦ rw done (sym (append-nil out))
]

hex_value-snoc :
    (start value d : ℕ) (s : Bytes)
    → d < 16
    → hex_value start s ≡ some value
    → hex_value start (s ++ hex_digit d ∷ []) ≡ some (value * 16 + d)
unfolding hex_value
hex_value-snoc start value d [] small e =
    let same : start ≡ value = cc in rw (hex_value, hex_char_to_nibble-hex_digit d small, same) refl
hex_value-snoc start value d (c ∷ s) small e = elim (Option-cases (hex_char_to_nibble c)) [
  | inl bad ↦ let read = rw (bad, hex_value) at e in cc
  | inr (x, good) ↦
      rw (good, hex_value)
        (hex_value-snoc (start * 16 + x) value d s small (rw (good, hex_value) at e))
]

hex_value-digits :
    (rounds value : ℕ)
    → value < 16 ^ rounds
    → hex_value 0 (reverse (digits rounds value)) ≡ some value
unfolding digits hex_value
hex_value-digits zero value h = let nothing : value ≡ 0 = omega arith in rw nothing refl
hex_value-digits (suc rounds) value h = elim (Bool-cases (ltb 0 value)) [
  | inl more ↦ rw more (
      let low = hex_digit (bit_and value 0x0f) in
      let nibble : bit_and value 0x0f ≡ value % 16 = low_nibble value in
      let whole : value / 16 * 16 + value % 16 ≡ value = omega arith in
      let front = hex_value-digits rounds (value / 16) (omega (arith, pow-suc 16 rounds)) in
      rw (reverse-append (low ∷ []) (digits rounds (value / 16)), nibble)
        (hex_value-snoc 0 (value / 16) (value % 16) (reverse (digits rounds (value / 16)))
            (omega arith) front
          ∙ ap some whole))
  | inr done ↦ rw done (let nothing : value ≡ 0 = ground arith in rw nothing refl)
]

hex_value-to_hex_string : (size : ℕ) → size < 16 ^ 16 → hex_value 0 (to_hex_string size) ≡ some size
unfolding to_hex_string hex_value hex_char_to_nibble
hex_value-to_hex_string size wide =
    let loop =
      ap (λ (s : Bytes). hex_value 0 (reverse s)) (hex_loop-digits 16 size [])
      ∙ hex_value-digits 16 size wide in
    elim (Bool-cases (size == 0)) [
      | inl empty ↦ let nothing : size ≡ 0 = ground arith in rw nothing refl
      | inr filled ↦
          ap (λ (b : Bool). hex_value 0 (if b then b'0' ∷ [] else reverse (hex_loop 16 size [])))
            filled
          ∙ loop
    ]

-- The size that is written in front of a chunk is the size that a reader of chunks takes from it, for
-- every size below 2 ^ 64 that fits the reader's `size_t`.
pub chunk_digits-to_hex_string :
    (size_mod size : ℕ)
    → size < 16 ^ 16
    → size < size_mod
    → chunk_digits size_mod 0 (to_hex_string size) ≡ some size
chunk_digits-to_hex_string size_mod size wide fits =
    let start : 0 ≡ 0 % size_mod = omega arith in
    let same : size % size_mod ≡ size = grind arith in
    ap (λ (n : ℕ). chunk_digits size_mod n (to_hex_string size)) start
    ∙ chunk_digits-hex_value size_mod 0 (to_hex_string size)
    ∙ ap (Option.map (λ (n : ℕ). n % size_mod)) (hex_value-to_hex_string size wide)
    ∙ ap some same
