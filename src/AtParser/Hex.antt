-- ===== src/AtParser/Hex.antt =====
-- `EncodeHex`, `ParseHex` and `ToHexString` of at_parser.cpp.
use esp_modem_link.Common.{
  ℕ, ◌*◌, ◌/◌, ◌%◌, ◌<◌, bit_and, bit_or, some, [], ◌∷◌, arith, ◌≡◌, refl, ap, ◌∙◌,
}
use esp_modem_link.Common.Lists.{Bytes, IsByte, length, All}
use esp_modem_link.Common.Bits.{low_four, shift_or_four}
use esp_modem_link.AtParser.{hex_char_to_nibble, parse_hex, hex_digit, encode_hex}

pub hex_char_to_nibble-hex_digit : (n : ℕ) → n < 16 → hex_char_to_nibble (hex_digit n) ≡ some n
unfolding hex_char_to_nibble hex_digit
hex_char_to_nibble-hex_digit n h = ground arith

parse_hex_step :
    (x y hi lo : ℕ) (rest : Bytes)
    → hex_char_to_nibble x ≡ some hi
    → hex_char_to_nibble y ≡ some lo
    → parse_hex (x ∷ y ∷ rest) ≡ bit_or (hi * 16) lo % 256 ∷ parse_hex rest
unfolding parse_hex
parse_hex_step x y hi lo rest ex ey = rw (ex, parse_hex) (rw (ey, parse_hex))

parse_hex-encode_hex_byte :
    (b : ℕ) (s : Bytes) → b < 256 → parse_hex (encode_hex (b ∷ s)) ≡ b ∷ parse_hex (encode_hex s)
unfolding encode_hex
parse_hex-encode_hex_byte b s hb =
    let nibble : bit_and b 15 ≡ b % 16 = low_four b hb in
    let high = hex_char_to_nibble-hex_digit (b / 16) (omega arith) in
    let low = hex_char_to_nibble-hex_digit (b % 16) (omega arith) in
    let whole : bit_or (b / 16 * 16) (b % 16) % 256 ≡ b =
      omega (arith, shift_or_four (b / 16) (b % 16) (omega arith)) in
    rw nibble (
      parse_hex_step (hex_digit (b / 16)) (hex_digit (b % 16)) (b / 16) (b % 16) (encode_hex s) high
        low
      ∙ rw whole)

-- Reading back what was rendered gives the bytes, in order.
parse_hex-encode_hex : (s : Bytes) → All IsByte s → parse_hex (encode_hex s) ≡ s
parse_hex-encode_hex [] h = unfold encode_hex parse_hex in refl
parse_hex-encode_hex (b ∷ s) (hb, hs) =
    parse_hex-encode_hex_byte b s hb ∙ ap (◌∷◌ b) (parse_hex-encode_hex s hs)

-- The text form of a payload is two digits to a byte.
pub length-encode_hex : (s : Bytes) → length (encode_hex s) ≡ 2 * length s
unfolding encode_hex
length-encode_hex [] = refl
length-encode_hex (b ∷ s) = omega (arith, length-encode_hex s)
