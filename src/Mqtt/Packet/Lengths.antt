-- ===== src/Mqtt/Packet/Lengths.antt =====
-- The remaining-length field of `EncodeRemainingLength` and `DecodeRemainingLength`.
use esp_modem_link.Common.{
  ℕ, zero, suc, ◌+◌, ◌*◌, ◌/◌, ◌%◌, ◌^◌, ◌≤◌, ◌<◌, bit_and, bit_or, arith, true, false, Option,
  none, some, List, [], ◌∷◌, ◌++◌, append_assoc, ◌≡◌, refl, sym, ap, ◌∙◌, inl, inr, ◌≢◌,
}
use esp_modem_link.Common.Lists.{Bytes, length}
use esp_modem_link.Common.Tests.{ltb, Bool-cases, ◌==◌}
use native.Mathlib.Decide.{dec_lt}
use native.Mathlib.Nat.{pow-suc, div-add-mod, mul_comm, mul_assoc, mul-add}
use esp_modem_link.Common.Bits.{low_seven, top_bit, set_top_bit}
use esp_modem_link.Mqtt.Packet.{
  max_remaining_length, encode_loop, encode_remaining_length, decode_loop, decode_remaining_length,
}

-- What the loop has written stays in front.
encode_loop-append : (r : ℕ) (out : Bytes) (v : ℕ) → encode_loop r out v ≡ out ++ encode_loop r [] v
unfolding encode_loop
encode_loop-append zero out v = sym (esp_modem_link.Common.append-nil out)
encode_loop-append (suc r) out v = elim (Bool-cases (ltb 0 (v / 128))) [
  | inl more ↦ rw more (
      encode_loop-append r (out ++ bit_or (v % 128) 0x80 ∷ []) (v / 128)
      ∙ append_assoc out (bit_or (v % 128) 0x80 ∷ []) (encode_loop r [] (v / 128))
      ∙ ap (◌++◌ out) (sym (encode_loop-append r (bit_or (v % 128) 0x80 ∷ []) (v / 128))))
  | inr last ↦ rw last
]

-- The first byte of the field, and the rest of it.
encode_loop_last : (r v : ℕ) → v < 128 → encode_loop (suc r) [] v ≡ v ∷ []
unfolding encode_loop
encode_loop_last r v h = ground arith

encode_loop_more :
    (r v : ℕ) → 128 ≤ v → encode_loop (suc r) [] v ≡ (v % 128 + 128) ∷ encode_loop r [] (v / 128)
unfolding encode_loop
encode_loop_more r v h =
    ground
      (arith, set_top_bit (v % 128), encode_loop-append r (bit_or (v % 128) 0x80 ∷ []) (v / 128))

-- One round of the decoder on a last byte and on a byte that another follows.
decode_last :
    (r i value m b : ℕ) (rest : Bytes)
    → b < 128
    → decode_loop (suc r) i value m (b ∷ rest) ≡ some (value + b * m, i + 1)
unfolding decode_loop
decode_last r i value m b rest h = ground (arith, low_seven b, top_bit b)

decode_more :
    (r i value m b : ℕ) (rest : Bytes)
    → b < 128
    → decode_loop (suc r) i value m ((b + 128) ∷ rest)
      ≡ decode_loop r (i + 1) (value + b * m) (m * 128) rest
unfolding decode_loop
decode_more r i value m b rest h = ground (arith, low_seven (b + 128), top_bit (b + 128))

another_round : (r v : ℕ) → 128 ≤ v → v < 128 ^ suc r → (0 < r) × (v / 128 < 128 ^ r)
another_round zero v h lt = absurd (omega arith)
another_round (suc r) v h lt = omega (arith, pow-suc 128 (suc r))

decode_loop-encode_loop :
    (r s i value m v : ℕ) (rest : Bytes)
    → r ≤ s
    → 0 < r
    → v < 128 ^ r
    → decode_loop r i value m (encode_loop s [] v ++ rest)
      ≡ some (value + v * m, i + length (encode_loop s [] v))
decode_loop-encode_loop zero s i value m v rest hs hr hv = absurd (omega arith)
decode_loop-encode_loop (suc r) zero i value m v rest hs hr hv = absurd (omega arith)
decode_loop-encode_loop (suc r) (suc s) i value m v rest hs hr hv = elim (dec_lt v 128) [
  | yes small ↦ rw (encode_loop_last s v small, decode_last r i value m v rest small) (ground arith)
  | no large ↦
      let (left, fits) = another_round r v (omega arith) hv in
      rw
        (
          encode_loop_more s v (omega arith),
          decode_more r i value m (v % 128) (encode_loop s [] (v / 128) ++ rest) (omega arith),
          decode_loop-encode_loop r s (i + 1) (value + v % 128 * m) (m * 128) (v / 128) rest
              (omega arith) left fits,
        )
        (ground (arith, ap (λ (t : ℕ). t * m) (div-add-mod v 128)))
]

-- Decoding reads back every value that the four bytes can hold, and says how many bytes it took,
-- whatever follows the field.
pub decode-encode_remaining_length :
    (v : ℕ) (rest : Bytes)
    → v ≤ max_remaining_length
    → decode_remaining_length (encode_remaining_length v ++ rest)
      ≡ some (v, length (encode_remaining_length v))
unfolding encode_remaining_length decode_remaining_length
decode-encode_remaining_length v rest h = ground (arith, decode_loop-encode_loop 4 5 0 0 1 v rest)

length-encode_loop :
    (r v : ℕ)
    → 0 < r
    → v < 128 ^ r
    → (s : ℕ) → r ≤ s
    → (0 < length (encode_loop s [] v)) × (length (encode_loop s [] v) ≤ r)
length-encode_loop zero v h lt s le = absurd (omega arith)
length-encode_loop (suc r) v h lt zero le = absurd (omega arith)
length-encode_loop (suc r) v h lt (suc s) le = elim (dec_lt v 128) [
  | yes small ↦ rw (encode_loop_last s v small) (omega arith)
  | no large ↦
      let (left, fits) = another_round r v (omega arith) lt in
      rw (encode_loop_more s v (omega arith))
        (omega (arith, length-encode_loop r (v / 128) left fits s (omega arith)))
]

-- The field is one to four bytes for a value in range.
pub length-encode_remaining_length :
    (v : ℕ)
    → v ≤ max_remaining_length
    → (0 < length (encode_remaining_length v)) × (length (encode_remaining_length v) ≤ 4)
unfolding encode_remaining_length
length-encode_remaining_length v h =
    ground (arith, length-encode_loop 4 v (omega arith) (omega arith) 5 (omega arith))

-- The decoder looks at no byte behind the field, and takes no more bytes than there are.
decode_loop_ok :
    (r i value m : ℕ) (buffer more : Bytes) (v n : ℕ)
    → decode_loop r i value m buffer ≡ some (v, n)
    → (decode_loop r i value m (buffer ++ more) ≡ some (v, n))
      × (n ≤ i + length buffer)
      × (i < n)
      × (n ≤ i + r)
unfolding decode_loop
decode_loop_ok zero i value m buffer more v n e = cc
decode_loop_ok (suc r) i value m [] more v n e = cc
decode_loop_ok (suc r) i value m (b ∷ buffer) more v n e =
    ground (arith, decode_loop_ok r (i + 1) (value + bit_and b 0x7f * m) (m * 128) buffer more v n)

-- The octets of a length: all but the last say that another one follows.
abbrev pub LengthField : Bytes → Type 0
LengthField [] = ⊥
LengthField (b ∷ []) = (bit_and b 0x80 == 0) ≡ true
LengthField (b ∷ c ∷ bs) = ((bit_and b 0x80 == 0) ≡ false) × LengthField (c ∷ bs)

-- The number that the octets stand for, the lowest seven bits first.
abbrev pub length_value : Bytes → ℕ
length_value [] = 0
length_value (b ∷ bs) = bit_and b 0x7f + 128 * length_value bs

LengthField-prepend :
    (b : ℕ) (field : Bytes)
    → (bit_and b 0x80 == 0) ≡ false
    → LengthField field
    → LengthField (b ∷ field)
LengthField-prepend b [] more form = absurd form
LengthField-prepend b (c ∷ bs) more form = (more, form)

decode_loop-LengthField :
    (rounds i value m : ℕ) (buffer : Bytes) (v n : ℕ)
    → decode_loop rounds i value m buffer ≡ some (v, n)
    → (field : Bytes) × (rest : Bytes) × (field ++ rest ≡ buffer)
      × LengthField field
      × (i + length field ≡ n)
      × (value + m * length_value field ≡ v)
unfolding decode_loop
decode_loop-LengthField zero i value m buffer v n e = cc
decode_loop-LengthField (suc r) i value m [] v n e = cc
decode_loop-LengthField (suc r) i value m (b ∷ buffer) v n e =
    elim (Bool-cases (bit_and b 0x80 == 0)) [
      | inl last ↦
          let sum : value + bit_and b 0x7f * m ≡ v = ground arith in
          let count : i + 1 ≡ n = ground arith in
          (b ∷ [], buffer, refl, last, count, omega (arith, sum, mul_comm m (bit_and b 0x7f)))
      | inr more ↦
          let (field, rest, splits, form, count, sum) =
            decode_loop-LengthField r (i + 1) (value + bit_and b 0x7f * m) (m * 128) buffer v n
              cc in
          (
            b ∷ field,
            rest,
            ap (◌∷◌ b) splits,
            LengthField-prepend b field more form,
            omega (arith, count),
            omega (
              arith,
              sum,
              mul_comm m (bit_and b 0x7f),
              mul_assoc m 128 (length_value field),
              mul-add m (bit_and b 0x7f) (128 * length_value field),
            ),
          )
    ]

-- The field that the decoder reads, and what it makes of it.
pub decode_remaining_length-LengthField :
    (buffer : Bytes) (v n : ℕ)
    → decode_remaining_length buffer ≡ some (v, n)
    → (field : Bytes) × (rest : Bytes) × (field ++ rest ≡ buffer)
      × LengthField field
      × (length field ≡ n)
      × (length_value field ≡ v)
unfolding decode_remaining_length
decode_remaining_length-LengthField buffer v n e =
    let (field, rest, splits, form, count, sum) = decode_loop-LengthField 4 0 0 1 buffer v n e in
    (field, rest, splits, form, omega (arith, count), omega (arith, sum))

pub decode_remaining_length_ok :
    (buffer more : Bytes) (v n : ℕ)
    → decode_remaining_length buffer ≡ some (v, n)
    → (decode_remaining_length (buffer ++ more) ≡ some (v, n))
      × (n ≤ length buffer)
      × (0 < n)
      × (n ≤ 4)
unfolding decode_remaining_length
decode_remaining_length_ok buffer more v n e =
    ground (arith, decode_loop_ok 4 0 0 1 buffer more v n e)

-- A byte with the continuation bit set.
abbrev pub Continues : ℕ → Type 0
Continues b = (128 ≤ b) × (b < 256)

-- Four continuation bytes are refused, whatever follows: the field is malformed, not incomplete.
pub decode_remaining_length_malformed :
    (b0 b1 b2 b3 : ℕ) (more : Bytes)
    → Continues b0
    → Continues b1
    → Continues b2
    → Continues b3
    → decode_remaining_length (b0 ∷ b1 ∷ b2 ∷ b3 ∷ more) ≡ none
unfolding decode_remaining_length decode_loop
decode_remaining_length_malformed b0 b1 b2 b3 more h0 h1 h2 h3 =
    ground (arith, top_bit b0, top_bit b1, top_bit b2, top_bit b3)
