-- ===== src/Websocket/Handshake/Base64.antt =====
-- src/protocol/websocket/ws_handshake.cpp: `Base64Encode`.
use esp_modem_link.Common.{
  ℕ, ◌+◌, ◌-◌, ◌*◌, ◌/◌, ◌%◌, ◌^◌, ◌<◌, bit_and, bit_or, false, [], ◌∷◌, ◌≡◌, refl, ap, arith,
}
use esp_modem_link.Common.Bits.{all_below, agree_below, shift_or_pow, low_six}
use esp_modem_link.Common.Lists.{Bytes, IsByte, All, codes, get_or}
use esp_modem_link.Common.Tests.{ltb, ◌==◌, if◌then◌else◌}

abbrev base64_alphabet : Bytes
base64_alphabet = codes "ABCDEFGHIJKLMNOPQRSTUVWXYZabcdefghijklmnopqrstuvwxyz0123456789+/"

-- `kBase64Alphabet[(group >> shift) & 0x3F]`, where the shift divides by `2 ^ shift`.
unfoldable pub sextet : ℕ → ℕ → ℕ
sextet group shift = get_or base64_alphabet (bit_and (group / 2 ^ shift) 0x3f) 0

-- Three bytes as one number; the tail has fewer, and zeroes for the rest.
unfoldable pub group_of : ℕ → ℕ → ℕ → ℕ
group_of a b c = bit_or (bit_or (a * 2 ^ 16) (b * 2 ^ 8)) c

unfoldable pub base64_encode : Bytes → Bytes
base64_encode [] = []
base64_encode (a ∷ []) = let group = a * 2 ^ 16 in sextet group 18 ∷ sextet group 12 ∷ codes "=="
base64_encode (a ∷ b ∷ []) =
    let group = bit_or (a * 2 ^ 16) (b * 2 ^ 8) in
    sextet group 18 ∷ sextet group 12 ∷ sextet group 6 ∷ codes "="
base64_encode (a ∷ b ∷ c ∷ rest) =
    let group = group_of a b c in
    sextet group 18 ∷ sextet group 12 ∷ sextet group 6 ∷ sextet group 0 ∷ base64_encode rest

-- The value of a character of the alphabet.
abbrev pub digit_value : ℕ → ℕ
digit_value x =
    if ltb x b'0'
    then (if x == b'+' then 62 else 63)
    else if ltb x b'A'
    then x - b'0' + 52
    else if ltb x b'a'
    then x - b'A'
    else x - b'a' + 26

-- RFC 4648 read the other way: four characters are three bytes, less one for each pad.
unfoldable pub base64_decode : Bytes → Bytes
base64_decode (x ∷ y ∷ z ∷ w ∷ rest) =
    let p = digit_value x in
    let q = digit_value y in
    let r = digit_value z in
    let more = base64_decode rest in
    let first = p * 4 + q / 16 in
    let second = q % 16 * 16 + r / 4 in
    if z == b'='
    then first ∷ []
    else if w == b'='
    then first ∷ second ∷ []
    else first ∷ second ∷ (r % 4 * 64 + digit_value w) ∷ more
base64_decode _ = []

digit_value-alphabet : (i : ℕ) → i < 64 → digit_value (get_or base64_alphabet i 0) ≡ i
unfolding all_below
digit_value-alphabet = agree_below (λ i. digit_value (get_or base64_alphabet i 0)) (λ i. i) 64 refl

alphabet-no_pad : (i : ℕ) → i < 64 → (get_or base64_alphabet i 0 == b'=') ≡ false
unfolding all_below
alphabet-no_pad i h =
    let e =
      agree_below (λ j. if get_or base64_alphabet j 0 == b'=' then 1 else 0) (λ j. 0) 64 refl i h in
    ground (arith, e)

-- The character of a sextet has its value, and is not the pad.
sextet_lem :
    (group shift : ℕ)
    → (digit_value (sextet group shift) ≡ group / 2 ^ shift % 64)
      × ((sextet group shift == b'=') ≡ false)
unfolding sextet
sextet_lem group shift =
    let six = group / 2 ^ shift % 64 in
    let small : six < 64 = omega arith in
    rw (low_six (group / 2 ^ shift)) (digit_value-alphabet six small, alphabet-no_pad six small)

group_of_lem :
    (a b c : ℕ) → IsByte a → IsByte b → IsByte c → group_of a b c ≡ a * 65536 + b * 256 + c
unfolding group_of
group_of_lem a b c ha hb hc =
    let high : bit_or (a * 2 ^ 16) (b * 2 ^ 8) ≡ (a * 256 + b) * 2 ^ 8 =
      omega (arith, shift_or_pow 16 a (b * 2 ^ 8) (omega arith)) in
    rw high (omega (arith, shift_or_pow 8 (a * 256 + b) c hc))

-- The bytes that four sextets of a group stand for.
sextets_lem :
    (a b c : ℕ)
    → IsByte a
    → IsByte b
    → IsByte c
    → (g : ℕ) → g ≡ a * 65536 + b * 256 + c
    → let v : ℕ → ℕ = λ shift. digit_value (sextet g shift) in
      (v 18 * 4 + v 12 / 16 ≡ a) × (v 12 % 16 * 16 + v 6 / 4 ≡ b) × (v 6 % 4 * 64 + v 0 ≡ c)
sextets_lem a b c ha hb hc g e =
    rw ((sextet_lem g 18).0, (sextet_lem g 12).0, (sextet_lem g 6).0, (sextet_lem g 0).0)
      (omega arith, omega arith, omega arith)

-- The base64 text of bytes is read back as those bytes, whatever their number.
pub base64_decode-base64_encode :
    (data' : Bytes) → All IsByte data' → base64_decode (base64_encode data') ≡ data'
unfolding base64_encode base64_decode
base64_decode-base64_encode [] h = refl
base64_decode-base64_encode (a ∷ []) (ha, h) =
    let (e, _, _) = sextets_lem a 0 0 ha (omega arith) (omega arith) (a * 2 ^ 16) (omega arith) in
    rw e refl
base64_decode-base64_encode (a ∷ b ∷ []) (ha, (hb, h)) =
    let g = bit_or (a * 2 ^ 16) (b * 2 ^ 8) in
    let value : g ≡ a * 65536 + b * 256 + 0 =
      omega (arith, shift_or_pow 16 a (b * 2 ^ 8) (omega arith)) in
    let (e, f, _) = sextets_lem a b 0 ha hb (omega arith) g value in
    rw ((sextet_lem g 6).1, e, f) refl
base64_decode-base64_encode (a ∷ b ∷ c ∷ rest) (ha, (hb, (hc, h))) =
    let g = group_of a b c in
    let (e, f, k) = sextets_lem a b c ha hb hc g (group_of_lem a b c ha hb hc) in
    rw ((sextet_lem g 6).1, (sextet_lem g 0).1, e, f, k)
      (ap (λ (s : Bytes). a ∷ b ∷ c ∷ s) (base64_decode-base64_encode rest h))
