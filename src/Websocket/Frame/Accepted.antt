-- ===== src/Websocket/Frame/Accepted.antt =====
-- What `TakeFrame` makes of any buffer, well formed or not.
use esp_modem_link.Common.{
  ℕ, ◌+◌, ◌*◌, ◌≤◌, bit_and, bit_or, Bool, false, not, ◌&&◌, Option, none, some, [], ◌∷◌, ◌++◌,
  arith, ◌≡◌, refl, sym, ap, ◌∙◌, inl, inr, zero, suc, ◌%◌, ◌^◌, ◌≢◌,
}
use esp_modem_link.Common.Lists.{
  Bytes, length, get_or, length-take, length-drop, take, drop, take-append-drop, drop-drop,
}
use esp_modem_link.Common.Tests.{ltb, ◌==◌, Bool-cases}
use esp_modem_link.Websocket.Frame.{
  WsOpcode, is_control_opcode, max_control_payload, WsFrame, WsFrameRead, incomplete, ready,
  invalid, opcode_from_raw, read_length, take_payload, take_length, take_opcode, take_frame,
}

-- A number in octets, the highest first, in 64 bits.
abbrev pub octets_value : ℕ → Bytes → ℕ
octets_value value [] = value
octets_value value (b ∷ bytes) = octets_value (bit_or (value * 256 % 2 ^ 64) b) bytes

-- How seven bits, and the octets behind them, say a length: in the bits themselves, or in two or in
-- eight octets.
pub data Says (seven : ℕ) (octets : Bytes) (n : ℕ) : Type 0 where
  in_seven_bits : octets ≡ [] → seven ≡ n → n ≢ 126 → n ≢ 127 → Says seven octets n
  in_two_octets :
      (a b : ℕ) → seven ≡ 126 → octets ≡ a ∷ b ∷ [] → n ≡ bit_or (a * 256) b → Says seven octets n
  in_eight_octets :
      seven ≡ 127 → length octets ≡ 8 → n ≡ octets_value 0 octets → Says seven octets n

-- The head of a frame with `n` bytes of payload: two bytes, and the octets of the length.
abbrev pub IsHead : Bytes → ℕ → Type 0
IsHead [] n = ⊥
IsHead (first ∷ []) n = ⊥
IsHead (first ∷ second ∷ octets) n = Says (bit_and second 0x7f) octets n

pub IsHead-length : (head : Bytes) (n : ℕ) → IsHead head n → 2 ≤ length head
IsHead-length [] n h = absurd h
IsHead-length (first ∷ []) n h = absurd h
IsHead-length (first ∷ second ∷ octets) n h = omega arith

-- A frame at the front of a buffer: its head, its payload, and what is left.
pub record FrameAt (buffer : Bytes) (f : WsFrame) (rest : Bytes) : Type 0 where
  pub head : Bytes
  pub splits : head ++ (f.payload ++ rest) ≡ buffer
  pub form : IsHead head (length f.payload)
  pub whole : is_control_opcode f.opcode && not f.fin ≡ false
  pub short : is_control_opcode f.opcode && ltb max_control_payload (length f.payload) ≡ false

-- Without a frame nothing is erased.
abbrev pub Sound : Bytes → WsFrameRead × Bytes → Type 0
Sound buffer (incomplete, rest) = rest ≡ buffer
Sound buffer (invalid reason, rest) = rest ≡ buffer
Sound buffer (ready f, rest) = FrameAt buffer f rest

take_payload-FrameAt :
    (buffer : Bytes) (fin : Bool) (opcode : WsOpcode) (n offset : ℕ)
    → IsHead (take offset buffer) n
    → offset + n ≤ length buffer
    → is_control_opcode opcode && not fin ≡ false
    → is_control_opcode opcode && ltb max_control_payload n ≡ false
    → FrameAt buffer
        (record { fin = fin; opcode = opcode; payload = take n (drop offset buffer) })
        (drop (offset + n) buffer)
take_payload-FrameAt buffer fin opcode n offset form fits whole short =
    let size : length (take n (drop offset buffer)) ≡ n =
      omega (arith, length-take n (drop offset buffer), length-drop offset buffer) in
    record {
      head = take offset buffer;
      splits =
          ap (λ (t : Bytes). take offset buffer ++ (take n (drop offset buffer) ++ t))
            (sym (drop-drop n offset buffer))
          ∙ ap (λ (t : Bytes). take offset buffer ++ t) (take-append-drop n (drop offset buffer))
          ∙ take-append-drop offset buffer;
      form = rw size form;
      whole = whole;
      short = rw size short;
    }

take_payload-Sound :
    (buffer : Bytes) (fin : Bool) (opcode : WsOpcode) (n offset : ℕ)
    → (offset ≤ length buffer → IsHead (take offset buffer) n)
    → Sound buffer (take_payload buffer fin opcode n offset)
unfolding take_payload
take_payload-Sound buffer fin opcode n offset form =
    elim (Bool-cases (is_control_opcode opcode && not fin)) [
      | inl split ↦ rw split refl
      | inr whole ↦ elim (Bool-cases (is_control_opcode opcode && ltb max_control_payload n)) [
        | inl long ↦ rw (whole, long) refl
        | inr short ↦ elim (Bool-cases (ltb (length buffer) (offset + n))) [
          | inl more ↦ rw (whole, short, more) refl
          | inr fits ↦
              rw (whole, short, fits)
                (take_payload-FrameAt buffer fin opcode n offset (form (ground arith))
                  (ground arith) whole short)
        ]
      ]
    ]

read_length-octets_value :
    (n value : ℕ) (bytes : Bytes) → read_length n value bytes ≡ octets_value value (take n bytes)
unfolding read_length
read_length-octets_value zero value bytes = refl
read_length-octets_value (suc n) value [] = refl
read_length-octets_value (suc n) value (b ∷ bytes) =
    read_length-octets_value n (bit_or (value * 256 % 2 ^ 64) b) bytes

-- The head with two octets of length, and the one with eight.
two_octets-IsHead :
    (first second : ℕ) (rest : Bytes)
    → bit_and second 0x7f ≡ 126
    → 4 ≤ length (first ∷ second ∷ rest)
    → IsHead (take 4 (first ∷ second ∷ rest)) (bit_or (get_or rest 0 0 * 256) (get_or rest 1 0))
two_octets-IsHead first second [] e fits = absurd (omega arith)
two_octets-IsHead first second (a ∷ []) e fits = absurd (omega arith)
two_octets-IsHead first second (a ∷ b ∷ rest) e fits = in_two_octets a b e refl refl

eight_octets-IsHead :
    (first second : ℕ) (rest : Bytes)
    → bit_and second 0x7f ≡ 127
    → 10 ≤ length (first ∷ second ∷ rest)
    → IsHead (take 10 (first ∷ second ∷ rest)) (read_length 8 0 rest)
eight_octets-IsHead first second rest e fits =
    in_eight_octets e (omega (arith, length-take 8 rest)) (read_length-octets_value 8 0 rest)

take_length-Sound :
    (first second : ℕ) (rest : Bytes) (fin : Bool) (opcode : WsOpcode)
    → Sound
        (first ∷ second ∷ rest)
        (take_length (first ∷ second ∷ rest) rest fin opcode (bit_and second 0x7f))
unfolding take_length
take_length-Sound first second rest fin opcode =
    let buffer = first ∷ second ∷ rest in
    elim (Bool-cases (bit_and second 0x7f == 126)) [
      | inl two ↦ elim (Bool-cases (ltb (length buffer) 4)) [
        | inl more ↦ rw (two, more) refl
        | inr whole ↦
            rw (two, whole)
              (take_payload-Sound buffer fin opcode
                (bit_or (get_or rest 0 0 * 256) (get_or rest 1 0)) 4
                (two_octets-IsHead first second rest (ground arith)))
      ]
      | inr other ↦ elim (Bool-cases (bit_and second 0x7f == 127)) [
        | inl eight ↦ ground (
          arith,
          take_payload-Sound buffer fin opcode (read_length 8 0 rest) 10
              (eight_octets-IsHead first second rest (ground arith)),
        )
        | inr small ↦
            rw (other, small)
              (take_payload-Sound buffer fin opcode (bit_and second 0x7f) 2
                (λ h. in_seven_bits refl refl (ground arith) (ground arith)))
      ]
    ]

take_opcode-Sound :
    (rest : Bytes) (first second : ℕ) (o : Option WsOpcode)
    → Sound (first ∷ second ∷ rest) (take_opcode (first ∷ second ∷ rest) rest first second o)
unfolding take_opcode
take_opcode-Sound rest first second none = refl
take_opcode-Sound rest first second (some opcode) =
    elim (Bool-cases (not (bit_and second 0x80 == 0))) [
      | inl masked ↦ rw masked refl
      | inr clear ↦
          rw clear (take_length-Sound first second rest (not (bit_and first 0x80 == 0)) opcode)
    ]

-- A frame is handed over only off the front of the buffer: what is erased is a head whose length
-- bits, with the two or eight octets behind them where they ask for such, say the number of bytes of
-- payload, and then the payload; a control frame is whole and carries at most 125 bytes; and where
-- no frame is handed over the buffer is left as it was.
pub take_frame-Sound : (buffer : Bytes) → Sound buffer (take_frame buffer)
unfolding take_frame
take_frame-Sound [] = refl
take_frame-Sound (x ∷ []) = refl
take_frame-Sound (first ∷ second ∷ rest) = elim (Bool-cases (not (bit_and first 0x70 == 0))) [
  | inl reserved ↦ rw reserved refl
  | inr clear ↦
      rw clear (take_opcode-Sound rest first second (opcode_from_raw (bit_and first 0x0f)))
]
