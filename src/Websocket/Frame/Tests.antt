-- ===== src/Websocket/Frame/Tests.antt =====
-- Runs of the frame codec, and each theorem at a concrete input.
use esp_modem_link.Common.{true, none, some, [], ◌∷◌, arith, ◌≡◌, refl}
use esp_modem_link.Error.{ok}
use esp_modem_link.Websocket.Frame.{
  text, ready, encode_frame, frame_bytes, take_frame, length_field, frame_header, append_masked,
  big_endian, masked_from,
}
use esp_modem_link.Websocket.Frame.RoundTrip.{take_frame-encode_frame}
use esp_modem_link.Websocket.Frame.Accepted.{Sound, take_frame-Sound}

encode_frame_hi : encode_frame text (104 ∷ 105 ∷ []) true none ≡ ok (129 ∷ 2 ∷ 104 ∷ 105 ∷ [])
unfolding encode_frame frame_bytes frame_header length_field
encode_frame_hi = refl

encode_frame_masked :
    encode_frame text (104 ∷ 105 ∷ []) true (some 0x01020304)
    ≡ ok (129 ∷ 130 ∷ 1 ∷ 2 ∷ 3 ∷ 4 ∷ 105 ∷ 107 ∷ [])
unfolding encode_frame frame_bytes frame_header length_field append_masked big_endian masked_from
encode_frame_masked = refl

take_frame-encode_frame_example :
    take_frame (129 ∷ 2 ∷ 104 ∷ 105 ∷ 9 ∷ [])
    ≡ (ready (record { fin = true; opcode = text; payload = 104 ∷ 105 ∷ [] }), 9 ∷ [])
take_frame-encode_frame_example =
    take_frame-encode_frame text (104 ∷ 105 ∷ []) true (129 ∷ 2 ∷ 104 ∷ 105 ∷ []) (9 ∷ [])
      encode_frame_hi (omega arith)

take_frame-Sound_example : Sound (129 ∷ 1 ∷ 104 ∷ 9 ∷ []) (take_frame (129 ∷ 1 ∷ 104 ∷ 9 ∷ []))
take_frame-Sound_example = take_frame-Sound (129 ∷ 1 ∷ 104 ∷ 9 ∷ [])
