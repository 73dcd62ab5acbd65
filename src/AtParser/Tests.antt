-- ===== src/AtParser/Tests.antt =====
-- Runs of the AT field parser, and each theorem at a concrete input.
use esp_modem_link.Common.{some, [], ◌∷◌, ◌≡◌, refl}
use esp_modem_link.Common.Int.{negsuc}
use esp_modem_link.AtParser.{parse_int, decimal}

parse_int_smallest : parse_int (b'-' ∷ b'4' ∷ b'2' ∷ []) ≡ some (negsuc 41)
unfolding parse_int decimal
parse_int_smallest = refl
