-- ===== src/AtParser/Numbers.antt =====
-- `ParseInt` of at_parser.cpp.
use esp_modem_link.Common.{true, some, [], ◌∷◌, arith, ◌≡◌}
use esp_modem_link.Common.Int.{ℤ, is_int}
use esp_modem_link.Common.Lists.{Bytes}
use esp_modem_link.AtParser.{parse_int}

-- Whatever the text, a number that is read fits an `int`.
parse_int-is_int : (s : Bytes) (n : ℤ) → parse_int s ≡ some n → is_int n ≡ true
unfolding parse_int
parse_int-is_int [] n e = cc
parse_int-is_int (c ∷ cs) n e = ground arith
