-- ===== src/AtParser/Decimal.antt =====
-- `ParseInt` of at_parser.cpp reads back what `std::to_string` printed.
use esp_modem_link.Common.{
  ℕ, zero, suc, ◌+◌, ◌-◌, ◌*◌, ◌/◌, ◌%◌, ◌≤◌, ◌<◌, some, [], ◌∷◌, ◌++◌, arith, ◌≡◌, ◌≢◌, refl, ap,
  ◌∙◌, inl, inr,
}
use esp_modem_link.Common.Decimal.{
  decimal_digits, DecimalDigit, to_decimal, to_decimal-All, to_decimal-ne-nil,
}
use esp_modem_link.Common.Int.{pos, int_max}
use esp_modem_link.Common.Lists.{Bytes, All}
use esp_modem_link.Common.Tests.{ltb, Bool-cases}
use esp_modem_link.AtParser.{digits_value, decimal, parse_int}

-- The value so far, and then one digit more.
digits_value-snoc :
    (v : ℕ) (s : Bytes) (m d : ℕ)
    → digits_value v s ≡ some m
    → d < 10
    → digits_value v (s ++ (b'0' + d) ∷ []) ≡ some (m * 10 + d)
unfolding digits_value
digits_value-snoc v [] m d e h = ground arith
digits_value-snoc v (c ∷ s) m d e h = ground (arith, digits_value-snoc (v * 10 + (c - b'0')) s m d)

digits_value-decimal_digits :
    (fuel n : ℕ) → n < fuel → digits_value 0 (decimal_digits fuel n) ≡ some n
unfolding decimal_digits digits_value
digits_value-decimal_digits zero n h = absurd (omega arith)
digits_value-decimal_digits (suc fuel) n h = elim (Bool-cases (ltb n 10)) [
  | inl small ↦ rw small (ground arith)
  | inr large ↦ rw large (
      digits_value-snoc 0 (decimal_digits fuel (n / 10)) (n / 10) (n % 10)
        (digits_value-decimal_digits fuel (n / 10) (ground arith)) (omega arith)
      ∙ ap some (omega arith))
]

parse_int-digits :
    (s : Bytes) (n : ℕ)
    → s ≢ []
    → All DecimalDigit s
    → digits_value 0 s ≡ some n
    → n ≤ int_max
    → parse_int s ≡ some (pos n)
unfolding parse_int decimal
parse_int-digits [] n ne h e le = absurd (ne refl)
parse_int-digits (c ∷ cs) n ne (hc, h) e le = ground arith

pub parse_int-to_decimal : (n : ℕ) → n ≤ int_max → parse_int (to_decimal n) ≡ some (pos n)
unfolding to_decimal
parse_int-to_decimal n h =
    parse_int-digits (to_decimal n) n (to_decimal-ne-nil n) (to_decimal-All n)
      (digits_value-decimal_digits (n + 1) n (omega arith)) h
