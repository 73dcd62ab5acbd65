-- ===== src/Common/Decimal.antt =====
-- `std::to_string` of a number that is not negative.
use Prim.Native.Nat.{ℕ, zero, suc, ◌+◌, ◌/◌, ◌%◌, ◌≤◌}
use mathlib.Core.Path.{◌≡◌}
use mathlib.Core.List.{[], ◌∷◌, ◌++◌}
use mathlib.Core.Logic.{◌≢◌, inl, inr}
use native.Mathlib.Omega.{arith}
use esp_modem_link.Common.Lists.{Bytes, All, All-append}
use esp_modem_link.Common.Tests.{ltb, if◌then◌else◌, Bool-cases}

-- The digits, the highest first. A round takes the lowest digit off.
unfoldable pub decimal_digits : ℕ → ℕ → Bytes
decimal_digits zero n = []
decimal_digits (suc fuel) n =
    let front = decimal_digits fuel (n / 10) in
    if ltb n 10 then (b'0' + n) ∷ [] else front ++ (b'0' + n % 10) ∷ []

-- A number has no more digits than it is large.
unfoldable pub to_decimal : ℕ → Bytes
unfolding decimal_digits
to_decimal n = decimal_digits (n + 1) n

abbrev pub DecimalDigit : ℕ → Type 0
DecimalDigit c = (b'0' ≤ c) × (c ≤ b'9')

decimal_digits-All : (fuel n : ℕ) → All DecimalDigit (decimal_digits fuel n)
unfolding decimal_digits
decimal_digits-All zero n = tt
decimal_digits-All (suc fuel) n = elim (Bool-cases (ltb n 10)) [
  | inl small ↦ rw small (ground arith, tt)
  | inr large ↦ rw large (
      All-append DecimalDigit (decimal_digits fuel (n / 10)) ((b'0' + n % 10) ∷ [])
        (decimal_digits-All fuel (n / 10)) ((omega arith, omega arith), tt))
]

pub to_decimal-All : (n : ℕ) → All DecimalDigit (to_decimal n)
unfolding to_decimal
to_decimal-All n = decimal_digits-All (n + 1) n

snoc-ne-nil : (s : Bytes) (c : ℕ) → s ++ c ∷ [] ≢ []
snoc-ne-nil [] c e = cc
snoc-ne-nil (x ∷ s) c e = cc

decimal_digits-ne-nil : (fuel n : ℕ) → decimal_digits (suc fuel) n ≢ []
unfolding decimal_digits
decimal_digits-ne-nil fuel n = elim (Bool-cases (ltb n 10)) [
  | inl small ↦ rw small (λ e. cc)
  | inr large ↦ rw large (snoc-ne-nil (decimal_digits fuel (n / 10)) (b'0' + n % 10))
]

pub to_decimal-ne-nil : (n : ℕ) → to_decimal n ≢ []
unfolding to_decimal
to_decimal-ne-nil n = let fuel : n + 1 ≡ suc n = omega arith in rw fuel (decimal_digits-ne-nil n n)
