-- ===== src/Common/Bits.antt =====
-- The bit operations that the source makes on bytes and words, as arithmetic. Facts on one byte are
-- tables, checked by evaluation; the law of `|` at disjoint bits holds for every width.
use Prim.Native.Nat.{
  ℕ, zero, suc, ◌+◌, ◌*◌, ◌/◌, ◌%◌, ◌^◌, ◌≤◌, ◌<◌, min, max, bit_and, bit_or, digits,
  bit_or-bitwise, bit_and-bitwise,
}
use mathlib.Core.Path.{◌≡◌, refl, ap, sym, ◌∙◌}
use mathlib.Core.Bool.{Bool, true, false}
use native.Mathlib.Omega.{arith}
use native.Mathlib.Nat.{pow-suc, div-div-eq-div-mul}
use esp_modem_link.Common.Tests.{◌==◌, ==_iff, if◌then◌else◌}

-- Whether a test holds of every number below a bound.
unfoldable pub all_below : ℕ → (ℕ → Bool) → Bool
all_below zero holds = true
all_below (suc bound) holds = if holds bound then all_below bound holds else false

pub all_below_sound :
    (bound : ℕ) (holds : ℕ → Bool) (i : ℕ)
    → i < bound
    → all_below bound holds ≡ true
    → holds i ≡ true
unfolding all_below
all_below_sound zero holds i small all = elim small [ ]
all_below_sound (suc bound) holds i small all = ground (arith, all_below_sound bound holds i)

-- Two functions that agree on a table agree below its size.
pub agree_below :
    (f g : ℕ → ℕ) (n : ℕ) → all_below n (λ x. f x == g x) ≡ true → (x : ℕ) → x < n → f x ≡ g x
agree_below f g n t x h = (==_iff (f x) (g x)).0 (all_below_sound n (λ y. f y == g y) x h t)

pub low_seven : (b : ℕ) → b < 256 → bit_and b 0x7f ≡ b % 128
unfolding all_below
low_seven = agree_below (λ b. bit_and b 0x7f) (λ b. b % 128) 256 refl

pub top_bit : (b : ℕ) → b < 256 → bit_and b 0x80 ≡ b / 128 * 128
unfolding all_below
top_bit = agree_below (λ b. bit_and b 0x80) (λ b. b / 128 * 128) 256 refl

pub set_top_bit : (b : ℕ) → b < 128 → bit_or b 0x80 ≡ b + 128
unfolding all_below
set_top_bit = agree_below (λ b. bit_or b 0x80) (λ b. b + 128) 128 refl

pub low_four : (b : ℕ) → b < 256 → bit_and b 0x0f ≡ b % 16
unfolding all_below
low_four = agree_below (λ b. bit_and b 0x0f) (λ b. b % 16) 256 refl

pub low_two : (b : ℕ) → b < 256 → bit_and b 0x03 ≡ b % 4
unfolding all_below
low_two = agree_below (λ b. bit_and b 0x03) (λ b. b % 4) 256 refl

pub low_one : (b : ℕ) → b < 256 → bit_and b 0x01 ≡ b % 2
unfolding all_below
low_one = agree_below (λ b. bit_and b 0x01) (λ b. b % 2) 256 refl

pub bit_three : (b : ℕ) → b < 256 → bit_and b 0x08 ≡ b / 8 % 2 * 8
unfolding all_below
bit_three = agree_below (λ b. bit_and b 0x08) (λ b. b / 8 % 2 * 8) 256 refl

-- An operation digit by digit, which the native operations stand for; `base` is the operation on a
-- left side that has no digits left.
module _ (base : ℕ → ℕ) (join : ℕ → ℕ → ℕ) where
  same_digits : (k l x y : ℕ) → x ≤ k → x ≤ l → digits base join k x y ≡ digits base join l x y
  same_digits zero zero x y lo hi = refl
  same_digits zero (suc l) zero y lo hi = refl
  same_digits (suc k) zero zero y lo hi = refl
  same_digits (suc k) (suc l) zero y lo hi = refl
  same_digits (suc k) (suc l) (suc x) y lo hi =
      omega (arith, same_digits k l (suc x / 2) (y / 2) (omega arith) (omega arith))
  same_digits zero (suc l) (suc x) y lo hi = absurd (omega arith)
  same_digits (suc k) zero (suc x) y lo hi = absurd (omega arith)

  -- The lowest digit apart from the others.
  lowest_digit :
      (op : ℕ → ℕ → ℕ)
      → ((x y : ℕ) → op x y ≡ digits base join x x y)
      → (x y : ℕ) → op (suc x) y ≡ op (suc x / 2) (y / 2) * 2 + join (suc x % 2) (y % 2)
  lowest_digit op meaning x y =
      let whole = meaning (suc x) y in
      let half = meaning (suc x / 2) (y / 2) in
      let same = same_digits x (suc x / 2) (suc x / 2) (y / 2) (omega arith) (omega arith) in
      omega (arith, whole, half, same)

pub zero-bit_or : (b : ℕ) → bit_or 0 b ≡ b
zero-bit_or b = bit_or-bitwise 0 b

bit_or_step : (x y : ℕ) → bit_or x y ≡ bit_or (x / 2) (y / 2) * 2 + max (x % 2) (y % 2)
bit_or_step zero y = omega (arith, zero-bit_or y, zero-bit_or (y / 2))
bit_or_step (suc x) y = lowest_digit (λ b. b) max bit_or bit_or-bitwise x y

bit_or-zero_below : (bound x : ℕ) → x < bound → bit_or x 0 ≡ x
bit_or-zero_below zero x small = elim small [ ]
bit_or-zero_below (suc bound) zero small = zero-bit_or 0
bit_or-zero_below (suc bound) (suc x) small =
    omega (arith, bit_or_step (suc x) 0, bit_or-zero_below bound (suc x / 2) (omega arith))

bit_or-zero : (x : ℕ) → bit_or x 0 ≡ x
bit_or-zero x = bit_or-zero_below (suc x) x (omega arith)

-- `(x << k) | b` for `b` of at most `k` bits.
pub shift_or_pow : (k x b : ℕ) → b < 2 ^ k → bit_or (x * 2 ^ k) b ≡ x * 2 ^ k + b
shift_or_pow zero x b h =
    let none_left : b ≡ 0 = omega arith in rw none_left (omega (arith, bit_or-zero (x * 2 ^ 0)))
shift_or_pow (suc k) x b h =
    let double : 2 ^ suc k ≡ 2 ^ k * 2 = pow-suc 2 k in
    let halved : x * 2 ^ suc k / 2 ≡ x * 2 ^ k = omega (arith, ap (λ (t : ℕ). x * t) double) in
    let even : x * 2 ^ suc k % 2 ≡ 0 = omega (arith, ap (λ (t : ℕ). x * t) double) in
    omega (
      arith,
      ap (λ (t : ℕ). x * t) double,
      rw halved at (bit_or_step (x * 2 ^ suc k) b),
      even,
      shift_or_pow k x (b / 2) (omega arith),
    )

-- `(x << 8) | b` for a byte `b`.
pub shift_or : (x b : ℕ) → b < 256 → bit_or (x * 256) b ≡ x * 256 + b
shift_or x b h = shift_or_pow 8 x b h

-- `(x << 4) | b` for a nibble `b`.
pub shift_or_four : (x b : ℕ) → b < 16 → bit_or (x * 16) b ≡ x * 16 + b
shift_or_four x b h = shift_or_pow 4 x b h

zero-bit_and : (y : ℕ) → bit_and 0 y ≡ 0
zero-bit_and y = bit_and-bitwise 0 y

bit_and_step : (x y : ℕ) → bit_and x y ≡ bit_and (x / 2) (y / 2) * 2 + min (x % 2) (y % 2)
bit_and_step zero y = omega (arith, zero-bit_and y, zero-bit_and (y / 2))
bit_and_step (suc x) y = lowest_digit (λ b. 0) min bit_and bit_and-bitwise x y

bit_and-zero_below : (bound x : ℕ) → x < bound → bit_and x 0 ≡ 0
bit_and-zero_below zero x small = elim small [ ]
bit_and-zero_below (suc bound) zero small = zero-bit_and 0
bit_and-zero_below (suc bound) (suc x) small =
    omega (arith, bit_and_step (suc x) 0, bit_and-zero_below bound (suc x / 2) (omega arith))

bit_and-zero : (x : ℕ) → bit_and x 0 ≡ 0
bit_and-zero x = bit_and-zero_below (suc x) x (omega arith)

-- A mask of ones: the lowest digit stays.
mask_step : (a m n : ℕ) → n ≡ m * 2 + 1 → bit_and a n ≡ bit_and (a / 2) m * 2 + a % 2
mask_step a m n e =
    let half : n / 2 ≡ m = omega arith in omega (arith, rw half at (bit_and_step a n))

-- A single bit: the digit that stands there.
pub bit_and-pow : (k a : ℕ) → bit_and a (2 ^ k) ≡ a / 2 ^ k % 2 * 2 ^ k
bit_and-pow zero a = omega (arith, mask_step a 0 1 refl, bit_and-zero (a / 2))
bit_and-pow (suc k) a =
    let double : 2 ^ suc k ≡ 2 ^ k * 2 = pow-suc 2 k in
    let half : 2 ^ suc k / 2 ≡ 2 ^ k = omega (arith, double) in
    let swapped : 2 ^ suc k ≡ 2 * 2 ^ k = omega (arith, double) in
    let digit : a / 2 ^ suc k ≡ a / 2 / 2 ^ k =
      ap (λ (t : ℕ). a / t) swapped ∙ sym (div-div-eq-div-mul a 2 (2 ^ k)) in
    rw digit (
      omega (
        arith,
        double,
        rw half at (bit_and_step a (2 ^ suc k)),
        bit_and-pow k (a / 2),
        ap (λ (t : ℕ). a / 2 / 2 ^ k % 2 * t) double,
      ))

pub low_nibble : (a : ℕ) → bit_and a 15 ≡ a % 16
low_nibble a = omega (
  arith,
  mask_step a 7 15 refl,
  mask_step (a / 2) 3 7 refl,
  mask_step (a / 2 / 2) 1 3 refl,
  mask_step (a / 2 / 2 / 2) 0 1 refl,
  bit_and-zero (a / 2 / 2 / 2 / 2),
)

-- `x & 0x3F` keeps the low six bits of a number of any width.
pub low_six : (a : ℕ) → bit_and a 0x3f ≡ a % 64
low_six a =
    omega (arith, mask_step a 31 63 refl, mask_step (a / 2) 15 31 refl, low_nibble (a / 2 / 2))

-- `x & 0xFF` keeps the low byte of a number of any width.
pub low_byte : (a : ℕ) → bit_and a 0xff ≡ a % 256
low_byte a = omega (
  arith,
  mask_step a 127 255 refl,
  mask_step (a / 2) 63 127 refl,
  mask_step (a / 2 / 2) 31 63 refl,
  mask_step (a / 2 / 2 / 2) 15 31 refl,
  low_nibble (a / 2 / 2 / 2 / 2),
)
