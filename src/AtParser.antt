-- ===== src/AtParser.antt =====
-- src/at_parser/at_parser.cpp: the field, number and hex parsers that the modem drivers and the HTTP
-- code share. `ParseDouble` is not modelled, there being no floating-point numbers here.
pub mod Csv
pub mod Hex
pub mod Numbers
pub mod Decimal
mod Tests
use esp_modem_link.Common.{
  ℕ, zero, suc, ◌+◌, ◌-◌, ◌*◌, ◌/◌, ◌%◌, ◌<◌, bit_and, bit_or, Bool, true, false, not, ◌&&◌, ◌||◌,
  Option, none, some, List, [], ◌∷◌, ◌++◌,
}
use esp_modem_link.Common.Int.{ℤ, pos, negate, is_int}
use esp_modem_link.Common.Lists.{Bytes, length, get_or, take, drop}
use esp_modem_link.Common.Search.{index_of, drop_while, drop_while_back, is_blank, is_digit}
use esp_modem_link.Common.Tests.{ltb, leb, ◌==◌, if◌then◌else◌}
use mathlib.Core.List.{reverse, filter_map}
use mathlib.Core.Option

-- The bytes up to the first `c`, and the rest, which begins with it unless it is empty.
pub break_at : ℕ → Bytes → Bytes × Bytes
break_at c [] = ([], [])
break_at c (x ∷ xs) =
    let (front, rest) = break_at c xs in if x == c then ([], x ∷ xs) else (x ∷ front, rest)

-- Behind a plain field: at the end of the line, or at a comma.
after_field : (Bytes → Option (List Bytes)) → List Bytes → Bytes → Option (List Bytes)
after_field continue fields [] = some fields
after_field continue fields (comma ∷ rest) = continue rest

-- Behind the closing quote of a field: only a comma goes on.
after_quote : (Bytes → Option (List Bytes)) → List Bytes → Bytes → Option (List Bytes)
after_quote continue fields [] = some fields
after_quote continue fields (c ∷ rest) = if c == b',' then continue rest else some fields

-- Past the closing quote, if there is one.
skip_quote : Bytes → Bytes
skip_quote [] = []
skip_quote (q ∷ rest) = rest

-- The loop of `SplitCsv` on what is left of the line. `none` means that the fuel ran out.
pub split_loop : ℕ → List Bytes → Bytes → Option (List Bytes)
unfolding after_field after_quote skip_quote
split_loop zero fields s = none
split_loop (suc fuel) fields [] = some (fields ++ [] ∷ [])
split_loop (suc fuel) fields (x ∷ xs) =
    if x == b'"'
    then (let (field, rest) = break_at b'"' xs in
        after_quote (split_loop fuel (fields ++ field ∷ [])) (fields ++ field ∷ [])
          (skip_quote rest))
    else (let (field, rest) = break_at b',' (x ∷ xs) in
        after_field (split_loop fuel (fields ++ field ∷ [])) (fields ++ field ∷ []) rest)

-- A field takes a byte at least, but for the last one.
pub split_csv : Bytes → Option (List Bytes)
split_csv line = split_loop (length line + 1) [] line

pub strip_quotes : Bytes → Bytes
strip_quotes [] = []
strip_quotes (x ∷ []) = x ∷ []
strip_quotes (x ∷ y ∷ ys) =
    let s = x ∷ y ∷ ys in
    if x == b'"' && get_or s (length s - 1) 0 == b'"' then take (length s - 2) (y ∷ ys) else s

-- The part of a line behind its first colon, without the blanks around it.
strip_value : Bytes → Option ℕ → Bytes
strip_value line none = line
strip_value line (some colon) =
    drop_while_back is_blank (drop_while is_blank (drop (colon + 1) line))

pub strip_key_prefix : Bytes → Bytes
unfolding strip_value
strip_key_prefix line = strip_value line (index_of b':' line)

-- The decimal digits of `std::from_chars`, which here must run to the end of the text.
unfoldable pub digits_value : ℕ → Bytes → Option ℕ
digits_value n [] = some n
digits_value n (c ∷ cs) =
    let rest = digits_value (n * 10 + (c - b'0')) cs in if is_digit c then rest else none

-- At least one digit.
unfoldable pub decimal : Bytes → Option ℕ
unfolding digits_value
decimal [] = none
decimal (c ∷ cs) = digits_value 0 (c ∷ cs)

-- `std::from_chars` has no result where the value does not fit an `int`.
unfoldable pub in_range : ℤ → Option ℤ
in_range n = if is_int n then some n else none

unfoldable pub parse_int : Bytes → Option ℤ
unfolding in_range
parse_int [] = none
parse_int (c ∷ cs) =
    if c == b'-'
    then elim (decimal cs) [ none ↦ none | some n ↦ in_range (negate n) ]
    else elim (decimal (c ∷ cs)) [ none ↦ none | some n ↦ in_range (pos n) ]

-- The key and the value of a line, and whether the key is not empty; `none` without a colon.
key_value_at : Bytes → Option ℕ → Option (Bytes × Bytes × Bool)
key_value_at line none = none
key_value_at line (some colon) =
    some (take colon line, drop_while (λ c. c == b' ') (drop (colon + 1) line), not (colon == 0))

pub parse_key_value : Bytes → Option (Bytes × Bytes × Bool)
unfolding key_value_at
parse_key_value line = key_value_at line (index_of b':' line)

-- `none` is the source's -1.
unfoldable pub hex_char_to_nibble : ℕ → Option ℕ
hex_char_to_nibble c =
    if leb b'0' c && leb c b'9'
    then some (c - b'0')
    else if leb b'a' c && leb c b'f'
    then some (c - b'a' + 10)
    else if leb b'A' c && leb c b'F'
    then some (c - b'A' + 10)
    else none

-- Two digits give a byte; otherwise the loop moves on by one.
pub parse_hex : Bytes → Bytes
parse_hex [] = []
parse_hex (x ∷ []) = []
parse_hex (x ∷ y ∷ ys) = elim (hex_char_to_nibble x) [
  | none ↦ parse_hex (y ∷ ys)
  | some hi ↦ elim (hex_char_to_nibble y) [
    | none ↦ parse_hex (y ∷ ys)
    | some lo ↦ bit_or (hi * 16) lo % 256 ∷ parse_hex ys
  ]
]

-- `kDigits[n]`
unfoldable pub hex_digit : ℕ → ℕ
hex_digit n = if ltb n 10 then b'0' + n else b'a' + (n - 10)

pub encode_hex : Bytes → Bytes
encode_hex [] = []
encode_hex (byte ∷ rest) = hex_digit (byte / 16) ∷ hex_digit (bit_and byte 0x0f) ∷ encode_hex rest

-- The loop of `ToHexString`, lowest digit first; sixteen digits are all that 64 bits have.
unfoldable pub hex_loop : ℕ → ℕ → Bytes → Bytes
hex_loop zero value out = out
hex_loop (suc rounds) value out =
    let rest = hex_loop rounds (value / 16) (out ++ hex_digit (bit_and value 0x0f) ∷ []) in
    if ltb 0 value then rest else out

unfoldable pub to_hex_string : ℕ → Bytes
unfolding hex_loop
to_hex_string value = if value == 0 then b'0' ∷ [] else reverse (hex_loop 16 value [])

pub parse_int_list : Bytes → Option (List ℤ)
parse_int_list line = Option.map (filter_map parse_int) (split_csv line)
