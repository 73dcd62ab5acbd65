-- ===== src/AtChannel/Response.antt =====
-- src/at_channel/response_parser.h and response_parser.cpp: the lines of a response, up to the line
-- that says how the command ended.
pub mod Final
pub mod Lines
pub mod Sound
mod Tests
use esp_modem_link.Common.{
  ℕ, zero, suc, ◌+◌, ◌-◌, ◌*◌, Bool, true, false, not, ◌&&◌, ◌||◌, Option, none, some, List, [],
  ◌∷◌, ◌++◌,
}
use esp_modem_link.Common.Int.{ℤ, pos, int_max}
use esp_modem_link.Common.Lists.{Bytes, codes, length, take, drop, equal, starts_with}
use esp_modem_link.Common.Search.{index_of_crlf, trim_with, is_space, is_digit}
use esp_modem_link.Common.Tests.{ltb, if◌then◌else◌}
use esp_modem_link.Error.{AtErrc, AtError, at_error, at_error_code}

pub record ParsedAtResponse : Type 0 where
  pub ok : Bool
  pub error : AtError
  pub lines : List Bytes

-- The response before its first line.
abbrev pub no_response : ParsedAtResponse
no_response = record { ok = false; error = at_error AtErrc.command_error []; lines = [] }

abbrev pub trim : Bytes → Bytes
trim s = trim_with is_space s

-- What `IsStatusLine` makes of a line. A code that does not fit an `int` overflows it, which the
-- language leaves undefined.
pub data Status : Type 0 where
  other_line : Status
  final_line : AtError → Status
  overflow : Status

-- `code = code * 10 + (c - '0')` over the leading digits; `none` is an overflow.
pub error_code : ℕ → Bytes → Option ℕ
error_code code [] = some code
error_code code (c ∷ cs) =
    let next = code * 10 + (c - b'0') in
    let rest = error_code next cs in
    if not (is_digit c) then some code else if ltb int_max next then none else rest

pub coded : AtErrc → Bytes → Option ℕ → Status
coded errc text none = overflow
coded errc text (some code) = final_line (at_error_code errc (pos code) text)

-- The error of a line that begins with a prefix of eleven bytes.
pub coded_line : AtErrc → Bytes → Status
unfolding error_code coded
coded_line errc trimmed = let text = trim (drop 11 trimmed) in coded errc text (error_code 0 text)

pub status_line : Bytes → Status
unfolding coded_line
status_line line =
    let trimmed = trim line in
    if equal trimmed (codes "OK")
    then final_line (at_error AtErrc.command_error [])
    else if equal trimmed (codes "ERROR")
    then final_line (at_error AtErrc.command_error [])
    else if starts_with trimmed (codes "+CME ERROR:")
    then coded_line AtErrc.cme_error trimmed
    else if starts_with trimmed (codes "+CMS ERROR:")
    then coded_line AtErrc.cms_error trimmed
    else if equal trimmed (codes ">")
    then final_line (at_error AtErrc.command_error [])
    else other_line

-- How a run of the loop ends.
pub data Parsed : Type 0 where
  parsed : ParsedAtResponse → Parsed
  overflows : Parsed
  out_of_fuel : Parsed

-- The response that a final line ends.
pub ended : Bytes → AtError → ParsedAtResponse → ParsedAtResponse
ended line e r =
    let fine = starts_with line (codes "OK") || starts_with line (codes ">") in
    record r { ok = fine; error = if fine then r.error else e }

abbrev pub is_echo : Bytes → Bool
is_echo line = starts_with line (codes "AT") || starts_with line (codes "at")

-- A line that is neither empty nor an echo.
pub take_status : (ParsedAtResponse → Parsed) → Bytes → ParsedAtResponse → Status → Parsed
unfolding ended
take_status continue line r other_line = continue (record r { lines = r.lines ++ line ∷ [] })
take_status continue line r (final_line e) = parsed (ended line e r)
take_status continue line r overflow = overflows

-- The round for one line; `continue` is told whether the next line is still the first.
pub take_response_line :
    (Bool → ParsedAtResponse → Parsed) → Bool → ParsedAtResponse → Bytes → Parsed
unfolding take_status
take_response_line continue first_line r [] = continue first_line r
take_response_line continue first_line r (c ∷ cs) =
    if first_line && is_echo (c ∷ cs)
    then continue false r
    else take_status (continue false) (c ∷ cs) r (status_line (c ∷ cs))

-- The loop on the bytes from `pos` on.
pub parse_loop : ℕ → Bool → ParsedAtResponse → Bytes → Parsed
unfolding take_response_line
parse_loop zero first_line r raw = out_of_fuel
parse_loop (suc fuel) first_line r [] = parsed r
parse_loop (suc fuel) first_line r (c ∷ cs) = elim (index_of_crlf (c ∷ cs)) [
  | none ↦ take_response_line (λ first q. parse_loop fuel first q []) first_line r (trim (c ∷ cs))
  | some end ↦
      take_response_line (λ first q. parse_loop fuel first q (drop (end + 2) (c ∷ cs))) first_line r
        (trim (take end (c ∷ cs)))
]

-- A round takes a byte at least.
pub parse_response : Bytes → Parsed
parse_response raw = parse_loop (length raw + 1) true no_response raw
