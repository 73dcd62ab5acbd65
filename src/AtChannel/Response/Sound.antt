-- ===== src/AtChannel/Response/Sound.antt =====
-- `ParseResponse` of response_parser.cpp on arbitrary bytes.
use esp_modem_link.AtChannel.Response.Final.{Ordinary, other_line-Ordinary}
use esp_modem_link.Common.{
  ℕ, zero, suc, ◌+◌, ◌<◌, Bool, true, false, ◌&&◌, List, [], ◌∷◌, ◌++◌, arith, ◌≡◌, ◌≢◌, refl, inl,
  inr,
}
use esp_modem_link.Common.Lists.{Bytes, length, length-drop, All, take, drop}
use esp_modem_link.Common.Search.{index_of_crlf}
use esp_modem_link.Common.Tests.{Bool-cases, Option-cases}
use esp_modem_link.AtChannel.Response.{
  ParsedAtResponse, no_response, trim, Status, other_line, final_line, overflow, status_line,
  Parsed, parsed, out_of_fuel, overflows, ended, is_echo, take_status, take_response_line,
  parse_loop, parse_response,
}

-- A line that may stand in a response: not empty, and, without the space around it, none that ends
-- a response.
abbrev pub IsKept : Bytes → Type 0
IsKept l = (l ≢ []) × Ordinary (trim l)

-- A run that has ended, with such lines.
abbrev pub Sound : Parsed → Type 0
Sound (parsed r) = All IsKept r.lines
Sound overflows = Unit
Sound out_of_fuel = ⊥

All-snoc : (ls : List Bytes) (l : Bytes) → All IsKept ls → IsKept l → All IsKept (ls ++ l ∷ [])
All-snoc [] l all h = (h, tt)
All-snoc (k ∷ ls) l (first, others) h = (first, All-snoc ls l others h)

take_status-Sound :
    (continue : ParsedAtResponse → Parsed) (l : Bytes) (r : ParsedAtResponse) (s : Status)
    → l ≢ []
    → status_line l ≡ s
    → All IsKept r.lines
    → ((q : ParsedAtResponse) → All IsKept q.lines → Sound (continue q))
    → Sound (take_status continue l r s)
unfolding take_status ended
take_status-Sound continue l r other_line some_bytes read all each =
    each (record r { lines = r.lines ++ l ∷ [] })
      (All-snoc r.lines l all (some_bytes, other_line-Ordinary l read))
take_status-Sound continue l r (final_line e) some_bytes read all each = all
take_status-Sound continue l r overflow some_bytes read all each = tt

take_response_line-Sound :
    (continue : Bool → ParsedAtResponse → Parsed) (first : Bool) (r : ParsedAtResponse) (l : Bytes)
    → All IsKept r.lines
    → ((f : Bool) (q : ParsedAtResponse) → All IsKept q.lines → Sound (continue f q))
    → Sound (take_response_line continue first r l)
unfolding take_response_line
take_response_line-Sound continue first r [] all each = each first r all
take_response_line-Sound continue first r (c ∷ cs) all each =
    elim (Bool-cases (first && is_echo (c ∷ cs))) [
      | inl echo ↦ rw echo (each false r all)
      | inr fresh ↦ rw fresh (
          take_status-Sound (continue false) (c ∷ cs) r (status_line (c ∷ cs)) (λ e. cc) refl all
            (each false))
    ]

parse_loop-Sound :
    (fuel : ℕ) (first : Bool) (r : ParsedAtResponse) (raw : Bytes)
    → length raw < fuel
    → All IsKept r.lines
    → Sound (parse_loop fuel first r raw)
unfolding parse_loop
parse_loop-Sound zero first r raw fits all = absurd (omega arith)
parse_loop-Sound (suc fuel) first r [] fits all = all
parse_loop-Sound (suc fuel) first r (c ∷ cs) fits all =
    elim (Option-cases (index_of_crlf (c ∷ cs))) [
      | inl last ↦
          rw (last, parse_loop)
            (take_response_line-Sound (λ f q. parse_loop fuel f q []) first r (trim (c ∷ cs)) all
              (λ f q h. parse_loop-Sound fuel f q [] (omega arith) h))
      | inr (end, found) ↦
          rw (found, parse_loop)
            (let rest = drop (end + 2) (c ∷ cs) in
              take_response_line-Sound (λ f q. parse_loop fuel f q rest) first r
                (trim (take end (c ∷ cs))) all
                (λ f q h.
                  parse_loop-Sound fuel f q rest (omega (arith, length-drop (end + 2) (c ∷ cs))) h))
    ]

-- Whatever the bytes, the loop ends; and no line of the response that it gives is empty, is `OK`,
-- `ERROR` or `>`, or begins with `+CME ERROR:` or `+CMS ERROR:`.
pub parse_response-Sound : (raw : Bytes) → Sound (parse_response raw)
unfolding parse_response
parse_response-Sound raw = parse_loop-Sound (length raw + 1) true no_response raw (omega arith) tt
