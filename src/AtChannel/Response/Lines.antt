-- ===== src/AtChannel/Response/Lines.antt =====
-- `ParseResponse` of response_parser.cpp on a response written line by line.
use esp_modem_link.AtChannel.Response.Final.{Ordinary, Ordinary-other_line, Final, Final-ended}
use esp_modem_link.Common.{
  ℕ, zero, suc, ◌+◌, ◌<◌, Bool, true, false, ◌&&◌, some, List, [], ◌∷◌, ◌++◌, append_assoc,
  append-nil, arith, ◌≡◌, refl, sym, ap, ◌∙◌, inl, inr,
}
use esp_modem_link.Common.Lists.{
  Bytes, length, length-append, All, take, drop, take-append_length, drop-append_length, drop-drop,
}
use mathlib.Core.Option
use esp_modem_link.Common.Search.{
  trim_with, drop_while, drop_while_back, IsText, index_of_crlf, index_of_crlf-text,
  index_of_crlf_here,
}
use esp_modem_link.Common.Tests.{if◌then◌else◌, Bool-cases}
use esp_modem_link.Error.{AtError}
use esp_modem_link.AtChannel.Response.{
  ParsedAtResponse, no_response, trim, Status, other_line, final_line, status_line, parsed, ended,
  is_echo, take_status, take_response_line, parse_loop, parse_response,
}

-- A line as a modem writes it, without the CRLF and with no space around it.
abbrev IsLine : Status → Bytes → Type 0
IsLine s l = IsText l × (trim l ≡ l) × (status_line l ≡ s)

-- Lines, each with its CRLF, and what follows them.
abbrev pub lines_of : List Bytes → Bytes → Bytes
lines_of [] rest = rest
lines_of (l ∷ ls) rest = l ++ b'\r' ∷ b'\n' ∷ lines_of ls rest

-- The lines that a response keeps: not the empty ones, and not the echo in front of the others.
abbrev pub kept : Bool → List Bytes → List Bytes
kept first [] = []
kept first ([] ∷ ls) = kept first ls
kept first ((c ∷ cs) ∷ ls) =
    if first && is_echo (c ∷ cs) then kept false ls else (c ∷ cs) ∷ kept false ls

parse_loop-empty :
    (fuel : ℕ) (first : Bool) (r : ParsedAtResponse) (rest : Bytes)
    → parse_loop (suc fuel) first r (b'\r' ∷ b'\n' ∷ rest) ≡ parse_loop fuel first r rest
unfolding parse_loop take_response_line index_of_crlf trim_with drop_while drop_while_back
parse_loop-empty fuel first r rest = refl

-- One round of the loop.
parse_loop-line :
    (fuel : ℕ) (first : Bool) (r : ParsedAtResponse) (l rest : Bytes)
    → IsText l
    → trim l ≡ l
    → parse_loop (suc fuel) first r (l ++ b'\r' ∷ b'\n' ∷ rest)
      ≡ take_response_line (λ f q. parse_loop fuel f q rest) first r l
unfolding parse_loop
parse_loop-line fuel first r [] rest h bare = parse_loop-empty fuel first r rest
parse_loop-line fuel first r (x ∷ xs) rest h bare =
    let l = x ∷ xs in
    let raw = l ++ b'\r' ∷ b'\n' ∷ rest in
    let all : length l + 0 ≡ length l = omega arith in
    let found : index_of_crlf raw ≡ some (length l) =
      index_of_crlf-text l (b'\r' ∷ b'\n' ∷ rest) h
      ∙ ap (Option.map (λ i. length l + i)) (index_of_crlf_here rest)
      ∙ ap some all in
    let front : take (length l) raw ≡ l = take-append_length l (b'\r' ∷ b'\n' ∷ rest) in
    let back : drop (length l + 2) raw ≡ rest =
      sym (drop-drop 2 (length l) raw)
      ∙ ap (drop 2) (drop-append_length l (b'\r' ∷ b'\n' ∷ rest)) in
    rw (found, front, back, bare, parse_loop) refl

-- An empty line says nothing about the end.
status_line-nil : status_line [] ≡ other_line
unfolding status_line trim_with drop_while drop_while_back
status_line-nil = refl

-- The response that a final line ends, after any lines before it.
parse_loop-lines :
    (fuel : ℕ) (first : Bool) (r : ParsedAtResponse) (ls : List Bytes) (f rest : Bytes)
    (e : AtError)
    → length (lines_of ls (f ++ b'\r' ∷ b'\n' ∷ rest)) < fuel
    → All (IsLine other_line) ls
    → IsLine (final_line e) f
    → is_echo f ≡ false
    → parse_loop fuel first r (lines_of ls (f ++ b'\r' ∷ b'\n' ∷ rest))
      ≡ parsed (ended f e (record r { lines = r.lines ++ kept first ls }))
unfolding take_response_line take_status
parse_loop-lines zero first r ls f rest e fits ok final plain = absurd (omega arith)
parse_loop-lines (suc fuel) first r [] [] rest e fits ok (text, bare, last) plain =
    cc (last, status_line-nil)
parse_loop-lines (suc fuel) first r [] (y ∷ ys) rest e fits ok (text, bare, last) plain =
    parse_loop-line fuel first r (y ∷ ys) rest text bare
    ∙ ground (arith, last, plain, append-nil r.lines)
parse_loop-lines (suc fuel) first r ([] ∷ ls) f rest e fits ((text, bare, other), oks) final plain =
    parse_loop-line fuel first r [] (lines_of ls (f ++ b'\r' ∷ b'\n' ∷ rest)) text bare
    ∙ parse_loop-lines fuel first r ls f rest e (omega arith) oks final plain
parse_loop-lines (suc fuel) first r ((x ∷ xs) ∷ ls) f rest e fits ((text, bare, other), oks) final
      plain =
    let l = x ∷ xs in
    let tail = lines_of ls (f ++ b'\r' ∷ b'\n' ∷ rest) in
    let shorter = length-append l (b'\r' ∷ b'\n' ∷ tail) in
    parse_loop-line fuel first r l tail text bare ∙ elim (Bool-cases (first && is_echo l)) [
      | inl echo ↦
          rw echo
            (parse_loop-lines fuel false r ls f rest e (omega (arith, shorter)) oks final plain)
      | inr fresh ↦
          rw (fresh, other)
            (parse_loop-lines fuel false (record r { lines = r.lines ++ l ∷ [] }) ls f rest e
                (omega (arith, shorter)) oks final plain
              ∙ ap (λ (k : List Bytes). parsed (ended f e (record r { lines = k })))
                  (append_assoc r.lines (l ∷ []) (kept false ls)))
    ]

-- A line as a modem writes it, without the CRLF and with no space around it.
abbrev pub Bare : Bytes → Type 0
Bare l = IsText l × (trim l ≡ l)

All-IsLine : (ls : List Bytes) → All (λ l. Bare l × Ordinary l) ls → All (IsLine other_line) ls
All-IsLine [] h = tt
All-IsLine (l ∷ ls) (((text, bare), ordinary), h) =
    ((text, bare, Ordinary-other_line l bare ordinary), All-IsLine ls h)

-- A response of lines, none with a space around it, of which the last alone is one that ends a
-- response. The lines but the empty ones and the echo in front are kept, in order; `OK` and `>` are a
-- success; `ERROR` is a failure, and `+CME ERROR:` and `+CMS ERROR:` are one with the number that the
-- digits behind the prefix stand for, where it fits an `int`; and what follows is left alone.
pub parse_response-lines :
    (ls : List Bytes) (f rest : Bytes) (fine : Bool) (e : AtError)
    → All (λ l. Bare l × Ordinary l) ls
    → Bare f
    → Final f fine e
    → parse_response (lines_of ls (f ++ b'\r' ∷ b'\n' ∷ rest))
      ≡ parsed (record { ok = fine; error = e; lines = kept true ls })
unfolding parse_response
parse_response-lines ls f rest fine e oks (text, bare) final =
    let (g, last, plain, result) = Final-ended f fine e bare final in
    parse_loop-lines _ true no_response ls f rest g (omega arith) (All-IsLine ls oks)
      (text, bare, last) plain
    ∙ ap parsed (result (kept true ls))
