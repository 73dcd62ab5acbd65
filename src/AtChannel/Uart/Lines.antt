-- ===== src/AtChannel/Uart/Lines.antt =====
-- The loop over the lines of the buffer in at_uart.cpp.
use esp_modem_link.Common.{
  ℕ, zero, suc, ◌+◌, ◌-◌, ◌≤◌, ◌<◌, none, some, List, [], ◌∷◌, ◌++◌, arith, ◌≡◌, refl, inl, inr,
}
use esp_modem_link.Common.Lists.{
  Bytes, length, length-drop, take, drop, take-append_le, drop-append_le,
}
use esp_modem_link.Common.Search.{index_of_crlf}
use esp_modem_link.Common.Search.Lacks.{Lacks}
use esp_modem_link.Common.Tests.{Option-cases}
use esp_modem_link.AtChannel.Uart.{cut_lines}

-- The lines of a buffer, and what is behind the last of them.
pub data Cut : Bytes → List Bytes → Bytes → Type 0 where
  rest : (buffer : Bytes) → index_of_crlf buffer ≡ none → Cut buffer [] buffer
  line :
      (buffer : Bytes) (end : ℕ) {lines : List Bytes} {behind : Bytes}
      → index_of_crlf buffer ≡ some end
      → Cut (drop (end + 2) buffer) lines behind
      → Cut buffer (take end buffer ∷ lines) behind

crlf_inside : (s : Bytes) (end : ℕ) → index_of_crlf s ≡ some end → end + 2 ≤ length s
unfolding index_of_crlf
crlf_inside [] end e = cc
crlf_inside (x ∷ []) end e = cc
crlf_inside (x ∷ y ∷ ys) end e = grind (arith, crlf_inside (y ∷ ys) (end - 1))

crlf_append :
    (s t : Bytes) (end : ℕ) → index_of_crlf s ≡ some end → index_of_crlf (s ++ t) ≡ some end
unfolding index_of_crlf
crlf_append [] t end e = cc
crlf_append (x ∷ []) t end e = cc
crlf_append (x ∷ y ∷ ys) t end e = grind (arith, crlf_append (y ∷ ys) t (end - 1))

pub Cut-append :
    (a b : Bytes) {ls ms : List Bytes} {r s : Bytes}
    → Cut a ls r
    → Cut (r ++ b) ms s
    → Cut (a ++ b) (ls ++ ms) s
Cut-append a b (rest buffer e) k = k
Cut-append a b {ms = ms} {s = s} (line buffer end {lines = lines} e c) k =
    let inside = crlf_inside a end e in
    rw (← take-append_le end a b (omega arith)) (
      line (a ++ b) end (crlf_append a b end e)
        (rw (drop-append_le (end + 2) a b inside) (Cut-append (drop (end + 2) a) b c k)))

pub cut_lines-Cut :
    (fuel : ℕ) (buffer : Bytes) {lines : List Bytes} {behind : Bytes}
    → length buffer < fuel
    → Cut buffer lines behind
    → cut_lines fuel buffer ≡ some (lines, behind)
unfolding cut_lines
cut_lines-Cut zero buffer h c = absurd (omega arith)
cut_lines-Cut (suc fuel) buffer h (rest b e) = rw (cut_lines, e) refl
cut_lines-Cut (suc fuel) buffer h (line b end e c) =
    let inside = crlf_inside buffer end e in
    let shorter = length-drop (end + 2) buffer in
    rw (cut_lines, e, cut_lines-Cut fuel (drop (end + 2) buffer) (omega arith) c) refl

pub Cut-total :
    (fuel : ℕ) (buffer : Bytes)
    → length buffer < fuel
    → (lines : List Bytes) × (behind : Bytes) × Cut buffer lines behind
Cut-total zero buffer h = absurd (omega arith)
Cut-total (suc fuel) buffer h = elim (Option-cases (index_of_crlf buffer)) [
  | inl e ↦ ([], buffer, rest buffer e)
  | inr (end, e) ↦
      let inside = crlf_inside buffer end e in
      let shorter = length-drop (end + 2) buffer in
      let (lines, behind, c) = Cut-total fuel (drop (end + 2) buffer) (omega arith) in
      (take end buffer ∷ lines, behind, line buffer end e c)
]

pub Lacks-drop : (c n : ℕ) (s : Bytes) → Lacks c s → Lacks c (drop n s)
Lacks-drop c zero s h = h
Lacks-drop c (suc n) [] h = tt
Lacks-drop c (suc n) (x ∷ s) (hx, h) = Lacks-drop c n s h

pub Cut-Lacks :
    (c : ℕ) (a : Bytes) {ls : List Bytes} {r : Bytes} → Cut a ls r → Lacks c a → Lacks c r
Cut-Lacks c a (rest b e) h = h
Cut-Lacks c a (line b end e k) h = Cut-Lacks c (drop (end + 2) a) k (Lacks-drop c (end + 2) a h)

pub Cut-behind : (a : Bytes) {ls : List Bytes} {r : Bytes} → Cut a ls r → index_of_crlf r ≡ none
Cut-behind a (rest b e) = e
Cut-behind a (line b end e k) = Cut-behind (drop (end + 2) a) k
