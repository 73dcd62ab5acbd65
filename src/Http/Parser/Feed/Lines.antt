-- ===== src/Http/Parser/Feed/Lines.antt =====
-- `TakeLine` of http_parser.cpp: where a line ends.
use esp_modem_link.Common.{suc, ◌+◌, none, some, ◌∷◌, ◌++◌, arith, ◌≡◌, refl, inl, inr}
use esp_modem_link.Common.Lists.{Bytes, length, take, take-append_length, take-append_add}
use esp_modem_link.Common.Search.{
  index_of_crlf, IsText, index_of_crlf-text, index_of-text, index_of_crlf_step, index_of_crlf_here,
}
use esp_modem_link.Common.Tests.{Option-cases}
use esp_modem_link.Http.Parser.{take_line, line_to_lf, line_to_crlf}

-- A line that ends with CRLF is read up to it, whatever follows.
take_line-crlf :
    (l rest : Bytes) → IsText l → take_line (l ++ b'\r' ∷ b'\n' ∷ rest) ≡ some (l, length l + 2)
unfolding take_line
take_line-crlf l rest h =
    let found : index_of_crlf (l ++ b'\r' ∷ b'\n' ∷ rest) ≡ some (length l) =
      ground (arith, index_of_crlf-text l (b'\r' ∷ b'\n' ∷ rest) h, index_of_crlf_here rest) in
    rw (found, line_to_crlf) (rw (take-append_length l (b'\r' ∷ b'\n' ∷ rest)) refl)

-- A line that ends with a bare line feed is read up to it only while no CRLF is in the bytes behind
-- it; where one is, the line runs on to that, over the line feed.
take_line-lf :
    (l rest : Bytes)
    → IsText l
    → take_line (l ++ b'\n' ∷ rest) ≡ (elim (index_of_crlf rest) [
      | none ↦ some (l, length l + 1)
      | some i ↦ some (l ++ b'\n' ∷ take i rest, length l + 1 + i + 2)
    ])
unfolding take_line
take_line-lf l rest h = elim (Option-cases (index_of_crlf rest)) [
  | inl absent ↦
      let missing : index_of_crlf (l ++ b'\n' ∷ rest) ≡ none = ground (
        arith,
        index_of_crlf-text l (b'\n' ∷ rest) h,
        index_of_crlf_step b'\n' rest (λ e. cc),
        absent,
      ) in
      rw (absent, missing, line_to_crlf)
        (rw (index_of-text l rest h, line_to_lf) (rw (take-append_length l (b'\n' ∷ rest)) refl))
  | inr (i, there) ↦
      let found : index_of_crlf (l ++ b'\n' ∷ rest) ≡ some (length l + suc i) = ground (
        arith,
        index_of_crlf-text l (b'\n' ∷ rest) h,
        index_of_crlf_step b'\n' rest (λ e. cc),
        there,
      ) in
      rw (there, found, line_to_crlf) (rw (take-append_add l (b'\n' ∷ rest) (suc i)) (ground arith))
]
