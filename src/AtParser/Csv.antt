-- ===== src/AtParser/Csv.antt =====
-- `SplitCsv` of at_parser.cpp on lines written field by field.
use esp_modem_link.Common.{
  ℕ, zero, suc, ◌+◌, ◌≤◌, ◌<◌, Bool, false, Option, none, some, List, [], ◌∷◌, ◌++◌, map,
  append_assoc, arith, ◌≡◌, ◌≢◌, refl, ap, ◌∙◌, inl, inr,
}
use esp_modem_link.Common.Lists.{Bytes, length, length-append, All}
use esp_modem_link.Common.Tests.{◌==◌, Bool-cases}
use esp_modem_link.AtParser.{break_at, split_loop, split_csv, after_field, after_quote, skip_quote}

-- A field of a line, bare or in quotes.
pub data Field : Type 0 where
  plain : Bytes → Field
  quoted : Bytes → Field

abbrev pub content : Field → Bytes
content (plain s) = s
content (quoted s) = s

abbrev pub Lacks : ℕ → Bytes → Type 0
Lacks c s = All (λ x. x ≢ c) s

-- A bare field has no comma and does not begin with a quote; a quoted one has no quote.
abbrev pub starts_quoted : Bytes → Bool
starts_quoted [] = false
starts_quoted (x ∷ xs) = x == b'"'

abbrev pub IsField : Field → Type 0
IsField (plain s) = Lacks b',' s × (starts_quoted s ≡ false)
IsField (quoted s) = Lacks b'"' s

abbrev pub render : Field → Bytes
render (plain s) = s
render (quoted s) = b'"' ∷ (s ++ b'"' ∷ [])

-- The fields with commas between them.
abbrev pub line : Field → List Field → Bytes
line f [] = render f
line f (g ∷ gs) = render f ++ b',' ∷ line g gs

break_at_end : (c : ℕ) (s : Bytes) → Lacks c s → break_at c s ≡ (s, [])
unfolding break_at
break_at_end c [] h = refl
break_at_end c (x ∷ xs) (hx, hs) = ground (arith, break_at_end c xs hs)

break_at_seam : (c : ℕ) (s rest : Bytes) → Lacks c s → break_at c (s ++ c ∷ rest) ≡ (s, c ∷ rest)
unfolding break_at
break_at_seam c [] rest h = ground arith
break_at_seam c (x ∷ xs) rest (hx, hs) = ground (arith, break_at_seam c xs rest hs)

-- One round of the loop on each kind of field, at the end of the line and before a comma.
round_last :
    (f : Field) (fuel : ℕ) (fields : List Bytes)
    → IsField f
    → split_loop (suc fuel) fields (render f) ≡ some (fields ++ content f ∷ [])
unfolding split_loop
round_last (plain []) fuel fields h = refl
round_last (plain (x ∷ xs)) fuel fields (lacks, bare) = rw (bare, break_at_end b',' (x ∷ xs) lacks)
round_last (quoted s) fuel fields h = rw (break_at_seam b'"' s [] h)

round_more :
    (f : Field) (fuel : ℕ) (fields : List Bytes) (rest : Bytes)
    → IsField f
    → split_loop (suc fuel) fields (render f ++ b',' ∷ rest)
      ≡ split_loop fuel (fields ++ content f ∷ []) rest
unfolding split_loop break_at
round_more (plain []) fuel fields rest h = refl
round_more (plain (x ∷ xs)) fuel fields rest (lacks, bare) =
    rw (bare, break_at_seam b',' (x ∷ xs) rest lacks)
round_more (quoted s) fuel fields rest h =
    rw (append_assoc s (b'"' ∷ []) (b',' ∷ rest), break_at_seam b'"' s (b',' ∷ rest) h)

split_loop-line :
    (fs : List Field) (f : Field) (fuel : ℕ) (fields : List Bytes)
    → All IsField (f ∷ fs)
    → length (line f fs) < fuel
    → split_loop fuel fields (line f fs) ≡ some (fields ++ map content (f ∷ fs))
split_loop-line fs f zero fields h lt = absurd (omega arith)
split_loop-line [] f (suc fuel) fields (hf, hs) lt = round_last f fuel fields hf
split_loop-line (g ∷ gs) f (suc fuel) fields (hf, hs) lt =
    round_more f fuel fields (line g gs) hf
    ∙ split_loop-line gs g fuel (fields ++ content f ∷ []) hs
        (omega (arith, length-append (render f) (b',' ∷ line g gs)))
    ∙ ap some (append_assoc fields (content f ∷ []) (map content (g ∷ gs)))

-- A line of one or more fields splits into their contents: commas in quotes do not split, and the
-- quotes are taken off.
split_csv-line :
    (f : Field) (fs : List Field)
    → All IsField (f ∷ fs)
    → split_csv (line f fs) ≡ some (map content (f ∷ fs))
unfolding split_csv
split_csv-line f fs h = split_loop-line fs f _ [] h (omega arith)

length-break_at : (c : ℕ) (s : Bytes) → length (break_at c s).1 ≤ length s
unfolding break_at
length-break_at c [] = omega arith
length-break_at c (x ∷ xs) = ground (arith, length-break_at c xs)

-- What stands behind a field is shorter than the rest of the line, or ends the loop.
module _ (continue : Bytes → Option (List Bytes)) (fields : List Bytes) where
  after_field-ne-none :
      (s : Bytes)
      → ((t : Bytes) → length t < length s → continue t ≢ none)
      → after_field continue fields s ≢ none
  unfolding after_field
  after_field-ne-none [] h e = cc
  after_field-ne-none (c ∷ rest) h e = h rest (omega arith) e

  after_quote-ne-none :
      (s : Bytes)
      → ((t : Bytes) → length t < length s → continue t ≢ none)
      → after_quote continue fields s ≢ none
  unfolding after_quote
  after_quote-ne-none [] h e = cc
  after_quote-ne-none (c ∷ rest) h e = elim (Bool-cases (c == b',')) [
    | inl comma ↦ h rest (omega arith) (rw comma at e)
    | inr other ↦ cc (rw other at e)
  ]

length-skip_quote : (s : Bytes) → length (skip_quote s) ≤ length s
unfolding skip_quote
length-skip_quote [] = omega arith
length-skip_quote (x ∷ xs) = omega arith

split_loop-ne-none :
    (fuel : ℕ) (fields : List Bytes) (s : Bytes) → length s < fuel → split_loop fuel fields s ≢ none
unfolding split_loop
split_loop-ne-none zero fields s lt e = absurd (omega arith)
split_loop-ne-none (suc fuel) fields [] lt e = cc
split_loop-ne-none (suc fuel) fields (x ∷ xs) lt e =
    let closing = break_at b'"' xs in
    let comma = break_at b',' (x ∷ xs) in
    let quoted_fields = fields ++ closing.0 ∷ [] in
    let plain_fields = fields ++ comma.0 ∷ [] in
    elim (Bool-cases (x == b'"')) [
      | inl quote ↦
          after_quote-ne-none (split_loop fuel quoted_fields) quoted_fields (skip_quote closing.1)
            (λ t h.
              split_loop-ne-none fuel quoted_fields t
                (omega (arith, length-break_at b'"' xs, length-skip_quote closing.1)))
            (rw quote at e)
      | inr bare ↦
          after_field-ne-none (split_loop fuel plain_fields) plain_fields comma.1
            (λ t h.
              split_loop-ne-none fuel plain_fields t (omega (arith, length-break_at b',' (x ∷ xs))))
            (rw bare at e)
    ]

-- The loop ends on every line, well formed or not.
split_csv-ne-none : (s : Bytes) → split_csv s ≢ none
unfolding split_csv
split_csv-ne-none s = split_loop-ne-none (length s + 1) [] s (omega arith)
