-- ===== src/AtChannel/Uart/Rounds.antt =====
-- The reads of the receive task in at_uart.cpp: that it does not matter how the bytes are split.
pub mod Prompt
pub mod Told
use esp_modem_link.Common.{
  ℕ, zero, suc, ◌+◌, ◌-◌, ◌≤◌, ◌<◌, Bool, true, false, ◌||◌, Option, none, some, List, [], ◌∷◌,
  ◌++◌, append_assoc, append-nil, arith, ◌≡◌, ◌≢◌, refl, sym, ap, ◌∙◌, inl, inr, ◌⊎◌,
}
use esp_modem_link.Common.Lists.{
  Bytes, codes, equal, All, All-append, length, length-drop, take, drop, take-append_le,
  drop-append_le,
}
use esp_modem_link.Common.Search.{index_of_crlf, is_blank}
use esp_modem_link.Common.Search.Lacks.{Lacks}
use esp_modem_link.Common.Tests.{if◌then◌else◌, if-both, Option-cases, Bool-cases}
use esp_modem_link.AtChannel.Uart.Lines.{
  Cut, rest, line, Cut-append, cut_lines-Cut, Cut-total, Lacks-drop, Cut-Lacks, Cut-behind,
}
use esp_modem_link.AtChannel.Uart.{
  Channel, AtUart, all_blank, is_data_prompt, without_cr, is_status, conclude, absorb,
  dispatch_line, take_line, process_line, process_lines, cut_lines, begin_round, consume_prompt,
  take_lines, take_bytes, end_round, receive, receive_all,
}

-- The flag that makes the task drop what it has is not touched by a line.
Undiscarded : Channel → Type 0
Undiscarded c = c.discard_partial_line ≡ false

conclude-Undiscarded : (b : Bool) (c : Channel) → Undiscarded c → Undiscarded (conclude b c)
unfolding Undiscarded conclude
conclude-Undiscarded true c h = h
conclude-Undiscarded false c h = h

take_line-Undiscarded : (l : Bytes) (c : Channel) → Undiscarded c → Undiscarded (take_line l c)
unfolding Undiscarded take_line absorb dispatch_line
take_line-Undiscarded l c h =
    let d = dispatch_line l c in
    if-both Undiscarded (all_blank l) c (if c.command_in_progress then absorb l d else d) h (
      if-both Undiscarded c.command_in_progress (absorb l d) d
        (conclude-Undiscarded (is_status l)
          (record d {
            response_buffer = d.response_buffer ++ (l ++ codes "\r\n");
            data_prompt = d.data_prompt || equal l (codes ">");
          })
          h)
        h)

process_lines-Undiscarded :
    (lines : List Bytes) (c : Channel) → Undiscarded c → Undiscarded (process_lines lines c)
unfolding process_lines process_line
process_lines-Undiscarded [] c h = h
process_lines-Undiscarded (l ∷ lines) c h =
    process_lines-Undiscarded lines (process_line l c) (take_line-Undiscarded (without_cr l) c h)

process_lines-append :
    (ls ms : List Bytes) (c : Channel)
    → process_lines (ls ++ ms) c ≡ process_lines ms (process_lines ls c)
unfolding process_lines
process_lines-append [] ms c = refl
process_lines-append (l ∷ ls) ms c = process_lines-append ls ms (process_line l c)

-- A `>` with only blanks behind it.
abbrev pub IsPrompt : Bytes → Type 0
IsPrompt [] = ⊥
IsPrompt (c ∷ cs) = (c ≡ b'>') × All (λ b. (b ≡ b' ') ⊎ (b ≡ b'\t')) cs

-- A receive task that has no whole line and no prompt, and that nothing tells to drop what it has.
pub record Settled (u : AtUart) : Type 0 where
  pub kept : u.channel.discard_partial_line ≡ false
  pub no_line : index_of_crlf u.line_buffer ≡ none
  pub no_prompt : ¬ IsPrompt u.line_buffer

abbrev pub taken : List Bytes → Bytes → AtUart → AtUart
taken lines behind u = record { channel = process_lines lines u.channel; line_buffer = behind }

all_blank-All : (s : Bytes) → all_blank s ≡ true → All (λ b. (b ≡ b' ') ⊎ (b ≡ b'\t')) s
all_blank-All [] h = tt
all_blank-All (c ∷ cs) h = (ground arith, all_blank-All cs (ground arith))

is_data_prompt-IsPrompt : (s : Bytes) → is_data_prompt s ≡ true → IsPrompt s
unfolding is_data_prompt
is_data_prompt-IsPrompt [] h = absurd cc
is_data_prompt-IsPrompt (c ∷ cs) h = (ground arith, all_blank-All cs (ground arith))

All-all_blank : (s : Bytes) → All (λ b. (b ≡ b' ') ⊎ (b ≡ b'\t')) s → all_blank s ≡ true
All-all_blank [] h = refl
All-all_blank (c ∷ cs) (hc, h) = ground (arith, All-all_blank cs h)

pub IsPrompt-is_data_prompt : (s : Bytes) → IsPrompt s → is_data_prompt s ≡ true
unfolding is_data_prompt
IsPrompt-is_data_prompt [] h = absurd h
IsPrompt-is_data_prompt (c ∷ cs) (hc, h) = ground (arith, All-all_blank cs h)

no_data_prompt : (s : Bytes) → ¬ IsPrompt s → is_data_prompt s ≡ false
no_data_prompt s h = elim (Bool-cases (is_data_prompt s)) [
  | inl asks ↦ absurd (h (is_data_prompt-IsPrompt s asks))
  | inr quiet ↦ quiet
]

consume_nothing : (u : AtUart) → ¬ IsPrompt u.line_buffer → consume_prompt u ≡ u
unfolding consume_prompt
consume_nothing u h =
    let c = u.channel in
    ap
      (λ (b : Bool).
        if b
        then record {
          channel = record c {
            prompt_armed = false;
            data_prompt = c.data_prompt || c.prompt_armed;
          };
          line_buffer = [];
        }
        else u)
      (no_data_prompt u.line_buffer h)

pub kept_round :
    (u v : AtUart)
    → u.channel.discard_partial_line ≡ false
    → (if u.channel.discard_partial_line
        then record {
          channel = record u.channel { discard_partial_line = false };
          line_buffer = [];
        }
        else v)
      ≡ v
kept_round u v h =
    ap
      (λ (b : Bool).
        if b
        then record {
          channel = record u.channel { discard_partial_line = false };
          line_buffer = [];
        }
        else v)
      h

pub take_lines-taken :
    (buffer : Bytes) (u : AtUart) {lines : List Bytes} {behind : Bytes}
    → ¬ IsPrompt behind
    → Cut buffer lines behind
    → take_lines (cut_lines (length buffer + 1) buffer) u ≡ taken lines behind u
unfolding take_lines
take_lines-taken buffer u {lines = lines} {behind = behind} quiet c =
    ap (λ (o : Option (List Bytes × Bytes)). take_lines o u)
      (cut_lines-Cut (length buffer + 1) buffer (omega arith) c)
    ∙ consume_nothing (taken lines behind u) quiet

take_bytes-taken :
    (bytes : Bytes) (u : AtUart) {lines : List Bytes} {behind : Bytes}
    → Settled u
    → ¬ IsPrompt behind
    → Cut (u.line_buffer ++ bytes) lines behind
    → take_bytes bytes u ≡ taken lines behind u
unfolding take_bytes process_lines
take_bytes-taken [] u h quiet c =
    let same = append-nil u.line_buffer in
    sym (take_lines-taken u.line_buffer u h.no_prompt (rest u.line_buffer h.no_line))
    ∙ ap (λ (b : Bytes). take_lines (cut_lines (length b + 1) b) u) (sym same)
    ∙ take_lines-taken (u.line_buffer ++ []) u quiet c
take_bytes-taken (b ∷ bs) u h quiet c = take_lines-taken (u.line_buffer ++ b ∷ bs) u quiet c

pub receive-taken :
    (bytes : Bytes) (u : AtUart) {lines : List Bytes} {behind : Bytes}
    → Settled u
    → ¬ IsPrompt behind
    → Cut (u.line_buffer ++ bytes) lines behind
    → receive bytes u ≡ taken lines behind u
unfolding receive begin_round end_round
receive-taken bytes u h quiet c =
    ap (end_round bytes) (kept_round u u h.kept)
    ∙ kept_round u (take_bytes bytes u) h.kept
    ∙ take_bytes-taken bytes u h quiet c

pub Settled-taken :
    (bytes : Bytes) (u : AtUart) {lines : List Bytes} {behind : Bytes}
    → Settled u
    → ¬ IsPrompt behind
    → Cut (u.line_buffer ++ bytes) lines behind
    → Settled (taken lines behind u)
unfolding Undiscarded
Settled-taken bytes u {lines = lines} h quiet c = record {
  kept = process_lines-Undiscarded lines u.channel h.kept;
  no_line = Cut-behind (u.line_buffer ++ bytes) c;
  no_prompt = quiet;
}

-- The bytes of all reads.
abbrev pub joined : List Bytes → Bytes
joined [] = []
joined (bytes ∷ reads) = bytes ++ joined reads

-- No read leaves a prompt behind the last whole line.
abbrev pub Quiet : Bytes → List Bytes → Type 0
Quiet held [] = Unit
Quiet held (bytes ∷ reads) =
    (lines : List Bytes) × (behind : Bytes) × Cut (held ++ bytes) lines behind
    × (¬ IsPrompt behind)
    × Quiet behind reads

receive_all-taken :
    (reads : List Bytes) (u : AtUart)
    → Settled u
    → Quiet u.line_buffer reads
    → (lines : List Bytes) × (behind : Bytes) × Cut (u.line_buffer ++ joined reads) lines behind
      × (receive_all reads u ≡ taken lines behind u)
      × ¬ IsPrompt behind
unfolding receive_all process_lines
receive_all-taken [] u h quiet = (
  [],
  u.line_buffer,
  rw (append-nil u.line_buffer) (rest u.line_buffer h.no_line),
  refl,
  h.no_prompt,
)
receive_all-taken (bytes ∷ reads) u h (ls, r, c, none_here, later) =
    let buffer = u.line_buffer ++ bytes in
    let step = receive-taken bytes u h none_here c in
    let (ms, s, k, e, none_left) =
      receive_all-taken reads (taken ls r u) (Settled-taken bytes u h none_here c) later in
    (
      ls ++ ms,
      s,
      rw (← append_assoc u.line_buffer bytes (joined reads)) (Cut-append buffer (joined reads) c k),
      ap (receive_all reads) step
          ∙ e
          ∙ ap (λ (d : Channel). record { channel = d; line_buffer = s })
              (sym (process_lines-append ls ms u.channel)),
      none_left,
    )

-- It does not matter how the bytes from the UART are split into reads: reads that bring the same bytes
-- leave the channel, what the handlers were given and the half line the same as one read of all of
-- them. This holds where no read leaves a prompt, a `>` with only blanks behind it, at the end of the
-- buffer, for a task that holds no whole line and no prompt and is not told to drop what it has.
pub receive_all-joined :
    (reads : List Bytes) (u : AtUart)
    → Settled u
    → Quiet u.line_buffer reads
    → receive_all reads u ≡ receive (joined reads) u
receive_all-joined reads u h quiet =
    let (lines, behind, c, e, none_left) = receive_all-taken reads u h quiet in
    e ∙ sym (receive-taken (joined reads) u h none_left c)
