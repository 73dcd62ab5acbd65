-- ===== src/AtChannel/Uart/Rounds/Told.antt =====
-- What the lines and the reads of the receive task in at_uart.cpp do to the bytes that were written and
-- to the flags of the prompt.
use esp_modem_link.Common.{
  ℕ, ◌+◌, Bool, true, false, ◌||◌, List, [], ◌∷◌, ◌++◌, map, append-nil, arith, ◌≡◌, ◌≢◌, refl, ap,
  ap₂, ◌∙◌, inl, inr, ◌&&◌,
}
use esp_modem_link.Common.Lists.{Bytes, All, codes, length, equal}
use esp_modem_link.Common.Tests.{◌==◌, if◌then◌else◌, if-both, Bool-cases}
use esp_modem_link.AtChannel.Urc.{Call, dispatch}
use esp_modem_link.AtChannel.Uart.{
  Effect, writes, invokes, sets_baud_rate, flushes, Channel, AtUart, all_blank, without_cr,
  is_status, conclude, absorb, dispatch_line, take_line, process_line, process_lines, begin_round,
  take_bytes, end_round, receive, receive_all, consume_prompt, is_data_prompt, take_lines,
}
use esp_modem_link.AtChannel.Uart.Lines.{Cut-total, cut_lines-Cut}
use esp_modem_link.AtChannel.Uart.Rounds.{taken}

-- The byte strings that were given to the UART.
abbrev pub written : List Effect → List Bytes
written [] = []
written (writes bytes ∷ es) = bytes ∷ written es
written (invokes call ∷ es) = written es
written (sets_baud_rate baud ∷ es) = written es
written (flushes ∷ es) = written es

pub written-append : (es fs : List Effect) → written (es ++ fs) ≡ written es ++ written fs
written-append [] fs = refl
written-append (writes bytes ∷ es) fs = ap (◌∷◌ bytes) (written-append es fs)
written-append (invokes call ∷ es) fs = written-append es fs
written-append (sets_baud_rate baud ∷ es) fs = written-append es fs
written-append (flushes ∷ es) fs = written-append es fs

written-invokes : (calls : List Call) → written (map invokes calls) ≡ []
written-invokes [] = refl
written-invokes (call ∷ calls) = written-invokes calls

and-false : (b : Bool) → b && false ≡ false
and-false true = refl
and-false false = refl

or-false : (b : Bool) → b || false ≡ b
or-false true = refl
or-false false = refl

-- A line that asks for no payload.
abbrev pub Unasked : Bytes → Type 0
Unasked l = (l ≢ codes ">") × (l ≢ codes ">\r")

without_cr-Unasked : (l : Bytes) → Unasked l → equal (without_cr l) (codes ">") ≡ false
unfolding without_cr
without_cr-Unasked [] h = refl
without_cr-Unasked (c ∷ []) (bare, cr) =
    let other : c ≢ b'>' = λ e. bare (ap (λ (x : ℕ). x ∷ []) e) in ground arith
without_cr-Unasked (c ∷ d ∷ []) (bare, cr) = elim (Bool-cases (d == b'\r')) [
  | inl return ↦
      let other : c ≢ b'>' = λ e. cr (ap₂ (λ (x y : ℕ). x ∷ y ∷ []) e (ground arith)) in
      ground arith
  | inr more ↦ rw more (and-false (c == b'>'))
]
without_cr-Unasked (c ∷ d ∷ e ∷ es) (bare, cr) = and-false (c == b'>')

-- What a line, or lines, may do to a channel; `Q` says that none asks for a payload.
pub record Follows (Q : Type 0) (c d : Channel) : Type 0 where
  pub armed : d.prompt_armed ≡ c.prompt_armed
  pub same : written d.log ≡ written c.log
  pub stays : c.data_prompt ≡ true → d.data_prompt ≡ true
  pub unasked : Q → d.data_prompt ≡ c.data_prompt

Follows-refl : (Q : Type 0) (c : Channel) → Follows Q c c
Follows-refl Q c = record { armed = refl; same = refl; stays = λ h. h; unasked = λ h. refl }

conclude-Follows :
    (Q : Type 0) (b : Bool) (c d : Channel) → Follows Q c d → Follows Q c (conclude b d)
unfolding conclude
conclude-Follows Q true c d h = record {
  armed = h.armed;
  same = h.same;
  stays = h.stays;
  unasked = h.unasked;
}
conclude-Follows Q false c d h = h

take_line-Follows :
    (l : Bytes) (c : Channel) → Follows (equal l (codes ">") ≡ false) c (take_line l c)
unfolding take_line absorb dispatch_line
take_line-Follows l c =
    let Q = equal l (codes ">") ≡ false in
    let d = dispatch_line l c in
    let calls = dispatch l c.urc_dispatcher in
    let same =
      written-append c.log (map invokes calls)
      ∙ ap (λ (bs : List Bytes). written c.log ++ bs) (written-invokes calls)
      ∙ append-nil (written c.log) in
    if-both (Follows Q c) (all_blank l) c (if c.command_in_progress then absorb l d else d)
      (Follows-refl Q c)
      (if-both (Follows Q c) c.command_in_progress (absorb l d) d
        (conclude-Follows Q (is_status l) c
          (record d {
            response_buffer = d.response_buffer ++ (l ++ codes "\r\n");
            data_prompt = d.data_prompt || equal l (codes ">");
          })
          (record {
            armed = refl;
            same = same;
            stays = λ h. ap (λ b. b || equal l (codes ">")) h;
            unasked = λ h. ap (λ b. c.data_prompt || b) h ∙ or-false c.data_prompt;
          }))
        (record { armed = refl; same = same; stays = λ h. h; unasked = λ h. refl }))

pub process_lines-Follows :
    (lines : List Bytes) (c : Channel) → Follows (All Unasked lines) c (process_lines lines c)
unfolding process_lines process_line
process_lines-Follows [] c = Follows-refl _ c
process_lines-Follows (l ∷ lines) c =
    let first = take_line-Follows (without_cr l) c in
    let others = process_lines-Follows lines (process_line l c) in
    record {
      armed = others.armed ∙ first.armed;
      same = others.same ∙ first.same;
      stays = λ h. others.stays (first.stays h);
      unasked = λ h. others.unasked h.1 ∙ first.unasked (without_cr-Unasked l h.0);
    }

-- A channel that has written `w`, and was told of a prompt.
abbrev pub Told : List Bytes → AtUart → Type 0
Told w u = (written u.channel.log ≡ w) × (u.channel.data_prompt ≡ true)

consume_prompt-Told : (w : List Bytes) (u : AtUart) → Told w u → Told w (consume_prompt u)
unfolding consume_prompt
consume_prompt-Told w u (hw, hp) =
    let c = u.channel in
    if-both (Told w) (is_data_prompt u.line_buffer)
      (record {
        channel = record c { prompt_armed = false; data_prompt = c.data_prompt || c.prompt_armed };
        line_buffer = [];
      })
      u (hw, ap (λ b. b || c.prompt_armed) hp) (hw, hp)

take_bytes-Told :
    (w : List Bytes) (bytes : Bytes) (u : AtUart) → Told w u → Told w (take_bytes bytes u)
unfolding take_bytes take_lines
take_bytes-Told w [] u h = h
take_bytes-Told w (b ∷ bs) u (hw, hp) =
    let buffer = u.line_buffer ++ b ∷ bs in
    let (lines, behind, c) = Cut-total (length buffer + 1) buffer (omega arith) in
    let follows = process_lines-Follows lines u.channel in
    rw (cut_lines-Cut (length buffer + 1) buffer (omega arith) c)
      (consume_prompt-Told w (taken lines behind u) (follows.same ∙ hw, follows.stays hp))

pub receive_all-Told :
    (w : List Bytes) (reads : List Bytes) (u : AtUart) → Told w u → Told w (receive_all reads u)
unfolding receive_all receive begin_round end_round
receive_all-Told w [] u h = h
receive_all-Told w (bytes ∷ reads) u h =
    let dropped : AtUart → AtUart = λ v. record {
      channel = record v.channel { discard_partial_line = false };
      line_buffer = [];
    } in
    let v = begin_round u in
    let begun : Told w v = if-both (Told w) u.channel.discard_partial_line (dropped u) u h h in
    receive_all-Told w reads (end_round bytes v) (
      if-both (Told w) v.channel.discard_partial_line (dropped v) (take_bytes bytes v) begun
        (take_bytes-Told w bytes v begun))
