-- ===== src/AtChannel/Uart/Rounds/Prompt.antt =====
-- `SendDataAfterPrompt` of at_uart.cpp, with a prompt and without one.
use esp_modem_link.AtChannel.Uart.Rounds.Told.{
  written, written-append, Unasked, process_lines-Follows, Told, receive_all-Told,
}
use mathlib.Core.Path.{subst}
use esp_modem_link.Common.Search.{index_of_crlf}
use esp_modem_link.Common.{
  suc, ◌+◌, Bool, true, false, ◌||◌, List, [], ◌∷◌, ◌++◌, append-nil, arith, ◌≡◌, ◌≢◌, refl, ap,
  ap₂, ◌∙◌, Option, some, none, sym, inl, inr, ◌⊎◌, ◌&&◌,
}
use esp_modem_link.Common.Lists.{Bytes, All, codes, length}
use esp_modem_link.Common.Tests.{if◌then◌else◌, if-both}
use esp_modem_link.AtChannel.Response.{Parsed, parsed, overflows, out_of_fuel}
use esp_modem_link.AtChannel.Uart.{
  writes, AtUart, Surroundings, begin_round, take_bytes, end_round, receive, receive_all,
  consume_prompt, take_lines, cut_lines,
}
use esp_modem_link.AtChannel.Uart.Command.{
  AtResult, succeeds, fails, all_written, on_channel, begin_command, clear_prompt, arm_prompt,
  end_command, write_out, wait, transmit_failed, timed_out, refused, refused_result, clear_both,
  after_prompt, send_data_after_prompt,
}
use esp_modem_link.AtChannel.Uart.Lines.{Cut, rest, cut_lines-Cut}
use esp_modem_link.AtChannel.Uart.Rounds.{
  taken, IsPrompt, Settled, receive-taken, Settled-taken, IsPrompt-is_data_prompt, kept_round,
}

-- The reads of a wait: whether one of them leaves a prompt behind the last whole line, where no line
-- in front of it is one.
abbrev pub Waited : Bool → Bytes → List Bytes → Type 0
Waited asked held [] = asked ≡ false
Waited asked held (bytes ∷ reads) =
    (lines : List Bytes) × (behind : Bytes) × Cut (held ++ bytes) lines behind
    × All Unasked lines
    × ((IsPrompt behind × (asked ≡ true)) ⊎ (¬ IsPrompt behind × Waited asked behind reads))

-- A channel that has written `w`, with a receive task that waits for the prompt.
record Awaits (w : List Bytes) (u : AtUart) : Type 0 where
  settled : Settled u
  sent : written u.channel.log ≡ w
  armed : u.channel.prompt_armed ≡ true
  untold : u.channel.data_prompt ≡ false

Cut-nil :
    (a : Bytes) {lines : List Bytes} {behind : Bytes}
    → index_of_crlf a ≡ none
    → Cut (a ++ []) lines behind
    → behind ≡ a
Cut-nil a {lines = lines} {behind = behind} no_line c =
    let both : Path (Option (List Bytes × Bytes)) (some (lines, behind)) (some ([], a)) =
      sym (cut_lines-Cut (length (a ++ []) + 1) (a ++ []) (omega arith) c)
      ∙ ap (λ (b : Bytes). cut_lines (length (a ++ []) + 1) b) (append-nil a)
      ∙ cut_lines-Cut (length (a ++ []) + 1) a (omega (arith, ap length (append-nil a)))
          (rest a no_line) in
    cc

-- A read that leaves a prompt.
receive-prompt :
    (bytes : Bytes) (u : AtUart) {lines : List Bytes} {behind : Bytes}
    → Settled u
    → IsPrompt behind
    → Cut (u.line_buffer ++ bytes) lines behind
    → receive bytes u ≡ consume_prompt (taken lines behind u)
unfolding receive begin_round end_round take_bytes take_lines
receive-prompt [] u h asks c = absurd (h.no_prompt (rw (Cut-nil u.line_buffer h.no_line c) at asks))
receive-prompt (b ∷ bs) u h asks c =
    let buffer = u.line_buffer ++ b ∷ bs in
    ap (end_round (b ∷ bs)) (kept_round u u h.kept)
    ∙ kept_round u (take_bytes (b ∷ bs) u) h.kept
    ∙ ap (λ (o : Option (List Bytes × Bytes)). take_lines o u)
        (cut_lines-Cut (length buffer + 1) buffer (omega arith) c)

consume_prompt-armed :
    (w : List Bytes) (u : AtUart)
    → written u.channel.log ≡ w
    → u.channel.prompt_armed ≡ true
    → u.channel.data_prompt ≡ false
    → IsPrompt u.line_buffer
    → Told w (consume_prompt u)
unfolding consume_prompt
consume_prompt-armed w u sent armed untold asks =
    let c = u.channel in
    let here = IsPrompt-is_data_prompt u.line_buffer asks in rw here (sent, ap₂ ◌||◌ untold armed)

-- What a wait gives: nothing written, and whether there was a prompt.
Reached : Bool → List Bytes → AtUart → Type 0
Reached asked w v = (written v.channel.log ≡ w) × (v.channel.data_prompt ≡ asked)

receive_all-Waited :
    (asked : Bool) (w reads : List Bytes) (u : AtUart)
    → Awaits w u
    → Waited asked u.line_buffer reads
    → Reached asked w (receive_all reads u)
unfolding receive_all Reached
receive_all-Waited asked w [] u h waited = (h.sent, h.untold ∙ sym waited)
receive_all-Waited asked w (bytes ∷ reads) u h (lines, behind, c, quiet, inl (asks, yes_asked)) =
    let f = process_lines-Follows lines u.channel in
    let told = receive_all-Told w reads (consume_prompt (taken lines behind u)) (
      consume_prompt-armed w (taken lines behind u) (f.same ∙ h.sent) (f.armed ∙ h.armed)
        (f.unasked quiet ∙ h.untold) asks) in
    subst (λ (x : AtUart). Reached asked w (receive_all reads x))
      (sym (receive-prompt bytes u h.settled asks c)) (told.0, told.1 ∙ sym yes_asked)
receive_all-Waited asked w (bytes ∷ reads) u h (lines, behind, c, quiet, inr (calm, later)) =
    let f = process_lines-Follows lines u.channel in
    subst (λ (x : AtUart). Reached asked w (receive_all reads x))
      (sym (receive-taken bytes u h.settled calm c))
      (receive_all-Waited asked w reads (taken lines behind u)
        (record {
          settled = Settled-taken bytes u h.settled calm c;
          sent = f.same ∙ h.sent;
          armed = f.armed ∙ h.armed;
          untold = f.unasked quiet ∙ h.untold;
        })
        later)

-- A wait that ends without a prompt is a failure.
refused_result-ne-succeeds : (p : Parsed) → refused_result p ≢ succeeds
unfolding refused_result refused
refused_result-ne-succeeds (parsed r) =
    if-both (λ (a : AtResult). a ≢ succeeds) r.ok
      (timed_out (codes "no data prompt after a successful command")) (fails r.error) (λ e. cc)
      (λ e. cc)
refused_result-ne-succeeds overflows = λ e. cc
refused_result-ne-succeeds out_of_fuel = λ e. cc

if-false {ℓ κ} :
    {A : Type ℓ} (P : A → Type κ) (b : Bool) (x y : A) → b ≡ false → P y → P (if b then x else y)
if-false P true x y e h = cc
if-false P false x y e h = h

if-true {ℓ κ} :
    {A : Type ℓ} (P : A → Type κ) (b : Bool) (x y : A) → b ≡ true → P x → P (if b then x else y)
if-true P true x y e h = h
if-true P false x y e h = cc

-- What came of the command: `front` was written, and the payload behind it where it goes out; without
-- it there is no success.
abbrev pub Outcome : List Bytes → Bytes → Bool → AtUart × AtResult → Type 0
Outcome front bytes goes r =
    (written r.0.channel.log ≡ front ++ (if goes then bytes ∷ [] else []))
    × ((goes ≡ true) ⊎ (r.1 ≢ succeeds))

after_prompt-Outcome :
    (env : Surroundings) (prefix bytes : Bytes) (w : AtUart) (front : List Bytes) (asked : Bool)
    → Reached asked front w
    → Outcome front bytes asked (after_prompt env prefix bytes w)
unfolding Reached after_prompt clear_both arm_prompt end_command
after_prompt-Outcome env prefix bytes w front asked (hw, hp) =
    let d = on_channel (λ c. end_command (arm_prompt false (clear_both c))) w in
    let taken_all = all_written (env.send d.channel.log bytes) (length bytes) in
    let prompted : AtUart × AtResult =
      (write_out bytes d, if taken_all then succeeds else transmit_failed "failed to send data") in
    let answered : AtUart × AtResult = (d, refused_result w.channel.parsed_response) in
    let late : AtUart × AtResult = (
      on_channel (λ c. end_command (arm_prompt false c)) w,
      timed_out (codes "data prompt timeout: " ++ prefix),
    ) in
    let silent = if w.channel.response_done then answered else late in
    let nothing = hw ∙ sym (append-nil front) in
    elim asked
        as (λ (a : Bool).
          w.channel.data_prompt ≡ a
          → Outcome front bytes a (if w.channel.data_prompt then prompted else silent)) [
            | true ↦ λ told.
                if-true (Outcome front bytes true) w.channel.data_prompt prompted silent told (
                  written-append w.channel.log (writes bytes ∷ [])
                      ∙ ap (λ (l : List Bytes). l ++ bytes ∷ []) hw,
                  inl refl,
                )
            | false ↦ λ untold.
                if-false (Outcome front bytes false) w.channel.data_prompt prompted silent untold (
                  if-both (Outcome front bytes false) w.channel.response_done answered late
                    (nothing, inr (refused_result-ne-succeeds w.channel.parsed_response))
                    (nothing, inr (λ e. cc)))
          ]
      hp

-- The payload goes out behind a prompt and not otherwise. Where the UART takes the command whole and
-- what comes in during the wait leaves a prompt, a `>` with only blanks behind it, at the end of the
-- buffer, `SendDataAfterPrompt` writes the command and then the payload; where the command is not
-- taken or no read leaves a prompt, it writes the command and nothing more, and does not succeed,
-- whatever else the module answers and whatever prompt an earlier command was told of. No whole line
-- that comes in, up to the prompt, is a `>`; and the receive task holds no whole line and no prompt
-- at the start and is not told to drop what it has.
pub send_data_after_prompt-Outcome :
    (env : Surroundings) (prefix bytes : Bytes) (u : AtUart) (asked : Bool)
    → Settled u
    → Waited asked u.line_buffer (env.reads u.channel.waits)
    → let full_cmd = prefix ++ codes "\r\n" in
      Outcome
        (written u.channel.log ++ full_cmd ∷ [])
        bytes
        (all_written (env.send u.channel.log full_cmd) (length full_cmd) && asked)
        (send_data_after_prompt env prefix bytes u)
unfolding Reached send_data_after_prompt wait clear_prompt begin_command arm_prompt end_command
send_data_after_prompt-Outcome env prefix bytes u asked settled waited =
    let full_cmd = prefix ++ codes "\r\n" in
    let begun = on_channel (λ c. arm_prompt true (clear_prompt (begin_command c))) u in
    let v = write_out full_cmd begun in
    let waiting = on_channel (λ c. record c { waits = suc c.waits }) v in
    let front = written u.channel.log ++ full_cmd ∷ [] in
    let out = written-append u.channel.log (writes full_cmd ∷ []) in
    let w = wait env v in
    let reached : Reached asked front w =
      receive_all-Waited asked front (env.reads u.channel.waits) waiting
        (record {
          settled = record {
            kept = settled.kept;
            no_line = settled.no_line;
            no_prompt = settled.no_prompt;
          };
          sent = out;
          armed = refl;
          untold = refl;
        })
        waited in
    let failed : AtUart × AtResult = (
      on_channel (λ c. end_command (arm_prompt false c)) v,
      transmit_failed "failed to send command prefix",
    ) in
    elim (all_written (env.send u.channel.log full_cmd) (length full_cmd))
      as (λ (b : Bool).
        Outcome front bytes (b && asked) (if b then after_prompt env prefix bytes w else failed)) [
          | true ↦ after_prompt-Outcome env prefix bytes w front asked reached
          | false ↦ (out ∙ sym (append-nil front), inr (λ e. cc))
        ]
