-- ===== src/AtChannel/Uart/Tests.antt =====
-- The theorems on the channel over a UART at concrete inputs.
use esp_modem_link.AtChannel.Uart.Rounds.Told.{written}
use esp_modem_link.AtChannel.Uart.Lines.{rest, line}
use esp_modem_link.Common.{true, [], ◌∷◌, arith, ◌++◌, ◌≡◌, refl, List, inl, inr}
use esp_modem_link.Common.Int.{pos}
use esp_modem_link.Common.Lists.{codes, length, Bytes}
use esp_modem_link.Common.Search.{index_of_crlf}
use esp_modem_link.AtChannel.Uart.{AtUart, Surroundings, new_channel, receive, receive_all}
use esp_modem_link.AtChannel.Uart.Command.{
  send_command, send_command_with_data, send_data_after_prompt, all_written,
}
use esp_modem_link.AtChannel.Uart.Command.Idle.{Idle, Disarmed, commands-Idle}
use esp_modem_link.AtChannel.Uart.Rounds.Prompt.{Waited, Outcome, send_data_after_prompt-Outcome}
use esp_modem_link.AtChannel.Uart.Rounds.{Quiet, Settled, joined, receive_all-joined}

-- A UART that takes everything, and a module that answers in two reads.
abbrev world : Surroundings
world = record {
  send = λ log bytes. pos (length bytes);
  reads = λ n. codes "\r\n> " ∷ codes "\r\nO" ∷ codes "K\r\n" ∷ [];
}

-- A channel in the middle of a command and of a line.
abbrev waiting : AtUart
waiting = record {
  channel = record (new_channel (pos 115200)) { command_in_progress = true };
  line_buffer = codes "+C";
}

waiting-Settled : Settled waiting
unfolding index_of_crlf
waiting-Settled = record {
  kept = refl;
  no_line = refl;
  no_prompt = λ h. absurd (omega (arith, h.0));
}

-- A line in two reads, and a `>` that is no prompt.
abbrev two_reads : List Bytes
two_reads = codes "S\r" ∷ codes "\nOK\r\n>a" ∷ []

two_reads-Quiet : Quiet (codes "+C") two_reads
unfolding index_of_crlf
two_reads-Quiet = (
  [],
  _,
  rest (codes "+CS\r") refl,
  λ h. absurd (omega (arith, h.0)),
  (
    codes "+CS" ∷ codes "OK" ∷ [],
    _,
    line (codes "+CS\r\nOK\r\n>a") 3 refl (line (codes "OK\r\n>a") 2 refl (rest (codes ">a") refl)),
    λ h. ground (arith, h.1.0),
    tt,
  ),
)

receive_all-joined_example : receive_all two_reads waiting ≡ receive (joined two_reads) waiting
receive_all-joined_example = receive_all-joined two_reads waiting waiting-Settled two_reads-Quiet

commands-Idle_example :
    Idle (send_command world (codes "AT+CIPSEND=1") waiting)
    × Idle (send_command_with_data world (codes "AT+CIPSEND=1") (codes "hi") ((26 ∷ [])) waiting)
    × Disarmed (send_data_after_prompt world (codes "AT+CIPSEND=1") (codes "hi") waiting)
commands-Idle_example = commands-Idle world (codes "AT+CIPSEND=1") (codes "hi") ((26 ∷ [])) waiting

-- A module that asks for the payload in two reads.
abbrev asking : Surroundings
asking = record {
  send = λ log bytes. pos (length bytes);
  reads = λ n. codes "\r\n" ∷ codes "> " ∷ codes "\r\nOK\r\n" ∷ [];
}

asking-Waited : Waited true (codes "+C") (codes "\r\n" ∷ codes "> " ∷ codes "\r\nOK\r\n" ∷ [])
unfolding index_of_crlf
asking-Waited = (
  codes "+C" ∷ [],
  _,
  line (codes "+C\r\n") 2 refl (rest [] refl),
  ((λ e. cc, λ e. cc), tt),
  inr (λ h. h, ([], _, rest (codes "> ") refl, tt, inl ((refl, (inl refl, tt)), refl))),
)

send_data_after_prompt-Outcome_example :
    Outcome
      (written waiting.channel.log ++ (codes "AT" ++ codes "\r\n") ∷ [])
      (codes "hi")
      true
      (send_data_after_prompt asking (codes "AT") (codes "hi") waiting)
unfolding all_written
send_data_after_prompt-Outcome_example =
    send_data_after_prompt-Outcome asking (codes "AT") (codes "hi") waiting true waiting-Settled
      asking-Waited
