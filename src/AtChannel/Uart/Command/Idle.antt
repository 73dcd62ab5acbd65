-- ===== src/AtChannel/Uart/Command/Idle.antt =====
-- How the commands of at_uart.cpp leave the channel.
use esp_modem_link.Common.{◌++◌, true, false, ◌≡◌, refl, []}
use esp_modem_link.Common.Lists.{Bytes, codes, length, equal}
use esp_modem_link.Common.Tests.{if◌then◌else◌, if-both}
use esp_modem_link.AtChannel.Uart.{AtUart, Surroundings}
use esp_modem_link.AtChannel.Uart.Command.{
  AtResult, succeeds, all_written, on_channel, begin_command, clear_prompt, arm_prompt, end_command,
  write_out, wait, clear_done, transmit_failed, timed_out, parsed_result, await_response,
  send_command, with_data_context, send_payload, await_prompt, send_command_with_data,
  refused_result, clear_both, after_prompt, send_data_after_prompt,
}

-- No command is in flight.
abbrev pub Idle : AtUart × AtResult → Type 0
Idle r = r.0.channel.command_in_progress ≡ false

await_response-Idle :
    (env : Surroundings) (context : Bytes) (u : AtUart) → Idle (await_response env context u)
unfolding await_response end_command clear_done
await_response-Idle env context u =
    let w = wait env u in
    if-both Idle w.channel.response_done
      (on_channel (λ c. end_command (clear_done c)) w, parsed_result w.channel.parsed_response)
      (on_channel end_command w, timed_out context) refl refl

send_command-Idle : (env : Surroundings) (cmd : Bytes) (u : AtUart) → Idle (send_command env cmd u)
unfolding send_command end_command
send_command-Idle env cmd u =
    let full_cmd = cmd ++ codes "\r\n" in
    let v = write_out full_cmd (on_channel begin_command u) in
    let context = codes "command timeout: " ++ cmd in
    if-both Idle (all_written (env.send u.channel.log full_cmd) (length full_cmd))
      (await_response env context v)
      (on_channel end_command v, transmit_failed "failed to send command")
      (await_response-Idle env context v) refl

send_payload-Idle :
    (env : Surroundings) (bytes suffix : Bytes) (u : AtUart)
    → Idle (send_payload env bytes suffix u)
unfolding send_payload end_command
send_payload-Idle env bytes suffix u =
    let v = write_out bytes u in
    if-both Idle (all_written (env.send u.channel.log bytes) (length bytes))
      (await_response env with_data_context (write_out suffix v))
      (on_channel end_command v, transmit_failed "failed to send data")
      (await_response-Idle env with_data_context (write_out suffix v)) refl

await_prompt-Idle :
    (env : Surroundings) (bytes suffix : Bytes) (u : AtUart)
    → Idle (await_prompt env bytes suffix u)
unfolding await_prompt end_command
await_prompt-Idle env bytes suffix u =
    let w = wait env u in
    if-both Idle w.channel.data_prompt (send_payload env bytes suffix (on_channel clear_prompt w))
      (on_channel end_command w, timed_out (codes "data prompt timeout"))
      (send_payload-Idle env bytes suffix (on_channel clear_prompt w)) refl

send_command_with_data-Idle :
    (env : Surroundings) (prefix bytes suffix : Bytes) (u : AtUart)
    → Idle (send_command_with_data env prefix bytes suffix u)
unfolding send_command_with_data end_command
send_command_with_data-Idle env prefix bytes suffix u =
    let prefix_str = if equal suffix [] then prefix else prefix ++ codes "\r\n" in
    let v = write_out prefix_str (on_channel (λ c. clear_prompt (begin_command c)) u) in
    let plain = await_response env with_data_context v in
    let prompted = await_prompt env bytes suffix v in
    if-both Idle (all_written (env.send u.channel.log prefix_str) (length prefix_str))
      (if equal suffix [] then plain else prompted)
      (on_channel end_command v, transmit_failed "failed to send command prefix")
      (if-both Idle (equal suffix []) plain prompted (await_response-Idle env with_data_context v)
        (await_prompt-Idle env bytes suffix v))
      refl

-- No command is in flight and no prompt is awaited.
abbrev pub Disarmed : AtUart × AtResult → Type 0
Disarmed r = Idle r × (r.0.channel.prompt_armed ≡ false)

after_prompt-Disarmed :
    (env : Surroundings) (prefix bytes : Bytes) (w : AtUart)
    → Disarmed (after_prompt env prefix bytes w)
unfolding after_prompt end_command arm_prompt clear_both
after_prompt-Disarmed env prefix bytes w =
    let d = on_channel (λ c. end_command (arm_prompt false (clear_both c))) w in
    let written =
      if all_written (env.send d.channel.log bytes) (length bytes)
      then succeeds
      else transmit_failed "failed to send data" in
    let late = on_channel (λ c. end_command (arm_prompt false c)) w in
    let answered : AtUart × AtResult = (d, refused_result w.channel.parsed_response) in
    let timeout : AtUart × AtResult = (late, timed_out (codes "data prompt timeout: " ++ prefix)) in
    if-both Disarmed w.channel.data_prompt (write_out bytes d, written)
      (if w.channel.response_done then answered else timeout) (refl, refl)
      (if-both Disarmed w.channel.response_done answered timeout (refl, refl) (refl, refl))

send_data_after_prompt-Disarmed :
    (env : Surroundings) (prefix bytes : Bytes) (u : AtUart)
    → Disarmed (send_data_after_prompt env prefix bytes u)
unfolding send_data_after_prompt end_command arm_prompt
send_data_after_prompt-Disarmed env prefix bytes u =
    let begun = on_channel (λ c. arm_prompt true (clear_prompt (begin_command c))) u in
    let full_cmd = prefix ++ codes "\r\n" in
    let v = write_out full_cmd begun in
    if-both Disarmed (all_written (env.send u.channel.log full_cmd) (length full_cmd))
      (after_prompt env prefix bytes (wait env v))
      (
        on_channel (λ c. end_command (arm_prompt false c)) v,
        transmit_failed "failed to send command prefix",
      )
      (after_prompt-Disarmed env prefix bytes (wait env v)) (refl, refl)

-- However a command ends, by its response, by an error, by a timeout or by a UART that does not take
-- it, the channel is not left in a command, so that later lines are not taken for its response; and
-- behind `SendDataAfterPrompt` no prompt is awaited any more.
pub commands-Idle :
    (env : Surroundings) (prefix bytes suffix : Bytes) (u : AtUart)
    → Idle (send_command env prefix u)
      × Idle (send_command_with_data env prefix bytes suffix u)
      × Disarmed (send_data_after_prompt env prefix bytes u)
commands-Idle env prefix bytes suffix u = (
  send_command-Idle env prefix u,
  send_command_with_data-Idle env prefix bytes suffix u,
  send_data_after_prompt-Disarmed env prefix bytes u,
)
