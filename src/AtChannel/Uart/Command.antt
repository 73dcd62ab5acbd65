-- ===== src/AtChannel/Uart/Command.antt =====
-- The commands of at_uart.cpp: `SendCommand`, `SendCommandWithData`, `SendLine`, `SendDataAfterPrompt`,
-- `SendRaw` and the settings.
pub mod Idle
use esp_modem_link.Common.{
  ℕ, zero, suc, ◌+◌, Bool, true, false, not, ◌&&◌, ◌||◌, Option, none, some, List, [], ◌∷◌, ◌++◌,
}
use esp_modem_link.Common.Int.{ℤ, pos, negsuc}
use esp_modem_link.Common.Lists.{Bytes, codes, length, equal}
use esp_modem_link.Common.Tests.{◌==◌, if◌then◌else◌}
use esp_modem_link.Error.{AtErrc, AtError, at_error, Result, ok, err, NetworkErrc, network_error}
use esp_modem_link.AtChannel.Response.{
  ParsedAtResponse, Parsed, parsed, overflows, out_of_fuel, no_response,
}
use esp_modem_link.AtChannel.Uart.{
  writes, sets_baud_rate, flushes, Channel, AtUart, Surroundings, receive_all,
}
use Prim.Native.String.{String}

-- `AtResult`, and a code that overflows.
pub data AtResult : Type 0 where
  succeeds : AtResult
  fails : AtError → AtResult
  undefined : AtResult

-- `sent < 0 || static_cast<size_t>(sent) != size`, turned around.
unfoldable pub all_written : ℤ → ℕ → Bool
all_written (pos n) size = n == size
all_written (negsuc n) size = false

abbrev pub on_channel : (Channel → Channel) → AtUart → AtUart
on_channel f u = record u { channel = f u.channel }

-- What a command clears before it goes out.
unfoldable pub begin_command : Channel → Channel
begin_command c = record c {
  command_in_progress = true;
  response_buffer = [];
  parsed_response = parsed no_response;
  response_done = false;
}

unfoldable pub clear_prompt : Channel → Channel
clear_prompt c = record c { data_prompt = false }

unfoldable pub arm_prompt : Bool → Channel → Channel
arm_prompt armed c = record c { prompt_armed = armed }

unfoldable pub end_command : Channel → Channel
end_command c = record c { command_in_progress = false }

abbrev pub write_out : Bytes → AtUart → AtUart
write_out bytes u = on_channel (λ c. record c { log = c.log ++ writes bytes ∷ [] }) u

-- What comes in during a wait. The bits are read behind it.
unfoldable pub wait : Surroundings → AtUart → AtUart
wait env u =
    receive_all (env.reads u.channel.waits) (on_channel (λ c. record c { waits = suc c.waits }) u)

-- `WaitBits` clears the bits that it waits for, where it returns for them.
pub clear_done : Channel → Channel
clear_done c = record c { response_done = false }

abbrev pub transmit_failed : String → AtResult
transmit_failed context = fails (at_error AtErrc.transmit_failed (codes context))

abbrev pub timed_out : Bytes → AtResult
timed_out context = fails (at_error AtErrc.timeout context)

response_result : ParsedAtResponse → AtResult
response_result r = if r.ok then succeeds else fails r.error

-- The result that the parsed response gives.
pub parsed_result : Parsed → AtResult
unfolding response_result
parsed_result (parsed r) = response_result r
parsed_result overflows = undefined
parsed_result out_of_fuel = undefined

-- The wait for the final line, and what it gives.
pub await_response : Surroundings → Bytes → AtUart → AtUart × AtResult
await_response env context u =
    let w = wait env u in
    if w.channel.response_done
    then (on_channel (λ c. end_command (clear_done c)) w, parsed_result w.channel.parsed_response)
    else (on_channel end_command w, timed_out context)

pub send_command : Surroundings → Bytes → AtUart → AtUart × AtResult
send_command env cmd u =
    let begun = on_channel begin_command u in
    let full_cmd = cmd ++ codes "\r\n" in
    let v = write_out full_cmd begun in
    if all_written (env.send u.channel.log full_cmd) (length full_cmd)
    then await_response env (codes "command timeout: " ++ cmd) v
    else (on_channel end_command v, transmit_failed "failed to send command")

abbrev pub with_data_context : Bytes
with_data_context = codes "command with data timeout"

-- The payload and the suffix, behind the prompt; how much of the suffix was taken is not looked at.
pub send_payload : Surroundings → Bytes → Bytes → AtUart → AtUart × AtResult
send_payload env bytes suffix u =
    let v = write_out bytes u in
    if all_written (env.send u.channel.log bytes) (length bytes)
    then await_response env with_data_context (write_out suffix v)
    else (on_channel end_command v, transmit_failed "failed to send data")

pub await_prompt : Surroundings → Bytes → Bytes → AtUart → AtUart × AtResult
await_prompt env bytes suffix u =
    let w = wait env u in
    if w.channel.data_prompt
    then send_payload env bytes suffix (on_channel clear_prompt w)
    else (on_channel end_command w, timed_out (codes "data prompt timeout"))

-- Without a suffix the prefix is the whole command.
pub send_command_with_data : Surroundings → Bytes → Bytes → Bytes → AtUart → AtUart × AtResult
send_command_with_data env prefix bytes suffix u =
    let begun = on_channel (λ c. clear_prompt (begin_command c)) u in
    let prefix_str = if equal suffix [] then prefix else prefix ++ codes "\r\n" in
    let v = write_out prefix_str begun in
    if all_written (env.send u.channel.log prefix_str) (length prefix_str)
    then (if equal suffix []
        then await_response env with_data_context v
        else await_prompt env bytes suffix v)
    else (on_channel end_command v, transmit_failed "failed to send command prefix")

pub send_line : Surroundings → Bytes → AtUart → AtUart × AtResult
send_line env cmd u =
    let full_cmd = cmd ++ codes "\r\n" in
    (
      write_out full_cmd u,
      if all_written (env.send u.channel.log full_cmd) (length full_cmd)
          then succeeds
          else transmit_failed "failed to send command",
    )

-- A response in place of the prompt.
unfoldable pub refused : ParsedAtResponse → AtResult
refused r =
    if r.ok then timed_out (codes "no data prompt after a successful command") else fails r.error

unfoldable pub refused_result : Parsed → AtResult
refused_result (parsed r) = refused r
refused_result overflows = undefined
refused_result out_of_fuel = undefined

-- Both bits are cleared where either is set.
unfoldable pub clear_both : Channel → Channel
clear_both c = record c { response_done = false; data_prompt = false }

-- Behind the wait for the prompt or a response.
unfoldable pub after_prompt : Surroundings → Bytes → Bytes → AtUart → AtUart × AtResult
after_prompt env prefix bytes w =
    let d = on_channel (λ c. end_command (arm_prompt false (clear_both c))) w in
    if w.channel.data_prompt
    then (
      write_out bytes d,
      if all_written (env.send d.channel.log bytes) (length bytes)
          then succeeds
          else transmit_failed "failed to send data",
    )
    else if w.channel.response_done
    then (d, refused_result w.channel.parsed_response)
    else (
      on_channel (λ c. end_command (arm_prompt false c)) w,
      timed_out (codes "data prompt timeout: " ++ prefix),
    )

unfoldable pub send_data_after_prompt : Surroundings → Bytes → Bytes → AtUart → AtUart × AtResult
send_data_after_prompt env prefix bytes u =
    let begun = on_channel (λ c. arm_prompt true (clear_prompt (begin_command c))) u in
    let full_cmd = prefix ++ codes "\r\n" in
    let v = write_out full_cmd begun in
    if all_written (env.send u.channel.log full_cmd) (length full_cmd)
    then after_prompt env prefix bytes (wait env v)
    else (
      on_channel (λ c. end_command (arm_prompt false c)) v,
      transmit_failed "failed to send command prefix",
    )

pub get_response : AtUart → Bytes
get_response u = u.channel.response_buffer

lines_of : Parsed → Option (List Bytes)
lines_of (parsed r) = some r.lines
lines_of overflows = none
lines_of out_of_fuel = none

-- `none` where the parsing was undefined.
pub get_response_lines : AtUart → Option (List Bytes)
unfolding lines_of
get_response_lines u = lines_of u.channel.parsed_response

-- The channel has no data mode.
abbrev pub no_data_mode : AtResult
no_data_mode = fails (at_error AtErrc.not_initialized (codes "data mode not supported"))

pub enter_data_mode : AtUart → AtUart × AtResult
enter_data_mode u = (u, no_data_mode)

pub exit_data_mode : AtUart → AtUart × AtResult
exit_data_mode u = (u, no_data_mode)

raw_sent : ℤ → Result ℕ
raw_sent (pos n) = ok n
raw_sent (negsuc n) = err (network_error NetworkErrc.transmit_failed "uart send failed")

pub send_raw : Surroundings → Bytes → AtUart → AtUart × Result ℕ
unfolding raw_sent
send_raw env bytes u = (write_out bytes u, raw_sent (env.send u.channel.log bytes))

pub set_baud_rate : ℤ → AtUart → AtUart
set_baud_rate baud u =
    on_channel
      (λ c. record c {
        baud_rate = baud;
        discard_partial_line = true;
        log = c.log ++ sets_baud_rate baud ∷ flushes ∷ [];
      })
      u
