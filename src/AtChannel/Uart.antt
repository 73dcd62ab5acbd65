-- ===== src/AtChannel/Uart.antt =====
-- src/at_channel/at_uart.h and at_uart.cpp: the channel over a UART. What the channel does to the UART
-- and to the handlers is a log of effects, newest last, and the UART answers a `Send` by any function of
-- that log. The receive task is a function of its own: a round of its loop is `begin_round`, a read, and
-- `end_round`, and what is read while a command waits is a list of reads to each wait. The debug output
-- and the locks are not modelled. A response code that does not fit an `int` is undefined behaviour,
-- which is a result of its own.
pub mod Command
pub mod Lines
pub mod Rounds
mod Tests
use esp_modem_link.Common.{
  ℕ, zero, suc, ◌+◌, Bool, true, false, not, ◌&&◌, ◌||◌, Option, none, some, List, [], ◌∷◌, ◌++◌,
  map,
}
use esp_modem_link.Common.Int.{ℤ}
use esp_modem_link.Common.Lists.{Bytes, codes, length, take, drop, equal, starts_with}
use esp_modem_link.Common.Search.{index_of_crlf, trim_with, is_blank}
use esp_modem_link.Common.Tests.{◌==◌, if◌then◌else◌}
use esp_modem_link.Error.{AtErrc, AtError, at_error}
use esp_modem_link.AtChannel.Response.{Parsed, parsed, no_response, parse_response}
use esp_modem_link.AtChannel.Urc.{
  UrcDispatcher, Table, Call, new_dispatcher, subscribe, unsubscribe, dispatch,
}

-- What the channel does.
pub data Effect : Type 0 where
  writes : Bytes → Effect
  invokes : Call → Effect
  sets_baud_rate : ℤ → Effect
  flushes : Effect

-- The bits of the event group are fields; the one that stops the task is not modelled.
pub record Channel : Type 0 where
  pub urc_dispatcher : UrcDispatcher
  pub response_buffer : Bytes
  pub parsed_response : Parsed
  pub command_in_progress : Bool
  pub prompt_armed : Bool
  pub response_done : Bool
  pub data_prompt : Bool
  pub discard_partial_line : Bool
  pub baud_rate : ℤ
  pub waits : ℕ
  pub log : List Effect

-- The channel, with the line that its receive task has half of.
pub record AtUart : Type 0 where
  pub channel : Channel
  pub line_buffer : Bytes

-- What the surroundings answer: the UART to a `Send`, and what is read in the n-th wait.
pub record Surroundings : Type 0 where
  pub send : List Effect → Bytes → ℤ
  pub reads : ℕ → List Bytes

abbrev pub new_channel : ℤ → Channel
new_channel baud_rate = record {
  urc_dispatcher = new_dispatcher;
  response_buffer = [];
  parsed_response = parsed no_response;
  command_in_progress = false;
  prompt_armed = false;
  response_done = false;
  data_prompt = false;
  discard_partial_line = false;
  baud_rate = baud_rate;
  waits = 0;
  log = [];
}

-- Only blanks behind a `>`.
abbrev pub all_blank : Bytes → Bool
all_blank [] = true
all_blank (c ∷ cs) = is_blank c && all_blank cs

pub is_data_prompt : Bytes → Bool
is_data_prompt [] = false
is_data_prompt (c ∷ cs) = c == b'>' && all_blank cs

-- `line.remove_suffix(1)` for a carriage return at the end.
pub without_cr : Bytes → Bytes
without_cr [] = []
without_cr (c ∷ []) = if c == b'\r' then [] else c ∷ []
without_cr (c ∷ d ∷ rest) = c ∷ without_cr (d ∷ rest)

abbrev pub is_status : Bytes → Bool
is_status line =
    let trimmed = trim_with is_blank line in
    equal trimmed (codes "OK")
    || equal trimmed (codes "ERROR")
    || starts_with trimmed (codes "+CME ERROR:")
    || starts_with trimmed (codes "+CMS ERROR:")

-- The response is complete.
conclude : Bool → Channel → Channel
conclude false c = c
conclude true c = record c {
  parsed_response = parse_response c.response_buffer;
  response_done = true;
}

-- A line that comes in while a command waits for its response.
pub absorb : Bytes → Channel → Channel
unfolding conclude
absorb line c = conclude (is_status line) (record c {
  response_buffer = c.response_buffer ++ (line ++ codes "\r\n");
  data_prompt = c.data_prompt || equal line (codes ">");
})

pub dispatch_line : Bytes → Channel → Channel
dispatch_line line c = record c { log = c.log ++ map invokes (dispatch line c.urc_dispatcher) }

-- A line without the carriage return: the handlers get it, whether a command is in flight or not.
pub take_line : Bytes → Channel → Channel
take_line line c =
    let d = dispatch_line line c in
    if all_blank line then c else if c.command_in_progress then absorb line d else d

pub process_line : Bytes → Channel → Channel
process_line line c = take_line (without_cr line) c

pub process_lines : List Bytes → Channel → Channel
process_lines [] c = c
process_lines (line ∷ lines) c = process_lines lines (process_line line c)

-- The complete lines of a buffer, and what is behind them. `none` means that the fuel ran out.
pub cut_lines : ℕ → Bytes → Option (List Bytes × Bytes)
cut_lines zero buffer = none
cut_lines (suc fuel) buffer = elim (index_of_crlf buffer) [
  | none ↦ some ([], buffer)
  | some end ↦ elim (cut_lines fuel (drop (end + 2) buffer)) [
    | none ↦ none
    | some (lines, rest) ↦ some (take end buffer ∷ lines, rest)
  ]
]

-- The head of a round of the receive task, in front of the read.
pub begin_round : AtUart → AtUart
begin_round u =
    if u.channel.discard_partial_line
    then record { channel = record u.channel { discard_partial_line = false }; line_buffer = [] }
    else u

-- A prompt that stands at the end of what has come in is consumed; it is told of only where it is awaited.
pub consume_prompt : AtUart → AtUart
consume_prompt u =
    let c = u.channel in
    if is_data_prompt u.line_buffer
    then record {
      channel = record c { prompt_armed = false; data_prompt = c.data_prompt || c.prompt_armed };
      line_buffer = [];
    }
    else u

-- `none` would be a loop over the lines that does not end.
pub take_lines : Option (List Bytes × Bytes) → AtUart → AtUart
take_lines none u = u
take_lines (some (lines, rest)) u =
    consume_prompt (record { channel = process_lines lines u.channel; line_buffer = rest })

take_bytes : Bytes → AtUart → AtUart
unfolding take_lines
take_bytes [] u = u
take_bytes (b ∷ bs) u =
    let buffer = u.line_buffer ++ b ∷ bs in take_lines (cut_lines (length buffer + 1) buffer) u

-- The rest of a round, behind the read; no bytes is a read that brought none.
pub end_round : Bytes → AtUart → AtUart
unfolding take_bytes
end_round bytes u =
    if u.channel.discard_partial_line
    then record { channel = record u.channel { discard_partial_line = false }; line_buffer = [] }
    else take_bytes bytes u

pub receive : Bytes → AtUart → AtUart
receive bytes u = end_round bytes (begin_round u)

pub receive_all : List Bytes → AtUart → AtUart
receive_all [] u = u
receive_all (bytes ∷ rest) u = receive_all rest (receive bytes u)

pub subscribe_urc : (Table → Table) → Bytes → Bool → AtUart → AtUart × ℕ
subscribe_urc arrange prefix callable u =
    let (d, handle) = subscribe arrange prefix callable u.channel.urc_dispatcher in
    (record u { channel = record u.channel { urc_dispatcher = d } }, handle)

pub unsubscribe_urc : ℕ → AtUart → AtUart
unsubscribe_urc handle u = record u {
  channel = record u.channel { urc_dispatcher = unsubscribe handle u.channel.urc_dispatcher };
}
