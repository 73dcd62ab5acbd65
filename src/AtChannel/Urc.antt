-- ===== src/AtChannel/Urc.antt =====
-- src/at_channel/urc_dispatcher.h and urc_dispatcher.cpp. The buckets of `handlers_` stand in the order
-- in which the map is walked. The language does not say which that is, and it may change with every
-- subscription, so `arrange` is a parameter. A handler is known by its handle; an empty one is not
-- callable. The prefix that an entry repeats is the key of its bucket, and nothing reads it.
pub mod Live
pub mod Run
mod Tests
use esp_modem_link.Common.{
  ℕ, ◌+◌, ◌%◌, ◌^◌, Bool, true, false, not, ◌||◌, Option, none, some, List, [], ◌∷◌, ◌++◌,
}
use esp_modem_link.Common.Lists.{Bytes, equal, take, drop, starts_with}
use esp_modem_link.Common.Search.{index_of, is_space, trim_with}
use esp_modem_link.Common.Tests.{◌==◌, if◌then◌else◌}

pub record HandlerEntry : Type 0 where
  pub handle : ℕ
  pub callable : Bool

abbrev pub Table : Type 0
Table = List (Bytes × List HandlerEntry)

pub record UrcDispatcher : Type 0 where
  pub handlers : Table
  pub next_handle : ℕ

abbrev pub new_dispatcher : UrcDispatcher
new_dispatcher = record { handlers = []; next_handle = 1 }

-- `handlers_[prefix].push_back(entry)`
pub push_entry : Bytes → HandlerEntry → Table → Table
push_entry prefix entry [] = (prefix, entry ∷ []) ∷ []
push_entry prefix entry ((key, entries) ∷ rest) =
    let others = push_entry prefix entry rest in
    if equal key prefix then (key, entries ++ entry ∷ []) ∷ rest else (key, entries) ∷ others

pub subscribe : (Table → Table) → Bytes → Bool → UrcDispatcher → UrcDispatcher × ℕ
subscribe arrange prefix callable d = (
  record {
    handlers =
        arrange
          (push_entry prefix (record { handle = d.next_handle; callable = callable }) d.handlers);
    next_handle = (d.next_handle + 1) % 2 ^ 64;
  },
  d.next_handle,
)

pub has_handle : ℕ → List HandlerEntry → Bool
has_handle handle [] = false
has_handle handle (e ∷ entries) = e.handle == handle || has_handle handle entries

pub without_handle : ℕ → List HandlerEntry → List HandlerEntry
without_handle handle [] = []
without_handle handle (e ∷ entries) =
    let others = without_handle handle entries in if e.handle == handle then others else e ∷ others

-- The first bucket that has the handle loses it, and the walk ends there.
pub erase_handle : ℕ → Table → Table
erase_handle handle [] = []
erase_handle handle ((key, entries) ∷ rest) =
    let others = erase_handle handle rest in
    if has_handle handle entries
    then (key, without_handle handle entries) ∷ rest
    else (key, entries) ∷ others

pub unsubscribe : ℕ → UrcDispatcher → UrcDispatcher
unsubscribe handle d = record d { handlers = erase_handle handle d.handlers }

abbrev pub trim : Bytes → Bytes
trim s = trim_with is_space s

-- A handler as it is invoked.
pub record Call : Type 0 where
  pub handle : ℕ
  pub command : Bytes
  pub arguments : Bytes

pub calls_of : Bytes → Bytes → List HandlerEntry → List Call
calls_of command arguments [] = []
calls_of command arguments (e ∷ entries) =
    let others = calls_of command arguments entries in
    if e.callable
    then record { handle = e.handle; command = command; arguments = arguments } ∷ others
    else others

-- The handlers of every bucket whose prefix begins the command.
pub matches : Bytes → Bytes → Table → List Call
matches command arguments [] = []
matches command arguments ((key, entries) ∷ rest) =
    (if starts_with command key then calls_of command arguments entries else [])
    ++ matches command arguments rest

-- The command of a trimmed line, and its arguments.
abbrev pub command_of : Option ℕ → Bytes → Bytes
command_of none line = line
command_of (some colon) line = take colon line

abbrev pub arguments_of : Option ℕ → Bytes → Bytes
arguments_of none line = []
arguments_of (some colon) line = trim (drop (colon + 1) line)

pub dispatch_trimmed : Bytes → Table → List Call
dispatch_trimmed [] handlers = []
dispatch_trimmed (c ∷ cs) handlers =
    let colon = index_of b':' (c ∷ cs) in
    matches (command_of colon (c ∷ cs)) (arguments_of colon (c ∷ cs)) handlers

pub dispatch : Bytes → UrcDispatcher → List Call
dispatch line d = dispatch_trimmed (trim line) d.handlers
