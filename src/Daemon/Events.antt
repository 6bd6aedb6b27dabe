-- ===== src/Daemon/Events.antt =====
-- `EventLog`: the events of an operation, kept up to a capacity, and what a reader receives who asks for
-- the event after the last that it has seen. A wait for an event that is not there yet is an answer
-- of its own.
pub mod Reading
use apm_projectrunner.Base.{
  ℕ, ◌+◌, ◌-◌, ◌^◌, String, Bool, true, false, List, [], ◌∷◌, ◌++◌, ℤ, leb, ltb, if◌then◌else◌,
}
use apm_projectrunner.Base.Json.{Value}
use apm_projectrunner.Base.Ring.{room}
use apm_projectrunner.Daemon.Live.{u64_max}

pub data EventKind : Type 0 where
  operation build health route log : EventKind

pub record Event : Type 0 where
  pub id : ℕ
  pub operation_id : String
  pub kind : EventKind
  pub timestamp : ℤ
  pub data_value : Value

pub record EventLog : Type 0 where
  pub events : List Event
  pub next_id : ℕ
  pub terminal : Bool

abbrev pub event_capacity : ℕ
event_capacity = 2048

-- `EventLog::new`.
abbrev pub empty_log : EventLog
empty_log = record { events = []; next_id = 1; terminal = false }

-- `saturating_add(1)` of a `u64`.
abbrev pub saturating_successor : ℕ → ℕ
saturating_successor n = if leb (n + 1) u64_max then n + 1 else n

-- One step here; the code releases the lock of `next_id` before it takes that of the events.
unfoldable pub emit : String → ℤ → EventKind → Value → EventLog → EventLog
emit operation_id now kind data_value l =
    let event : Event = record {
      id = l.next_id;
      operation_id = operation_id;
      kind = kind;
      timestamp = now;
      data_value = data_value;
    } in
    record l {
      events = room event_capacity l.events ++ event ∷ [];
      next_id = saturating_successor l.next_id;
    }

abbrev pub finish : EventLog → EventLog
finish l = record l { terminal = true }

-- An event, the end of the stream, or a wait for a notification.
pub data Answer : Type 0 where
  received : Event → Answer
  ended : Answer
  waits : Answer

abbrev at_end : Bool → Answer
at_end true = ended
at_end false = waits

unfoldable pub find_after : ℕ → Bool → List Event → Answer
find_after after terminal [] = at_end terminal
find_after after terminal (e ∷ es) =
    let later = find_after after terminal es in if ltb after e.id then received e else later

-- One round of the loop of `next_after`, as one step; the code reads the events and then `terminal`.
unfoldable pub next_after : ℕ → EventLog → Answer
next_after after l = find_after after l.terminal l.events
