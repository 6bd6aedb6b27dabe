-- ===== src/Daemon/Events/Reading.antt =====
-- A reader of the event log neither repeats an event nor passes one over that is still kept, where the
-- emissions, the finishing and the rounds of the reader follow one another. The daemon releases the
-- lock of the identifiers before it takes that of the events, and the reader that of the events
-- before it takes that of `terminal`, so that other orders are possible there.
use apm_projectrunner.Base.{
  ℕ, ◌+◌, ◌≤◌, ◌<◌, String, ◌≡◌, Bool, true, false, List, [], ◌∷◌, ℤ, length, Member,
}
use apm_projectrunner.Base.Json.{Value}
use apm_projectrunner.Base.Ring.{Numbered, IsEnd}
use apm_projectrunner.Daemon.Events.{
  EventKind, Event, EventLog, event_capacity, emit, finish, Answer, received, ended, waits,
}

-- What the task of an operation does with its log.
pub data Step : Type 0 where
  emits : String → ℤ → EventKind → Value → Step
  finishes : Step

abbrev pub step : EventLog → Step → EventLog
step l (emits operation_id now kind value) = emit operation_id now kind value l
step l finishes = finish l

unfoldable pub run : EventLog → List Step → EventLog
run l [] = l
run l (s ∷ steps) = run (step l s) steps

-- The events that are emitted, of which the first has the identifier after `n`.
unfoldable pub events_of : ℕ → List Step → List Event
events_of n [] = []
events_of n (finishes ∷ steps) = events_of n steps
events_of n (emits operation_id now kind value ∷ steps) =
    (record {
      id = n + 1;
      operation_id = operation_id;
      kind = kind;
      timestamp = now;
      data_value = value;
    })
    ∷ events_of (n + 1) steps

-- One of the steps finishes the log.
unfoldable pub is_finished : List Step → Bool
is_finished [] = false
is_finished (finishes ∷ steps) = true
is_finished (emits operation_id now kind value ∷ steps) = is_finished steps

-- The oldest identifier that is kept is the number of what was emitted less the length of the log,
-- and one.
pub record IsLog (count : ℕ) (l : EventLog) : Type 0 where
  pub bounded : length l.events ≤ event_capacity
  pub counted : l.next_id ≡ count + 1
  pub numbered : Numbered (λ e. e.id) count l.events
  pub holds_some : length l.events ≡ 0 → count ≡ 0

-- The log after some events: the bookkeeping of its identifiers, and its contents.
pub record Holds (all : List Event) (count : ℕ) (l : EventLog) : Type 0 where
  pub log : IsLog count l
  pub kept : IsEnd event_capacity all l.events

-- What a reader receives who has seen the events up to `after`, of `count` that were emitted and of
-- which those of `es` are in the log, which is finished or not.
pub data Next (after count : ℕ) (es : List Event) (terminal : Bool) : Answer → Type 0 where
  following :
      (e : Event) → Member e es → e.id ≡ after + 1 → Next after count es terminal (received e)
  oldest :
      (e : Event)
      → Member e es
      → after < e.id
      → e.id + length es ≡ count + 1
      → Next after count es terminal (received e)
  finished : terminal ≡ true → count ≤ after → Next after count es terminal ended
  not_yet : terminal ≡ false → count ≤ after → Next after count es terminal waits
