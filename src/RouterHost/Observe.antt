-- ===== src/RouterHost/Observe.antt =====
-- `Observability`: the counters and the bounded log of events, whose fields hold no secret.
pub mod Log
pub mod Redaction
use apm_projectrunner.Base.{
  ℕ, ◌+◌, ◌%◌, ◌^◌, String, Bool, List, [], ◌∷◌, ◌++◌, any, map, length, ◌==◌, nat_eq, codes,
  contains_text, to_ascii_lowercase, if◌then◌else◌,
}
use apm_projectrunner.Base.Ring.{room}
use apm_projectrunner.Base.Json.{
  Value, null, bool, number, text, array, object, Items, nil, cons, Fields, end, field,
}

pub data EventKind : Type 0 where
  access routing_decision health reload rejection : EventKind

pub record RouterEvent : Type 0 where
  pub sequence : ℕ
  pub timestamp_ms : ℕ
  pub kind : EventKind
  pub outcome : String
  pub fields : Fields

pub record Counters : Type 0 where
  pub requests : ℕ
  pub connections : ℕ
  pub errors : ℕ

pub record Observability : Type 0 where
  pub counters : Counters
  pub sequence : ℕ
  pub events : List RouterEvent

abbrev pub max_events : ℕ
max_events = 256

abbrev pub u64 : ℕ
u64 = 2 ^ 64

-- `Observability::new`.
abbrev pub unobserved : Observability
unobserved = record {
  counters = record { requests = 0; connections = 0; errors = 0 };
  sequence = 0;
  events = [];
}

unfoldable pub sensitive_key : String → Bool
sensitive_key key =
    any (λ sensitive. contains_text (map to_ascii_lowercase (codes key)) (codes sensitive))
      ("authorization" ∷ "cookie" ∷ "password" ∷ "secret" ∷ "token" ∷ "privatekey" ∷ "private_key"
        ∷ [])

abbrev pub redacted : Value
redacted = text "[REDACTED]"

unfoldable mutual
  pub redact_value : Value → Value
  redact_value null = null
  redact_value (bool b) = bool b
  redact_value (number n) = number n
  redact_value (text s) = text s
  redact_value (array xs) = array (redact_items xs)
  redact_value (object fs) = object (redact_fields fs)

  pub redact_items : Items → Items
  redact_items nil = nil
  redact_items (cons x xs) = cons (redact_value x) (redact_items xs)

  -- The map over the entries, of an object as of the fields of an event.
  pub redact_fields : Fields → Fields
  redact_fields end = end
  redact_fields (field key value fs) =
      let inner = redact_value value in
      field key (if sensitive_key key then redacted else inner) (redact_fields fs)

-- `emit`, at a time in milliseconds. The sequence number is an atomic `u64`, which wraps around. It is
-- one step here; the code takes the number before it takes the lock of the events.
unfoldable pub emit : ℕ → EventKind → String → Fields → Observability → Observability
emit now kind outcome fields o =
    let event : RouterEvent = record {
      sequence = (o.sequence + 1) % u64;
      timestamp_ms = now;
      kind = kind;
      outcome = outcome;
      fields = redact_fields fields;
    } in
    record o { sequence = (o.sequence + 1) % u64; events = room max_events o.events ++ event ∷ [] }

-- `rejection`.
unfoldable pub rejected : ℕ → String → String → Observability → Observability
rejected now code operation =
    emit now rejection "rejected"
      (field "code" (text code) (field "operation" (text operation) end))

-- The `fetch_add`s of the counters.
abbrev pub count_request : Observability → Observability
count_request o = record o {
  counters = record o.counters { requests = (o.counters.requests + 1) % u64 };
}

abbrev pub count_connection : Observability → Observability
count_connection o = record o {
  counters = record o.counters { connections = (o.counters.connections + 1) % u64 };
}

abbrev pub count_error : Observability → Observability
count_error o = record o { counters = record o.counters { errors = (o.counters.errors + 1) % u64 } }
