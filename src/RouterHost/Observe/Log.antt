-- ===== src/RouterHost/Observe/Log.antt =====
-- The log of events over any sequence of them. The process takes a number before it takes the lock of
-- the log, so that two tasks may write in the other order: the emissions here follow one another.
use mathlib.Core.List.{append-nil, append_assoc}
use apm_projectrunner.Base.{
  ℕ, suc, ◌+◌, ◌%◌, ◌<◌, ◌≤◌, String, ◌≡◌, refl, true, List, [], ◌∷◌, ◌++◌, length, subst, sym, inl,
  nat_eq, arith, All,
}
use apm_projectrunner.Base.Ring.{
  room, length-push, room_lem, length-room, All-push, All-rest, Numbered, Numbered-push,
  Numbered-rest, IsEnd, IsEnd-push,
}
use apm_projectrunner.Base.Json.{Value, Fields, HasField}
use apm_projectrunner.RouterHost.Observe.{
  EventKind, RouterEvent, Observability, unobserved, max_events, emit, redact_fields, sensitive_key,
  redacted, u64,
}
use apm_projectrunner.RouterHost.Observe.Redaction.{fields-Hidden}

-- What is emitted: the time, the kind, the outcome and the fields.
abbrev pub Emission : Type 0
Emission = ℕ × (EventKind × (String × Fields))

unfoldable pub emit_all : Observability → List Emission → Observability
emit_all o [] = o
emit_all o ((now, (kind, (outcome, fields))) ∷ es) = emit_all (emit now kind outcome fields o) es

abbrev pub Redacted : RouterEvent → Type 0
Redacted e =
    (key : String) (child : Value)
    → HasField key child e.fields
    → sensitive_key key ≡ true
    → child ≡ redacted

-- The event of the emission with the number.
abbrev pub event_of : ℕ → Emission → RouterEvent
event_of n (now, (kind, (outcome, fields))) = record {
  sequence = n;
  timestamp_ms = now;
  kind = kind;
  outcome = outcome;
  fields = redact_fields fields;
}

-- The events of emissions, of which the first has the number after `n`.
unfoldable pub events_of : ℕ → List Emission → List RouterEvent
events_of n [] = []
events_of n (e ∷ es) = event_of (n + 1) e ∷ events_of (n + 1) es

pub record IsLog (o : Observability) : Type 0 where
  pub bounded : length o.events ≤ max_events
  pub numbered : Numbered (λ e. e.sequence) o.sequence o.events
  pub hidden : All Redacted o.events

emit-IsLog :
    (now : ℕ) (kind : EventKind) (outcome : String) (fields : Fields) (o : Observability)
    → o.sequence + 1 < u64
    → IsLog o
    → IsLog (emit now kind outcome fields o)
      × ((emit now kind outcome fields o).sequence ≡ o.sequence + 1)
unfolding emit
emit-IsLog now kind outcome fields o small i =
    let next : (o.sequence + 1) % u64 ≡ suc o.sequence = omega arith in
    (
      record {
        bounded = omega (
          arith,
          length-push (room max_events o.events) _,
          length-room max_events o.events (omega arith) i.bounded,
        );
        numbered = rw next (
            Numbered-push (λ e. e.sequence) o.sequence (room max_events o.events) _ refl
              (room_lem (Numbered (λ e. e.sequence) o.sequence) max_events o.events i.numbered
                (Numbered-rest (λ e. e.sequence) o.sequence o.events i.numbered)));
        hidden =
            All-push Redacted (room max_events o.events) _ (λ key child m. fields-Hidden fields m)
              (room_lem (All Redacted) max_events o.events i.hidden
                (All-rest Redacted o.events i.hidden));
      },
      omega (arith, next),
    )

emit_all-IsLog :
    (o : Observability) (es : List Emission)
    → o.sequence + length es < u64
    → IsLog o
    → IsLog (emit_all o es) × ((emit_all o es).sequence ≡ o.sequence + length es)
unfolding emit_all
emit_all-IsLog o [] small i = (i, omega arith)
emit_all-IsLog o ((now, (kind, (outcome, fields))) ∷ es) small i =
    let (i', n) = emit-IsLog now kind outcome fields o (omega arith) i in
    let (i'', n') = emit_all-IsLog (emit now kind outcome fields o) es (omega (arith, n)) i' in
    (i'', omega (arith, n, n'))

emit-events :
    (n : ℕ) (e : Emission) (o : Observability) (all : List RouterEvent)
    → n + 1 < u64
    → o.sequence ≡ n
    → IsEnd max_events all o.events
    → IsEnd max_events (all ++ event_of (n + 1) e ∷ []) (emit e.0 e.1.0 e.1.1.0 e.1.1.1 o).events
unfolding emit
emit-events n (now, (kind, (outcome, fields))) o all small same k =
    let next : (o.sequence + 1) % u64 ≡ n + 1 = omega (arith, same) in
    rw next (IsEnd-push max_events all o.events _ (omega arith) k)

emit_all-events :
    (n : ℕ) (es : List Emission) (o : Observability) (all : List RouterEvent)
    → n + length es < u64
    → o.sequence ≡ n
    → IsLog o
    → IsEnd max_events all o.events
    → IsEnd max_events (all ++ events_of n es) (emit_all o es).events
unfolding emit_all events_of
emit_all-events n [] o all small same i k =
    subst (λ xs. IsEnd max_events xs o.events) (sym (append-nil all)) k
emit_all-events n ((now, (kind, (outcome, fields))) ∷ es) o all small same i k =
    let e : Emission = (now, (kind, (outcome, fields))) in
    let (i', counted) = emit-IsLog now kind outcome fields o (omega (arith, same)) i in
    subst (λ xs. IsEnd max_events xs (emit_all (emit now kind outcome fields o) es).events)
      (append_assoc all ((event_of (n + 1) e) ∷ []) (events_of (n + 1) es))
      (emit_all-events (n + 1) es (emit now kind outcome fields o) (all ++ event_of (n + 1) e ∷ [])
        (omega arith) (omega (arith, counted, same)) i'
        (emit-events n e o all (omega arith) same k))

-- Of fewer than 2 ^ 64 events, emitted one after the other, the log holds all or the last 256, with
-- their times, kinds and outcomes, in the order of the emissions. They are numbered from 1 on, so that
-- the numbers in the log are consecutive and the last is the number of events that were emitted. No
-- event shows the value of a field, at any depth, whose key is sensitive.
pub emit_all-unobserved :
    (es : List Emission)
    → length es < u64
    → IsLog (emit_all unobserved es)
      × IsEnd max_events (events_of 0 es) (emit_all unobserved es).events
      × ((emit_all unobserved es).sequence ≡ length es)
emit_all-unobserved es small =
    let new : IsLog unobserved = record { bounded = omega arith; numbered = tt; hidden = tt } in
    let (i, n) = emit_all-IsLog unobserved es (omega arith) new in
    let kept =
      emit_all-events 0 es unobserved [] (omega arith) refl new
        (record { lost = []; whole = refl; full = inl refl }) in
    (i, kept, omega (arith, n))
