-- ===== src/Daemon/TraceLog/Window.antt =====
-- The log keeps a window of the most recent events.
use ghost_pages.Common.{
  ◌-◌, ◌≤◌, ◌<◌, ◌≡◌, ap, ◌∙◌, List, [], ◌∷◌, ◌++◌, some, length, length-append, length-drop, leb,
  if◌then◌else◌, arith,
}
use mathlib.Core.List.{append_assoc, append-nil}
use ghost_pages.Common.Suffix.{last_n, last_n-at, last_n-append}
use ghost_pages.Daemon.TraceLog.{TraceLog, record_event, record_all, remove_first, push_after}

module _ {E : Type 0} where
  pub record IsBounded (t : TraceLog E) : Type 0 where
    pub positive : 0 < t.max_events
    pub bounded : length t.events ≤ t.max_events

  -- With room for one event at least, recording never panics and keeps the last `max_events`.
  window :
      (t : TraceLog E) (e : E) (events : List E)
      → 0 < t.max_events
      → length events ≤ t.max_events
      → push_after t e
          (if leb t.max_events (length events) then remove_first events else some events)
        ≡ some (record t { events = last_n t.max_events (events ++ e ∷ []) })
  unfolding push_after remove_first
  window t e [] p b = ground (arith, last_n-at t.max_events 0 (e ∷ []))
  window t e (x ∷ xs) p b = ground (
    arith,
    length-append xs (e ∷ []),
    last_n-at t.max_events 0 (x ∷ xs ++ e ∷ []),
    last_n-at t.max_events 1 (x ∷ xs ++ e ∷ []),
  )

  pub record_event_lem :
      (t : TraceLog E) (e : E)
      → IsBounded t
      → record_event t e ≡ some (record t { events = last_n t.max_events (t.events ++ e ∷ []) })
  unfolding record_event
  record_event_lem t e v = window t e t.events v.positive v.bounded

  pub record_event-IsBounded :
      (t : TraceLog E) (e : E)
      → IsBounded t
      → IsBounded (record t { events = last_n t.max_events (t.events ++ e ∷ []) })
  record_event-IsBounded t e v = record {
    positive = v.positive;
    bounded =
        omega
          (arith, length-drop (length (t.events ++ e ∷ []) - t.max_events) (t.events ++ e ∷ []));
  }

  -- In a log with room for one event at least, and no more events than it has room for, recording a
  -- sequence of events never panics, and leaves the last `max_events` of all events ever recorded,
  -- in order.
  pub record_all_lem :
      (t : TraceLog E) (es : List E)
      → IsBounded t
      → record_all t es ≡ some (record t { events = last_n t.max_events (t.events ++ es) })
  unfolding record_all
  record_all_lem t [] v =
      rw append-nil (ground (arith, v.bounded, last_n-at t.max_events 0 t.events))
  record_all_lem t (e ∷ es) v =
      rw (record_event_lem t e v, record_all)
        (record_all_lem (record t { events = last_n t.max_events (t.events ++ e ∷ []) }) es
            (record_event-IsBounded t e v)
          ∙ ap (λ (es' : List E). some (record t { events = es' }))
              (last_n-append t.max_events (t.events ++ e ∷ []) es
                ∙ ap (last_n t.max_events) (append_assoc t.events (e ∷ []) es)))
