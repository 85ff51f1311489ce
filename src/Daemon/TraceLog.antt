-- ===== src/Daemon/TraceLog.antt =====
-- crates/ghost-daemon/src/trace_log.rs: the bounded event log. A panic is `none`. The log is
-- generic in the events; the clock of `record_now` and the stamping are arguments.
pub mod Window
use ghost_pages.Common.{
  ℕ, ◌≡◌, Bool, List, [], ◌∷◌, ◌++◌, Option, none, some, length, filter, leb, ◌==◌, if◌then◌else◌,
}

pub record TraceLog (E : Type 0) : Type 0 where
  pub events : List E
  pub max_events : ℕ

module _ {E : Type 0} where
  unfoldable pub new_log : ℕ → TraceLog E
  new_log max_events = record { events = []; max_events = max_events }

  -- `events.remove(0)`, which panics on the empty vector.
  unfoldable pub remove_first : List E → Option (List E)
  remove_first [] = none
  remove_first (_ ∷ rest) = some rest

  unfoldable pub push_after : TraceLog E → E → Option (List E) → Option (TraceLog E)
  push_after t e none = none
  push_after t e (some events) = some (record t { events = events ++ e ∷ [] })

  unfoldable pub record_event : TraceLog E → E → Option (TraceLog E)
  unfolding remove_first push_after
  record_event t e =
      push_after t e
        (if leb t.max_events (length t.events) then remove_first t.events else some t.events)

  -- `record_now`: with a clock the event is stamped first.
  unfoldable pub record_now : (E → ℕ → E) → Option ℕ → TraceLog E → E → Option (TraceLog E)
  unfolding record_event
  record_now set_timestamp none t e = record_event t e
  record_now set_timestamp (some ts) t e = record_event t (set_timestamp e ts)

  unfoldable pub get_events_since : (E → ℕ) → TraceLog E → ℕ → List E
  get_events_since timestamp t since = filter (λ e. leb since (timestamp e)) t.events

  unfoldable pub clear : TraceLog E → TraceLog E
  clear t = record t { events = [] }

  unfoldable pub is_empty : TraceLog E → Bool
  is_empty t = length t.events == 0

  -- Recording a sequence of events, oldest first.
  unfoldable pub record_all : TraceLog E → List E → Option (TraceLog E)
  record_all t [] = some t
  record_all t (e ∷ es) = elim (record_event t e) [ none ↦ none | some t' ↦ record_all t' es ]
