-- ===== src/Core/State/Tracking.antt =====
-- What the calls of the state machine return, and the queries over it.
use ghost_pages.Common.{
  ◌≡◌, ◌∙◌, true, false, none, some, Bool-cases, Option-cases, inl, inr, nat_ord,
}
use ghost_pages.Common.BTreeMap.{get, insert}
use ghost_pages.Core.Types.{ChunkId, ok, err, internal, invalid_state_transition}
use ghost_pages.Core.State.{
  ChunkState, is_valid_transition, transition_to, StateMachine, get_state, transition_from,
  transition,
}

-- What `transition` answers, in terms of the state that it finds.
pub data Outcome (m : StateMachine) (id : ChunkId) (next : ChunkState) : Type 0 where
  untracked : get_state m id ≡ none → transition m id next ≡ (m, err internal) → Outcome m id next
  refused :
      (s : ChunkState)
      → get_state m id ≡ some s
      → is_valid_transition s next ≡ false
      → transition m id next ≡ (m, err invalid_state_transition)
      → Outcome m id next
  done :
      (s : ChunkState)
      → get_state m id ≡ some s
      → is_valid_transition s next ≡ true
      → transition m id next ≡ (insert id next m, ok next)
      → Outcome m id next

transition_from-cases :
    (m : StateMachine) (id : ChunkId) (next s : ChunkState)
    → get_state m id ≡ some s
    → transition m id next ≡ transition_from m id s next
    → Outcome m id next
unfolding transition_from transition_to
transition_from-cases m id next s e f = elim (Bool-cases (is_valid_transition s next)) [
  | inl v ↦ done s e v (f ∙ rw (v, transition_from, transition_to))
  | inr v ↦ refused s e v (f ∙ rw (v, transition_from, transition_to))
]

-- `transition` succeeds exactly when the chunk is tracked and the table allows the step, and then
-- only records the new state; both failures leave the machine as it was, each with its error.
pub transition-Outcome : (m : StateMachine) (id : ChunkId) (next : ChunkState) → Outcome m id next
unfolding get_state transition
transition-Outcome m id next = elim (Option-cases (get id m)) [
  | inl e ↦ untracked e (rw (e, transition))
  | inr (s, e) ↦ transition_from-cases m id next s e (rw (e, transition))
]
