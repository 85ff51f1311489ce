-- ===== src/Tests/State.antt =====
-- The chunk state machine, with one evicted and one migrating chunk.
use ghost_pages.Common.{[], ◌∷◌}
use ghost_pages.Core.State.{StateMachine, stored, migrating, evicted, get_state, apply, transitions}
use ghost_pages.Core.State.Lifecycle.{Move, apply-Move}

abbrev machine : StateMachine
machine = (1, evicted) ∷ (2, migrating) ∷ []

apply-Move_example :
    Move
      (transitions 2 stored)
      2
      (get_state machine 2)
      (get_state (apply machine (transitions 2 stored)) 2)
apply-Move_example = apply-Move machine (transitions 2 stored) 2
