-- ===== src/Replay/Reconstructor/Histories.antt =====
-- What is reconstructed of any trace, and of the trace of a state machine.
use mathlib.Core.List.{append_assoc, append-nil, map-append}
use ghost_pages.Common.{
  ℕ, suc, ◌≡◌, refl, sym, ap, ◌∙◌, ◌&&◌, Option, none, some, List, [], ◌∷◌, ◌++◌, map,
  if◌then◌else◌, Bool-cases, inl, inr, nat_ord,
}
use ghost_pages.Core.Types.{ChunkId}
use ghost_pages.Core.Pressure.{Float}
use ghost_pages.Core.State.{
  ChunkState, evicted, state_eqb, is_valid_transition, StateMachine, get_state, Call, registers,
  transitions, removes, apply, run,
}
use ghost_pages.Core.Trace.{TraceEvent, chunk_created, chunk_deleted, chunk_state_changed, eviction}
use ghost_pages.Replay.Reconstructor.{
  StateReconstructor, StateSnapshot, follow, follow_eviction, update_machine, update_totals,
  snapshot_of, process_event, process_from, process_events,
}

-- The calls that an event amounts to: one, or none.
calls_to_follow : ChunkId → (from to : ChunkState) → Option ChunkState → List Call
calls_to_follow id from to none = []
calls_to_follow id from to (some current) =
    if state_eqb current from && is_valid_transition current to then transitions id to ∷ [] else []

calls_to_evict : ChunkId → Option ChunkState → List Call
calls_to_evict id none = []
calls_to_evict id (some current) =
    if is_valid_transition current evicted then transitions id evicted ∷ [] else []

follow-run :
    (m : StateMachine) (id : ChunkId) (from to : ChunkState) (o : Option ChunkState)
    → follow m id from to o ≡ run m (calls_to_follow id from to o)
unfolding follow run apply calls_to_follow
follow-run m id from to none = refl
follow-run m id from to (some s) =
    elim (Bool-cases (state_eqb s from && is_valid_transition s to)) [
      | inl e ↦ rw e refl
      | inr e ↦ rw e refl
    ]

follow_eviction-run :
    (m : StateMachine) (id : ChunkId) (o : Option ChunkState)
    → follow_eviction m id o ≡ run m (calls_to_evict id o)
unfolding follow_eviction run apply calls_to_evict
follow_eviction-run m id none = refl
follow_eviction-run m id (some s) = elim (Bool-cases (is_valid_transition s evicted)) [
  | inl e ↦ rw e refl
  | inr e ↦ rw e refl
]

run-append : (m : StateMachine) (cs ds : List Call) → run m (cs ++ ds) ≡ run (run m cs) ds
unfolding run
run-append m [] ds = refl
run-append m (c ∷ cs) ds = run-append (apply m c) cs ds

module _ {F : Type 0} where
  -- The machine alone, event by event.
  abbrev pub replay : StateMachine → List (TraceEvent F) → StateMachine
  replay m [] = m
  replay m (e ∷ es) = replay (update_machine m e) es

  calls_of : StateMachine → TraceEvent F → List Call
  calls_of m (chunk_created id _ _ _) = registers id ∷ []
  calls_of m (chunk_state_changed id from to _) = calls_to_follow id from to (get_state m id)
  calls_of m (chunk_deleted id _ _) = removes id ∷ []
  calls_of m (eviction id _ _ _) = calls_to_evict id (get_state m id)
  calls_of m _ = []

  update_machine-run :
      (m : StateMachine) (e : TraceEvent F) → update_machine m e ≡ run m (calls_of m e)
  unfolding update_machine run apply calls_of
  update_machine-run m (chunk_created id _ _ _) = refl
  update_machine-run m (chunk_state_changed id from to _) = follow-run m id from to (get_state m id)
  update_machine-run m (chunk_deleted id _ _) = refl
  update_machine-run m (eviction id _ _ _) = follow_eviction-run m id (get_state m id)
  update_machine-run m _ = refl

  all_calls : StateMachine → List (TraceEvent F) → List Call
  all_calls m [] = []
  all_calls m (e ∷ es) = calls_of m e ++ all_calls (update_machine m e) es

  replay-run : (m : StateMachine) (es : List (TraceEvent F)) → replay m es ≡ run m (all_calls m es)
  unfolding all_calls run
  replay-run m [] = refl
  replay-run m (e ∷ es) =
      replay-run (update_machine m e) es
      ∙ ap (λ x. run x (all_calls (update_machine m e) es)) (update_machine-run m e)
      ∙ sym (run-append m (calls_of m e) (all_calls (update_machine m e) es))

  -- Each event, with the machine after it.
  abbrev pub shown : StateMachine → List (TraceEvent F) → List (TraceEvent F × StateMachine)
  shown m [] = []
  shown m (e ∷ es) = (e, update_machine m e) ∷ shown (update_machine m e) es

module _ (fl : Float) where
  open fl use {F}

  process_from-machine :
      (i : ℕ) (r : StateReconstructor F) (es : List (TraceEvent F))
      → (process_from fl i r es).state_machine ≡ replay r.state_machine es
  unfolding process_from process_event
  process_from-machine i r [] = refl
  process_from-machine i r (e ∷ es) = process_from-machine (suc i) (process_event fl r i e) es

  pub process_events-machine :
      (r : StateReconstructor F) (es : List (TraceEvent F))
      → (process_events fl r es).state_machine ≡ replay r.state_machine es
  unfolding process_events
  process_events-machine r es = process_from-machine 0 r es

  -- Whatever the trace, also a malformed one, the machine that is reconstructed is one that calls
  -- of the state machine lead to from the machine at the start.
  pub process_events-run :
      (r : StateReconstructor F) (es : List (TraceEvent F))
      → (cs : List Call) × ((process_events fl r es).state_machine ≡ run r.state_machine cs)
  unfolding process_events
  process_events-run r es =
      (all_calls r.state_machine es, process_from-machine 0 r es ∙ replay-run r.state_machine es)

  update_totals-snapshots :
      (r : StateReconstructor F) (e : TraceEvent F) → (update_totals fl r e).snapshots ≡ r.snapshots
  unfolding update_totals
  update_totals-snapshots r (chunk_created _ _ _ _) = refl
  update_totals-snapshots r _ = refl

  abbrev seen : StateSnapshot F → TraceEvent F × StateMachine
  seen s = (s.event, s.chunk_states)

  process_from-snapshots :
      (i : ℕ) (r : StateReconstructor F) (es : List (TraceEvent F))
      → map seen (process_from fl i r es).snapshots
        ≡ map seen r.snapshots ++ shown r.state_machine es
  unfolding process_from process_event snapshot_of
  process_from-snapshots i r [] = sym (append-nil (map seen r.snapshots))
  process_from-snapshots i r (e ∷ es) =
      let m = update_machine r.state_machine e in
      process_from-snapshots (suc i) (process_event fl r i e) es
      ∙ ap (λ xs. xs ++ shown m es) (map-append seen (update_totals fl r e).snapshots _)
      ∙ append_assoc (map seen (update_totals fl r e).snapshots) ((e, m) ∷ []) (shown m es)
      ∙ ap (λ xs. map seen xs ++ shown r.state_machine (e ∷ es)) (update_totals-snapshots r e)

  -- Processing adds one snapshot for each event, in order; each shows its event, and the states of
  -- the chunks after it.
  pub process_events-snapshots :
      (r : StateReconstructor F) (es : List (TraceEvent F))
      → map (λ s. (s.event, s.chunk_states)) (process_events fl r es).snapshots
        ≡ map (λ s. (s.event, s.chunk_states)) r.snapshots ++ shown r.state_machine es
  unfolding process_events
  process_events-snapshots r es = process_from-snapshots 0 r es
