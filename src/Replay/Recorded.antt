-- ===== src/Replay/Recorded.antt =====
-- The trace of a state machine, between the machine and what is made of its trace: each call that
-- changes the machine leaves an event, as the orchestrator and the workers record it.
use ghost_pages.Common.{
  ℕ, suc, ◌≡◌, ◌≢◌, refl, ap, ◌∙◌, true, false, Option, none, some, List, [], ◌∷◌, ◌++◌, length,
  All, ◌⊎◌, inl, inr, if◌then◌else◌, ◌==◌, ==_iff, arith, Bool-cases, Option-cases, nat_ord,
}
use ghost_pages.Common.BTreeMap.{get, insert, remove, contains_key, get-insert}
use ghost_pages.Common.BTreeMap.Sorted.{remove_absent}
use ghost_pages.Core.Types.{ChunkId, TierId}
use ghost_pages.Core.State.{
  ChunkState, allocated, stored, cached, migrating, evicted, failed, state_eqb, is_valid_transition,
  transition_to, StateMachine, new, get_state, register, transition_from, transition, forget, Call,
  registers, transitions, removes, apply,
}
use ghost_pages.Core.Trace.{TraceEvent, chunk_created, chunk_deleted, chunk_state_changed}
use ghost_pages.Replay.Invariants.{mismatch, illegal, illegal_from, no_illegal_transitions}

abbrev pub target : Call → ChunkId
target (registers id) = id
target (transitions id next) = id
target (removes id) = id

state_eqb_refl : (s : ChunkState) → state_eqb s s ≡ true
state_eqb_refl allocated = refl
state_eqb_refl stored = refl
state_eqb_refl cached = refl
state_eqb_refl migrating = refl
state_eqb_refl evicted = refl
state_eqb_refl failed = refl

apply-registers_new :
    (m : StateMachine) (id : ChunkId) → get id m ≡ none → (register m id).0 ≡ insert id allocated m
unfolding register contains_key
apply-registers_new m id e = rw (e, register, contains_key) refl

apply-registers_old :
    (m : StateMachine) (id : ChunkId) (s : ChunkState) → get id m ≡ some s → (register m id).0 ≡ m
unfolding register contains_key
apply-registers_old m id s e = rw (e, register, contains_key) refl

apply-transitions_new :
    (m : StateMachine) (id : ChunkId) (next : ChunkState)
    → get id m ≡ none
    → (transition m id next).0 ≡ m
unfolding transition
apply-transitions_new m id next e = rw (e, transition) refl

apply-transitions_valid :
    (m : StateMachine) (id : ChunkId) (s next : ChunkState)
    → get id m ≡ some s
    → is_valid_transition s next ≡ true
    → (transition m id next).0 ≡ insert id next m
unfolding transition transition_from transition_to
apply-transitions_valid m id s next e v = rw (e, transition, v, transition_from, transition_to) refl

apply-transitions_invalid :
    (m : StateMachine) (id : ChunkId) (s next : ChunkState)
    → get id m ≡ some s
    → is_valid_transition s next ≡ false
    → (transition m id next).0 ≡ m
unfolding transition transition_from transition_to
apply-transitions_invalid m id s next e v =
    rw (e, transition, v, transition_from, transition_to) refl

-- What the validator of transitions has seen of a chunk agrees with its state.
abbrev Agrees : Option ChunkState → Option ChunkState → Type 0
Agrees last now = (last ≡ none) ⊎ (last ≡ now)

Agrees-none : {last now : Option ChunkState} → Agrees last now → now ≡ none → last ≡ none
Agrees-none (inl e) n = e
Agrees-none (inr e) n = e ∙ n

mismatch_agreed :
    (i : ℕ) (id : ChunkId) (s : ChunkState) {last now : Option ChunkState}
    → Agrees last now
    → now ≡ some s
    → mismatch i id s last ≡ []
unfolding mismatch
mismatch_agreed i id s (inl e) n = rw e refl
mismatch_agreed i id s (inr e) n = rw (e ∙ n, state_eqb_refl s) refl

illegal_valid :
    (i : ℕ) (id : ChunkId) (s next : ChunkState)
    → is_valid_transition s next ≡ true
    → illegal i id s next ≡ []
unfolding illegal
illegal_valid i id s next v = rw v refl

Agrees-born :
    (id : ChunkId) (m last : StateMachine)
    → ((j : ChunkId) → Agrees (get j last) (get j m))
    → get id m ≡ none
    → (j : ChunkId) → Agrees (get j last) (get j (insert id allocated m))
Agrees-born id m last h e j = elim (Bool-cases (j == id)) [
  | inl x ↦ inl (Agrees-none (h j) (ap (λ k. get k m) ((==_iff j id).0 x) ∙ e))
  | inr x ↦ rw (get-insert id j allocated m, x) (h j)
]

Agrees-moved :
    (id : ChunkId) (s : ChunkState) (m last : StateMachine)
    → ((j : ChunkId) → Agrees (get j last) (get j m))
    → (j : ChunkId) → Agrees (get j (insert id s last)) (get j (insert id s m))
Agrees-moved id s m last h j = elim (Bool-cases (j == id)) [
  | inl x ↦ inr (rw (get-insert id j s last, get-insert id j s m, x) refl)
  | inr x ↦ rw (get-insert id j s last, get-insert id j s m, x) (h j)
]

-- The sizes, the tiers and the times of the events are whatever they are.
module _ (F : Type 0) (size : ChunkId → ℕ) (tier : ChunkId → TierId) (time : ℕ → ℕ) where
  abbrev pub event_of : ℕ → Call → Option ChunkState → List (TraceEvent F)
  event_of i (registers id) none = chunk_created id (size id) (tier id) (time i) ∷ []
  event_of i (registers id) (some s) = []
  event_of i (transitions id next) none = []
  event_of i (transitions id next) (some s) =
      if is_valid_transition s next then chunk_state_changed id s next (time i) ∷ [] else []
  event_of i (removes id) none = []
  event_of i (removes id) (some s) = chunk_deleted id (tier id) (time i) ∷ []

  abbrev pub log : StateMachine → List Call → List (TraceEvent F)
  log m [] = []
  log m (c ∷ cs) = event_of (length cs) c (get_state m (target c)) ++ log (apply m c) cs

  -- What holds of an event and the change that it stands for, and of no event and no change, holds
  -- of what any call leaves and does.
  apply-cases :
      (P : List (TraceEvent F) → StateMachine → Type 0) (i : ℕ) (m : StateMachine) (c : Call)
      → P [] m
      → ((id : ChunkId)
          → get id m ≡ none
          → P (chunk_created id (size id) (tier id) (time i) ∷ []) (insert id allocated m))
      → ((id : ChunkId) (s next : ChunkState)
          → get id m ≡ some s
          → is_valid_transition s next ≡ true
          → P (chunk_state_changed id s next (time i) ∷ []) (insert id next m))
      → ((id : ChunkId) (s : ChunkState)
          → c ≡ removes id
          → get id m ≡ some s
          → P (chunk_deleted id (tier id) (time i) ∷ []) (remove id m))
      → P (event_of i c (get_state m (target c))) (apply m c)
  unfolding get_state apply forget
  apply-cases P i m (registers id) p born moved gone = elim (Option-cases (get id m)) [
    | inl e ↦ rw (e, apply-registers_new m id e) (born id e)
    | inr (s, e) ↦ rw (e, apply-registers_old m id s e) p
  ]
  apply-cases P i m (transitions id next) p born moved gone = elim (Option-cases (get id m)) [
    | inl e ↦ rw (e, apply-transitions_new m id next e) p
    | inr (s, e) ↦ elim (Bool-cases (is_valid_transition s next)) [
      | inl v ↦ rw (e, v, apply-transitions_valid m id s next e v) (moved id s next e v)
      | inr v ↦ rw (e, v, apply-transitions_invalid m id s next e v) p
    ]
  ]
  apply-cases P i m (removes id) p born moved gone = elim (Option-cases (get id m)) [
    | inl e ↦ rw (e, remove_absent id m e) p
    | inr (s, e) ↦ rw e (gone id s refl e)
  ]

  illegal_from-event_of :
      (i : ℕ) (m last : StateMachine) (c : Call) (n : ℕ) (rest : List (TraceEvent F))
      → ((id : ChunkId) → c ≢ removes id)
      → ((j : ChunkId) → Agrees (get j last) (get j m))
      → (k : ℕ) × (last' : StateMachine) × (illegal_from n
            (event_of i c (get_state m (target c)) ++ rest)
            last
          ≡ illegal_from k rest last')
        × ((j : ChunkId) → Agrees (get j last') (get j (apply m c)))
  unfolding illegal_from
  illegal_from-event_of i m last c n rest kept h =
      apply-cases
        (λ es m'.
          (k : ℕ) × (last' : StateMachine) × (illegal_from n (es ++ rest) last
            ≡ illegal_from k rest last')
          × ((j : ChunkId) → Agrees (get j last') (get j m')))
        i m c (n, last, refl, h) (λ id e. (suc n, last, refl, Agrees-born id m last h e))
        (λ id s next e v. (
          suc n,
          insert id next last,
          rw (mismatch_agreed n id s (h id) e, illegal_valid n id s next v) refl,
          Agrees-moved id next m last h,
        ))
        (λ id s r e. absurd (kept id r))

  illegal_from-log :
      (m last : StateMachine) (cs : List Call) (n : ℕ)
      → All (λ c. (id : ChunkId) → c ≢ removes id) cs
      → ((j : ChunkId) → Agrees (get j last) (get j m))
      → illegal_from n (log m cs) last ≡ []
  unfolding illegal_from
  illegal_from-log m last [] n a h = refl
  illegal_from-log m last (c ∷ cs) n a h =
      let (k, last', e, h') =
        illegal_from-event_of (length cs) m last c n (log (apply m c) cs) a.0 h in
      e ∙ illegal_from-log (apply m c) last' cs k a.1 h'

  -- The trace of a history of calls that removes no chunk has no illegal transitions for the
  -- validator of them.
  pub no_illegal_transitions-log :
      (cs : List Call)
      → All (λ c. (id : ChunkId) → c ≢ removes id) cs
      → no_illegal_transitions (log new cs) ≡ []
  unfolding no_illegal_transitions
  no_illegal_transitions-log cs a = illegal_from-log new [] cs 0 a (λ j. inr refl)

  -- A chunk that is removed and registered again: its second transition is reported.
  pub no_illegal_transitions-removed :
      (id : ChunkId)
      → no_illegal_transitions (
          log new (
            registers id
            ∷ transitions id stored
            ∷ removes id
            ∷ registers id
            ∷ transitions id stored
            ∷ []))
        ≢ []
  unfolding no_illegal_transitions illegal_from mismatch illegal apply register transition
      transition_from transition_to forget get insert remove contains_key get_state
      is_valid_transition
  no_illegal_transitions-removed id h =
      let e : (id == id) ≡ true = ground arith in ground (arith, h, e)
