-- ===== src/Core/State/Lifecycle.antt =====
-- What a call of the state machine may do to a chunk, whatever chunk the call names.
use ghost_pages.Common.{
  ◌≡◌, refl, sym, ap, ◌∙◌, true, Option, none, some, List, [], ◌∷◌, All, arith, Bool-cases,
  Option-cases, ◌⊎◌, inl, inr, ◌≢◌, ◌==◌, ==_iff, nat_ord,
}
use ghost_pages.Common.BTreeMap.{get, insert, contains_key, get-insert, get-remove}
use ghost_pages.Core.Types.{ChunkId}
use ghost_pages.Core.State.{
  ChunkState, allocated, migrating, evicted, failed, is_valid_transition, transition_to,
  StateMachine, get_state, register, transition_from, transition, forget, Call, registers,
  transitions, removes, apply, run,
}

-- The life of one chunk: it is tracked from `allocated` on, moves along valid transitions, and
-- leaves only by a removal.
pub data Move (c : Call) (j : ChunkId) (o p : Option ChunkState) : Type 0 where
  stay : p ≡ o → Move c j o p
  born : o ≡ none → p ≡ some allocated → Move c j o p
  moved :
      (s t : ChunkState) → o ≡ some s → p ≡ some t → is_valid_transition s t ≡ true → Move c j o p
  gone : c ≡ removes j → p ≡ none → Move c j o p

Move-insert :
    (c : Call) (m : StateMachine) (id j : ChunkId) (s : ChunkState)
    → Move c id (get id m) (some s)
    → Move c j (get j m) (get j (insert id s m))
Move-insert c m id j s v =
    rw get-insert (elim (Bool-cases (j == id)) [
      | inl e ↦ rw (e, (==_iff j id).0 e) v
      | inr e ↦ rw e (stay refl)
    ])

Move-register :
    (c : Call) (m : StateMachine) (id j : ChunkId)
    → Move c j (get_state m j) (get_state (register m id).0 j)
unfolding register get_state contains_key
Move-register c m id j = elim (Option-cases (get id m)) [
  | inl e ↦ rw (e, contains_key) (Move-insert c m id j allocated (born e refl))
  | inr (s, e) ↦ rw (e, contains_key) (stay refl)
]

Move-transition_from :
    (c : Call) (m : StateMachine) (id j : ChunkId) (s next : ChunkState)
    → get id m ≡ some s
    → Move c j (get_state m j) (get_state (transition_from m id s next).0 j)
unfolding get_state transition_from transition_to
Move-transition_from c m id j s next e = elim (Bool-cases (is_valid_transition s next)) [
  | inl v ↦
      rw (v, transition_from, transition_to) (Move-insert c m id j next (moved s next e refl v))
  | inr v ↦ rw (v, transition_from, transition_to) (stay refl)
]

Move-transition :
    (c : Call) (m : StateMachine) (id j : ChunkId) (next : ChunkState)
    → Move c j (get_state m j) (get_state (transition m id next).0 j)
unfolding transition get_state
Move-transition c m id j next = elim (Option-cases (get id m)) [
  | inl e ↦ rw (e, transition) (stay refl)
  | inr (s, e) ↦ rw (e, transition) (Move-transition_from c m id j s next e)
]

Move-forget :
    (m : StateMachine) (id j : ChunkId)
    → Move (removes id) j (get_state m j) (get_state (forget m id).0 j)
unfolding forget get_state
Move-forget m id j = rw get-remove (elim (Bool-cases (j == id)) [
  | inl e ↦ rw e (gone (ap removes (sym ((==_iff j id).0 e))) refl)
  | inr e ↦ rw e (stay refl)
])

-- Every call moves every chunk along its life cycle: a chunk that is not tracked stays so or
-- becomes `allocated`; a tracked chunk keeps its state or takes a valid transition, and is lost
-- only by the call that removes it.
pub apply-Move :
    (m : StateMachine) (c : Call) (j : ChunkId) → Move c j (get_state m j) (get_state (apply m c) j)
unfolding apply
apply-Move m (registers id) j = Move-register _ m id j
apply-Move m (transitions id next) j = Move-transition _ m id j next
apply-Move m (removes id) j = Move-forget m id j

evicted_stuck : (s t : ChunkState) → s ≡ evicted → is_valid_transition s t ≡ true → ⊥
unfolding is_valid_transition
evicted_stuck s t e h = ground arith

Move-evicted :
    {c : Call} {j : ChunkId} (o p : Option ChunkState)
    → Move c j o p
    → o ≡ some evicted
    → c ≢ removes j
    → p ≡ some evicted
Move-evicted o p (stay e) h k = e ∙ h
Move-evicted o p (born e f) h k = cc
Move-evicted o p (moved s t e f v) h k = absurd (evicted_stuck s t (cc) v)
Move-evicted o p (gone e f) h k = absurd (k e)

-- `evicted` is final: as long as no call removes the chunk, no history of calls changes it.
pub run-evicted :
    (m : StateMachine) (cs : List Call) (j : ChunkId)
    → get_state m j ≡ some evicted
    → All (λ c. c ≢ removes j) cs
    → get_state (run m cs) j ≡ some evicted
unfolding run
run-evicted m [] j h k = h
run-evicted m (c ∷ cs) j h k =
    run-evicted (apply m c) cs j (Move-evicted _ _ (apply-Move m c j) h k.0) k.1

to_failed : (s t : ChunkState) → is_valid_transition s t ≡ true → t ≡ failed → s ≡ migrating
unfolding is_valid_transition
to_failed s t v e = ground arith

Move-failed :
    {c : Call} {j : ChunkId} (o p : Option ChunkState)
    → Move c j o p
    → p ≡ some failed
    → (o ≡ some failed) ⊎ (o ≡ some migrating)
Move-failed o p (stay e) h = inl (sym e ∙ h)
Move-failed o p (born e f) h = cc
Move-failed o p (moved s t e f v) h = inr (e ∙ ap some (to_failed s t v (cc)))
Move-failed o p (gone e f) h = cc

-- A chunk fails only out of a migration: whatever the call, a chunk that is `failed` after it was
-- `failed` or `migrating` before it.
pub apply-failed :
    (m : StateMachine) (c : Call) (j : ChunkId)
    → get_state (apply m c) j ≡ some failed
    → (get_state m j ≡ some failed) ⊎ (get_state m j ≡ some migrating)
apply-failed m c j = Move-failed _ _ (apply-Move m c j)
