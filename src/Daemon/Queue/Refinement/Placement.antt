-- ===== src/Daemon/Queue/Refinement/Placement.antt =====
-- Where a job is placed: at the end of its lane.
use ghost_pages.Common.{
  ◌+◌, ◌≡◌, refl, ap, Bool, true, false, not, List, [], ◌∷◌, ◌++◌, All, length, length-append,
  Bool-cases, inl, inr, if◌then◌else◌, arith,
}
use mathlib.Core.List.{append_assoc}
use ghost_pages.Core.Transfer.{TransferJob}
use ghost_pages.Daemon.Queue.{jumps, position_or_len, insert_at, place}
use ghost_pages.Daemon.Queue.Lanes.{Lanes, append_lane}
use ghost_pages.Daemon.Queue.Refinement.{Fast, Slow}

All-snoc {ℓ κ} :
    {A : Type ℓ} (P : A → Type κ) (xs : List A) (x : A) → All P xs → P x → All P (xs ++ x ∷ [])
All-snoc P [] x h p = (p, tt)
All-snoc P (y ∷ xs) x h p = (h.0, All-snoc P xs x h.1 p)

abbrev idles : TransferJob → Bool
idles j = not (jumps j)

insert_at-position_or_len :
    (fs ss : List TransferJob) (job : TransferJob)
    → Fast fs
    → Slow ss
    → insert_at (position_or_len idles (fs ++ ss)) job (fs ++ ss) ≡ (fs ++ job ∷ []) ++ ss
unfolding insert_at position_or_len
insert_at-position_or_len [] [] job f s = refl
insert_at-position_or_len [] (x ∷ ss) job f s = rw s.0
insert_at-position_or_len (x ∷ fs) ss job f s =
    rw f.0 (ap (◌∷◌ x) (insert_at-position_or_len fs ss job f.1 s))

pub place_lem :
    (fs ss : List TransferJob) (job : TransferJob)
    → Fast fs
    → Slow ss
    → place job (fs ++ ss) ≡ (if jumps job then (fs ++ job ∷ []) ++ ss else fs ++ (ss ++ job ∷ []))
unfolding place
place_lem fs ss job f s = elim (Bool-cases (jumps job)) [
  | inl e ↦ rw e (insert_at-position_or_len fs ss job f s)
  | inr e ↦ rw e (append_assoc fs ss (job ∷ []))
]

pub append_lane-order :
    (l : Lanes) (job : TransferJob) (b : Bool)
    → (append_lane l job b).fast ++ (append_lane l job b).slow
      ≡ (if b then (l.fast ++ job ∷ []) ++ l.slow else l.fast ++ (l.slow ++ job ∷ []))
append_lane-order l job true = refl
append_lane-order l job false = refl

pub append_lane-length :
    (l : Lanes) (job : TransferJob) (b : Bool)
    → length (append_lane l job b).fast + length (append_lane l job b).slow
      ≡ length l.fast + length l.slow + 1
append_lane-length l job true = omega (arith, length-append l.fast (job ∷ []))
append_lane-length l job false = omega (arith, length-append l.slow (job ∷ []))

pub append_lane-Fast :
    (l : Lanes) (job : TransferJob) (b : Bool)
    → jumps job ≡ b
    → Fast l.fast
    → Fast (append_lane l job b).fast
append_lane-Fast l job true e f = All-snoc _ l.fast job f e
append_lane-Fast l job false e f = f

pub append_lane-Slow :
    (l : Lanes) (job : TransferJob) (b : Bool)
    → jumps job ≡ b
    → Slow l.slow
    → Slow (append_lane l job b).slow
append_lane-Slow l job true e f = f
append_lane-Slow l job false e f = All-snoc _ l.slow job f e

pub append_lane-limits :
    (l : Lanes) (job : TransferJob) (b : Bool)
    → ((append_lane l job b).capacity ≡ l.capacity) × ((append_lane l job b).closed ≡ l.closed)
append_lane-limits l job true = (refl, refl)
append_lane-limits l job false = (refl, refl)
