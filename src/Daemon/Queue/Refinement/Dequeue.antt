-- ===== src/Daemon/Queue/Refinement/Dequeue.antt =====
-- Dequeueing, waiting and shutting down.
use ghost_pages.Common.{
  ℕ, ◌+◌, ◌-◌, ◌%◌, ◌^◌, ◌≡◌, refl, sym, ap, subst, ◌∙◌, Bool, List, [], ◌∷◌, ◌++◌, Option, arith,
}
use ghost_pages.Core.Transfer.{TransferJob}
use ghost_pages.Daemon.Queue.{Queue, pop_front, try_dequeue, wait_round, dequeue_wait, shutdown}
use ghost_pages.Daemon.Queue.Lanes.{Lanes, lanes, poll, close, wait_answer}
use ghost_pages.Daemon.Queue.Refinement.{Represents, Gives}

module _ {F : Type 0} where
  abbrev popped : List TransferJob → Queue F → Queue F
  popped rest q = record q { jobs = rest; current_depth = (q.current_depth + 2 ^ 64 - 1) % 2 ^ 64 }

  pop_lanes :
      (q : Queue F) (fast slow : List TransferJob) (closed : Bool) (capacity : ℕ)
      → Represents q (lanes fast slow closed capacity)
      → Gives (pop_front q (fast ++ slow)) (poll (lanes fast slow closed capacity))
  unfolding pop_front
  pop_lanes q [] [] closed capacity v = (q, refl, v)
  pop_lanes q [] (job ∷ slow) closed capacity v = (
    popped slow q,
    refl,
    record {
      order = refl;
      fast = tt;
      slow = v.slow.1;
      counted = omega (arith, v.counted, v.word, v.fits);
      fits = omega (arith, v.fits);
      word = v.word;
      same_capacity = v.same_capacity;
      same_closed = v.same_closed;
      log = v.log;
    },
  )
  pop_lanes q (job ∷ fast) slow closed capacity v = (
    popped (fast ++ slow) q,
    refl,
    record {
      order = refl;
      fast = v.fast.1;
      slow = v.slow;
      counted = omega (arith, v.counted, v.word, v.fits);
      fits = omega (arith, v.fits);
      word = v.word;
      same_capacity = v.same_capacity;
      same_closed = v.same_closed;
      log = v.log;
    },
  )

  -- A dequeue from a queue that represents two lanes gives the head of the fast lane, or else of
  -- the slow one, or nothing when both are empty.
  pub try_dequeue-refines :
      (q : Queue F) (l : Lanes) → Represents q l → Gives (try_dequeue q) (poll l)
  unfolding try_dequeue
  try_dequeue-refines q l v =
      subst (λ jobs. Gives (pop_front q jobs) (poll l)) (sym v.order)
        (pop_lanes q l.fast l.slow l.closed l.capacity v)

  -- Shutting the queue down closes the lanes and keeps the jobs that wait.
  pub shutdown-refines :
      (q : Queue F) (l : Lanes) → Represents q l → Represents (shutdown q) (close l)
  unfolding shutdown
  shutdown-refines q l v = record {
    order = v.order;
    fast = v.fast;
    slow = v.slow;
    counted = v.counted;
    fits = v.fits;
    word = v.word;
    same_capacity = v.same_capacity;
    same_closed = refl;
    log = v.log;
  }

  wait_round-pop :
      (q : Queue F) (jobs : List TransferJob)
      → wait_round q jobs ≡ ((pop_front q jobs).0, wait_answer q.is_shutdown (pop_front q jobs).1)
  unfolding wait_round pop_front
  wait_round-pop q [] = ground arith
  wait_round-pop q (job ∷ rest) = refl

  -- A consumer that waits at a queue that represents two lanes is given the next job; with both
  -- lanes empty it is told so once they are closed, and goes on waiting otherwise.
  pub dequeue_wait-refines :
      (q : Queue F) (l : Lanes)
      → Represents q l
      → Gives (dequeue_wait q) ((poll l).0, wait_answer l.closed (poll l).1)
  unfolding dequeue_wait try_dequeue
  dequeue_wait-refines q l v =
      let (r, e, w) = try_dequeue-refines q l v in
      (
        r,
        wait_round-pop q q.jobs
            ∙ ap (λ (x : Queue F × Option TransferJob). (x.0, wait_answer q.is_shutdown x.1)) e
            ∙ ap (λ b. (r, wait_answer b (poll l).1)) (sym v.same_closed),
        w,
      )
