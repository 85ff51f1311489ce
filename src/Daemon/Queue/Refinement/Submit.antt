-- ===== src/Daemon/Queue/Refinement/Submit.antt =====
-- Submission.
use ghost_pages.Common.{
  ℕ, ◌+◌, ◌%◌, ◌^◌, ◌<◌, ◌≡◌, refl, sym, ap, subst, ◌∙◌, Bool, true, false, [], ◌∷◌, ◌++◌, some,
  length, leb, if◌then◌else◌, arith,
}
use ghost_pages.Core.Types.{GhostResult, ok, err, cancelled, internal}
use ghost_pages.Core.Transfer.{TransferJob}
use ghost_pages.Common.Suffix.{last_n}
use ghost_pages.Daemon.TraceLog.Window.{IsBounded, record_event_lem, record_event-IsBounded}
use ghost_pages.Daemon.Queue.{Queue, jumps, place, queued_event, logged, submit}
use ghost_pages.Daemon.Queue.Lanes.{Lanes, append_lane, offer}
use ghost_pages.Daemon.Queue.Refinement.{Represents, Answers}
use ghost_pages.Daemon.Queue.Refinement.Placement.{
  place_lem, append_lane-order, append_lane-length, append_lane-Fast, append_lane-Slow,
  append_lane-limits,
}

module _ {F : Type 0} where
  abbrev after_log : ℕ → TransferJob → Queue F → Queue F
  after_log now job q = record q {
    trace_log = record q.trace_log {
      events = last_n q.trace_log.max_events (q.trace_log.events ++ queued_event now job ∷ []);
    };
  }

  logged_lem :
      (now : ℕ) (job : TransferJob) (q : Queue F) (r : GhostResult (Unit {0}))
      → IsBounded q.trace_log
      → logged now job q r ≡ some (after_log now job q, r)
  unfolding logged
  logged_lem now job q r v = rw (record_event_lem q.trace_log (queued_event now job) v, logged)

  after_log-Represents :
      (now : ℕ) (job : TransferJob) (q : Queue F) (l : Lanes)
      → Represents q l
      → Represents (after_log now job q) l
  after_log-Represents now job q l v = record {
    order = v.order;
    fast = v.fast;
    slow = v.slow;
    counted = v.counted;
    fits = v.fits;
    word = v.word;
    same_capacity = v.same_capacity;
    same_closed = v.same_closed;
    log = record_event-IsBounded q.trace_log (queued_event now job) v.log;
  }

  abbrev enqueued : TransferJob → Queue F → Queue F
  enqueued job q = record q {
    jobs = place job q.jobs;
    current_depth = (q.current_depth + 1) % 2 ^ 64;
  }

  enqueued-Represents :
      (job : TransferJob) (q : Queue F) (l : Lanes)
      → Represents q l
      → q.current_depth < q.capacity
      → Represents (enqueued job q) (append_lane l job (jumps job))
  enqueued-Represents job q l v h =
      let lims = append_lane-limits l job (jumps job) in
      record {
        order =
            ap (place job) v.order
            ∙ place_lem l.fast l.slow job v.fast v.slow
            ∙ sym (append_lane-order l job (jumps job));
        fast = append_lane-Fast l job (jumps job) refl v.fast;
        slow = append_lane-Slow l job (jumps job) refl v.slow;
        counted = omega (arith, append_lane-length l job (jumps job), v.counted, v.word);
        fits = omega (arith, append_lane-length l job (jumps job), v.counted);
        word = v.word;
        same_capacity = lims.0 ∙ v.same_capacity;
        same_closed = lims.1 ∙ v.same_closed;
        log = v.log;
      }

  -- The test of the queue and that of the lanes agree.
  same_room :
      (q : Queue F) (l : Lanes)
      → Represents q l
      → leb l.capacity (length l.fast + length l.slow) ≡ leb q.capacity q.current_depth
  same_room q l v = rw (v.same_capacity, v.counted)

  full_submit :
      (now : ℕ) (q : Queue F) (job : TransferJob) (l : Lanes)
      → Represents q l
      → Answers (logged now job q (err internal)) (l, err internal)
  full_submit now q job l v =
      (after_log now job q, logged_lem now job q _ v.log, after_log-Represents now job q l v)

  room_submit :
      (now : ℕ) (q : Queue F) (job : TransferJob) (l : Lanes)
      → Represents q l
      → q.current_depth < q.capacity
      → Answers (logged now job (enqueued job q) (ok tt)) (append_lane l job (jumps job), ok tt)
  room_submit now q job l v h = (
    after_log now job (enqueued job q),
    logged_lem now job (enqueued job q) _ v.log,
    after_log-Represents now job (enqueued job q) _ (enqueued-Represents job q l v h),
  )

  open_submit :
      (now : ℕ) (q : Queue F) (job : TransferJob) (l : Lanes)
      → Represents q l
      → Answers
          (if leb q.capacity q.current_depth
            then logged now job q (err internal)
            else logged now job (enqueued job q) (ok tt))
          (if leb l.capacity (length l.fast + length l.slow)
            then (l, err internal)
            else (append_lane l job (jumps job), ok tt))
  open_submit now q job l v = rw (same_room q l v) (split (leb q.capacity q.current_depth) refl)
    where
      split :
          (b : Bool)
          → leb q.capacity q.current_depth ≡ b
          → Answers
              (if b
                then logged now job q (err internal)
                else logged now job (enqueued job q) (ok tt))
              (if b then (l, err internal) else (append_lane l job (jumps job), ok tt))
      split true e = full_submit now q job l v
      split false e = room_submit now q job l v (ground arith)

  closing_submit :
      (now : ℕ) (q : Queue F) (job : TransferJob) (l : Lanes) (b : Bool)
      → Represents q l
      → Answers
          (if b
            then some (q, err cancelled)
            else if leb q.capacity q.current_depth
            then logged now job q (err internal)
            else logged now job (enqueued job q) (ok tt))
          (if b
            then (l, err cancelled)
            else if leb l.capacity (length l.fast + length l.slow)
            then (l, err internal)
            else (append_lane l job (jumps job), ok tt))
  closing_submit now q job l true v = (q, refl, v)
  closing_submit now q job l false v = open_submit now q job l v

  -- A submission to a queue that represents two lanes never panics and does what the lanes do: it
  -- is refused when the queue is shut down or full, and else puts the job at the end of its lane.
  pub submit-refines :
      (now : ℕ) (q : Queue F) (job : TransferJob) (l : Lanes)
      → Represents q l
      → Answers (submit now q job) (offer l job)
  unfolding submit
  submit-refines now q job l v =
      subst
        (λ b. Answers (submit now q job) (
          if b
          then (l, err cancelled)
          else if leb l.capacity (length l.fast + length l.slow)
          then (l, err internal)
          else (append_lane l job (jumps job), ok tt)))
        (sym v.same_closed) (closing_submit now q job l q.is_shutdown v)
