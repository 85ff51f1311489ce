-- ===== src/Daemon/Scheduler/Rounds.antt =====
-- What one round does to the queue and to the job.
use Prim.Native.String.{String}
use ghost_pages.Common.{
  ℕ, ◌≡◌, refl, ap, ◌∙◌, Bool, true, false, Option, none, some, [], ◌∷◌, ◌++◌, if◌then◌else◌,
  Bool-cases, inl, inr,
}
use ghost_pages.Core.Pressure.{Float, PressureState}
use ghost_pages.Core.Transfer.{TransferJob, queued, transition_state}
use ghost_pages.Core.Trace.{TraceEvent, policy_decision, transfer_started}
use ghost_pages.Daemon.TraceLog.{TraceLog}
use ghost_pages.Common.Suffix.{last_n}
use ghost_pages.Daemon.TraceLog.Window.{IsBounded, record_event_lem, record_event-IsBounded}
use ghost_pages.Daemon.Queue.{Queue}
use ghost_pages.Daemon.Queue.Lanes.{Lanes, poll, wait_answer}
use ghost_pages.Daemon.Queue.Refinement.{Represents}
use ghost_pages.Daemon.Queue.Refinement.Dequeue.{dequeue_wait-refines}
use ghost_pages.Daemon.Scheduler.{
  SchedulerConfig, Fate, throttled, refused, dispatched, Round, waits, closed, handled,
  should_throttle, dispatch_job, throttle_job, handle, relogged, on_job, round,
}

-- The fate of a job that is throttled, or not, and accepted, or not.
abbrev pub fate : Bool → (TransferJob → Bool) → TransferJob → Fate
fate true accepts job = throttled
fate false accepts job =
    if accepts (transition_state job queued)
    then dispatched (transition_state job queued)
    else refused

-- What the round is, by the answer of the queue.
abbrev pub expected : (TransferJob → Fate) → Option (Option TransferJob) → Round
expected f none = waits
expected f (some none) = closed
expected f (some (some job)) = handled (f job)

module _ {F : Type 0} where
  with_log-Represents :
      (q : Queue F) (l : Lanes) (log : TraceLog (TraceEvent F))
      → Represents q l
      → IsBounded log
      → Represents (record q { trace_log = log }) l
  with_log-Represents q l log v b = record {
    order = v.order;
    fast = v.fast;
    slow = v.slow;
    counted = v.counted;
    fits = v.fits;
    word = v.word;
    same_capacity = v.same_capacity;
    same_closed = v.same_closed;
    log = b;
  }

module _ (fl : Float) where
  open fl use {F}

  abbrev recorded : TraceLog (TraceEvent F) → TraceEvent F → TraceLog (TraceEvent F)
  recorded log e = record log { events = last_n log.max_events (log.events ++ e ∷ []) }

  abbrev Handles : Option (TraceLog (TraceEvent F) × Fate) → Fate → Type 0
  Handles got want = (log : TraceLog (TraceEvent F)) × (got ≡ some (log, want)) × IsBounded log

  throttle_job-Handles :
      (reason : String) (now : ℕ) (log : TraceLog (TraceEvent F)) (job : TransferJob)
      → IsBounded log
      → Handles (throttle_job fl reason now log job) throttled
  unfolding throttle_job
  throttle_job-Handles reason now log job b =
      let e = policy_decision job.chunk_id job.from_tier job.to_tier reason now in
      (recorded log e, rw (record_event_lem log e b, throttle_job), record_event-IsBounded log e b)

  dispatch_job-Handles :
      (reason : String) (now now' : ℕ) (accepts : TransferJob → Bool)
      (log : TraceLog (TraceEvent F)) (job : TransferJob)
      → IsBounded log
      → Handles (dispatch_job fl reason now now' accepts log job) (fate false accepts job)
  unfolding dispatch_job
  dispatch_job-Handles reason now now' accepts log job b =
      let sent = transition_state job queued in
      let e = policy_decision sent.chunk_id sent.from_tier sent.to_tier reason now in
      let c = record_event-IsBounded log e b in
      let log' = recorded log e in
      let f = transfer_started sent now' in
      (
        recorded log' f,
        rw (record_event_lem log e b, dispatch_job, record_event_lem log' f c),
        record_event-IsBounded log' f c,
      )

  handle-Handles :
      (cfg : SchedulerConfig) (dq : Option ℕ) (p : PressureState F) (r r' : String) (now now' : ℕ)
      (accepts : TransferJob → Bool) (log : TraceLog (TraceEvent F)) (job : TransferJob)
      → IsBounded log
      → Handles
          (handle fl cfg dq p r r' now now' accepts log job)
          (fate (should_throttle fl cfg dq job p) accepts job)
  unfolding handle
  handle-Handles cfg dq p r r' now now' accepts log job b =
      elim (Bool-cases (should_throttle fl cfg dq job p)) [
        | inl e ↦ rw (e, handle) (throttle_job-Handles r now log job b)
        | inr e ↦ rw (e, handle) (dispatch_job-Handles r' now now' accepts log job b)
      ]

  on_job-expected :
      (h : Queue F → TransferJob → Option (TraceLog (TraceEvent F) × Fate)) (f : TransferJob → Fate)
      (q : Queue F) (l : Lanes) (answer : Option (Option TransferJob))
      → Represents q l
      → ((job : TransferJob) → Handles (h q job) (f job))
      → (q' : Queue F) × (on_job fl h (q, answer) ≡ some (q', expected f answer)) × Represents q' l
  on_job-expected h f q l none v k = (q, refl, v)
  on_job-expected h f q l (some none) v k = (q, refl, v)
  on_job-expected h f q l (some (some job)) v k =
      let (log, e, b) = k job in
      (record q { trace_log = log }, ap (relogged fl q) e, with_log-Represents q l log v b)

  -- A round on a queue that represents two lanes never panics. It takes the next job off the queue,
  -- when there is one, and leaves a queue that represents the lanes without it: a job that is
  -- throttled, or that the worker channel refuses, is neither sent nor queued again; any other is
  -- sent, in the state `queued`.
  pub round-Represents :
      (cfg : SchedulerConfig) (dq : Option ℕ) (p : PressureState F) (r r' : String) (now now' : ℕ)
      (accepts : TransferJob → Bool) (q : Queue F) (l : Lanes)
      → Represents q l
      → let answer = wait_answer l.closed (poll l).1 in
        (q' : Queue F) × (round fl cfg dq p r r' now now' accepts q
          ≡ some (q', expected (λ job. fate (should_throttle fl cfg dq job p) accepts job) answer))
        × Represents q' (poll l).0
  unfolding round
  round-Represents cfg dq p r r' now now' accepts q l v =
      let (s, e, w) = dequeue_wait-refines q l v in
      let h = λ (x : Queue F) (job : TransferJob).
        handle fl cfg dq p r r' now now' accepts x.trace_log job in
      let (t, f, x) =
        on_job-expected h (λ job. fate (should_throttle fl cfg dq job p) accepts job) s (poll l).0
          (wait_answer l.closed (poll l).1) w
          (λ job. handle-Handles cfg dq p r r' now now' accepts s.trace_log job w.log) in
      (t, ap (on_job fl h) e ∙ f, x)
