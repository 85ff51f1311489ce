-- ===== src/Daemon/Worker/Retries.antt =====
-- How a transfer ends, and how long it tries.
use ghost_pages.Common.{
  ℕ, zero, suc, ◌+◌, ◌-◌, ◌%◌, ◌^◌, ◌≤◌, ◌<◌, ◌≡◌, refl, sym, ap, subst, ◌∙◌, ◌⊎◌, inl, inr, Bool,
  true, false, ◌&&◌, List, [], ◌∷◌, ◌++◌, All, Option, none, some, length, length-append, ltb,
  arith,
}
use ghost_pages.Core.Types.{GhostError, GhostResult, ok, err}
use ghost_pages.Core.Transfer.{
  TransferJob, TransferState, transferring, writing, complete, failed, record_attempt,
  transition_state,
}
use ghost_pages.Core.Trace.{transfer_started}
use ghost_pages.Tier.Backend.{StorageBackend}
use ghost_pages.Daemon.Worker.{
  WorkerPoolConfig, Backends, with_backend, Transfer, Attempt, succeeded, again, gives_up,
  delay_before, log, stage, compress, written, to_target, was_fetched, from_source, try_once, pause,
  continue, attempts, execute_transfer, read_from_backend, write_to_backend,
}

-- The job in another state, after so many retries.
abbrev pub job_after : TransferJob → TransferState → ℕ → TransferJob
job_after j next retries = record j { state = next; attempts = (j.attempts + retries) % 2 ^ 32 }

abbrev pub in_state : TransferJob → TransferState → TransferJob
in_state j next = record j { state = next }

All-snoc : (P : ℕ → Type 0) (xs : List ℕ) (x : ℕ) → All P xs → P x → All P (xs ++ x ∷ [])
All-snoc P [] x a p = (p, tt)
All-snoc P (y ∷ xs) x a p = (a.0, All-snoc P xs x a.1 p)

capped_delay : (cfg : WorkerPoolConfig) (n : ℕ) → delay_before cfg n ≤ cfg.max_retry_delay_ms
unfolding delay_before
capped_delay cfg n = omega arith

module _ {B F : Type 0} where
  -- An attempt changes nothing of the job but its state, and does not sleep.
  abbrev Becomes : TransferState → Transfer B F → Transfer B F → Type 0
  Becomes next s s' = (s'.delays ≡ s.delays) × (s'.job ≡ in_state s.job next)

  abbrev Tried : Transfer B F → Transfer B F × Attempt → Type 0
  Tried s (s', succeeded) = Becomes complete s s'
  Tried s (s', again e) = Becomes writing s s'
  Tried s (s', gives_up e) = Becomes transferring s s' ⊎ Becomes writing s s'

  -- The end of a transfer of `j`: done; or failed, with every retry used; or given up at once.
  abbrev pub Ended : WorkerPoolConfig → TransferJob → Transfer B F × GhostResult (Unit {0}) → Type 0
  Ended cfg j (s, ok _) = s.job ≡ job_after j complete (length s.delays)
  Ended cfg j (s, err e) =
      ((s.job ≡ job_after j failed (length s.delays)) × (length s.delays ≡ cfg.max_retries))
      ⊎ (s.job ≡ job_after j transferring (length s.delays))
      ⊎ (s.job ≡ job_after j writing (length s.delays))

  pub record IsPatient (cfg : WorkerPoolConfig) (r : Transfer B F × GhostResult (Unit {0}))
      : Type 0 where
    pub bounded : length r.0.delays ≤ cfg.max_retries
    pub capped : All (λ d. d ≤ cfg.max_retry_delay_ms) r.0.delays

  module _ (ops : StorageBackend B) (cfg : WorkerPoolConfig) (clock : ℕ → ℕ) (elapsed : ℕ) where
    written-Tried :
        (s t : Transfer B F) (r : B × GhostResult (Unit {0}))
        → Becomes writing s t
        → Tried s (written ops cfg clock elapsed t r)
    unfolding written transition_state
    written-Tried s t (b, err e) v = v
    written-Tried s t (b, ok _) v = (v.0, ap (λ j. in_state j complete) v.1)

    to_target-Tried :
        (s t : Transfer B F) (bytes : List ℕ) (o : Option B)
        → Becomes writing s t
        → Tried s (to_target ops cfg clock elapsed t bytes o)
    unfolding to_target
    to_target-Tried s t bytes none v = inr v
    to_target-Tried s t bytes (some b) v = written-Tried s t (write_to_backend ops b bytes) v

    compress-Becomes :
        (b : Bool) (s t : Transfer B F)
        → Becomes transferring s t
        → Becomes writing s
            (stage ops cfg clock elapsed writing (compress ops cfg clock elapsed b t))
    unfolding transition_state
    compress-Becomes true s t v = (v.0, ap (λ j. in_state j writing) v.1)
    compress-Becomes false s t v = (v.0, ap (λ j. in_state j writing) v.1)

    was_fetched-Tried :
        (s t : Transfer B F) (r : B × GhostResult (List ℕ))
        → Becomes transferring s t
        → Tried s (was_fetched ops cfg clock elapsed t r)
    unfolding was_fetched
    was_fetched-Tried s t (b, err e) v = inl v
    was_fetched-Tried s t (b, ok bytes) v = to_target-Tried s _ bytes _ (
        compress-Becomes (cfg.enable_compression && ltb 0 t.job.size) s
          (record t { backends = with_backend t.job.from_tier b t.backends }) v)

    from_source-Tried :
        (s t : Transfer B F) (o : Option B)
        → Becomes transferring s t
        → Tried s (from_source ops cfg clock elapsed t o)
    unfolding from_source
    from_source-Tried s t none v = inl v
    from_source-Tried s t (some b) v = was_fetched-Tried s t (read_from_backend ops b t.job.size) v

    try_once-Tried : (s : Transfer B F) → Tried s (try_once ops cfg clock elapsed s)
    unfolding try_once transition_state
    try_once-Tried s = from_source-Tried s _ _ (refl, refl)

    -- Before an attempt: what was slept, and what became of the job.
    record Ready (j : TransferJob) (tried : ℕ) (s : Transfer B F) : Type 0 where
      next : TransferState
      same : s.job ≡ job_after j next (length s.delays)
      slept : length s.delays ≡ tried
      patient : All (λ d. d ≤ cfg.max_retry_delay_ms) s.delays

    pause-Ready :
        (j : TransferJob) (n : ℕ) (s : Transfer B F)
        → Ready j (n - 1) s
        → Ready j n (pause ops cfg clock elapsed n s)
    unfolding pause record_attempt
    pause-Ready j zero s v = record {
      next = v.next;
      same = v.same;
      slept = v.slept;
      patient = v.patient;
    }
    pause-Ready j (suc n) s v = record {
      next = v.next;
      same =
          ap (λ (x : TransferJob). record x { attempts = (x.attempts + 1) % 2 ^ 32 }) v.same
          ∙ ap (λ k. record j { state = v.next; attempts = k })
              (omega (arith, length-append s.delays (delay_before cfg (suc n) ∷ [])));
      slept = omega (arith, v.slept, length-append s.delays (delay_before cfg (suc n) ∷ []));
      patient = All-snoc _ s.delays (delay_before cfg (suc n)) v.patient (capped_delay cfg (suc n));
    }

    -- What a transfer that is over has kept to.
    abbrev Over : TransferJob → Transfer B F × GhostResult (Unit {0}) → Type 0
    Over j r = Ended cfg j r × IsPatient cfg r

    Ready-Becomes :
        (j : TransferJob) (n : ℕ) (next : TransferState) (s t : Transfer B F)
        → Ready j n s
        → Becomes next s t
        → (t.job ≡ job_after j next (length t.delays)) × Ready j n t
    Ready-Becomes j n next s t v b =
        let e : t.job ≡ job_after j next (length t.delays) =
          b.1
          ∙ ap (λ x. in_state x next) v.same
          ∙ ap (λ ds. job_after j next (length ds)) (sym b.0) in
        (
          e,
          record {
            next = next;
            same = e;
            slept = ap length b.0 ∙ v.slept;
            patient = subst (All (λ d. d ≤ cfg.max_retry_delay_ms)) (sym b.0) v.patient;
          },
        )

    Ready-IsPatient :
        (j : TransferJob) (n : ℕ) (s : Transfer B F) (r : GhostResult (Unit {0}))
        → Ready j n s
        → n ≤ cfg.max_retries
        → IsPatient cfg (s, r)
    Ready-IsPatient j n s r v h = record { bounded = omega (arith, v.slept); capped = v.patient }

    continue-Over :
        (j : TransferJob) (n : ℕ) (s : Transfer B F) (a : Transfer B F × Attempt)
        (more : Option GhostError → Transfer B F → Transfer B F × GhostResult (Unit {0}))
        → Ready j n s
        → n ≤ cfg.max_retries
        → Tried s a
        → ((last : Option GhostError) (t : Transfer B F) → Ready j n t → Over j (more last t))
        → Over j (continue ops cfg clock elapsed more a)
    continue-Over j n s (t, succeeded) more v h b k =
        let (e, w) = Ready-Becomes j n complete s t v b in (e, Ready-IsPatient j n t (ok tt) w h)
    continue-Over j n s (t, again x) more v h b k =
        let (e, w) = Ready-Becomes j n writing s t v b in k (some x) t w
    continue-Over j n s (t, gives_up x) more v h (inl b) k =
        let (e, w) = Ready-Becomes j n transferring s t v b in
        (inr (inl e), Ready-IsPatient j n t (err x) w h)
    continue-Over j n s (t, gives_up x) more v h (inr b) k =
        let (e, w) = Ready-Becomes j n writing s t v b in
        (inr (inr e), Ready-IsPatient j n t (err x) w h)

    attempts-Over :
        (j : TransferJob) (left n : ℕ) (last : Option GhostError) (s : Transfer B F)
        → left + n ≡ suc cfg.max_retries
        → Ready j (n - 1) s
        → Over j (attempts ops cfg clock elapsed left n last s)
    unfolding attempts transition_state
    attempts-Over j zero n last s h v = (
      inl (ap (λ x. in_state x failed) v.same, omega (arith, v.slept)),
      record { bounded = omega (arith, v.slept); capped = v.patient },
    )
    attempts-Over j (suc left) n last s h v =
        let p = pause ops cfg clock elapsed n s in
        continue-Over j n p (try_once ops cfg clock elapsed p)
          (attempts ops cfg clock elapsed left (suc n)) (pause-Ready j n s v) (omega arith)
          (try_once-Tried p)
          (λ last' t w.
            let e : n ≡ suc n - 1 = omega arith in
            attempts-Over j left (suc n) last' t (omega arith) (subst (λ k. Ready j k t) e w))

    -- A transfer whose count of attempts is a 32-bit word always comes to an end, with at most
    -- `max_retries` retries, each after a sleep of at most `max_retry_delay_ms`. It ends with
    -- success and the job complete; or with an error and the job failed, once every retry was used;
    -- or with an error at once, and then the job is left in the state `transferring` or `writing`.
    -- Nothing else of the job changes but its count of attempts, which grows by the number of
    -- retries.
    pub execute_transfer-Ended :
        (j : TransferJob) (backends : Backends B)
        → j.attempts < 2 ^ 32
        → let r = execute_transfer ops {F = F} cfg clock elapsed j backends in
          Ended cfg j r × IsPatient cfg r
    unfolding execute_transfer
    execute_transfer-Ended j backends h =
        let s : Transfer B F =
          log ops cfg clock elapsed (transfer_started j)
            (record { job = j; backends = backends; events = []; delays = [] }) in
        attempts-Over j (suc cfg.max_retries) 0 none s (omega arith) (record {
          next = j.state;
          same = ap (λ k. record j { attempts = k }) (omega arith);
          slept = refl;
          patient = tt;
        })
