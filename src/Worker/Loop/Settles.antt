-- ===== src/Worker/Loop/Settles.antt =====
-- What the loop of worker/__main__.py leaves of the jobs whose messages it has processed, where no
-- other component touches the store.
pub mod Runs
use job_processing_workflow.Prelude.{
  ℕ, ◌≡◌, ◌≢◌, refl, subst, Bool, true, ◌⊎◌, inl, inr, false, Option, none, some, List, [], ◌∷◌,
  ◌++◌, map, arith, All, All-imp,
}
use job_processing_workflow.Models as Models
use job_processing_workflow.Models.{Time, Envelope, JobStatus, running}
use job_processing_workflow.Store.{Store}
use job_processing_workflow.Store.Laws.{StoreLaws, can_claim}
use job_processing_workflow.Messaging.{Consumer, Polled, nothing, delivered, raises}
use job_processing_workflow.Worker.{Lookup, Outcome, process}
use job_processing_workflow.Worker.Laws.{process-status, process-can_claim}
use job_processing_workflow.Worker.Loop.{
  Phase, polling, received, processed, reporting, Running, goes, Stepped, on, off, step, taken,
  answered, run_loop,
}
use job_processing_workflow.Worker.Loop.Accounts.{final}

All-append :
    {A : Type 0} (P : A → Type 0) (xs : List A) (x : A) → All P xs → P x → All P (xs ++ x ∷ [])
All-append P [] x h p = (p, tt)
All-append P (y ∷ xs) x h p = (h.0, All-append P xs x h.1 p)

module _ {S C : Type 0} (store : Store S) (status : S → ℕ → Option JobStatus) (lookup : Lookup)
    (consumer : Consumer C) where
  -- The job of the message can no longer be claimed.
  abbrev IsDone : S → Envelope × Outcome → Type 0
  IsDone s line = can_claim (status s line.0.job_id) ≡ false

  abbrev PhaseDone : S → Phase → Type 0
  PhaseDone s polling = Unit
  PhaseDone s (received e) = Unit
  PhaseDone s (processed e outcome) = can_claim (status s e.job_id) ≡ false
  PhaseDone s (reporting e outcome) = can_claim (status s e.job_id) ≡ false

  -- No job is running between two steps of the worker, and no job of a message that has been
  -- processed can be claimed.
  pub record IsSettled (w : Running S C) : Type 0 where
    pub none_running : (j : ℕ) → status w.store j ≢ some running
    pub reported : All (IsDone w.store) w.output
    pub just_now : PhaseDone w.store w.phase

module _ {S C : Type 0} (store : Store S) (status : S → ℕ → Option JobStatus)
    (laws : StoreLaws store status) (lookup : Lookup) (consumer : Consumer C) where
  abbrev Settled : Running S C → Type 0
  Settled w = IsSettled store status lookup consumer w

  process_keeps :
      (clock : ℕ → Time) (e : Envelope) (s : S) (j : ℕ)
      → can_claim (status s j) ≡ false
      → can_claim (status (process store clock lookup e s).0 j) ≡ false
  process_keeps clock e s j h =
      ground (arith, process-status store status laws clock lookup e s j, h)

  process_none_running :
      (clock : ℕ → Time) (e : Envelope) (s : S) (j : ℕ)
      → status s j ≢ some running
      → status (process store clock lookup e s).0 j ≢ some running
  process_none_running clock e s j h now =
      ground (arith, process-status store status laws clock lookup e s j, h, now)

  taken-IsSettled :
      (w : Running S C) (got : C × Polled)
      → Settled w
      → Settled (final (taken store lookup consumer w got))
  taken-IsSettled w (c, nothing) a = record {
    none_running = a.none_running;
    reported = a.reported;
    just_now = a.just_now;
  }
  taken-IsSettled w (c, raises) a = record {
    none_running = a.none_running;
    reported = a.reported;
    just_now = a.just_now;
  }
  taken-IsSettled w (c, delivered msg) a = record {
    none_running = a.none_running;
    reported = a.reported;
    just_now = tt;
  }

  answered-IsSettled :
      (w : Running S C) (msg : Envelope) (outcome : Outcome) (got : C × Bool)
      → Settled w
      → can_claim (status w.store msg.job_id) ≡ false
      → Settled (final (answered store lookup consumer w msg outcome got))
  answered-IsSettled w msg outcome (c, true) a done = record {
    none_running = a.none_running;
    reported = a.reported;
    just_now = done;
  }
  answered-IsSettled w msg outcome (c, false) a done = record {
    none_running = a.none_running;
    reported = a.reported;
    just_now = a.just_now;
  }

  pub step-IsSettled :
      (clock : ℕ → Time) (w : Running S C)
      → Settled w
      → Settled (final (step store lookup consumer (goes clock) w))
  unfolding step
  step-IsSettled clock w a = by_phase w.phase refl
    where
      by_phase :
          (at : Phase) → w.phase ≡ at → Settled (final (step store lookup consumer (goes clock) w))
      by_phase polling e =
          rw (e, step)
            (taken-IsSettled (record w { phase = polling }) (consumer.poll w.consumer)
              (record { none_running = a.none_running; reported = a.reported; just_now = tt }))
      by_phase (received msg) e =
          rw (e, step)
            (record {
              none_running = λ j. process_none_running clock msg w.store j (a.none_running j);
              reported =
                  All-imp _ _ (λ line. process_keeps clock msg w.store line.0.job_id) w.output
                    a.reported;
              just_now = process-can_claim store status laws clock lookup msg w.store;
            })
      by_phase (processed msg outcome) e =
          rw (e, step)
            (answered-IsSettled (record w { phase = processed msg outcome }) msg outcome
              (consumer.commit w.consumer)
              (record {
                none_running = a.none_running;
                reported = a.reported;
                just_now = subst (PhaseDone store status lookup consumer w.store) e a.just_now;
              })
              (subst (PhaseDone store status lookup consumer w.store) e a.just_now))
      by_phase (reporting msg outcome) e =
          rw (e, step)
            (record {
              none_running = a.none_running;
              reported =
                  All-append _ w.output (msg, outcome) a.reported
                    (subst (PhaseDone store status lookup consumer w.store) e a.just_now);
              just_now = tt;
            })

  -- A job that is there stays.
  process_present :
      (clock : ℕ → Time) (e : Envelope) (s : S) (j : ℕ)
      → status s j ≢ none
      → status (process store clock lookup e s).0 j ≢ none
  process_present clock e s j h missing =
      ground (arith, process-status store status laws clock lookup e s j, h, missing)

  taken_present :
      (w : Running S C) (got : C × Polled)
      → (final (taken store lookup consumer w got)).store ≡ w.store
  taken_present w (c, nothing) = refl
  taken_present w (c, raises) = refl
  taken_present w (c, delivered msg) = refl

  answered_present :
      (w : Running S C) (msg : Envelope) (outcome : Outcome) (got : C × Bool)
      → (final (answered store lookup consumer w msg outcome got)).store ≡ w.store
  answered_present w msg outcome (c, true) = refl
  answered_present w msg outcome (c, false) = refl

  pub step_present :
      (clock : ℕ → Time) (w : Running S C) (j : ℕ)
      → status w.store j ≢ none
      → status (final (step store lookup consumer (goes clock) w)).store j ≢ none
  unfolding step
  step_present clock w j h = by_phase w.phase refl
    where
      by_phase :
          (at : Phase)
          → w.phase ≡ at
          → status (final (step store lookup consumer (goes clock) w)).store j ≢ none
      by_phase polling e =
          rw (e, step)
            (rw (taken_present (record w { phase = polling }) (consumer.poll w.consumer)) h)
      by_phase (received msg) e = rw (e, step) (process_present clock msg w.store j h)
      by_phase (processed msg outcome) e =
          rw (e, step)
            (rw
              (answered_present (record w { phase = processed msg outcome }) msg outcome
                (consumer.commit w.consumer))
              h)
      by_phase (reporting msg outcome) e = rw (e, step) h
