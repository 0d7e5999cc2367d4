-- ===== src/Worker/Loop/Delivery.antt =====
-- What worker/__main__.py has done when it is interrupted, at any point.
use job_processing_workflow.Prelude.{
  ℕ, ◌≡◌, inl, inr, Bool-cases, if◌then◌else◌, refl, subst, ◌∙◌, sym, Option, List, [], ◌∷◌, arith,
}
use job_processing_workflow.Models.{Time, Envelope, JobStatus}
use job_processing_workflow.Store.{Store}
use job_processing_workflow.Store.Laws.{StoreLaws}
use job_processing_workflow.Messaging.{Consumer, delivered}
use job_processing_workflow.Worker.{Lookup, skipped}
use job_processing_workflow.Worker.Laws.{process-process}
use job_processing_workflow.Worker.Loop.{
  Phase, polling, received, processed, reporting, Cause, Running, Event, goes, meanwhile, leaves,
  Stepped, on, off, start, step, run_loop,
}
use job_processing_workflow.Worker.Loop.Accounts.{
  ConsumerLaws, IsOnTrack, IsAccounted, IsOnTrack-IsAccounted, final, length-snoc, Delivers,
}
use job_processing_workflow.Worker.Loop.Accounts.Steps.{
  Kept, taken-Kept, polled-IsAccounted, committing-IsAccounted, answered-Kept, reported-Delivers,
  taken-Delivers, answered-Delivers,
}

module _ {S C : Type 0} (store : Store S) (lookup : Lookup) (consumer : Consumer C)
    (log : C → List Envelope) (committed : C → ℕ) (laws : ConsumerLaws consumer log committed) where
  abbrev Keeps : Stepped S C → Type 0
  Keeps r = Kept store lookup consumer log committed laws r

  placed :
      (w : Running S C) (at : Phase)
      → w.phase ≡ at
      → IsOnTrack log committed w
      → IsOnTrack log committed (record w { phase = at })
  placed w at e t = record { delivers = t.delivers ∙ rw e refl; commits = t.commits ∙ rw e refl }

  goes-Kept :
      (clock : ℕ → Time) (w : Running S C)
      → IsOnTrack log committed w
      → Keeps (step store lookup consumer (goes clock) w)
  unfolding step
  goes-Kept clock w t = by_phase w.phase refl
    where
      by_phase : (at : Phase) → w.phase ≡ at → Keeps (step store lookup consumer (goes clock) w)
      by_phase polling e =
          rw (step, e)
            (taken-Kept store lookup consumer log committed laws (record w { phase = polling })
              (consumer.poll w.consumer) refl refl (placed w polling e t))
      by_phase (received msg) e =
          let k = placed w (received msg) e t in
          rw (step, e) (record { delivers = k.delivers; commits = k.commits })
      by_phase (processed msg outcome) e =
          rw (step, e)
            (answered-Kept store lookup consumer log committed laws
              (record w { phase = processed msg outcome }) msg outcome refl
              (placed w (processed msg outcome) e t) (consumer.commit w.consumer) refl)
      by_phase (reporting msg outcome) e =
          rw (step, e)
            (record {
              delivers =
                  reported-Delivers store lookup consumer log committed laws w msg outcome
                    (t.delivers ∙ rw e refl);
              commits = t.commits ∙ rw e (sym (length-snoc w.output (msg, outcome)) ∙ omega arith);
            })

  leaves-Kept :
      (cause : Cause) (w : Running S C)
      → IsOnTrack log committed w
      → Keeps (step store lookup consumer (leaves cause) w)
  unfolding step
  leaves-Kept cause w t = by_phase w.phase refl
    where
      here : (at : Phase) → w.phase ≡ at → IsAccounted log committed (record w { phase = at })
      here at e = IsOnTrack-IsAccounted log committed (record w { phase = at }) (placed w at e t)

      by_phase : (at : Phase) → w.phase ≡ at → Keeps (step store lookup consumer (leaves cause) w)
      by_phase polling e =
          rw (step, e)
            (polled-IsAccounted store lookup consumer log committed laws
              (record w { phase = polling }) (consumer.poll w.consumer) refl refl
              (placed w polling e t))
      by_phase (received msg) e = rw (step, e) (here (received msg) e)
      by_phase (processed msg outcome) e =
          rw (step, e)
            (committing-IsAccounted store lookup consumer log committed laws
              (record w { phase = processed msg outcome }) msg outcome refl
              (placed w (processed msg outcome) e t))
      by_phase (reporting msg outcome) e = rw (step, e) (here (reporting msg outcome) e)

  step-Kept :
      (event : Event S) (w : Running S C)
      → IsOnTrack log committed w
      → Keeps (step store lookup consumer event w)
  unfolding step
  step-Kept (goes clock) w t = goes-Kept clock w t
  step-Kept (meanwhile f) w t = record { delivers = t.delivers; commits = t.commits }
  step-Kept (leaves cause) w t = leaves-Kept cause w t

  Kept-final : (r : Stepped S C) → Keeps r → IsAccounted log committed (final r)
  Kept-final (on w) k = IsOnTrack-IsAccounted log committed w k
  Kept-final (off cause w) k = k

  run_loop-Kept :
      (events : List (Event S)) (w : Running S C)
      → IsOnTrack log committed w
      → Keeps (run_loop store lookup consumer events w)
  unfolding run_loop
  run_loop-Kept [] w t = t
  run_loop-Kept (event ∷ events) w t =
      by_result (step store lookup consumer event w) refl (run_loop-Kept events)
    where
      by_result :
          (r : Stepped S C)
          → step store lookup consumer event w ≡ r
          → ((v : Running S C)
              → IsOnTrack log committed v
              → Keeps (run_loop store lookup consumer events v))
          → Keeps (run_loop store lookup consumer (event ∷ events) w)
      by_result (on next) e later =
          rw (run_loop, e) (later next (subst Keeps e (step-Kept event w t)))
      by_result (off cause last) e later = rw (run_loop, e) (subst Keeps e (step-Kept event w t))

  -- A consumer that keeps the promises of Kafka, and a worker that starts where all that has been
  -- delivered is reported and committed, with no message in flight, or at a point that is reached
  -- from there. Wherever the loop is left, by KeyboardInterrupt or another exception, between two
  -- calls or in one of them, and whatever other components do to the store meanwhile: the messages
  -- that have been delivered are those that are reported, in their order, and at most one more. What
  -- is reported is committed; the one more is committed only if `process` has returned for it.
  pub run_loop-IsAccounted :
      (events : List (Event S)) (w : Running S C)
      → IsOnTrack log committed w
      → IsAccounted log committed (final (run_loop store lookup consumer events w))
  run_loop-IsAccounted events w t =
      Kept-final (run_loop store lookup consumer events w) (run_loop-Kept events w t)

  -- A step that no other exception comes into.
  pub goes-Delivers :
      (clock : ℕ → Time) (w : Running S C)
      → Delivers log w
      → Delivers log (final (step store lookup consumer (goes clock) w))
  unfolding step
  goes-Delivers clock w d = by_phase w.phase refl
    where
      by_phase :
          (at : Phase)
          → w.phase ≡ at
          → Delivers log (final (step store lookup consumer (goes clock) w))
      by_phase polling e =
          rw (step, e)
            (taken-Delivers store lookup consumer log committed laws (record w { phase = polling })
              (consumer.poll w.consumer) refl refl (d ∙ rw e refl))
      by_phase (received msg) e = rw (step, e) (d ∙ rw e refl)
      by_phase (processed msg outcome) e =
          rw (step, e)
            (answered-Delivers store lookup consumer log committed laws
              (record w { phase = processed msg outcome }) msg outcome refl
              (consumer.commit w.consumer) refl (d ∙ rw e refl))
      by_phase (reporting msg outcome) e =
          rw (step, e)
            (reported-Delivers store lookup consumer log committed laws w msg outcome
              (d ∙ rw e refl))

-- A worker that is interrupted between `process` and `commit` receives the message again: the
-- worker that is started next skips it, and leaves every status as it is.
module _ {S C : Type 0} (store : Store S) (status : S → ℕ → Option JobStatus)
    (laws : StoreLaws store status) (consumer : Consumer C) (lookup : Lookup) where
  pub run_loop_redelivery :
      (clock poll_clock again commit_clock report_clock : ℕ → Time) (e : Envelope) (c restarted : C)
      (s : S)
      → (consumer.poll restarted).1 ≡ delivered e
      → let first = final (
          run_loop store lookup consumer
            (goes clock ∷ [])
            (record { phase = received e; store = s; consumer = c; output = [] })) in
        let second = final (
          run_loop store lookup consumer
            (goes poll_clock ∷ goes again ∷ goes commit_clock ∷ goes report_clock ∷ [])
            (start first.store restarted)) in
        let (after, done) = consumer.commit (consumer.poll restarted).0 in
        (second.output ≡ (if done then (e, skipped) ∷ [] else []))
        × (second.consumer ≡ after)
        × ((j : ℕ) → status second.store j ≡ status first.store j)
  unfolding run_loop step
  run_loop_redelivery clock poll_clock again commit_clock report_clock e c restarted s got =
      let (skips, same) = process-process store status laws clock again lookup e s in
      elim (Bool-cases (consumer.commit (consumer.poll restarted).0).1) [
        | inl done ↦ rw (run_loop, step, got, done) (ground (arith, skips), refl, same)
        | inr failed ↦ rw (run_loop, step, got, failed) (refl, refl, same)
      ]
