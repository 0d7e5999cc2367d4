-- ===== src/Worker/Loop/Settles/Runs.antt =====
-- Runs of worker/__main__.py that no other component disturbs.
use job_processing_workflow.Prelude.{
  ℕ, ◌≡◌, ◌≢◌, refl, subst, ◌⊎◌, inl, inr, false, Option, none, some, List, [], ◌∷◌, map,
}
use job_processing_workflow.Models as Models
use job_processing_workflow.Models.{Time, Envelope, JobStatus, running}
use job_processing_workflow.Store.{Store}
use job_processing_workflow.Store.Laws.{StoreLaws, can_claim}
use job_processing_workflow.Messaging.{Consumer}
use job_processing_workflow.Worker.{Lookup}
use job_processing_workflow.Worker.Loop.{Running, goes, Stepped, on, off, step, run_loop}
use job_processing_workflow.Worker.Loop.Accounts.{final}
use job_processing_workflow.Worker.Loop.Settles.{IsSettled, step-IsSettled, step_present}

module _ {S C : Type 0} (store : Store S) (status : S → ℕ → Option JobStatus)
    (laws : StoreLaws store status) (lookup : Lookup) (consumer : Consumer C) where
  abbrev Settled : Running S C → Type 0
  Settled w = IsSettled store status lookup consumer w

  -- Along a run of the loop that no other component disturbs, a predicate that each step keeps.
  pub run_loop_keeps :
      (P : Running S C → Type 0)
      → ((clock : ℕ → Time) (w : Running S C)
          → P w
          → P (final (step store lookup consumer (goes clock) w)))
      → (clocks : List (ℕ → Time)) (w : Running S C) → P w
      → P (final (run_loop store lookup consumer (map goes clocks) w))
  unfolding run_loop
  run_loop_keeps P keep [] w p = p
  run_loop_keeps P keep (clock ∷ clocks) w p =
      by_result (step store lookup consumer (goes clock) w) refl (run_loop_keeps P keep clocks)
    where
      by_result :
          (r : Stepped S C)
          → step store lookup consumer (goes clock) w ≡ r
          → ((v : Running S C)
              → P v
              → P (final (run_loop store lookup consumer (map goes clocks) v)))
          → P (final (run_loop store lookup consumer (map goes (clock ∷ clocks)) w))
      by_result (on next) e later =
          rw (run_loop, e) (later next (subst (λ r. P (final r)) e (keep clock w p)))
      by_result (off cause last) e later =
          rw (run_loop, e) (subst (λ r. P (final r)) e (keep clock w p))

  -- Wherever a run of the worker ends that no other component disturbs, and that has started with no
  -- job running: no job is running but within a step, and no job of a processed message can be
  -- claimed; a job that was there is there.
  pub run_loop-IsSettled :
      (clocks : List (ℕ → Time)) (w : Running S C)
      → Settled w
      → Settled (final (run_loop store lookup consumer (map goes clocks) w))
  run_loop-IsSettled clocks w a =
      run_loop_keeps Settled (step-IsSettled store status laws lookup consumer) clocks w a

  pub run_loop_present :
      (clocks : List (ℕ → Time)) (w : Running S C) (j : ℕ)
      → status w.store j ≢ none
      → status (final (run_loop store lookup consumer (map goes clocks) w)).store j ≢ none
  run_loop_present clocks w j h =
      run_loop_keeps (λ v. status v.store j ≢ none)
        (λ clock v p. step_present store status laws lookup consumer clock v j p) clocks w h

  -- A job that cannot be claimed, between two steps, has ended.
  pub IsSettled-ended :
      (v : Running S C) (j : ℕ)
      → Settled v
      → status v.store j ≢ none
      → can_claim (status v.store j) ≡ false
      → (status v.store j ≡ some Models.completed) ⊎ (status v.store j ≡ some Models.failed)
  IsSettled-ended v j a there done = by_status (status v.store j) refl
    where
      by_status :
          (u : Option JobStatus)
          → status v.store j ≡ u
          → (status v.store j ≡ some Models.completed) ⊎ (status v.store j ≡ some Models.failed)
      by_status none e = absurd (there e)
      by_status (some Models.queued) e = cc
      by_status (some Models.dispatched) e = cc
      by_status (some Models.running) e = absurd (a.none_running j e)
      by_status (some Models.completed) e = inl e
      by_status (some Models.failed) e = inr e
