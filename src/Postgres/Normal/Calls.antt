-- ===== src/Postgres/Normal/Calls.antt =====
-- The calls of InMemoryStore that read payloads, creators or the configuration, on what common/db.py
-- keeps of the state.
use job_processing_workflow.Prelude.{
  ℕ, ◌≡◌, refl, ap, sym, ◌∙◌, String, Bool, true, false, not, some, none, [], ◌∷◌, any, leb,
  if◌then◌else◌, Dict, values, lookup, adjust, nat_key, text_key, arith, Option-cases, inl, inr,
}
use job_processing_workflow.Models.{Job, Time, is_running}
use job_processing_workflow.MemoryStore as Memory
use job_processing_workflow.MemoryStore.{
  InMemoryStore, TypeConfig, is_active_of, active, stuck_of, timeout, max_attempts, new_job,
  new_message, rearm,
}
use job_processing_workflow.Postgres.{Jsonb}
use job_processing_workflow.Postgres.Normal.{
  map_values, adjust-map_values, normal_job, normal_config, normal, Commutes, back, found_normal,
  missing_normal,
}

module _ (jsonb : Jsonb) where
  max_attempts-normal :
      (config : Dict String TypeConfig) (t : String)
      → max_attempts (map_values (normal_config jsonb) config) t ≡ max_attempts config t
  max_attempts-normal [] t = refl
  max_attempts-normal ((j, c) ∷ config) t = ground (arith, max_attempts-normal config t)

  timeout-normal :
      (config : Dict String TypeConfig) (t : String)
      → timeout (map_values (normal_config jsonb) config) t ≡ timeout config t
  timeout-normal [] t = refl
  timeout-normal ((j, c) ∷ config) t = ground (arith, timeout-normal config t)

  pub stuck_of-normal :
      (now : Time) (config : Dict String TypeConfig) (d : Dict ℕ Job)
      → stuck_of now
          (map_values (normal_config jsonb) config)
          (values (map_values (normal_job jsonb) d))
        ≡ stuck_of now config (values d)
  stuck_of-normal now config [] = refl
  stuck_of-normal now config ((k, job) ∷ d) =
      ground (arith, stuck_of-normal now config d, timeout-normal config job.job_type)

  pub any_active-normal :
      (t : String) (d : Dict ℕ Job)
      → any (is_active_of t) (values (map_values (normal_job jsonb) d))
        ≡ any (is_active_of t) (values d)
  any_active-normal t [] = refl
  any_active-normal t ((k, job) ∷ d) = ground (arith, any_active-normal t d)

  requeue_found :
      (now : Time) (k : ℕ) (s : InMemoryStore) (job : Job)
      → lookup k s.jobs ≡ some job
      → Memory.requeue_stuck now k s ≡ (
          if not (is_running job.status)
          then (s, false)
          else if leb (max_attempts s.type_config job.job_type) job.attempts
          then (s, false)
          else (
            record s {
              jobs = adjust k (Memory.requeue now) s.jobs;
              published = rearm k s.outbox s.published;
            },
            true,
          ))
  unfolding Memory.requeue_stuck
  requeue_found now k s job h = ground (arith, h)

  requeue_none :
      (now : Time) (k : ℕ) (s : InMemoryStore)
      → lookup k s.jobs ≡ none
      → Memory.requeue_stuck now k s ≡ (s, false)
  unfolding Memory.requeue_stuck
  requeue_none now k s h = ground (arith, h)

  pub requeue_stuck-Commutes :
      (now : Time) (k : ℕ) (s : InMemoryStore)
      → Commutes jsonb
          (λ b. b)
          (Memory.requeue_stuck now k (normal jsonb s))
          (Memory.requeue_stuck now k s)
  requeue_stuck-Commutes now k s = elim (Option-cases (lookup k s.jobs)) [
    | inl missing ↦
        requeue_none now k (normal jsonb s) (missing_normal jsonb k s missing)
        ∙ sym (ap (back jsonb (λ b. b)) (requeue_none now k s missing))
    | inr (job, found) ↦
        requeue_found now k (normal jsonb s) (normal_job jsonb job)
          (found_normal jsonb k s job found)
        ∙ by_tests (not (is_running job.status)) _ _
            (ap (λ n. leb n job.attempts) (max_attempts-normal s.type_config job.job_type))
        ∙ sym (ap (back jsonb (λ b. b)) (requeue_found now k s job found))
  ]
    where
      requeued : InMemoryStore → InMemoryStore × Bool
      requeued m = (
        record m {
          jobs = adjust k (Memory.requeue now) m.jobs;
          published = rearm k m.outbox m.published;
        },
        true,
      )

      by_tests :
          (idle capped capped' : Bool)
          → capped ≡ capped'
          → (if idle
              then (normal jsonb s, false)
              else if capped
              then (normal jsonb s, false)
              else requeued (normal jsonb s))
            ≡ back jsonb
                (λ b. b)
                (if idle then (s, false) else if capped' then (s, false) else requeued s)
      by_tests true capped capped' e = refl
      by_tests false true true e = refl
      by_tests false true false e = cc
      by_tests false false true e = cc
      by_tests false false false e =
          ap
            (λ d. (
              record (normal jsonb s) { jobs = d; published = rearm k s.outbox s.published },
              true,
            ))
            (adjust-map_values (normal_job jsonb) k (Memory.requeue now) (Memory.requeue now)
              (λ j. refl) s.jobs)
