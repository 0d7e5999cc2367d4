-- ===== src/Api/Routes/Memory.antt =====
-- The routes of handlerAPI over the store of common/store.py.
use job_processing_workflow.Prelude.{
  ℕ, ◌≡◌, ◌↔◌, true, Option, some, [], nat_key, nat_eq_iff, arith, Option-cases, inl, inr, eq_iff,
}
use mathlib.Core.Option.{get_or}
use job_processing_workflow.Models.{Creator, Time, Payload}
use job_processing_workflow.MemoryStore as Memory
use job_processing_workflow.MemoryStore.{InMemoryStore, new_job}
use job_processing_workflow.MemoryStore.AsStore.{in_memory}
use job_processing_workflow.MemoryStore.Invariant.{IsValid}
use job_processing_workflow.MemoryStore.Dedup.{Holds, enqueue-eq-none_iff, enqueue-get_job}
use job_processing_workflow.Api.{returns}
use job_processing_workflow.Api.Principal.{Principal, Settings, to_creator}
use job_processing_workflow.Api.Auth.{can_read_job_created_by}
use job_processing_workflow.Api.Schemas.{CreateJobRequest}
use job_processing_workflow.Api.Routes.{create_job, get_job, created, conflict, to_response}

module _ (c u : Time) (body : CreateJobRequest) (principal : Principal) (s : InMemoryStore)
    (v : IsValid s) where
  abbrev pub input : Option Payload
  input = some (get_or body.payload [])

  abbrev pub by : Option Creator
  by = some (to_creator principal)

  -- A request is answered by a conflict exactly when a stored job of the type is active, and then
  -- the store is as before.
  pub create_job-conflict_iff :
      (((create_job in_memory c u body principal s).1 ≡ conflict body.job_type)
        ↔ Holds s.jobs body.job_type)
      × (Holds s.jobs body.job_type → (create_job in_memory c u body principal s).0 ≡ s)
  unfolding create_job
  create_job-conflict_iff =
      let (iff, unchanged) = enqueue-eq-none_iff c u body.job_type input by s v in
      elim (Option-cases (Memory.enqueue c u body.job_type input by s).1) [
        | inl declined ↦
            ((λ e. iff.0 declined, λ h. ground (arith, declined)), λ h. ground (arith, unchanged h))
        | inr (k, made) ↦ (
          (λ e. absurd (ground (arith, made, e)), λ h. absurd (ground (arith, made, iff.1 h))),
          λ h. absurd (ground (arith, made, iff.1 h)),
        )
      ]

  pub stored :
      (k : ℕ)
      → (create_job in_memory c u body principal s).1 ≡ returns (created k)
      → (Memory.enqueue c u body.job_type input by s).1 ≡ some k
  unfolding create_job
  stored k e = elim (Option-cases (Memory.enqueue c u body.job_type input by s).1) [
    | inl declined ↦ absurd (ground (arith, declined, e))
    | inr (j, made) ↦ ground (arith, made, e)
  ]

  pub own_subject :
      (settings : Settings)
      → can_read_job_created_by principal settings (some principal.subject) ≡ true
  unfolding can_read_job_created_by
  own_subject settings = ground (arith, eq_iff principal.subject principal.subject)

  -- The caller who has created a job reads it under the id of the answer, queued, with the payload
  -- of the request as its input and the caller as its creator.
  pub create_job-get_job :
      (settings : Settings) (k : ℕ)
      → (create_job in_memory c u body principal s).1 ≡ returns (created k)
      → get_job in_memory k principal settings (create_job in_memory c u body principal s).0
        ≡ returns (to_response (new_job k body.job_type input by c u))
  unfolding create_job get_job
  create_job-get_job settings k e =
      let (fresh, after) = enqueue-get_job c u body.job_type input by s v k (stored k e) in
      rw (after k) (ground (arith, nat_eq_iff k k, own_subject settings))
