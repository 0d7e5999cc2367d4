-- ===== src/MemoryStore/Attempts.antt =====
-- How often common/store.py, class InMemoryStore, gives a job back for another attempt.
use job_processing_workflow.Prelude.{
  ℕ, ◌+◌, ◌≤◌, ◌<◌, ◌≡◌, ◌⊎◌, inl, inr, refl, String, Bool, some, lookup, nat_key, nat_eq, adjust,
  add, Bool-cases, arith, lookup-insert, lookup-adjust, Option-cases,
}
use job_processing_workflow.Models.{Job, JobStatus, is_queued, dispatched, Time}
use job_processing_workflow.MemoryStore.{
  InMemoryStore, empty_store, guarded_update, max_attempts, set_status, snapshot, requeue,
  set_type_config, mark_dispatched, claim, write_payload, complete, fail, dead_letter,
}
use job_processing_workflow.MemoryStore.Invariant.Operations.{guarded_cases}
use job_processing_workflow.MemoryStore.Invariant.Payloads.{resolve_cases}
use job_processing_workflow.MemoryStore.Invariant.Publishing.{requeue_cases}
use job_processing_workflow.MemoryStore.Invariant.Enqueue.{enqueue_cases, added}
use job_processing_workflow.MemoryStore.Steps.{
  Step, configures, enqueues, marks, claims, resolves, writes, completes, fails, requeues, buries,
  Reach, here, next,
}

-- What the attempts of the job under `k` come from: a call has made the job, has left them, or has
-- added one below the cap of its type.
pub record Counted (s : InMemoryStore) (k : ℕ) (new : Job) : Type 0 where
  pub old : Job
  pub found : lookup k s.jobs ≡ some old
  pub same_type : new.job_type ≡ old.job_type
  pub counted :
      (new.attempts ≡ old.attempts)
      ⊎ ((new.attempts ≡ old.attempts + 1)
          × (old.attempts < max_attempts s.type_config old.job_type))

abbrev From : InMemoryStore → ℕ → Job → Type 0
From s k new = (new.attempts ≡ 0) ⊎ Counted s k new

module _ (s : InMemoryStore) (k : ℕ) (new : Job) where
  From-same : lookup k s.jobs ≡ some new → From s k new
  From-same h = inr (record { old = new; found = h; same_type = refl; counted = inl refl })

  From-adjust :
      (j : ℕ) (f : Job → Job)
      → ((old : Job)
          → lookup j s.jobs ≡ some old
          → ((f old).job_type ≡ old.job_type)
            × (((f old).attempts ≡ old.attempts)
                ⊎ (((f old).attempts ≡ old.attempts + 1)
                    × (old.attempts < max_attempts s.type_config old.job_type))))
      → lookup k (adjust j f s.jobs) ≡ some new
      → From s k new
  From-adjust j f keeps h = elim (Bool-cases (nat_eq j k)) [
    | inr other ↦ From-same (ground (arith, lookup-adjust j k f s.jobs, h))
    | inl same ↦ elim (Option-cases (lookup k s.jobs)) [
      | inl missing ↦ absurd (ground (arith, lookup-adjust j k f s.jobs, h))
      | inr (old, found) ↦
          let is_new : f old ≡ new = ground (arith, lookup-adjust j k f s.jobs, h) in
          let at_j : lookup j s.jobs ≡ some old = ground arith in
          let (typed, count) = keeps old at_j in
          inr (record {
            old = old;
            found = found;
            same_type = rw (← is_new) typed;
            counted = rw (← is_new) count;
          })
    ]
  ]

  From-guarded :
      (test : JobStatus → Bool) (to : JobStatus) (now : Time) (j : ℕ)
      → lookup k (guarded_update test (set_status to now) j s).0.jobs ≡ some new
      → From s k new
  From-guarded test to now j h = elim (guarded_cases test (set_status to now) j s) [
    | inl (job, found, passes, e) ↦
        From-adjust j (set_status to now) (λ old at. (refl, inl refl)) (ground (arith, e, h))
    | inr (e, _) ↦ From-same (ground (arith, e, h))
  ]

Step-From :
    {s t : InMemoryStore} (k : ℕ) (new : Job) → Step s t → lookup k t.jobs ≡ some new → From s k new
unfolding set_type_config mark_dispatched claim complete fail dead_letter write_payload
Step-From {s} k new (configures t run_timeout limit payload) h = From-same s k new h
Step-From {s} k new (enqueues created updated t input creator) h =
    elim (enqueue_cases created updated t input creator s) [
      | inl (idle, e) ↦ elim (Bool-cases (nat_eq s.next_job k)) [
        | inl fresh ↦
            let job = added created updated t input creator s in
            let is_new : job ≡ new = ground (arith, e, h, lookup-insert s.next_job k job s.jobs) in
            inl (rw (← is_new) refl)
        | inr other ↦ From-same s k new (
            ground (
              arith,
              e,
              h,
              lookup-insert s.next_job k (added created updated t input creator s) s.jobs,
            ))
      ]
      | inr (busy, e) ↦ From-same s k new (ground (arith, e, h))
    ]
Step-From {s} k new (marks now row j r) h =
    let marked = record s { published = add row s.published } in
    elim (From-guarded marked k new is_queued dispatched now j h) [
      | inl fresh ↦ inl fresh
      | inr c ↦
          inr
            (record { old = c.old; found = c.found; same_type = c.same_type; counted = c.counted })
    ]
Step-From {s} k new (claims now j) h = From-guarded s k new _ _ now j h
Step-From {s} k new (resolves now j t) h = elim (resolve_cases now j t s) [
  | inl (job, cfg, found, runs, set, e) ↦
      From-adjust s k new j (snapshot cfg.payload now) (λ old at. (refl, inl refl))
        (ground (arith, e, h))
  | inr e ↦ From-same s k new (ground (arith, e, h))
]
Step-From {s} k new (writes j payload) h =
    From-adjust s k new j (λ job. record job { payload = payload }) (λ old at. (refl, inl refl)) h
Step-From {s} k new (completes now j) h = From-guarded s k new _ _ now j h
Step-From {s} k new (fails now j) h = From-guarded s k new _ _ now j h
Step-From {s} k new (requeues now j) h = elim (requeue_cases now j s) [
  | inl (job, found, runs, under, e) ↦
      From-adjust s k new j (requeue now)
        (λ old at. (refl, inr (refl, ground (arith, at, found, under)))) (ground (arith, e, h))
  | inr (e, _) ↦ From-same s k new (ground (arith, e, h))
]
Step-From {s} k new (buries now j) h = From-guarded s k new _ _ now j h

-- In none of the stores on the way is the cap of the type above `limit`.
abbrev pub CapsAtMost : ℕ → String → {s t : InMemoryStore} → Reach s t → Type 0
CapsAtMost limit ty {s} here = max_attempts s.type_config ty ≤ limit
CapsAtMost limit ty {s} {t} (next r st) =
    CapsAtMost limit ty r × (max_attempts t.type_config ty ≤ limit)

CapsAtMost-last :
    (limit : ℕ) (ty : String) {s t : InMemoryStore} (r : Reach s t)
    → CapsAtMost limit ty r
    → max_attempts t.type_config ty ≤ limit
CapsAtMost-last limit ty here h = h
CapsAtMost-last limit ty (next r st) h = h.1

-- Whatever calls are made from the empty store, in whatever order: no job of a type has more attempts
-- than the highest cap that the type has had.
pub Reach-attempts-le :
    {s : InMemoryStore} (limit : ℕ) (ty : String) (r : Reach empty_store s)
    → CapsAtMost limit ty r
    → (k : ℕ) (job : Job) → lookup k s.jobs ≡ some job
    → job.job_type ≡ ty
    → job.attempts ≤ limit
Reach-attempts-le limit ty here caps k job h typed = cc
Reach-attempts-le limit ty (next r st) caps k job h typed = elim (Step-From k job st h) [
  | inl fresh ↦ omega (arith, fresh)
  | inr c ↦
      let before =
        Reach-attempts-le limit ty r caps.0 k c.old c.found (ground (arith, c.same_type, typed)) in
      elim c.counted [
        | inl kept ↦ omega (arith, kept, before)
        | inr (grown, under) ↦
            let capped = CapsAtMost-last limit ty r caps.0 in
            let typed_old : c.old.job_type ≡ ty = ground (arith, c.same_type, typed) in
            ground (arith, grown, under, capped, typed_old)
      ]
]
