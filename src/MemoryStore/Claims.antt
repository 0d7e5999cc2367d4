-- ===== src/MemoryStore/Claims.antt =====
-- How often a job is handed to a worker by `claim` of common/store.py, class InMemoryStore, whatever
-- the components call in between.
use job_processing_workflow.Prelude.{
  ℕ, ◌+◌, ◌≡◌, inl, inr, refl, Bool, true, false, ◌&&◌, Option, none, some, lookup, nat_key, nat_eq,
  adjust, Dict, add, Bool-cases, arith, lookup-insert, lookup-adjust, Option-cases, if◌then◌else◌,
}
use job_processing_workflow.Models.{
  Job, JobStatus, queued, dispatched, running, completed, failed, is_queued, is_running, Time,
}
use job_processing_workflow.MemoryStore.{
  InMemoryStore, empty_store, guarded_update, set_status, snapshot, requeue, is_claimable,
  set_type_config, mark_dispatched, claim, write_payload, complete, fail, dead_letter,
}
use job_processing_workflow.MemoryStore.Invariant.{IsValid}
use job_processing_workflow.MemoryStore.Invariant.Jobs.{lookup-insert_fresh}
use job_processing_workflow.MemoryStore.Invariant.Operations.{guarded_cases}
use job_processing_workflow.MemoryStore.Invariant.Payloads.{resolve_cases}
use job_processing_workflow.MemoryStore.Invariant.Publishing.{requeue_cases}
use job_processing_workflow.MemoryStore.Invariant.Enqueue.{
  enqueue_cases, added, empty_store-IsValid,
}
use job_processing_workflow.MemoryStore.Steps.{
  Step, configures, enqueues, marks, claims, resolves, writes, completes, fails, requeues, buries,
  Reach, here, next, Reach-IsValid,
}

-- 1 for a call of `claim` that answers true for the job, and else 0.
abbrev pub won : ℕ → {s t : InMemoryStore} → Step s t → ℕ
won k {s} (claims now j) = if nat_eq j k && (claim now j s).1 then 1 else 0
won k _ = 0

-- How often the job has been claimed on the way.
abbrev pub claims_won : ℕ → {s t : InMemoryStore} → Reach s t → ℕ
claims_won k here = 0
claims_won k (next r st) = claims_won k r + won k st

-- The job waits for a worker.
abbrev pub waits : JobStatus → Bool
waits queued = true
waits dispatched = true
waits _ = false

-- The runs that the record of a job tells of: one for each attempt that was given up, and one that
-- goes on or has ended.
abbrev pub runs_of : Job → ℕ
runs_of job = if waits job.status then job.attempts else job.attempts + 1

abbrev runs_in : Option Job → ℕ
runs_in none = 0
runs_in (some job) = runs_of job

abbrev runs_under : ℕ → Dict ℕ Job → ℕ
runs_under k d = runs_in (lookup k d)

-- An update of the job under `j`, of which `n` runs are new.
runs_under-adjust :
    (k j n : ℕ) (f : Job → Job) (d : Dict ℕ Job) (job : Job)
    → lookup j d ≡ some job
    → runs_of (f job) ≡ runs_of job + n
    → runs_under k (adjust j f d) ≡ runs_under k d + (if nat_eq j k then n else 0)
runs_under-adjust k j n f d job found e = elim (Bool-cases (nat_eq j k)) [
  | inl same ↦
      let at_k : lookup k d ≡ some job = ground arith in
      let new : lookup k (adjust j f d) ≡ some (f job) = ground (arith, lookup-adjust j k f d) in
      rw (same, new, at_k) e
  | inr other ↦
      let new : lookup k (adjust j f d) ≡ lookup k d = ground (arith, lookup-adjust j k f d) in
      rw (other, new) (omega arith)
]

runs_under-guarded :
    (k n : ℕ) (test : JobStatus → Bool) (to : JobStatus) (now : Time) (j : ℕ) (s : InMemoryStore)
    → ((job : Job) → test job.status ≡ true → runs_of (set_status to now job) ≡ runs_of job + n)
    → let r = guarded_update test (set_status to now) j s in
      runs_under k r.0.jobs ≡ runs_under k s.jobs + (if nat_eq j k && r.1 then n else 0)
runs_under-guarded k n test to now j s counts = elim (guarded_cases test (set_status to now) j s) [
  | inl (job, found, passes, e) ↦
      let r = runs_under-adjust k j n (set_status to now) s.jobs job found (counts job passes) in
      rw e (ground (arith, r))
  | inr (e, _) ↦ rw e (ground arith)
]

-- An update that hands the job to nobody.
runs_under-same :
    (k j : ℕ) (f : Job → Job) (d : Dict ℕ Job) (job : Job)
    → lookup j d ≡ some job
    → runs_of (f job) ≡ runs_of job
    → runs_under k (adjust j f d) ≡ runs_under k d + 0
runs_under-same k j f d job found e =
    ground (arith, runs_under-adjust k j 0 f d job found (ground (arith, e)))

module _ (k : ℕ) (test : JobStatus → Bool) (to : JobStatus) (now : Time) (j : ℕ) (s : InMemoryStore)
    (same : (job : Job)
      → test job.status ≡ true
      → runs_of (set_status to now job) ≡ runs_of job) where
  runs_under-guarded_same :
      runs_under k (guarded_update test (set_status to now) j s).0.jobs ≡ runs_under k s.jobs + 0
  runs_under-guarded_same = elim (guarded_cases test (set_status to now) j s) [
    | inl (job, found, passes, e) ↦
        rw e (runs_under-same k j (set_status to now) s.jobs job found (same job passes))
    | inr (e, _) ↦ rw e (omega arith)
  ]

ends_same :
    (to : JobStatus) (now : Time)
    → waits to ≡ false
    → (job : Job) → is_running job.status ≡ true
    → runs_of (set_status to now job) ≡ runs_of job
ends_same to now h job runs = ground (arith, h, runs)

-- A call changes the runs that the record of a job tells of by one if it is a claim that is won, and
-- else not at all.
Step-won :
    {s t : InMemoryStore} (k : ℕ)
    → IsValid s
    → (st : Step s t) → runs_under k t.jobs ≡ runs_under k s.jobs + won k st
unfolding set_type_config mark_dispatched claim complete fail dead_letter write_payload
Step-won {s} k v (configures t run_timeout limit payload) = omega arith
Step-won {s} k v (enqueues created updated t input creator) =
    elim (enqueue_cases created updated t input creator s) [
      | inl (idle, e) ↦
          let job = added created updated t input creator s in
          rw e (
            ground (
              arith,
              lookup-insert s.next_job k job s.jobs,
              lookup-insert_fresh s.next_job s.jobs v.job_ids,
            ))
      | inr (busy, e) ↦ rw e (omega arith)
    ]
Step-won {s} k v (marks now row j r) =
    runs_under-guarded_same k is_queued dispatched now j
      (record s { published = add row s.published }) (λ job free. ground (arith, free))
Step-won {s} k v (claims now j) =
    runs_under-guarded k 1 is_claimable running now j s (λ job free. ground (arith, free))
Step-won {s} k v (resolves now j t) = elim (resolve_cases now j t s) [
  | inl (job, cfg, found, runs, set, e) ↦
      rw e (runs_under-same k j (snapshot cfg.payload now) s.jobs job found refl)
  | inr e ↦ rw e (omega arith)
]
Step-won {s} k v (writes j payload) = elim (Option-cases (lookup j s.jobs)) [
  | inl missing ↦
      let set = λ (job : Job). record job { payload = payload } in
      let same : lookup k (adjust j set s.jobs) ≡ lookup k s.jobs =
        ground (arith, lookup-adjust j k set s.jobs, missing) in
      rw same (omega arith)
  | inr (job, found) ↦
      runs_under-same k j (λ job. record job { payload = payload }) s.jobs job found refl
]
Step-won {s} k v (completes now j) =
    runs_under-guarded_same k is_running completed now j s (ends_same completed now refl)
Step-won {s} k v (fails now j) =
    runs_under-guarded_same k is_running failed now j s (ends_same failed now refl)
Step-won {s} k v (requeues now j) = elim (requeue_cases now j s) [
  | inl (job, found, runs, under, e) ↦
      rw e (runs_under-same k j (requeue now) s.jobs job found (ground (arith, runs)))
  | inr (e, _) ↦ rw e (omega arith)
]
Step-won {s} k v (buries now j) =
    runs_under-guarded_same k is_running failed now j s (ends_same failed now refl)

Reach-won :
    {s : InMemoryStore} (k : ℕ) (r : Reach empty_store s) → claims_won k r ≡ runs_under k s.jobs
Reach-won k here = refl
Reach-won k (next r st) =
    ground (arith, Reach-won k r, Step-won k (Reach-IsValid empty_store-IsValid r) st)

-- Whatever calls are made from the empty store, in whatever order: a job that waits for a worker has
-- been claimed as often as it has attempts, and a job that runs or has ended once more.
pub Reach-claims_won :
    {s : InMemoryStore} (r : Reach empty_store s) (k : ℕ) (job : Job)
    → lookup k s.jobs ≡ some job
    → claims_won k r ≡ (if waits job.status then job.attempts else job.attempts + 1)
Reach-claims_won r k job h = ground (arith, Reach-won k r, h)
