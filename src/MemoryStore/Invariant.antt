-- ===== src/MemoryStore/Invariant.antt =====
-- The well-formedness of the store of common/store.py: what its methods rely on and keep.
pub mod Jobs
pub mod Update
pub mod Operations
pub mod Payloads
pub mod Publishing
pub mod Enqueue
use job_processing_workflow.Prelude.{
  ℕ, ◌≤◌, ◌<◌, ◌≡◌, false, String, some, List, contains, Dict, values, lookup, nat_key,
  HasDistinctKeys,
}
use job_processing_workflow.Models.{Job, queued, OutboxMessage, build_envelope}
use job_processing_workflow.MemoryStore.{InMemoryStore}
use Jobs.{active_count, HasIds}

-- The outbox row of a job: it points to the job, and is not published while the job is queued.
pub record HasMessage (outbox : Dict ℕ OutboxMessage) (published : List ℕ) (k : ℕ) (job : Job)
    : Type 0 where
  pub row : ℕ
  pub msg : OutboxMessage
  pub found : lookup row outbox ≡ some msg
  pub points : msg.job_id ≡ k
  pub envelope : msg.payload ≡ build_envelope k job.job_type
  pub waiting : job.status ≡ queued → contains row published ≡ false

-- The job that an outbox row points to.
pub record IsRouted (jobs : Dict ℕ Job) (k : ℕ) (msg : OutboxMessage) : Type 0 where
  pub job : Job
  pub keyed : msg.id ≡ k
  pub exists : lookup msg.job_id jobs ≡ some job
  pub addressed : msg.payload ≡ build_envelope msg.job_id job.job_type

abbrev pub RowsBelow : ℕ → Dict ℕ OutboxMessage → Type 0
RowsBelow next outbox = (k : ℕ) (msg : OutboxMessage) → lookup k outbox ≡ some msg → k < next

pub record IsValid (s : InMemoryStore) : Type 0 where
  -- "One active job per type."
  pub one_active : (t : String) → active_count t (values s.jobs) ≤ 1
  pub job_ids : HasIds s.next_job s.jobs
  pub distinct_jobs : HasDistinctKeys s.jobs
  pub rows_below : RowsBelow s.next_outbox s.outbox
  pub unpublished_above : (row : ℕ) → s.next_outbox ≤ row → contains row s.published ≡ false
  pub distinct_rows : HasDistinctKeys s.outbox
  pub covered :
      (k : ℕ) (job : Job) → lookup k s.jobs ≡ some job → HasMessage s.outbox s.published k job
  pub routed : (k : ℕ) (msg : OutboxMessage) → lookup k s.outbox ≡ some msg → IsRouted s.jobs k msg
