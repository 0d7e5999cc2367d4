-- ===== src/MemoryStore/Steps.antt =====
-- The store of common/store.py under any interleaving of the method calls of all components.
use job_processing_workflow.Prelude.{ℕ, ◌≤◌, ◌≡◌, String, Option, some, lookup, nat_key, values}
use job_processing_workflow.Models.{Job, Time, Payload, Creator}
use job_processing_workflow.MemoryStore.{
  InMemoryStore, empty_store, set_type_config, enqueue, mark_dispatched, claim, resolve_payload,
  write_payload, complete, fail, requeue_stuck, dead_letter,
}
use job_processing_workflow.MemoryStore.Invariant.{HasMessage, IsValid}
use job_processing_workflow.MemoryStore.Invariant.Jobs.{active_count}
use job_processing_workflow.MemoryStore.Invariant.Operations.{
  claim-IsValid, complete-IsValid, fail-IsValid, dead_letter-IsValid,
}
use job_processing_workflow.MemoryStore.Invariant.Payloads.{
  resolve_payload-IsValid, write_payload-IsValid,
}
use job_processing_workflow.MemoryStore.Invariant.Publishing.{
  IsRow, mark_dispatched-IsValid, requeue_stuck-IsValid,
}
use job_processing_workflow.MemoryStore.Invariant.Enqueue.{
  enqueue-IsValid, set_type_config-IsValid, empty_store-IsValid,
}

-- One call of a method, at any time and with any arguments, by any component. `mark_dispatched`
-- is only called with the two ids of an outbox row.
pub data Step (s : InMemoryStore) : InMemoryStore → Type 0 where
  configures :
      (t : String) (run_timeout : Time) (max_attempts : ℕ) (payload : Option Payload)
      → Step s (set_type_config t run_timeout max_attempts payload s)
  enqueues :
      (created updated : Time) (t : String) (input : Option Payload) (creator : Option Creator)
      → Step s (enqueue created updated t input creator s).0
  marks : (now : Time) (row k : ℕ) → IsRow s row k → Step s (mark_dispatched now row k s)
  claims : (now : Time) (k : ℕ) → Step s (claim now k s).0
  resolves : (now : Time) (k : ℕ) (t : String) → Step s (resolve_payload now k t s).0
  writes : (k : ℕ) (payload : Payload) → Step s (write_payload k payload s)
  completes : (now : Time) (k : ℕ) → Step s (complete now k s).0
  fails : (now : Time) (k : ℕ) → Step s (fail now k s).0
  requeues : (now : Time) (k : ℕ) → Step s (requeue_stuck now k s).0
  buries : (now : Time) (k : ℕ) → Step s (dead_letter now k s).0

pub data Reach (s : InMemoryStore) : InMemoryStore → Type 0 where
  here : Reach s s
  next : {t u : InMemoryStore} → Reach s t → Step t u → Reach s u

pub Reach-trans : {s t u : InMemoryStore} → Reach s t → Reach t u → Reach s u
Reach-trans r here = r
Reach-trans r (next q st) = next (Reach-trans r q) st

pub Step-IsValid : {s t : InMemoryStore} → Step s t → IsValid s → IsValid t
Step-IsValid {s} (configures t run_timeout max_attempts payload) =
    set_type_config-IsValid t run_timeout max_attempts payload s
Step-IsValid {s} (enqueues created updated t input creator) =
    enqueue-IsValid created updated t input creator s
Step-IsValid {s} (marks now row k r) = mark_dispatched-IsValid s row k r now
Step-IsValid {s} (claims now k) = claim-IsValid now k s
Step-IsValid {s} (resolves now k t) = resolve_payload-IsValid now k t s
Step-IsValid {s} (writes k payload) = write_payload-IsValid k payload s
Step-IsValid {s} (completes now k) = complete-IsValid now k s
Step-IsValid {s} (fails now k) = fail-IsValid now k s
Step-IsValid {s} (requeues now k) = requeue_stuck-IsValid now k s
Step-IsValid {s} (buries now k) = dead_letter-IsValid now k s

pub Reach-IsValid : {s t : InMemoryStore} → IsValid s → Reach s t → IsValid t
Reach-IsValid v here = v
Reach-IsValid v (next r st) = Step-IsValid st (Reach-IsValid v r)

-- Whatever calls the components make, in whatever order, from the empty store: of each type at
-- most one job is active.
pub Reach-active_count-le :
    {s : InMemoryStore} → Reach empty_store s → (t : String) → active_count t (values s.jobs) ≤ 1
Reach-active_count-le r t = (Reach-IsValid empty_store-IsValid r).one_active t

-- Whatever calls the components make, in whatever order, from the empty store: every job has an
-- outbox row with the envelope of its id and its type, and while the job is queued that row is
-- unpublished, so that the dispatcher will find it.
pub Reach-HasMessage :
    {s : InMemoryStore}
    → Reach empty_store s
    → (k : ℕ) (job : Job) → lookup k s.jobs ≡ some job
    → HasMessage s.outbox s.published k job
Reach-HasMessage r = (Reach-IsValid empty_store-IsValid r).covered
