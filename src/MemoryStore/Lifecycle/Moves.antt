-- ===== src/MemoryStore/Lifecycle/Moves.antt =====
-- The edges between the statuses of common/models.py, and what an update may do to a job.
use job_processing_workflow.Prelude.{◌+◌, ◌≤◌, ◌≡◌, refl, arith, false}
use job_processing_workflow.Models.{
  Job, JobStatus, queued, dispatched, running, completed, failed, is_active, Payload, Time,
}
use job_processing_workflow.MemoryStore.{set_status, requeue}

-- The edges of the lifecycle.
pub data Move : JobStatus → JobStatus → Type 0 where
  stay : (u : JobStatus) → Move u u
  dispatch : Move queued dispatched
  claim_queued : Move queued running
  claim_dispatched : Move dispatched running
  finish : Move running completed
  give_up : Move running failed
  retry : Move running queued

pub Move-terminal : {u v : JobStatus} → Move u v → is_active u ≡ false → v ≡ u
Move-terminal (stay u) h = refl
Move-terminal dispatch h = cc
Move-terminal claim_queued h = cc
Move-terminal claim_dispatched h = cc
Move-terminal finish h = cc
Move-terminal give_up h = cc
Move-terminal retry h = cc

-- What the job was asked for stays; its status moves along an edge; the attempts grow by one at
-- most.
pub record Evolves (old new : Job) : Type 0 where
  pub same_id : new.id ≡ old.id
  pub same_type : new.job_type ≡ old.job_type
  pub same_input : new.input_payload ≡ old.input_payload
  pub same_created_at : new.created_at ≡ old.created_at
  pub same_created_by : new.created_by ≡ old.created_by
  pub moved : Move old.status new.status
  pub attempts_grow : old.attempts ≤ new.attempts
  pub attempts_bound : new.attempts ≤ old.attempts + 1

pub Evolves-refl : (job : Job) → Evolves job job
Evolves-refl job = record {
  same_id = refl;
  same_type = refl;
  same_input = refl;
  same_created_at = refl;
  same_created_by = refl;
  moved = stay job.status;
  attempts_grow = omega arith;
  attempts_bound = omega arith;
}

pub Evolves-set_status :
    (to : JobStatus) (now : Time) (job : Job)
    → Move job.status to
    → Evolves job (set_status to now job)
Evolves-set_status to now job m = record {
  same_id = refl;
  same_type = refl;
  same_input = refl;
  same_created_at = refl;
  same_created_by = refl;
  moved = m;
  attempts_grow = omega arith;
  attempts_bound = omega arith;
}

pub Evolves-requeue :
    (now : Time) (job : Job) → Move job.status queued → Evolves job (requeue now job)
Evolves-requeue now job m = record {
  same_id = refl;
  same_type = refl;
  same_input = refl;
  same_created_at = refl;
  same_created_by = refl;
  moved = m;
  attempts_grow = omega arith;
  attempts_bound = omega arith;
}

pub Evolves-set_payload :
    (payload : Payload) (now : Time) (job : Job)
    → Evolves job (record job { payload = payload; updated_at = now })
Evolves-set_payload payload now job = record {
  same_id = refl;
  same_type = refl;
  same_input = refl;
  same_created_at = refl;
  same_created_by = refl;
  moved = stay job.status;
  attempts_grow = omega arith;
  attempts_bound = omega arith;
}
