-- ===== src/Store.antt =====
-- common/store.py, the protocol `Store`: the interface between the components and their store. A
-- method takes the time of its call, the store and its arguments.
pub mod Laws
use job_processing_workflow.Prelude.{ℕ, String, Bool, Option, List}
use job_processing_workflow.Models.{ℤ, Time, Payload, Creator, Job, OutboxMessage, StuckJob}

pub record Store (S : Type 0) : Type 0 where
  pub enqueue :
      (created updated : Time) → String → Option Payload → Option Creator → S → S × Option ℕ
  pub fetch_unpublished : ℤ → S → List OutboxMessage
  pub mark_dispatched : Time → ℕ → ℕ → S → S
  pub claim : Time → ℕ → S → S × Bool
  pub resolve_payload : Time → ℕ → String → S → S × Option Payload
  pub complete : Time → ℕ → S → S × Bool
  pub fail : Time → ℕ → S → S × Bool
  pub find_stuck : Time → S → List StuckJob
  pub requeue_stuck : Time → ℕ → S → S × Bool
  pub dead_letter : Time → ℕ → S → S × Bool
  pub get_job : ℕ → S → Option Job
  -- What becomes of the store when the caller changes the dictionary that `resolve_payload`
  -- returned for a job. A store that hands out a copy stays as it is.
  pub write_payload : ℕ → Payload → S → S
