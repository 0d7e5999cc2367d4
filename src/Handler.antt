-- ===== src/Handler.antt =====
-- handler/service.py: the enqueue step of a producer.
pub mod Cli
use job_processing_workflow.Prelude.{ℕ, String, Bool, Option, some, none, [], true, false}
use mathlib.Core.Option.{get_or}
use job_processing_workflow.Models.{Time, Payload}
use job_processing_workflow.Store.{Store}

pub record EnqueueResult : Type 0 where
  pub job_id : Option ℕ
  pub enqueued : Bool

-- `x is not None`
abbrev pub is_some {ℓ} : {A : Type ℓ} → Option A → Bool
is_some none = false
is_some (some a) = true

module _ {S : Type 0} (store : Store S) where
  unfoldable pub enqueue :
      (created updated : Time) → String → Option Payload → S → S × EnqueueResult
  enqueue created updated job_type payload s =
      let (s', job_id) = store.enqueue created updated job_type (some (get_or payload [])) none s in
      (s', record { job_id = job_id; enqueued = is_some job_id })
