-- ===== src/Journey/System.antt =====
-- The components together, over InMemoryStore: whatever they do, one after the other.
use job_processing_workflow.Prelude.{
  ℕ, ◌≤◌, ◌≡◌, String, Option, some, none, List, [], ◌∷◌, lookup, nat_key, values,
}
use mathlib.Core.Option.{get_or}
use job_processing_workflow.Models.{ℤ, Time, Payload, Job, Envelope}
use job_processing_workflow.MemoryStore.{InMemoryStore, empty_store, set_type_config}
use job_processing_workflow.MemoryStore.AsStore.{in_memory}
use job_processing_workflow.MemoryStore.Invariant.{HasMessage, IsValid}
use job_processing_workflow.MemoryStore.Invariant.Jobs.{active_count}
use job_processing_workflow.MemoryStore.Invariant.Enqueue.{empty_store-IsValid}
use job_processing_workflow.MemoryStore.Steps.{
  Reach, here, next, configures, enqueues, Reach-trans, Reach-IsValid,
}
use job_processing_workflow.Messaging.{Producer}
use job_processing_workflow.Handler as Handler
use job_processing_workflow.Dispatcher.{dispatch_once}
use job_processing_workflow.Dispatcher.Memory.{dispatch_once-Reach}
use job_processing_workflow.Worker.{Lookup, process}
use job_processing_workflow.Worker.Memory.{process-Reach}
use job_processing_workflow.Reaper.{reap_once}
use job_processing_workflow.Reaper.Memory.{reap_once-Reach}
use job_processing_workflow.Api.Principal.{Principal, to_creator}
use job_processing_workflow.Api.Schemas.{CreateJobRequest}
use job_processing_workflow.Api.Routes.{create_job}

-- What is done next, and at which times: a type is configured, the enqueue step of a producer, a POST
-- that has passed its dependencies, a batch of the dispatcher, a message at the worker, a sweep of
-- the reaper.
pub data Action : Type 0 where
  set_up : String → Time → ℕ → Option Payload → Action
  produces : (created updated : Time) → String → Option Payload → Action
  posts : (created updated : Time) → CreateJobRequest → Principal → Action
  dispatches : (ℕ → Time) → (topic : String) → (batch_size : ℤ) → Action
  receives : (ℕ → Time) → Lookup → Envelope → Action
  sweeps : (ℕ → Time) → Action

module _ {P : Type 0} (producer : Producer P) where
  unfoldable pub perform : Action → InMemoryStore × P → InMemoryStore × P
  perform (set_up t run_timeout limit payload) (s, p) =
      (set_type_config t run_timeout limit payload s, p)
  perform (produces created updated t payload) (s, p) =
      ((Handler.enqueue in_memory created updated t payload s).0, p)
  perform (posts created updated body principal) (s, p) =
      ((create_job in_memory created updated body principal s).0, p)
  perform (dispatches clock topic batch_size) w =
      (dispatch_once in_memory producer clock topic batch_size w).0
  perform (receives clock handlers e) (s, p) = ((process in_memory clock handlers e s).0, p)
  perform (sweeps clock) (s, p) = ((reap_once in_memory clock s).0, p)

  unfoldable pub perform_all : List Action → InMemoryStore × P → InMemoryStore × P
  perform_all [] w = w
  perform_all (a ∷ actions) w = perform_all actions (perform a w)

  perform-Reach :
      (a : Action) (s : InMemoryStore) (p : P) → IsValid s → Reach s (perform a (s, p)).0
  unfolding perform Handler.enqueue create_job
  perform-Reach (set_up t run_timeout limit payload) s p v =
      next here (configures t run_timeout limit payload)
  perform-Reach (produces created updated t payload) s p v =
      next here (enqueues created updated t (some (get_or payload [])) none)
  perform-Reach (posts created updated body principal) s p v = next here (
      enqueues created updated body.job_type (some (get_or body.payload []))
        (some (to_creator principal)))
  perform-Reach (dispatches clock topic batch_size) s p v =
      dispatch_once-Reach producer clock topic batch_size s p v
  perform-Reach (receives clock handlers e) s p v = process-Reach clock handlers e s
  perform-Reach (sweeps clock) s p v = reap_once-Reach clock s

  pub perform_all-Reach :
      (actions : List Action) (s : InMemoryStore) (p : P)
      → IsValid s
      → Reach s (perform_all actions (s, p)).0
  unfolding perform_all
  perform_all-Reach [] s p v = here
  perform_all-Reach (a ∷ actions) s p v =
      let (t, q) = perform a (s, p) in
      let first = perform-Reach a s p v in
      Reach-trans first (perform_all-Reach actions t q (Reach-IsValid v first))

  -- Whatever the components do from the empty store, in whatever order, with whatever messages,
  -- handlers and times, and whether or not the producer raises: of each type at most one job is
  -- active, and every job has an outbox row with the envelope of its id and its type, which is
  -- unpublished while the job is queued.
  pub perform_all-Consistent :
      (actions : List Action) (p : P)
      → let s = (perform_all actions (empty_store, p)).0 in
        ((t : String) → active_count t (values s.jobs) ≤ 1)
        × ((k : ℕ) (job : Job) → lookup k s.jobs ≡ some job → HasMessage s.outbox s.published k job)
  perform_all-Consistent actions p =
      let v =
        Reach-IsValid empty_store-IsValid
          (perform_all-Reach actions empty_store p empty_store-IsValid) in
      (v.one_active, v.covered)
