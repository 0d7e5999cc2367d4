-- ===== src/Tests/Journeys.antt =====
-- One job from the request to its result.
use job_processing_workflow.Prelude.{
  ℕ, ◌≡◌, ◌≤◌, refl, true, none, some, List, [], ◌∷◌, lookup, text_key, nat_key, overlay, values,
  String,
}
use job_processing_workflow.Models.{pos, Payload, Job, build_envelope}
use job_processing_workflow.MemoryStore as Memory
use job_processing_workflow.MemoryStore.{
  InMemoryStore, empty_store, set_type_config, active, new_job, TypeConfig,
}
use job_processing_workflow.MemoryStore.AsStore.{in_memory}
use job_processing_workflow.MemoryStore.Invariant.{IsValid, HasMessage}
use job_processing_workflow.MemoryStore.Invariant.Jobs.{active_count}
use job_processing_workflow.MemoryStore.Invariant.Enqueue.{
  empty_store-IsValid, set_type_config-IsValid,
}
use job_processing_workflow.Messaging.{in_process, new_producer}
use job_processing_workflow.Dispatcher.{dispatch_once}
use job_processing_workflow.Worker.{Lookup, Handler, process}
use job_processing_workflow.Worker.Memory.{result_status, result_outcome}
use job_processing_workflow.Api.{returns}
use job_processing_workflow.Api.Principal.{Principal, Settings, to_creator}
use job_processing_workflow.Api.Schemas.{CreateJobRequest}
use job_processing_workflow.Api.Routes.{create_job, created, get_job, to_response}
use job_processing_workflow.Journey.System.{
  Action, set_up, posts, dispatches, receives, produces, sweeps, perform_all,
  perform_all-Consistent,
}
use job_processing_workflow.Journey.{create_job-process-get_job}
use job_processing_workflow.Tests.Samples.{base, input, configured}

abbrev settings : Settings
settings = record {
  scope_write = "jobs.write";
  scope_read = "jobs.read";
  scope_read_all = "jobs.read.all";
  groups_claim = "groups";
  user_claims = "email" ∷ [];
}

abbrev ada : Principal
ada = record {
  subject = "ada";
  principal_type = "user";
  client_id = some "web";
  scopes = "jobs.write" ∷ [];
  groups = [];
}

abbrev body : CreateJobRequest
body = record { job_type = "hello"; payload = some input }

abbrev kept : Handler
kept = λ p. (p, true)

abbrev handlers : Lookup
handlers = λ t. some kept

abbrev config : TypeConfig
config = record { run_timeout = 1_000_000; max_attempts = 2; payload = base }

configured-IsValid : IsValid configured
configured-IsValid = set_type_config-IsValid "hello" 1_000_000 2 (some base) _ empty_store-IsValid

asked : (create_job in_memory 10 11 body ada configured).1 ≡ returns (created 1)
unfolding create_job Memory.enqueue active set_type_config
asked = refl

abbrev clock : ℕ → ℕ
clock = λ n. n

abbrev dispatched_store : InMemoryStore
dispatched_store =
    (dispatch_once in_memory in_process clock "jobs" (pos 10)
      ((create_job in_memory 10 11 body ada configured).0, new_producer)).0.0

config_set : lookup "hello" configured.type_config ≡ some config
unfolding set_type_config
config_set = refl

abbrev given : Payload
given = overlay base input

create_job-process-get_job_example :
    let r = process in_memory clock handlers (build_envelope 1 "hello") dispatched_store in
    (r.1 ≡ result_outcome true)
    × (get_job in_memory 1 ada settings r.0
        ≡ returns (
            to_response (record (new_job 1 "hello" (some input) (some (to_creator ada)) 10 11) {
              status = result_status true;
              payload = given;
              updated_at = 2;
            })))
create_job-process-get_job_example =
    create_job-process-get_job 10 11 body ada configured configured-IsValid 1 asked in_process
      new_producer clock clock "jobs" (pos 10) handlers config kept settings config_set refl

-- A job is asked for, published, run and asked for again; the reaper finds nothing.
abbrev busy : List Action
busy =
    set_up "hello" 1_000_000 2 (some base)
    ∷ posts 10 11 body ada
    ∷ dispatches clock "jobs" (pos 10)
    ∷ receives clock handlers (build_envelope 1 "hello")
    ∷ produces 30 30 "hello" none
    ∷ sweeps clock
    ∷ []

perform_all-Consistent_example :
    let s = (perform_all in_process busy (empty_store, new_producer)).0 in
    ((t : String) → active_count t (values s.jobs) ≤ 1)
    × ((k : ℕ) (job : Job) → lookup k s.jobs ≡ some job → HasMessage s.outbox s.published k job)
perform_all-Consistent_example = perform_all-Consistent in_process busy new_producer
