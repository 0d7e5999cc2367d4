-- ===== src/Tests/Components.antt =====
-- The worker, the dispatcher and the reaper on small stores, and the theorems about them there.
use job_processing_workflow.Prelude.{
  ℕ, ◌+◌, ◌<◌, ◌≡◌, refl, true, false, values, List, [], ◌∷◌, none, some, lookup, nat_key, text_key,
  overlay, arith, length, decimal,
}
use job_processing_workflow.Models as Models
use job_processing_workflow.Models.{
  pos, text, Payload, Job, Time, Envelope, build_envelope, OutboxMessage, StuckJob, queued,
  dispatched,
}
use job_processing_workflow.MemoryStore.{
  InMemoryStore, mark_dispatched, TypeConfig, set_type_config, enqueue, active, claim,
  resolve_payload, fetch_unpublished, complete, fail, write_payload, get_job, is_stuck,
  requeue_stuck, dead_letter, find_stuck,
}
use job_processing_workflow.MemoryStore.Invariant.{IsValid}
use job_processing_workflow.MemoryStore.Steps.{here, next, enqueues, claims, Reach-IsValid}
use job_processing_workflow.MemoryStore.AsStore.{in_memory}
use job_processing_workflow.MemoryStore.AsStore.Laws.{status, in_memory_laws}
use job_processing_workflow.Messaging.{new_producer, in_process, publish}
use job_processing_workflow.Worker.{Handler, Lookup, completed, skipped, run, process}
use job_processing_workflow.Worker.Laws.{process-process}
use job_processing_workflow.Worker.Memory.{process-get_job}
use job_processing_workflow.Dispatcher.{publish_all, dispatch_once}
use job_processing_workflow.Reaper.{no_stats, reap, reap_all, reap_once}
use job_processing_workflow.Reaper.Order.{reap_all-Permutes}
use mathlib.Core.List.{Permᴰ}
use job_processing_workflow.Reaper.Stats.{stuck_count, reap_once_stats}
use job_processing_workflow.Reaper.Memory.{Swept, reap_once-Swept}
use job_processing_workflow.Tests.Samples.{
  base, input, waiting, claimed, claimed-IsValid, waiting_job, claimed_job, waiting_found,
  claimed_found,
}

abbrev clock : ℕ → Time
clock n = 100 + n

abbrev late : ℕ → Time
late n = 5_000_000 + n

-- A handler that returns, for every type.
abbrev greet : Handler
greet p = (p, true)

abbrev handlers : Lookup
handlers t = some greet

abbrev hello : Envelope
hello = build_envelope 1 "hello"

abbrev effective : Payload
effective = ("name", text "Grace") ∷ ("lang", text "en") ∷ []

abbrev config : TypeConfig
config = record { run_timeout = 1_000_000; max_attempts = 2; payload = base }

stores : Unit {0}
unfolding set_type_config enqueue active claim resolve_payload complete fail write_payload get_job
stores = tt

configured : lookup "hello" waiting.type_config ≡ some config
unfolding stores
configured = refl

claimed_configured : lookup "hello" claimed.type_config ≡ some config
unfolding stores
claimed_configured = refl

claimed_get : get_job 1 claimed ≡ some claimed_job
unfolding get_job
claimed_get = claimed_found

effective_lem : overlay base input ≡ effective
effective_lem = refl

process_once : (process in_memory clock handlers hello waiting).1 ≡ completed
unfolding stores process run
process_once = refl

process_again :
    (process in_memory clock handlers hello (process in_memory clock handlers hello waiting).0).1
    ≡ skipped
unfolding stores process run
process_again = refl

dispatch_waiting :
    (dispatch_once in_memory in_process clock "jobs" (pos 5) (waiting, new_producer)).0.1.published
    ≡ ("jobs", "1", hello) ∷ []
unfolding stores dispatch_once publish_all publish fetch_unpublished decimal
dispatch_waiting = refl

reap_late : status (reap_once in_memory late claimed).0 1 ≡ some queued
unfolding stores reap_once reap_all reap find_stuck requeue_stuck dead_letter
reap_late = refl

reap_early : status (reap_once in_memory clock claimed).0 1 ≡ some Models.running
unfolding stores reap_once reap_all reap find_stuck requeue_stuck dead_letter
reap_early = refl

process-get_job_example :
    let t = process in_memory clock handlers hello waiting in
    (t.1 ≡ completed)
    × (get_job 1 t.0
        ≡ some (record waiting_job {
          status = Models.completed;
          payload = effective;
          updated_at = 102;
        }))
process-get_job_example =
    process-get_job clock handlers 1 waiting waiting_job config greet waiting_found refl configured
      refl

process-process_example :
    let t = (process in_memory clock handlers hello waiting).0 in
    ((process in_memory late handlers hello t).1 ≡ skipped)
    × ((j : ℕ) → status (process in_memory late handlers hello t).0 j ≡ status t j)
process-process_example =
    process-process in_memory status in_memory_laws clock late handlers hello waiting

one_row : length (fetch_unpublished (pos 5) waiting) < 5
unfolding stores fetch_unpublished
one_row = omega arith

abbrev drained : InMemoryStore
drained = (dispatch_once in_memory in_process clock "jobs" (pos 5) (waiting, new_producer)).0.0

abbrev sent_message : OutboxMessage
sent_message = record { id = 1; job_id = 1; payload = build_envelope 1 "hello" }

sent_row : lookup 1 drained.outbox ≡ some sent_message
unfolding dispatch_once publish_all publish fetch_unpublished mark_dispatched set_type_config
    enqueue active
sent_row = refl

abbrev sent_job : Job
sent_job = record waiting_job { status = dispatched; updated_at = 100 }

sent_found : lookup 1 drained.jobs ≡ some sent_job
unfolding dispatch_once publish_all publish fetch_unpublished mark_dispatched set_type_config
    enqueue active
sent_found = refl

reap_once-Swept_example :
    Swept
      (is_stuck 5_000_000 claimed.type_config claimed_job)
      claimed.type_config
      claimed_job
      (get_job 1 (reap_once in_memory late claimed).0)
reap_once-Swept_example = reap_once-Swept late claimed 1 claimed_job claimed-IsValid claimed_get

reap_once_stats_example : (reap_once in_memory late claimed).1 ≡ record {
  requeued = stuck_count false (late 0) claimed.type_config (values claimed.jobs);
  dead_lettered = stuck_count true (late 0) claimed.type_config (values claimed.jobs);
}
reap_once_stats_example = reap_once_stats late claimed claimed-IsValid

one_requeued : (reap_once in_memory late claimed).1 ≡ record { requeued = 1; dead_lettered = 0 }
unfolding stores reap_once reap_all reap find_stuck requeue_stuck dead_letter
one_requeued = refl

-- A second job that runs.
abbrev two_runs : InMemoryStore
two_runs = (claim 30 2 (enqueue 25 25 "boom" none none claimed).0).0

two_runs-IsValid : IsValid two_runs
two_runs-IsValid =
    Reach-IsValid claimed-IsValid (next (next here (enqueues 25 25 "boom" none none)) (claims 30 2))

abbrev very_late : ℕ → Time
very_late n = 2_000_000_000 + n

abbrev listing : List StuckJob
listing =
    record { job_id = 2; job_type = "boom"; attempts = 0 }
    ∷ record { job_id = 1; job_type = "hello"; attempts = 0 }
    ∷ []

listing_perm : Permᴰ listing (find_stuck (very_late 0) two_runs)
unfolding stores find_stuck
listing_perm = Permᴰ.swap refl refl

reap_all-Permutes_example :
    let r = reap_all in_memory very_late 1 listing (two_runs, no_stats) in
    (r.1 ≡ (reap_once in_memory very_late two_runs).1)
    × ((k : ℕ) (job : Job)
        → get_job k two_runs ≡ some job
        → Swept
            (is_stuck (very_late 0) two_runs.type_config job)
            two_runs.type_config
            job
            (get_job k r.0))
reap_all-Permutes_example =
    reap_all-Permutes very_late two_runs listing two_runs-IsValid listing_perm
