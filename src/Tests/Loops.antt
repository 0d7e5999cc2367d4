-- ===== src/Tests/Loops.antt =====
-- The loops around the components, the command of the producer, and the opening of the database, at
-- concrete inputs.
use job_processing_workflow.Prelude.{
  ℕ, suc, ◌+◌, ◌<◌, ◌≤◌, ◌≡◌, ◌≢◌, ◌⊎◌, refl, ap, subst, true, String, Option, none, some, List, [],
  ◌∷◌, ◌++◌, inl, inr, zero, if◌then◌else◌, ◌==◌, lookup, nat_key, length, arith, add, decimal,
  contains,
}
use job_processing_workflow.Models as Models
use job_processing_workflow.Models.{
  Time, Envelope, Payload, Job, pos, queued, dispatched, running, build_envelope, OutboxMessage,
}
use job_processing_workflow.MemoryStore.{
  InMemoryStore, empty_store, set_type_config, enqueue, active, mark_dispatched, fetch_unpublished,
  claim, resolve_payload, write_payload, complete, fail, requeue_stuck,
}
use job_processing_workflow.MemoryStore.AsStore.{in_memory}
use job_processing_workflow.MemoryStore.AsStore.Laws.{status, status_in, in_memory_laws}
use job_processing_workflow.MemoryStore.Steps.{
  Reach, here, next, configures, enqueues, claims, requeues,
}
use job_processing_workflow.MemoryStore.Claims.{claims_won, Reach-claims_won}
use job_processing_workflow.MemoryStore.Attempts.{CapsAtMost, Reach-attempts-le}
use job_processing_workflow.Postgres.Connect.{
  opened, attempts, connect_with_retry, connect_with_retry_cases, OpensAt, GivesUp,
}
use job_processing_workflow.Messaging.{
  Consumer, Polled, nothing, delivered, new_producer, InMemoryProducer, publish,
}
use job_processing_workflow.Service.{returned, Ended}
use job_processing_workflow.Dispatcher.{publish_all, dispatch_once}
use job_processing_workflow.Dispatcher.Loop.{loop}
use job_processing_workflow.Dispatcher.Loop.Drains.{pending, runs, loop_drains}
use job_processing_workflow.Worker.{Handler, Lookup, completed, skipped, process, run}
use job_processing_workflow.Worker.Loop.{
  keyboard_interrupt, received, goes, leaves, start, run_loop, step,
}
use job_processing_workflow.Worker.Loop.Accounts.{ConsumerLaws, IsAccounted, final}
use job_processing_workflow.Worker.Loop.Delivery.{run_loop-IsAccounted, run_loop_redelivery}
use job_processing_workflow.Handler as Handler
use job_processing_workflow.Handler.Cli.{main}
use job_processing_workflow.Handler.Cli.Memory.{Refuses, Skips, Enqueues, main_cases}
use job_processing_workflow.Journey.Loops.{CaughtUp, worked, queued-Ends}
use mathlib.Core.List.{Memᴰ}
use mathlib.Core.List.Memᴰ
use job_processing_workflow.Tests.Samples.{
  waiting_job, waiting_found, base, input, waiting, waiting-IsValid, claimed, claimed_job,
  claimed_found,
}

abbrev clock : ℕ → Time
clock n = 100 + n

abbrev hello : Envelope
hello = build_envelope 1 "hello"

abbrev greet : Handler
greet p = (p, true)

abbrev handlers : Lookup
handlers t = some greet

abbrev way : Reach empty_store claimed
way =
    next
      (next (next here (configures "hello" 1_000_000 2 (some base)))
        (enqueues 10 10 "hello" (some input) none))
      (claims 20 1)

way-CapsAtMost : CapsAtMost 3 "hello" way
unfolding set_type_config enqueue active claim
way-CapsAtMost = (((omega arith, omega arith), omega arith), omega arith)

Reach-attempts-le_example : claimed_job.attempts ≤ 3
Reach-attempts-le_example =
    Reach-attempts-le 3 "hello" way way-CapsAtMost 1 claimed_job claimed_found refl

Reach-claims_won_example : claims_won 1 way ≡ 1
Reach-claims_won_example = Reach-claims_won way 1 claimed_job claimed_found

-- A worker that comes second, and one that comes after the job has been given back.
claimed_twice :
    let second = next way (claims 30 1) in
    let again = next (next second (requeues 40 1)) (claims 50 1) in
    (claims_won 1 second ≡ 1) × (claims_won 1 again ≡ 2)
unfolding set_type_config enqueue active claim requeue_stuck
claimed_twice = (refl, refl)

-- A database that answers at the third call.
abbrev slow : ℕ → Option String
slow zero = some "refused"
slow (suc zero) = some "starting"
slow (suc (suc n)) = none

connect_slow : connect_with_retry slow 30 ≡ record { result = opened; calls = 3; slept = 4 }
unfolding connect_with_retry attempts
connect_slow = refl

connect_with_retry_cases_example :
    ((i : ℕ) × (i < 2) × OpensAt slow i (connect_with_retry slow 2))
    ⊎ GivesUp slow 2 (connect_with_retry slow 2)
connect_with_retry_cases_example = connect_with_retry_cases slow 2

one_pending : pending waiting < 2
unfolding pending set_type_config enqueue active
one_pending = omega arith

loop_drains_example :
    let e = runs "jobs" 5 0 (clock ∷ clock ∷ []) (waiting, new_producer) in
    (e.exit ≡ returned 0)
    × (0 < e.log)
    × ((row k : ℕ) (msg : OutboxMessage) (job : Job)
        → lookup row e.store.outbox ≡ some msg
        → lookup k e.store.jobs ≡ some job
        → (contains row e.store.published ≡ true) × (job.status ≢ queued))
loop_drains_example =
    loop_drains "jobs" 5 (clock ∷ clock ∷ []) waiting new_producer waiting-IsValid (omega arith)
      one_pending

-- A consumer of one partition.
record Partition : Type 0 where
  ahead : List Envelope
  behind : List Envelope
  offset : ℕ

abbrev next_of : Partition → List Envelope → Partition × Polled
next_of c [] = (c, nothing)
next_of c (e ∷ es) = (record c { ahead = es; behind = c.behind ++ e ∷ [] }, delivered e)

abbrev partition : Consumer Partition
partition = record {
  poll = λ c. next_of c c.ahead;
  commit = λ c. (record c { offset = length c.behind }, true);
  close = λ c. c;
}

next_of-log :
    (c : Partition) (l : List Envelope)
    → ((next_of c l).0.offset ≡ c.offset)
      × (((next_of c l).1 ≡ nothing) × ((next_of c l).0.behind ≡ c.behind)
          ⊎ ((e : Envelope) × ((next_of c l).1 ≡ delivered e)
              × ((next_of c l).0.behind ≡ c.behind ++ e ∷ [])))
next_of-log c [] = (refl, inl (refl, refl))
next_of-log c (e ∷ es) = (refl, inr (e, refl, refl))

partition_laws : ConsumerLaws partition (λ c. c.behind) (λ c. c.offset)
partition_laws = record {
  poll_committed = λ c. (next_of-log c c.ahead).0;
  poll_nothing = λ c h. ground (arith, next_of-log c c.ahead, h);
  poll_raises = λ c h. ground (arith, next_of-log c c.ahead, h);
  poll_delivered = λ c e h. ground (arith, next_of-log c c.ahead, h);
  commit_log = λ c. refl;
  commit_committed = λ c h. refl;
  commit_raises = λ c h. inr refl;
}

abbrev full : Partition
full = record { ahead = hello ∷ []; behind = []; offset = 0 }

-- The message is received and processed, and KeyboardInterrupt comes out of its commit.
run_loop-IsAccounted_example :
    IsAccounted
      (λ c. c.behind)
      (λ c. c.offset)
      (final (
        run_loop in_memory handlers partition
          (goes clock ∷ goes clock ∷ leaves keyboard_interrupt ∷ [])
          (start waiting full)))
run_loop-IsAccounted_example =
    run_loop-IsAccounted in_memory handlers partition (λ c. c.behind) (λ c. c.offset) partition_laws
      (goes clock ∷ goes clock ∷ leaves keyboard_interrupt ∷ []) (start waiting full)
      (record { delivers = refl; commits = refl })

-- The message is committed then, and not reported.
left_committed :
    let last = final (
      run_loop in_memory handlers partition
        (goes clock ∷ goes clock ∷ leaves keyboard_interrupt ∷ [])
        (start waiting full)) in
    (last.consumer.offset ≡ 1) × (last.output ≡ [])
unfolding run_loop step
left_committed = (refl, refl)

whole_round :
    (final (
      run_loop in_memory handlers partition
        (goes clock ∷ goes clock ∷ goes clock ∷ goes clock ∷ [])
        (start waiting full))).output
    ≡ (hello, completed) ∷ []
unfolding run_loop step process run set_type_config enqueue active claim resolve_payload complete
    fail write_payload
whole_round = refl

run_loop_redelivery_example :
    let first = final (
      run_loop in_memory handlers partition
        (goes clock ∷ [])
        (record { phase = received hello; store = waiting; consumer = full; output = [] })) in
    let second = final (
      run_loop in_memory handlers partition
        (goes clock ∷ goes clock ∷ goes clock ∷ goes clock ∷ [])
        (start first.store full)) in
    (second.output ≡ (hello, skipped) ∷ [])
    × (second.consumer ≡ (partition.commit (partition.poll full).0).0)
    × ((j : ℕ) → status second.store j ≡ status first.store j)
run_loop_redelivery_example =
    run_loop_redelivery in_memory status in_memory_laws partition handlers clock clock clock clock
      clock hello full full waiting refl

-- `json.loads` of the empty object alone.
abbrev loads : String → Option Payload
loads s = if s == "{}" then some [] else none

main_cases_example :
    Refuses loads 10 10 waiting
      ("hello" ∷ [])
      (main in_memory (λ s. s) loads 10 10 ("hello" ∷ []) waiting)
    ⊎ (Skips loads 10 10 waiting
          ("hello" ∷ [])
          (main in_memory (λ s. s) loads 10 10 ("hello" ∷ []) waiting)
        ⊎ Enqueues loads 10 10 waiting
            ("hello" ∷ [])
            (main in_memory (λ s. s) loads 10 10 ("hello" ∷ []) waiting))
main_cases_example = main_cases loads 10 10 waiting waiting-IsValid ("hello" ∷ [])

says_skipped :
    (main in_memory (λ s. s) loads 10 10 ("hello" ∷ "{}" ∷ []) waiting).1.stdout
    ≡ "skipped hello: an active job already exists\n"
unfolding main set_type_config enqueue active Handler.enqueue
says_skipped = refl

-- The dispatcher hands the message of the job over, and the worker processes it in four steps.
abbrev after : Ended InMemoryStore InMemoryProducer ℕ
after = runs "jobs" 5 0 (clock ∷ clock ∷ []) (waiting, new_producer)

after_published : after.kafka.published ≡ ("jobs", "1", hello) ∷ []
unfolding loop dispatch_once publish_all publish mark_dispatched fetch_unpublished add
    set_type_config enqueue active decimal
after_published = refl

after_jobs :
    after.store.jobs ≡ (1, record waiting_job { status = dispatched; updated_at = 100 }) ∷ []
unfolding loop dispatch_once publish_all publish mark_dispatched fetch_unpublished add
    set_type_config enqueue active
after_jobs = refl

after_status : (j : ℕ) → status after.store j ≢ some running
after_status j h = ground (arith, subst (λ jobs. status_in jobs j ≡ some running) after_jobs h)

all_delivered :
    CaughtUp "jobs" 5
      (clock ∷ clock ∷ [])
      waiting
      new_producer
      waiting-IsValid
      (omega arith)
      one_pending
      partition
      (λ c. c.behind)
      (λ c. c.offset)
      partition_laws
      handlers
      full
      refl
      refl
      (clock ∷ clock ∷ clock ∷ clock ∷ [])
unfolding loop dispatch_once publish_all publish mark_dispatched fetch_unpublished add run_loop step
    process run set_type_config enqueue active claim resolve_payload complete fail write_payload
    decimal
all_delivered = record {
  between = refl;
  delivered =
      λ m h. Memᴰ.head (ap (λ (t : String × String × Envelope). t.2) (Memᴰ.eq_of_singleton h));
}

queued-Ends_example :
    let last =
      worked "jobs" 5
        (clock ∷ clock ∷ [])
        waiting
        new_producer
        waiting-IsValid
        (omega arith)
        one_pending
        partition
        (λ c. c.behind)
        (λ c. c.offset)
        partition_laws
        handlers
        full
        refl
        refl
        (clock ∷ clock ∷ clock ∷ clock ∷ []) in
    (status last.store 1 ≡ some Models.completed) ⊎ (status last.store 1 ≡ some Models.failed)
queued-Ends_example =
    queued-Ends "jobs" 5 (clock ∷ clock ∷ []) waiting new_producer waiting-IsValid (omega arith)
      one_pending partition (λ c. c.behind) (λ c. c.offset) partition_laws handlers full refl refl
      (clock ∷ clock ∷ clock ∷ clock ∷ []) all_delivered after_status 1 waiting_job waiting_found
      refl
