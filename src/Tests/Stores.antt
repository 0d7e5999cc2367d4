-- ===== src/Tests/Stores.antt =====
-- The theorems about InMemoryStore at concrete stores.
use job_processing_workflow.Prelude.{
  add, discard, ℕ, ◌≤◌, ◌≡◌, ◌↔◌, if◌then◌else◌, refl, true, false, some, none, [], lookup, nat_key,
  values, nat_eq,
}
use job_processing_workflow.Models.{pos, Job}
use job_processing_workflow.MemoryStore.{
  InMemoryStore, set_type_config, enqueue, active, claim, mark_dispatched, requeue_stuck,
  find_stuck, fetch_unpublished, complete, get_job, new_job,
}
use job_processing_workflow.MemoryStore.Invariant.{HasMessage}
use job_processing_workflow.MemoryStore.Invariant.Jobs.{active_count}
use job_processing_workflow.MemoryStore.Steps.{
  here, next, claims, completes, Reach-active_count-le, Reach-HasMessage,
}
use job_processing_workflow.MemoryStore.Lifecycle.{Persists, Step-Persists, Remains, Reach-Remains}
use job_processing_workflow.MemoryStore.Dedup.{Holds, enqueue-eq-none_iff, enqueue-get_job}
use job_processing_workflow.Tests.Samples.{
  waiting, claimed, waiting-Reach, claimed-Reach, waiting-IsValid, claimed-IsValid, waiting_job,
  claimed_job, waiting_found, claimed_found,
}

second_enqueue : (enqueue 30 30 "hello" none none claimed).1 ≡ none
unfolding set_type_config enqueue active claim
second_enqueue = refl

other_enqueue : (enqueue 30 30 "boom" none none claimed).1 ≡ some 2
unfolding set_type_config enqueue active claim
other_enqueue = refl

Reach-active_count-le_example : active_count "hello" (values claimed.jobs) ≤ 1
Reach-active_count-le_example = Reach-active_count-le claimed-Reach "hello"

Reach-HasMessage_example : HasMessage waiting.outbox waiting.published 1 waiting_job
Reach-HasMessage_example = Reach-HasMessage waiting-Reach 1 waiting_job waiting_found

Step-Persists_example : Persists 1 waiting_job claimed.jobs
Step-Persists_example = Step-Persists 1 waiting_job waiting-IsValid (claims 20 1) waiting_found

done_status : (complete 30 1 claimed).1 ≡ true
unfolding set_type_config enqueue active claim complete
done_status = refl

Reach-Remains_example :
    (new : Job) × (lookup 1 (complete 30 1 claimed).0.jobs ≡ some new) × Remains claimed_job new
Reach-Remains_example =
    Reach-Remains 1 claimed_job claimed-IsValid (next here (completes 30 1)) claimed_found

enqueue-eq-none_iff_example :
    (((enqueue 30 30 "hello" none none claimed).1 ≡ none) ↔ Holds claimed.jobs "hello")
    × (Holds claimed.jobs "hello" → (enqueue 30 30 "hello" none none claimed).0 ≡ claimed)
enqueue-eq-none_iff_example = enqueue-eq-none_iff 30 30 "hello" none none claimed claimed-IsValid

enqueue-get_job_example :
    (get_job 2 claimed ≡ none)
    × ((j : ℕ)
        → get_job j (enqueue 30 30 "boom" none none claimed).0
          ≡ (if nat_eq 2 j then some (new_job 2 "boom" none none 30 30) else get_job j claimed))
enqueue-get_job_example =
    enqueue-get_job 30 30 "boom" none none claimed claimed-IsValid 2 other_enqueue

-- A dispatcher that marks its row only after the reaper has queued the job again: the row counts as
-- published and the job as dispatched, the run that was too slow can no longer end it, no batch and
-- no sweep finds the job, and no other job of its type can be enqueued.
abbrev late : InMemoryStore
late = mark_dispatched 3_000_000 1 1 (requeue_stuck 2_000_000 1 claimed).0

late_run : complete 3_000_001 1 late ≡ (late, false)
unfolding set_type_config enqueue active claim requeue_stuck mark_dispatched complete
late_run = refl

late_batch : fetch_unpublished (pos 100) late ≡ []
unfolding set_type_config enqueue active claim requeue_stuck mark_dispatched fetch_unpublished add
    discard
late_batch = refl

late_sweep : find_stuck 9_000_000_000 late ≡ []
unfolding set_type_config enqueue active claim requeue_stuck mark_dispatched find_stuck
late_sweep = refl

late_enqueue : (enqueue 9_000_000_000 9_000_000_000 "hello" none none late).1 ≡ none
unfolding set_type_config enqueue active claim requeue_stuck mark_dispatched
late_enqueue = refl
