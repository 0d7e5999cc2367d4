-- ===== src/MemoryStore/AsStore/Laws.antt =====
-- InMemoryStore of common/store.py keeps the laws of the protocol.
use job_processing_workflow.Prelude.{
  ℕ, add, true, String, Bool, false, ◌≡◌, Option, some, none, nat_eq, if◌then◌else◌, arith, inl,
  inr, lookup, lookup-adjust, nat_key, Dict,
}
use mathlib.Core.Option
use job_processing_workflow.Models.{
  Job, JobStatus, is_queued, dispatched, queued, running, completed, failed, Time, Payload,
  is_running,
}
use job_processing_workflow.Store.Laws.{
  StoreLaws, can_claim, is_run, is_waiting, sent, claimed, ended,
}
use job_processing_workflow.MemoryStore.{
  InMemoryStore, mark_dispatched, guarded_update, set_status, snapshot, requeue, is_claimable,
  claim, resolve_payload, complete, fail, requeue_stuck, dead_letter, write_payload,
}
use job_processing_workflow.MemoryStore.AsStore.{in_memory}
use job_processing_workflow.MemoryStore.Invariant.Payloads.{resolve_cases}
use job_processing_workflow.MemoryStore.Invariant.Publishing.{requeue_cases}

abbrev pub status_in : Dict ℕ Job → ℕ → Option JobStatus
status_in jobs k = Option.map (λ (job : Job). job.status) (lookup k jobs)

abbrev pub status : InMemoryStore → ℕ → Option JobStatus
status s k = status_in s.jobs k

-- A test of the status, false on a missing job.
abbrev passes : (JobStatus → Bool) → Option JobStatus → Bool
passes test none = false
passes test (some u) = test u

module _ (test : JobStatus → Bool) (to : JobStatus) (now : Time) (k : ℕ) (s : InMemoryStore) where
  guarded_won : (guarded_update test (set_status to now) k s).1 ≡ passes test (status s k)
  guarded_won = ground arith

  guarded_status :
      (j : ℕ)
      → status (guarded_update test (set_status to now) k s).0 j ≡ (
          if nat_eq k j
          then if passes test (status s k) then some to else status s j
          else status s j)
  guarded_status j = ground (arith, lookup-adjust k j (set_status to now) s.jobs)

passes-is_claimable : (u : Option JobStatus) → passes is_claimable u ≡ can_claim u
passes-is_claimable u = ground arith

passes-is_running : (u : Option JobStatus) → passes is_running u ≡ is_run u
passes-is_running u = ground arith

memory_claim_status :
    (now : Time) (k : ℕ) (s : InMemoryStore) (j : ℕ)
    → status (claim now k s).0 j ≡ (if nat_eq k j then claimed (status s j) else status s j)
unfolding claim
memory_claim_status now k s j =
    ground (arith, guarded_status is_claimable running now k s j, passes-is_claimable (status s k))

memory_ended_status :
    (to : JobStatus) (now : Time) (k : ℕ) (s : InMemoryStore) (j : ℕ)
    → status (guarded_update is_running (set_status to now) k s).0 j
      ≡ (if nat_eq k j then ended to (status s j) else status s j)
memory_ended_status to now k s j =
    ground (arith, guarded_status is_running to now k s j, passes-is_running (status s k))

passes-is_queued : (u : Option JobStatus) → passes is_queued u ≡ is_waiting u
passes-is_queued u = ground arith

pub memory_sent_status :
    (now : Time) (k : ℕ) (s : InMemoryStore) (j : ℕ)
    → status (guarded_update is_queued (set_status dispatched now) k s).0 j
      ≡ (if nat_eq k j then sent (status s j) else status s j)
memory_sent_status now k s j =
    ground (arith, guarded_status is_queued dispatched now k s j, passes-is_queued (status s k))

memory_requeue_won :
    (now : Time) (k : ℕ) (s : InMemoryStore)
    → (requeue_stuck now k s).1 ≡ true
    → is_run (status s k) ≡ true
memory_requeue_won now k s h = elim (requeue_cases now k s) [
  | inl (job, found, runs, under, e) ↦ ground (arith, found, runs)
  | inr (e, _) ↦ absurd (cc (e, h))
]

memory_resolve_status :
    (now : Time) (k : ℕ) (t : String) (s : InMemoryStore) (j : ℕ)
    → status (resolve_payload now k t s).0 j ≡ status s j
memory_resolve_status now k t s j = elim (resolve_cases now k t s) [
  | inl (job, cfg, found, runs, set, e) ↦
      rw e (ground (arith, lookup-adjust k j (snapshot cfg.payload now) s.jobs))
  | inr e ↦ rw e
]

memory_write_status :
    (k : ℕ) (payload : Payload) (s : InMemoryStore) (j : ℕ)
    → status (write_payload k payload s) j ≡ status s j
unfolding write_payload
memory_write_status k payload s j =
    ground (arith, lookup-adjust k j (λ (job : Job). record job { payload = payload }) s.jobs)

memory_requeue_status :
    (now : Time) (k : ℕ) (s : InMemoryStore) (j : ℕ)
    → status (requeue_stuck now k s).0 j ≡ (
        if (requeue_stuck now k s).1
        then if nat_eq k j then ended queued (status s j) else status s j
        else status s j)
memory_requeue_status now k s j = elim (requeue_cases now k s) [
  | inl (job, found, runs, under, e) ↦ rw e (ground (arith, lookup-adjust k j (requeue now) s.jobs))
  | inr (e, _) ↦ rw e
]

-- The in-memory store keeps the laws of the protocol: which statuses claim, complete, fail and
-- dead_letter accept, that requeue_stuck accepts running jobs only, and what these methods,
-- mark_dispatched, resolve_payload and the write of a handler do to the status of every job.
pub in_memory_laws : StoreLaws in_memory status
unfolding claim complete fail dead_letter mark_dispatched
in_memory_laws = record {
  mark_status =
      λ now row k s j. memory_sent_status now k (record s { published = add row s.published }) j;
  complete_won = λ now k s.
      ground (arith, guarded_won is_running completed now k s, passes-is_running (status s k));
  fail_won = λ now k s.
      ground (arith, guarded_won is_running failed now k s, passes-is_running (status s k));
  requeue_won = memory_requeue_won;
  claim_won = λ now k s.
      ground (arith, guarded_won is_claimable running now k s, passes-is_claimable (status s k));
  claim_status = memory_claim_status;
  resolve_status = memory_resolve_status;
  write_status = memory_write_status;
  complete_status = memory_ended_status completed;
  fail_status = memory_ended_status failed;
  requeue_status = memory_requeue_status;
  dead_letter_status = memory_ended_status failed;
  dead_letter_won = λ now k s.
      ground (arith, guarded_won is_running failed now k s, passes-is_running (status s k));
}
