-- ===== src/Store/Laws.antt =====
-- What the components rely on in a `Store` (common/store.py): an abstract view of each job's status,
-- and what each method does to it.
use job_processing_workflow.Prelude.{
  ℕ, String, Bool, true, false, ◌≡◌, Option, some, nat_eq, if◌then◌else◌,
}
use job_processing_workflow.Models.{
  JobStatus, queued, dispatched, running, completed, failed, Time, Payload,
}
use job_processing_workflow.Store.{Store}

-- `queued|dispatched -> running`, and no other status.
abbrev pub can_claim : Option JobStatus → Bool
can_claim (some queued) = true
can_claim (some dispatched) = true
can_claim _ = false

abbrev pub is_run : Option JobStatus → Bool
is_run (some running) = true
is_run _ = false

abbrev pub claimed : Option JobStatus → Option JobStatus
claimed u = if can_claim u then some running else u

abbrev pub is_waiting : Option JobStatus → Bool
is_waiting (some queued) = true
is_waiting _ = false

abbrev pub sent : Option JobStatus → Option JobStatus
sent u = if is_waiting u then some dispatched else u

abbrev pub ended : JobStatus → Option JobStatus → Option JobStatus
ended to u = if is_run u then some to else u

pub record StoreLaws {S : Type 0} (store : Store S) (status : S → ℕ → Option JobStatus)
    : Type 0 where
  pub mark_status :
      (now : Time) (row k : ℕ) (s : S) (j : ℕ)
      → status (store.mark_dispatched now row k s) j
        ≡ (if nat_eq k j then sent (status s j) else status s j)
  pub claim_won : (now : Time) (k : ℕ) (s : S) → (store.claim now k s).1 ≡ can_claim (status s k)
  pub claim_status :
      (now : Time) (k : ℕ) (s : S) (j : ℕ)
      → status (store.claim now k s).0 j ≡ (if nat_eq k j then claimed (status s j) else status s j)
  pub resolve_status :
      (now : Time) (k : ℕ) (t : String) (s : S) (j : ℕ)
      → status (store.resolve_payload now k t s).0 j ≡ status s j
  pub write_status :
      (k : ℕ) (payload : Payload) (s : S) (j : ℕ)
      → status (store.write_payload k payload s) j ≡ status s j
  pub complete_status :
      (now : Time) (k : ℕ) (s : S) (j : ℕ)
      → status (store.complete now k s).0 j
        ≡ (if nat_eq k j then ended completed (status s j) else status s j)
  pub fail_status :
      (now : Time) (k : ℕ) (s : S) (j : ℕ)
      → status (store.fail now k s).0 j
        ≡ (if nat_eq k j then ended failed (status s j) else status s j)
  pub complete_won : (now : Time) (k : ℕ) (s : S) → (store.complete now k s).1 ≡ is_run (status s k)
  pub fail_won : (now : Time) (k : ℕ) (s : S) → (store.fail now k s).1 ≡ is_run (status s k)
  -- The attempts and the cap, which the status does not show, decide among the running jobs.
  pub requeue_won :
      (now : Time) (k : ℕ) (s : S)
      → (store.requeue_stuck now k s).1 ≡ true
      → is_run (status s k) ≡ true
  pub requeue_status :
      (now : Time) (k : ℕ) (s : S) (j : ℕ)
      → status (store.requeue_stuck now k s).0 j ≡ (
          if (store.requeue_stuck now k s).1
          then if nat_eq k j then ended queued (status s j) else status s j
          else status s j)
  pub dead_letter_status :
      (now : Time) (k : ℕ) (s : S) (j : ℕ)
      → status (store.dead_letter now k s).0 j
        ≡ (if nat_eq k j then ended failed (status s j) else status s j)
  pub dead_letter_won :
      (now : Time) (k : ℕ) (s : S) → (store.dead_letter now k s).1 ≡ is_run (status s k)
