-- ===== src/MemoryStore/Invariant/Operations.antt =====
-- Every method of InMemoryStore that changes one job keeps the store well-formed.
use job_processing_workflow.Prelude.{
  ℕ, ◌≡◌, ◌≢◌, ◌⊎◌, inl, inr, refl, true, false, Bool, some, lookup, adjust, nat_key, Bool-cases,
  arith, Option-cases,
}
use job_processing_workflow.Models.{
  Job, JobStatus, queued, running, completed, failed, is_active, Time,
}
use job_processing_workflow.MemoryStore.{
  InMemoryStore, guarded_update, set_status, claim, complete, fail, dead_letter, is_claimable,
}
use job_processing_workflow.MemoryStore.Invariant.{IsValid}
use job_processing_workflow.MemoryStore.Invariant.Update.{IsValid-update}

-- The update happens to a job that passes the test, or nothing happens.
pub guarded_cases :
    (test : JobStatus → Bool) (f : Job → Job) (k : ℕ) (s : InMemoryStore)
    → ((job : Job) × (lookup k s.jobs ≡ some job)
        × (test job.status ≡ true)
        × (guarded_update test f k s ≡ (record s { jobs = adjust k f s.jobs }, true)))
      ⊎ (guarded_update test f k s ≡ (s, false))
        × ((job : Job) → lookup k s.jobs ≡ some job → test job.status ≡ false)
guarded_cases test f k s = elim (Option-cases (lookup k s.jobs)) [
  | inl missing ↦ inr (ground arith, λ job h. cc)
  | inr (job, found) ↦ elim (Bool-cases (test job.status)) [
    | inl passes ↦ inl (job, found, passes, ground arith)
    | inr fails ↦ inr (ground arith, λ other h. ground arith)
  ]
]

module _ (test : JobStatus → Bool) (to : JobStatus) (now : Time) (k : ℕ) (s : InMemoryStore)
    (from_active : (u : JobStatus) → test u ≡ true → is_active u ≡ true)
    (not_queued : to ≢ queued) where
  guarded_update-IsValid : IsValid s → IsValid (guarded_update test (set_status to now) k s).0
  guarded_update-IsValid v = elim (guarded_cases test (set_status to now) k s) [
    | inl (job, found, passes, e) ↦ rw e (
        IsValid-update s k (set_status to now) s.published job found
          (record {
            same_id = refl;
            same_type = refl;
            activates_none = λ _. from_active job.status passes;
          })
          (λ row msg _ _ h. h) v.unpublished_above (λ m q. absurd (not_queued q)) v)
    | inr (e, _) ↦ rw e v
  ]

pub claim-IsValid : (now : Time) (k : ℕ) (s : InMemoryStore) → IsValid s → IsValid (claim now k s).0
unfolding claim
claim-IsValid now k s =
    guarded_update-IsValid is_claimable running now k s (λ u h. ground arith) (λ e. cc)

pub complete-IsValid :
    (now : Time) (k : ℕ) (s : InMemoryStore) → IsValid s → IsValid (complete now k s).0
unfolding complete
complete-IsValid now k s =
    guarded_update-IsValid _ completed now k s (λ u h. ground arith) (λ e. cc)

pub fail-IsValid : (now : Time) (k : ℕ) (s : InMemoryStore) → IsValid s → IsValid (fail now k s).0
unfolding fail
fail-IsValid now k s = guarded_update-IsValid _ failed now k s (λ u h. ground arith) (λ e. cc)

pub dead_letter-IsValid :
    (now : Time) (k : ℕ) (s : InMemoryStore) → IsValid s → IsValid (dead_letter now k s).0
unfolding dead_letter
dead_letter-IsValid now k s =
    guarded_update-IsValid _ failed now k s (λ u h. ground arith) (λ e. cc)
