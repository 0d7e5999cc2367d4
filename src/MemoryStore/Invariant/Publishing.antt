-- ===== src/MemoryStore/Invariant/Publishing.antt =====
-- Marking an outbox row as published, and making it publishable again, keep the store of
-- common/store.py well-formed.
use job_processing_workflow.Prelude.{
  ℕ, ◌≤◌, ◌≡◌, ◌≢◌, ◌⊎◌, inl, inr, refl, true, false, leb, some, Dict, List, [], ◌∷◌, lookup,
  adjust, nat_key, Bool-cases, arith, Option-cases, if◌then◌else◌, nat_eq, contains, add,
  contains-add, discard, contains-discard,
}
use job_processing_workflow.Models.{
  Job, queued, dispatched, running, is_queued, is_running, Time, OutboxMessage,
}
use job_processing_workflow.MemoryStore.{
  InMemoryStore, set_status, mark_dispatched, requeue_stuck, requeue, rearm, max_attempts,
}
use job_processing_workflow.MemoryStore.Invariant.{IsValid}
use job_processing_workflow.MemoryStore.Invariant.Update.{IsValid-update}
use job_processing_workflow.MemoryStore.Invariant.Operations.{guarded_cases}

-- The two ids are those of one outbox row, as in every call that the dispatcher makes.
abbrev pub IsRow : InMemoryStore → ℕ → ℕ → Type 0
IsRow s row k = (msg : OutboxMessage) × (lookup row s.outbox ≡ some msg) × (msg.job_id ≡ k)

module _ (s : InMemoryStore) (row k : ℕ) (is_row : IsRow s row k) where
  add_keeps :
      (other : ℕ) (msg : OutboxMessage)
      → lookup other s.outbox ≡ some msg
      → msg.job_id ≢ k
      → contains other s.published ≡ false
      → contains other (add row s.published) ≡ false
  add_keeps other msg found elsewhere h = elim (Bool-cases (nat_eq row other)) [
    | inl same ↦
        let (own, own_found, points) = is_row in
        absurd (elsewhere (ground (arith, own_found, points)))
    | inr apart ↦ ground (arith, contains-add row other s.published)
  ]

  add_fresh :
      IsValid s → (other : ℕ) → s.next_outbox ≤ other → contains other (add row s.published) ≡ false
  add_fresh v other h =
      let (own, found, _) = is_row in
      ground (
        arith,
        contains-add row other s.published,
        v.rows_below row own found,
        v.unpublished_above other h,
      )

  -- Publishing a row leaves the invariant, unless its job is still queued.
  IsValid-publish :
      ((job : Job) → lookup k s.jobs ≡ some job → job.status ≢ queued)
      → IsValid s
      → IsValid (record s { published = add row s.published })
  IsValid-publish idle v = record {
    one_active = v.one_active;
    job_ids = v.job_ids;
    distinct_jobs = v.distinct_jobs;
    rows_below = v.rows_below;
    unpublished_above = add_fresh v;
    distinct_rows = v.distinct_rows;
    routed = v.routed;
    covered = λ j job found.
        let m = v.covered j job found in
        record {
          row = m.row;
          msg = m.msg;
          found = m.found;
          points = m.points;
          envelope = m.envelope;
          waiting = λ q.
              add_keeps m.row m.msg m.found
                (λ same. idle job (ground (arith, same, m.points, found)) q) (m.waiting q);
        };
  }

  pub mark_dispatched-IsValid : (now : Time) → IsValid s → IsValid (mark_dispatched now row k s)
  unfolding mark_dispatched
  mark_dispatched-IsValid now v =
      elim (guarded_cases is_queued (set_status dispatched now) k
        (record s { published = add row s.published })) [
          | inl (job, found, passes, e) ↦
              rw (e, mark_dispatched)
                (IsValid-update s k (set_status dispatched now) (add row s.published) job found
                  (record { same_id = refl; same_type = refl; activates_none = λ _. ground arith })
                  add_keeps (add_fresh v) (λ m q. cc) v)
          | inr (e, fails) ↦
              rw (e, mark_dispatched)
                (IsValid-publish (λ job found q. ground (arith, fails job found)) v)
        ]

rearm_keeps :
    (k row : ℕ) (rows : Dict ℕ OutboxMessage) (published : List ℕ)
    → contains row published ≡ false
    → contains row (rearm k rows published) ≡ false
rearm_keeps k row [] published h = h
rearm_keeps k row ((i, msg) ∷ rows) published h =
    rearm_keeps k row rows (if nat_eq msg.job_id k then discard i published else published)
      (ground (arith, contains-discard i row published))

-- Every row of the job is publishable afterwards.
rearm_own :
    (k row : ℕ) (msg : OutboxMessage) (rows : Dict ℕ OutboxMessage) (published : List ℕ)
    → lookup row rows ≡ some msg
    → msg.job_id ≡ k
    → contains row (rearm k rows published) ≡ false
rearm_own k row msg [] published found points = cc
rearm_own k row msg ((i, m) ∷ rows) published found points = elim (Bool-cases (nat_eq i row)) [
  | inl here ↦
      rearm_keeps k row rows (if nat_eq m.job_id k then discard i published else published)
        (ground (arith, contains-discard i row published))
  | inr later ↦
      rearm_own k row msg rows (if nat_eq m.job_id k then discard i published else published)
        (ground arith) points
]

-- The job runs below its cap and is queued again with its rows, or nothing happens; then the job
-- is missing, does not run, or has reached the cap.
pub requeue_cases :
    (now : Time) (k : ℕ) (s : InMemoryStore)
    → ((job : Job) × (lookup k s.jobs ≡ some job)
        × (job.status ≡ running)
        × (leb (max_attempts s.type_config job.job_type) job.attempts ≡ false)
        × (requeue_stuck now k s ≡ (
          record s {
            jobs = adjust k (requeue now) s.jobs;
            published = rearm k s.outbox s.published;
          },
          true,
        )))
      ⊎ (requeue_stuck now k s ≡ (s, false))
        × ((job : Job)
            → lookup k s.jobs ≡ some job
            → job.status ≡ running
            → leb (max_attempts s.type_config job.job_type) job.attempts ≡ true)
unfolding requeue_stuck
requeue_cases now k s = elim (Option-cases (lookup k s.jobs)) [
  | inl missing ↦ inr (ground arith, λ job h. cc)
  | inr (job, found) ↦ elim (Bool-cases (is_running job.status)) [
    | inr idle ↦ inr (ground arith, λ other h runs. ground arith)
    | inl runs ↦ elim (Bool-cases (leb (max_attempts s.type_config job.job_type) job.attempts)) [
      | inl capped ↦ inr (ground arith, λ other h _. ground arith)
      | inr under ↦ inl (job, found, ground arith, under, ground arith)
    ]
  ]
]

pub requeue_stuck-IsValid :
    (now : Time) (k : ℕ) (s : InMemoryStore) → IsValid s → IsValid (requeue_stuck now k s).0
requeue_stuck-IsValid now k s v = elim (requeue_cases now k s) [
  | inl (job, found, runs, under, e) ↦ rw e (
      IsValid-update s k (requeue now) (rearm k s.outbox s.published) job found
        (record { same_id = refl; same_type = refl; activates_none = λ _. ground arith })
        (λ row msg _ _ h. rearm_keeps k row s.outbox s.published h)
        (λ row h. rearm_keeps k row s.outbox s.published (v.unpublished_above row h))
        (λ m q. rearm_own k m.row m.msg s.outbox s.published m.found m.points) v)
  | inr (e, _) ↦ rw e v
]
