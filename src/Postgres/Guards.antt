-- ===== src/Postgres/Guards.antt =====
-- The guarded updates of common/db.py do what those of InMemoryStore do.
use job_processing_workflow.Prelude.{
  ℕ, ◌≡◌, refl, sym, subst, Bool, true, false, some, none, List, Dict, lookup, adjust, nat_key,
  HasDistinctKeys, arith, Bool-cases, Option-cases, inl, inr, ◌∙◌, text_key,
}
use job_processing_workflow.Models.{Job, JobStatus, Time}
use job_processing_workflow.MemoryStore as Memory
use job_processing_workflow.MemoryStore.{InMemoryStore, TypeConfig}
use job_processing_workflow.Postgres as Postgres
use job_processing_workflow.Postgres.{JobRow, Tables, to_job, row_count, update_rows}
use job_processing_workflow.Postgres.View.{
  Rep, view_jobs, view-update, view-update_missing, row_count_found, row_count_missing,
}

-- Two results agree: the same answer, and tables that represent the store.
abbrev pub Agree {ℓ} : {A : Type ℓ} → Tables × A → InMemoryStore × A → Type ℓ
Agree a b = (a.1 ≡ b.1) × Rep a.0 b.0

module _ (t : Tables) (s : InMemoryStore) (rep : Rep t s) (d : HasDistinctKeys s.jobs) where
  pub distinct_view : HasDistinctKeys (view_jobs t.jobs)
  distinct_view = subst HasDistinctKeys (sym rep.jobs) d

  pub Rep-jobs :
      {rows : List JobRow} {jobs : Dict ℕ Job}
      → view_jobs rows ≡ jobs
      → Rep (record t { jobs = rows }) (record s { jobs = jobs })
  Rep-jobs e = record {
    jobs = e;
    outbox = rep.outbox;
    published = rep.published;
    config = rep.config;
  }

  module _ (test : JobStatus → Bool) (to : JobStatus) (now : Time) (k : ℕ) where
    abbrev p : Job → Bool
    p job = test job.status

    abbrev f : JobRow → JobRow
    f = Postgres.set_status to now

    abbrev g : Job → Job
    g = Memory.set_status to now

    pub guarded-Agree :
        Agree
          (Postgres.guarded_update test (Postgres.set_status to now) k t)
          (Memory.guarded_update test (Memory.set_status to now) k s)
    guarded-Agree = elim (Option-cases (lookup k (view_jobs t.jobs))) [
      | inl missing ↦
          let absent : lookup k s.jobs ≡ none = subst (λ d. lookup k d ≡ none) rep.jobs missing in
          let stays : Memory.guarded_update test (Memory.set_status to now) k s ≡ (s, false) =
            ground arith in
          rw stays (
            ground (arith, row_count_missing p k t.jobs missing),
            Rep-jobs
                (view-update_missing p f g k (λ r. refl) (λ r. refl) t.jobs missing ∙ rep.jobs),
          )
      | inr (job, found) ↦
          let there : lookup k s.jobs ≡ some job =
            subst (λ d. lookup k d ≡ some job) rep.jobs found in
          let counts = row_count_found p k t.jobs job distinct_view found in
          let views = view-update p f g k (λ r. refl) (λ r. refl) t.jobs job distinct_view found in
          elim (Bool-cases (test job.status)) [
            | inl passes ↦
                let moves : Memory.guarded_update test (Memory.set_status to now) k s
                    ≡ (record s { jobs = adjust k g s.jobs }, true) =
                  ground arith in
                rw moves
                  (ground (arith, counts), Rep-jobs (ground (arith, views, passes, rep.jobs)))
            | inr fails ↦
                let stays : Memory.guarded_update test (Memory.set_status to now) k s ≡ (s, false) =
                  ground arith in
                rw stays (ground (arith, counts), Rep-jobs (ground (arith, views, fails, rep.jobs)))
          ]
    ]
