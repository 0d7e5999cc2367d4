-- ===== src/Postgres/Writes.antt =====
-- The writing methods of PostgresStore in common/db.py, one by one, against InMemoryStore.
use job_processing_workflow.Prelude.{
  ℕ, ◌≡◌, refl, sym, subst, Bool, true, false, ◌&&◌, String, some, none, List, nat_eq, ltb,
  if◌then◌else◌, Dict, lookup, adjust, nat_key, text_key, HasDistinctKeys, arith, Bool-cases,
  Option-cases, inl, inr, ◌∙◌, contains, contains-add, add,
}
use job_processing_workflow.Models.{
  Job, Time, is_running, is_queued, dispatched, running, completed, failed,
}
use job_processing_workflow.MemoryStore as Memory
use job_processing_workflow.MemoryStore.{InMemoryStore, max_attempts, rearm, active}
use job_processing_workflow.MemoryStore.Invariant.Publishing.{IsRow}
use job_processing_workflow.Postgres as Postgres
use job_processing_workflow.Postgres.{
  JobRow, OutboxRow, Tables, to_job, update_rows, row_count, max_attempts_of, below_cap, no_creator,
  conflicts, guard,
}
use job_processing_workflow.Postgres.View.{
  Rep, view_jobs, view_outbox, is_published, view-update, view-update_missing, row_count_found,
  row_count_missing,
}
use job_processing_workflow.Postgres.Guards.{Agree, distinct_view, Rep-jobs, guarded-Agree}
use job_processing_workflow.Postgres.Rows.{
  max_attempts-view, view_outbox-update, publish_row, is_published-publish_found, rearm_rows,
  contains-rearm_rows,
}

module _ (t : Tables) (s : InMemoryStore) (rep : Rep t s) (d : HasDistinctKeys s.jobs)
    (o : HasDistinctKeys s.outbox) (now : Time) (k : ℕ) where
  pub claim-Agree : Agree (Postgres.claim now k t) (Memory.claim now k s)
  unfolding Postgres.claim Memory.claim
  claim-Agree = guarded-Agree t s rep d Memory.is_claimable running now k

  pub complete-Agree : Agree (Postgres.complete now k t) (Memory.complete now k s)
  unfolding Postgres.complete Memory.complete
  complete-Agree = guarded-Agree t s rep d is_running completed now k

  pub fail-Agree : Agree (Postgres.fail now k t) (Memory.fail now k s)
  unfolding Postgres.fail Memory.fail
  fail-Agree = guarded-Agree t s rep d is_running failed now k

  pub dead_letter-Agree : Agree (Postgres.dead_letter now k t) (Memory.dead_letter now k s)
  unfolding Postgres.dead_letter Memory.dead_letter
  dead_letter-Agree = guarded-Agree t s rep d is_running failed now k

  pub Rep-mark_dispatched :
      (row : ℕ)
      → IsRow s row k
      → Rep (Postgres.mark_dispatched now row k t) (Memory.mark_dispatched now row k s)
  unfolding Postgres.mark_dispatched Memory.mark_dispatched
  Rep-mark_dispatched row (msg, found, points) =
      (guarded-Agree (record t { outbox = publish_row row now t.outbox })
        (record s { published = add row s.published }) published d is_queued dispatched now k).1
    where
      in_view : lookup row (view_outbox t.outbox) ≡ some msg
      in_view = subst (λ e. lookup row e ≡ some msg) (sym rep.outbox) found

      published :
          Rep
            (record t { outbox = publish_row row now t.outbox })
            (record s { published = add row s.published })
      published = record {
        jobs = rep.jobs;
        outbox = view_outbox-update (λ q. nat_eq q.id row) (some now) t.outbox ∙ rep.outbox;
        published = λ j. ground (
          arith,
          contains-add row j s.published,
          rep.published j,
          is_published-publish_found row j now t.outbox msg in_view,
        );
        config = rep.config;
      }

  abbrev p : Job → Bool
  p job = is_running job.status && ltb job.attempts (max_attempts_of job.job_type t.job_type_config)

  caps : (type : String) → max_attempts s.type_config type ≡ max_attempts_of type t.job_type_config
  caps type =
      subst (λ e. max_attempts e type ≡ max_attempts_of type t.job_type_config) rep.config
        (max_attempts-view type t.job_type_config)

  rearmed :
      (rows : List JobRow) (d : Dict ℕ Job)
      → view_jobs rows ≡ d
      → Rep
          (record t { jobs = rows; outbox = rearm_rows k t.outbox })
          (record s { jobs = d; published = rearm k s.outbox s.published })
  rearmed rows d h = record {
    jobs = h;
    outbox = view_outbox-update (λ q. nat_eq q.job_id k) none t.outbox ∙ rep.outbox;
    published = λ j.
        subst (λ o. contains j (rearm k o s.published) ≡ is_published j (rearm_rows k t.outbox))
          rep.outbox
          (contains-rearm_rows j k t.outbox s.published (subst HasDistinctKeys (sym rep.outbox) o)
            (rep.published j));
    config = rep.config;
  }

  requeue_not :
      row_count (below_cap t.job_type_config k) t.jobs ≡ 0
      → Postgres.requeue_stuck now k t ≡ (
        record t {
          jobs = update_rows (below_cap t.job_type_config k) (Postgres.requeue now) t.jobs;
        },
        false,
      )
  unfolding Postgres.requeue_stuck
  requeue_not h = ground (arith, h)

  requeue_one :
      row_count (below_cap t.job_type_config k) t.jobs ≡ 1
      → Postgres.requeue_stuck now k t ≡ (
        record t {
          jobs = update_rows (below_cap t.job_type_config k) (Postgres.requeue now) t.jobs;
          outbox = rearm_rows k t.outbox;
        },
        true,
      )
  unfolding Postgres.requeue_stuck
  requeue_one h = ground (arith, h)

  requeue_memory :
      (job : Job)
      → lookup k s.jobs ≡ some job
      → Memory.requeue_stuck now k s ≡ (
          if p job
          then (
            record s {
              jobs = adjust k (Memory.requeue now) s.jobs;
              published = rearm k s.outbox s.published;
            },
            true,
          )
          else (s, false))
  unfolding Memory.requeue_stuck
  requeue_memory job found = ground (arith, found, caps job.job_type)

  requeue_none : lookup k s.jobs ≡ none → Memory.requeue_stuck now k s ≡ (s, false)
  unfolding Memory.requeue_stuck
  requeue_none h = ground (arith, h)

  pub requeue_stuck-Agree : Agree (Postgres.requeue_stuck now k t) (Memory.requeue_stuck now k s)
  requeue_stuck-Agree = elim (Option-cases (lookup k (view_jobs t.jobs))) [
    | inl missing ↦
        let absent : lookup k s.jobs ≡ none = subst (λ e. lookup k e ≡ none) rep.jobs missing in
        rw (requeue_none absent, requeue_not (row_count_missing p k t.jobs missing))
          (
            refl,
            Rep-jobs t s rep d (
                view-update_missing p (Postgres.requeue now) (Memory.requeue now) k (λ r. refl)
                  (λ r. refl) t.jobs missing
                ∙ rep.jobs),
          )
    | inr (job, found) ↦
        let there : lookup k s.jobs ≡ some job =
          subst (λ e. lookup k e ≡ some job) rep.jobs found in
        let distinct = distinct_view t s rep d in
        let counts = row_count_found p k t.jobs job distinct found in
        let views =
          view-update p (Postgres.requeue now) (Memory.requeue now) k (λ r. refl) (λ r. refl) t.jobs
            job distinct found in
        rw (requeue_memory job there) (elim (Bool-cases (p job)) [
          | inl below ↦
              rw (below, requeue_one (ground (arith, counts)))
                (refl, rearmed _ _ (ground (arith, views, below, rep.jobs)))
          | inr capped ↦
              rw (capped, requeue_not (ground (arith, counts)))
                (refl, Rep-jobs t s rep d (ground (arith, views, capped, rep.jobs)))
        ])
  ]
