-- ===== src/Postgres/AsStore/Laws.antt =====
-- PostgresStore of common/db.py keeps the laws of the protocol, by what it shares with InMemoryStore.
use job_processing_workflow.Prelude.{
  ℕ, ◌≡◌, sym, nat_eq, refl, ap, ◌∙◌, String, Bool, Option, List, [], ◌∷◌, nat_key, if◌then◌else◌,
  contains, arith, Option-cases, inl, inr,
}
use job_processing_workflow.Models.{JobStatus, Time, is_queued, dispatched, is_running}
use job_processing_workflow.Store.Laws.{StoreLaws, sent}
use job_processing_workflow.MemoryStore as Memory
use job_processing_workflow.MemoryStore.{InMemoryStore}
use job_processing_workflow.MemoryStore.AsStore.Laws.{status_in, memory_sent_status, in_memory_laws}
use job_processing_workflow.Postgres as Postgres
use job_processing_workflow.Postgres.{Jsonb, Tables, JobRow, OutboxRow, update_rows, is_null}
use job_processing_workflow.Postgres.View.{Rep, view_jobs, view_outbox, view_config, is_published}
use job_processing_workflow.Postgres.Guards.{Agree, guarded-Agree}
use job_processing_workflow.Postgres.Writes.{
  claim-Agree, complete-Agree, fail-Agree, dead_letter-Agree, requeue_stuck-Agree,
}
use job_processing_workflow.Postgres.AsStore.{Database}
use job_processing_workflow.Postgres.AsStore.Protocol.{postgres}

abbrev published_ids : List OutboxRow → List ℕ
published_ids [] = []
published_ids (r ∷ rows) =
    if is_null r.published_at then published_ids rows else r.id ∷ published_ids rows

published_ids-is_published :
    (k : ℕ) (rows : List OutboxRow) → contains k (published_ids rows) ≡ is_published k rows
published_ids-is_published k [] = refl
published_ids-is_published k (r ∷ rows) = ground (arith, published_ids-is_published k rows)

-- The store that the tables represent.
abbrev as_store : Tables → InMemoryStore
as_store t = record {
  jobs = view_jobs t.jobs;
  outbox = view_outbox t.outbox;
  published = published_ids t.outbox;
  type_config = view_config t.job_type_config;
  next_job = t.next_job;
  next_outbox = t.next_outbox;
}

as_store-Rep : (t : Tables) → Rep t (as_store t)
as_store-Rep t = record {
  jobs = refl;
  outbox = refl;
  published = λ k. published_ids-is_published k t.outbox;
  config = refl;
}

abbrev pub status : Database → ℕ → Option JobStatus
status db k = status_in (view_jobs db.tables.jobs) k

status-Agree :
    {A : Type 0} (r : Tables × A) (m : InMemoryStore × A)
    → Agree r m
    → (j : ℕ) → status_in (view_jobs (r.0).jobs) j ≡ status_in (m.0).jobs j
status-Agree r m h j = ap (λ d. status_in d j) h.1.jobs

-- An update that keeps ids and statuses.
status-update :
    (test : JobRow → Bool) (f : JobRow → JobRow)
    → ((r : JobRow) → (f r).id ≡ r.id)
    → ((r : JobRow) → (f r).status ≡ r.status)
    → (rows : List JobRow) (j : ℕ)
    → status_in (view_jobs (update_rows test f rows)) j ≡ status_in (view_jobs rows) j
status-update test f same_id same_status [] j = refl
status-update test f same_id same_status (r ∷ rows) j =
    ground (arith, status-update test f same_id same_status rows j, same_id r, same_status r)

postgres_resolve_status :
    (jsonb : Jsonb) (now : Time) (k : ℕ) (type : String) (t : Tables) (j : ℕ)
    → status_in (view_jobs (Postgres.resolve_payload jsonb now k type t).0.jobs) j
      ≡ status_in (view_jobs t.jobs) j
unfolding Postgres.resolve_payload
postgres_resolve_status jsonb now k type t j =
    elim (Option-cases (Postgres.config_of type t.job_type_config)) [
      | inl missing ↦ ground (arith, missing)
      | inr (c, found) ↦
          let kept =
            status-update (Postgres.guard is_running k) (Postgres.merge jsonb c.payload now)
              (λ r. refl) (λ r. refl) t.jobs j in
          ground (arith, found, kept)
    ]

module _ (now : Time) (k : ℕ) (db : Database) where
  abbrev t : Tables
  t = db.tables

  Agree-claim : Agree (Postgres.claim now k t) (Memory.claim now k (as_store t))
  Agree-claim =
      claim-Agree t (as_store t) (as_store-Rep t) db.keys.distinct_jobs db.keys.distinct_rows now k

  mark_status :
      (row j : ℕ)
      → status_in (view_jobs (Postgres.mark_dispatched now row k t).jobs) j ≡ (
          if nat_eq k j
          then sent (status_in (view_jobs t.jobs) j)
          else status_in (view_jobs t.jobs) j)
  unfolding Postgres.mark_dispatched
  mark_status row j =
      status-Agree _ _
        (guarded-Agree t (as_store t) (as_store-Rep t) db.keys.distinct_jobs is_queued dispatched
          now k)
        j
      ∙ memory_sent_status now k (as_store t) j

  Agree-complete : Agree (Postgres.complete now k t) (Memory.complete now k (as_store t))
  Agree-complete =
      complete-Agree t (as_store t) (as_store-Rep t) db.keys.distinct_jobs db.keys.distinct_rows now
        k

  Agree-fail : Agree (Postgres.fail now k t) (Memory.fail now k (as_store t))
  Agree-fail =
      fail-Agree t (as_store t) (as_store-Rep t) db.keys.distinct_jobs db.keys.distinct_rows now k

  Agree-dead_letter : Agree (Postgres.dead_letter now k t) (Memory.dead_letter now k (as_store t))
  Agree-dead_letter =
      dead_letter-Agree t (as_store t) (as_store-Rep t) db.keys.distinct_jobs db.keys.distinct_rows
        now k

  Agree-requeue : Agree (Postgres.requeue_stuck now k t) (Memory.requeue_stuck now k (as_store t))
  Agree-requeue =
      requeue_stuck-Agree t (as_store t) (as_store-Rep t) db.keys.distinct_jobs
        db.keys.distinct_rows now k

-- Whatever form JSONB columns give to payloads, and in whatever order the database goes through
-- rows: PostgresStore, on tables that keep their primary keys, keeps the laws of the protocol: which
-- statuses claim, complete, fail and dead_letter accept, that requeue_stuck accepts running jobs only,
-- and what these methods, mark_dispatched and resolve_payload do to the status of every job.
pub postgres_laws :
    (jsonb : Jsonb) (scan : List JobRow → List JobRow) → StoreLaws (postgres jsonb scan) status
postgres_laws jsonb scan = record {
  mark_status = λ now row k db j. mark_status now k db row j;
  complete_won = λ now k db.
      (Agree-complete now k db).0 ∙ in_memory_laws.complete_won now k (as_store db.tables);
  fail_won =
      λ now k db. (Agree-fail now k db).0 ∙ in_memory_laws.fail_won now k (as_store db.tables);
  requeue_won = λ now k db h.
      in_memory_laws.requeue_won now k (as_store db.tables) (sym (Agree-requeue now k db).0 ∙ h);
  claim_won =
      λ now k db. (Agree-claim now k db).0 ∙ in_memory_laws.claim_won now k (as_store db.tables);
  claim_status = λ now k db j.
      status-Agree _ _ (Agree-claim now k db) j
      ∙ in_memory_laws.claim_status now k (as_store db.tables) j;
  resolve_status = λ now k type db j. postgres_resolve_status jsonb now k type db.tables j;
  write_status = λ k payload db j. refl;
  complete_status = λ now k db j.
      status-Agree _ _ (Agree-complete now k db) j
      ∙ in_memory_laws.complete_status now k (as_store db.tables) j;
  fail_status = λ now k db j.
      status-Agree _ _ (Agree-fail now k db) j
      ∙ in_memory_laws.fail_status now k (as_store db.tables) j;
  requeue_status = λ now k db j. rw (Agree-requeue now k db).0 (
      status-Agree _ _ (Agree-requeue now k db) j
      ∙ in_memory_laws.requeue_status now k (as_store db.tables) j);
  dead_letter_status = λ now k db j.
      status-Agree _ _ (Agree-dead_letter now k db) j
      ∙ in_memory_laws.dead_letter_status now k (as_store db.tables) j;
  dead_letter_won = λ now k db.
      (Agree-dead_letter now k db).0 ∙ in_memory_laws.dead_letter_won now k (as_store db.tables);
}
