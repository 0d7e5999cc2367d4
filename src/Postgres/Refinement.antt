-- ===== src/Postgres/Refinement.antt =====
-- PostgresStore of common/db.py as an implementation of what InMemoryStore of common/store.py does.
use job_processing_workflow.Prelude.{
  ℕ, ◌≡◌, refl, ap, sym, subst, none, Option-cases, inl, inr, HasDistinctKeys, String, Option, some,
  List, [], ◌∷◌, lookup, nat_key, arith, ◌∙◌, map, select, values, not, contains,
}
use mathlib.Core.Option
use mathlib.Core.List.{Permᴰ}
use mathlib.Core.List.Permᴰ
use job_processing_workflow.Models.{pos, Job, StuckJob, Time, Payload}
use job_processing_workflow.MemoryStore as Memory
use job_processing_workflow.MemoryStore.{InMemoryStore, stuck_of, is_stuck, sorted}
use job_processing_workflow.MemoryStore.Invariant.{IsValid}
use job_processing_workflow.MemoryStore.Invariant.Jobs.{lookup-insert_fresh}
use job_processing_workflow.Postgres as Postgres
use job_processing_workflow.Postgres.{
  Jsonb, JobRow, OutboxRow, ConfigRow, Tables, to_job, no_creator, find_row, keyed, is_null,
  stuck_row,
}
use job_processing_workflow.Postgres.View.{Rep, view_jobs, view_config}
use job_processing_workflow.Postgres.Guards.{Agree}
use job_processing_workflow.Postgres.Rows.{run_timeout-view}
use job_processing_workflow.Postgres.Writes.{
  claim-Agree, complete-Agree, fail-Agree, dead_letter-Agree, requeue_stuck-Agree,
  Rep-mark_dispatched,
}
use job_processing_workflow.Postgres.Payloads.{resolve_payload-Agree}
use job_processing_workflow.Postgres.Reads.{unpublished_rows, select-sorted, select-perm}
use job_processing_workflow.Postgres.Inserts.{enqueue-Agree}
use job_processing_workflow.Postgres.Normal.{
  JsonbLaws, map_values-HasDistinctKeys, lookup-map_values, normal_job, normal, back, found_normal,
  missing_normal, claim-Commutes, complete-Commutes, fail-Commutes, dead_letter-Commutes,
  mark_dispatched-normal,
}
use job_processing_workflow.Postgres.Normal.Calls.{stuck_of-normal, requeue_stuck-Commutes}
use job_processing_workflow.Postgres.Normal.Payloads.{enqueue-Commutes, resolve-Commutes}
use job_processing_workflow.Postgres.Calls.{
  Call, enqueues, marks, claims, completes, fails, requeues, buries, resolves, Answer, new_id,
  changed, effective, answer, on_tables, on_store, Fits, normal_answer, Represents, Agrees,
}

module _ (jsonb : Jsonb) where
  answer-Agrees :
      {A : Type 0} (g : A → Answer) (f : A → A)
      → ((a : A) → normal_answer jsonb (g a) ≡ g (f a))
      → (a : Tables × A) (m b : InMemoryStore × A) → Agree a m
      → m ≡ back jsonb f b
      → Agrees jsonb (answer g a) (answer g b)
  answer-Agrees g f same a m b h e =
      (ap g (h.0 ∙ ap (λ r. r.1) e) ∙ sym (same b.1), subst (Rep a.0) (ap (λ r. r.0) e) h.1)

module _ (jsonb : Jsonb) (laws : JsonbLaws jsonb) (now : Time) (t : Tables) (s : InMemoryStore)
    (rep : Represents jsonb t s) (v : IsValid s) where
  distinct : HasDistinctKeys (normal jsonb s).jobs
  distinct = map_values-HasDistinctKeys (normal_job jsonb) s.jobs v.distinct_jobs

  fresh_job : lookup s.next_job (normal jsonb s).jobs ≡ none
  fresh_job = missing_normal jsonb s.next_job s (lookup-insert_fresh s.next_job s.jobs v.job_ids)

  fresh_row : lookup s.next_outbox s.outbox ≡ none
  fresh_row = elim (Option-cases (lookup s.next_outbox s.outbox)) [
    | inl missing ↦ missing
    | inr (msg, found) ↦ ground (arith, v.rows_below s.next_outbox msg found)
  ]

  own_type :
      (k : ℕ) (type : String)
      → ((job : Job) → lookup k s.jobs ≡ some job → job.job_type ≡ type)
      → (job : Job) → lookup k (normal jsonb s).jobs ≡ some job
      → job.job_type ≡ type
  own_type k type own job there = elim (Option-cases (lookup k s.jobs)) [
    | inl missing ↦ absurd (ground (arith, missing_normal jsonb k s missing, there))
    | inr (stored, found) ↦
        let same : some (normal_job jsonb stored) ≡ some job =
          sym (found_normal jsonb k s stored found) ∙ there in
        ground (arith, own stored found, same)
  ]

  -- A call on tables that represent a well-formed store answers what the call on the store answers,
  -- and the tables it leaves represent the store that it leaves.
  pub on_tables-Agrees :
      (c : Call) → Fits c t s → Agrees jsonb (on_tables jsonb now c t) (on_store now c s)
  on_tables-Agrees (enqueues type input creator) h =
      answer-Agrees jsonb new_id (λ k. k) (λ k. refl) _ _ _
        (enqueue-Agree t (normal jsonb s) rep fresh_job fresh_row now type input creator jsonb h.0
          h.1)
        (enqueue-Commutes jsonb laws now type input creator s)
  on_tables-Agrees (marks row k) h = (
    refl,
    subst (Rep (Postgres.mark_dispatched now row k t)) (mark_dispatched-normal jsonb now row k s)
        (Rep-mark_dispatched t (normal jsonb s) rep distinct v.distinct_rows now k row h),
  )
  on_tables-Agrees (claims k) h =
      answer-Agrees jsonb changed (λ b. b) (λ b. refl) _ _ _
        (claim-Agree t (normal jsonb s) rep distinct v.distinct_rows now k)
        (claim-Commutes jsonb now k s)
  on_tables-Agrees (completes k) h =
      answer-Agrees jsonb changed (λ b. b) (λ b. refl) _ _ _
        (complete-Agree t (normal jsonb s) rep distinct v.distinct_rows now k)
        (complete-Commutes jsonb now k s)
  on_tables-Agrees (fails k) h =
      answer-Agrees jsonb changed (λ b. b) (λ b. refl) _ _ _
        (fail-Agree t (normal jsonb s) rep distinct v.distinct_rows now k)
        (fail-Commutes jsonb now k s)
  on_tables-Agrees (requeues k) h =
      answer-Agrees jsonb changed (λ b. b) (λ b. refl) _ _ _
        (requeue_stuck-Agree t (normal jsonb s) rep distinct v.distinct_rows now k)
        (requeue_stuck-Commutes jsonb now k s)
  on_tables-Agrees (buries k) h =
      answer-Agrees jsonb changed (λ b. b) (λ b. refl) _ _ _
        (dead_letter-Agree t (normal jsonb s) rep distinct v.distinct_rows now k)
        (dead_letter-Commutes jsonb now k s)
  on_tables-Agrees (resolves k type) h =
      answer-Agrees jsonb effective (λ (p : Option Payload). Option.map jsonb.store p) (λ p. refl) _
        _ _
        (resolve_payload-Agree t (normal jsonb s) rep distinct now k type jsonb (own_type k type h))
        (resolve-Commutes jsonb laws now k type s)

find_row-view : (k : ℕ) (rows : List JobRow) → find_row k rows ≡ lookup k (view_jobs rows)
find_row-view k [] = refl
find_row-view k (r ∷ rows) = ground (arith, find_row-view k rows)

abbrev stuck_of_row : JobRow → StuckJob
stuck_of_row r = record { job_id = r.id; job_type = r.job_type; attempts = r.attempts }

stuck-view :
    (now : Time) (config : List ConfigRow) (rows : List JobRow)
    → map
        (λ (r : JobRow). record { job_id = r.id; job_type = r.job_type; attempts = r.attempts })
        (select (stuck_row now config) rows)
      ≡ stuck_of now (view_config config) (values (view_jobs rows))
stuck-view now config [] = refl
stuck-view now config (r ∷ rows) =
    ground (arith, stuck-view now config rows, run_timeout-view r.job_type config)

-- The three reading methods on tables that represent a well-formed store, whatever the order in
-- which the database goes through the rows of `jobs`: get_job gives the job of the store, with the
-- creator and the payloads as the row holds them; find_stuck gives the same jobs, in some order;
-- fetch_unpublished gives the same messages, in the same order.
pub reads-eq :
    (jsonb : Jsonb) (scan : List JobRow → List JobRow)
    → ((rows : List JobRow) → Permᴰ (scan rows) rows)
    → (now : Time) (k limit : ℕ) (t : Tables) (s : InMemoryStore) → Represents jsonb t s
    → IsValid s
    → (Postgres.get_job k t ≡ Option.map (normal_job jsonb) (Memory.get_job k s))
      × Permᴰ (Postgres.find_stuck scan now t) (Memory.find_stuck now s)
      × (Postgres.fetch_unpublished limit t ≡ Memory.fetch_unpublished (pos limit) s)
unfolding Postgres.get_job Memory.get_job Postgres.find_stuck Memory.find_stuck
    Postgres.fetch_unpublished Memory.fetch_unpublished
reads-eq jsonb scan scans now k limit t s rep v = (
  find_row-view k t.jobs ∙ rw rep.jobs (lookup-map_values (normal_job jsonb) k s.jobs),
  subst (Permᴰ (Postgres.find_stuck scan now t))
      (stuck-view now t.job_type_config t.jobs
        ∙ rw (rep.jobs, rep.config) (stuck_of-normal jsonb now s.type_config s.jobs))
      (Permᴰ.map stuck_of_row (select-perm (stuck_row now t.job_type_config) (scans t.jobs))),
  rw
      (
        unpublished_rows s.published t.outbox (rw rep.outbox v.distinct_rows) rep.published,
        rep.outbox,
        select-sorted (λ row. not (contains row.0 s.published)) s.outbox,
      )
      refl,
)
