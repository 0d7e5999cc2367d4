-- ===== src/Postgres/Inserts.antt =====
-- `enqueue` of common/db.py against InMemoryStore: what it inserts.
use job_processing_workflow.Prelude.{
  ◌≡◌, refl, sym, true, false, String, Option, some, none, [], ◌∷◌, ◌++◌, ◌+◌, lookup, insert,
  nat_key, text_key, arith, Bool-cases, inl, inr, ◌∙◌,
}
use mathlib.Core.Option.{get_or}
use job_processing_workflow.Models.{build_envelope, Time, Payload, Creator}
use job_processing_workflow.MemoryStore as Memory
use job_processing_workflow.MemoryStore.{InMemoryStore, max_attempts, rearm, active}
use job_processing_workflow.Postgres as Postgres
use job_processing_workflow.Postgres.{
  Jsonb, JobRow, OutboxRow, Tables, to_job, update_rows, row_count, max_attempts_of, below_cap,
  no_creator, conflicts, guard,
}
use job_processing_workflow.Postgres.View.{Rep, view_jobs, view_outbox}
use job_processing_workflow.Postgres.Guards.{Agree}
use job_processing_workflow.Postgres.Rows.{
  conflicts-active, view_jobs-snoc, view_outbox-snoc, is_published-snoc,
}

module _ (t : Tables) (s : InMemoryStore) (rep : Rep t s)
    (fresh_job : lookup s.next_job s.jobs ≡ none) (fresh_row : lookup s.next_outbox s.outbox ≡ none)
    (now : Time) (type : String) (input : Option Payload) (creator : Option Creator) (jsonb : Jsonb)
    (same_job : s.next_job ≡ t.next_job) (same_row : s.next_outbox ≡ t.next_outbox) where
  same_test : active type s ≡ conflicts type t.jobs
  unfolding active
  same_test = ground (arith, conflicts-active type t.jobs, rep.jobs)

  abbrev who : Creator
  who = get_or creator no_creator

  abbrev stored : Payload
  stored = jsonb.store (get_or input [])

  abbrev new_row : JobRow
  new_row = Postgres.inserted t.next_job type stored who now

  abbrev new_message : OutboxRow
  new_message = record {
    id = t.next_outbox;
    job_id = t.next_job;
    payload = build_envelope t.next_job type;
    published_at = none;
  }

  abbrev after : Tables
  after = record t {
    jobs = t.jobs ++ new_row ∷ [];
    outbox = t.outbox ++ new_message ∷ [];
    next_job = t.next_job + 1;
    next_outbox = t.next_outbox + 1;
  }

  abbrev after_memory : InMemoryStore
  after_memory = record s {
    jobs =
        insert t.next_job (Memory.new_job t.next_job type (some stored) (some who) now now) s.jobs;
    outbox = insert t.next_outbox (Memory.new_message t.next_outbox t.next_job type) s.outbox;
    next_job = t.next_job + 1;
    next_outbox = t.next_outbox + 1;
  }

  new_id : lookup t.next_job (view_jobs t.jobs) ≡ none
  new_id = rw (rep.jobs, sym same_job) fresh_job

  new_row_id : lookup t.next_outbox (view_outbox t.outbox) ≡ none
  new_row_id = rw (rep.outbox, sym same_row) fresh_row

  Rep-after : Rep after after_memory
  Rep-after = record {
    jobs = view_jobs-snoc t.jobs new_row new_id ∙ rw rep.jobs refl;
    outbox = view_outbox-snoc t.outbox new_message new_row_id ∙ rw rep.outbox refl;
    published = λ j. rep.published j ∙ sym (is_published-snoc j t.outbox new_message refl);
    config = rep.config;
  }

  memory :
      conflicts type t.jobs ≡ false
      → Memory.enqueue now now type (some stored) (some who) s ≡ (after_memory, some t.next_job)
  unfolding Memory.enqueue
  memory h = rw (same_test, h, same_job, same_row) refl

  memory_declined :
      conflicts type t.jobs ≡ true
      → Memory.enqueue now now type (some stored) (some who) s ≡ (s, none)
  unfolding Memory.enqueue
  memory_declined h = rw (same_test, h) refl

  tables :
      conflicts type t.jobs ≡ false
      → Postgres.enqueue jsonb now type input creator t ≡ (after, some t.next_job)
  unfolding Postgres.enqueue
  tables h = ground (arith, h)

  tables_declined :
      conflicts type t.jobs ≡ true
      → Postgres.enqueue jsonb now type input creator t
        ≡ (record t { next_job = t.next_job + 1 }, none)
  unfolding Postgres.enqueue
  tables_declined h = ground (arith, h)

  pub enqueue-Agree :
      Agree
        (Postgres.enqueue jsonb now type input creator t)
        (Memory.enqueue now now type (some stored) (some who) s)
  enqueue-Agree = elim (Bool-cases (conflicts type t.jobs)) [
    | inl held ↦
        rw (memory_declined held, tables_declined held)
          (
            refl,
            record {
              jobs = rep.jobs;
              outbox = rep.outbox;
              published = rep.published;
              config = rep.config;
            },
          )
    | inr free ↦ rw (memory free, tables free) (refl, Rep-after)
  ]
