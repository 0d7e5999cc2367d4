-- ===== src/Postgres/Calls.antt =====
-- The writing calls of common/db.py and of InMemoryStore, with what they answer.
use job_processing_workflow.Prelude.{ℕ, ◌≡◌, Bool, String, Option, some, lookup, nat_key}
use mathlib.Core.Option
use job_processing_workflow.Models.{Job, Time, Payload, Creator}
use job_processing_workflow.MemoryStore as Memory
use job_processing_workflow.MemoryStore.{InMemoryStore, stuck_of, is_stuck, sorted}
use job_processing_workflow.MemoryStore.Invariant.Publishing.{IsRow}
use job_processing_workflow.Postgres as Postgres
use job_processing_workflow.Postgres.{
  Jsonb, JobRow, OutboxRow, ConfigRow, Tables, to_job, no_creator, find_row, keyed, is_null,
  stuck_row,
}
use job_processing_workflow.Postgres.View.{Rep}
use job_processing_workflow.Postgres.Normal.{normal}

-- A call of a method that writes.
pub data Call : Type 0 where
  enqueues : String → Option Payload → Option Creator → Call
  marks : ℕ → ℕ → Call
  claims completes fails requeues buries : ℕ → Call
  resolves : ℕ → String → Call

-- What a call answers.
pub data Answer : Type 0 where
  new_id : Option ℕ → Answer
  done : Answer
  changed : Bool → Answer
  effective : Option Payload → Answer

abbrev pub answer {ℓ ℓ'} : {S : Type ℓ} {A : Type ℓ'} → (A → Answer) → S × A → S × Answer
answer f r = (r.0, f r.1)

abbrev pub on_tables : Jsonb → Time → Call → Tables → Tables × Answer
on_tables jsonb now (enqueues type input creator) t =
    answer new_id (Postgres.enqueue jsonb now type input creator t)
on_tables jsonb now (marks row k) t = (Postgres.mark_dispatched now row k t, done)
on_tables jsonb now (claims k) t = answer changed (Postgres.claim now k t)
on_tables jsonb now (completes k) t = answer changed (Postgres.complete now k t)
on_tables jsonb now (fails k) t = answer changed (Postgres.fail now k t)
on_tables jsonb now (requeues k) t = answer changed (Postgres.requeue_stuck now k t)
on_tables jsonb now (buries k) t = answer changed (Postgres.dead_letter now k t)
on_tables jsonb now (resolves k type) t =
    answer effective (Postgres.resolve_payload jsonb now k type t)

-- The same call.
abbrev pub on_store : Time → Call → InMemoryStore → InMemoryStore × Answer
on_store now (enqueues type input creator) s =
    answer new_id (Memory.enqueue now now type input creator s)
on_store now (marks row k) s = (Memory.mark_dispatched now row k s, done)
on_store now (claims k) s = answer changed (Memory.claim now k s)
on_store now (completes k) s = answer changed (Memory.complete now k s)
on_store now (fails k) s = answer changed (Memory.fail now k s)
on_store now (requeues k) s = answer changed (Memory.requeue_stuck now k s)
on_store now (buries k) s = answer changed (Memory.dead_letter now k s)
on_store now (resolves k type) s = answer effective (Memory.resolve_payload now k type s)

-- What a caller keeps to: it marks outbox rows, and resolves a payload for the job's own type. For
-- a new job the two stores give the same next ids.
abbrev pub Fits : Call → Tables → InMemoryStore → Type 0
Fits (enqueues type input creator) t s = (s.next_job ≡ t.next_job) × (s.next_outbox ≡ t.next_outbox)
Fits (marks row k) t s = IsRow s row k
Fits (resolves k type) t s = (job : Job) → lookup k s.jobs ≡ some job → job.job_type ≡ type
Fits _ t s = Unit

-- The answer with the payload as a column gives it back.
abbrev pub normal_answer : Jsonb → Answer → Answer
normal_answer jsonb (effective payload) = effective (Option.map jsonb.store payload)
normal_answer jsonb (new_id k) = new_id k
normal_answer jsonb done = done
normal_answer jsonb (changed b) = changed b

module _ (jsonb : Jsonb) where
  -- The tables hold what a database keeps of the store.
  abbrev pub Represents : Tables → InMemoryStore → Type 0
  Represents t s = Rep t (normal jsonb s)

  -- Two results agree: the same answer, up to the form of a payload, and tables that represent the
  -- store.
  abbrev pub Agrees : Tables × Answer → InMemoryStore × Answer → Type 0
  Agrees a b = (a.1 ≡ normal_answer jsonb b.1) × Represents a.0 b.0
