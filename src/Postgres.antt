-- ===== src/Postgres.antt =====
-- common/db.py, class PostgresStore, over the tables of migrations/. Each method is one transaction,
-- and `now` is its time. The tables list their rows as they were inserted; in which order a SELECT
-- without ORDER BY goes through them is up to the database.
pub mod View
pub mod Guards
pub mod Rows
pub mod Payloads
pub mod Normal
pub mod Writes
pub mod Inserts
pub mod Reads
pub mod Calls
pub mod Refinement
pub mod Runs
pub mod AsStore
pub mod Connect
use job_processing_workflow.Prelude.{
  ℕ, zero, suc, ◌+◌, String, Bool, true, false, not, ◌&&◌, Option, some, none, List, [], ◌∷◌, ◌++◌,
  map, ltb, nat_eq, if◌then◌else◌, ◌==◌, any, select, take, values, overlay, text_key,
}
use mathlib.Core.Option.{get_or}
use job_processing_workflow.Models.{
  Payload, JobStatus, queued, dispatched, running, completed, failed, is_active, is_queued,
  is_running, Time, Creator, Job, Envelope, OutboxMessage, StuckJob, build_envelope,
}
use job_processing_workflow.MemoryStore.{sorted, is_claimable}

-- A row of the table `jobs`.
pub record JobRow : Type 0 where
  pub id : ℕ
  pub job_type : String
  pub status : JobStatus
  pub input_payload : Payload
  pub payload : Payload
  pub attempts : ℕ
  pub created_at : Time
  pub updated_at : Time
  pub created_by_sub : Option String
  pub created_by_type : Option String
  pub created_by_client : Option String

-- A row of the table `outbox`.
pub record OutboxRow : Type 0 where
  pub id : ℕ
  pub job_id : ℕ
  pub payload : Envelope
  pub published_at : Option Time

-- A row of the table `job_type_config`.
pub record ConfigRow : Type 0 where
  pub job_type : String
  pub run_timeout : Time
  pub max_attempts : ℕ
  pub payload : Payload

-- The tables, and what the two identity columns give next.
pub record Tables : Type 0 where
  pub jobs : List JobRow
  pub outbox : List OutboxRow
  pub job_type_config : List ConfigRow
  pub next_job : ℕ
  pub next_outbox : ℕ

-- UPDATE ... SET change WHERE test, with the number of rows that it changes.
abbrev pub update_rows {ℓ} : {R : Type ℓ} → (R → Bool) → (R → R) → List R → List R
update_rows test change [] = []
update_rows test change (r ∷ rows) = (if test r then change r else r) ∷ update_rows test change rows

abbrev pub row_count {ℓ} : {R : Type ℓ} → (R → Bool) → List R → ℕ
row_count test [] = 0
row_count test (r ∷ rows) = (if test r then 1 else 0) + row_count test rows

-- The row of a type's configuration, if there is one.
abbrev pub config_of : String → List ConfigRow → Option ConfigRow
config_of t [] = none
config_of t (c ∷ rows) = if c.job_type == t then some c else config_of t rows

-- COALESCE(c.run_timeout, '15 minutes')
abbrev pub run_timeout_of : String → List ConfigRow → Time
run_timeout_of t rows = elim (config_of t rows) [ none ↦ 900_000_000 | some c ↦ c.run_timeout ]

-- COALESCE((SELECT max_attempts ...), 3)
abbrev pub max_attempts_of : String → List ConfigRow → ℕ
max_attempts_of t rows = elim (config_of t rows) [ none ↦ 3 | some c ↦ c.max_attempts ]

abbrev pub no_creator : Creator
no_creator = record { sub = none; type = none; client_id = none }

-- A JSONB column, of the database: what it holds of a payload that it takes, with keys in an order of
-- its own and numbers in another form, and `||`. A payload that it does not take is not modelled.
pub record Jsonb : Type 0 where
  pub store : Payload → Payload
  pub concat : Payload → Payload → Payload

-- What INSERT INTO jobs stores, with the defaults of the table.
abbrev pub inserted : ℕ → String → Payload → Creator → Time → JobRow
inserted id job_type input_payload creator now = record {
  id = id;
  job_type = job_type;
  status = queued;
  input_payload = input_payload;
  payload = [];
  attempts = 0;
  created_at = now;
  updated_at = now;
  created_by_sub = creator.sub;
  created_by_type = creator.type;
  created_by_client = creator.client_id;
}

-- The partial unique index `jobs_one_active_per_type`: a new queued row of this type conflicts.
abbrev pub conflicts : String → List JobRow → Bool
conflicts t rows = any (λ (r : JobRow). r.job_type == t && is_active r.status) rows

-- ON CONFLICT DO NOTHING still uses up an id.
unfoldable pub enqueue :
    Jsonb → Time → String → Option Payload → Option Creator → Tables → Tables × Option ℕ
enqueue jsonb now job_type input_payload creator t =
    if conflicts job_type t.jobs then (record t { next_job = t.next_job + 1 }, none) else (
      record t {
        jobs =
            t.jobs
            ++ inserted t.next_job job_type (jsonb.store (get_or input_payload []))
                (get_or creator no_creator) now
              ∷ [];
        outbox =
            t.outbox
            ++ record {
              id = t.next_outbox;
              job_id = t.next_job;
              payload = build_envelope t.next_job job_type;
              published_at = none;
            }
              ∷ [];
        next_job = t.next_job + 1;
        next_outbox = t.next_outbox + 1;
      },
      some t.next_job,
    )

abbrev pub is_null {ℓ} : {A : Type ℓ} → Option A → Bool
is_null none = true
is_null (some a) = false

abbrev pub keyed : OutboxRow → ℕ × OutboxMessage
keyed r = (r.id, record { id = r.id; job_id = r.job_id; payload = r.payload })

-- The lock of FOR UPDATE SKIP LOCKED ends with the statement's own transaction.
unfoldable pub fetch_unpublished : ℕ → Tables → List OutboxMessage
fetch_unpublished limit t =
    take limit
      (values (sorted (map keyed (select (λ (r : OutboxRow). is_null r.published_at) t.outbox))))

abbrev pub set_status : JobStatus → Time → JobRow → JobRow
set_status status now r = record r { status = status; updated_at = now }

-- WHERE id = k AND status ...
abbrev pub guard : (JobStatus → Bool) → ℕ → JobRow → Bool
guard test k r = nat_eq r.id k && test r.status

unfoldable pub mark_dispatched : Time → ℕ → ℕ → Tables → Tables
mark_dispatched now outbox_id job_id t = record t {
  outbox =
      update_rows (λ (r : OutboxRow). nat_eq r.id outbox_id)
        (λ (r : OutboxRow). record r { published_at = some now }) t.outbox;
  jobs = update_rows (guard is_queued job_id) (set_status dispatched now) t.jobs;
}

-- `_guarded_update`: one UPDATE of `jobs`, true if it changed one row.
abbrev pub guarded_update : (JobStatus → Bool) → (JobRow → JobRow) → ℕ → Tables → Tables × Bool
guarded_update test change k t = (
  record t { jobs = update_rows (guard test k) change t.jobs },
  nat_eq (row_count (guard test k) t.jobs) 1,
)

unfoldable pub claim : Time → ℕ → Tables → Tables × Bool
claim now job_id t = guarded_update is_claimable (set_status running now) job_id t

abbrev pub merge : Jsonb → Payload → Time → JobRow → JobRow
merge jsonb base now r = record r { payload = jsonb.concat base r.input_payload; updated_at = now }

-- The payload of the first row that is updated.
abbrev pub returning : (JobRow → Bool) → (JobRow → JobRow) → List JobRow → Option Payload
returning test change [] = none
returning test change (r ∷ rows) =
    if test r then some (change r).payload else returning test change rows

-- The configuration is that of the argument `job_type`.
unfoldable pub resolve_payload : Jsonb → Time → ℕ → String → Tables → Tables × Option Payload
resolve_payload jsonb now job_id job_type t = elim (config_of job_type t.job_type_config) [
  | none ↦ (t, none)
  | some c ↦ (
    record t { jobs = update_rows (guard is_running job_id) (merge jsonb c.payload now) t.jobs },
    returning (guard is_running job_id) (merge jsonb c.payload now) t.jobs,
  )
]

unfoldable pub complete : Time → ℕ → Tables → Tables × Bool
complete now job_id t = guarded_update is_running (set_status completed now) job_id t

unfoldable pub fail : Time → ℕ → Tables → Tables × Bool
fail now job_id t = guarded_update is_running (set_status failed now) job_id t

unfoldable pub dead_letter : Time → ℕ → Tables → Tables × Bool
dead_letter now job_id t = guarded_update is_running (set_status failed now) job_id t

-- updated_at < now() - timeout
abbrev pub stuck_row : Time → List ConfigRow → JobRow → Bool
stuck_row now config r =
    is_running r.status && ltb (run_timeout_of r.job_type config + r.updated_at) now

-- There is no ORDER BY: `scan` is the order in which the database goes through the rows.
unfoldable pub find_stuck : (scan : List JobRow → List JobRow) → Time → Tables → List StuckJob
find_stuck scan now t =
    map (λ (r : JobRow). record { job_id = r.id; job_type = r.job_type; attempts = r.attempts })
      (select (stuck_row now t.job_type_config) (scan t.jobs))

abbrev pub requeue : Time → JobRow → JobRow
requeue now r = record r { status = queued; attempts = r.attempts + 1; updated_at = now }

abbrev pub below_cap : List ConfigRow → ℕ → JobRow → Bool
below_cap config k r =
    nat_eq r.id k && (is_running r.status && ltb r.attempts (max_attempts_of r.job_type config))

unfoldable pub requeue_stuck : Time → ℕ → Tables → Tables × Bool
requeue_stuck now job_id t =
    let test = below_cap t.job_type_config job_id in
    let t' = record t { jobs = update_rows test (requeue now) t.jobs } in
    if nat_eq (row_count test t.jobs) 1
    then (
      record t' {
        outbox =
            update_rows (λ (r : OutboxRow). nat_eq r.job_id job_id)
              (λ (r : OutboxRow). record r { published_at = none }) t.outbox;
      },
      true,
    )
    else (t', false)

abbrev pub to_job : JobRow → Job
to_job r = record {
  id = r.id;
  job_type = r.job_type;
  status = r.status;
  input_payload = r.input_payload;
  payload = r.payload;
  attempts = r.attempts;
  created_at = r.created_at;
  updated_at = r.updated_at;
  created_by = some (record {
    sub = r.created_by_sub;
    type = r.created_by_type;
    client_id = r.created_by_client;
  });
}

abbrev pub find_row : ℕ → List JobRow → Option Job
find_row k [] = none
find_row k (r ∷ rows) = if nat_eq r.id k then some (to_job r) else find_row k rows

unfoldable pub get_job : ℕ → Tables → Option Job
get_job job_id t = find_row job_id t.jobs
