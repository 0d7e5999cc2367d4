-- ===== src/MemoryStore.antt =====
-- common/store.py, class InMemoryStore. A method takes the store, and `now` for each call of
-- `utcnow`; it returns the new store with its result.
pub mod Invariant
pub mod AsStore
pub mod Dedup
pub mod Steps
pub mod Unpublished
pub mod Lifecycle
pub mod Attempts
pub mod Claims
use job_processing_workflow.Prelude.{
  ℕ, ◌+◌, String, Bool, true, false, not, ◌&&◌, Option, none, some, List, [], ◌∷◌, ltb, leb, nat_eq,
  if◌then◌else◌, ◌==◌, text_key, nat_key, any, select, take, length, ◌-◌, contains, add, discard,
  Dict, values, lookup, insert, adjust, overlay,
}
use mathlib.Core.Option.{get_or}
use job_processing_workflow.Models.{
  ℤ, pos, negsuc, Payload, JobStatus, queued, dispatched, running, completed, failed, is_active,
  is_queued, is_running, Time, Creator, Job, OutboxMessage, StuckJob, build_envelope,
}

pub record TypeConfig : Type 0 where
  pub run_timeout : Time
  pub max_attempts : ℕ
  pub payload : Payload

pub record InMemoryStore : Type 0 where
  pub jobs : Dict ℕ Job
  pub outbox : Dict ℕ OutboxMessage
  -- The set of the ids of published outbox rows.
  pub published : List ℕ
  pub type_config : Dict String TypeConfig
  -- What the two `itertools.count` objects return next.
  pub next_job : ℕ
  pub next_outbox : ℕ

-- 15 minutes.
abbrev pub default_run_timeout : Time
default_run_timeout = 900_000_000

abbrev pub default_max_attempts : ℕ
default_max_attempts = 3

abbrev pub empty_store : InMemoryStore
empty_store = record {
  jobs = [];
  outbox = [];
  published = [];
  type_config = [];
  next_job = 1;
  next_outbox = 1;
}

unfoldable pub set_type_config : String → Time → ℕ → Option Payload → InMemoryStore → InMemoryStore
set_type_config job_type run_timeout max_attempts payload s = record s {
  type_config =
      insert job_type
        (record {
          run_timeout = run_timeout;
          max_attempts = max_attempts;
          payload = get_or payload [];
        })
        s.type_config;
}

abbrev pub timeout : Dict String TypeConfig → String → Time
timeout config job_type = elim (lookup job_type config) [
  | none ↦ default_run_timeout
  | some cfg ↦ cfg.run_timeout
]

abbrev pub max_attempts : Dict String TypeConfig → String → ℕ
max_attempts config job_type = elim (lookup job_type config) [
  | none ↦ default_max_attempts
  | some cfg ↦ cfg.max_attempts
]

abbrev pub is_active_of : String → Job → Bool
is_active_of job_type j = j.job_type == job_type && is_active j.status

unfoldable pub active : String → InMemoryStore → Bool
active job_type s = any (is_active_of job_type) (values s.jobs)

-- `created` and `updated` are the readings by which `Job` fills its two time fields.
abbrev pub new_job : ℕ → String → Option Payload → Option Creator → (created updated : Time) → Job
new_job id job_type input_payload creator created updated = record {
  id = id;
  job_type = job_type;
  status = queued;
  input_payload = get_or input_payload [];
  payload = [];
  attempts = 0;
  created_at = created;
  updated_at = updated;
  created_by = creator;
}

abbrev pub new_message : ℕ → ℕ → String → OutboxMessage
new_message id job_id job_type = record {
  id = id;
  job_id = job_id;
  payload = build_envelope job_id job_type;
}

unfoldable pub enqueue :
    (created updated : Time)
    → String
    → Option Payload
    → Option Creator
    → InMemoryStore
    → InMemoryStore × Option ℕ
enqueue created updated job_type input_payload creator s =
    if active job_type s then (s, none) else (
      record s {
        jobs =
            insert s.next_job (new_job s.next_job job_type input_payload creator created updated)
              s.jobs;
        outbox = insert s.next_outbox (new_message s.next_outbox s.next_job job_type) s.outbox;
        next_job = s.next_job + 1;
        next_outbox = s.next_outbox + 1;
      },
      some s.next_job,
    )

-- `sorted(d.items())`, whose keys are distinct: insertion by key.
abbrev pub insert_sorted {ℓ} : {V : Type ℓ} → ℕ × V → List (ℕ × V) → List (ℕ × V)
insert_sorted x [] = x ∷ []
insert_sorted x (y ∷ ys) = if leb x.0 y.0 then x ∷ y ∷ ys else y ∷ insert_sorted x ys

abbrev pub sorted {ℓ} : {V : Type ℓ} → List (ℕ × V) → List (ℕ × V)
sorted [] = []
sorted (x ∷ xs) = insert_sorted x (sorted xs)

-- `rows[:limit]`; a negative limit counts from the end.
abbrev pub slice_to {ℓ} : {A : Type ℓ} → ℤ → List A → List A
slice_to (pos n) rows = take n rows
slice_to (negsuc n) rows = take (length rows - (n + 1)) rows

unfoldable pub fetch_unpublished : ℤ → InMemoryStore → List OutboxMessage
fetch_unpublished limit s =
    slice_to limit (values (select (λ row. not (contains row.0 s.published)) (sorted s.outbox)))

abbrev pub set_status : JobStatus → Time → Job → Job
set_status status now job = record job { status = status; updated_at = now }

-- The shape of the guarded methods: `job = self._jobs.get(job_id)`; if there is one and its status
-- passes the test, it is updated and the answer is true, else nothing changes.
abbrev pub guarded_update :
    (JobStatus → Bool) → (Job → Job) → ℕ → InMemoryStore → InMemoryStore × Bool
guarded_update test update job_id s = elim (lookup job_id s.jobs) [
  | none ↦ (s, false)
  | some job ↦
      if test job.status
      then (record s { jobs = adjust job_id update s.jobs }, true)
      else (s, false)
]

unfoldable pub mark_dispatched : Time → ℕ → ℕ → InMemoryStore → InMemoryStore
mark_dispatched now outbox_id job_id s =
    (guarded_update is_queued (set_status dispatched now) job_id
      (record s { published = add outbox_id s.published })).0

abbrev pub is_claimable : JobStatus → Bool
is_claimable queued = true
is_claimable dispatched = true
is_claimable _ = false

unfoldable pub claim : Time → ℕ → InMemoryStore → InMemoryStore × Bool
claim now job_id s = guarded_update is_claimable (set_status running now) job_id s

abbrev pub snapshot : Payload → Time → Job → Job
snapshot base now job = record job { payload = overlay base job.input_payload; updated_at = now }

-- The configuration is that of the job's own type; the argument `job_type` is not read.
unfoldable pub resolve_payload : Time → ℕ → String → InMemoryStore → InMemoryStore × Option Payload
resolve_payload now job_id job_type s = elim (lookup job_id s.jobs) [
  | none ↦ (s, none)
  | some job ↦
      if is_running job.status
      then elim (lookup job.job_type s.type_config) [
        | none ↦ (s, none)
        | some cfg ↦ (
          record s { jobs = adjust job_id (snapshot cfg.payload now) s.jobs },
          some (overlay cfg.payload job.input_payload),
        )
      ]
      else (s, none)
]

abbrev pub terminal : JobStatus → Time → ℕ → InMemoryStore → InMemoryStore × Bool
terminal status now job_id s = guarded_update is_running (set_status status now) job_id s

unfoldable pub complete : Time → ℕ → InMemoryStore → InMemoryStore × Bool
complete now job_id s = terminal completed now job_id s

unfoldable pub fail : Time → ℕ → InMemoryStore → InMemoryStore × Bool
fail now job_id s = terminal failed now job_id s

-- `now - job.updated_at > timeout`, on times before and after `now` alike.
abbrev pub is_stuck : Time → Dict String TypeConfig → Job → Bool
is_stuck now config job =
    is_running job.status && ltb (timeout config job.job_type + job.updated_at) now

abbrev pub stuck_job : Job → StuckJob
stuck_job job = record { job_id = job.id; job_type = job.job_type; attempts = job.attempts }

abbrev pub stuck_of : Time → Dict String TypeConfig → List Job → List StuckJob
stuck_of now config [] = []
stuck_of now config (job ∷ jobs) =
    let rest = stuck_of now config jobs in
    if is_stuck now config job then stuck_job job ∷ rest else rest

unfoldable pub find_stuck : Time → InMemoryStore → List StuckJob
find_stuck now s = stuck_of now s.type_config (values s.jobs)

-- The loop that makes the messages of a job publishable again.
abbrev pub rearm : ℕ → Dict ℕ OutboxMessage → List ℕ → List ℕ
rearm job_id [] published = published
rearm job_id ((mid, msg) ∷ rows) published =
    rearm job_id rows (if nat_eq msg.job_id job_id then discard mid published else published)

abbrev pub requeue : Time → Job → Job
requeue now job = record job { status = queued; attempts = job.attempts + 1; updated_at = now }

unfoldable pub requeue_stuck : Time → ℕ → InMemoryStore → InMemoryStore × Bool
requeue_stuck now job_id s = elim (lookup job_id s.jobs) [
  | none ↦ (s, false)
  | some job ↦
      if not (is_running job.status)
      then (s, false)
      else if leb (max_attempts s.type_config job.job_type) job.attempts
      then (s, false)
      else (
        record s {
          jobs = adjust job_id (requeue now) s.jobs;
          published = rearm job_id s.outbox s.published;
        },
        true,
      )
]

unfoldable pub dead_letter : Time → ℕ → InMemoryStore → InMemoryStore × Bool
dead_letter now job_id s = guarded_update is_running (set_status failed now) job_id s

unfoldable pub get_job : ℕ → InMemoryStore → Option Job
get_job job_id s = lookup job_id s.jobs

-- What the caller of `resolve_payload` does when it changes the dictionary that it was given: the
-- stored job holds the same object.
unfoldable pub write_payload : ℕ → Payload → InMemoryStore → InMemoryStore
write_payload job_id payload s = record s {
  jobs = adjust job_id (λ job. record job { payload = payload }) s.jobs;
}
