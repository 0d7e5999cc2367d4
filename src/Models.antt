-- ===== src/Models.antt =====
-- common/models.py: the job, its statuses, the outbox message and the envelope.
mod Json
pub use Json.{
  ℤ, pos, negsuc, Value, null, boolean, integer, float, text, array, object, Elements, no_element,
  element, Members, no_member, member, Payload,
}
use job_processing_workflow.Prelude.{
  ℕ, String, Bool, true, false, Option, none, some, List, [], ◌∷◌, ◌+◌, ◌||◌,
}

-- `JobStatus`: the source's string constants.
pub data JobStatus : Type 0 where
  queued dispatched running completed failed : JobStatus

-- `status in JobStatus.ACTIVE`
abbrev pub is_active : JobStatus → Bool
is_active queued = true
is_active dispatched = true
is_active running = true
is_active completed = false
is_active failed = false

-- `status == JobStatus.QUEUED`, and so on for the tests that the stores make.
abbrev pub is_queued : JobStatus → Bool
is_queued queued = true
is_queued _ = false

abbrev pub is_running : JobStatus → Bool
is_running running = true
is_running _ = false

-- A point in time, or a length of time, in microseconds.
abbrev pub Time : Type 0
Time = ℕ

pub record Creator : Type 0 where
  pub sub : Option String
  pub type : Option String
  pub client_id : Option String

pub record Job : Type 0 where
  pub id : ℕ
  pub job_type : String
  pub status : JobStatus
  pub input_payload : Payload
  pub payload : Payload
  pub attempts : ℕ
  pub created_at : Time
  pub updated_at : Time
  pub created_by : Option Creator

-- The dictionary that `build_envelope` returns has these two keys and no other.
pub record Envelope : Type 0 where
  pub job_id : ℕ
  pub job_type : String

pub record OutboxMessage : Type 0 where
  pub id : ℕ
  pub job_id : ℕ
  pub payload : Envelope

pub record StuckJob : Type 0 where
  pub job_id : ℕ
  pub job_type : String
  pub attempts : ℕ

abbrev pub build_envelope : ℕ → String → Envelope
build_envelope job_id job_type = record { job_id = job_id; job_type = job_type }
