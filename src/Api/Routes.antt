-- ===== src/Api/Routes.antt =====
-- handlerAPI/routes.py, for any store. A route takes what its dependencies give it: the principal
-- of require_write or require_read, the settings and the store.
pub mod Memory
pub mod Ownership
use job_processing_workflow.Prelude.{
  ℕ, String, Bool, true, false, not, ◌||◌, Option, some, none, List, [], ◌∷◌, decimal,
  if◌then◌else◌,
}
use Prim.Native.String
use mathlib.Core.Option.{get_or}
use job_processing_workflow.Models.{Job, Creator, Time, Payload}
use job_processing_workflow.Store.{Store}
use job_processing_workflow.Api.{Result, returns, raises, refused}
use job_processing_workflow.Api.Principal.{Principal, Settings, to_creator}
use job_processing_workflow.Api.Auth.{can_read_job_created_by}
use job_processing_workflow.Api.Schemas.{
  CreateJobRequest, CreateJobResponse, CreatedBy, JobResponse,
}

-- The answer to a created job: the body, and the header `Location`.
pub record Created : Type 0 where
  pub location : String
  pub body : CreateJobResponse

abbrev pub created : ℕ → Created
created job_id = record {
  location = String.◌++◌ "/v1/jobs/" (decimal job_id);
  body = record { job_id = job_id; status = "queued" };
}

abbrev pub conflict {ℓ} : {A : Type ℓ} → String → Result A
conflict job_type =
    refused 409 "Conflict"
      (String.◌++◌ "an active job of type '" (String.◌++◌ job_type "' already exists"))

abbrev pub not_found {ℓ} : {A : Type ℓ} → ℕ → Result A
not_found job_id =
    refused 404 "Not Found" (String.◌++◌ "job " (String.◌++◌ (decimal job_id) " not found"))

abbrev pub created_by_of : Option Creator → CreatedBy
created_by_of none = record { sub = none; type = none; client_id = none }
created_by_of (some c) = record { sub = c.sub; type = c.type; client_id = c.client_id }

abbrev pub to_response : Job → JobResponse
to_response job = record {
  id = job.id;
  job_type = job.job_type;
  status = job.status;
  input_payload = job.input_payload;
  payload = job.payload;
  attempts = job.attempts;
  created_at = job.created_at;
  updated_at = job.updated_at;
  created_by = created_by_of job.created_by;
}

abbrev pub creator_sub : Option Job → Option String
creator_sub none = none
creator_sub (some job) = elim job.created_by [ none ↦ none | some c ↦ c.sub ]

-- The answer that follows from what `enqueue` returns.
abbrev pub reply : String → Option ℕ → Result Created
reply job_type none = conflict job_type
reply job_type (some job_id) = returns (created job_id)

-- `get_job` from the job on that the store has given.
abbrev pub shown : ℕ → Principal → Settings → Option Job → Result JobResponse
shown job_id principal settings none = not_found job_id
shown job_id principal settings (some job) =
    if not (can_read_job_created_by principal settings (creator_sub (some job)))
    then not_found job_id
    else returns (to_response job)

-- `{"status": …}`, the answer of a probe.
abbrev pub probe : String → List (String × String)
probe status = ("status", status) ∷ []

abbrev pub healthz : List (String × String)
healthz = probe "ok"

-- Any exception means that the store cannot be reached.
abbrev pub ready : Result (Option Job) → Result (List (String × String))
ready (raises e) = refused 503 "Service Unavailable" "datastore not reachable"
ready (returns job) = returns (probe "ready")

-- `call` is `get_job` of a store that may raise.
unfoldable pub readyz :
    {S : Type 0} → (call : ℕ → S → Result (Option Job)) → S → Result (List (String × String))
readyz call s = ready (call 0 s)

module _ {S : Type 0} (store : Store S) where
  -- The two times are those that the store reads.
  unfoldable pub create_job :
      (created updated : Time) → CreateJobRequest → Principal → S → S × Result Created
  create_job c u body principal s =
      let (s', job_id) =
        store.enqueue c u body.job_type (some (get_or body.payload []))
          (some (to_creator principal)) s in
      (s', reply body.job_type job_id)

  unfoldable pub get_job : ℕ → Principal → Settings → S → Result JobResponse
  get_job job_id principal settings s = shown job_id principal settings (store.get_job job_id s)
