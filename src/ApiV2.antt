-- ===== src/ApiV2.antt =====
-- handlerAPIv2: the HTTP service between machines. Here are its principals, its errors, and its
-- routes, for any store whose calls may raise.
pub mod Config
pub mod Auth
pub mod Requests
pub mod App
pub mod Server
pub mod Middleware
pub mod Schemas
pub mod Discovery
pub mod Breaker
pub mod Versions
use job_processing_workflow.Prelude.{
  ℕ, ◌≡◌, refl, String, Bool, true, false, Option, some, none, List, [], ◌∷◌, Dict, lookup,
  text_key, decimal, if◌then◌else◌, Option-cases, inl, inr, arith,
}
use Prim.Native.String
use mathlib.Core.Option.{get_or}
use job_processing_workflow.Models.{Job, Creator, Time, Payload}
use job_processing_workflow.Api.{Response, handle as handle_v1}
use job_processing_workflow.Api as Api
use job_processing_workflow.Api.Principal as V1
use job_processing_workflow.Api.Principal.{
  Claims, is_in, extract_scopes, client_id_of, subject_of, printed_of, str_of,
}
use job_processing_workflow.Api.Schemas.{CreateJobRequest, JobResponse}
use job_processing_workflow.Api.Routes.{Created, created, to_response, probe}

pub record Principal : Type 0 where
  pub subject : String
  pub client_id : Option String
  pub scopes : List String

abbrev pub has_scope : String → Principal → Bool
has_scope scope p = is_in scope p.scopes

abbrev pub to_creator : Principal → Creator
to_creator p = record { sub = some p.subject; type = some "service"; client_id = p.client_id }

unfoldable pub to_principal : Claims → Principal
to_principal claims = record {
  subject = str_of (subject_of claims);
  client_id = printed_of (client_id_of claims);
  scopes = extract_scopes claims;
}

-- Two of the parts of errors.py that are those of handlerAPI, line by line.
abbrev pub ProblemException : Type 0
ProblemException = Api.ProblemException

abbrev pub problem_response :
    ℕ → String → Option String → String → Option (Dict String String) → Response
problem_response status title detail path headers =
    Api.problem_response status title detail path headers

-- What errors.py has a handler for: `CircuitOpenError`, and what handlerAPI knows too.
pub data Raised : Type 0 where
  circuit_open : Raised
  known : Api.Raised → Raised

pub data Result {ℓ} (A : Type ℓ) : Type ℓ where
  returns : A → Result A
  raises : Raised → Result A

-- A result of handlerAPI among those of handlerAPIv2.
abbrev pub lift {ℓ} : {A : Type ℓ} → Api.Result A → Result A
lift (Api.returns a) = returns a
lift (Api.raises e) = raises (known e)

unfoldable pub handle : String → Raised → Response
handle path circuit_open =
    problem_response 503 "Service Unavailable" (some "datastore temporarily unavailable") path
      (some (("Retry-After", "30") ∷ []))
handle path (known (Api.problem e)) =
    problem_response e.status_code e.title e.detail path (some e.headers)
handle path (known (Api.http status detail headers)) =
    problem_response status "HTTP error" detail path headers
handle path (known (Api.validation errors)) =
    problem_response 422 "Request validation failed" (some errors) path none
handle path (known Api.unexpected) = problem_response 500 "Internal server error" none path none

-- The two methods of a store that this service calls.
pub record FallibleStore (S : Type 0) : Type 0 where
  pub enqueue : Time → String → Option Payload → Option Creator → S → S × Result (Option ℕ)
  pub get_job : Time → ℕ → S → S × Result (Option Job)

abbrev pub refused {ℓ} : {A : Type ℓ} → ℕ → String → String → Result A
refused status title detail = raises (
    known (
      Api.problem
        (record { status_code = status; title = title; detail = some detail; headers = [] })))

abbrev pub reply : String → Result (Option ℕ) → Result Created
reply job_type (raises e) = raises e
reply job_type (returns none) =
    refused 409 "Conflict"
      (String.◌++◌ "an active job of type '" (String.◌++◌ job_type "' already exists"))
reply job_type (returns (some job_id)) = returns (created job_id)

abbrev pub not_found {ℓ} : {A : Type ℓ} → ℕ → Result A
not_found job_id =
    refused 404 "Not Found" (String.◌++◌ "job " (String.◌++◌ (decimal job_id) " not found"))

abbrev pub shown : ℕ → Result (Option Job) → Result JobResponse
shown job_id (raises e) = raises e
shown job_id (returns none) = not_found job_id
shown job_id (returns (some job)) = returns (to_response job)

abbrev pub healthz : List (String × String)
healthz = probe "ok"

-- Any error of the store means that it cannot be reached.
abbrev pub ready : Result (Option Job) → Result (List (String × String))
ready (raises e) = refused 503 "Service Unavailable" "datastore not reachable"
ready (returns found) = returns (probe "ready")

module _ {S : Type 0} (store : FallibleStore S) where
  unfoldable pub create_job : Time → CreateJobRequest → Principal → S → S × Result Created
  create_job now body principal s =
      let (s', made) =
        store.enqueue now body.job_type (some (get_or body.payload []))
          (some (to_creator principal)) s in
      (s', reply body.job_type made)

  unfoldable pub get_job : Time → ℕ → S → S × Result JobResponse
  get_job now job_id s = let (s', found) = store.get_job now job_id s in (s', shown job_id found)

  unfoldable pub readyz : Time → S → S × Result (List (String × String))
  readyz now s = let (s', found) = store.get_job now 0 s in (s', ready found)

-- The status code of an answer; `success` is that of the route.
abbrev pub status_of {ℓ} : {A : Type ℓ} → (success : ℕ) → Result A → ℕ
status_of success (returns a) = success
status_of success (raises e) = (handle "" e).status_code
