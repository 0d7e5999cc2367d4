-- ===== src/Api.antt =====
-- handlerAPI: the HTTP service through which jobs are created and read, with errors.py here. A
-- function that may raise returns a `Result`.

pub mod Config
pub mod Principal
pub mod Keys
pub mod Auth
pub mod Discovery
pub mod App
pub mod Server
pub mod Schemas
pub mod Routes
pub mod Requests
pub mod Middleware
pub mod RateLimit
use job_processing_workflow.Prelude.{
  lookup, text_key, ℕ, ◌≡◌, refl, ◌⊎◌, inl, inr, String, Bool, Option, some, none, List, [], ◌∷◌,
  Dict, ◌==◌, if◌then◌else◌,
}
use job_processing_workflow.Models.{Value, integer, text, pos}

pub record ProblemException : Type 0 where
  pub status_code : ℕ
  pub title : String
  pub detail : Option String
  pub headers : Dict String String

-- What is raised in the path of a request: errors.py has a handler for each. `unexpected` is any
-- other exception.
pub data Raised : Type 0 where
  problem : ProblemException → Raised
  http : ℕ → Option String → Option (Dict String String) → Raised
  validation : String → Raised
  unexpected : Raised

pub data Result {ℓ} (A : Type ℓ) : Type ℓ where
  returns : A → Result A
  raises : Raised → Result A

pub Result-cases {ℓ} :
    {A : Type ℓ} (r : Result A) → ((e : Raised) × (r ≡ raises e)) ⊎ ((a : A) × (r ≡ returns a))
Result-cases (returns a) = inr (a, refl)
Result-cases (raises e) = inl (e, refl)

infixl 5 ◌>>=◌
abbrev pub ◌>>=◌ {ℓ κ} : {A : Type ℓ} {B : Type κ} → Result A → (A → Result B) → Result B
returns a >>= k = k a
raises e >>= k = raises e

pub record Response : Type 0 where
  pub status_code : ℕ
  pub content : Dict String Value
  pub media_type : String
  pub headers : Option (Dict String String)

abbrev pub detail_of : Option String → Dict String Value
detail_of none = []
detail_of (some d) = if d == "" then [] else ("detail", text d) ∷ []

-- `_problem`; the request gives its path.
abbrev pub problem_response :
    ℕ → String → Option String → String → Option (Dict String String) → Response
problem_response status title detail path headers = record {
  status_code = status;
  content =
      ("type", text "about:blank")
      ∷ ("title", text title)
      ∷ ("status", integer (pos status))
      ∷ ("instance", text path)
      ∷ detail_of detail;
  media_type = "application/problem+json";
  headers = headers;
}

-- The handlers that `register_error_handlers` registers.
unfoldable pub handle : String → Raised → Response
handle path (problem e) = problem_response e.status_code e.title e.detail path (some e.headers)
handle path (http status detail headers) = problem_response status "HTTP error" detail path headers
handle path (validation errors) =
    problem_response 422 "Request validation failed" (some errors) path none
handle path unexpected = problem_response 500 "Internal server error" none path none

abbrev pub bearer_challenge : Dict String String
bearer_challenge = ("WWW-Authenticate", "Bearer") ∷ []

abbrev pub denied : String → Raised
denied detail = problem (record {
  status_code = 401;
  title = "Unauthorized";
  detail = some detail;
  headers = bearer_challenge;
})

abbrev pub unauthorized {ℓ} : {A : Type ℓ} → String → Result A
unauthorized detail = raises (denied detail)

abbrev pub refused {ℓ} : {A : Type ℓ} → ℕ → String → String → Result A
refused status title detail =
    raises
      (problem (record { status_code = status; title = title; detail = some detail; headers = [] }))
