-- ===== src/ApiV2/Requests.antt =====
-- A request through its dependencies to its route: handlerAPIv2/routes.py with handlerAPIv2/deps.py.
use job_processing_workflow.Prelude.{
  ℕ, ◌≡◌, ◌≢◌, ◌⊎◌, refl, String, true, Option, none, some, [], arith, Bool-cases, inl, inr,
}
use job_processing_workflow.Models.{Job, Time}
use job_processing_workflow.Api.Keys.{JwksCache, Fetch, IsKeyed}
use job_processing_workflow.Api.Principal as V1
use job_processing_workflow.Api.Principal.{Claims}
use job_processing_workflow.Api.Config.{Oidc}
use job_processing_workflow.Api.Auth.{Jwt}
use job_processing_workflow.Api.Schemas.{CreateJobRequest, JobResponse}
use job_processing_workflow.Api.Routes.{Created, to_response}
use job_processing_workflow.ApiV2.{
  Principal, has_scope, to_principal, Raised, Result, returns, raises, FallibleStore, create_job,
  get_job, shown,
}
use job_processing_workflow.ApiV2.Config.{Scopes}
use job_processing_workflow.ApiV2.Auth.{
  get_principal, requires, require_write, require_read, Carries, get_principal-Agree,
}

-- What is left of the keys and the store, and the outcome.
pub record Served (K S A : Type 0) : Type 0 where
  pub cache : JwksCache K
  pub store : S
  pub outcome : Result A

Result-cases {ℓ} :
    {A : Type ℓ} (r : Result A) → ((e : Raised) × (r ≡ raises e)) ⊎ ((a : A) × (r ≡ returns a))
Result-cases (returns a) = inr (a, refl)
Result-cases (raises e) = inl (e, refl)

shown-returns :
    (k : ℕ) (found : Result (Option Job)) (r : JobResponse)
    → shown k found ≡ returns r
    → (job : Job) × (found ≡ returns (some job)) × (r ≡ to_response job)
shown-returns k (raises e) r h = cc
shown-returns k (returns none) r h = cc
shown-returns k (returns (some job)) r h = (job, refl, ground (arith, h))

module _ {K S : Type 0} (jwt : Jwt K) (oidc : Oidc) (settings : Scopes) (store : FallibleStore S)
    (now : ℕ) (first second : Fetch K) (authorization : Option String) where
  abbrev pub allowed : (Principal → Result Principal) → Result Principal → Result Principal
  allowed requires (raises e) = raises e
  allowed requires (returns p) = requires p

  abbrev pub routed :
      {A : Type 0}
      → (Principal → S → S × Result A)
      → JwksCache K
      → S
      → Result Principal
      → Served K S A
  routed route cache s (raises e) = record { cache = cache; store = s; outcome = raises e }
  routed route cache s (returns p) =
      let (s', outcome) = route p s in record { cache = cache; store = s'; outcome = outcome }

  -- POST /v1/jobs, with a body that is well formed.
  unfoldable pub post_job : Time → CreateJobRequest → JwksCache K → S → Served K S Created
  post_job t body cache s =
      let (cache', who) = get_principal jwt oidc now first second authorization cache in
      routed (create_job store t body) cache' s (allowed (require_write settings) who)

  -- GET /v1/jobs/{job_id}
  unfoldable pub read_job : Time → ℕ → JwksCache K → S → Served K S JobResponse
  read_job t job_id cache s =
      let (cache', who) = get_principal jwt oidc now first second authorization cache in
      routed (λ p. get_job store t job_id) cache' s (allowed (require_read settings) who)

  -- The request carries accepted claims, and these have the scope.
  pub record IsScoped (scope : String) : Type 0 where
    pub claims : Claims
    pub carries : Carries jwt oidc authorization claims
    pub in_scope : has_scope scope (to_principal claims) ≡ true

  module _ (cache : JwksCache K) (s : S) (keyed : IsKeyed cache.keys) where
    abbrev who : Result Principal
    who = (get_principal jwt oidc now first second authorization cache).1

    -- The settings of handlerAPI play no part.
    abbrev any_settings : V1.Settings
    any_settings = record {
      scope_write = "";
      scope_read = "";
      scope_read_all = "";
      groups_claim = "";
      user_claims = [];
    }

    caller :
        (scope : String) (p : Principal) → allowed (requires scope) who ≡ returns p → IsScoped scope
    caller scope p e =
        elim (get_principal-Agree jwt oidc oidc refl any_settings now first second cache keyed
          authorization).same_outcome [
            | inl (raised, _, w) ↦ absurd (ground (arith, w, e))
            | inr (claims, carries, _, w) ↦
                elim (Bool-cases (has_scope scope (to_principal claims))) [
                  | inl ok ↦ record { claims = claims; carries = carries; in_scope = ok }
                  | inr lacks ↦ absurd (ground (arith, w, lacks, e))
                ]
          ]

    -- Whatever the store does: a request that creates a job, or changes the store in any way, carries
    -- accepted claims with the scope for writing.
    pub post_job-IsScoped :
        (t : Time) (body : CreateJobRequest)
        → ((post_job t body cache s).store ≢ s)
          ⊎ ((made : Created) × ((post_job t body cache s).outcome ≡ returns made))
        → IsScoped settings.scope_write
    unfolding post_job require_write
    post_job-IsScoped t body acts = elim (Result-cases (allowed (require_write settings) who)) [
      | inl (raised, w) ↦ elim acts [
        | inl changed ↦ absurd (changed (rw w refl))
        | inr (made, e) ↦ absurd (ground (arith, w, e))
      ]
      | inr (p, w) ↦ caller settings.scope_write p w
    ]

    -- A job is only shown where the request carries accepted claims with the scope for reading, and
    -- it is the job that the store gives.
    pub read_job-IsScoped :
        (t : Time) (k : ℕ) (r : JobResponse)
        → (read_job t k cache s).outcome ≡ returns r
        → IsScoped settings.scope_read
          × ((job : Job) × ((store.get_job t k s).1 ≡ returns (some job)) × (r ≡ to_response job))
    unfolding read_job require_read get_job
    read_job-IsScoped t k r e = elim (Result-cases (allowed (require_read settings) who)) [
      | inl (raised, w) ↦ absurd (ground (arith, w, e))
      | inr (p, w) ↦ (
        caller settings.scope_read p w,
        shown-returns k (store.get_job t k s).1 r (ground (arith, w, e)),
      )
    ]
