-- ===== src/Api/Requests.antt =====
-- A request through its dependencies to its route: handlerAPI/routes.py with handlerAPI/deps.py.
use job_processing_workflow.Prelude.{
  ℕ, ◌≡◌, ◌≢◌, ◌⊎◌, refl, sym, ap, String, true, Option, some, arith, Bool-cases, inl, inr, ◌∙◌,
}
use job_processing_workflow.Models.{Job, Time}
use job_processing_workflow.Store.{Store}
use job_processing_workflow.Api.{Result, Result-cases, returns, raises}
use job_processing_workflow.Api.Keys.{JwksCache, Fetch, IsKeyed}
use job_processing_workflow.Api.Principal.{Principal, Settings, has_scope}
use job_processing_workflow.Api.Config.{Oidc}
use job_processing_workflow.Api.Auth.{
  Jwt, requires, get_principal, require_write, require_read, IsAuthentic, get_principal-IsAuthentic,
}
use job_processing_workflow.Api.Schemas.{CreateJobRequest, JobResponse}
use job_processing_workflow.Api.Routes.{Created, create_job, get_job}
use job_processing_workflow.Api.Routes.Ownership.{MayRead, get_job-returns_iff}

-- What is left of the keys and the store, and the outcome.
pub record Served (K S A : Type 0) : Type 0 where
  pub cache : JwksCache K
  pub store : S
  pub outcome : Result A

module _ {K S : Type 0} (jwt : Jwt K) (oidc : Oidc) (settings : Settings) (store : Store S)
    (now : ℕ) (first second : Fetch K) (authorization : Option String) where
  abbrev pub written :
      (c u : Time) → CreateJobRequest → JwksCache K → S → Result Principal → Served K S Created
  written c u body cache s (raises e) = record { cache = cache; store = s; outcome = raises e }
  written c u body cache s (returns p) =
      let (s', outcome) = create_job store c u body p s in
      record { cache = cache; store = s'; outcome = outcome }

  abbrev pub allowed : (Principal → Result Principal) → Result Principal → Result Principal
  allowed requires (raises e) = raises e
  allowed requires (returns p) = requires p

  -- POST /v1/jobs, with a body that is well formed.
  unfoldable pub post_job : (c u : Time) → CreateJobRequest → JwksCache K → S → Served K S Created
  post_job c u body cache s =
      let (cache', who) = get_principal jwt oidc settings now first second authorization cache in
      written c u body cache' s (allowed (require_write settings) who)

  abbrev pub read : ℕ → S → Result Principal → Result JobResponse
  read job_id s (raises e) = raises e
  read job_id s (returns p) = get_job store job_id p settings s

  -- GET /v1/jobs/{job_id}
  unfoldable pub read_job : ℕ → JwksCache K → S → JwksCache K × Result JobResponse
  read_job job_id cache s =
      let (cache', who) = get_principal jwt oidc settings now first second authorization cache in
      (cache', read job_id s (allowed (require_read settings) who))

  -- The caller is authentic, and its token has the scope.
  pub record IsAllowed (scope : String) (p : Principal) : Type 0 where
    pub authentic : IsAuthentic jwt oidc settings authorization p
    pub in_scope : has_scope scope p ≡ true

  module _ (cache : JwksCache K) (s : S) (keyed : IsKeyed cache.keys) where
    abbrev who : Result Principal
    who = (get_principal jwt oidc settings now first second authorization cache).1

    caller :
        (scope : String) (p : Principal)
        → allowed (requires scope) who ≡ returns p
        → IsAllowed scope p
    caller scope p e = elim (Result-cases who) [
      | inl (raised, w) ↦ absurd (ground (arith, w, e))
      | inr (q, w) ↦ elim (Bool-cases (has_scope scope q)) [
        | inl ok ↦
            let same : q ≡ p = ground (arith, w, ok, e) in
            record {
              authentic =
                  get_principal-IsAuthentic jwt oidc settings now first second cache keyed
                    authorization p (rw (sym same) w);
              in_scope = rw (sym same) ok;
            }
        | inr lacks ↦ absurd (ground (arith, w, lacks, e))
      ]
    ]

    writer :
        (p : Principal)
        → allowed (require_write settings) who ≡ returns p
        → IsAllowed settings.scope_write p
    unfolding require_write
    writer p e = caller settings.scope_write p e

    reader :
        (p : Principal)
        → allowed (require_read settings) who ≡ returns p
        → IsAllowed settings.scope_read p
    unfolding require_read
    reader p e = caller settings.scope_read p e

    -- A request that creates a job, or changes the store in any way, comes from an authentic caller
    -- whose token has the scope for writing.
    pub post_job-IsAllowed :
        (c u : Time) (body : CreateJobRequest)
        → ((post_job c u body cache s).store ≢ s)
          ⊎ ((made : Created) × ((post_job c u body cache s).outcome ≡ returns made))
        → (p : Principal) × IsAllowed settings.scope_write p
    unfolding post_job
    post_job-IsAllowed c u body acts = elim (Result-cases (allowed (require_write settings) who)) [
      | inl (raised, w) ↦ elim acts [
        | inl changed ↦ absurd (changed (rw w refl))
        | inr (made, e) ↦ absurd (ground (arith, w, e))
      ]
      | inr (p, w) ↦ (p, writer p w)
    ]

    -- A job is only shown to an authentic caller whose token has the scope for reading, and who is a
    -- service, holds the scope for all jobs, or has created the job.
    pub read_job-IsAllowed :
        (k : ℕ) (r : JobResponse)
        → (read_job k cache s).1 ≡ returns r
        → (p : Principal) × (job : Job) × IsAllowed settings.scope_read p
          × (store.get_job k s ≡ some job)
          × MayRead p settings job
    unfolding read_job
    read_job-IsAllowed k r e = elim (Result-cases (allowed (require_read settings) who)) [
      | inl (raised, w) ↦ absurd (ground (arith, w, e))
      | inr (p, w) ↦
          let (job, found, same, may) =
            ((get_job-returns_iff store k p settings s r).0).0 (sym (ap (read k s) w) ∙ e) in
          (p, job, reader p w, found, may)
    ]
