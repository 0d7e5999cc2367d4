-- ===== src/Api/Routes/Ownership.antt =====
-- Who may read a job through handlerAPI/routes.py.
use job_processing_workflow.Prelude.{
  ℕ, ◌≡◌, ◌↔◌, ◌⊎◌, refl, true, some, arith, Bool-cases, Option-cases, inl, inr, eq_iff,
}
use job_processing_workflow.Models.{Job}
use job_processing_workflow.Store.{Store}
use job_processing_workflow.Api.{returns}
use job_processing_workflow.Api.Principal.{Principal, Settings, has_scope, is_service}
use job_processing_workflow.Api.Auth.{can_read_job_created_by}
use job_processing_workflow.Api.Schemas.{JobResponse}
use job_processing_workflow.Api.Routes.{get_job, not_found, to_response, creator_sub, shown}

-- A service, a holder of the scope for all jobs, or the creator of the job.
abbrev pub MayRead : Principal → Settings → Job → Type 0
MayRead p settings job =
    (is_service p ≡ true)
    ⊎ (has_scope settings.scope_read_all p ≡ true)
    ⊎ (creator_sub (some job) ≡ some p.subject)

can_read-MayRead :
    (p : Principal) (settings : Settings) (job : Job)
    → can_read_job_created_by p settings (creator_sub (some job)) ≡ true
    → MayRead p settings job
unfolding can_read_job_created_by
can_read-MayRead p settings job h = elim (Bool-cases (is_service p)) [
  | inl service ↦ inl service
  | inr person ↦ elim (Bool-cases (has_scope settings.scope_read_all p)) [
    | inl all ↦ inr (inl all)
    | inr own ↦ elim (Option-cases (creator_sub (some job))) [
      | inl unknown ↦ absurd (ground (arith, person, own, unknown, h))
      | inr (sub, known) ↦ inr (inr (ground (arith, person, own, known, h, eq_iff sub p.subject)))
    ]
  ]
]

MayRead-can_read :
    (p : Principal) (settings : Settings) (job : Job)
    → MayRead p settings job
    → can_read_job_created_by p settings (creator_sub (some job)) ≡ true
unfolding can_read_job_created_by
MayRead-can_read p settings job (inl service) = ground (arith, service)
MayRead-can_read p settings job (inr (inl all)) = ground (arith, all)
MayRead-can_read p settings job (inr (inr own)) = ground (arith, own, eq_iff p.subject p.subject)

module _ {S : Type 0} (store : Store S) (k : ℕ) (p : Principal) (settings : Settings) (s : S) where
  abbrev pub Readable : JobResponse → Type 0
  Readable r =
      (job : Job) × (store.get_job k s ≡ some job) × (r ≡ to_response job) × MayRead p settings job

  hidden : (job : Job) → ¬ MayRead p settings job → shown k p settings (some job) ≡ not_found k
  hidden job denied =
      elim (Bool-cases (can_read_job_created_by p settings (creator_sub (some job)))) [
        | inl may ↦ absurd (denied (can_read-MayRead p settings job may))
        | inr refused ↦ rw refused refl
      ]

  readable : (r : JobResponse) → shown k p settings (store.get_job k s) ≡ returns r → Readable r
  readable r e = elim (Option-cases (store.get_job k s)) [
    | inl missing ↦ absurd (ground (arith, missing, e))
    | inr (job, found) ↦
        elim (Bool-cases (can_read_job_created_by p settings (creator_sub (some job)))) [
          | inl may ↦
              (job, found, ground (arith, found, may, e), can_read-MayRead p settings job may)
          | inr denied ↦ absurd (ground (arith, found, denied, e))
        ]
  ]

  -- Whatever the store: a job is shown exactly when it exists and the caller is a service, holds the
  -- scope for all jobs, or has created it; in every other case the answer is the one for a job that
  -- does not exist.
  pub get_job-returns_iff :
      (r : JobResponse)
      → ((get_job store k p settings s ≡ returns r) ↔ Readable r)
        × ((get_job store k p settings s ≡ not_found k)
            ↔ ¬ ((job : Job) × (store.get_job k s ≡ some job) × MayRead p settings job))
  unfolding get_job
  get_job-returns_iff r = (
    (
      readable r,
      λ (job, found, same, may). rw (found, MayRead-can_read p settings job may, same) refl,
    ),
    (
      λ e (job, found, may). ground (arith, found, MayRead-can_read p settings job may, e),
      λ none_may. elim (Option-cases (store.get_job k s)) [
        | inl missing ↦ rw missing refl
        | inr (job, found) ↦ rw found (hidden job (λ may. none_may (job, found, may)))
      ],
    ),
  )
