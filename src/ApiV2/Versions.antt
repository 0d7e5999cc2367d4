-- ===== src/ApiV2/Versions.antt =====
-- handlerAPIv2 against handlerAPI, for a store that never raises.
use job_processing_workflow.Prelude.{
  ℕ, ◌≡◌, refl, String, false, Option, some, none, Option-cases, inl, inr,
}
use job_processing_workflow.Models.{Time}
use job_processing_workflow.Store.{Store}
use job_processing_workflow.Api.Principal as V1
use job_processing_workflow.Api.Principal.{Settings, Claims, is_user}
use job_processing_workflow.Api.Auth.{can_read_job_created_by}
use job_processing_workflow.Api.Routes as RoutesV1
use job_processing_workflow.Api.Schemas.{CreateJobRequest}
use job_processing_workflow.ApiV2.{
  to_creator, to_principal, returns, lift, FallibleStore, reply, create_job, get_job,
}

-- A store as this service sees it: `enqueue` has one reading of the clock.
abbrev pub never_raises : {S : Type 0} → Store S → FallibleStore S
never_raises store = record {
  enqueue = λ now job_type input creator s.
      let (s', k) = store.enqueue now now job_type input creator s in (s', returns k);
  get_job = λ now k s. (s, returns (store.get_job k s));
}

lift-reply :
    (job_type : String) (r : Option ℕ)
    → reply job_type (returns r) ≡ lift (RoutesV1.reply job_type r)
lift-reply job_type none = refl
lift-reply job_type (some k) = refl

module _ {S : Type 0} (store : Store S) (now : Time) (settings : Settings) (claims : Claims)
    (is_machine : is_user settings claims ≡ false) where
  same_creator : to_creator (to_principal claims) ≡ V1.to_creator (V1.to_principal settings claims)
  unfolding to_principal V1.to_principal
  same_creator = rw is_machine refl

  -- For the claims of a machine, the two services create a job alike: they leave the same store,
  -- and answer the same.
  pub create_job-lift :
      (body : CreateJobRequest) (s : S)
      → create_job (never_raises store) now body (to_principal claims) s ≡ (
        (RoutesV1.create_job store now now body (V1.to_principal settings claims) s).0,
        lift (RoutesV1.create_job store now now body (V1.to_principal settings claims) s).1,
      )
  unfolding create_job RoutesV1.create_job
  create_job-lift body s = rw (same_creator, lift-reply) refl

  -- For the claims of a machine, the two services show a job alike.
  pub get_job-lift :
      (k : ℕ) (s : S)
      → get_job (never_raises store) now k s
        ≡ (s, lift (RoutesV1.get_job store k (V1.to_principal settings claims) settings s))
  unfolding get_job RoutesV1.get_job can_read_job_created_by V1.to_principal
  get_job-lift k s = elim (Option-cases (store.get_job k s)) [
    | inl missing ↦ rw missing refl
    | inr (job, found) ↦ rw (found, is_machine) refl
  ]
