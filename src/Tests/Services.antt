-- ===== src/Tests/Services.antt =====
-- Version 2 of the service, the middleware and the registry of handlers, at concrete inputs.
use job_processing_workflow.Prelude.{
  ℕ, Bool, false, inl, inr, Bool-cases, if◌then◌else◌, suc, refl, none, [], ◌∷◌, ltb,
}
use job_processing_workflow.Models.{Time}
use job_processing_workflow.MemoryStore.{InMemoryStore, empty_store}
use job_processing_workflow.MemoryStore.AsStore.{in_memory}
use job_processing_workflow.Api.Principal.{Claims, Settings, text}
use job_processing_workflow.Api.Schemas.{CreateJobRequest}
use job_processing_workflow.ApiV2.{
  Result, returns, raises, circuit_open, to_principal, create_job, get_job, readyz,
}
use job_processing_workflow.ApiV2.Breaker.{
  Breaker, BreakerLaws, Passes, Guarded, guarded, FailsFast, guarded-FailsFast, guarded-Follows,
}
use job_processing_workflow.ApiV2.Versions.{never_raises}

abbrev settings : Settings
settings = record {
  scope_write = "jobs.write";
  scope_read = "jobs.read";
  scope_read_all = "jobs.read.all";
  groups_claim = "groups";
  user_claims = "email" ∷ [];
}

abbrev claims : Claims
claims = ("client_id", text "robot") ∷ ("scope", text "jobs.read jobs.write") ∷ []

abbrev hello : CreateJobRequest
hello = record { job_type = "hello"; payload = none }

-- A breaker that counts failures, and refuses calls from the second on.
abbrev settle : {A : Type 0} → ℕ → InMemoryStore × Result A → Guarded ℕ InMemoryStore × Result A
settle n (s, returns a) = (record { breaker = 0; inner = s }, returns a)
settle n (s, raises e) =
    (record { breaker = suc n; inner = s }, raises (if ltb 0 n then circuit_open else e))

abbrev call_counted :
    {A : Type 0}
    → (InMemoryStore → InMemoryStore × Result A)
    → Guarded ℕ InMemoryStore
    → Guarded ℕ InMemoryStore × Result A
call_counted f g =
    let done = settle g.breaker (f g.inner) in
    if ltb g.breaker 2 then done else (g, raises circuit_open)

abbrev counting : Breaker ℕ InMemoryStore
counting = record { call = λ now f g. call_counted f g }

abbrev admits : Time → ℕ → Bool
admits now n = ltb n 2

abbrev opens : Time → ℕ → Bool
opens now n = ltb 0 n

settle-Passes :
    {A : Type 0} (n : ℕ) (r : InMemoryStore × Result A) → Passes (ltb 0 n) (settle n r) r
settle-Passes n (s, returns a) = record { inner = refl; answer = inl refl }
settle-Passes n (s, raises e) = elim (Bool-cases (ltb 0 n)) [
  | inl trips ↦ record { inner = refl; answer = inr (rw trips refl, trips, (e, refl)) }
  | inr holds ↦ record { inner = refl; answer = inl (rw holds refl) }
]

counting_laws : BreakerLaws counting admits opens
counting_laws = record {
  refuses = λ now f g refused. (rw refused refl, rw refused refl);
  passes = λ now f g admitted. rw admitted (settle-Passes g.breaker (f g.inner));
}

abbrev open_one : Guarded ℕ InMemoryStore
open_one = record { breaker = 2; inner = empty_store }

abbrev closed_one : Guarded ℕ InMemoryStore
closed_one = record { breaker = 0; inner = empty_store }

guarded-FailsFast_example :
    FailsFast open_one (
      create_job (guarded counting (never_raises in_memory)) 5 hello (to_principal claims) open_one)
    × FailsFast open_one (get_job (guarded counting (never_raises in_memory)) 5 1 open_one)
    × FailsFast open_one (readyz (guarded counting (never_raises in_memory)) 5 open_one)
guarded-FailsFast_example =
    guarded-FailsFast counting admits opens counting_laws (never_raises in_memory) 5 open_one hello
      (to_principal claims) 1 refl

guarded-Follows_example :
    Passes false
      (create_job
        (guarded counting (never_raises in_memory))
        5
        hello
        (to_principal claims)
        closed_one)
      (create_job (never_raises in_memory) 5 hello (to_principal claims) empty_store)
    × Passes false
        (get_job (guarded counting (never_raises in_memory)) 5 1 closed_one)
        (get_job (never_raises in_memory) 5 1 empty_store)
guarded-Follows_example =
    guarded-Follows counting admits opens counting_laws (never_raises in_memory) 5 closed_one hello
      (to_principal claims) 1 refl
