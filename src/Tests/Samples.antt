-- ===== src/Tests/Samples.antt =====
-- Stores that the components of the orchestrator produce from a few calls.
use job_processing_workflow.Prelude.{some, none, [], ◌∷◌, lookup, nat_key, ◌≡◌, refl}
use job_processing_workflow.Models.{Payload, text, Job, queued, running}
use job_processing_workflow.MemoryStore.{
  InMemoryStore, empty_store, set_type_config, enqueue, active, claim,
}
use job_processing_workflow.MemoryStore.Invariant.{IsValid}
use job_processing_workflow.MemoryStore.Invariant.Enqueue.{empty_store-IsValid}
use job_processing_workflow.MemoryStore.Steps.{
  Reach, here, next, configures, enqueues, claims, Reach-IsValid,
}

abbrev pub base : Payload
base = ("name", text "Ada") ∷ ("lang", text "en") ∷ []

abbrev pub input : Payload
input = ("name", text "Grace") ∷ []

-- A type with a timeout of one second and at most two attempts.
abbrev pub configured : InMemoryStore
configured = set_type_config "hello" 1_000_000 2 (some base) empty_store

-- One queued job.
abbrev pub waiting : InMemoryStore
waiting = (enqueue 10 10 "hello" (some input) none configured).0

-- The same job, claimed.
abbrev pub claimed : InMemoryStore
claimed = (claim 20 1 waiting).0

pub waiting-Reach : Reach empty_store waiting
waiting-Reach =
    next (next here (configures "hello" 1_000_000 2 (some base)))
      (enqueues 10 10 "hello" (some input) none)

pub claimed-Reach : Reach empty_store claimed
claimed-Reach = next waiting-Reach (claims 20 1)

pub waiting-IsValid : IsValid waiting
waiting-IsValid = Reach-IsValid empty_store-IsValid waiting-Reach

pub claimed-IsValid : IsValid claimed
claimed-IsValid = Reach-IsValid empty_store-IsValid claimed-Reach

abbrev pub waiting_job : Job
waiting_job = record {
  id = 1;
  job_type = "hello";
  status = queued;
  input_payload = input;
  payload = [];
  attempts = 0;
  created_at = 10;
  updated_at = 10;
  created_by = none;
}

abbrev pub claimed_job : Job
claimed_job = record waiting_job { status = running; updated_at = 20 }

pub waiting_found : lookup 1 waiting.jobs ≡ some waiting_job
unfolding set_type_config enqueue active
waiting_found = refl

pub claimed_found : lookup 1 claimed.jobs ≡ some claimed_job
unfolding set_type_config enqueue active claim
claimed_found = refl
