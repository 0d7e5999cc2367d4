-- ===== src/Handler/Cli/Memory.antt =====
-- handler/__main__.py over InMemoryStore: what the command does, and what it says.
use job_processing_workflow.Prelude.{
  ℕ, ◌≡◌, refl, ◌⊎◌, inl, inr, String, true, false, Option, some, none, List, [], ◌∷◌, arith,
  Option-cases,
}
use job_processing_workflow.Models.{Time, Payload}
use job_processing_workflow.MemoryStore.{InMemoryStore, get_job, new_job}
use job_processing_workflow.MemoryStore as MemoryStore
use job_processing_workflow.MemoryStore.AsStore.{in_memory}
use job_processing_workflow.MemoryStore.Invariant.{IsValid}
use job_processing_workflow.MemoryStore.Dedup.{Holds, enqueue-eq-none_iff, enqueue-get_job}
use job_processing_workflow.Service.{raised}
use job_processing_workflow.Handler.{enqueue}
use job_processing_workflow.Handler.Cli.{Reply, usage, told, payload_of, main}

module _ (loads : String → Option Payload) (created updated : Time) (s : InMemoryStore) where
  -- Without arguments the usage is printed; a payload that is no JSON raises; neither changes the
  -- store.
  pub record Refuses (argv : List String) (r : InMemoryStore × Reply) : Type 0 where
    pub same : r.0 ≡ s
    pub why :
        ((argv ≡ []) × (r.1 ≡ usage))
        ⊎ ((job_type : String) × (rest : List String) × (argv ≡ job_type ∷ rest)
            × (payload_of in_memory (λ t. t) loads rest ≡ none)
            × (r.1.exit ≡ raised))

  -- An active job of the type is there, and the store stays as it was.
  pub record Skips (argv : List String) (r : InMemoryStore × Reply) : Type 0 where
    pub same : r.0 ≡ s
    pub job_type : String
    pub first : (rest : List String) × (argv ≡ job_type ∷ rest)
    pub holds : Holds s.jobs job_type
    pub says : r.1 ≡ told job_type (record { job_id = none; enqueued = false })

  -- A job of the type has been made, with the payload as its input, under the id that is printed.
  pub record Enqueues (argv : List String) (r : InMemoryStore × Reply) : Type 0 where
    pub job_type : String
    pub rest : List String
    pub payload : Payload
    pub k : ℕ
    pub given : argv ≡ job_type ∷ rest
    pub read : payload_of in_memory (λ t. t) loads rest ≡ some payload
    pub fresh : get_job k s ≡ none
    pub stored : get_job k r.0 ≡ some (new_job k job_type (some payload) none created updated)
    pub says : r.1 ≡ told job_type (record { job_id = some k; enqueued = true })

  run_cases :
      IsValid s
      → (job_type : String) (rest : List String) (payload : Payload)
      → payload_of in_memory (λ t. t) loads rest ≡ some payload
      → let argv = job_type ∷ rest in
        let r = main in_memory (λ t. t) loads created updated argv s in
        Skips argv r ⊎ Enqueues argv r
  unfolding main enqueue
  run_cases v job_type rest payload read =
      let made = MemoryStore.enqueue created updated job_type (some payload) none s in
      elim (Option-cases made.1) [
        | inl declined ↦
            let (declines, unchanged) =
              enqueue-eq-none_iff created updated job_type (some payload) none s v in
            let held = declines.0 declined in
            let same = unchanged held in
            rw (main, read, declined)
              (inl (record {
                same = same;
                job_type = job_type;
                first = (rest, refl);
                holds = held;
                says = refl;
              }))
        | inr (k, accepted) ↦
            let (fresh, after) =
              enqueue-get_job created updated job_type (some payload) none s v k accepted in
            rw (main, read, accepted)
              (inr (record {
                job_type = job_type;
                rest = rest;
                payload = payload;
                k = k;
                given = refl;
                read = read;
                fresh = fresh;
                stored = ground (arith, after k);
                says = refl;
              }))
      ]

  -- The command without arguments, or with a payload that cannot be read, changes nothing and ends
  -- with exit code 2, or by an exception; else it makes a job, or finds an active one of the type and
  -- changes nothing, and says which.
  pub main_cases :
      IsValid s
      → (argv : List String)
      → let r = main in_memory (λ t. t) loads created updated argv s in
        Refuses argv r ⊎ (Skips argv r ⊎ Enqueues argv r)
  unfolding main
  main_cases v [] = inl (record { same = refl; why = inl (refl, refl) })
  main_cases v (job_type ∷ rest) = elim (Option-cases (payload_of in_memory (λ t. t) loads rest)) [
    | inl broken ↦
        rw (main, broken)
          (inl (record { same = refl; why = inr (job_type, rest, refl, broken, refl) }))
    | inr (payload, read) ↦ inr (run_cases v job_type rest payload read)
  ]
