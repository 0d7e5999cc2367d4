-- ===== src/Worker/Memory.antt =====
-- worker/service.py over InMemoryStore: which payload the handler receives, and what is recorded.
use job_processing_workflow.Prelude.{
  ℕ, String, Bool, true, false, ◌≡◌, refl, some, arith, Bool-cases, inl, inr, lookup, adjust,
  lookup-adjust, nat_key, text_key, overlay, Option-cases, or_else, HasDistinctKeys, lookup-overlay,
}
use job_processing_workflow.Models as Models
use job_processing_workflow.Models.{
  Job, JobStatus, running, Time, Payload, Envelope, build_envelope,
}
use job_processing_workflow.MemoryStore.{
  InMemoryStore, TypeConfig, set_status, snapshot, is_claimable, claim, resolve_payload, complete,
  fail, write_payload, get_job,
}
use job_processing_workflow.MemoryStore.AsStore.{in_memory}
use job_processing_workflow.MemoryStore.Steps.{
  Reach, Reach-trans, here, next, claims, resolves, writes, completes, fails,
}
use job_processing_workflow.Worker.{Lookup, Handler, Outcome, completed, failed, run, process}

run-Reach :
    (now : Time) (k : ℕ) (p : Payload) (h : Handler) (s : InMemoryStore)
    → Reach s (run in_memory now k p h s).0
unfolding run
run-Reach now k p h s =
    let wrote = next here (writes k (h p).0) in
    elim (Bool-cases (h p).1) [
      | inl returns ↦ rw returns (next wrote (completes now k))
      | inr raises ↦ rw raises (next wrote (fails now k))
    ]

-- A run of the worker is a sequence of calls of the store's methods.
pub process-Reach :
    (clock : ℕ → Time) (handlers : Lookup) (e : Envelope) (s : InMemoryStore)
    → Reach s (process in_memory clock handlers e s).0
unfolding process
process-Reach clock handlers e s =
    let k = e.job_id in
    let s1 = (claim (clock 0) k s).0 in
    let s2 = (resolve_payload (clock 1) k e.job_type s1).0 in
    let first : Reach s s1 = next here (claims (clock 0) k) in
    let second : Reach s s2 = next first (resolves (clock 1) k e.job_type) in
    let failing = next second (fails (clock 2) k) in
    elim (Bool-cases (claim (clock 0) k s).1) [
      | inr lost ↦ rw lost first
      | inl won ↦ elim (Option-cases (resolve_payload (clock 1) k e.job_type s1).1) [
        | inl unset ↦ rw (won, unset) failing
        | inr (p, set) ↦ elim (Option-cases (handlers e.job_type)) [
          | inl unknown ↦ rw (won, set, unknown) failing
          | inr (h, known) ↦
              rw (won, set, known) (Reach-trans second (run-Reach (clock 2) k p h s2))
        ]
      ]
    ]

-- The status and the outcome after the handler has returned or raised.
abbrev pub result_status : Bool → JobStatus
result_status true = Models.completed
result_status false = Models.failed

abbrev pub result_outcome : Bool → Outcome
result_outcome true = completed
result_outcome false = failed

-- The stages of a run, each on a job that is found.
module _ (now : Time) (k : ℕ) (s : InMemoryStore) (job : Job)
    (found : lookup k s.jobs ≡ some job) where
  claim_found :
      is_claimable job.status ≡ true
      → ((claim now k s).1 ≡ true)
        × ((claim now k s).0.type_config ≡ s.type_config)
        × (lookup k (claim now k s).0.jobs ≡ some (set_status running now job))
  unfolding claim
  claim_found ok = ground (arith, lookup-adjust k k (set_status running now) s.jobs)

  resolve_found :
      (cfg : TypeConfig)
      → job.status ≡ running
      → lookup job.job_type s.type_config ≡ some cfg
      → let r = resolve_payload now k job.job_type s in
        (r.1 ≡ some (overlay cfg.payload job.input_payload))
        × (lookup k r.0.jobs ≡ some (snapshot cfg.payload now job))
  unfolding resolve_payload
  resolve_found cfg runs set = ground (arith, lookup-adjust k k (snapshot cfg.payload now) s.jobs)

  run_found :
      (p : Payload) (h : Handler)
      → job.status ≡ running
      → ((run in_memory now k p h s).1 ≡ result_outcome (h p).1)
        × (lookup k (run in_memory now k p h s).0.jobs
            ≡ some (record job {
              status = result_status (h p).1;
              payload = (h p).0;
              updated_at = now;
            }))
  unfolding run write_payload complete fail
  run_found p h runs =
      let set = λ (w : Job). record w { payload = (h p).0 } in
      let d = adjust k set s.jobs in
      ground (
        arith,
        lookup-adjust k k set s.jobs,
        lookup-adjust k k (set_status Models.completed now) d,
        lookup-adjust k k (set_status Models.failed now) d,
      )

module _ (clock : ℕ → Time) (handlers : Lookup) (k : ℕ) (s : InMemoryStore) (job : Job)
    (cfg : TypeConfig) (h : Handler) (found : lookup k s.jobs ≡ some job)
    (claimable : is_claimable job.status ≡ true)
    (set : lookup job.job_type s.type_config ≡ some cfg)
    (known : handlers job.job_type ≡ some h) where
  abbrev pub effective : Payload
  effective = overlay cfg.payload job.input_payload

  -- A message for a queued or dispatched job whose type is configured and has a handler: the
  -- handler receives the base configuration overlaid with the run's input; the outcome is
  -- "completed" if it returns and "failed" if it raises; the stored job has that status, and the
  -- effective payload as the handler left it; nothing else of the job changes.
  pub process-get_job :
      let t = process in_memory clock handlers (build_envelope k job.job_type) s in
      (t.1 ≡ result_outcome (h effective).1)
      × (get_job k t.0
          ≡ some (record job {
            status = result_status (h effective).1;
            payload = (h effective).0;
            updated_at = clock 2;
          }))
  unfolding process get_job
  process-get_job =
      let (won, same, at1) = claim_found (clock 0) k s job found claimable in
      let s1 = (claim (clock 0) k s).0 in
      let (resolved, at2) =
        resolve_found (clock 1) k s1 (set_status running (clock 0) job) at1 cfg refl
          (ground (arith, same, set)) in
      let s2 = (resolve_payload (clock 1) k job.job_type s1).0 in
      let (outcome, at3) = run_found (clock 2) k s2 _ at2 effective h refl in
      rw (won, resolved, known) (outcome, at3)

-- The effective payload of a running job with a configured type, key by key: the run's input wins
-- over the base configuration. It is also what the job keeps as its snapshot.
pub resolve_payload-lookup :
    (now : Time) (k : ℕ) (s : InMemoryStore) (job : Job) (cfg : TypeConfig) (key : String)
    → lookup k s.jobs ≡ some job
    → job.status ≡ running
    → lookup job.job_type s.type_config ≡ some cfg
    → HasDistinctKeys job.input_payload
    → let r = resolve_payload now k job.job_type s in
      (p : Payload) × (r.1 ≡ some p)
      × (get_job k r.0 ≡ some (record job { payload = p; updated_at = now }))
      × (lookup key p ≡ or_else (lookup key job.input_payload) (lookup key cfg.payload))
unfolding get_job
resolve_payload-lookup now k s job cfg key found runs set distinct =
    let (resolved, kept) = resolve_found now k s job found cfg runs set in
    (
      overlay cfg.payload job.input_payload,
      resolved,
      kept,
      lookup-overlay key cfg.payload job.input_payload distinct,
    )
