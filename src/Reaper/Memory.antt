-- ===== src/Reaper/Memory.antt =====
-- reaper/service.py over InMemoryStore: what one sweep makes of every job.
use job_processing_workflow.Prelude.{
  ℕ, ◌+◌, String, Bool, true, false, ◌&&◌, ◌≡◌, refl, subst, ◌∙◌, Option, some, none, List, [], ◌∷◌,
  if◌then◌else◌, arith, Bool-cases, inl, inr, lookup, adjust, lookup-adjust, nat_key, nat_eq, leb,
  Dict, values, HasDistinctKeys, any,
}
use job_processing_workflow.Models.{Job, failed, Time, StuckJob, is_running}
use job_processing_workflow.MemoryStore.{
  InMemoryStore, TypeConfig, set_status, requeue, max_attempts, is_stuck, stuck_of, find_stuck,
  requeue_stuck, dead_letter, get_job,
}
use job_processing_workflow.MemoryStore.AsStore.{in_memory}
use job_processing_workflow.MemoryStore.Invariant.{IsValid}
use job_processing_workflow.MemoryStore.Invariant.Jobs.{HasIds}
use job_processing_workflow.MemoryStore.Invariant.Operations.{guarded_cases}
use job_processing_workflow.MemoryStore.Invariant.Publishing.{requeue_cases}
use job_processing_workflow.MemoryStore.Steps.{Reach, Reach-trans, here, next, requeues, buries}
use job_processing_workflow.Reaper.{ReapStats, no_stats, reap, reap_all, reap_once}

-- What a sweep makes of a stuck job: below the cap of its type it is queued again, at the cap it
-- is failed.
abbrev pub recovered : Dict String TypeConfig → Time → Job → Job
recovered config now job =
    if leb (max_attempts config job.job_type) job.attempts
    then set_status failed now job
    else requeue now job

-- The job under `k` is as it was, or recovered.
abbrev pub Swept : Bool → Dict String TypeConfig → Job → Option Job → Type 0
Swept true config job after = (now : Time) × (after ≡ some (recovered config now job))
Swept false config job after = after ≡ some job

-- An update of one running job, seen from the job under `k`.
Swept-adjust :
    (config : Dict String TypeConfig) (j k : ℕ) (f : Job → Job) (now : Time) (d : Dict ℕ Job)
    (job there : Job)
    → lookup k d ≡ some job
    → lookup j d ≡ some there
    → is_running there.status ≡ true
    → f there ≡ recovered config now there
    → Swept (nat_eq j k && is_running job.status) config job (lookup k (adjust j f d))
Swept-adjust config j k f now d job there found at_j runs e = elim (Bool-cases (nat_eq j k)) [
  | inl same ↦
      let is_job : there ≡ job = ground arith in
      let job_runs : is_running job.status ≡ true = ground arith in
      rw (same, job_runs) (now, ground (arith, lookup-adjust j k f d))
  | inr other ↦ rw other (ground (arith, lookup-adjust j k f d))
]

module _ (clock : ℕ → Time) (n k : ℕ) (stuck : StuckJob) (s : InMemoryStore) (stats : ReapStats)
    (job : Job) (found : lookup k s.jobs ≡ some job) where
  -- The round of a job that is not queued again.
  dead_letter-Swept :
      ((there : Job)
        → lookup stuck.job_id s.jobs ≡ some there
        → is_running there.status ≡ true
        → leb (max_attempts s.type_config there.job_type) there.attempts ≡ true)
      → let t = (dead_letter (clock (n + 1)) stuck.job_id s).0 in
        (t.type_config ≡ s.type_config)
        × Swept (nat_eq stuck.job_id k && is_running job.status) s.type_config job (lookup k t.jobs)
  unfolding dead_letter
  dead_letter-Swept capped =
      elim (guarded_cases is_running (set_status failed (clock (n + 1))) stuck.job_id s) [
        | inl (there, at_j, runs, e) ↦ rw e (
          refl,
          Swept-adjust s.type_config stuck.job_id k (set_status failed (clock (n + 1)))
              (clock (n + 1)) s.jobs job there found at_j runs
              (ground (arith, capped there at_j runs)),
        )
        | inr (e, idle) ↦
            let same_off : (nat_eq stuck.job_id k && is_running job.status) ≡ false =
              ground (arith, idle job) in
            rw (e, same_off) (refl, found)
      ]

  -- One round of the loop.
  reap-Swept :
      let t = (reap in_memory clock n stuck (s, stats)).0 in
      (t.type_config ≡ s.type_config)
      × Swept (nat_eq stuck.job_id k && is_running job.status) s.type_config job (lookup k t.jobs)
  unfolding reap
  reap-Swept = elim (requeue_cases (clock n) stuck.job_id s) [
    | inl (there, at_j, runs, under, e) ↦ rw e (
      refl,
      Swept-adjust s.type_config stuck.job_id k (requeue (clock n)) (clock n) s.jobs job there found
          at_j (ground arith) (ground arith),
    )
    | inr (e, capped) ↦
        let sw = dead_letter-Swept (λ there at_j runs. capped there at_j (ground arith)) in
        elim (Bool-cases (dead_letter (clock (n + 1)) stuck.job_id s).1) [
          | inl dead ↦ rw (e, dead) sw
          | inr alive ↦ rw (e, alive) sw
        ]
  ]

abbrev pub listed : ℕ → List StuckJob → Bool
listed k stuck = any (λ item. nat_eq item.job_id k) stuck

recovered_idle :
    (config : Dict String TypeConfig) (now : Time) (job : Job)
    → is_running (recovered config now job).status ≡ false
recovered_idle config now job = ground arith

abbrev pub SweptTo : ℕ → Bool → InMemoryStore → Job → InMemoryStore → Type 0
SweptTo k hit s job t =
    (t.type_config ≡ s.type_config) × Swept hit s.type_config job (lookup k t.jobs)

-- A round that hits the job, then rounds that leave it alone.
SweptTo-hit :
    (k : ℕ) (s t u : InMemoryStore) (job : Job) (now : Time)
    → t.type_config ≡ s.type_config
    → ((new : Job)
        → lookup k t.jobs ≡ some new
        → is_running new.status ≡ false
        → SweptTo k false t new u)
    → lookup k t.jobs ≡ some (recovered s.type_config now job)
    → SweptTo k true s job u
SweptTo-hit k s t u job now same later at_k =
    let (same', stays) = later _ at_k (recovered_idle s.type_config now job) in
    (same' ∙ same, (now, stays))

pub reap_all-Swept :
    (clock : ℕ → Time) (k n : ℕ) (l : List StuckJob) (s : InMemoryStore) (stats : ReapStats)
    (job : Job)
    → lookup k s.jobs ≡ some job
    → SweptTo k
        (listed k l && is_running job.status)
        s
        job
        (reap_all in_memory clock n l (s, stats)).0
unfolding reap_all
reap_all-Swept clock k n [] s stats job found = (refl, found)
reap_all-Swept clock k n (stuck ∷ l) s stats job found =
    let (t, stats') = reap in_memory clock n stuck (s, stats) in
    let u = (reap_all in_memory clock (n + 2) l (t, stats')).0 in
    let (same, sw) = reap-Swept clock n k stuck s stats job found in
    let later = λ (new : Job) (at_k : lookup k t.jobs ≡ some new).
      reap_all-Swept clock k (n + 2) l t stats' new at_k in
    elim (Bool-cases (nat_eq stuck.job_id k && is_running job.status)) [
      | inl hit ↦
          let all_hit : (listed k (stuck ∷ l) && is_running job.status) ≡ true = ground arith in
          let (now, at_k) = subst (λ b. Swept b s.type_config job (lookup k t.jobs)) hit sw in
          rw all_hit (
            SweptTo-hit k s t u job now same
              (λ new at_new idle.
                subst (λ b. SweptTo k b t new u) {y = false} (ground arith) (later new at_new))
              at_k)
      | inr miss ↦
          let rest : (listed k (stuck ∷ l) && is_running job.status)
              ≡ (listed k l && is_running job.status) =
            ground arith in
          let at_k = subst (λ b. Swept b s.type_config job (lookup k t.jobs)) miss sw in
          let (same', sw') = later job at_k in
          rw rest (
            same' ∙ same,
            subst (λ c. Swept (listed k l && is_running job.status) c job (lookup k u.jobs)) same
                sw',
          )
    ]

pub listed_missing :
    (now : Time) (config : Dict String TypeConfig) (k bound : ℕ) (d : Dict ℕ Job)
    → HasIds bound d
    → lookup k d ≡ none
    → listed k (stuck_of now config (values d)) ≡ false
listed_missing now config k bound [] ids h = refl
listed_missing now config k bound ((j, w) ∷ d) ids h =
    ground (arith, listed_missing now config k bound d)

-- The sweep's list names a job exactly when the job is stuck.
pub listed-stuck_of :
    (now : Time) (config : Dict String TypeConfig) (k bound : ℕ) (d : Dict ℕ Job) (job : Job)
    → HasIds bound d
    → HasDistinctKeys d
    → lookup k d ≡ some job
    → listed k (stuck_of now config (values d)) ≡ is_stuck now config job
listed-stuck_of now config k bound [] job ids distinct h = cc
listed-stuck_of now config k bound ((j, w) ∷ d) job ids distinct h =
    ground (arith, listed-stuck_of now config k bound d job, listed_missing now config k bound d)

-- A sweep over a well-formed store: a job that was running for longer than the timeout of its type
-- at the time of `find_stuck` is queued again with one more attempt if it is below the cap of its
-- type, and failed if it is not; every other job is exactly as before.
pub reap_once-Swept :
    (clock : ℕ → Time) (s : InMemoryStore) (k : ℕ) (job : Job)
    → IsValid s
    → get_job k s ≡ some job
    → Swept
        (is_stuck (clock 0) s.type_config job)
        s.type_config
        job
        (get_job k (reap_once in_memory clock s).0)
unfolding reap_once find_stuck get_job
reap_once-Swept clock s k job v found =
    let (same, sw) = reap_all-Swept clock k 1 (find_stuck (clock 0) s) s no_stats job found in
    subst (λ b. Swept b s.type_config job (lookup k (reap_once in_memory clock s).0.jobs))
      (ground (
        arith,
        listed-stuck_of (clock 0) s.type_config k s.next_job s.jobs job v.job_ids v.distinct_jobs
            found,
      ))
      sw

reap-Reach :
    (clock : ℕ → Time) (n : ℕ) (stuck : StuckJob) (s : InMemoryStore) (stats : ReapStats)
    → Reach s (reap in_memory clock n stuck (s, stats)).0
unfolding reap
reap-Reach clock n stuck s stats =
    let first = next here (requeues (clock n) stuck.job_id) in
    elim (Bool-cases (requeue_stuck (clock n) stuck.job_id s).1) [
      | inl again ↦ rw again first
      | inr capped ↦
          let s1 = (requeue_stuck (clock n) stuck.job_id s).0 in
          elim (Bool-cases (dead_letter (clock (n + 1)) stuck.job_id s1).1) [
            | inl dead ↦ rw (capped, dead) (next first (buries (clock (n + 1)) stuck.job_id))
            | inr alive ↦ rw (capped, alive) (next first (buries (clock (n + 1)) stuck.job_id))
          ]
    ]

reap_all-Reach :
    (clock : ℕ → Time) (n : ℕ) (l : List StuckJob) (s : InMemoryStore) (stats : ReapStats)
    → Reach s (reap_all in_memory clock n l (s, stats)).0
unfolding reap_all
reap_all-Reach clock n [] s stats = here
reap_all-Reach clock n (stuck ∷ l) s stats =
    let (t, stats') = reap in_memory clock n stuck (s, stats) in
    Reach-trans (reap-Reach clock n stuck s stats) (reap_all-Reach clock (n + 2) l t stats')

-- A sweep is a sequence of calls of the store's methods.
pub reap_once-Reach :
    (clock : ℕ → Time) (s : InMemoryStore) → Reach s (reap_once in_memory clock s).0
unfolding reap_once
reap_once-Reach clock s = reap_all-Reach clock 1 (find_stuck (clock 0) s) s no_stats
