-- ===== src/Reaper/Stats.antt =====
-- reaper/service.py over InMemoryStore: what the numbers say that a sweep returns.
use job_processing_workflow.Prelude.{
  ℕ, ◌+◌, String, Bool, true, false, not, ◌&&◌, ◌≡◌, refl, ◌∙◌, some, none, List, [], ◌∷◌,
  if◌then◌else◌, arith, Bool-cases, Option-cases, inl, inr, lookup, lookup-adjust, nat_key, nat_eq,
  leb, Dict, values, HasDistinctKeys,
}
use job_processing_workflow.Models.{Job, failed, Time, StuckJob, is_running}
use job_processing_workflow.MemoryStore.{
  InMemoryStore, TypeConfig, set_status, requeue, max_attempts, is_stuck, stuck_of, find_stuck,
  requeue_stuck, dead_letter,
}
use job_processing_workflow.MemoryStore.AsStore.{in_memory}
use job_processing_workflow.MemoryStore.Invariant.{IsValid}
use job_processing_workflow.MemoryStore.Invariant.Jobs.{HasIds}
use job_processing_workflow.MemoryStore.Invariant.Operations.{guarded_cases}
use job_processing_workflow.MemoryStore.Invariant.Publishing.{requeue_cases}
use job_processing_workflow.Reaper.{ReapStats, no_stats, reap, reap_all, reap_once}
use job_processing_workflow.Reaper.Memory.{listed, listed_missing}

abbrev pub bit : Bool → ℕ
bit b = if b then 1 else 0

abbrev pub has_reached_cap : Dict String TypeConfig → Job → Bool
has_reached_cap config job = leb (max_attempts config job.job_type) job.attempts

-- Whether the job under `k` runs, and is below the cap of its type, or has reached it.
abbrev pub runs_at : (at_cap : Bool) → InMemoryStore → ℕ → Bool
runs_at at_cap s k = elim (lookup k s.jobs) [
  | none ↦ false
  | some job ↦
      is_running job.status
      && (if at_cap
          then has_reached_cap s.type_config job
          else not (has_reached_cap s.type_config job))
]

module _ (clock : ℕ → Time) (n : ℕ) (stuck : StuckJob) (s : InMemoryStore) (stats : ReapStats) where
  -- What a round adds.
  reap_stats : (reap in_memory clock n stuck (s, stats)).1 ≡ record {
    requeued = stats.requeued + bit (runs_at false s stuck.job_id);
    dead_lettered = stats.dead_lettered + bit (runs_at true s stuck.job_id);
  }
  unfolding reap requeue_stuck dead_letter
  reap_stats = elim (Option-cases (lookup stuck.job_id s.jobs)) [
    | inl missing ↦ ground (arith, missing)
    | inr (job, found) ↦ elim (Bool-cases (is_running job.status)) [
      | inr idle ↦ ground (arith, found, idle)
      | inl runs ↦ elim (Bool-cases (has_reached_cap s.type_config job)) [
        | inl capped ↦ ground (arith, found, runs, capped)
        | inr under ↦ ground (arith, found, runs, under)
      ]
    ]
  ]

  -- A round leaves every other job, and the configurations.
  reap_others :
      let t = (reap in_memory clock n stuck (s, stats)).0 in
      (t.type_config ≡ s.type_config)
      × ((j : ℕ) → nat_eq stuck.job_id j ≡ false → lookup j t.jobs ≡ lookup j s.jobs)
  unfolding reap dead_letter
  reap_others = elim (requeue_cases (clock n) stuck.job_id s) [
    | inl (there, at_j, runs, under, e) ↦ rw e (
      refl,
      λ j other. ground (arith, other, lookup-adjust stuck.job_id j (requeue (clock n)) s.jobs),
    )
    | inr (e, capped) ↦
        elim (guarded_cases is_running (set_status failed (clock (n + 1))) stuck.job_id s) [
          | inl (there, at_j, runs, f) ↦
              rw (e, f)
                (
                  refl,
                  λ j other. ground (
                    arith,
                    other,
                    lookup-adjust stuck.job_id j (set_status failed (clock (n + 1))) s.jobs,
                  ),
                )
          | inr (f, idle) ↦ rw (e, f) (refl, λ j other. refl)
        ]
  ]

abbrev pub tally : (ℕ → Bool) → List StuckJob → ℕ
tally p [] = 0
tally p (stuck ∷ l) = bit (p stuck.job_id) + tally p l

tally_same :
    (p q : ℕ → Bool) (k : ℕ) (l : List StuckJob)
    → listed k l ≡ false
    → ((j : ℕ) → nat_eq k j ≡ false → p j ≡ q j)
    → tally p l ≡ tally q l
tally_same p q k [] h same = refl
tally_same p q k (stuck ∷ l) h same =
    let head : p stuck.job_id ≡ q stuck.job_id = same stuck.job_id (ground (arith, h)) in
    let rest = tally_same p q k l (ground (arith, h)) same in ground (arith, head, rest)

-- No job is listed twice.
abbrev pub Distinct : List StuckJob → Type 0
Distinct [] = Unit
Distinct (stuck ∷ l) = (listed stuck.job_id l ≡ false) × Distinct l

abbrev pub sums : InMemoryStore → List StuckJob → ReapStats → ReapStats
sums s l stats = record {
  requeued = stats.requeued + tally (runs_at false s) l;
  dead_lettered = stats.dead_lettered + tally (runs_at true s) l;
}

pub reap_all_stats :
    (clock : ℕ → Time) (n : ℕ) (l : List StuckJob) (s : InMemoryStore) (stats : ReapStats)
    → Distinct l
    → (reap_all in_memory clock n l (s, stats)).1 ≡ sums s l stats
unfolding reap_all
reap_all_stats clock n [] s stats h = ground arith
reap_all_stats clock n (stuck ∷ l) s stats h =
    let (t, stats') = reap in_memory clock n stuck (s, stats) in
    let (config, others) = reap_others clock n stuck s stats in
    let same = λ (b : Bool).
      tally_same (runs_at b t) (runs_at b s) stuck.job_id l h.0
        (λ j other. ground (arith, config, others j other)) in
    let first = reap_stats clock n stuck s stats in
    reap_all_stats clock (n + 2) l t stats' h.1 ∙ ground (arith, same false, same true, first)

-- The stuck jobs of a sweep are distinct.
pub stuck_of-Distinct :
    (now : Time) (config : Dict String TypeConfig) (bound : ℕ) (d : Dict ℕ Job)
    → HasIds bound d
    → HasDistinctKeys d
    → Distinct (stuck_of now config (values d))
stuck_of-Distinct now config bound [] ids distinct = tt
stuck_of-Distinct now config bound ((j, w) ∷ d) ids distinct =
    elim (Bool-cases (is_stuck now config w)) [
      | inl stuck ↦ rw stuck (
        listed_missing now config w.id bound d ids.2 (ground (arith, ids.0, distinct.0)),
        stuck_of-Distinct now config bound d ids.2 distinct.1,
      )
      | inr fine ↦ rw fine (stuck_of-Distinct now config bound d ids.2 distinct.1)
    ]

-- How many of the jobs are stuck, and are below the cap of their type, or have reached it.
abbrev pub stuck_count : (at_cap : Bool) → Time → Dict String TypeConfig → List Job → ℕ
stuck_count at_cap now config [] = 0
stuck_count at_cap now config (job ∷ jobs) =
    bit (
      is_stuck now config job
      && (if at_cap then has_reached_cap config job else not (has_reached_cap config job)))
    + stuck_count at_cap now config jobs

tally-stuck_of :
    (at_cap : Bool) (now : Time) (s : InMemoryStore) (bound : ℕ) (d : Dict ℕ Job)
    → HasIds bound d
    → HasDistinctKeys d
    → ((k : ℕ) (job : Job) → lookup k d ≡ some job → lookup k s.jobs ≡ some job)
    → tally (runs_at at_cap s) (stuck_of now s.type_config (values d))
      ≡ stuck_count at_cap now s.type_config (values d)
tally-stuck_of at_cap now s bound [] ids distinct within = refl
tally-stuck_of at_cap now s bound ((j, w) ∷ d) ids distinct within =
    let rest =
      tally-stuck_of at_cap now s bound d ids.2 distinct.1
        (λ k job h. within k job (ground (arith, distinct.0, h))) in
    elim (Bool-cases (is_stuck now s.type_config w)) [
      | inl stuck ↦
          let here : lookup w.id s.jobs ≡ some w = within w.id w (ground (arith, ids.0)) in
          ground (arith, stuck, here, rest)
      | inr fine ↦ ground (arith, fine, rest)
    ]

-- A sweep over a well-formed store counts as queued again the jobs that are stuck at the time of
-- find_stuck and are below the cap of their type, and as failed the stuck jobs that have reached it.
pub reap_once_stats :
    (clock : ℕ → Time) (s : InMemoryStore)
    → IsValid s
    → (reap_once in_memory clock s).1 ≡ record {
      requeued = stuck_count false (clock 0) s.type_config (values s.jobs);
      dead_lettered = stuck_count true (clock 0) s.type_config (values s.jobs);
    }
unfolding reap_once find_stuck
reap_once_stats clock s v =
    let count = λ (b : Bool).
      tally-stuck_of b (clock 0) s s.next_job s.jobs v.job_ids v.distinct_jobs (λ k job h. h) in
    reap_all_stats clock 1 (find_stuck (clock 0) s) s no_stats
      (stuck_of-Distinct (clock 0) s.type_config s.next_job s.jobs v.job_ids v.distinct_jobs)
    ∙ ground (arith, count false, count true)
