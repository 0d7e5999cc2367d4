-- ===== src/Reaper.antt =====
-- reaper/service.py: one sweep over the runs that are stuck.
pub mod Memory
pub mod Stats
pub mod Order
pub mod Loop
use job_processing_workflow.Prelude.{ℕ, ◌+◌, List, [], ◌∷◌, if◌then◌else◌}
use job_processing_workflow.Models.{Time, StuckJob}
use job_processing_workflow.Store.{Store}

pub record ReapStats : Type 0 where
  pub requeued : ℕ
  pub dead_lettered : ℕ

abbrev pub no_stats : ReapStats
no_stats = record { requeued = 0; dead_lettered = 0 }

module _ {S : Type 0} (store : Store S) where
  -- The body of the loop; `clock n` and `clock (n + 1)` are the times of its two calls.
  unfoldable pub reap : (ℕ → Time) → ℕ → StuckJob → S × ReapStats → S × ReapStats
  reap clock n stuck (s, stats) =
      let (s1, again) = store.requeue_stuck (clock n) stuck.job_id s in
      let (s2, dead) = store.dead_letter (clock (n + 1)) stuck.job_id s1 in
      if again
      then (s1, record stats { requeued = stats.requeued + 1 })
      else if dead
      then (s2, record stats { dead_lettered = stats.dead_lettered + 1 })
      else (s2, stats)

  unfoldable pub reap_all : (ℕ → Time) → ℕ → List StuckJob → S × ReapStats → S × ReapStats
  reap_all clock n [] w = w
  reap_all clock n (stuck ∷ more) w = reap_all clock (n + 2) more (reap clock n stuck w)

  unfoldable pub reap_once : (ℕ → Time) → S → S × ReapStats
  reap_once clock s = reap_all clock 1 (store.find_stuck (clock 0) s) (s, no_stats)
