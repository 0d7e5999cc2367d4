-- ===== src/Reaper/Loop.antt =====
-- reaper/__main__.py: the loop around `reap_once`.
use job_processing_workflow.Prelude.{ℕ, List, [], ◌∷◌, ◌++◌, nat_eq, ◌&&◌, if◌then◌else◌}
use job_processing_workflow.Models.{Time}
use job_processing_workflow.Store.{Store}
use job_processing_workflow.Service.{returned, Ended}
use job_processing_workflow.Reaper.{ReapStats, reap_once}

-- One round: the times of its calls, and what the other components do to the store while it sleeps.
pub record Round (S : Type 0) : Type 0 where
  pub clock : ℕ → Time
  pub meanwhile : S → S

-- The line that a sweep writes: none if it has found nothing to do.
abbrev pub line_of : ReapStats → List ReapStats
line_of stats = if nat_eq stats.requeued 0 && nat_eq stats.dead_lettered 0 then [] else stats ∷ []

module _ {S : Type 0} (store : Store S) (close_store : S → S) where
  -- `main` from the start of a round on, until KeyboardInterrupt comes between two rounds or while
  -- it sleeps; `output` are the lines that have been written.
  unfoldable pub loop : List ReapStats → List (Round S) → S → Ended S Unit (List ReapStats)
  loop output [] s = record { store = close_store s; kafka = tt; log = output; exit = returned 0 }
  loop output (round ∷ rounds) s =
      let (after, stats) = reap_once store round.clock s in
      loop (output ++ line_of stats) rounds (round.meanwhile after)
