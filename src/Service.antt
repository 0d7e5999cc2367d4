-- ===== src/Service.antt =====
-- What the __main__ modules of the components have in common.
use job_processing_workflow.Prelude.{ℕ}

-- How `main` ends: it returns an exit code, or an exception leaves it.
pub data Exit : Type 0 where
  returned : ℕ → Exit
  raised : Exit

-- A service that has ended: what is left of its store and of its connection to Kafka after both
-- have been closed, a log of what it did, and how `main` has ended.
pub record Ended (S Q L : Type 0) : Type 0 where
  pub store : S
  pub kafka : Q
  pub log : L
  pub exit : Exit
