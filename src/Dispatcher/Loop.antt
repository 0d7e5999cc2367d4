-- ===== src/Dispatcher/Loop.antt =====
-- dispatcher/__main__.py: the loop around `dispatch_once`.
pub mod Drains
pub mod Published
use job_processing_workflow.Prelude.{
  ℕ, zero, suc, ◌+◌, String, Option, some, none, List, [], ◌∷◌, nat_eq, if◌then◌else◌,
}
use job_processing_workflow.Models.{ℤ, Time}
use job_processing_workflow.Store.{Store}
use job_processing_workflow.Messaging.{Producer}
use job_processing_workflow.Service.{Exit, returned, raised, Ended}
use job_processing_workflow.Dispatcher.{dispatch_once}

-- One round of the loop: the times of its calls, and what the other components do to the store
-- before the next.
pub record Round (S : Type 0) : Type 0 where
  pub clock : ℕ → Time
  pub meanwhile : S → S

module _ {S P : Type 0} (store : Store S) (producer : Producer P) (close_store : S → S)
    (topic : String) (batch_size : ℤ) where
  -- The `finally` clause; `sleeps` counts the rounds that have sent nothing.
  abbrev pub finish : Exit → ℕ → S × P → Ended S P ℕ
  finish exit sleeps (s, p) = record {
    store = close_store s;
    kafka = producer.close p;
    log = sleeps;
    exit = exit;
  }

  -- `main` from the start of a round on. The list is what happens until KeyboardInterrupt comes,
  -- between two rounds or while it sleeps.
  unfoldable pub loop : ℕ → List (Round S) → S × P → Ended S P ℕ
  loop sleeps [] w = finish (returned 0) sleeps w
  loop sleeps (round ∷ rounds) w =
      let (after, sent) = dispatch_once store producer round.clock topic batch_size w in
      elim sent [
        | none ↦ finish raised sleeps after
        | some n ↦
            loop (if nat_eq n 0 then suc sleeps else sleeps) rounds
              (round.meanwhile after.0, after.1)
      ]
