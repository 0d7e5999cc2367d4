-- ===== src/Dispatcher.antt =====
-- dispatcher/service.py: one batch of outbox rows goes to the producer.
pub mod Memory
pub mod Loop
use job_processing_workflow.Prelude.{
  ℕ, ◌+◌, String, List, [], ◌∷◌, Option, some, none, length, decimal, if◌then◌else◌,
}
use job_processing_workflow.Models.{ℤ, Time, OutboxMessage}
use job_processing_workflow.Store.{Store}
use job_processing_workflow.Messaging.{Producer}

module _ {S P : Type 0} (store : Store S) (producer : Producer P) where
  -- The loop; `clock n` is the time at its call number `n` of `mark_dispatched`. An exception of
  -- `publish` ends it and is passed on: no count is returned.
  unfoldable pub publish_all :
      (ℕ → Time) → ℕ → String → ℕ → List OutboxMessage → S × P → (S × P) × Option ℕ
  publish_all clock n topic count [] w = (w, some count)
  publish_all clock n topic count (msg ∷ messages) (s, p) =
      let (p', published) = producer.publish topic (decimal msg.job_id) msg.payload p in
      let rest =
        publish_all clock (n + 1) topic count messages
          (store.mark_dispatched (clock n) msg.id msg.job_id s, p') in
      if published then rest else ((s, p'), none)

  unfoldable pub dispatch_once : (ℕ → Time) → String → ℤ → S × P → (S × P) × Option ℕ
  dispatch_once clock topic batch_size (s, p) =
      let messages = store.fetch_unpublished batch_size s in
      publish_all clock 0 topic (length messages) messages (s, p)
