-- ===== src/Messaging.antt =====
-- common/messaging.py: the protocols of producer and consumer, and the producer that records in the
-- process.
pub mod Kafka
pub mod Json
use job_processing_workflow.Prelude.{String, Bool, true, List, [], ◌∷◌, ◌++◌}
use job_processing_workflow.Models.{Envelope}

-- `publish(topic, key, message)`; the answer is false where the call raises.
pub record Producer (P : Type 0) : Type 0 where
  pub publish : String → String → Envelope → P → P × Bool
  pub close : P → P

-- What `poll` returns: nothing, or a message; or it raises.
pub data Polled : Type 0 where
  nothing : Polled
  delivered : Envelope → Polled
  raises : Polled

-- The answer of `commit` is false where the call raises.
pub record Consumer (C : Type 0) : Type 0 where
  pub poll : C → C × Polled
  pub commit : C → C × Bool
  pub close : C → C

pub record InMemoryProducer : Type 0 where
  pub published : List (String × String × Envelope)

abbrev pub new_producer : InMemoryProducer
new_producer = record { published = [] }

unfoldable pub publish : String → String → Envelope → InMemoryProducer → InMemoryProducer × Bool
publish topic key message p =
    (record { published = p.published ++ (topic, key, message) ∷ [] }, true)

abbrev pub in_process : Producer InMemoryProducer
in_process = record { publish = publish; close = λ p. p }
