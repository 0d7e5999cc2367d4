-- ===== src/Messaging/Kafka.antt =====
-- common/messaging.py: the wrappers of the library confluent_kafka, which is a parameter.
use job_processing_workflow.Prelude.{String, Bool, true, false, Option, some, none, if◌then◌else◌}
use job_processing_workflow.Models.{Envelope}
use job_processing_workflow.Messaging.{Producer, Consumer, Polled, nothing, delivered, raises}
use job_processing_workflow.Messaging.Json.Writing.{dumps}
use job_processing_workflow.Messaging.Json.Reading.{loads}

-- The producer of the library: `produce(topic, key, value)`, which may raise, and `flush()`.
pub record ConfluentProducer (Q : Type 0) : Type 0 where
  pub produce : String → String → String → Q → Q × Bool
  pub flush : Q → Q

-- Of a message: `error()` is not None, and `value()` as a text.
pub record Message : Type 0 where
  pub error : Bool
  pub value : String

-- The consumer of the library, which is subscribed to the topic; the answer of `commit` is false
-- where it raises.
pub record ConfluentConsumer (D : Type 0) : Type 0 where
  pub poll : D → D × Option Message
  pub commit : D → D × Bool
  pub close : D → D

module _ {Q : Type 0} (confluent : ConfluentProducer Q) where
  unfoldable pub publish_flushed : String → String → Envelope → Q → Q × Bool
  publish_flushed topic key envelope q =
      let (q', queued) = confluent.produce topic key (dumps envelope) q in
      if queued then (confluent.flush q', true) else (q', false)

  -- KafkaProducer
  abbrev pub kafka_producer : Producer Q
  kafka_producer = record { publish = publish_flushed; close = confluent.flush }

-- `other` is what `json.loads` gives for a text that is no envelope as `json.dumps` writes it.
module _ {D : Type 0} (confluent : ConfluentConsumer D) (other : String → Option Envelope) where
  abbrev read : Option Envelope → Polled
  read none = raises
  read (some envelope) = delivered envelope

  abbrev message_of : Option Message → Polled
  message_of none = nothing
  message_of (some msg) = if msg.error then nothing else read (loads other msg.value)

  unfoldable pub poll_message : D → D × Polled
  poll_message d = let (d', msg) = confluent.poll d in (d', message_of msg)

  -- KafkaConsumer
  abbrev pub kafka_consumer : Consumer D
  kafka_consumer = record {
    poll = poll_message;
    commit = confluent.commit;
    close = confluent.close;
  }
