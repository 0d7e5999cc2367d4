-- ===== src/Tests/Messages.antt =====
-- Messages as common/messaging.py writes and reads them, at concrete inputs.
use job_processing_workflow.Prelude.{
  ℕ, ◌+◌, ◌≡◌, refl, true, String, none, some, List, [], contains, add,
}
use job_processing_workflow.Models.{Time, Envelope, pos, dispatched, build_envelope}
use job_processing_workflow.MemoryStore.{
  set_type_config, enqueue, active, mark_dispatched, fetch_unpublished,
}
use job_processing_workflow.MemoryStore.AsStore.{in_memory}
use job_processing_workflow.MemoryStore.AsStore.Laws.{status}
use job_processing_workflow.Messaging.Json.Writing.{dumps}
use job_processing_workflow.Messaging.Json.Reading.{loads}
use job_processing_workflow.Messaging.Json.Envelopes.{loads-dumps}
use job_processing_workflow.Messaging.Kafka.{ConfluentProducer, kafka_producer, publish_flushed}
use job_processing_workflow.Dispatcher.{publish_all, dispatch_once}
use job_processing_workflow.Tests.Samples.{waiting}

abbrev clock : ℕ → Time
clock n = 100 + n

-- The text of a message, with what `json.dumps` escapes.
dumps_quoted : dumps (build_envelope 12 "a\"\n") ≡ "{\"job_id\": 12, \"job_type\": \"a\\\"\\n\"}"
unfolding dumps
dumps_quoted = refl

-- A producer of the library that loses what it is given: `flush` returns when the broker has not
-- answered in time, and tells only a callback.
abbrev losing : ConfluentProducer (List String)
losing = record { produce = λ topic key value q. (q, true); flush = λ q. q }

-- The row counts as published, and the job as dispatched, while the broker has nothing.
lost_message :
    let r = dispatch_once in_memory (kafka_producer losing) clock "jobs" (pos 5) (waiting, []) in
    (r.0.1 ≡ []) × (status r.0.0 1 ≡ some dispatched) × (contains 1 r.0.0.published ≡ true)
unfolding dispatch_once publish_all publish_flushed mark_dispatched fetch_unpublished
    set_type_config enqueue active add
lost_message = (refl, refl, refl)

-- The members in another order, with space between them, an escaped letter, and a character that
-- takes a pair of surrogates.
loads_other :
    loads (λ s. none) " { \"job_type\" :\"\\u0068\\ud83d\\uDE00\",\n\"job_id\": 7 } "
    ≡ some (build_envelope 7 "h😀")
unfolding loads
loads_other = refl

dumps_pair : dumps (build_envelope 7 "😀") ≡ "{\"job_id\": 7, \"job_type\": \"\\ud83d\\ude00\"}"
unfolding dumps
dumps_pair = refl

abbrev quote : Envelope
quote = build_envelope 12 "a\"\n"

loads-dumps_example : loads (λ s. none) (dumps quote) ≡ some quote
loads-dumps_example = loads-dumps (λ s. none) quote
