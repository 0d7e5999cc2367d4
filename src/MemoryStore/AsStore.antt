-- ===== src/MemoryStore/AsStore.antt =====
-- InMemoryStore of common/store.py implements the protocol.
pub mod Laws
use job_processing_workflow.Store.{Store}
use job_processing_workflow.MemoryStore.{
  InMemoryStore, enqueue, fetch_unpublished, mark_dispatched, claim, resolve_payload, complete,
  fail, find_stuck, requeue_stuck, dead_letter, get_job, write_payload,
}

abbrev pub in_memory : Store InMemoryStore
in_memory = record {
  enqueue = enqueue;
  fetch_unpublished = fetch_unpublished;
  mark_dispatched = mark_dispatched;
  claim = claim;
  resolve_payload = resolve_payload;
  complete = complete;
  fail = fail;
  find_stuck = find_stuck;
  requeue_stuck = requeue_stuck;
  dead_letter = dead_letter;
  get_job = get_job;
  write_payload = write_payload;
}
