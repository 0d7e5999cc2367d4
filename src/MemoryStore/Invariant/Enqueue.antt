-- ===== src/MemoryStore/Invariant/Enqueue.antt =====
-- Inserting a job with its outbox row keeps the store of common/store.py well-formed.
use job_processing_workflow.Prelude.{
  ℕ, ◌+◌, ◌≡◌, ◌⊎◌, inl, inr, refl, true, false, String, Option, some, none, lookup, insert,
  lookup-insert, nat_key, text_key, Bool-cases, arith, nat_eq, nat_eq_iff, values, eq_iff,
  insert-HasDistinctKeys,
}
use job_processing_workflow.Models.{Job, Time, OutboxMessage, Payload, Creator}
use job_processing_workflow.MemoryStore.{
  InMemoryStore, empty_store, set_type_config, enqueue, active, new_job, new_message,
}
use job_processing_workflow.MemoryStore.Invariant.{HasMessage, IsRouted, IsValid, RowsBelow}
use job_processing_workflow.MemoryStore.Invariant.Jobs.{
  any-eq-false_count, lookup-insert_fresh, HasIds-insert, active_count-insert,
}

module _ (created updated : Time) (t : String) (input : Option Payload) (creator : Option Creator)
    (s : InMemoryStore) where
  abbrev pub added : Job
  added = new_job s.next_job t input creator created updated

  abbrev pub enqueued : InMemoryStore
  enqueued = record s {
    jobs = insert s.next_job added s.jobs;
    outbox = insert s.next_outbox (new_message s.next_outbox s.next_job t) s.outbox;
    next_job = s.next_job + 1;
    next_outbox = s.next_outbox + 1;
  }

  pub enqueue_cases :
      (active t s ≡ false)
        × (enqueue created updated t input creator s ≡ (enqueued, some s.next_job))
      ⊎ (active t s ≡ true) × (enqueue created updated t input creator s ≡ (s, none))
  unfolding enqueue
  enqueue_cases = elim (Bool-cases (active t s)) [
    | inl busy ↦ inr (busy, ground arith)
    | inr idle ↦ inl (idle, ground arith)
  ]

  module _ (v : IsValid s) where
    HasMessage-enqueued :
        (j : ℕ) (job : Job)
        → lookup j enqueued.jobs ≡ some job
        → HasMessage enqueued.outbox s.published j job
    HasMessage-enqueued j job h = elim (Bool-cases (nat_eq s.next_job j)) [
      | inl same ↦ record {
        row = s.next_outbox;
        msg = new_message s.next_outbox s.next_job t;
        found = ground (
          arith,
          lookup-insert s.next_outbox s.next_outbox (new_message s.next_outbox s.next_job t)
              s.outbox,
        );
        points = (nat_eq_iff _ _).0 same;
        envelope = ground (arith, lookup-insert s.next_job j added s.jobs);
        waiting = λ _. v.unpublished_above s.next_outbox (omega arith);
      }
      | inr other ↦
          let m = v.covered j job (ground (arith, lookup-insert s.next_job j added s.jobs)) in
          let below = v.rows_below m.row m.msg m.found in
          record {
            row = m.row;
            msg = m.msg;
            found = ground (
              arith,
              m.found,
              below,
              lookup-insert s.next_outbox m.row (new_message s.next_outbox s.next_job t) s.outbox,
            );
            points = m.points;
            envelope = m.envelope;
            waiting = m.waiting;
          }
    ]

    IsRouted-enqueued :
        (k : ℕ) (msg : OutboxMessage)
        → lookup k enqueued.outbox ≡ some msg
        → IsRouted enqueued.jobs k msg
    IsRouted-enqueued k msg h = elim (Bool-cases (nat_eq s.next_outbox k)) [
      | inl same ↦
          let new = new_message s.next_outbox s.next_job t in
          let is_new : msg ≡ new = ground (arith, lookup-insert s.next_outbox k new s.outbox) in
          record {
            job = added;
            keyed = ground arith;
            exists = ground (arith, lookup-insert s.next_job s.next_job added s.jobs);
            addressed = ground arith;
          }
      | inr other ↦
          let i = v.routed k msg (
            ground (
              arith,
              lookup-insert s.next_outbox k (new_message s.next_outbox s.next_job t) s.outbox,
            )) in
          record {
            job = i.job;
            keyed = i.keyed;
            exists = ground (
              arith,
              i.exists,
              lookup-insert s.next_job msg.job_id added s.jobs,
              lookup-insert_fresh s.next_job s.jobs v.job_ids,
            );
            addressed = i.addressed;
          }
    ]

    RowsBelow-enqueued : RowsBelow (s.next_outbox + 1) enqueued.outbox
    RowsBelow-enqueued k msg h = ground (
      arith,
      v.rows_below k msg,
      lookup-insert s.next_outbox k (new_message s.next_outbox s.next_job t) s.outbox,
    )

    IsValid-enqueued : active t s ≡ false → IsValid enqueued
    unfolding active
    IsValid-enqueued idle = record {
      one_active = λ u. ground (
        arith,
        v.one_active u,
        eq_iff t u,
        active_count-insert u s.next_job added s.jobs v.job_ids,
        any-eq-false_count t (values s.jobs) idle,
      );
      job_ids = HasIds-insert s.next_job added s.jobs refl v.job_ids;
      distinct_jobs = insert-HasDistinctKeys s.next_job added s.jobs v.distinct_jobs;
      rows_below = RowsBelow-enqueued;
      unpublished_above = λ row h. v.unpublished_above row (omega arith);
      distinct_rows = insert-HasDistinctKeys s.next_outbox _ s.outbox v.distinct_rows;
      covered = HasMessage-enqueued;
      routed = IsRouted-enqueued;
    }

pub enqueue-IsValid :
    (created updated : Time) (t : String) (input : Option Payload) (creator : Option Creator)
    (s : InMemoryStore)
    → IsValid s
    → IsValid (enqueue created updated t input creator s).0
enqueue-IsValid created updated t input creator s v =
    elim (enqueue_cases created updated t input creator s) [
      | inl (idle, e) ↦ rw e (IsValid-enqueued created updated t input creator s v idle)
      | inr (busy, e) ↦ rw e v
    ]

pub set_type_config-IsValid :
    (t : String) (run_timeout : Time) (max_attempts : ℕ) (payload : Option Payload)
    (s : InMemoryStore)
    → IsValid s
    → IsValid (set_type_config t run_timeout max_attempts payload s)
unfolding set_type_config
set_type_config-IsValid t run_timeout max_attempts payload s v = record {
  one_active = v.one_active;
  job_ids = v.job_ids;
  distinct_jobs = v.distinct_jobs;
  rows_below = v.rows_below;
  unpublished_above = v.unpublished_above;
  distinct_rows = v.distinct_rows;
  covered = v.covered;
  routed = v.routed;
}

pub empty_store-IsValid : IsValid empty_store
empty_store-IsValid = record {
  one_active = λ t. omega arith;
  job_ids = tt;
  distinct_jobs = tt;
  rows_below = λ k msg h. cc;
  unpublished_above = λ row h. refl;
  distinct_rows = tt;
  covered = λ k job h. cc;
  routed = λ k msg h. cc;
}
