-- ===== src/MemoryStore/Invariant/Update.antt =====
-- An update of one job keeps the store well-formed.
use job_processing_workflow.Prelude.{
  ℕ, ◌≤◌, ◌≡◌, ◌≢◌, false, some, contains, Dict, lookup, adjust, nat_key, lookup-adjust,
  adjust-HasDistinctKeys, ◌⊎◌, nat_eq, Bool-cases, inl, inr, nat_eq_iff, arith, List,
}
use job_processing_workflow.Models.{Job, queued, OutboxMessage}
use job_processing_workflow.MemoryStore.{InMemoryStore}
use job_processing_workflow.MemoryStore.Invariant.{HasMessage, IsRouted, IsValid}
use job_processing_workflow.MemoryStore.Invariant.Jobs.{
  Respects, active_count-adjust-le, HasIds-adjust,
}

module _ (k : ℕ) (f : Job → Job) (job : Job) (d : Dict ℕ Job) (found : lookup k d ≡ some job) where
  pub lookup-adjust_self : lookup k (adjust k f d) ≡ some (f job)
  lookup-adjust_self = ground (arith, lookup-adjust k k f d)

  -- What an entry of the updated table is.
  pub adjust_cases :
      (j : ℕ) (new : Job)
      → lookup j (adjust k f d) ≡ some new
      → record { at : k ≡ j; is : new ≡ f job }
        ⊎ record { off : k ≢ j; old : lookup j d ≡ some new }
  adjust_cases j new h = elim (Bool-cases (nat_eq k j)) [
    | inl same ↦
        let at : k ≡ j = (nat_eq_iff k j).0 same in
        inl (record { at = at; is = ground (arith, lookup-adjust k j f d) })
    | inr other ↦ inr (record {
      off = λ same. cc ((nat_eq_iff k j).1 same);
      old = ground (arith, lookup-adjust k j f d);
    })
  ]

module _ (s : InMemoryStore) (k : ℕ) (f : Job → Job) (published : List ℕ) (job : Job)
    (found : lookup k s.jobs ≡ some job) (r : Respects job (f job))
    (keeps : (row : ℕ) (msg : OutboxMessage)
      → lookup row s.outbox ≡ some msg
      → msg.job_id ≢ k
      → contains row s.published ≡ false
      → contains row published ≡ false)
    (fresh : (row : ℕ) → s.next_outbox ≤ row → contains row published ≡ false)
    (own : (m : HasMessage s.outbox s.published k job)
      → (f job).status ≡ queued
      → contains m.row published ≡ false) where
  HasMessage-update :
      IsValid s
      → (j : ℕ) (new : Job) → lookup j (adjust k f s.jobs) ≡ some new
      → HasMessage s.outbox published j new
  HasMessage-update v j new h = elim (adjust_cases k f job s.jobs found j new h) [
    | inl c ↦
        let m = v.covered k job found in
        record {
          row = m.row;
          msg = m.msg;
          found = m.found;
          points = ground (arith, m.points);
          envelope = ground (arith, m.envelope, r.same_type);
          waiting = λ q. own m (ground arith);
        }
    | inr c ↦
        let m = v.covered j new c.old in
        record {
          row = m.row;
          msg = m.msg;
          found = m.found;
          points = m.points;
          envelope = m.envelope;
          waiting = λ q.
              keeps m.row m.msg m.found (λ same. c.off (ground (arith, m.points))) (m.waiting q);
        }
  ]

  IsRouted-update :
      (row : ℕ) (msg : OutboxMessage)
      → IsRouted s.jobs row msg
      → IsRouted (adjust k f s.jobs) row msg
  IsRouted-update row msg i = elim (Bool-cases (nat_eq k msg.job_id)) [
    | inl same ↦ record {
      job = f job;
      keyed = i.keyed;
      exists = ground (arith, lookup-adjust k msg.job_id f s.jobs);
      addressed = ground (arith, i.addressed, i.exists, r.same_type);
    }
    | inr other ↦ record {
      job = i.job;
      keyed = i.keyed;
      exists = ground (arith, lookup-adjust k msg.job_id f s.jobs);
      addressed = i.addressed;
    }
  ]

  pub IsValid-update :
      IsValid s → IsValid (record s { jobs = adjust k f s.jobs; published = published })
  IsValid-update v = record {
    one_active =
        λ t. omega (arith, active_count-adjust-le k f job r t s.jobs found, v.one_active t);
    job_ids = HasIds-adjust k f job r s.next_job s.jobs found v.job_ids;
    distinct_jobs = adjust-HasDistinctKeys k f s.jobs v.distinct_jobs;
    rows_below = v.rows_below;
    unpublished_above = fresh;
    distinct_rows = v.distinct_rows;
    covered = HasMessage-update v;
    routed = λ row msg h. IsRouted-update row msg (v.routed row msg h);
  }
