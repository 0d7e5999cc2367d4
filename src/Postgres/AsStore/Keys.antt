-- ===== src/Postgres/AsStore/Keys.antt =====
-- The methods of common/db.py keep the primary keys of the tables.
use job_processing_workflow.Prelude.{
  ℕ, ◌+◌, ◌≡◌, refl, sym, subst, String, Bool, Option, some, none, List, [], ◌∷◌, ◌++◌, lookup,
  nat_key, HasDistinctKeys, insert-HasDistinctKeys, lookup-insert, arith, Bool-cases, Option-cases,
  inl, inr, nat_eq, Dict,
}
use mathlib.Core.Option.{get_or}
use job_processing_workflow.Models.{Job, is_running, build_envelope, Time, Payload, Creator}
use job_processing_workflow.MemoryStore.Invariant.{RowsBelow}
use job_processing_workflow.MemoryStore.Invariant.Jobs.{HasIds, HasIds-insert, lookup-insert_fresh}
use job_processing_workflow.Postgres as Postgres
use job_processing_workflow.Postgres.{Jsonb, JobRow, OutboxRow, Tables, update_rows, to_job}
use job_processing_workflow.Postgres.View.{view_jobs, view_outbox}
use job_processing_workflow.Postgres.Rows.{view_jobs-snoc, view_outbox-snoc, view_outbox-update}
use job_processing_workflow.Postgres.AsStore.{HasKeys}

module _ (test : JobRow → Bool) (f : JobRow → JobRow)
    (same_id : (r : JobRow) → (f r).id ≡ r.id) where
  absent-update :
      (k : ℕ) (rows : List JobRow)
      → lookup k (view_jobs rows) ≡ none
      → lookup k (view_jobs (update_rows test f rows)) ≡ none
  absent-update k [] h = refl
  absent-update k (r ∷ rows) h = ground (arith, absent-update k rows, same_id r)

  distinct-update :
      (rows : List JobRow)
      → HasDistinctKeys (view_jobs rows)
      → HasDistinctKeys (view_jobs (update_rows test f rows))
  distinct-update [] h = tt
  distinct-update (r ∷ rows) h =
      ground (arith, distinct-update rows, absent-update r.id rows, same_id r)

  ids-update :
      (n : ℕ) (rows : List JobRow)
      → HasIds n (view_jobs rows)
      → HasIds n (view_jobs (update_rows test f rows))
  ids-update n [] h = tt
  ids-update n (r ∷ rows) h = ground (arith, ids-update n rows, same_id r)

  update-HasKeys :
      (t : Tables) → HasKeys t → HasKeys (record t { jobs = update_rows test f t.jobs })
  update-HasKeys t h = record {
    distinct_jobs = distinct-update t.jobs h.distinct_jobs;
    job_ids = ids-update t.next_job t.jobs h.job_ids;
    distinct_rows = h.distinct_rows;
    rows_below = h.rows_below;
  }

publish-HasKeys :
    (test : OutboxRow → Bool) (at : Option Time) (t : Tables)
    → HasKeys t
    → HasKeys (record t {
      outbox = update_rows test (λ (r : OutboxRow). record r { published_at = at }) t.outbox;
    })
publish-HasKeys test at t h =
    let same = view_outbox-update test at t.outbox in
    record {
      distinct_jobs = h.distinct_jobs;
      job_ids = h.job_ids;
      distinct_rows = subst HasDistinctKeys (sym same) h.distinct_rows;
      rows_below = subst (RowsBelow t.next_outbox) (sym same) h.rows_below;
    }

module _ (now : Time) (k : ℕ) (t : Tables) (h : HasKeys t) where
  pub claim-HasKeys : HasKeys (Postgres.claim now k t).0
  unfolding Postgres.claim
  claim-HasKeys = update-HasKeys _ _ (λ r. refl) t h

  pub complete-HasKeys : HasKeys (Postgres.complete now k t).0
  unfolding Postgres.complete
  complete-HasKeys = update-HasKeys _ _ (λ r. refl) t h

  pub fail-HasKeys : HasKeys (Postgres.fail now k t).0
  unfolding Postgres.fail
  fail-HasKeys = update-HasKeys _ _ (λ r. refl) t h

  pub dead_letter-HasKeys : HasKeys (Postgres.dead_letter now k t).0
  unfolding Postgres.dead_letter
  dead_letter-HasKeys = update-HasKeys _ _ (λ r. refl) t h

  pub mark_dispatched-HasKeys : (row : ℕ) → HasKeys (Postgres.mark_dispatched now row k t)
  unfolding Postgres.mark_dispatched
  mark_dispatched-HasKeys row =
      update-HasKeys _ _ (λ r. refl) _
        (publish-HasKeys (λ (r : OutboxRow). nat_eq r.id row) (some now) t h)

  pub resolve_payload-HasKeys :
      (jsonb : Jsonb) (type : String) → HasKeys (Postgres.resolve_payload jsonb now k type t).0
  unfolding Postgres.resolve_payload
  resolve_payload-HasKeys jsonb type =
      elim (Option-cases (Postgres.config_of type t.job_type_config)) [
        | inl missing ↦
            let same : (Postgres.resolve_payload jsonb now k type t).0 ≡ t =
              ground (arith, missing) in
            subst HasKeys (sym same) h
        | inr (c, found) ↦
            let rows =
              update_rows (Postgres.guard is_running k) (Postgres.merge jsonb c.payload now)
                t.jobs in
            let same : (Postgres.resolve_payload jsonb now k type t).0 ≡ record t { jobs = rows } =
              ground (arith, found) in
            subst HasKeys (sym same) (update-HasKeys _ _ (λ r. refl) t h)
      ]

  pub requeue_stuck-HasKeys : HasKeys (Postgres.requeue_stuck now k t).0
  unfolding Postgres.requeue_stuck
  requeue_stuck-HasKeys =
      let test = Postgres.below_cap t.job_type_config k in
      let moved = update-HasKeys test (Postgres.requeue now) (λ r. refl) t h in
      elim (Bool-cases (nat_eq (Postgres.row_count test t.jobs) 1)) [
        | inl one ↦ rw one (publish-HasKeys (λ (r : OutboxRow). nat_eq r.job_id k) none _ moved)
        | inr other ↦ rw other moved
      ]

HasIds-mono : (n : ℕ) (d : Dict ℕ Job) → HasIds n d → HasIds (n + 1) d
HasIds-mono n [] h = tt
HasIds-mono n ((k, job) ∷ d) h = ground (arith, HasIds-mono n d)

module _ (jsonb : Jsonb) (now : Time) (type : String) (input : Option Payload)
    (creator : Option Creator) (t : Tables) (h : HasKeys t) where
  abbrev new_row : JobRow
  new_row =
      Postgres.inserted t.next_job type (jsonb.store (get_or input []))
        (get_or creator Postgres.no_creator) now

  abbrev new_message : OutboxRow
  new_message = record {
    id = t.next_outbox;
    job_id = t.next_job;
    payload = build_envelope t.next_job type;
    published_at = none;
  }

  no_row : lookup t.next_outbox (view_outbox t.outbox) ≡ none
  no_row = elim (Option-cases (lookup t.next_outbox (view_outbox t.outbox))) [
    | inl missing ↦ missing
    | inr (msg, found) ↦ ground (arith, h.rows_below t.next_outbox msg found)
  ]

  abbrev after : Tables
  after = record t {
    jobs = t.jobs ++ new_row ∷ [];
    outbox = t.outbox ++ new_message ∷ [];
    next_job = t.next_job + 1;
    next_outbox = t.next_outbox + 1;
  }

  after-HasKeys : HasKeys after
  after-HasKeys =
      let jobs =
        view_jobs-snoc t.jobs new_row
          (lookup-insert_fresh t.next_job (view_jobs t.jobs) h.job_ids) in
      let rows = view_outbox-snoc t.outbox new_message no_row in
      record {
        distinct_jobs =
            subst HasDistinctKeys (sym jobs) (insert-HasDistinctKeys _ _ _ h.distinct_jobs);
        job_ids =
            subst (HasIds (t.next_job + 1)) (sym jobs)
              (HasIds-insert t.next_job _ _ refl h.job_ids);
        distinct_rows =
            subst HasDistinctKeys (sym rows) (insert-HasDistinctKeys _ _ _ h.distinct_rows);
        rows_below = subst (RowsBelow (t.next_outbox + 1)) (sym rows) (λ k msg found. ground (
          arith,
          found,
          lookup-insert t.next_outbox k (Postgres.keyed new_message).1 (view_outbox t.outbox),
          h.rows_below k msg,
        ));
      }

  pub enqueue-HasKeys : HasKeys (Postgres.enqueue jsonb now type input creator t).0
  unfolding Postgres.enqueue
  enqueue-HasKeys = elim (Bool-cases (Postgres.conflicts type t.jobs)) [
    | inl held ↦ rw held (record {
      distinct_jobs = h.distinct_jobs;
      job_ids = HasIds-mono t.next_job _ h.job_ids;
      distinct_rows = h.distinct_rows;
      rows_below = h.rows_below;
    })
    | inr free ↦ rw free after-HasKeys
  ]
