-- ===== src/Dispatcher/Memory.antt =====
-- dispatcher/service.py over InMemoryStore.
use job_processing_workflow.Prelude.{
  ℕ, ◌+◌, ◌<◌, ◌≡◌, ◌≢◌, refl, sym, ◌∙◌, true, ◌||◌, String, some, List, [], ◌∷◌, ◌++◌, map, length,
  decimal, arith, Bool-cases, inl, inr, lookup, nat_key, nat_eq, All, All-imp, any, contains, add,
  contains-add,
}
use mathlib.Core.List.{append-nil, append_assoc}
use job_processing_workflow.Models.{ℤ, pos, Job, queued, Time, OutboxMessage, Envelope}
use job_processing_workflow.MemoryStore.{InMemoryStore, mark_dispatched, fetch_unpublished}
use job_processing_workflow.MemoryStore.AsStore.{in_memory}
use job_processing_workflow.MemoryStore.Invariant.{IsValid}
use job_processing_workflow.MemoryStore.Invariant.Publishing.{IsRow}
use job_processing_workflow.MemoryStore.Steps.{Reach, Reach-trans, Reach-IsValid, here, next, marks}
use job_processing_workflow.MemoryStore.Unpublished.{
  IsPending, fetch_unpublished-IsPending, fetch_unpublished_all,
}
use job_processing_workflow.Messaging.{Producer, InMemoryProducer, in_process, publish}
use job_processing_workflow.Dispatcher.{publish_all, dispatch_once}

module _ (now : Time) (row k : ℕ) (s : InMemoryStore) where
  mark_dispatched-outbox : (mark_dispatched now row k s).outbox ≡ s.outbox
  unfolding mark_dispatched
  mark_dispatched-outbox = ground arith

  mark_dispatched-published : (mark_dispatched now row k s).published ≡ add row s.published
  unfolding mark_dispatched
  mark_dispatched-published = ground arith

abbrev AllRows : InMemoryStore → List OutboxMessage → Type 0
AllRows s = All (λ msg. IsRow s msg.id msg.job_id)

module _ {P : Type 0} (producer : Producer P) where
  publish_all-Reach :
      (clock : ℕ → Time) (n : ℕ) (topic : String) (count : ℕ) (l : List OutboxMessage)
      (s : InMemoryStore) (p : P)
      → AllRows s l
      → Reach s (publish_all in_memory producer clock n topic count l (s, p)).0.0
  unfolding publish_all
  publish_all-Reach clock n topic count [] s p h = here
  publish_all-Reach clock n topic count (msg ∷ l) s p h =
      let (p', sent) = producer.publish topic (decimal msg.job_id) msg.payload p in
      let t = mark_dispatched (clock n) msg.id msg.job_id s in
      let first : Reach s t = next here (marks (clock n) msg.id msg.job_id h.0) in
      let rows : AllRows t l =
        All-imp (λ m. IsRow s m.id m.job_id) (λ m. IsRow t m.id m.job_id)
          (λ m (own, found, points).
            (own, rw (mark_dispatched-outbox (clock n) msg.id msg.job_id s) found, points))
          l h.1 in
      elim (Bool-cases sent) [
        | inl ok ↦
            rw ok (Reach-trans first (publish_all-Reach clock (n + 1) topic count l t p' rows))
        | inr raised ↦ rw raised here
      ]

  -- A batch, whether or not the producer raises, is a sequence of calls of the store's methods.
  pub dispatch_once-Reach :
      (clock : ℕ → Time) (topic : String) (batch_size : ℤ) (s : InMemoryStore) (p : P)
      → IsValid s
      → Reach s (dispatch_once in_memory producer clock topic batch_size (s, p)).0.0
  unfolding dispatch_once
  dispatch_once-Reach clock topic batch_size s p v =
      publish_all-Reach clock 0 topic (length (fetch_unpublished batch_size s))
        (fetch_unpublished batch_size s) s p
        (All-imp (IsPending s) (λ m. IsRow s m.id m.job_id) (λ m h. (m, h.found, refl)) _
          (fetch_unpublished-IsPending batch_size s v))

-- What the producer is handed for a row: the topic, the id of the job in digits, the envelope.
abbrev pub sent_as : String → OutboxMessage → String × String × Envelope
sent_as topic msg = (topic, decimal msg.job_id, msg.payload)

module _ (clock : ℕ → Time) (topic : String) where
  publish_all-in_process :
      (n count : ℕ) (l : List OutboxMessage) (s : InMemoryStore) (p : InMemoryProducer)
      → let r = publish_all in_memory in_process clock n topic count l (s, p) in
        (r.1 ≡ some count) × (r.0.1.published ≡ p.published ++ map (sent_as topic) l)
  unfolding publish_all publish
  publish_all-in_process n count [] s p = (refl, sym (append-nil p.published))
  publish_all-in_process n count (msg ∷ l) s p =
      let p' = (publish topic (decimal msg.job_id) msg.payload p).0 in
      let t = mark_dispatched (clock n) msg.id msg.job_id s in
      let (counted, log) = publish_all-in_process (n + 1) count l t p' in
      (counted, log ∙ append_assoc p.published (sent_as topic msg ∷ []) (map (sent_as topic) l))

  publish_all_keeps :
      (n count : ℕ) (l : List OutboxMessage) (s : InMemoryStore) (p : InMemoryProducer) (k : ℕ)
      → contains k (publish_all in_memory in_process clock n topic count l (s, p)).0.0.published
        ≡ (contains k s.published || any (λ msg. nat_eq msg.id k) l)
  unfolding publish_all publish
  publish_all_keeps n count [] s p k = ground arith
  publish_all_keeps n count (msg ∷ l) s p k =
      let p' = (publish topic (decimal msg.job_id) msg.payload p).0 in
      let t = mark_dispatched (clock n) msg.id msg.job_id s in
      ground (
        arith,
        publish_all_keeps (n + 1) count l t p' k,
        mark_dispatched-published (clock n) msg.id msg.job_id s,
        contains-add msg.id k s.published,
      )

  -- A batch with the recording producer: the rows that were fetched are handed over in their order,
  -- each with the id of its job as key; their number is returned; and exactly these rows are
  -- published in addition.
  pub dispatch_once-in_process :
      (batch_size : ℤ) (s : InMemoryStore) (p : InMemoryProducer)
      → let rows = fetch_unpublished batch_size s in
        let r = dispatch_once in_memory in_process clock topic batch_size (s, p) in
        (r.1 ≡ some (length rows))
        × (r.0.1.published ≡ p.published ++ map (sent_as topic) rows)
        × ((k : ℕ)
            → contains k r.0.0.published
              ≡ (contains k s.published || any (λ msg. nat_eq msg.id k) rows))
  unfolding dispatch_once
  dispatch_once-in_process batch_size s p =
      let rows = fetch_unpublished batch_size s in
      let (counted, log) = publish_all-in_process 0 (length rows) rows s p in
      (counted, log, publish_all_keeps 0 (length rows) rows s p)

  publish_all-outbox :
      (n count : ℕ) (l : List OutboxMessage) (s : InMemoryStore) (p : InMemoryProducer)
      → (publish_all in_memory in_process clock n topic count l (s, p)).0.0.outbox ≡ s.outbox
  unfolding publish_all publish
  publish_all-outbox n count [] s p = refl
  publish_all-outbox n count (msg ∷ l) s p =
      let p' = (publish topic (decimal msg.job_id) msg.payload p).0 in
      let t = mark_dispatched (clock n) msg.id msg.job_id s in
      publish_all-outbox (n + 1) count l t p' ∙ mark_dispatched-outbox (clock n) msg.id msg.job_id s

  pub dispatch_once-outbox :
      (batch_size : ℤ) (s : InMemoryStore) (p : InMemoryProducer)
      → (dispatch_once in_memory in_process clock topic batch_size (s, p)).0.0.outbox ≡ s.outbox
  unfolding dispatch_once
  dispatch_once-outbox batch_size s p =
      let rows = fetch_unpublished batch_size s in publish_all-outbox 0 (length rows) rows s p

  dispatch_once-published :
      (n : ℕ) (s : InMemoryStore) (p : InMemoryProducer)
      → IsValid s
      → length (fetch_unpublished (pos n) s) < n
      → let t = (dispatch_once in_memory in_process clock topic (pos n) (s, p)).0.0 in
        (k : ℕ) (msg : OutboxMessage) → lookup k t.outbox ≡ some msg → contains k t.published ≡ true
  unfolding dispatch_once
  dispatch_once-published n s p v short k msg h =
      let rows = fetch_unpublished (pos n) s in
      ground (
        arith,
        publish_all_keeps 0 (length rows) rows s p k,
        publish_all-outbox 0 (length rows) rows s p,
        h,
        fetch_unpublished_all n s k msg v short,
      )

  -- After a batch that was not full, with the recording producer, every row of the outbox is
  -- published, and no job is queued.
  pub dispatch_once_drains :
      (n : ℕ) (s : InMemoryStore) (p : InMemoryProducer)
      → IsValid s
      → length (fetch_unpublished (pos n) s) < n
      → let t = (dispatch_once in_memory in_process clock topic (pos n) (s, p)).0.0 in
        (row k : ℕ) (msg : OutboxMessage) (job : Job)
        → lookup row t.outbox ≡ some msg
        → lookup k t.jobs ≡ some job
        → (contains row t.published ≡ true) × (job.status ≢ queued)
  dispatch_once_drains n s p v short row k msg job found stored =
      let t = (dispatch_once in_memory in_process clock topic (pos n) (s, p)).0.0 in
      let m =
        (Reach-IsValid v (dispatch_once-Reach in_process clock topic (pos n) s p v)).covered k job
          stored in
      (
        dispatch_once-published n s p v short row msg found,
        λ q. cc (dispatch_once-published n s p v short m.row m.msg m.found, m.waiting q),
      )
