-- ===== src/Journey/Loops.antt =====
-- dispatcher/__main__.py and then worker/__main__.py over InMemoryStore: what becomes of the jobs
-- that were queued.
use job_processing_workflow.Prelude.{
  ℕ, ◌≡◌, ◌≢◌, ◌⊎◌, inl, inr, ap, sym, subst, ◌∙◌, false, String, some, none, List, [], ◌∷◌, map,
  length, ◌<◌, arith, lookup, nat_key, All,
}
use mathlib.Core.List.{Memᴰ, append-nil}
use mathlib.Core.List.Memᴰ
use job_processing_workflow.Models as Models
use job_processing_workflow.Models.{Time, Job, queued, running, Envelope, OutboxMessage}
use job_processing_workflow.MemoryStore.{InMemoryStore}
use job_processing_workflow.MemoryStore.AsStore.{in_memory}
use job_processing_workflow.MemoryStore.AsStore.Laws.{status, in_memory_laws}
use job_processing_workflow.MemoryStore.Invariant.{IsValid}
use job_processing_workflow.MemoryStore.Lifecycle.{Reach-Remains}
use job_processing_workflow.Messaging.{InMemoryProducer, Consumer}
use job_processing_workflow.Store.Laws.{can_claim}
use job_processing_workflow.Service.{Ended}
use job_processing_workflow.Dispatcher.Memory.{sent_as}
use job_processing_workflow.Dispatcher.Loop.Drains.{pending, runs, loop_drains}
use job_processing_workflow.Dispatcher.Loop.Published.{loop-Underway, loop-Reach}
use job_processing_workflow.Worker.{Lookup, Outcome}
use job_processing_workflow.Worker.Loop.{polling, Running, goes, start, run_loop}
use job_processing_workflow.Worker.Loop.Accounts.{ConsumerLaws, Delivers, final}
use job_processing_workflow.Worker.Loop.Delivery.{goes-Delivers}
use job_processing_workflow.Worker.Loop.Settles.Runs.{
  run_loop_keeps, run_loop-IsSettled, run_loop_present, IsSettled-ended,
}

All-Memᴰ : {A : Type 0} (P : A → Type 0) (a : A) (l : List A) → All P l → Memᴰ a l → P a
All-Memᴰ P a (x ∷ l) h (Memᴰ.head e) = subst P (sym e) h.0
All-Memᴰ P a (x ∷ l) h (Memᴰ.tail m) = All-Memᴰ P a l h.1 m
All-Memᴰ P a [] h m = absurd (Memᴰ.not-nil m)

module _ (topic : String) (n : ℕ) (clocks : List (ℕ → Time)) (s : InMemoryStore)
    (p : InMemoryProducer) (v : IsValid s) (positive : 0 < n)
    (enough : pending s < length clocks) where
  -- The dispatcher when it has ended.
  abbrev pub dispatched_all : Ended InMemoryStore InMemoryProducer ℕ
  dispatched_all = runs topic n 0 clocks (s, p)

  -- The message of a job that was queued has been handed over.
  handed_over :
      (k : ℕ) (job : Job)
      → lookup k s.jobs ≡ some job
      → job.status ≡ queued
      → (status dispatched_all.store k ≢ none)
        × ((msg : OutboxMessage) × (msg.payload.job_id ≡ k)
            × Memᴰ (sent_as topic msg) dispatched_all.kafka.published)
  handed_over k job found waits =
      let m = v.covered k job found in
      let (still, under) =
        loop-Underway topic n 0 clocks s p m.row m.msg v m.found (inl (m.waiting waits)) in
      let (new, there, _) = Reach-Remains k job v (loop-Reach topic n 0 clocks s p v) found in
      let (_, _, all) = loop_drains topic n clocks s p v positive enough in
      let (marked, _) = all m.row k m.msg new still there in
      let sent : Memᴰ (sent_as topic m.msg) dispatched_all.kafka.published = elim under [
        | inl free ↦ absurd (cc (marked, free))
        | inr among ↦ among
      ] in
      (λ missing. ground (arith, there, missing), (m.msg, ground (arith, m.envelope), sent))

  module _ {C : Type 0} (consumer : Consumer C) (log : C → List Envelope) (committed : C → ℕ)
      (laws : ConsumerLaws consumer log committed) (handlers : Lookup) (c : C) (fresh : log c ≡ [])
      (uncommitted : committed c ≡ 0) (worker_clocks : List (ℕ → Time)) where
    -- The worker, which starts on the store that the dispatcher has left, after some steps.
    abbrev pub worked : Running InMemoryStore C
    worked = final (
        run_loop in_memory handlers consumer (map goes worker_clocks)
          (start dispatched_all.store c))

    -- The worker is between two rounds, and has been delivered what the dispatcher has handed over.
    pub record CaughtUp : Type 0 where
      pub between : worked.phase ≡ polling
      pub delivered :
          (m : String × String × Envelope)
          → Memᴰ m dispatched_all.kafka.published
          → Memᴰ m.2 (log worked.consumer)

    -- Over a well-formed in-memory store: a dispatcher alone with it, with the recording producer and
    -- a positive batch size, makes more rounds than there are rows to be published, and ends. A worker
    -- that no other component disturbs starts on the store it has left, where no job is running, with
    -- a consumer that keeps the laws and that has been delivered nothing. Whenever the worker is between
    -- two rounds and has been delivered all that was handed over, every job that was queued at the start
    -- is completed or failed.
    pub queued-Ends :
        CaughtUp
        → ((j : ℕ) → status dispatched_all.store j ≢ some running)
        → (k : ℕ) (job : Job) → lookup k s.jobs ≡ some job
        → job.status ≡ queued
        → (status worked.store k ≡ some Models.completed)
          ⊎ (status worked.store k ≡ some Models.failed)
    queued-Ends caught none_running k job found waits =
        let (there, (msg, own, sent)) = handed_over k job found waits in
        let delivers =
          run_loop_keeps in_memory status in_memory_laws handlers consumer (Delivers log)
            (goes-Delivers in_memory handlers consumer log committed laws) worker_clocks
            (start dispatched_all.store c) fresh in
        let settles =
          run_loop-IsSettled in_memory status in_memory_laws handlers consumer worker_clocks
            (start dispatched_all.store c)
            (record { none_running = none_running; reported = tt; just_now = tt }) in
        let present =
          run_loop_present in_memory status in_memory_laws handlers consumer worker_clocks
            (start dispatched_all.store c) k there in
        let all : log worked.consumer ≡ map (λ line. line.0) worked.output =
          delivers ∙ rw caught.between (append-nil _) in
        let (line, among, same) =
          Memᴰ.of_map (λ (l : Envelope × Outcome). l.0) worked.output
            (subst (Memᴰ msg.payload) all (caught.delivered _ sent)) in
        let done =
          All-Memᴰ (λ (l : Envelope × Outcome). can_claim (status worked.store l.0.job_id) ≡ false)
            line worked.output settles.reported among in
        IsSettled-ended in_memory status in_memory_laws handlers consumer worked k settles present (
          subst (λ i. can_claim (status worked.store i) ≡ false)
            (ap (λ (m : Envelope). m.job_id) same ∙ own) done)
