-- ===== src/Dispatcher/Loop/Published.antt =====
-- dispatcher/__main__.py over InMemoryStore: which messages the loop hands to the producer.
use job_processing_workflow.Prelude.{
  ℕ, ◌≡◌, ◌⊎◌, inl, inr, ap, sym, subst, ◌∙◌, true, false, String, some, List, [], ◌∷◌, map, any,
  nat_eq, nat_eq_iff, arith, Bool-cases, lookup, nat_key, contains, All,
}
use mathlib.Core.List.{Memᴰ}
use mathlib.Core.List.Memᴰ
use job_processing_workflow.Models.{pos, Time, OutboxMessage}
use job_processing_workflow.MemoryStore.{InMemoryStore, fetch_unpublished}
use job_processing_workflow.MemoryStore.AsStore.{in_memory}
use job_processing_workflow.MemoryStore.Invariant.{IsValid}
use job_processing_workflow.MemoryStore.Steps.{Reach, Reach-trans, Reach-IsValid, here}
use job_processing_workflow.MemoryStore.Unpublished.{IsPending, fetch_unpublished-IsPending}
use job_processing_workflow.Messaging.{InMemoryProducer, in_process}
use job_processing_workflow.Dispatcher.{dispatch_once}
use job_processing_workflow.Dispatcher.Memory.{
  sent_as, dispatch_once-Reach, dispatch_once-in_process, dispatch_once-outbox,
}
use job_processing_workflow.Dispatcher.Loop.{loop}
use job_processing_workflow.Dispatcher.Loop.Drains.{runs, round_lem, counted}

-- A row with an id of the list is in the list, where each row of the list is the one that stands
-- under its id.
row_among :
    (s : InMemoryStore) (l : List OutboxMessage) (row : ℕ) (msg : OutboxMessage)
    → All (IsPending s) l
    → lookup row s.outbox ≡ some msg
    → any (λ (m : OutboxMessage). nat_eq m.id row) l ≡ true
    → Memᴰ msg l
row_among s [] row msg h found e = cc
row_among s (m ∷ l) row msg h found e = elim (Bool-cases (nat_eq m.id row)) [
  | inl own ↦ Memᴰ.head (ground (arith, (h.0).found, found, nat_eq_iff m.id row, own))
  | inr later ↦ Memᴰ.tail (row_among s l row msg h.1 found (ground (arith, later, e)))
]

module _ (topic : String) (n : ℕ) where
  -- The row is still to be published, or its message has been handed over.
  abbrev pub Underway : ℕ → OutboxMessage → InMemoryStore → InMemoryProducer → Type 0
  Underway row msg s p = (contains row s.published ≡ false) ⊎ Memᴰ (sent_as topic msg) p.published

  dispatch_once-Underway :
      (clock : ℕ → Time) (s : InMemoryStore) (p : InMemoryProducer) (row : ℕ) (msg : OutboxMessage)
      → IsValid s
      → lookup row s.outbox ≡ some msg
      → Underway row msg s p
      → let w = (dispatch_once in_memory in_process clock topic (pos n) (s, p)).0 in
        Underway row msg w.0 w.1
  dispatch_once-Underway clock s p row msg v found u =
      let rows = fetch_unpublished (pos n) s in
      let (_, log, marked) = dispatch_once-in_process clock topic (pos n) s p in
      elim u [
        | inr sent ↦ inr (
            subst (Memᴰ (sent_as topic msg)) (sym log)
              (Memᴰ.append_left (map (sent_as topic) rows) sent))
        | inl free ↦ elim (Bool-cases (any (λ (m : OutboxMessage). nat_eq m.id row) rows)) [
          | inr skipped ↦ inl (ground (arith, marked row, free, skipped))
          | inl taken ↦
              let among =
                row_among s rows row msg (fetch_unpublished-IsPending (pos n) s v) found taken in
              inr (
                subst (Memᴰ (sent_as topic msg)) (sym log)
                  (Memᴰ.append_right p.published (Memᴰ.map (sent_as topic) among)))
        ]
      ]

  pub loop-Underway :
      (sleeps : ℕ) (clocks : List (ℕ → Time)) (s : InMemoryStore) (p : InMemoryProducer) (row : ℕ)
      (msg : OutboxMessage)
      → IsValid s
      → lookup row s.outbox ≡ some msg
      → Underway row msg s p
      → let e = runs topic n sleeps clocks (s, p) in
        (lookup row e.store.outbox ≡ some msg) × Underway row msg e.store e.kafka
  unfolding loop
  loop-Underway sleeps [] s p row msg v found u = (found, u)
  loop-Underway sleeps (clock ∷ clocks) s p row msg v found u =
      let (t, q) = (dispatch_once in_memory in_process clock topic (pos n) (s, p)).0 in
      rw (round_lem topic n sleeps clock clocks s p) (
        loop-Underway (counted n s sleeps) clocks t q row msg
          (Reach-IsValid v (dispatch_once-Reach in_process clock topic (pos n) s p v))
          (ap (lookup row) (dispatch_once-outbox clock topic (pos n) s p) ∙ found)
          (dispatch_once-Underway clock s p row msg v found u))

  -- The loop is a sequence of calls of the store's methods.
  pub loop-Reach :
      (sleeps : ℕ) (clocks : List (ℕ → Time)) (s : InMemoryStore) (p : InMemoryProducer)
      → IsValid s
      → Reach s (runs topic n sleeps clocks (s, p)).store
  unfolding loop
  loop-Reach sleeps [] s p v = here
  loop-Reach sleeps (clock ∷ clocks) s p v =
      let (t, q) = (dispatch_once in_memory in_process clock topic (pos n) (s, p)).0 in
      let first = dispatch_once-Reach in_process clock topic (pos n) s p v in
      rw (round_lem topic n sleeps clock clocks s p)
        (Reach-trans first (loop-Reach (counted n s sleeps) clocks t q (Reach-IsValid v first)))
