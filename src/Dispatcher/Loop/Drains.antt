-- ===== src/Dispatcher/Loop/Drains.antt =====
-- dispatcher/__main__.py over InMemoryStore: how soon the loop has published everything.
use job_processing_workflow.Prelude.{
  ℕ, zero, suc, ◌≤◌, ◌<◌, ◌≡◌, ◌≢◌, ◌⊎◌, refl, subst, ap, Bool, true, false, String, Option, some,
  List, [], ◌∷◌, select, take, length, map, arith, Bool-cases, inl, inr, lookup, nat_key, nat_eq,
  nat_eq_iff, contains, values, All, if◌then◌else◌,
}
use job_processing_workflow.Models.{pos, Job, queued, Time, OutboxMessage}
use job_processing_workflow.MemoryStore.{InMemoryStore, sorted, fetch_unpublished}
use job_processing_workflow.MemoryStore.AsStore.{in_memory}
use job_processing_workflow.MemoryStore.Invariant.{IsValid}
use job_processing_workflow.MemoryStore.Steps.{Reach-IsValid}
use job_processing_workflow.MemoryStore.Unpublished.{keyed_rows, is_unpublished}
use job_processing_workflow.Messaging.{InMemoryProducer, in_process}
use job_processing_workflow.Service.{Ended, returned}
use job_processing_workflow.Dispatcher.{dispatch_once, publish_all}
use job_processing_workflow.Dispatcher.Memory.{
  dispatch_once-Reach, dispatch_once-in_process, dispatch_once_drains, dispatch_once-outbox,
}
use job_processing_workflow.Dispatcher.Loop.{Round, loop}

module _ {A : Type 0} (p q : A → Bool) (fewer : (a : A) → q a ≡ true → p a ≡ true) where
  length-select-le : (l : List A) → length (select q l) ≤ length (select p l)
  length-select-le [] = omega arith
  length-select-le (x ∷ l) = ground (arith, fewer x, length-select-le l)

  -- Where the first element that passes `p` no longer passes, fewer do.
  length-select-lt :
      (l : List A) (x : A) (rest : List A)
      → select p l ≡ x ∷ rest
      → q x ≡ false
      → length (select q l) < length (select p l)
  length-select-lt [] x rest e h = cc
  length-select-lt (y ∷ l) x rest e h = elim (Bool-cases (p y)) [
    | inl passes ↦
        let same : y ≡ x = ground (arith, passes, e) in
        let out : q y ≡ false = rw same h in ground (arith, passes, out, length-select-le l)
    | inr fails ↦
        let out : q y ≡ false = ground (arith, fails, fewer y) in
        let tail : select p l ≡ x ∷ rest = ground (arith, fails, e) in
        ground (arith, fails, out, length-select-lt l x rest tail h)
  ]

-- The number of rows that are still to be published.
unfoldable pub pending : InMemoryStore → ℕ
pending s = length (select (is_unpublished s) (sorted s.outbox))

take-cons-ne :
    {A : Type 0} (n : ℕ) (x : A) (l : List A)
    → 0 < n
    → (rest : List A) × (take n (x ∷ l) ≡ x ∷ rest)
take-cons-ne zero x l h = absurd (omega arith)
take-cons-ne (suc n) x l h = (take n l, refl)

take-nil : {A : Type 0} (n : ℕ) → take {A = A} n [] ≡ []
take-nil zero = refl
take-nil (suc n) = refl

module _ (clock : ℕ → Time) (topic : String) (n : ℕ) (s : InMemoryStore) (p : InMemoryProducer)
    (v : IsValid s) (positive : 0 < n) where
  abbrev batch : (InMemoryStore × InMemoryProducer) × Option ℕ
  batch = dispatch_once in_memory in_process clock topic (pos n) (s, p)

  abbrev rows : List (ℕ × OutboxMessage)
  rows = select (is_unpublished s) (sorted s.outbox)

  still_free :
      (row : ℕ × OutboxMessage) → is_unpublished batch.0.0 row ≡ true → is_unpublished s row ≡ true
  still_free row h = ground (arith, (dispatch_once-in_process clock topic (pos n) s p).2 row.0, h)

  -- The first of the rows is in the batch.
  first_sent :
      (x : ℕ × OutboxMessage) (rest : List (ℕ × OutboxMessage))
      → rows ≡ x ∷ rest
      → is_unpublished batch.0.0 x ≡ false
  unfolding fetch_unpublished
  first_sent x rest e =
      let keyed = subst (All (λ y. y.1.id ≡ y.0)) e (keyed_rows s v) in
      let (more, cut) = take-cons-ne n x.1 (values rest) positive in
      ground (
        arith,
        (dispatch_once-in_process clock topic (pos n) s p).2 x.0,
        e,
        keyed.0,
        cut,
        nat_eq_iff x.1.id x.0,
      )

  -- A batch that sends something leaves fewer rows to be published; a batch that sends nothing finds
  -- none.
  dispatch_once_progress : (pending batch.0.0 < pending s) ⊎ (fetch_unpublished (pos n) s ≡ [])
  unfolding pending fetch_unpublished
  dispatch_once_progress = by_rows rows refl
    where
      by_rows :
          (l : List (ℕ × OutboxMessage))
          → rows ≡ l
          → (pending batch.0.0 < pending s) ⊎ (fetch_unpublished (pos n) s ≡ [])
      by_rows [] e = inr (rw e (take-nil n))
      by_rows (x ∷ rest) e = inl (
          rw (dispatch_once-outbox clock topic (pos n) s p) (
            length-select-lt (is_unpublished s) (is_unpublished batch.0.0) still_free
              (sorted s.outbox) x rest e (first_sent x rest e)))

-- The sleeps after a round.
abbrev pub counted : ℕ → InMemoryStore → ℕ → ℕ
counted n s sleeps = if nat_eq (length (fetch_unpublished (pos n) s)) 0 then suc sleeps else sleeps

-- A round in which no other component touches the store.
abbrev pub alone : (ℕ → Time) → Round InMemoryStore
alone clock = record { clock = clock; meanwhile = λ s. s }

module _ (topic : String) (n : ℕ) where
  abbrev pub runs :
      ℕ
      → List (ℕ → Time)
      → InMemoryStore × InMemoryProducer
      → Ended InMemoryStore InMemoryProducer ℕ
  runs sleeps clocks w =
      loop in_memory in_process (λ s. s) topic (pos n) sleeps (map alone clocks) w

  -- What the loop comes to when there is nothing to send.
  abbrev pub Slept : ℕ → Ended InMemoryStore InMemoryProducer ℕ → Type 0
  Slept sleeps e =
      (e.exit ≡ returned 0)
      × (sleeps ≤ e.log)
      × (fetch_unpublished (pos n) e.store ≡ [])
      × IsValid e.store

  pub round_lem :
      (sleeps : ℕ) (clock : ℕ → Time) (clocks : List (ℕ → Time)) (s : InMemoryStore)
      (p : InMemoryProducer)
      → runs sleeps (clock ∷ clocks) (s, p)
        ≡ runs
            (counted n s sleeps)
            clocks
            (dispatch_once in_memory in_process clock topic (pos n) (s, p)).0
  unfolding loop
  round_lem sleeps clock clocks s p =
      rw ((dispatch_once-in_process clock topic (pos n) s p).0, loop) refl

  nothing_sent :
      (clock : ℕ → Time) (s : InMemoryStore) (p : InMemoryProducer)
      → fetch_unpublished (pos n) s ≡ []
      → (dispatch_once in_memory in_process clock topic (pos n) (s, p)).0 ≡ (s, p)
  unfolding dispatch_once publish_all
  nothing_sent clock s p e = rw e refl

  idle-Slept :
      (sleeps : ℕ) (clocks : List (ℕ → Time)) (s : InMemoryStore) (p : InMemoryProducer)
      → IsValid s
      → fetch_unpublished (pos n) s ≡ []
      → Slept sleeps (runs sleeps clocks (s, p))
  unfolding loop
  idle-Slept sleeps [] s p v e = (refl, omega arith, e, v)
  idle-Slept sleeps (clock ∷ clocks) s p v e =
      let (ends, later, none_left, valid) = idle-Slept (suc sleeps) clocks s p v e in
      rw (round_lem sleeps clock clocks s p, nothing_sent clock s p e, e)
        (ends, omega (arith, later), none_left, valid)

  loop-Slept :
      (sleeps : ℕ) (clocks : List (ℕ → Time)) (s : InMemoryStore) (p : InMemoryProducer)
      → IsValid s
      → 0 < n
      → pending s < length clocks
      → Slept (suc sleeps) (runs sleeps clocks (s, p))
  loop-Slept sleeps [] s p v positive enough = absurd (omega arith)
  loop-Slept sleeps (clock ∷ clocks) s p v positive enough =
      let (t, q) = (dispatch_once in_memory in_process clock topic (pos n) (s, p)).0 in
      elim (dispatch_once_progress clock topic n s p v positive) [
        | inr none_left ↦
            rw (round_lem sleeps clock clocks s p, nothing_sent clock s p none_left, none_left)
              (idle-Slept (suc sleeps) clocks s p v none_left)
        | inl fewer ↦
            let (ends, later, none_left, valid) =
              loop-Slept (counted n s sleeps) clocks t q
                (Reach-IsValid v (dispatch_once-Reach in_process clock topic (pos n) s p v))
                positive (omega (arith, fewer, enough)) in
            let more : sleeps ≤ counted n s sleeps = ground arith in
            rw (round_lem sleeps clock clocks s p)
              (ends, omega (arith, later, more), none_left, valid)
      ]

  -- A dispatcher with a batch size that is positive, alone with a well-formed store and with the
  -- recording producer: after more rounds than there are rows to be published it has slept, every row
  -- of the outbox is published, and no job is queued; KeyboardInterrupt then ends it with exit code 0.
  pub loop_drains :
      (clocks : List (ℕ → Time)) (s : InMemoryStore) (p : InMemoryProducer)
      → IsValid s
      → 0 < n
      → pending s < length clocks
      → let e = runs 0 clocks (s, p) in
        (e.exit ≡ returned 0)
        × (0 < e.log)
        × ((row k : ℕ) (msg : OutboxMessage) (job : Job)
            → lookup row e.store.outbox ≡ some msg
            → lookup k e.store.jobs ≡ some job
            → (contains row e.store.published ≡ true) × (job.status ≢ queued))
  loop_drains clocks s p v positive enough =
      let e = runs 0 clocks (s, p) in
      let (ends, slept, none_left, valid) = loop-Slept 0 clocks s p v positive enough in
      let same = nothing_sent (λ i. 0) e.store p none_left in
      (
        ends,
        omega (arith, slept),
        λ row k msg job found stored.
            let short : length (fetch_unpublished (pos n) e.store) < n =
              ground (arith, none_left) in
            ground (
              arith,
              ap (λ w. w.0) same,
              found,
              stored,
              dispatch_once_drains (λ i. 0) topic n e.store p valid short row k msg job,
            ),
      )
