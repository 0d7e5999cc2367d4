-- ===== src/ApiV2/Breaker.antt =====
-- handlerAPIv2/circuit_breaker.py: a store behind a circuit breaker. The breaker is one of the
-- library pybreaker, which is a parameter: its `call`, and what is documented of it.
use job_processing_workflow.Prelude.{
  ℕ, ◌≡◌, refl, ap, String, Bool, true, false, Option, ◌⊎◌, inl, inr,
}
use job_processing_workflow.Models.{Job, Time}
use job_processing_workflow.Api.Schemas.{CreateJobRequest}
use job_processing_workflow.ApiV2.{
  Principal, Raised, reply, shown, circuit_open, Result, raises, FallibleStore, create_job, get_job,
  readyz, status_of, handle,
}

-- The breaker with the store that it guards: `CircuitBreakerStore`.
pub record Guarded (B S : Type 0) : Type 0 where
  pub breaker : B
  pub inner : S

-- A breaker of the library, by its method `call`.
pub record Breaker (B S : Type 0) : Type 1 where
  pub call : {A : Type 0} → Time → (S → S × Result A) → Guarded B S → Guarded B S × Result A

-- A call that is let through: the store behind the breaker is as the call leaves it, and the answer
-- is that of the call, or the error that the breaker is open, where the call has raised and has
-- opened it.
pub record Passes {B S A : Type 0} (opens : Bool) (r : Guarded B S × Result A)
    (plain : S × Result A) : Type 0 where
  pub inner : (r.0).inner ≡ plain.0
  pub answer :
      (r.1 ≡ plain.1)
      ⊎ ((r.1 ≡ raises circuit_open) × (opens ≡ true) × ((e : Raised) × (plain.1 ≡ raises e)))

-- What the library documents of `call`: when the breaker is open it raises its error and does not
-- call; else it calls. `admits` tells which, and `opens` whether an exception now opens the breaker.
pub record BreakerLaws {B S : Type 0} (b : Breaker B S) (admits opens : Time → B → Bool)
    : Type 1 where
  pub refuses :
      {A : Type 0}
      → (now : Time) (f : S → S × Result A) (g : Guarded B S) → admits now g.breaker ≡ false
      → ((b.call now f g).0.inner ≡ g.inner) × ((b.call now f g).1 ≡ raises circuit_open)
  pub passes :
      {A : Type 0}
      → (now : Time) (f : S → S × Result A) (g : Guarded B S) → admits now g.breaker ≡ true
      → Passes (opens now g.breaker) (b.call now f g) (f g.inner)

module _ {B S : Type 0} (b : Breaker B S) where
  abbrev pub guarded : FallibleStore S → FallibleStore (Guarded B S)
  guarded store = record {
    enqueue =
        λ now job_type input creator g. b.call now (store.enqueue now job_type input creator) g;
    get_job = λ now job_id g. b.call now (store.get_job now job_id) g;
  }

-- The breaker has refused a call: the store behind it is as it was, and the answer is 503.
abbrev pub FailsFast : {B S A : Type 0} → Guarded B S → Guarded B S × Result A → Type 0
FailsFast g r = ((r.0).inner ≡ g.inner) × (status_of 200 r.1 ≡ 503)

module _ {B S : Type 0} (b : Breaker B S) (admits opens : Time → B → Bool)
    (laws : BreakerLaws b admits opens) (store : FallibleStore S) (now : Time)
    (g : Guarded B S) where
  -- A breaker of which the library's documentation holds: while it is open, each of the three routes
  -- answers 503, and the store behind the breaker is as it was.
  pub guarded-FailsFast :
      (body : CreateJobRequest) (p : Principal) (k : ℕ)
      → admits now g.breaker ≡ false
      → FailsFast g (create_job (guarded b store) now body p g)
        × FailsFast g (get_job (guarded b store) now k g)
        × FailsFast g (readyz (guarded b store) now g)
  unfolding create_job get_job readyz handle
  guarded-FailsFast body p k refused =
      let made = laws.refuses now (store.enqueue now _ _ _) g refused in
      let read = laws.refuses now (store.get_job now k) g refused in
      let probed = laws.refuses now (store.get_job now 0) g refused in
      ((made.0, rw (made.1) refl), (read.0, rw (read.1) refl), (probed.0, rw (probed.1) refl))

  reply-Passes :
      (job_type : String) (r : Guarded B S × Result (Option ℕ)) (plain : S × Result (Option ℕ))
      → Passes (opens now g.breaker) r plain
      → Passes (opens now g.breaker) (r.0, reply job_type r.1) (plain.0, reply job_type plain.1)
  reply-Passes job_type r plain h = record {
    inner = h.inner;
    answer = elim h.answer [
      | inl same ↦ inl (ap (reply job_type) same)
      | inr (opened, trips, (e, raised)) ↦
          inr (ap (reply job_type) opened, trips, (e, ap (reply job_type) raised))
    ];
  }

  shown-Passes :
      (k : ℕ) (r : Guarded B S × Result (Option Job)) (plain : S × Result (Option Job))
      → Passes (opens now g.breaker) r plain
      → Passes (opens now g.breaker) (r.0, shown k r.1) (plain.0, shown k plain.1)
  shown-Passes k r plain h = record {
    inner = h.inner;
    answer = elim h.answer [
      | inl same ↦ inl (ap (shown k) same)
      | inr (opened, trips, (e, raised)) ↦
          inr (ap (shown k) opened, trips, (e, ap (shown k) raised))
    ];
  }

  -- A breaker of which the library's documentation holds: while it admits calls, creating and reading
  -- a job through it leave the store behind it as the same route without a breaker does, and are
  -- answered the same, unless the route raises and its call opens the breaker: then the error is that
  -- the breaker is open.
  pub guarded-Follows :
      (body : CreateJobRequest) (p : Principal) (k : ℕ)
      → admits now g.breaker ≡ true
      → Passes
          (opens now g.breaker)
          (create_job (guarded b store) now body p g)
          (create_job store now body p g.inner)
        × Passes
            (opens now g.breaker)
            (get_job (guarded b store) now k g)
            (get_job store now k g.inner)
  unfolding create_job get_job
  guarded-Follows body p k admitted = (
    reply-Passes body.job_type _ _ (laws.passes now (store.enqueue now _ _ _) g admitted),
    shown-Passes k _ _ (laws.passes now (store.get_job now k) g admitted),
  )
