-- ===== src/Postgres/Normal.antt =====
-- What common/db.py keeps of the state of InMemoryStore: a job without a creator gets one without
-- fields, and payloads go through JSONB columns.
pub mod Calls
pub mod Payloads
use job_processing_workflow.Prelude.{
  ℕ, ◌≡◌, refl, ap, sym, add, ◌∙◌, String, Bool, true, false, Option, some, none, List, [], ◌∷◌,
  any, ltb, if◌then◌else◌, Key, Dict, values, lookup, insert, adjust, nat_key, text_key,
  HasDistinctKeys, overlay, arith, Bool-cases, Option-cases, inl, inr,
}
use mathlib.Core.Option
use mathlib.Core.Option.{get_or}
use job_processing_workflow.Models.{
  Job, JobStatus, Time, Payload, Creator, StuckJob, is_running, is_queued, running, dispatched,
  completed, failed,
}
use job_processing_workflow.MemoryStore as Memory
use job_processing_workflow.MemoryStore.{
  InMemoryStore, TypeConfig, is_active_of, active, stuck_of, timeout, max_attempts,
}
use job_processing_workflow.Postgres.{Jsonb, no_creator}
use job_processing_workflow.Postgres.Payloads.{snapshot_by, resolve_by}

-- What the documentation of the database says of `||`: it merges the two objects, and the right one
-- wins; the empty object is held as it is.
pub record JsonbLaws (jsonb : Jsonb) : Type 0 where
  pub store_empty : jsonb.store [] ≡ []
  pub concat_store :
      (a b : Payload) → jsonb.concat (jsonb.store a) (jsonb.store b) ≡ jsonb.store (overlay a b)

abbrev pub map_values {ℓ κ κ'} :
    {K : Type ℓ} {A : Type κ} {B : Type κ'} → (A → B) → Dict K A → Dict K B
map_values f [] = []
map_values f ((k, a) ∷ d) = (k, f a) ∷ map_values f d

module _ {K A B : Type 0} ⦃key : Key K⦄ (f : A → B) where
  pub lookup-map_values :
      (k : K) (d : Dict K A) → lookup k (map_values f d) ≡ Option.map f (lookup k d)
  lookup-map_values k [] = refl
  lookup-map_values k ((j, a) ∷ d) = ground (arith, lookup-map_values k d)

  pub insert-map_values :
      (k : K) (a : A) (d : Dict K A) → insert k (f a) (map_values f d) ≡ map_values f (insert k a d)
  insert-map_values k a [] = refl
  insert-map_values k a ((j, b) ∷ d) = ground (arith, insert-map_values k a d)

  pub adjust-map_values :
      (k : K) (g : B → B) (h : A → A)
      → ((a : A) → g (f a) ≡ f (h a))
      → (d : Dict K A) → adjust k g (map_values f d) ≡ map_values f (adjust k h d)
  adjust-map_values k g h e [] = refl
  adjust-map_values k g h e ((j, a) ∷ d) = ground (arith, adjust-map_values k g h e d, e a)

  pub map_values-HasDistinctKeys :
      (d : Dict K A) → HasDistinctKeys d → HasDistinctKeys (map_values f d)
  map_values-HasDistinctKeys [] h = tt
  map_values-HasDistinctKeys ((k, a) ∷ d) h =
      (rw (lookup-map_values k d, h.0) refl, map_values-HasDistinctKeys d h.1)

module _ (test : JobStatus → Bool) (update : Job → Job) (k : ℕ) (s : InMemoryStore) where
  guarded_none : lookup k s.jobs ≡ none → Memory.guarded_update test update k s ≡ (s, false)
  guarded_none h = ground (arith, h)

  guarded_some :
      (job : Job)
      → lookup k s.jobs ≡ some job
      → Memory.guarded_update test update k s ≡ (
          if test job.status
          then (record s { jobs = adjust k update s.jobs }, true)
          else (s, false))
  guarded_some job h = ground (arith, h)

module _ (jsonb : Jsonb) where
  abbrev pub normal_job : Job → Job
  normal_job job = record job {
    input_payload = jsonb.store job.input_payload;
    payload = jsonb.store job.payload;
    created_by = some (get_or job.created_by no_creator);
  }

  abbrev pub normal_config : TypeConfig → TypeConfig
  normal_config c = record c { payload = jsonb.store c.payload }

  abbrev pub normal : InMemoryStore → InMemoryStore
  normal s = record s {
    jobs = map_values normal_job s.jobs;
    type_config = map_values normal_config s.type_config;
  }

  -- The call on what is kept of the store.
  abbrev pub Commutes {ℓ} : {A : Type ℓ} → (A → A) → InMemoryStore × A → InMemoryStore × A → Type ℓ
  Commutes f a b = a ≡ (normal b.0, f b.1)

  abbrev pub back {ℓ} : {A : Type ℓ} → (A → A) → InMemoryStore × A → InMemoryStore × A
  back f r = (normal r.0, f r.1)

  pub found_normal :
      (k : ℕ) (s : InMemoryStore) (job : Job)
      → lookup k s.jobs ≡ some job
      → lookup k (normal s).jobs ≡ some (normal_job job)
  found_normal k s job h = lookup-map_values normal_job k s.jobs ∙ ap (Option.map normal_job) h

  pub missing_normal :
      (k : ℕ) (s : InMemoryStore) → lookup k s.jobs ≡ none → lookup k (normal s).jobs ≡ none
  missing_normal k s h = lookup-map_values normal_job k s.jobs ∙ ap (Option.map normal_job) h

  guarded-Commutes :
      (test : JobStatus → Bool) (to : JobStatus) (now : Time) (k : ℕ) (s : InMemoryStore)
      → Commutes
          (λ b. b)
          (Memory.guarded_update test (Memory.set_status to now) k (normal s))
          (Memory.guarded_update test (Memory.set_status to now) k s)
  guarded-Commutes test to now k s =
      let set = Memory.set_status to now in
      let moved = adjust-map_values normal_job k set set (λ j. refl) s.jobs in
      elim (Option-cases (lookup k s.jobs)) [
        | inl missing ↦
            guarded_none test set k (normal s) (missing_normal k s missing)
            ∙ sym (ap (back (λ b. b)) (guarded_none test set k s missing))
        | inr (job, found) ↦
            guarded_some test set k (normal s) (normal_job job) (found_normal k s job found)
            ∙ by_test (test job.status) moved
            ∙ sym (ap (back (λ b. b)) (guarded_some test set k s job found))
      ]
    where
      by_test :
          (passes : Bool)
          → adjust k (Memory.set_status to now) (normal s).jobs
            ≡ map_values normal_job (adjust k (Memory.set_status to now) s.jobs)
          → (if passes
              then (
                record (normal s) { jobs = adjust k (Memory.set_status to now) (normal s).jobs },
                true,
              )
              else (normal s, false))
            ≡ back
                (λ b. b)
                (if passes
                  then (record s { jobs = adjust k (Memory.set_status to now) s.jobs }, true)
                  else (s, false))
      by_test true e = ap (λ d. (record (normal s) { jobs = d }, true)) e
      by_test false e = refl

  pub claim-Commutes :
      (now : Time) (k : ℕ) (s : InMemoryStore)
      → Commutes (λ b. b) (Memory.claim now k (normal s)) (Memory.claim now k s)
  unfolding Memory.claim
  claim-Commutes now k s = guarded-Commutes Memory.is_claimable running now k s

  pub complete-Commutes :
      (now : Time) (k : ℕ) (s : InMemoryStore)
      → Commutes (λ b. b) (Memory.complete now k (normal s)) (Memory.complete now k s)
  unfolding Memory.complete
  complete-Commutes now k s = guarded-Commutes is_running completed now k s

  pub fail-Commutes :
      (now : Time) (k : ℕ) (s : InMemoryStore)
      → Commutes (λ b. b) (Memory.fail now k (normal s)) (Memory.fail now k s)
  unfolding Memory.fail
  fail-Commutes now k s = guarded-Commutes is_running failed now k s

  pub dead_letter-Commutes :
      (now : Time) (k : ℕ) (s : InMemoryStore)
      → Commutes (λ b. b) (Memory.dead_letter now k (normal s)) (Memory.dead_letter now k s)
  unfolding Memory.dead_letter
  dead_letter-Commutes now k s = guarded-Commutes is_running failed now k s

  pub mark_dispatched-normal :
      (now : Time) (row k : ℕ) (s : InMemoryStore)
      → Memory.mark_dispatched now row k (normal s) ≡ normal (Memory.mark_dispatched now row k s)
  unfolding Memory.mark_dispatched
  mark_dispatched-normal now row k s =
      ap (λ r. r.0)
        (guarded-Commutes is_queued dispatched now k (record s { published = add row s.published }))
