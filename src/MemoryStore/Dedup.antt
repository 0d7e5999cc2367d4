-- ===== src/MemoryStore/Dedup.antt =====
-- `enqueue` of common/store.py: when it declines, and what it stores.
use job_processing_workflow.Prelude.{
  ℕ, ◌≡◌, ◌↔◌, subst, true, String, Option, some, none, [], ◌∷◌, any, arith, if◌then◌else◌,
  Bool-cases, inl, inr, lookup, lookup-insert, nat_key, nat_eq, Dict, values, HasDistinctKeys,
  eq_iff,
}
use job_processing_workflow.Models.{Job, is_active, Time, Payload, Creator}
use job_processing_workflow.MemoryStore.{
  InMemoryStore, is_active_of, active, enqueue, get_job, new_job,
}
use job_processing_workflow.MemoryStore.Invariant.{IsValid}
use job_processing_workflow.MemoryStore.Invariant.Jobs.{lookup-insert_fresh}
use job_processing_workflow.MemoryStore.Invariant.Enqueue.{added, enqueue_cases}

-- A stored job of the type that is active.
pub record Holds (d : Dict ℕ Job) (t : String) : Type 0 where
  pub key : ℕ
  pub job : Job
  pub found : lookup key d ≡ some job
  pub same_type : job.job_type ≡ t
  pub is_held : is_active job.status ≡ true

Holds-cons :
    (j : ℕ) (w : Job) (d : Dict ℕ Job) (t : String)
    → lookup j d ≡ none
    → Holds d t
    → Holds ((j, w) ∷ d) t
Holds-cons j w d t fresh h = record {
  key = h.key;
  job = h.job;
  found = ground (arith, h.found);
  same_type = h.same_type;
  is_held = h.is_held;
}

any→Holds :
    (t : String) (d : Dict ℕ Job)
    → HasDistinctKeys d
    → any (is_active_of t) (values d) ≡ true
    → Holds d t
any→Holds t [] distinct h = cc
any→Holds t ((j, w) ∷ d) distinct h = elim (Bool-cases (is_active_of t w)) [
  | inl held ↦ record {
    key = j;
    job = w;
    found = ground arith;
    same_type = ground (arith, eq_iff w.job_type t);
    is_held = ground arith;
  }
  | inr other ↦ Holds-cons j w d t distinct.0 (any→Holds t d distinct.1 (ground arith))
]

Holds→any :
    (t : String) (d : Dict ℕ Job) (k : ℕ) (job : Job)
    → lookup k d ≡ some job
    → job.job_type ≡ t
    → is_active job.status ≡ true
    → any (is_active_of t) (values d) ≡ true
Holds→any t [] k job found same held = cc
Holds→any t ((j, w) ∷ d) k job found same held =
    ground (arith, eq_iff w.job_type t, Holds→any t d k job)

module _ (created updated : Time) (t : String) (input : Option Payload) (creator : Option Creator)
    (s : InMemoryStore) (v : IsValid s) where
  -- An enqueue is declined exactly when a stored job of the type is active, and then leaves the
  -- store unchanged.
  pub enqueue-eq-none_iff :
      (((enqueue created updated t input creator s).1 ≡ none) ↔ Holds s.jobs t)
      × (Holds s.jobs t → (enqueue created updated t input creator s).0 ≡ s)
  unfolding active
  enqueue-eq-none_iff = elim (enqueue_cases created updated t input creator s) [
    | inl (idle, e) ↦
        let free : Holds s.jobs t → ⊥ =
          λ h. cc (Holds→any t s.jobs h.key h.job h.found h.same_type h.is_held, idle) in
        ((λ n. cc, λ h. absurd (free h)), λ h. absurd (free h))
    | inr (busy, e) ↦ (
      (λ _. any→Holds t s.jobs v.distinct_jobs busy, λ h. ground (arith, e)),
      λ h. ground (arith, e),
    )
  ]

  -- An enqueue that is not declined returns an id that named no job; the new job stands under that
  -- id, queued, with the input and the creator that were given; every other job is as before.
  pub enqueue-get_job :
      (k : ℕ)
      → (enqueue created updated t input creator s).1 ≡ some k
      → (get_job k s ≡ none)
        × ((j : ℕ)
            → get_job j (enqueue created updated t input creator s).0 ≡ (
                if nat_eq k j
                then some (new_job k t input creator created updated)
                else get_job j s))
  unfolding get_job
  enqueue-get_job k e = elim (enqueue_cases created updated t input creator s) [
    | inl (idle, stored) ↦
        let job = added created updated t input creator s in
        let is_next : s.next_job ≡ k = ground arith in
        (
          subst (λ i. lookup i s.jobs ≡ none) is_next
              (lookup-insert_fresh s.next_job s.jobs v.job_ids),
          λ j.
              subst
                (λ i. lookup j (enqueue created updated t input creator s).0.jobs ≡ (
                  if nat_eq i j
                  then some (new_job i t input creator created updated)
                  else lookup j s.jobs))
                is_next (rw stored (lookup-insert s.next_job j job s.jobs)),
        )
    | inr (busy, declined) ↦ absurd (ground arith)
  ]
