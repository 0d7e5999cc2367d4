-- ===== src/MemoryStore/Invariant/Payloads.antt =====
-- The payload snapshot of common/store.py, and writes to it, keep the store well-formed.
use job_processing_workflow.Prelude.{
  ℕ, ◌≡◌, ◌⊎◌, inl, inr, refl, String, some, none, Dict, lookup, adjust, nat_key, text_key, overlay,
  Bool-cases, arith, Option-cases, [], ◌∷◌,
}
use job_processing_workflow.Models.{Job, running, is_running, Payload, Time}
use job_processing_workflow.MemoryStore.{
  InMemoryStore, TypeConfig, snapshot, resolve_payload, write_payload,
}
use job_processing_workflow.MemoryStore.Invariant.{IsValid}
use job_processing_workflow.MemoryStore.Invariant.Update.{IsValid-update}

-- A snapshot is taken of a running job with a configured type, or nothing happens.
pub resolve_cases :
    (now : Time) (k : ℕ) (t : String) (s : InMemoryStore)
    → ((job : Job) × (cfg : TypeConfig) × (lookup k s.jobs ≡ some job)
        × (job.status ≡ running)
        × (lookup job.job_type s.type_config ≡ some cfg)
        × (resolve_payload now k t s ≡ (
          record s { jobs = adjust k (snapshot cfg.payload now) s.jobs },
          some (overlay cfg.payload job.input_payload),
        )))
      ⊎ (resolve_payload now k t s ≡ (s, none))
unfolding resolve_payload
resolve_cases now k t s = elim (Option-cases (lookup k s.jobs)) [
  | inl missing ↦ inr (ground arith)
  | inr (job, found) ↦ elim (Bool-cases (is_running job.status)) [
    | inr idle ↦ inr (ground arith)
    | inl runs ↦ elim (Option-cases (lookup job.job_type s.type_config)) [
      | inl unset ↦ inr (ground arith)
      | inr (cfg, set) ↦ inl (job, cfg, found, ground arith, set, ground arith)
    ]
  ]
]

pub resolve_payload-IsValid :
    (now : Time) (k : ℕ) (t : String) (s : InMemoryStore)
    → IsValid s
    → IsValid (resolve_payload now k t s).0
resolve_payload-IsValid now k t s v = elim (resolve_cases now k t s) [
  | inl (job, cfg, found, runs, set, e) ↦ rw e (
      IsValid-update s k (snapshot cfg.payload now) s.published job found
        (record { same_id = refl; same_type = refl; activates_none = λ a. a }) (λ row msg _ _ h. h)
        v.unpublished_above (λ m q. absurd (ground arith)) v)
  | inr e ↦ rw e v
]

adjust_missing : (k : ℕ) (f : Job → Job) (d : Dict ℕ Job) → lookup k d ≡ none → adjust k f d ≡ d
adjust_missing k f [] h = refl
adjust_missing k f ((j, w) ∷ d) h = ground (arith, adjust_missing k f d)

pub write_payload-IsValid :
    (k : ℕ) (p : Payload) (s : InMemoryStore) → IsValid s → IsValid (write_payload k p s)
unfolding write_payload
write_payload-IsValid k p s v = elim (Option-cases (lookup k s.jobs)) [
  | inl missing ↦ rw (adjust_missing k (λ job. record job { payload = p }) s.jobs missing) v
  | inr (job, found) ↦
      IsValid-update s k (λ job. record job { payload = p }) s.published job found
        (record { same_id = refl; same_type = refl; activates_none = λ a. a }) (λ row msg _ _ h. h)
        v.unpublished_above (λ m q. m.waiting q) v
]
