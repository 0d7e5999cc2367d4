-- ===== src/Postgres/View.antt =====
-- The tables of common/db.py read as the state of InMemoryStore, and an update of rows read as an
-- update of an entry.
use job_processing_workflow.Prelude.{
  ℕ, ◌≡◌, refl, String, Bool, not, ◌&&◌, some, none, List, [], ◌∷◌, nat_eq, if◌then◌else◌, any,
  contains, Dict, lookup, adjust, nat_key, HasDistinctKeys, arith,
}
use job_processing_workflow.Models.{Job, OutboxMessage}
use job_processing_workflow.MemoryStore.{InMemoryStore, TypeConfig}
use job_processing_workflow.Postgres.{
  JobRow, OutboxRow, ConfigRow, Tables, update_rows, row_count, is_null, keyed, to_job,
}

abbrev pub view_jobs : List JobRow → Dict ℕ Job
view_jobs [] = []
view_jobs (r ∷ rows) = (r.id, to_job r) ∷ view_jobs rows

abbrev pub view_outbox : List OutboxRow → Dict ℕ OutboxMessage
view_outbox [] = []
view_outbox (r ∷ rows) = keyed r ∷ view_outbox rows

abbrev pub view_config : List ConfigRow → Dict String TypeConfig
view_config [] = []
view_config (c ∷ rows) =
    (
      c.job_type,
      record { run_timeout = c.run_timeout; max_attempts = c.max_attempts; payload = c.payload },
    )
    ∷ view_config rows

abbrev pub is_published : ℕ → List OutboxRow → Bool
is_published k rows = any (λ (r : OutboxRow). nat_eq r.id k && not (is_null r.published_at)) rows

-- The tables represent the store, up to the order of its set of published ids and to the ids that
-- come next: an identity column skips some.
pub record Rep (t : Tables) (s : InMemoryStore) : Type 0 where
  pub jobs : view_jobs t.jobs ≡ s.jobs
  pub outbox : view_outbox t.outbox ≡ s.outbox
  pub published : (k : ℕ) → contains k s.published ≡ is_published k t.outbox
  pub config : view_config t.job_type_config ≡ s.type_config

-- UPDATE ... WHERE id = k AND p, as an update of the entry under k.
module _ (p : Job → Bool) (f : JobRow → JobRow) (g : Job → Job) (k : ℕ)
    (same_id : (r : JobRow) → (f r).id ≡ r.id)
    (same_job : (r : JobRow) → to_job (f r) ≡ g (to_job r)) where
  abbrev pub at : JobRow → Bool
  at r = nat_eq r.id k && p (to_job r)

  pub view-update_missing :
      (rows : List JobRow)
      → lookup k (view_jobs rows) ≡ none
      → view_jobs (update_rows at f rows) ≡ view_jobs rows
  view-update_missing [] h = refl
  view-update_missing (r ∷ rows) h = ground (arith, view-update_missing rows)

  pub view-update :
      (rows : List JobRow) (job : Job)
      → HasDistinctKeys (view_jobs rows)
      → lookup k (view_jobs rows) ≡ some job
      → view_jobs (update_rows at f rows)
        ≡ (if p job then adjust k g (view_jobs rows) else view_jobs rows)
  view-update [] job d h = cc
  view-update (r ∷ rows) job d h =
      ground (arith, view-update rows job, view-update_missing rows, same_id r, same_job r)

pub row_count_missing :
    (p : Job → Bool) (k : ℕ) (rows : List JobRow)
    → lookup k (view_jobs rows) ≡ none
    → row_count (λ r. nat_eq r.id k && p (to_job r)) rows ≡ 0
row_count_missing p k [] h = refl
row_count_missing p k (r ∷ rows) h = ground (arith, row_count_missing p k rows)

pub row_count_found :
    (p : Job → Bool) (k : ℕ) (rows : List JobRow) (job : Job)
    → HasDistinctKeys (view_jobs rows)
    → lookup k (view_jobs rows) ≡ some job
    → row_count (λ r. nat_eq r.id k && p (to_job r)) rows ≡ (if p job then 1 else 0)
row_count_found p k [] job d h = cc
row_count_found p k (r ∷ rows) job d h =
    ground (arith, row_count_found p k rows job, row_count_missing p k rows)
