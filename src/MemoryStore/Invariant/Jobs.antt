-- ===== src/MemoryStore/Invariant/Jobs.antt =====
-- The part of the store's invariant that is about the table of jobs alone.
use job_processing_workflow.Prelude.{
  ℕ, ◌+◌, ◌≤◌, ◌<◌, String, true, false, ◌≡◌, refl, none, some, List, [], ◌∷◌, if◌then◌else◌, any,
  Dict, values, lookup, insert, adjust, nat_key, arith,
}
use job_processing_workflow.Models.{Job, is_active}
use job_processing_workflow.MemoryStore.{is_active_of}

-- How many jobs of a type are active.
abbrev pub active_count : String → List Job → ℕ
active_count t [] = 0
active_count t (j ∷ js) = (if is_active_of t j then 1 else 0) + active_count t js

-- Every entry stands under its job's id, and below the next id.
abbrev pub HasIds : ℕ → Dict ℕ Job → Type 0
HasIds next [] = Unit
HasIds next ((k, job) ∷ d) = (job.id ≡ k) × (k < next) × HasIds next d

-- What an update of one job must respect.
pub record Respects (job new : Job) : Type 0 where
  pub same_id : new.id ≡ job.id
  pub same_type : new.job_type ≡ job.job_type
  pub activates_none : is_active new.status ≡ true → is_active job.status ≡ true

pub any-eq-false_count :
    (t : String) (js : List Job) → any (is_active_of t) js ≡ false → active_count t js ≡ 0
any-eq-false_count t [] h = refl
any-eq-false_count t (j ∷ js) h = ground (arith, any-eq-false_count t js)

module _ (k : ℕ) (f : Job → Job) (job : Job) (r : Respects job (f job)) where
  pub active_count-adjust-le :
      (t : String) (d : Dict ℕ Job)
      → lookup k d ≡ some job
      → active_count t (values (adjust k f d)) ≤ active_count t (values d)
  active_count-adjust-le t [] h = omega arith
  active_count-adjust-le t ((j, w) ∷ d) h =
      ground (arith, active_count-adjust-le t d, r.activates_none, r.same_type)

  pub HasIds-adjust :
      (next : ℕ) (d : Dict ℕ Job)
      → lookup k d ≡ some job
      → HasIds next d
      → HasIds next (adjust k f d)
  HasIds-adjust next [] h v = v
  HasIds-adjust next ((j, w) ∷ d) h v = ground (arith, HasIds-adjust next d, r.same_id)

pub lookup-insert_fresh : (next : ℕ) (d : Dict ℕ Job) → HasIds next d → lookup next d ≡ none
lookup-insert_fresh next [] v = refl
lookup-insert_fresh next ((j, w) ∷ d) v = ground (arith, lookup-insert_fresh next d)

pub HasIds-insert :
    (next : ℕ) (job : Job) (d : Dict ℕ Job)
    → job.id ≡ next
    → HasIds next d
    → HasIds (next + 1) (insert next job d)
HasIds-insert next job [] e v = omega arith
HasIds-insert next job ((j, w) ∷ d) e v = ground (arith, HasIds-insert next job d e)

pub active_count-insert :
    (t : String) (next : ℕ) (job : Job) (d : Dict ℕ Job)
    → HasIds next d
    → active_count t (values (insert next job d))
      ≡ (if is_active_of t job then 1 else 0) + active_count t (values d)
active_count-insert t next job [] v = refl
active_count-insert t next job ((j, w) ∷ d) v = ground (arith, active_count-insert t next job d)
