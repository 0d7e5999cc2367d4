-- ===== src/Postgres/Rows.antt =====
-- Outbox rows, configuration rows and new rows of common/db.py, read as entries of InMemoryStore.
use job_processing_workflow.Prelude.{
  ℕ, ◌≡◌, refl, Bool, true, false, not, ◌&&◌, ◌||◌, String, Option, some, none, List, [], ◌∷◌, ◌++◌,
  nat_eq, if◌then◌else◌, any, contains, contains-discard, discard, values, lookup, insert, nat_key,
  text_key, HasDistinctKeys, arith,
}
use job_processing_workflow.Models.{OutboxMessage, Time}
use job_processing_workflow.MemoryStore as Memory
use job_processing_workflow.MemoryStore.{rearm, is_active_of}
use job_processing_workflow.Postgres.{
  JobRow, OutboxRow, ConfigRow, update_rows, to_job, keyed, conflicts, max_attempts_of,
  run_timeout_of,
}
use job_processing_workflow.Postgres.View.{view_jobs, view_outbox, view_config, is_published}

pub conflicts-active :
    (t : String) (rows : List JobRow)
    → conflicts t rows ≡ any (is_active_of t) (values (view_jobs rows))
conflicts-active t [] = refl
conflicts-active t (r ∷ rows) = ground (arith, conflicts-active t rows)

pub max_attempts-view :
    (t : String) (rows : List ConfigRow)
    → Memory.max_attempts (view_config rows) t ≡ max_attempts_of t rows
max_attempts-view t [] = refl
max_attempts-view t (r ∷ rows) = ground (arith, max_attempts-view t rows)

pub run_timeout-view :
    (t : String) (rows : List ConfigRow)
    → Memory.timeout (view_config rows) t ≡ run_timeout_of t rows
run_timeout-view t [] = refl
run_timeout-view t (r ∷ rows) = ground (arith, run_timeout-view t rows)

-- A new row at the end is a new entry.
pub view_jobs-snoc :
    (rows : List JobRow) (r : JobRow)
    → lookup r.id (view_jobs rows) ≡ none
    → view_jobs (rows ++ r ∷ []) ≡ insert r.id (to_job r) (view_jobs rows)
view_jobs-snoc [] r h = refl
view_jobs-snoc (q ∷ rows) r h = ground (arith, view_jobs-snoc rows r)

pub view_outbox-snoc :
    (rows : List OutboxRow) (r : OutboxRow)
    → lookup r.id (view_outbox rows) ≡ none
    → view_outbox (rows ++ r ∷ []) ≡ insert r.id (keyed r).1 (view_outbox rows)
view_outbox-snoc [] r h = refl
view_outbox-snoc (q ∷ rows) r h = ground (arith, view_outbox-snoc rows r)

pub is_published-snoc :
    (k : ℕ) (rows : List OutboxRow) (r : OutboxRow)
    → r.published_at ≡ none
    → is_published k (rows ++ r ∷ []) ≡ is_published k rows
is_published-snoc k [] r h = ground arith
is_published-snoc k (q ∷ rows) r h = ground (arith, is_published-snoc k rows r h)

-- The two updates of `published_at` leave the messages alone.
pub view_outbox-update :
    (test : OutboxRow → Bool) (at : Option Time) (rows : List OutboxRow)
    → view_outbox (update_rows test (λ r. record r { published_at = at }) rows) ≡ view_outbox rows
view_outbox-update test at [] = refl
view_outbox-update test at (r ∷ rows) = ground (arith, view_outbox-update test at rows)

abbrev pub publish_row : ℕ → Time → List OutboxRow → List OutboxRow
publish_row row now rows =
    update_rows (λ (r : OutboxRow). nat_eq r.id row)
      (λ (r : OutboxRow). record r { published_at = some now }) rows

abbrev has_row : ℕ → List OutboxRow → Bool
has_row row rows = any (λ (r : OutboxRow). nat_eq r.id row) rows

is_published-publish :
    (row k : ℕ) (now : Time) (rows : List OutboxRow)
    → is_published k (publish_row row now rows)
      ≡ ((nat_eq row k && has_row row rows) || is_published k rows)
is_published-publish row k now [] = ground arith
is_published-publish row k now (r ∷ rows) = ground (arith, is_published-publish row k now rows)

has_row_found :
    (row : ℕ) (rows : List OutboxRow) (msg : OutboxMessage)
    → lookup row (view_outbox rows) ≡ some msg
    → has_row row rows ≡ true
has_row_found row [] msg h = cc
has_row_found row (r ∷ rows) msg h = ground (arith, has_row_found row rows msg)

pub is_published-publish_found :
    (row k : ℕ) (now : Time) (rows : List OutboxRow) (msg : OutboxMessage)
    → lookup row (view_outbox rows) ≡ some msg
    → is_published k (publish_row row now rows) ≡ (nat_eq row k || is_published k rows)
is_published-publish_found row k now rows msg h =
    ground (arith, is_published-publish row k now rows, has_row_found row rows msg h)

abbrev pub rearm_rows : ℕ → List OutboxRow → List OutboxRow
rearm_rows k rows =
    update_rows (λ (r : OutboxRow). nat_eq r.job_id k)
      (λ (r : OutboxRow). record r { published_at = none }) rows

-- Whether some row with this id belongs to the job.
abbrev belongs : ℕ → ℕ → List OutboxRow → Bool
belongs row k rows = any (λ (r : OutboxRow). nat_eq r.id row && nat_eq r.job_id k) rows

belongs_missing :
    (row k : ℕ) (rows : List OutboxRow)
    → lookup row (view_outbox rows) ≡ none
    → (belongs row k rows ≡ false)
      × (is_published row rows ≡ false)
      × (is_published row (rearm_rows k rows) ≡ false)
belongs_missing row k [] h = (refl, refl, refl)
belongs_missing row k (r ∷ rows) h = ground (arith, belongs_missing row k rows)

is_published-rearm_rows :
    (row k : ℕ) (rows : List OutboxRow)
    → HasDistinctKeys (view_outbox rows)
    → is_published row (rearm_rows k rows) ≡ (is_published row rows && not (belongs row k rows))
is_published-rearm_rows row k [] h = refl
is_published-rearm_rows row k (r ∷ rows) h =
    ground (arith, is_published-rearm_rows row k rows, belongs_missing row k rows)

contains-rearm :
    (row k : ℕ) (rows : List OutboxRow) (published : List ℕ)
    → contains row (rearm k (view_outbox rows) published)
      ≡ (contains row published && not (belongs row k rows))
contains-rearm row k [] published = ground arith
contains-rearm row k (r ∷ rows) published = ground (
  arith,
  contains-rearm row k rows (if nat_eq r.job_id k then discard r.id published else published),
  contains-discard r.id row published,
)

pub contains-rearm_rows :
    (row k : ℕ) (rows : List OutboxRow) (published : List ℕ)
    → HasDistinctKeys (view_outbox rows)
    → contains row published ≡ is_published row rows
    → contains row (rearm k (view_outbox rows) published) ≡ is_published row (rearm_rows k rows)
contains-rearm_rows row k rows published d h =
    ground (arith, contains-rearm row k rows published, is_published-rearm_rows row k rows d)
