-- ===== src/Tests/Database.antt =====
-- The tables of common/db.py with one queued job.
use job_processing_workflow.Prelude.{
  text_key, insert, if◌then◌else◌, ◌==◌, ℕ, String, lookup, overlay, List, ◌≡◌, sym, subst, refl,
  some, none, [], ◌∷◌, true, arith, nat_key,
}
use job_processing_workflow.Models.{Value, float, Payload, Time, pos, Job, running}
use job_processing_workflow.MemoryStore as Memory
use job_processing_workflow.MemoryStore.{InMemoryStore, set_type_config, active}
use job_processing_workflow.MemoryStore.Invariant.{IsValid}
use job_processing_workflow.MemoryStore.Invariant.Enqueue.{
  empty_store-IsValid, enqueue-IsValid, set_type_config-IsValid,
}
use job_processing_workflow.Postgres as Postgres
use mathlib.Core.List
use mathlib.Core.List.{Permᴰ}
use mathlib.Core.List.Permᴰ
use mathlib.Core.Option
use job_processing_workflow.Store.Laws.{StoreLaws}
use job_processing_workflow.Postgres.{Jsonb, JobRow, Tables, no_creator}
use job_processing_workflow.Postgres.Normal.{map_values, insert-map_values, JsonbLaws, normal_job}
use job_processing_workflow.Postgres.Runs.{run_tables, run_store, normal_answers, run_tables-Agree}
use job_processing_workflow.Postgres.AsStore.Protocol.{postgres}
use job_processing_workflow.Postgres.AsStore.Laws.{status, postgres_laws}
use job_processing_workflow.Postgres.Calls.{
  Call, claims, completes, resolves, changed, on_tables, on_store, Represents,
}
use job_processing_workflow.Postgres.Refinement.{reads-eq}
use job_processing_workflow.Tests.Samples.{base, input, configured}

-- A column that writes a number in another form.
abbrev form : Value → Value
form (float s) = if s == "100.0" then float "100" else float s
form v = v

abbrev by_form : Jsonb
by_form = record { store = λ p. map_values form p; concat = overlay }

overlay-map_values :
    (a b : Payload)
    → overlay (map_values form a) (map_values form b) ≡ map_values form (overlay a b)
overlay-map_values a [] = refl
overlay-map_values a ((k, v) ∷ b) =
    subst (λ d. overlay d (map_values form b) ≡ map_values form (overlay (insert k v a) b))
      (sym (insert-map_values form k v a)) (overlay-map_values (insert k v a) b)

by_form_laws : JsonbLaws by_form
by_form_laws = record { store_empty = refl; concat_store = overlay-map_values }

abbrev tables : Tables
tables = record {
  jobs = Postgres.inserted 1 "hello" input no_creator 10 ∷ [];
  outbox =
      record {
        id = 1;
        job_id = 1;
        payload = record { job_id = 1; job_type = "hello" };
        published_at = none;
      }
      ∷ [];
  job_type_config =
      record { job_type = "hello"; run_timeout = 1_000_000; max_attempts = 2; payload = base } ∷ [];
  next_job = 2;
  next_outbox = 2;
}

abbrev filed : InMemoryStore
filed = (Memory.enqueue 10 10 "hello" (some input) none configured).0

filed-IsValid : IsValid filed
filed-IsValid =
    enqueue-IsValid 10 10 "hello" (some input) none configured
      (set_type_config-IsValid "hello" 1_000_000 2 (some base) _ empty_store-IsValid)

tables-Represents : Represents by_form tables filed
unfolding set_type_config active Memory.enqueue
tables-Represents = record {
  jobs = refl;
  outbox = refl;
  published = λ k. ground arith;
  config = refl;
}

claims_once : (on_tables by_form 20 (claims 1) tables).1 ≡ changed true
unfolding Postgres.claim
claims_once = refl

abbrev calls : List (Time × Call)
calls = (20, claims 1) ∷ (25, resolves 1 "hello") ∷ (30, completes 1) ∷ []

own_type :
    (job : Job) → lookup 1 (on_store 20 (claims 1) filed).0.jobs ≡ some job → job.job_type ≡ "hello"
unfolding set_type_config active Memory.enqueue Memory.claim
own_type job found = ground (arith, found)

run_tables-Agree_example :
    ((run_tables by_form calls tables).1 ≡ normal_answers by_form (run_store calls filed).1)
    × Represents by_form (run_tables by_form calls tables).0 (run_store calls filed).0
    × IsValid (run_store calls filed).0
run_tables-Agree_example =
    run_tables-Agree by_form by_form_laws calls tables filed tables-Represents filed-IsValid
      (tt, (own_type, (tt, tt)))

abbrev running_row : ℕ → String → JobRow
running_row id job_type = record (Postgres.inserted id job_type [] no_creator 10) {
  status = running;
}

abbrev two_running : Tables
two_running = record tables { jobs = running_row 1 "hello" ∷ running_row 2 "boom" ∷ [] }

-- A database that goes through the rows in another order.
two_stuck :
    Postgres.find_stuck List.reverse 5_000_000_000 two_running
    ≡ record { job_id = 2; job_type = "boom"; attempts = 0 }
      ∷ record { job_id = 1; job_type = "hello"; attempts = 0 }
      ∷ []
unfolding Postgres.find_stuck
two_stuck = refl

reads-eq_example :
    (Postgres.get_job 1 tables ≡ Option.map (normal_job by_form) (Memory.get_job 1 filed))
    × Permᴰ (Postgres.find_stuck List.reverse 50 tables) (Memory.find_stuck 50 filed)
    × (Postgres.fetch_unpublished 10 tables ≡ Memory.fetch_unpublished (pos 10) filed)
reads-eq_example =
    reads-eq by_form List.reverse Permᴰ.reverse 50 1 10 tables filed tables-Represents filed-IsValid

postgres_laws_example : StoreLaws (postgres by_form List.reverse) status
postgres_laws_example = postgres_laws by_form List.reverse
