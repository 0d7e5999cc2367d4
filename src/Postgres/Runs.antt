-- ===== src/Postgres/Runs.antt =====
-- Any number of calls of PostgresStore, one after the other, against InMemoryStore.
use job_processing_workflow.Prelude.{◌≡◌, refl, List, [], ◌∷◌}
use job_processing_workflow.Models.{Time}
use job_processing_workflow.MemoryStore.{InMemoryStore}
use job_processing_workflow.MemoryStore.Invariant.{IsValid}
use job_processing_workflow.MemoryStore.Invariant.Operations.{
  claim-IsValid, complete-IsValid, fail-IsValid, dead_letter-IsValid,
}
use job_processing_workflow.MemoryStore.Invariant.Payloads.{resolve_payload-IsValid}
use job_processing_workflow.MemoryStore.Invariant.Publishing.{
  mark_dispatched-IsValid, requeue_stuck-IsValid,
}
use job_processing_workflow.MemoryStore.Invariant.Enqueue.{enqueue-IsValid}
use job_processing_workflow.Postgres.{Jsonb, Tables}
use job_processing_workflow.Postgres.Normal.{JsonbLaws}
use job_processing_workflow.Postgres.Calls.{
  Call, enqueues, marks, claims, completes, fails, requeues, buries, resolves, Answer, on_tables,
  on_store, Fits, normal_answer, Represents,
}
use job_processing_workflow.Postgres.Refinement.{on_tables-Agrees}

-- The calls with their times, each on the state that the one before has left.
abbrev pub run_tables : Jsonb → List (Time × Call) → Tables → Tables × List Answer
run_tables jsonb [] t = (t, [])
run_tables jsonb ((now, c) ∷ calls) t =
    let r = on_tables jsonb now c t in
    let rest = run_tables jsonb calls r.0 in (rest.0, r.1 ∷ rest.1)

abbrev pub run_store : List (Time × Call) → InMemoryStore → InMemoryStore × List Answer
run_store [] s = (s, [])
run_store ((now, c) ∷ calls) s =
    let r = on_store now c s in let rest = run_store calls r.0 in (rest.0, r.1 ∷ rest.1)

-- Each call fits the state on which it is made.
abbrev pub AllFit : Jsonb → List (Time × Call) → Tables → InMemoryStore → Type 0
AllFit jsonb [] t s = Unit
AllFit jsonb ((now, c) ∷ calls) t s =
    Fits c t s × AllFit jsonb calls (on_tables jsonb now c t).0 (on_store now c s).0

on_store-IsValid :
    (now : Time) (c : Call) (t : Tables) (s : InMemoryStore)
    → Fits c t s
    → IsValid s
    → IsValid (on_store now c s).0
on_store-IsValid now (enqueues type input creator) t s fits v =
    enqueue-IsValid now now type input creator s v
on_store-IsValid now (marks row k) t s fits v = mark_dispatched-IsValid s row k fits now v
on_store-IsValid now (claims k) t s fits v = claim-IsValid now k s v
on_store-IsValid now (completes k) t s fits v = complete-IsValid now k s v
on_store-IsValid now (fails k) t s fits v = fail-IsValid now k s v
on_store-IsValid now (requeues k) t s fits v = requeue_stuck-IsValid now k s v
on_store-IsValid now (buries k) t s fits v = dead_letter-IsValid now k s v
on_store-IsValid now (resolves k type) t s fits v = resolve_payload-IsValid now k type s v

-- The answers with the payloads as a column gives them back.
abbrev pub normal_answers : Jsonb → List Answer → List Answer
normal_answers jsonb [] = []
normal_answers jsonb (a ∷ answers) = normal_answer jsonb a ∷ normal_answers jsonb answers

-- A JSONB column of which the documentation of the database holds, and that takes the payloads.
-- Whatever calls are made on tables that represent a well-formed store, with a creator or without:
-- they answer one by one what the same calls answer on that store, with an effective payload in the
-- form in which a column holds it; and the tables represent the store that is left, and it is well
-- formed. A job without a creator is represented by a row whose creator fields are null.
pub run_tables-Agree :
    (jsonb : Jsonb)
    → JsonbLaws jsonb
    → (calls : List (Time × Call)) (t : Tables) (s : InMemoryStore) → Represents jsonb t s
    → IsValid s
    → AllFit jsonb calls t s
    → ((run_tables jsonb calls t).1 ≡ normal_answers jsonb (run_store calls s).1)
      × Represents jsonb (run_tables jsonb calls t).0 (run_store calls s).0
      × IsValid (run_store calls s).0
run_tables-Agree jsonb laws [] t s rep v fits = (refl, rep, v)
run_tables-Agree jsonb laws ((now, c) ∷ calls) t s rep v (fit, fits) =
    let (same, rep') = on_tables-Agrees jsonb laws now t s rep v c fit in
    let (rest, rep'', v') =
      run_tables-Agree jsonb laws calls (on_tables jsonb now c t).0 (on_store now c s).0 rep'
        (on_store-IsValid now c t s fit v) fits in
    (cc, rep'', v')
