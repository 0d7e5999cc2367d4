-- ===== src/MemoryStore/Lifecycle.antt =====
-- The lifecycle of a job (common/models.py, JobStatus) under the calls of common/store.py.
pub mod Moves
use job_processing_workflow.Prelude.{
  ℕ, ◌+◌, ◌≤◌, ◌≡◌, ◌⊎◌, inl, inr, refl, false, true, Bool, String, Option, some, none, lookup,
  nat_key, nat_eq, adjust, Dict, Bool-cases, arith, subst, sym, ◌∙◌, insert, lookup-insert,
  lookup-adjust, if◌then◌else◌, Option-cases, nat_eq_iff,
}
use mathlib.Core.Option
use job_processing_workflow.Models.{
  Job, JobStatus, queued, dispatched, running, completed, failed, Time, is_active, Payload,
  is_queued, is_running,
}
use job_processing_workflow.MemoryStore.{
  InMemoryStore, empty_store, guarded_update, set_status, snapshot, requeue, is_claimable,
  set_type_config, enqueue, mark_dispatched, claim, resolve_payload, write_payload, complete, fail,
  requeue_stuck, dead_letter,
}
use job_processing_workflow.MemoryStore.Invariant.{IsValid}
use job_processing_workflow.MemoryStore.Invariant.Jobs.{lookup-insert_fresh}
use job_processing_workflow.MemoryStore.Invariant.Update.{lookup-adjust_self}
use job_processing_workflow.MemoryStore.Invariant.Operations.{guarded_cases}
use job_processing_workflow.MemoryStore.Invariant.Payloads.{resolve_cases}
use job_processing_workflow.MemoryStore.Invariant.Publishing.{requeue_cases}
use job_processing_workflow.MemoryStore.Invariant.Enqueue.{enqueue_cases, added}
use job_processing_workflow.MemoryStore.Steps.{
  Step, configures, enqueues, marks, claims, resolves, writes, completes, fails, requeues, buries,
  Reach, here, next, Step-IsValid, Reach-IsValid,
}
use Moves.{
  Evolves, Move, Move-terminal, dispatch, claim_queued, claim_dispatched, finish, give_up, retry,
  Evolves-refl, Evolves-set_status, Evolves-requeue, Evolves-set_payload,
}

-- The job under `k` is still there, and has evolved.
abbrev pub Persists : ℕ → Job → Dict ℕ Job → Type 0
Persists k old d = (new : Job) × (lookup k d ≡ some new) × Evolves old new

module _ (k : ℕ) (old : Job) where
  Persists-adjust :
      (j : ℕ) (f : Job → Job) (job : Job) (d : Dict ℕ Job)
      → lookup k d ≡ some old
      → lookup j d ≡ some job
      → Evolves job (f job)
      → Persists k old (adjust j f d)
  Persists-adjust j f job d at_k found ev = elim (Bool-cases (nat_eq j k)) [
    | inl same ↦
        let is_old : job ≡ old = ground arith in
        (f old, ground (arith, lookup-adjust j k f d), subst (λ w. Evolves w (f w)) is_old ev)
    | inr other ↦ (old, ground (arith, lookup-adjust j k f d), Evolves-refl old)
  ]

  module _ (test : JobStatus → Bool) (to : JobStatus) (now : Time)
      (moves : (u : JobStatus) → test u ≡ true → Move u to) where
    Persists-guarded :
        (j : ℕ) (s : InMemoryStore)
        → lookup k s.jobs ≡ some old
        → Persists k old (guarded_update test (set_status to now) j s).0.jobs
    Persists-guarded j s at_k = elim (guarded_cases test (set_status to now) j s) [
      | inl (job, found, passes, e) ↦ rw e (
          Persists-adjust j (set_status to now) job s.jobs at_k found
            (Evolves-set_status to now job (moves job.status passes)))
      | inr (e, _) ↦ rw e (old, at_k, Evolves-refl old)
    ]

running_moves :
    (to : JobStatus) → Move running to → (u : JobStatus) → is_running u ≡ true → Move u to
running_moves to m u h = let runs : running ≡ u = ground arith in subst (λ w. Move w to) runs m

queued_moves : (u : JobStatus) → is_queued u ≡ true → Move u dispatched
queued_moves queued h = dispatch
queued_moves _ h = cc

claimable_moves : (u : JobStatus) → is_claimable u ≡ true → Move u running
claimable_moves queued h = claim_queued
claimable_moves dispatched h = claim_dispatched
claimable_moves _ h = cc

-- Whatever call is made next, in a well-formed store: every job is still stored under its id, with
-- its type, its input payload, its creator and its time of creation; its status has moved along an
-- edge of the lifecycle or stayed; its attempts have grown by one at most.
pub Step-Persists :
    {s t : InMemoryStore} (k : ℕ) (old : Job)
    → IsValid s
    → Step s t
    → lookup k s.jobs ≡ some old
    → Persists k old t.jobs
unfolding set_type_config mark_dispatched claim complete fail dead_letter write_payload
Step-Persists {s} k old v (configures t run_timeout max_attempts payload) h =
    (old, h, Evolves-refl old)
Step-Persists {s} k old v (enqueues created updated t input creator) h =
    elim (enqueue_cases created updated t input creator s) [
      | inl (idle, e) ↦
          let job = added created updated t input creator s in
          rw e (
            old,
            ground (
              arith,
              lookup-insert s.next_job k job s.jobs,
              lookup-insert_fresh s.next_job s.jobs v.job_ids,
            ),
            Evolves-refl old,
          )
      | inr (busy, e) ↦ rw e (old, h, Evolves-refl old)
    ]
Step-Persists {s} k old v (marks now row j r) h =
    Persists-guarded k old is_queued dispatched now queued_moves j _ h
Step-Persists {s} k old v (claims now j) h =
    Persists-guarded k old is_claimable running now claimable_moves j s h
Step-Persists {s} k old v (resolves now j t) h = elim (resolve_cases now j t s) [
  | inl (job, cfg, found, runs, set, e) ↦ rw e (
      Persists-adjust k old j (snapshot cfg.payload now) job s.jobs h found
        (Evolves-set_payload _ now job))
  | inr e ↦ rw e (old, h, Evolves-refl old)
]
Step-Persists {s} k old v (writes j payload) h = elim (Bool-cases (nat_eq j k)) [
  | inl same ↦
      let set = λ (job : Job). record job { payload = payload } in
      (
        set old,
        ground (arith, lookup-adjust j k set s.jobs),
        Evolves-set_payload payload old.updated_at old,
      )
  | inr other ↦
      let set = λ (job : Job). record job { payload = payload } in
      (old, ground (arith, lookup-adjust j k set s.jobs), Evolves-refl old)
]
Step-Persists {s} k old v (completes now j) h =
    Persists-guarded k old is_running completed now (running_moves completed finish) j s h
Step-Persists {s} k old v (fails now j) h =
    Persists-guarded k old is_running failed now (running_moves failed give_up) j s h
Step-Persists {s} k old v (requeues now j) h = elim (requeue_cases now j s) [
  | inl (job, found, runs, under, e) ↦ rw e (
      Persists-adjust k old j (requeue now) job s.jobs h found
        (Evolves-requeue now job (subst (λ u. Move u queued) (sym runs) retry)))
  | inr (e, _) ↦ rw e (old, h, Evolves-refl old)
]
Step-Persists {s} k old v (buries now j) h =
    Persists-guarded k old is_running failed now (running_moves failed give_up) j s h

-- What stays of a job for ever.
pub record Remains (old new : Job) : Type 0 where
  pub same_id : new.id ≡ old.id
  pub same_type : new.job_type ≡ old.job_type
  pub same_input : new.input_payload ≡ old.input_payload
  pub same_created_at : new.created_at ≡ old.created_at
  pub same_created_by : new.created_by ≡ old.created_by
  pub attempts_grow : old.attempts ≤ new.attempts
  pub final : is_active old.status ≡ false → new.status ≡ old.status

Remains-refl : (job : Job) → Remains job job
Remains-refl job = record {
  same_id = refl;
  same_type = refl;
  same_input = refl;
  same_created_at = refl;
  same_created_by = refl;
  attempts_grow = omega arith;
  final = λ _. refl;
}

Remains-Evolves : {a b c : Job} → Remains a b → Evolves b c → Remains a c
Remains-Evolves r ev = record {
  same_id = ev.same_id ∙ r.same_id;
  same_type = ev.same_type ∙ r.same_type;
  same_input = ev.same_input ∙ r.same_input;
  same_created_at = ev.same_created_at ∙ r.same_created_at;
  same_created_by = ev.same_created_by ∙ r.same_created_by;
  attempts_grow = omega (arith, r.attempts_grow, ev.attempts_grow);
  final = λ h. let stays = r.final h in Move-terminal ev.moved (rw stays h) ∙ stays;
}

-- Whatever calls are made from a well-formed store, in whatever order: no job is lost, what was
-- asked for is never overwritten, the attempts never fall, and a completed or failed job keeps its
-- status for ever.
pub Reach-Remains :
    {s t : InMemoryStore} (k : ℕ) (old : Job)
    → IsValid s
    → Reach s t
    → lookup k s.jobs ≡ some old
    → (new : Job) × (lookup k t.jobs ≡ some new) × Remains old new
Reach-Remains k old v here h = (old, h, Remains-refl old)
Reach-Remains k old v (next r st) h =
    let (mid, at_k, kept) = Reach-Remains k old v r h in
    let (new, after, ev) = Step-Persists k mid (Reach-IsValid v r) st at_k in
    (new, after, Remains-Evolves kept ev)
