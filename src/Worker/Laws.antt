-- ===== src/Worker/Laws.antt =====
-- What worker/service.py makes of a job, for every store that keeps the laws of the protocol.
use job_processing_workflow.Prelude.{
  ℕ, true, false, ◌≡◌, ◌↔◌, Option, some, nat_eq, if◌then◌else◌, arith, Bool-cases, Option-cases,
  inl, inr,
}
use job_processing_workflow.Models.{JobStatus, queued, dispatched, running, Time, Payload, Envelope}
use job_processing_workflow.Models as Models
use job_processing_workflow.Store.{Store}
use job_processing_workflow.Store.Laws.{StoreLaws, can_claim}
use job_processing_workflow.Worker.{
  Lookup, Handler, Outcome, skipped, completed, no_config, failed, run, process,
}

-- The status that an outcome reports.
abbrev pub reported : Outcome → Option JobStatus → Option JobStatus
reported skipped u = u
reported completed u = some Models.completed
reported no_config u = some Models.failed
reported failed u = some Models.failed

module _ {S : Type 0} (store : Store S) (status : S → ℕ → Option JobStatus)
    (laws : StoreLaws store status) where
  run-status :
      (now : Time) (k : ℕ) (p : Payload) (h : Handler) (s : S) (j : ℕ)
      → status s k ≡ some running
      → status (run store now k p h s).0 j
        ≡ (if nat_eq k j then reported (run store now k p h s).1 (status s j) else status s j)
  unfolding run
  run-status now k p h s j runs =
      let s' = store.write_payload k (h p).0 s in
      ground (
        arith,
        laws.write_status k (h p).0 s k,
        laws.write_status k (h p).0 s j,
        laws.complete_status now k s' j,
        laws.fail_status now k s' j,
      )

  run-ne-skipped :
      (now : Time) (k : ℕ) (p : Payload) (h : Handler) (s : S)
      → (run store now k p h s).1 ≡ skipped
      → ⊥
  unfolding run
  run-ne-skipped now k p h s e = ground arith

  module _ (clock : ℕ → Time) (lookup : Lookup) (e : Envelope) (s : S) where
    abbrev k : ℕ
    k = e.job_id

    abbrev s1 : S
    s1 = (store.claim (clock 0) k s).0

    abbrev s2 : S
    s2 = (store.resolve_payload (clock 1) k e.job_type s1).0

    claimed_runs : can_claim (status s k) ≡ true → status s2 k ≡ some running
    claimed_runs won =
        ground (
          arith,
          laws.claim_status (clock 0) k s k,
          laws.resolve_status (clock 1) k e.job_type s1 k,
        )

    -- A message is skipped exactly when its job is neither queued nor dispatched.
    pub process-skipped_iff :
        ((process store clock lookup e s).1 ≡ skipped) ↔ (can_claim (status s e.job_id) ≡ false)
    unfolding process
    process-skipped_iff = elim (Option-cases (store.resolve_payload (clock 1) k e.job_type s1).1) [
      | inl unset ↦ ground (arith, unset, laws.claim_won (clock 0) k s)
      | inr (p, set) ↦ elim (Option-cases (lookup e.job_type)) [
        | inl unknown ↦ ground (arith, set, unknown, laws.claim_won (clock 0) k s)
        | inr (h, known) ↦
            ground
              (arith, set, known, laws.claim_won (clock 0) k s, run-ne-skipped (clock 2) k p h s2)
      ]
    ]

    -- The job of the message ends with the status that the outcome reports, and stays as it was
    -- if the message is skipped; no other job changes its status.
    pub process-status :
        (j : ℕ)
        → status (process store clock lookup e s).0 j ≡ (
            if nat_eq e.job_id j
            then reported (process store clock lookup e s).1 (status s j)
            else status s j)
    unfolding process
    process-status j = elim (Option-cases (store.resolve_payload (clock 1) k e.job_type s1).1) [
      | inl unset ↦ ground (
        arith,
        unset,
        laws.claim_won (clock 0) k s,
        laws.claim_status (clock 0) k s j,
        laws.resolve_status (clock 1) k e.job_type s1 j,
        laws.fail_status (clock 2) k s2 j,
      )
      | inr (p, set) ↦ elim (Option-cases (lookup e.job_type)) [
        | inl unknown ↦ ground (
          arith,
          set,
          unknown,
          laws.claim_won (clock 0) k s,
          laws.claim_status (clock 0) k s j,
          laws.resolve_status (clock 1) k e.job_type s1 j,
          laws.fail_status (clock 2) k s2 j,
        )
        | inr (h, known) ↦ elim (Bool-cases (can_claim (status s k))) [
          | inl won ↦ ground (
            arith,
            set,
            known,
            laws.claim_won (clock 0) k s,
            laws.claim_status (clock 0) k s j,
            laws.resolve_status (clock 1) k e.job_type s1 j,
            run-status (clock 2) k p h s2 j (claimed_runs won),
            run-ne-skipped (clock 2) k p h s2,
          )
          | inr lost ↦
              ground (arith, laws.claim_won (clock 0) k s, laws.claim_status (clock 0) k s j)
        ]
      ]
    ]

  -- After a message its job can no longer be claimed.
  pub process-can_claim :
      (clock : ℕ → Time) (lookup : Lookup) (e : Envelope) (s : S)
      → can_claim (status (process store clock lookup e s).0 e.job_id) ≡ false
  process-can_claim clock lookup e s =
      ground
        (arith, process-status clock lookup e s e.job_id, (process-skipped_iff clock lookup e s).0)

  -- At-least-once delivery: a message that has been processed is skipped when it is delivered
  -- again, and the second delivery leaves every status as it is.
  pub process-process :
      (clock again : ℕ → Time) (lookup : Lookup) (e : Envelope) (s : S)
      → let t = (process store clock lookup e s).0 in
        ((process store again lookup e t).1 ≡ skipped)
        × ((j : ℕ) → status (process store again lookup e t).0 j ≡ status t j)
  process-process clock again lookup e s =
      let t = (process store clock lookup e s).0 in
      let dead = process-can_claim clock lookup e s in
      let skips : (process store again lookup e t).1 ≡ skipped =
        (process-skipped_iff again lookup e t).1 dead in
      (skips, λ j. ground (arith, skips, process-status again lookup e t j))
