-- ===== src/Worker.antt =====
-- worker/service.py: one message is claimed, run and recorded.
pub mod Registry
pub mod Demo
pub mod Laws
pub mod Memory
pub mod Loop
use job_processing_workflow.Prelude.{ℕ, String, Bool, Option, some, none, if◌then◌else◌}
use job_processing_workflow.Models.{Time, Payload, Envelope}
use job_processing_workflow.Store.{Store}

-- What a call of a handler does: the payload dictionary as it leaves it, and whether it returns;
-- false where it raises.
abbrev pub Handler : Type 0
Handler = Payload → Payload × Bool

abbrev pub Lookup : Type 0
Lookup = String → Option Handler

pub data Outcome : Type 0 where
  skipped completed no_config failed : Outcome

module _ {S : Type 0} (store : Store S) where
  -- From the call of the handler on.
  unfoldable pub run : Time → ℕ → Payload → Handler → S → S × Outcome
  run now job_id payload handler s =
      let (after, returns) = handler payload in
      let s' = store.write_payload job_id after s in
      if returns
      then ((store.complete now job_id s').0, completed)
      else ((store.fail now job_id s').0, failed)

  -- `clock n` is the time at call number `n` of a method of the store.
  unfoldable pub process : (ℕ → Time) → Lookup → Envelope → S → S × Outcome
  process clock lookup envelope s =
      let (s1, won) = store.claim (clock 0) envelope.job_id s in
      let (s2, payload) = store.resolve_payload (clock 1) envelope.job_id envelope.job_type s1 in
      let failing = (store.fail (clock 2) envelope.job_id s2).0 in
      if won
      then elim payload [
        | none ↦ (failing, no_config)
        | some p ↦ elim (lookup envelope.job_type) [
          | none ↦ (failing, failed)
          | some handler ↦ run (clock 2) envelope.job_id p handler s2
        ]
      ]
      else (s1, skipped)
