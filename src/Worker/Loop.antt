-- ===== src/Worker/Loop.antt =====
-- worker/__main__.py: the loop around `process`, from one point at which it can be interrupted to the
-- next.
pub mod Accounts
pub mod Delivery
pub mod Settles
use job_processing_workflow.Prelude.{ℕ, Bool, true, false, ◌+◌, ◌≡◌, List, [], ◌∷◌, ◌++◌, length}
use job_processing_workflow.Models.{Time, Envelope}
use job_processing_workflow.Store.{Store}
use job_processing_workflow.Messaging.{Consumer, Polled, nothing, delivered, raises}
use job_processing_workflow.Service.{Exit, returned, raised, Ended}
use job_processing_workflow.Worker.{Lookup, Outcome, process}

-- Where a round stands: before `poll`, before `process`, before `commit`, or before the line that
-- reports the outcome is written.
pub data Phase : Type 0 where
  polling : Phase
  received : Envelope → Phase
  processed : Envelope → Outcome → Phase
  reporting : Envelope → Outcome → Phase

-- `output` are the lines that have been written: the message and its outcome.
pub record Running (S C : Type 0) : Type 0 where
  pub phase : Phase
  pub store : S
  pub consumer : C
  pub output : List (Envelope × Outcome)

-- What ends the loop: KeyboardInterrupt, or any other exception.
pub data Cause : Type 0 where
  keyboard_interrupt : Cause
  other_exception : Cause

-- What comes next: the loop goes on to its next point, its calls at these times; another component
-- does something to the store; or an exception comes out of the call that the loop is in, when the
-- consumer has done what it was called for. What `process` has done to the store until then comes by
-- `meanwhile`.
pub data Event (S : Type 0) : Type 0 where
  goes : (ℕ → Time) → Event S
  meanwhile : (S → S) → Event S
  leaves : Cause → Event S

-- A step of the loop; an exception ends it.
pub data Stepped (S C : Type 0) : Type 0 where
  on : Running S C → Stepped S C
  off : Cause → Running S C → Stepped S C

abbrev pub start : {S C : Type 0} → S → C → Running S C
start s c = record { phase = polling; store = s; consumer = c; output = [] }

module _ {S C : Type 0} (store : Store S) (lookup : Lookup) (consumer : Consumer C) where
  -- The test `if envelope is None`.
  abbrev pub taken : Running S C → C × Polled → Stepped S C
  taken w (c, nothing) = on (record w { consumer = c })
  taken w (c, delivered e) = on (record w { consumer = c; phase = received e })
  taken w (c, raises) = off other_exception (record w { consumer = c })

  abbrev pub recorded : Running S C → Envelope → S × Outcome → Running S C
  recorded w e (s, outcome) = record w { store = s; phase = processed e outcome }

  abbrev pub answered : Running S C → Envelope → Outcome → C × Bool → Stepped S C
  answered w e outcome (c, true) = on (record w { phase = reporting e outcome; consumer = c })
  answered w e outcome (c, false) = off other_exception (record w { consumer = c })

  abbrev pub reported : Running S C → Envelope → Outcome → Running S C
  reported w e outcome = record w { phase = polling; output = w.output ++ (e, outcome) ∷ [] }

  abbrev pub goes_on : (ℕ → Time) → Running S C → Stepped S C
  goes_on clock w = elim w.phase [
    | polling ↦ taken w (consumer.poll w.consumer)
    | received e ↦ on (recorded w e (process store clock lookup e w.store))
    | processed e outcome ↦ answered w e outcome (consumer.commit w.consumer)
    | reporting e outcome ↦ on (reported w e outcome)
  ]

  -- The consumer after the call that the loop is in.
  abbrev pub called : Phase → C → C
  called polling c = (consumer.poll c).0
  called (received e) c = c
  called (processed e outcome) c = (consumer.commit c).0
  called (reporting e outcome) c = c

  unfoldable pub step : Event S → Running S C → Stepped S C
  step (goes clock) w = goes_on clock w
  step (meanwhile f) w = on (record w { store = f w.store })
  step (leaves cause) w = off cause (record w { consumer = called w.phase w.consumer })

  -- The loop until an exception comes out of a call, or until KeyboardInterrupt comes between two
  -- calls, where the events end.
  unfoldable pub run_loop : List (Event S) → Running S C → Stepped S C
  run_loop [] w = on w
  run_loop (event ∷ events) w = elim (step event w) [
    | on next ↦ run_loop events next
    | off cause last ↦ off cause last
  ]

  -- The `except` clause.
  abbrev pub exit_of : Cause → Exit
  exit_of keyboard_interrupt = returned 0
  exit_of other_exception = raised

  -- The `finally` clause.
  abbrev pub closed : (S → S) → Running S C → Exit → Ended S C (List (Envelope × Outcome))
  closed close_store w exit = record {
    store = close_store w.store;
    kafka = consumer.close w.consumer;
    log = w.output;
    exit = exit;
  }

  abbrev pub finish : (S → S) → Stepped S C → Ended S C (List (Envelope × Outcome))
  finish close_store (on w) = closed close_store w (exit_of keyboard_interrupt)
  finish close_store (off cause w) = closed close_store w (exit_of cause)

  unfoldable pub main : (S → S) → List (Event S) → S → C → Ended S C (List (Envelope × Outcome))
  main close_store events s c = finish close_store (run_loop events (start s c))
