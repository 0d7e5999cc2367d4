-- ===== src/Worker/Loop/Accounts.antt =====
-- worker/__main__.py: which messages have been delivered, processed, committed and reported at each of
-- its points.
pub mod Steps
use job_processing_workflow.Prelude.{
  ℕ, ◌+◌, ◌≤◌, ◌≡◌, ◌⊎◌, inl, inr, Bool, true, false, Bool-cases, refl, subst, ◌∙◌, ap, sym, List,
  [], ◌∷◌, ◌++◌, map, length, arith,
}
use mathlib.Core.List.{append-nil, map-append}
use job_processing_workflow.Models.{Envelope}
use job_processing_workflow.Store.{Store}
use job_processing_workflow.Messaging.{Consumer, Polled, nothing, delivered, raises}
use job_processing_workflow.Worker.{Lookup, Outcome}
use job_processing_workflow.Worker.Loop.{
  Phase, polling, received, processed, reporting, Running, Stepped, on, off, answered, reported,
  taken,
}

-- What a consumer of Kafka promises: a log of the messages that it has delivered since it was
-- opened, and how many of them are committed. `poll` delivers a message, or nothing; `commit` commits
-- what has been delivered, or raises, and it may have committed then.
pub record ConsumerLaws {C : Type 0} (consumer : Consumer C) (log : C → List Envelope)
    (committed : C → ℕ) : Type 0 where
  pub poll_committed : (c : C) → committed (consumer.poll c).0 ≡ committed c
  pub poll_nothing : (c : C) → (consumer.poll c).1 ≡ nothing → log (consumer.poll c).0 ≡ log c
  pub poll_raises : (c : C) → (consumer.poll c).1 ≡ raises → log (consumer.poll c).0 ≡ log c
  pub poll_delivered :
      (c : C) (e : Envelope)
      → (consumer.poll c).1 ≡ delivered e
      → log (consumer.poll c).0 ≡ log c ++ e ∷ []
  pub commit_log : (c : C) → log (consumer.commit c).0 ≡ log c
  pub commit_committed :
      (c : C) → (consumer.commit c).1 ≡ true → committed (consumer.commit c).0 ≡ length (log c)
  pub commit_raises :
      (c : C)
      → (consumer.commit c).1 ≡ false
      → (committed (consumer.commit c).0 ≡ committed c)
        ⊎ (committed (consumer.commit c).0 ≡ length (log c))

-- The message that has been delivered and is not yet reported.
abbrev pub in_flight : Phase → List Envelope
in_flight polling = []
in_flight (received e) = e ∷ []
in_flight (processed e outcome) = e ∷ []
in_flight (reporting e outcome) = e ∷ []

-- How many messages are committed and not yet reported.
abbrev pub unreported : Phase → ℕ
unreported polling = 0
unreported (received e) = 0
unreported (processed e outcome) = 0
unreported (reporting e outcome) = 1

-- `process` has returned for this message.
abbrev pub IsProcessed : Phase → Envelope → Type 0
IsProcessed polling e = ⊥
IsProcessed (received msg) e = ⊥
IsProcessed (processed msg outcome) e = msg ≡ e
IsProcessed (reporting msg outcome) e = msg ≡ e

abbrev pub final : {S C : Type 0} → Stepped S C → Running S C
final (on w) = w
final (off cause w) = w

abbrev pub messages : List (Envelope × Outcome) → List Envelope
messages output = map (λ line. line.0) output

pub length-messages :
    (output : List (Envelope × Outcome)) → length (messages output) ≡ length output
length-messages [] = refl
length-messages (x ∷ l) = ground (arith, length-messages l)

pub length-snoc : {A : Type 0} (l : List A) (x : A) → length (l ++ x ∷ []) ≡ length l + 1
length-snoc [] x = refl
length-snoc (y ∷ l) x = ground (arith, length-snoc l x)

in_flight-length : (at : Phase) → length (in_flight at) ≤ 1
in_flight-length polling = omega arith
in_flight-length (received e) = omega arith
in_flight-length (processed e outcome) = omega arith
in_flight-length (reporting e outcome) = omega arith

abbrev pub Delivers : {S C : Type 0} → (C → List Envelope) → Running S C → Type 0
Delivers log w = log w.consumer ≡ messages w.output ++ in_flight w.phase

module _ {S C : Type 0} (log : C → List Envelope) (committed : C → ℕ) where
  -- While the loop goes on: its point tells which message is in flight, and whether it is committed.
  pub record IsOnTrack (w : Running S C) : Type 0 where
    pub delivers : Delivers log w
    pub commits : committed w.consumer ≡ length w.output + unreported w.phase

  -- All that has been delivered is reported, but for one message at most; what is reported is
  -- committed; the message that is not reported is committed only if it has been processed.
  pub record IsAccounted (w : Running S C) : Type 0 where
    pub rest : List Envelope
    pub delivers : log w.consumer ≡ messages w.output ++ rest
    pub at_most_one : length rest ≤ 1
    pub commits :
        (committed w.consumer ≡ length w.output)
        ⊎ ((e : Envelope) × (rest ≡ e ∷ [])
            × IsProcessed w.phase e
            × (committed w.consumer ≡ length w.output + 1))

  pub IsOnTrack-IsAccounted : (w : Running S C) → IsOnTrack w → IsAccounted w
  IsOnTrack-IsAccounted w t = record {
    rest = in_flight w.phase;
    delivers = t.delivers;
    at_most_one = in_flight-length w.phase;
    commits = by_phase w.phase refl;
  }
    where
      by_phase :
          (at : Phase)
          → w.phase ≡ at
          → (committed w.consumer ≡ length w.output)
            ⊎ ((e : Envelope) × (in_flight w.phase ≡ e ∷ [])
                × IsProcessed w.phase e
                × (committed w.consumer ≡ length w.output + 1))
      by_phase polling e = inl (t.commits ∙ rw e (omega arith))
      by_phase (received msg) e = inl (t.commits ∙ rw e (omega arith))
      by_phase (processed msg outcome) e = inl (t.commits ∙ rw e (omega arith))
      by_phase (reporting msg outcome) e = inr (msg, rw e refl, rw e refl, t.commits ∙ rw e refl)
