-- ===== src/Worker/Loop/Accounts/Steps.antt =====
-- The calls of worker/__main__.py, one by one, and what they do to the messages that are delivered,
-- committed and reported.
use job_processing_workflow.Prelude.{
  ℕ, ◌+◌, ◌≡◌, inl, inr, Bool, true, false, Bool-cases, refl, subst, ◌∙◌, ap, sym, List, [], ◌∷◌,
  ◌++◌, length, arith,
}
use mathlib.Core.List.{append-nil, map-append}
use job_processing_workflow.Models.{Envelope}
use job_processing_workflow.Store.{Store}
use job_processing_workflow.Messaging.{Consumer, Polled, nothing, delivered, raises}
use job_processing_workflow.Worker.{Lookup, Outcome}
use job_processing_workflow.Worker.Loop.{
  polling, processed, Running, Stepped, on, off, answered, reported, taken,
}
use job_processing_workflow.Worker.Loop.Accounts.{
  ConsumerLaws, final, messages, length-messages, length-snoc, Delivers, IsOnTrack, IsAccounted,
  IsOnTrack-IsAccounted,
}

module _ {S C : Type 0} (store : Store S) (lookup : Lookup) (consumer : Consumer C)
    (log : C → List Envelope) (committed : C → ℕ) (laws : ConsumerLaws consumer log committed) where
  abbrev pub OnTrack : Running S C → Type 0
  OnTrack w = IsOnTrack log committed w

  abbrev pub Accounted : Running S C → Type 0
  Accounted w = IsAccounted log committed w

  -- What holds of the result of a step.
  abbrev pub Kept : Stepped S C → Type 0
  Kept (on w) = OnTrack w
  Kept (off cause w) = Accounted w

  abbrev PollGrows : C → C × Polled → Type 0
  PollGrows c (c', nothing) = log c' ≡ log c
  PollGrows c (c', raises) = log c' ≡ log c
  PollGrows c (c', delivered e) = log c' ≡ log c ++ e ∷ []

  poll_log : (c : C) (got : C × Polled) → consumer.poll c ≡ got → PollGrows c got
  poll_log c (c', nothing) e =
      ap log (sym (ap (λ r. r.0) e)) ∙ laws.poll_nothing c (ap (λ r. r.1) e)
  poll_log c (c', raises) e = ap log (sym (ap (λ r. r.0) e)) ∙ laws.poll_raises c (ap (λ r. r.1) e)
  poll_log c (c', delivered msg) e =
      ap log (sym (ap (λ r. r.0) e)) ∙ laws.poll_delivered c msg (ap (λ r. r.1) e)

  got_committed : (c : C) (got : C × Polled) → consumer.poll c ≡ got → committed got.0 ≡ committed c
  got_committed c got e = ap committed (sym (ap (λ r. r.0) e)) ∙ laws.poll_committed c

  pub taken-Delivers :
      (w : Running S C) (got : C × Polled)
      → consumer.poll w.consumer ≡ got
      → w.phase ≡ polling
      → Delivers log w
      → Delivers log (final (taken store lookup consumer w got))
  taken-Delivers w (c, nothing) e at d = poll_log w.consumer (c, nothing) e ∙ d
  taken-Delivers w (c, raises) e at d = poll_log w.consumer (c, raises) e ∙ d
  taken-Delivers w (c, delivered msg) e at d =
      let before : log w.consumer ≡ messages w.output =
        d ∙ rw at (append-nil (messages w.output)) in
      poll_log w.consumer (c, delivered msg) e ∙ ap (λ l. l ++ msg ∷ []) before

  pub taken-Kept :
      (w : Running S C) (got : C × Polled)
      → consumer.poll w.consumer ≡ got
      → w.phase ≡ polling
      → OnTrack w
      → Kept (taken store lookup consumer w got)
  taken-Kept w (c, nothing) e at t = record {
    delivers = taken-Delivers w (c, nothing) e at t.delivers;
    commits = got_committed w.consumer (c, nothing) e ∙ t.commits;
  }
  taken-Kept w (c, raises) e at t =
      IsOnTrack-IsAccounted log committed (record w { consumer = c })
        (record {
          delivers = taken-Delivers w (c, raises) e at t.delivers;
          commits = got_committed w.consumer (c, raises) e ∙ t.commits;
        })
  taken-Kept w (c, delivered msg) e at t = record {
    delivers = taken-Delivers w (c, delivered msg) e at t.delivers;
    commits = got_committed w.consumer (c, delivered msg) e ∙ t.commits ∙ rw at refl;
  }

  -- The exception comes out of `poll`: what the call has delivered is lost.
  pub polled-IsAccounted :
      (w : Running S C) (got : C × Polled)
      → consumer.poll w.consumer ≡ got
      → w.phase ≡ polling
      → OnTrack w
      → Accounted (record w { consumer = got.0 })
  polled-IsAccounted w (c, nothing) e at t =
      IsOnTrack-IsAccounted log committed (record w { consumer = c })
        (taken-Kept w (c, nothing) e at t)
  polled-IsAccounted w (c, raises) e at t = taken-Kept w (c, raises) e at t
  polled-IsAccounted w (c, delivered msg) e at t = record {
    rest = msg ∷ [];
    delivers = taken-Delivers w (c, delivered msg) e at t.delivers;
    at_most_one = omega arith;
    commits = inl (got_committed w.consumer (c, delivered msg) e ∙ t.commits ∙ rw at (omega arith));
  }

  pub answered-Delivers :
      (w : Running S C) (msg : Envelope) (outcome : Outcome)
      → w.phase ≡ processed msg outcome
      → (got : C × Bool) → consumer.commit w.consumer ≡ got
      → Delivers log w
      → Delivers log (final (answered store lookup consumer w msg outcome got))
  answered-Delivers w msg outcome at (c, true) e d =
      ap log (sym (ap (λ r. r.0) e)) ∙ laws.commit_log w.consumer ∙ d ∙ rw at refl
  answered-Delivers w msg outcome at (c, false) e d =
      ap log (sym (ap (λ r. r.0) e)) ∙ laws.commit_log w.consumer ∙ d

  module _ (w : Running S C) (msg : Envelope) (outcome : Outcome)
      (at : w.phase ≡ processed msg outcome) (t : OnTrack w) where
    counted : length (log w.consumer) ≡ length w.output + 1
    counted =
        ap length t.delivers
        ∙ rw at (length-snoc (messages w.output) msg)
        ∙ ap (λ n. n + 1) (length-messages w.output)

    none_more : committed w.consumer ≡ length w.output
    none_more = t.commits ∙ rw at (omega arith)

    -- However `commit` has ended.
    pub committing-IsAccounted : Accounted (record w { consumer = (consumer.commit w.consumer).0 })
    committing-IsAccounted = record {
      rest = msg ∷ [];
      delivers = laws.commit_log w.consumer ∙ t.delivers ∙ rw at refl;
      at_most_one = omega arith;
      commits = elim (Bool-cases (consumer.commit w.consumer).1) [
        | inl done ↦ inr (msg, refl, rw at refl, laws.commit_committed w.consumer done ∙ counted)
        | inr failed ↦ elim (laws.commit_raises w.consumer failed) [
          | inl same ↦ inl (same ∙ none_more)
          | inr all ↦ inr (msg, refl, rw at refl, all ∙ counted)
        ]
      ];
    }

    pub answered-Kept :
        (got : C × Bool)
        → consumer.commit w.consumer ≡ got
        → Kept (answered store lookup consumer w msg outcome got)
    answered-Kept (c, true) e = record {
      delivers = answered-Delivers w msg outcome at (c, true) e t.delivers;
      commits =
          ap committed (sym (ap (λ r. r.0) e))
          ∙ laws.commit_committed w.consumer (ap (λ r. r.1) e)
          ∙ counted;
    }
    answered-Kept (c, false) e =
        subst (λ (d : C). Accounted (record w { consumer = d })) (ap (λ r. r.0) e)
          committing-IsAccounted

  pub reported-Delivers :
      (w : Running S C) (msg : Envelope) (outcome : Outcome)
      → log w.consumer ≡ messages w.output ++ msg ∷ []
      → Delivers log (reported store lookup consumer w msg outcome)
  reported-Delivers w msg outcome all =
      all ∙ sym (map-append (λ line. line.0) w.output ((msg, outcome) ∷ [])) ∙ sym (append-nil _)
