-- ===== src/Journey.antt =====
-- A job from the request to its result: handlerAPI/routes.py, then a batch of dispatcher/service.py,
-- then worker/service.py, over the store of common/store.py.
pub mod Loops
pub mod System
use job_processing_workflow.Prelude.{
  ℕ, ◌+◌, ◌≡◌, refl, ◌∙◌, String, true, ◌&&◌, some, List, [], ◌∷◌, lookup, lookup-adjust, nat_key,
  text_key, nat_eq, nat_eq_iff, decimal, if◌then◌else◌, overlay, arith, Bool-cases, inl, inr,
  length,
}
use mathlib.Core.Option.{get_or}
use job_processing_workflow.Models.{
  ℤ, Job, JobStatus, is_queued, queued, dispatched, OutboxMessage, Time, Payload, build_envelope,
}
use job_processing_workflow.MemoryStore.{
  InMemoryStore, TypeConfig, mark_dispatched, set_status, is_claimable, new_job, fetch_unpublished,
}
use job_processing_workflow.MemoryStore as Memory
use job_processing_workflow.MemoryStore.AsStore.{in_memory}
use job_processing_workflow.MemoryStore.Invariant.{IsValid}
use job_processing_workflow.MemoryStore.Dedup.{enqueue-get_job}
use job_processing_workflow.Messaging.{Producer}
use job_processing_workflow.Dispatcher.{publish_all, dispatch_once}
use job_processing_workflow.Worker.{Lookup, Handler, process}
use job_processing_workflow.Worker.Memory.{result_status, result_outcome, process-get_job}
use job_processing_workflow.Api.{returns}
use job_processing_workflow.Api.Principal.{Principal, Settings, to_creator}
use job_processing_workflow.Api.Schemas.{CreateJobRequest}
use job_processing_workflow.Api.Routes.{create_job, created, get_job, to_response}
use job_processing_workflow.Api.Routes.Memory.{stored, own_subject}

-- The job waits to be claimed: it is queued or dispatched, and else as it was.
pub record Waits (k : ℕ) (job : Job) (s : InMemoryStore) : Type 0 where
  pub status : JobStatus
  pub updated_at : Time
  pub found : lookup k s.jobs ≡ some (record job { status = status; updated_at = updated_at })
  pub claimable : is_claimable status ≡ true

module _ (k : ℕ) (job : Job) where
  mark_dispatched-Waits :
      (now : Time) (row j : ℕ) (s : InMemoryStore)
      → Waits k job s
      → Waits k job (mark_dispatched now row j s)
  unfolding mark_dispatched
  mark_dispatched-Waits now row j s w = elim (Bool-cases (nat_eq j k && is_queued w.status)) [
    | inl moves ↦
        let same : j ≡ k = ground (arith, nat_eq_iff j k) in
        record {
          status = dispatched;
          updated_at = now;
          found = rw same (
              ground (
                arith,
                moves,
                w.found,
                lookup-adjust k k (set_status dispatched now) s.jobs,
                nat_eq_iff k k,
              ));
          claimable = refl;
        }
    | inr stays ↦ record {
      status = w.status;
      updated_at = w.updated_at;
      found = ground (
        arith,
        stays,
        w.found,
        lookup-adjust j k (set_status dispatched now) s.jobs,
        nat_eq_iff j k,
      );
      claimable = w.claimable;
    }
  ]

  mark_dispatched-type_config :
      (now : Time) (row j : ℕ) (s : InMemoryStore)
      → (mark_dispatched now row j s).type_config ≡ s.type_config
  unfolding mark_dispatched
  mark_dispatched-type_config now row j s = ground arith

  module _ {P : Type 0} (producer : Producer P) (clock : ℕ → Time) (topic : String) where
    publish_all-Waits :
        (n count : ℕ) (l : List OutboxMessage) (s : InMemoryStore) (p : P)
        → Waits k job s
        → let t = (publish_all in_memory producer clock n topic count l (s, p)).0.0 in
          Waits k job t × (t.type_config ≡ s.type_config)
    unfolding publish_all
    publish_all-Waits n count [] s p w = (w, refl)
    publish_all-Waits n count (msg ∷ l) s p w =
        let (p', sent) = producer.publish topic (decimal msg.job_id) msg.payload p in
        let t = mark_dispatched (clock n) msg.id msg.job_id s in
        let (waits, same) =
          publish_all-Waits (n + 1) count l t p'
            (mark_dispatched-Waits (clock n) msg.id msg.job_id s w) in
        elim (Bool-cases sent) [
          | inl published ↦
              rw published (waits, same ∙ mark_dispatched-type_config (clock n) msg.id msg.job_id s)
          | inr raised ↦ rw raised (w, refl)
        ]

module _ (c u : Time) (body : CreateJobRequest) (principal : Principal) (s : InMemoryStore)
    (v : IsValid s) (k : ℕ)
    (accepted : (create_job in_memory c u body principal s).1 ≡ returns (created k)) where
  abbrev requested : Job
  requested =
      new_job k body.job_type (some (get_or body.payload [])) (some (to_creator principal)) c u

  abbrev s1 : InMemoryStore
  s1 = (create_job in_memory c u body principal s).0

  own_entry : (if nat_eq k k then some requested else Memory.get_job k s) ≡ some requested
  own_entry = ground (arith, nat_eq_iff k k)

  requested-Waits : Waits k requested s1
  unfolding create_job Memory.get_job
  requested-Waits = record {
    status = queued;
    updated_at = u;
    found =
        (enqueue-get_job c u body.job_type (some (get_or body.payload []))
            (some (to_creator principal)) s v k (stored c u body principal s v k accepted)).1
          k
        ∙ own_entry;
    claimable = refl;
  }

  same_config : s1.type_config ≡ s.type_config
  unfolding create_job Memory.enqueue
  same_config = ground arith

  module _ {P : Type 0} (producer : Producer P) (p : P) (clock later : ℕ → Time) (topic : String)
      (batch_size : ℤ) (handlers : Lookup) (cfg : TypeConfig) (h : Handler) (settings : Settings)
      (set : lookup body.job_type s.type_config ≡ some cfg)
      (known : handlers body.job_type ≡ some h) where
    abbrev s2 : InMemoryStore
    s2 = (dispatch_once in_memory producer clock topic batch_size (s1, p)).0.0

    abbrev effective : Payload
    effective = overlay cfg.payload (get_or body.payload [])

    s2-Waits : Waits k requested s2 × (s2.type_config ≡ s1.type_config)
    unfolding dispatch_once
    s2-Waits =
        let rows = fetch_unpublished batch_size s1 in
        publish_all-Waits k requested producer clock topic 0 (length rows) rows s1 p requested-Waits

    -- A request to create a job has been accepted, its type is configured and has a handler; then a
    -- batch of the dispatcher runs, whatever its size and whether or not the producer raises, and a
    -- worker processes the message of the job. The handler receives the base configuration overlaid
    -- with the payload of the request; the outcome says whether it returned; and the caller reads the
    -- job under the id of the answer: completed or failed accordingly, with the payload as the handler
    -- left it, and the request's own payload as its input.
    pub create_job-process-get_job :
        let r = process in_memory later handlers (build_envelope k body.job_type) s2 in
        (r.1 ≡ result_outcome (h effective).1)
        × (get_job in_memory k principal settings r.0
            ≡ returns (
                to_response (record requested {
                  status = result_status (h effective).1;
                  payload = (h effective).0;
                  updated_at = later 2;
                })))
    unfolding get_job
    create_job-process-get_job =
        let (w, same) = s2-Waits in
        let waiting = record requested { status = w.status; updated_at = w.updated_at } in
        let (outcome, ended) =
          process-get_job later handlers k s2 waiting cfg h w.found w.claimable
            (rw (same, same_config) set) known in
        (outcome, rw ended (ground (arith, own_subject c u body principal s v settings)))
