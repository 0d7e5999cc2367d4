-- ===== src/Postgres/Normal/Payloads.antt =====
-- `enqueue` and `resolve_payload` of InMemoryStore on what common/db.py keeps of the state: with
-- payloads as the columns hold them, and with the merge of the database.
use job_processing_workflow.Prelude.{
  ℕ, ◌≡◌, ◌+◌, refl, ap, sym, ◌∙◌, String, Bool, true, false, Option, some, none, [], if◌then◌else◌,
  lookup, insert, adjust, nat_key, text_key, overlay, arith, Bool-cases, Option-cases, inl, inr,
}
use mathlib.Core.Option
use mathlib.Core.Option.{get_or}
use job_processing_workflow.Models.{Job, Time, Payload, Creator, is_running}
use job_processing_workflow.MemoryStore as Memory
use job_processing_workflow.MemoryStore.{InMemoryStore, TypeConfig, active, new_job, new_message}
use job_processing_workflow.Postgres.{Jsonb, no_creator}
use job_processing_workflow.Postgres.Payloads.{snapshot_by, resolve_by}
use job_processing_workflow.Postgres.Normal.{
  JsonbLaws, lookup-map_values, insert-map_values, adjust-map_values, normal_job, normal_config,
  normal, Commutes, back, found_normal, missing_normal,
}
use job_processing_workflow.Postgres.Normal.Calls.{any_active-normal}

module _ (jsonb : Jsonb) (laws : JsonbLaws jsonb) where
  module _ (now : Time) (k : ℕ) (s : InMemoryStore) where
    by_none : lookup k s.jobs ≡ none → resolve_by jsonb.concat now k s ≡ (s, none)
    unfolding resolve_by
    by_none h = ground (arith, h)

    by_no_config :
        (job : Job)
        → lookup k s.jobs ≡ some job
        → lookup job.job_type s.type_config ≡ none
        → resolve_by jsonb.concat now k s ≡ (s, none)
    unfolding resolve_by
    by_no_config job h c = ground (arith, h, c)

    by_config :
        (job : Job) (cfg : TypeConfig)
        → lookup k s.jobs ≡ some job
        → lookup job.job_type s.type_config ≡ some cfg
        → resolve_by jsonb.concat now k s ≡ (
            if is_running job.status
            then (
              record s { jobs = adjust k (snapshot_by jsonb.concat cfg.payload now) s.jobs },
              some (jsonb.concat cfg.payload job.input_payload),
            )
            else (s, none))
    unfolding resolve_by
    by_config job cfg h c = ground (arith, h, c)

    memory_none :
        (type : String) → lookup k s.jobs ≡ none → Memory.resolve_payload now k type s ≡ (s, none)
    unfolding Memory.resolve_payload
    memory_none type h = ground (arith, h)

    memory_no_config :
        (type : String) (job : Job)
        → lookup k s.jobs ≡ some job
        → lookup job.job_type s.type_config ≡ none
        → Memory.resolve_payload now k type s ≡ (s, none)
    unfolding Memory.resolve_payload
    memory_no_config type job h c = ground (arith, h, c)

    memory_config :
        (type : String) (job : Job) (cfg : TypeConfig)
        → lookup k s.jobs ≡ some job
        → lookup job.job_type s.type_config ≡ some cfg
        → Memory.resolve_payload now k type s ≡ (
            if is_running job.status
            then (
              record s { jobs = adjust k (Memory.snapshot cfg.payload now) s.jobs },
              some (overlay cfg.payload job.input_payload),
            )
            else (s, none))
    unfolding Memory.resolve_payload
    memory_config type job cfg h c = ground (arith, h, c)

  abbrev kept : Option Payload → Option Payload
  kept answer = Option.map jsonb.store answer

  pub resolve-Commutes :
      (now : Time) (k : ℕ) (type : String) (s : InMemoryStore)
      → Commutes jsonb
          (λ (answer : Option Payload). Option.map jsonb.store answer)
          (resolve_by jsonb.concat now k (normal jsonb s))
          (Memory.resolve_payload now k type s)
  resolve-Commutes now k type s = elim (Option-cases (lookup k s.jobs)) [
    | inl missing ↦
        by_none now k (normal jsonb s) (missing_normal jsonb k s missing)
        ∙ sym (ap (back jsonb kept) (memory_none now k s type missing))
    | inr (job, found) ↦
        let there = found_normal jsonb k s job found in
        let config = lookup-map_values (normal_config jsonb) job.job_type s.type_config in
        elim (Option-cases (lookup job.job_type s.type_config)) [
          | inl no_config ↦
              by_no_config now k (normal jsonb s) (normal_job jsonb job) there
                (config ∙ ap (Option.map (normal_config jsonb)) no_config)
              ∙ sym (ap (back jsonb kept) (memory_no_config now k s type job found no_config))
          | inr (cfg, configured) ↦
              by_config now k (normal jsonb s) (normal_job jsonb job) (normal_config jsonb cfg)
                there (config ∙ ap (Option.map (normal_config jsonb)) configured)
              ∙ by_status (is_running job.status) job cfg
              ∙ sym (ap (back jsonb kept) (memory_config now k s type job cfg found configured))
        ]
  ]
    where
      by_status :
          (runs : Bool) (job : Job) (cfg : TypeConfig)
          → (if runs
              then (
                record (normal jsonb s) {
                  jobs =
                      adjust k
                        (snapshot_by jsonb.concat (jsonb.store cfg.payload) now)
                        (normal jsonb s).jobs;
                },
                some (jsonb.concat (jsonb.store cfg.payload) (jsonb.store job.input_payload)),
              )
              else (normal jsonb s, none))
            ≡ back jsonb kept (
                if runs
                then (
                  record s { jobs = adjust k (Memory.snapshot cfg.payload now) s.jobs },
                  some (overlay cfg.payload job.input_payload),
                )
                else (s, none))
      by_status false job cfg = refl
      by_status true job cfg =
          let moved =
            adjust-map_values (normal_job jsonb) k
              (snapshot_by jsonb.concat (jsonb.store cfg.payload) now)
              (Memory.snapshot cfg.payload now)
              (λ j.
                ap (λ p. record (normal_job jsonb j) { payload = p; updated_at = now })
                  (laws.concat_store cfg.payload j.input_payload))
              s.jobs in
          rw (moved, laws.concat_store cfg.payload job.input_payload) refl

  module _ (now : Time) (type : String) (input : Option Payload) (creator : Option Creator)
      (s : InMemoryStore) where
    abbrev after : InMemoryStore
    after = record s {
      jobs = insert s.next_job (new_job s.next_job type input creator now now) s.jobs;
      outbox = insert s.next_outbox (new_message s.next_outbox s.next_job type) s.outbox;
      next_job = s.next_job + 1;
      next_outbox = s.next_outbox + 1;
    }

    abbrev stored : Option Payload
    stored = some (jsonb.store (get_or input []))

    abbrev who : Option Creator
    who = some (get_or creator no_creator)

    same_active : active type (normal jsonb s) ≡ active type s
    unfolding active
    same_active = any_active-normal jsonb type s.jobs

    new_job-normal :
        new_job s.next_job type stored who now now
        ≡ normal_job jsonb (new_job s.next_job type input creator now now)
    new_job-normal =
        ap
          (λ p. record (normal_job jsonb (new_job s.next_job type input creator now now)) {
            payload = p;
          })
          (sym laws.store_empty)

    -- A call with the payload and the creator as the row holds them.
    pub enqueue-Commutes :
        Commutes jsonb
          (λ (k : Option ℕ). k)
          (Memory.enqueue now now type stored who (normal jsonb s))
          (Memory.enqueue now now type input creator s)
    unfolding Memory.enqueue
    enqueue-Commutes = elim (Bool-cases (active type s)) [
      | inl held ↦ rw (same_active, held) refl
      | inr free ↦
          rw
            (
              same_active,
              free,
              new_job-normal,
              insert-map_values (normal_job jsonb) s.next_job
                  (new_job s.next_job type input creator now now) s.jobs,
            )
            refl
    ]
