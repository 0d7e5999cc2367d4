-- ===== src/Postgres/Payloads.antt =====
-- `resolve_payload` of common/db.py against that of InMemoryStore.
use job_processing_workflow.Prelude.{
  ℕ, ◌≡◌, refl, subst, String, Option, some, none, List, [], ◌∷◌, if◌then◌else◌, lookup, adjust,
  nat_key, text_key, HasDistinctKeys, arith, Bool-cases, Option-cases, inl, inr, ◌∙◌,
}
use job_processing_workflow.Models.{Job, Time, Payload, is_running}
use job_processing_workflow.MemoryStore.{InMemoryStore, TypeConfig}
use job_processing_workflow.Postgres as Postgres
use job_processing_workflow.Postgres.{
  Jsonb, JobRow, ConfigRow, Tables, to_job, update_rows, returning, config_of, merge, guard,
}
use job_processing_workflow.Postgres.View.{
  Rep, view_jobs, view_config, view-update, view-update_missing,
}
use job_processing_workflow.Postgres.Guards.{Agree, distinct_view, Rep-jobs}

abbrev pub to_config : ConfigRow → TypeConfig
to_config c = record {
  run_timeout = c.run_timeout;
  max_attempts = c.max_attempts;
  payload = c.payload;
}

-- `resolve_payload` of InMemoryStore with another merge of the two payloads.
abbrev pub snapshot_by : (Payload → Payload → Payload) → Payload → Time → Job → Job
snapshot_by concat base now job = record job {
  payload = concat base job.input_payload;
  updated_at = now;
}

unfoldable pub resolve_by :
    (Payload → Payload → Payload) → Time → ℕ → InMemoryStore → InMemoryStore × Option Payload
resolve_by concat now k s = elim (lookup k s.jobs) [
  | none ↦ (s, none)
  | some job ↦
      if is_running job.status
      then elim (lookup job.job_type s.type_config) [
        | none ↦ (s, none)
        | some cfg ↦ (
          record s { jobs = adjust k (snapshot_by concat cfg.payload now) s.jobs },
          some (concat cfg.payload job.input_payload),
        )
      ]
      else (s, none)
]

config-none :
    (t : String) (rows : List ConfigRow)
    → config_of t rows ≡ none
    → lookup t (view_config rows) ≡ none
config-none t [] h = refl
config-none t (r ∷ rows) h = ground (arith, config-none t rows)

config-some :
    (t : String) (rows : List ConfigRow) (c : ConfigRow)
    → config_of t rows ≡ some c
    → lookup t (view_config rows) ≡ some (to_config c)
config-some t [] c h = cc
config-some t (r ∷ rows) c h = ground (arith, config-some t rows c)

returning_missing :
    (jsonb : Jsonb) (base : Payload) (now : Time) (k : ℕ) (rows : List JobRow)
    → lookup k (view_jobs rows) ≡ none
    → returning (guard is_running k) (merge jsonb base now) rows ≡ none
returning_missing jsonb base now k [] h = refl
returning_missing jsonb base now k (r ∷ rows) h =
    ground (arith, returning_missing jsonb base now k rows)

returning_found :
    (jsonb : Jsonb) (base : Payload) (now : Time) (k : ℕ) (rows : List JobRow) (job : Job)
    → HasDistinctKeys (view_jobs rows)
    → lookup k (view_jobs rows) ≡ some job
    → returning (guard is_running k) (merge jsonb base now) rows
      ≡ (if is_running job.status then some (jsonb.concat base job.input_payload) else none)
returning_found jsonb base now k [] job d h = cc
returning_found jsonb base now k (r ∷ rows) job d h =
    ground
      (arith, returning_found jsonb base now k rows job, returning_missing jsonb base now k rows)

module _ (t : Tables) (s : InMemoryStore) (rep : Rep t s) (d : HasDistinctKeys s.jobs) (now : Time)
    (k : ℕ) (type : String) (jsonb : Jsonb)
    (own : (job : Job) → lookup k s.jobs ≡ some job → job.job_type ≡ type) where
  configured :
      (c : ConfigRow)
      → config_of type t.job_type_config ≡ some c
      → lookup type s.type_config ≡ some (to_config c)
  configured c h =
      subst (λ d. lookup type d ≡ some (to_config c)) rep.config
        (config-some type t.job_type_config c h)

  not_configured : config_of type t.job_type_config ≡ none → lookup type s.type_config ≡ none
  not_configured h =
      subst (λ d. lookup type d ≡ none) rep.config (config-none type t.job_type_config h)

  no_config : config_of type t.job_type_config ≡ none → resolve_by jsonb.concat now k s ≡ (s, none)
  unfolding resolve_by
  no_config h = elim (Option-cases (lookup k s.jobs)) [
    | inl missing ↦ ground (arith, missing)
    | inr (job, found) ↦
        let e : lookup job.job_type s.type_config ≡ none = rw (own job found) (not_configured h) in
        ground (arith, found, e)
  ]

  with_config :
      (c : ConfigRow) (job : Job)
      → config_of type t.job_type_config ≡ some c
      → lookup k s.jobs ≡ some job
      → resolve_by jsonb.concat now k s ≡ (
          if is_running job.status
          then (
            record s { jobs = adjust k (snapshot_by jsonb.concat c.payload now) s.jobs },
            some (jsonb.concat c.payload job.input_payload),
          )
          else (s, none))
  unfolding resolve_by
  with_config c job h found =
      let e : lookup job.job_type s.type_config ≡ some (to_config c) =
        rw (own job found) (configured c h) in
      ground (arith, found, e)

  resolve_missing : lookup k s.jobs ≡ none → resolve_by jsonb.concat now k s ≡ (s, none)
  unfolding resolve_by
  resolve_missing h = ground (arith, h)

  unconfigured_row :
      config_of type t.job_type_config ≡ none
      → Postgres.resolve_payload jsonb now k type t ≡ (t, none)
  unfolding Postgres.resolve_payload
  unconfigured_row h = ground (arith, h)

  configured_row :
      (c : ConfigRow)
      → config_of type t.job_type_config ≡ some c
      → Postgres.resolve_payload jsonb now k type t ≡ (
        record t { jobs = update_rows (guard is_running k) (merge jsonb c.payload now) t.jobs },
        returning (guard is_running k) (merge jsonb c.payload now) t.jobs,
      )
  unfolding Postgres.resolve_payload
  configured_row c h = ground (arith, h)

  pub resolve_payload-Agree :
      Agree (Postgres.resolve_payload jsonb now k type t) (resolve_by jsonb.concat now k s)
  resolve_payload-Agree = elim (Option-cases (config_of type t.job_type_config)) [
    | inl h ↦ rw (no_config h) (rw (unconfigured_row h) (refl, rep))
    | inr (c, h) ↦ rw (configured_row c h) (elim (Option-cases (lookup k (view_jobs t.jobs))) [
      | inl missing ↦
          let absent : lookup k s.jobs ≡ none = subst (λ d. lookup k d ≡ none) rep.jobs missing in
          rw (resolve_missing absent) (
            returning_missing jsonb c.payload now k t.jobs missing,
            Rep-jobs t s rep d (
                view-update_missing (λ j. is_running j.status) (merge jsonb c.payload now)
                  (snapshot_by jsonb.concat c.payload now) k (λ r. refl) (λ r. refl) t.jobs missing
                ∙ rep.jobs),
          )
      | inr (job, found) ↦
          let there : lookup k s.jobs ≡ some job =
            subst (λ d. lookup k d ≡ some job) rep.jobs found in
          let back =
            returning_found jsonb c.payload now k t.jobs job (distinct_view t s rep d) found in
          let views =
            view-update (λ j. is_running j.status) (merge jsonb c.payload now)
              (snapshot_by jsonb.concat c.payload now) k (λ r. refl) (λ r. refl) t.jobs job
              (distinct_view t s rep d) found in
          rw (with_config c job h there) (elim (Bool-cases (is_running job.status)) [
            | inl runs ↦
                rw runs
                  (ground (arith, back), Rep-jobs t s rep d (ground (arith, views, runs, rep.jobs)))
            | inr stops ↦
                rw stops (
                  ground (arith, back),
                  Rep-jobs t s rep d (ground (arith, views, stops, rep.jobs)),
                )
          ])
    ])
  ]
