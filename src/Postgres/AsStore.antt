-- ===== src/Postgres/AsStore.antt =====
-- PostgresStore of common/db.py implements the protocol, on tables that keep their primary keys.
pub mod Keys
pub mod Protocol
pub mod Laws
use job_processing_workflow.Prelude.{ℕ, Bool, Option, List, [], ◌<◌, HasDistinctKeys, nat_key}
use job_processing_workflow.Models.{ℤ, pos, negsuc, OutboxMessage}
use job_processing_workflow.MemoryStore.Invariant.{RowsBelow}
use job_processing_workflow.MemoryStore.Invariant.Jobs.{HasIds}
use job_processing_workflow.Store.{Store}
use job_processing_workflow.Postgres as Postgres
use job_processing_workflow.Postgres.{Tables}
use job_processing_workflow.Postgres.View.{view_jobs, view_outbox}

-- The ids are primary keys, and the identity columns give new ones.
pub record HasKeys (t : Tables) : Type 0 where
  pub distinct_jobs : HasDistinctKeys (view_jobs t.jobs)
  pub job_ids : HasIds t.next_job (view_jobs t.jobs)
  pub distinct_rows : HasDistinctKeys (view_outbox t.outbox)
  pub rows_below : RowsBelow t.next_outbox (view_outbox t.outbox)

pub record Database : Type 0 where
  pub tables : Tables
  pub keys : HasKeys tables
