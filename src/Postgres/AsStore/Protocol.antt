-- ===== src/Postgres/AsStore/Protocol.antt =====
-- The methods of PostgresStore in common/db.py as the operations of the protocol.
use job_processing_workflow.Prelude.{List, []}
use job_processing_workflow.Models.{ℤ, pos, negsuc, OutboxMessage}
use job_processing_workflow.Store.{Store}
use job_processing_workflow.Postgres as Postgres
use job_processing_workflow.Postgres.{Jsonb, JobRow, Tables}
use job_processing_workflow.Postgres.AsStore.{Database}
use job_processing_workflow.Postgres.AsStore.Keys.{
  enqueue-HasKeys, mark_dispatched-HasKeys, claim-HasKeys, resolve_payload-HasKeys,
  complete-HasKeys, fail-HasKeys, requeue_stuck-HasKeys, dead_letter-HasKeys,
}

-- A negative LIMIT is an error of the database, which gives no rows.
abbrev rows_to : ℤ → Tables → List OutboxMessage
rows_to (pos limit) t = Postgres.fetch_unpublished limit t
rows_to (negsuc n) t = []

-- `enqueue` reads the clock once. The dictionary that `resolve_payload` returns is a copy.
abbrev pub postgres : Jsonb → (scan : List JobRow → List JobRow) → Store Database
postgres jsonb scan = record {
  enqueue = λ created updated type input creator db.
      let r = Postgres.enqueue jsonb created type input creator db.tables in
      (
        record {
          tables = r.0;
          keys = enqueue-HasKeys jsonb created type input creator db.tables db.keys;
        },
        r.1,
      );
  fetch_unpublished = λ limit db. rows_to limit db.tables;
  mark_dispatched = λ now row k db. record {
    tables = Postgres.mark_dispatched now row k db.tables;
    keys = mark_dispatched-HasKeys now k db.tables db.keys row;
  };
  claim = λ now k db.
      let r = Postgres.claim now k db.tables in
      (record { tables = r.0; keys = claim-HasKeys now k db.tables db.keys }, r.1);
  resolve_payload = λ now k type db.
      let r = Postgres.resolve_payload jsonb now k type db.tables in
      (
        record { tables = r.0; keys = resolve_payload-HasKeys now k db.tables db.keys jsonb type },
        r.1,
      );
  complete = λ now k db.
      let r = Postgres.complete now k db.tables in
      (record { tables = r.0; keys = complete-HasKeys now k db.tables db.keys }, r.1);
  fail = λ now k db.
      let r = Postgres.fail now k db.tables in
      (record { tables = r.0; keys = fail-HasKeys now k db.tables db.keys }, r.1);
  find_stuck = λ now db. Postgres.find_stuck scan now db.tables;
  requeue_stuck = λ now k db.
      let r = Postgres.requeue_stuck now k db.tables in
      (record { tables = r.0; keys = requeue_stuck-HasKeys now k db.tables db.keys }, r.1);
  dead_letter = λ now k db.
      let r = Postgres.dead_letter now k db.tables in
      (record { tables = r.0; keys = dead_letter-HasKeys now k db.tables db.keys }, r.1);
  get_job = λ k db. Postgres.get_job k db.tables;
  write_payload = λ k payload db. db;
}
