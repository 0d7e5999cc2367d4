-- ===== src/Handler/Cli.antt =====
-- handler/__main__.py: the command that enqueues one job.
pub mod Memory
use job_processing_workflow.Prelude.{
  String, Option, some, none, List, [], ◌∷◌, decimal, if◌then◌else◌,
}
use Prim.Native.String
use job_processing_workflow.Models.{Time, Payload}
use job_processing_workflow.Store.{Store}
use job_processing_workflow.Service.{Exit, returned, raised}
use job_processing_workflow.Handler.{EnqueueResult, enqueue}

-- What has been written, and how `main` ends.
pub record Reply : Type 0 where
  pub stdout : String
  pub stderr : String
  pub exit : Exit

abbrev pub usage : Reply
usage = record {
  stdout = "";
  stderr = "usage: python -m handler <job_type> [payload_json]\n";
  exit = returned 2;
}

abbrev pub told : String → EnqueueResult → Reply
told job_type result = record {
  stdout =
      if result.enqueued
      then String.◌++◌ "enqueued " (
          String.◌++◌ job_type (
            String.◌++◌ " as job "
              (String.◌++◌ (elim result.job_id [ none ↦ "None" | some k ↦ decimal k ]) "\n")))
      else String.◌++◌ "skipped " (String.◌++◌ job_type ": an active job already exists\n");
  stderr = "";
  exit = returned 0;
}

-- `loads` is `json.loads` for the text of an object; it gives nothing where that raises.
module _ {S : Type 0} (store : Store S) (close_store : S → S)
    (loads : String → Option Payload) where
  abbrev pub payload_of : List String → Option Payload
  payload_of [] = some []
  payload_of (text ∷ _) = loads text

  abbrev pub run : (created updated : Time) → String → Option Payload → S → S × Reply
  run created updated job_type none s = (s, record { stdout = ""; stderr = ""; exit = raised })
  run created updated job_type (some payload) s =
      let (s', result) = enqueue store created updated job_type (some payload) s in
      (close_store s', told job_type result)

  unfoldable pub main : (created updated : Time) → List String → S → S × Reply
  main created updated [] s = (s, usage)
  main created updated (job_type ∷ rest) s = run created updated job_type (payload_of rest) s
