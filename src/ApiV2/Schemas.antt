-- ===== src/ApiV2/Schemas.antt =====
-- handlerAPIv2/schemas.py, whose models are those of handlerAPI/schemas.py, line by line.
use job_processing_workflow.Prelude.{String, Bool}
use job_processing_workflow.Api.Schemas as V1

abbrev pub valid_type : String → Bool
valid_type s = V1.valid_type s

abbrev pub CreateJobRequest : Type 0
CreateJobRequest = V1.CreateJobRequest

abbrev pub CreateJobResponse : Type 0
CreateJobResponse = V1.CreateJobResponse

abbrev pub CreatedBy : Type 0
CreatedBy = V1.CreatedBy

abbrev pub JobResponse : Type 0
JobResponse = V1.JobResponse
