-- ===== src/ApiV2/Middleware.antt =====
-- handlerAPIv2/middleware.py, whose headers and class are those of handlerAPI/middleware.py, line by
-- line.
use job_processing_workflow.Prelude.{String}
use job_processing_workflow.Api.Middleware as V1
use job_processing_workflow.Api.Middleware.{Headers}
use job_processing_workflow.Api.App as App
use job_processing_workflow.Api.App.{Asgi}

abbrev pub security_headers : Headers
security_headers = V1.security_headers

-- SecurityMiddleware around an application.
abbrev pub secures : {L : Type 0} → (fresh : String) → Asgi L → Asgi L
secures fresh app = App.secures fresh app
