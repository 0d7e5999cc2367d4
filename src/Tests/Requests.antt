-- ===== src/Tests/Requests.antt =====
-- Requests to handlerAPI with a small library of tokens.
use job_processing_workflow.Prelude.{
  ◌≡◌, ◌↔◌, ◌⊎◌, inr, refl, String, true, false, not, ◌&&◌, some, none, [], ◌∷◌, ◌==◌,
  if◌then◌else◌, ltb, lookup, text_key, is_space,
}
use Prim.Native.String
use job_processing_workflow.Models.{Job}
use job_processing_workflow.MemoryStore as Memory
use job_processing_workflow.MemoryStore.{
  InMemoryStore, set_type_config, active, new_job, empty_store,
}
use job_processing_workflow.MemoryStore.AsStore.{in_memory}
use job_processing_workflow.MemoryStore.Invariant.Enqueue.{empty_store-IsValid}
use job_processing_workflow.Api.{returns, unauthorized}
use job_processing_workflow.Api.Principal.{
  Claims, text, Principal, Settings, to_principal, to_creator, is_service, has_user_claim,
  is_own_subject, name_of, to_principal-is_service,
}
use job_processing_workflow.Api.Keys.{
  Jwk, JwksCache, Fetch, get_key, IsKeyed, get_key-unauthorized_iff, keys_from, has, kid_key,
}
use job_processing_workflow.Api.Config.{Oidc}
use job_processing_workflow.Models.{pos}
use job_processing_workflow.Api.Auth.{
  Jwt, get_principal, verify, require_write, require_read, can_read_job_created_by,
}
use job_processing_workflow.Api.Schemas.{
  valid_type, valid_type_iff, IsJobType, is_type_char, CreateJobRequest, JobResponse,
}
use job_processing_workflow.Api.Routes.{
  Created, create_job, get_job, created, not_found, to_response,
}
use job_processing_workflow.Api.Routes.Memory.{create_job-get_job}
use job_processing_workflow.Api.Routes.Ownership.{get_job-returns_iff, MayRead, Readable}
use job_processing_workflow.Api.Requests.{
  Served, post_job, read_job, IsAllowed, post_job-IsAllowed, read_job-IsAllowed,
}

abbrev oidc : Oidc
oidc = record {
  oidc_issuer = "http://keycloak:8080/realms/jobs";
  oidc_audience = "job-api";
  oidc_algorithms = "RS256" ∷ [];
  clock_skew_leeway = pos 60;
}

abbrev settings : Settings
settings = record {
  scope_write = "jobs.write";
  scope_read = "jobs.read";
  scope_read_all = "jobs.read.all";
  groups_claim = "groups";
  user_claims = "email" ∷ [];
}

abbrev claims : Claims
claims = ("client_id", text "robot") ∷ ("scope", text "jobs.read jobs.write") ∷ []

abbrev key_one : Jwk String
key_one = record { key_id = some "one"; key = "secret" }

abbrev cold : JwksCache String
cold = record { ttl = 3600; keys = []; fetched_at = 0 }

cold-IsKeyed : IsKeyed {K = String} []
cold-IsKeyed kid k e = cc

abbrev issuer_answer : Fetch String
issuer_answer = some (key_one ∷ [], 5)

-- Each token names the key "one", and is signed by the key "secret".
abbrev jwt : Jwt String
jwt = record {
  unverified_kid = λ token. some (some "one");
  decode = λ options token key. if key == "secret" then some claims else none;
}

abbrev robot : Principal
robot = record {
  subject = "robot";
  principal_type = "service";
  client_id = some "robot";
  scopes = "jobs.read" ∷ "jobs.write" ∷ [];
  groups = [];
}

to_principal-is_service_example :
    (is_service (to_principal settings claims)
      ≡ (not (has_user_claim settings claims) && is_own_subject "robot" none))
    × ((to_principal settings claims).client_id ≡ some "robot")
    × ((to_principal settings claims).subject ≡ name_of "robot" none)
to_principal-is_service_example =
    to_principal-is_service settings claims "robot" none refl refl refl

first_key : (get_key 10 issuer_answer none (some "one") cold).1 ≡ returns key_one
unfolding get_key
first_key = refl

get_key-unauthorized_iff_example :
    ((get_key 10 issuer_answer issuer_answer (some "two") cold).1
      ≡ unauthorized "no matching signing key")
    ↔ ((has (some "two") cold && not (ltb 3600 10) ≡ false)
        × (lookup (some "two") (keys_from [] (key_one ∷ [])) ≡ none)
        × (lookup (some "two") (keys_from [] (key_one ∷ [])) ≡ none))
get_key-unauthorized_iff_example =
    get_key-unauthorized_iff 10 issuer_answer issuer_answer (some "two") cold (key_one ∷ [])
      (key_one ∷ []) 5 5 refl refl

logged_in :
    (get_principal jwt oidc settings 10 issuer_answer none (some "bearer abc") cold).1
    ≡ returns robot
unfolding get_principal verify get_key to_principal is_space
logged_in = refl

-- A newline at the end is accepted.
hello_newline : valid_type "hello\n" ≡ true
unfolding valid_type is_type_char
hello_newline = refl

valid_type_iff_example : (valid_type "hello\n" ≡ true) ↔ (
    (t : String) × IsJobType t
    × ((◌≡◌ {A = String} "hello\n" t) ⊎ (◌≡◌ {A = String} "hello\n" (String.◌++◌ t "\n"))))
valid_type_iff_example = valid_type_iff "hello\n"

abbrev hello : CreateJobRequest
hello = record { job_type = "hello"; payload = none }

abbrev store_after : InMemoryStore
store_after = (create_job in_memory 10 10 hello robot empty_store).0

first_job : (create_job in_memory 10 10 hello robot empty_store).1 ≡ returns (created 1)
unfolding create_job Memory.enqueue active
first_job = refl

abbrev shown_job : JobResponse
shown_job = to_response (new_job 1 "hello" (some []) (some (to_creator robot)) 10 10)

create_job-get_job_example : get_job in_memory 1 robot settings store_after ≡ returns shown_job
create_job-get_job_example =
    create_job-get_job 10 10 hello robot empty_store empty_store-IsValid settings 1 first_job

get_job-returns_iff_example :
    ((get_job in_memory 1 robot settings store_after ≡ returns shown_job)
      ↔ Readable in_memory 1 robot settings store_after shown_job)
    × ((get_job in_memory 1 robot settings store_after ≡ not_found 1)
        ↔ ¬ ((job : Job) × (Memory.get_job 1 store_after ≡ some job) × MayRead robot settings job))
get_job-returns_iff_example = get_job-returns_iff in_memory 1 robot settings store_after shown_job

abbrev posted : Served String InMemoryStore Created
posted =
    post_job jwt oidc settings in_memory 10 issuer_answer none (some "bearer abc") 10 10 hello cold
      empty_store

posted_one : posted.outcome ≡ returns (created 1)
unfolding post_job get_principal verify get_key to_principal is_space require_write create_job
    Memory.enqueue active
posted_one = refl

post_job-IsAllowed_example :
    (p : Principal) × IsAllowed jwt oidc settings in_memory 10 issuer_answer none
      (some "bearer abc")
      "jobs.write"
      p
post_job-IsAllowed_example =
    post_job-IsAllowed jwt oidc settings in_memory 10 issuer_answer none (some "bearer abc") cold
      empty_store cold-IsKeyed 10 10 hello (inr (created 1, posted_one))

read_one :
    (read_job jwt oidc settings in_memory 10 issuer_answer none
      (some "bearer abc")
      1
      cold
      store_after).1
    ≡ returns shown_job
unfolding read_job get_principal verify get_key to_principal is_space require_read get_job
    can_read_job_created_by create_job Memory.enqueue active Memory.get_job
read_one = refl

read_job-IsAllowed_example :
    (p : Principal) × (job : Job) × IsAllowed jwt oidc settings in_memory 10 issuer_answer none
      (some "bearer abc")
      "jobs.read"
      p
    × (Memory.get_job 1 store_after ≡ some job)
    × MayRead p settings job
read_job-IsAllowed_example =
    read_job-IsAllowed jwt oidc settings in_memory 10 issuer_answer none (some "bearer abc") cold
      store_after cold-IsKeyed 1 shown_job read_one
