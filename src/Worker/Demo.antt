-- ===== src/Worker/Demo.antt =====
-- worker/handlers/demo.py: the two handlers that the package registers, and what a worker with them
-- does.
use job_processing_workflow.Prelude.{
  ℕ, ◌≡◌, refl, Bool, some, String, true, false, [], Dict, lookup, text_key, nat_key, overlay,
  arith,
}
use Prim.Native.String
use mathlib.Core.Option.{get_or}
use job_processing_workflow.MemoryStore.{InMemoryStore, TypeConfig, is_claimable, get_job}
use job_processing_workflow.MemoryStore.AsStore.{in_memory}
use job_processing_workflow.Models.{Time, Job, build_envelope, Payload, Value, text}
use job_processing_workflow.Worker.{process, Handler, Lookup}
use job_processing_workflow.Worker.Memory.{process-get_job, result_outcome, result_status}
use job_processing_workflow.Worker.Registry.{register, get_handler}

-- A handler leaves its payload as it is, returns or raises, and writes some lines. `str` is the
-- function of this name on the values of a payload.
abbrev pub greeting : (str : Value → String) → Payload → String
greeting str payload =
    String.◌++◌ "[hello] hello, "
      (String.◌++◌ (str (get_or (lookup "name" payload) (text "world"))) "!\n")

unfoldable pub hello : Handler
hello payload = (payload, true)

unfoldable pub boom : Handler
boom payload = (payload, false)

-- What the import of the package leaves in the registry.
unfoldable pub registry : Dict String Handler
registry = (register "boom" boom (register "hello" hello []).0).0

abbrev pub demo_handlers : Lookup
demo_handlers job_type = get_handler job_type registry

-- The type whose handler returns, and the one whose handler raises.
abbrev pub demo_type : Bool → String
demo_type true = "hello"
demo_type false = "boom"

abbrev demo_handler : Bool → Handler
demo_handler true = hello
demo_handler false = boom

known : (returns : Bool) → demo_handlers (demo_type returns) ≡ some (demo_handler returns)
unfolding registry register get_handler
known true = refl
known false = refl

kept : (returns : Bool) (p : Payload) → demo_handler returns p ≡ (p, returns)
unfolding hello boom
kept true p = refl
kept false p = refl

-- A worker with the handlers of the package: a claimable job of the type "hello" whose type is
-- configured is completed, and one of the type "boom" is failed; either keeps its effective payload.
pub process-demo_type :
    (returns : Bool) (clock : ℕ → Time) (k : ℕ) (s : InMemoryStore) (job : Job) (cfg : TypeConfig)
    → lookup k s.jobs ≡ some job
    → is_claimable job.status ≡ true
    → lookup job.job_type s.type_config ≡ some cfg
    → job.job_type ≡ demo_type returns
    → let t = process in_memory clock demo_handlers (build_envelope k job.job_type) s in
      (t.1 ≡ result_outcome returns)
      × (get_job k t.0
          ≡ some (record job {
            status = result_status returns;
            payload = overlay cfg.payload job.input_payload;
            updated_at = clock 2;
          }))
process-demo_type returns clock k s job cfg found claimable set typed =
    let p = overlay cfg.payload job.input_payload in
    let there : demo_handlers job.job_type ≡ some (demo_handler returns) =
      rw typed (known returns) in
    let (outcome, stored) =
      process-get_job clock demo_handlers k s job cfg (demo_handler returns) found claimable set
        there in
    ground (arith, outcome, stored, kept returns p)
