-- ===== src/Lib.antt =====
-- The job orchestrator: an outbox-based queue. A producer enqueues a job (handler/service.py),
-- which stores the job and an outbox row; the dispatcher (dispatcher/service.py) publishes
-- unpublished rows to Kafka and marks the jobs dispatched; a worker (worker/service.py) receives
-- an envelope, claims the job by compare-and-set, resolves its payload, runs the handler of its
-- type and records the result; the reaper (reaper/service.py) queues again, or fails, what has
-- been running for too long. They meet only in the store (common/store.py) and in the messages.
--
-- Where each part is:
-- - Prelude: names of the libraries passed on, tests, lists, Python dictionaries as association
--   lists in insertion order, str() of a number.
-- - Models: common/models.py. A status is a data type in place of the string constants. A time
--   is a number of microseconds; a timeout is one too, so negative timeouts are left out.
-- - Store: the protocol Store of common/store.py, a record of operations on a state, and the
--   laws by which the worker is proved.
-- - MemoryStore: class InMemoryStore of common/store.py, method by method and field by field:
--   _jobs is jobs, _outbox is outbox, _published is published, _type_config is type_config, and
--   the two counters are next_job and next_outbox. Each method that reads utcnow takes the
--   reading. Under it: Invariant (well-formedness and that each method keeps it), Dedup
--   (enqueue), Unpublished (fetch_unpublished), Steps (any interleaving of calls), Attempts and
--   Claims (how often a job is given back and handed out), Lifecycle (statuses), AsStore (the
--   protocol).
-- - Postgres: class PostgresStore of common/db.py, on the tables of migrations/, which list
--   their rows as they were inserted; the order in which find_stuck, which has no ORDER BY, goes
--   through them is an argument. JSONB columns are a parameter: the form in which a column holds
--   a payload, and the merge of two. A method is one transaction, and now() its time; a declined
--   enqueue uses up an id. Under it: View (how tables represent an in-memory store), Rows,
--   Guards, Writes, Payloads, Inserts, Reads (method by method), Normal (what the tables keep of
--   a store: payloads in the form of a column, and a creator without fields where there is
--   none), Calls, Refinement, Runs (any number of calls), AsStore (the protocol, on tables with
--   their primary keys).
-- - Messaging: common/messaging.py, the protocols of producer and consumer, and
--   InMemoryProducer. A call of publish answers whether it returned, so that a producer that
--   raises can be given. Kafka: the two wrappers of confluent_kafka, which is a parameter. Json:
--   the text that json.dumps gives an envelope, and json.loads on objects whose values are
--   natural numbers and texts; what it makes of other texts is a parameter. Under it:
--   Characters, Writing and Reading; and Texts, Numbers and Envelopes, about the two together.
-- - Handler, Dispatcher, Worker, Reaper: the service.py of each component, generic in the store;
--   Memory, and Stats and Order of Reaper, are about the in-memory store. Each call of the store
--   has its own reading of a clock, a function from the number of the call to a time. A handler
--   is a function from the payload to the payload as it leaves it and whether it returns;
--   InMemoryStore hands out the stored dictionary itself, so what the handler leaves is written
--   back (write_payload). A handler that ends the process is not a run of this function, but the
--   calls made until then are covered by MemoryStore.Steps.
-- - Dispatcher.Loop, Worker.Loop, Reaper.Loop, Handler.Cli: the __main__.py of each component,
--   with what they share in Service. A loop runs over the list of what happens until
--   KeyboardInterrupt comes, with what other components do to the store in between; the loop of
--   the worker goes from one point at which it can be interrupted to the next (before poll,
--   process, commit and the line of output), and an exception may come out of the call that it
--   is in. Worker.Loop.Accounts says which messages are delivered, committed and reported at
--   each point. The reading of the settings and the opening of the store come before, and are
--   Config and Postgres.Connect.
-- - Config: common/config.py, over a dictionary of variables. int is modelled for digits of
--   ASCII; floats, and the function float, are parameters. Migrate: common/migrate.py.
--   Worker.Demo: worker/handlers/demo.py.
-- - Api: handlerAPI. errors.py is in Api itself; Keys and Auth are auth.py and deps.py, with the
--   library jwt as a parameter that is given the options of jwt.decode, the clock and the
--   answers of the issuer as arguments, and get_key as one step, since it holds its lock;
--   Principal is principal.py and _to_principal, on claims whose values are told apart as far as
--   this code does; Schemas is schemas.py; Routes is routes.py for any store, with Memory and
--   Ownership about it; Requests is a request through its dependencies. What FastAPI does before
--   a route (the parsing of the body and of the path) is not modelled.
--   Middleware is middleware.py and RateLimit ratelimit.py, with the hash and the limiter as
--   parameters; Config is config.py, Discovery is build_verifier of auth.py, App is app.py: what
--   its lifespan creates and closes, and the stack of its middleware; and Server is __main__.py.
-- - ApiV2: handlerAPIv2, where it differs from handlerAPI: principals, errors and routes over a
--   store that may raise, Breaker for circuit_breaker.py with the breaker of pybreaker as a
--   parameter, by its call and what is documented of it, Versions against handlerAPI; Config,
--   Auth (auth.py and deps.py), Discovery (build_verifier), Requests, App (app.py) and Server
--   (__main__.py). Its JwksCache, schemas and middleware are those of handlerAPI, line by line,
--   and Schemas and Middleware say so.
-- - Worker.Registry: worker/registry.py.
-- - Journey: a request through handlerAPI, dispatcher and worker; and in Loops the loop of the
--   dispatcher, and then the loop of the worker, over one store, and in System all components,
--   in any order of what they do.
-- - Tests: small runs, and the theorems at concrete inputs.
--
-- Loops are over lists, or over a count of rounds (Postgres.Connect), and need no fuel but
-- decimal, whose fuel exceeds the number of digits, and the scanner of Messaging.Json.Reading,
-- whose fuel is the number of characters of the whole text.
--
-- Not modelled: what FastAPI, Starlette, pydantic and uvicorn do, and the handler of cross-
-- origin requests, since these are libraries; standard output of the worker's handlers and the
-- times of sleep; json.loads, which is a parameter in Handler.Cli, and in Messaging for texts
-- other than objects of natural numbers and texts; exceptions of the database in the loops,
-- which a store of the protocol does not raise, but that of the worker, where an exception may
-- leave process; payloads and texts that the database does not take, such as those with the
-- character U+0000. An envelope on the topic is one that build_envelope made.
pub mod Prelude
pub mod Models
pub mod Store
pub mod MemoryStore
pub mod Postgres
pub mod Messaging
pub mod Api
pub mod ApiV2
pub mod Journey
pub mod Handler
pub mod Dispatcher
pub mod Worker
pub mod Reaper
pub mod Service
pub mod Config
pub mod Migrate
mod Tests
