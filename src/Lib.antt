-- ===== src/Lib.antt =====
-- flash_connector: a gateway that runs LLM requests of tenants as jobs, against several providers.
--
-- A client submits a job with a virtual key (PublicApi, behind the RateLimit); the row of the job
-- (Jobs) waits in the queue until the Worker runs it, or belongs to a batch that a provider runs
-- (Batches), polled until it ends. Finished jobs are saved for training (Training), and requests go out
-- with the keys (Secrets) of the tenants' connections (Providers). Endpoint parameters, variables
-- and blocked phrases are Studio's, and
-- the tree of tenants, with the query parameters that a job inherits, is Tenants'.
--
-- The files, and the code that they model:
--   Prelude, Prelude/*: Booleans, lists, texts, dictionaries and results; Json: the JSON values.
--   Tenants: api/app/services/tenants.py. `lineage_from` is the loop of `tenant_lineage`, on the rounds
--     that `max_depth` leaves; `collect` is the loop of `list_accessible_tenants`, on fuel.
--   Jobs: api/app/services/jobs.py, the row `Job` of api/app/models/entities.py, `JobCreateRequest`.
--   Batches: the state of a session and the shared helpers of api/app/services/provider_batches.py;
--     Batches/Submit and Batches/Poll are its two tasks, Batches/Request the preparation of a
--     request, Batches/Output the handling of an output file,
--     Batches/Cancel the creation and cancellation of a run.
--   RateLimit: api/app/services/rate_limit.py.
--   Studio, Studio/Prompts: api/app/services/prompt_studio.py.
--   Worker, Worker/Routes: `process_job` of api/app/tasks.py; Worker/Candidates: its candidate routes.
--   PublicApi, PublicApi/Responses, PublicApi/BatchRequests: the requests on jobs and on batches of
--     api/app/routers/public.py, with the scopes of api/app/services/api_keys.py.
--   Training, Training/Redact, Training/Query: api/app/services/training.py; Training/Examples has
--     its few-shot examples, and
--     Training/Saving the request `save_job_training` of api/app/routers/public.py.
--   Providers: the lookups of api/app/services/providers.py, where `climb` is the loop up the tenant
--     tree; Providers/Names, Providers/Changes and Providers/Connections: the writing and the
--     deletion of
--     a connection; Providers/PlatformKeys and Providers/Credentials: the key that a request goes
--     out with.
--   Pricing: api/app/services/pricing.py.
--   Versions: api/app/services/versioning.py. Portal: api/app/services/portal.py.
--   Secrets: api/app/services/tenant_secrets.py, over the files by their names.
--   Sdk, Sdk/Errors: the requests of sdk/client.py and the errors of sdk/errors.py; Sdk/Requests
--     has the calls, and
--     Sdk/Waiting the loops that wait. Sdk/Delivery joins the client to `PublicApi.submit_job`.
-- The other files below these hold proofs, named for what they prove, and tests.
--
-- State. `Batches.Session` has the stored rows and the session's own objects, since the sessions of
-- api/app/core/db.py do not flush before a query: counts are of the stored rows. `Worker.Others` is
-- what other sessions write to a job while it runs, and `PublicApi.Site.meanwhile` what they insert
-- between the lookup of a key and the insert. An exception is an `err`, or a text beside the state that
-- it leaves.
--
-- Bounds and fuel. Jobs of a run are listed up to 5000 (`list_limit`), as in the code. `collect` takes
-- one unit of fuel for each entry of the queue; a row is queued once for its collected parent, so the
-- number of rows and one more are enough. The loop that waits for a job ends by the clock: the fuel
-- that
-- is enough is the number of sleeps that cover the time limit, and one more. The search for a free name
-- of a connection takes one round more than there are connections. Times are whole seconds, and
-- floats are bit patterns that are
-- compared but not computed with.
--
-- Parameters: the provider's answers, the sums of prices, the parameters that a model takes, the
-- token advisor, the substitution in a template, the JSON
-- reader and printer, the cipher of the secrets, the regular expressions of the redaction, Python's
-- `int`
-- and the letter case beyond ASCII. Not modelled: the web and admin pages, the provider registry
-- and its
-- clients, sign-on, settings and migrations, which are mostly input and output.
pub mod Prelude
pub mod Json
pub mod Tenants
pub mod Jobs
pub mod Batches
pub mod RateLimit
pub mod Studio
pub mod Worker
pub mod PublicApi
pub mod Sdk
pub mod Secrets
pub mod Versions
pub mod Portal
pub mod Pricing
pub mod Providers
pub mod Training
