-- ===== src/Gateway/Jobs.antt =====
-- JobStoreService (apps/gateway/src/ai/job/job-store.service.ts) and JobController (job.controller.ts).
-- The random id and the time of a new job are arguments.
pub mod Laws
pub mod Cancelling
use Prim.Native.String
use public_nest_server.Base.{
  Option, none, some, or_else, List, [], ◌∷◌, String, Bool, true, false, not, text_eq, ◌||◌,
  if◌then◌else◌, Result, ok, err, Action, pure, throw, ⊤, ◌>>=◌, ◌>>◌,
}
use public_nest_server.Gateway.Redis.{Redis, Hash, lookup}

pub data AiJobType : Type 0 where
  rag_ask : AiJobType
  knowledge_ingest : AiJobType

abbrev pub type_text : AiJobType → String
type_text rag_ask = "rag.ask"
type_text knowledge_ingest = "knowledge.ingest"

abbrev pub job_key : String → String
job_key job_id = String.◌++◌ "job:" job_id

abbrev pub cancel_key : String → String
cancel_key job_id = String.◌++◌ "job:" (String.◌++◌ job_id ":cancelled")

abbrev pub idempotency_key : String → String → String
idempotency_key user_id key = String.◌++◌ "job:idem:" (String.◌++◌ user_id (String.◌++◌ ":" key))

-- the fields of a new job
abbrev pub new_meta : String → String → String → AiJobType → Hash
new_meta job_id created_at user_id type =
    ("jobId", job_id)
    ∷ ("userId", user_id)
    ∷ ("type", type_text type)
    ∷ ("status", "queued")
    ∷ ("createdAt", created_at)
    ∷ []

-- nothing for a hash without fields
abbrev pub some_fields : Hash → Option Hash
some_fields [] = none
some_fields (f ∷ fields) = some (f ∷ fields)

pub record AiJobCreationResult : Type 0 where
  pub job : Hash
  pub is_new : Bool

module _ (redis : Redis) where
  open redis use {State, get, hgetall, set, set_nx, hset}

  -- `getJob`: the fields as Redis has them
  unfoldable pub get_job : String → State → Option Hash
  get_job job_id s = some_fields (hgetall (job_key job_id) s)

  -- the job that an idempotency key names, if it is still there
  abbrev pub existing_job : Option String → State → Option Hash
  existing_job none s = none
  existing_job (some job_id) s = if text_eq job_id "" then none else get_job job_id s

  abbrev pub unless_claimed : String → Bool × State → Option Hash × State
  unless_claimed claim_key (true, s) = (none, s)
  unless_claimed claim_key (false, s) = (existing_job (get claim_key s) s, s)

  -- the claim of an idempotency key: the job that has it already, or none
  unfoldable pub claim : String → String → State → Option Hash × State
  unfolding get_job
  claim claim_key job_id s = unless_claimed claim_key (set_nx claim_key job_id s)

  unfoldable pub store_job : String → Hash → State → AiJobCreationResult × State
  store_job job_id meta s = (record { job = meta; is_new = true }, hset (job_key job_id) meta s)

  abbrev pub create_unless : String → Hash → Option Hash × State → AiJobCreationResult × State
  create_unless job_id meta (some existing, s) = (record { job = existing; is_new = false }, s)
  create_unless job_id meta (none, s) = store_job job_id meta s

  unfoldable pub create_job :
      String → String → String → AiJobType → String → State → AiJobCreationResult × State
  unfolding claim store_job
  create_job job_id created_at user_id type key s =
      let meta = new_meta job_id created_at user_id type in
      if text_eq key ""
      then store_job job_id meta s
      else create_unless job_id meta (claim (idempotency_key user_id key) job_id s)

  -- `updateProgress`, of the progress as a text
  unfoldable pub update_progress : String → String → String → State → State
  update_progress job_id step progress s =
      hset (job_key job_id)
        (("status", "processing") ∷ ("step", step) ∷ ("progress", progress) ∷ []) s

  unfoldable pub cancel_job : String → State → State
  cancel_job job_id s = set (cancel_key job_id) "1" (
      hset (job_key job_id) (("cancelled", "true") ∷ [])
        (hset (job_key job_id) (("status", "cancelled") ∷ []) s))

-- JobController

pub data JobError (E : Type 0) : Type 0 where
  forbidden : JobError E
  thrown : E → JobError E

abbrev pub is_value : String → Option String → Bool
is_value value none = false
is_value value (some v) = text_eq v value

abbrev pub has_field : String → String → Hash → Bool
has_field field value job = is_value value (lookup field job)

-- the statuses that end a job
unfoldable pub is_over : Hash → Bool
unfolding lookup
is_over job =
    has_field "status" "done" job
    || (has_field "status" "error" job || has_field "status" "cancelled" job)

module _ (redis : Redis) where
  open redis use {State}

  abbrev pub cancel_found :
      {E : Type 0} → String → String → Option Hash → State → Result (JobError E) ⊤ × State
  cancel_found uuid job_id none s = (ok tt, s)
  cancel_found uuid job_id (some job) s =
      if not (has_field "userId" uuid job)
      then (err forbidden, s)
      else (if is_over job then (ok tt, s) else (ok tt, cancel_job redis job_id s))

  -- `DELETE ai/jobs/:jobId`
  unfoldable pub cancel_owned : {E : Type 0} → String → String → Action (JobError E) State ⊤
  unfolding get_job is_over cancel_job lookup
  cancel_owned uuid job_id s = cancel_found uuid job_id (get_job redis job_id s) s

-- A request to ask: the idempotency key, and the rest of the body.
pub record AskJob (D : Type 0) : Type 0 where
  pub idempotency_key : String
  pub body : D

pub record AskJobRequested (D : Type 0) : Type 0 where
  pub job_id : String
  pub user_id : String
  pub body : D

-- `job.jobId`
abbrev pub job_id_of : Hash → String
job_id_of job = or_else (lookup "jobId" job) "undefined"

module _ (redis : Redis) {E W D : Type 0} (publish : AskJobRequested D → Action E W ⊤) where
  open redis use {State}

  -- Redis, and the broker
  abbrev pub job_answer : Hash → Result E ⊤ × W → State → Result (JobError E) String × (State × W)
  job_answer job (ok t, w) s = (ok (job_id_of job), (s, w))
  job_answer job (err e, w) s = (err (thrown e), (s, w))

  -- `POST ai/rag/jobs`
  unfoldable pub create_ask_job :
      String → String → String → AskJob D → Action (JobError E) (State × W) String
  unfolding create_job lookup
  create_ask_job job_id created_at uuid request (s, w) =
      let (created, after) =
        create_job redis job_id created_at uuid rag_ask request.idempotency_key s in
      if not created.is_new
      then (ok (job_id_of created.job), (after, w))
      else job_answer created.job
          (publish (record { job_id = job_id_of created.job; user_id = uuid; body = request.body })
            w)
          after
