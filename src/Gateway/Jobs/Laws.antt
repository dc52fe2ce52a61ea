-- ===== src/Gateway/Jobs/Laws.antt =====
-- A key names one job.
use mathlib.Core.Path.{subst}
use public_nest_server.Base.{
  none, some, [], String, Bool, true, false, text_eq, Result, ok, err, Action, ⊤, ◌≡◌, refl, sym,
  ap, ◌∙◌, arith, Bool-cases, inl, inr, eq_refl, eq_iff,
}
use public_nest_server.Gateway.Redis.{Redis, lookup, put, put_fields}
use public_nest_server.Gateway.Jobs.{
  AiJobType, rag_ask, job_key, idempotency_key, new_meta, some_fields, get_job, existing_job,
  unless_claimed, claim, store_job, create_unless, create_job, JobError, thrown, AskJob,
  AskJobRequested, job_answer, create_ask_job,
}

-- What a request is answered, after what its publication did.
abbrev pub IsAnswer : {E : Type 0} → String → Result E ⊤ → Result (JobError E) String → Type 0
IsAnswer job_id (ok t) answer = answer ≡ ok job_id
IsAnswer job_id (err e) answer = answer ≡ err (thrown e)

text_eq_sym : (a b : String) → text_eq a b ≡ false → text_eq b a ≡ false
text_eq_sym a b differ = elim (Bool-cases (text_eq b a)) [
  | inr other ↦ other
  | inl same ↦
      absurd
        (true_not_false (sym (eq_refl b) ∙ ap (λ x. text_eq x b) ((eq_iff b a).0 same) ∙ differ))
]
  where
    true_not_false : Path Bool true false → ⊥
    true_not_false h = ground arith

module _ (redis : Redis) where
  open redis use {State, get, hgetall, set, set_nx, hset}

  -- A key that is free, and an id that is not in use: a random one.
  abbrev pub IsFree : String → String → String → State → Type 0
  IsFree user_id key job_id s =
      (text_eq key "" ≡ false)
      × (text_eq job_id "" ≡ false)
      × (text_eq (idempotency_key user_id key) (job_key job_id) ≡ false)
      × (get (idempotency_key user_id key) s ≡ none)
      × (hgetall (idempotency_key user_id key) s ≡ [])
      × (hgetall (job_key job_id) s ≡ [])

  claim_free :
      (user_id key job_id : String) (s : State)
      → IsFree user_id key job_id s
      → claim redis (idempotency_key user_id key) job_id s
        ≡ (none, set (idempotency_key user_id key) job_id s)
  unfolding claim
  claim_free user_id key job_id s (keyed, named, apart, free, empty, fresh) =
      ap (unless_claimed redis (idempotency_key user_id key))
        (redis.set_nx_free (idempotency_key user_id key) job_id s free empty)

  claim_taken :
      (claim_key other_id job_id : String) (s : State)
      → get claim_key s ≡ some job_id
      → claim redis claim_key other_id s ≡ (existing_job redis (some job_id) s, s)
  unfolding claim
  claim_taken claim_key other_id job_id s taken =
      ap (unless_claimed redis claim_key) (redis.set_nx_taken claim_key other_id job_id s taken)
      ∙ ap (λ o. (existing_job redis o s, s)) taken

  -- What Redis has after a new job with a key.
  abbrev pub after_new : String → String → String → AiJobType → String → State → State
  after_new job_id created_at user_id type key s =
      hset (job_key job_id) (new_meta job_id created_at user_id type)
        (set (idempotency_key user_id key) job_id s)

  create_job_new :
      (job_id created_at user_id : String) (type : AiJobType) (key : String) (s : State)
      → IsFree user_id key job_id s
      → create_job redis job_id created_at user_id type key s ≡ (
        record { job = new_meta job_id created_at user_id type; is_new = true },
        after_new job_id created_at user_id type key s,
      )
  unfolding create_job store_job
  create_job_new job_id created_at user_id type key s free = rw (free.0) (
      ap (create_unless redis job_id (new_meta job_id created_at user_id type))
        (claim_free user_id key job_id s free))

  get_job_new :
      (job_id created_at user_id : String) (type : AiJobType) (key : String) (s : State)
      → IsFree user_id key job_id s
      → get_job redis job_id (after_new job_id created_at user_id type key s)
        ≡ some (new_meta job_id created_at user_id type)
  unfolding get_job put
  get_job_new job_id created_at user_id type key s (keyed, named, apart, free, empty, fresh) =
      let meta = new_meta job_id created_at user_id type in
      let k = idempotency_key user_id key in
      ap some_fields (
        redis.hgetall-hset (job_key job_id) meta (set k job_id s)
        ∙ ap (put_fields meta) (redis.hgetall-set (job_key job_id) k job_id s apart ∙ fresh))

  create_job_found :
      (job_id created_at user_id : String) (type : AiJobType) (key : String) (s : State)
      (other_id later : String) (other_type : AiJobType)
      → IsFree user_id key job_id s
      → create_job redis other_id later user_id other_type key
          (after_new job_id created_at user_id type key s)
        ≡ (
          record { job = new_meta job_id created_at user_id type; is_new = false },
          after_new job_id created_at user_id type key s,
        )
  unfolding create_job
  create_job_found job_id created_at user_id type key s other_id later other_type free =
      let (keyed, named, apart, unused, empty, fresh) = free in
      let meta = new_meta job_id created_at user_id type in
      let r = after_new job_id created_at user_id type key s in
      let k = idempotency_key user_id key in
      let taken : get k r ≡ some job_id =
        redis.get-hset k (job_key job_id) meta (set k job_id s)
          (text_eq_sym k (job_key job_id) apart)
        ∙ redis.get-set k job_id s in
      let there : existing_job redis (some job_id) r ≡ some meta =
        rw named (get_job_new job_id created_at user_id type key s free) in
      rw keyed (
        ap (create_unless redis other_id (new_meta other_id later user_id other_type))
          (claim_taken k other_id job_id r taken ∙ ap (λ o. (o, r)) there))

  -- Between the claim of a key and the storing of its job, a request of the same account with the
  -- same key finds a key without a job, and both make a new job.
  create_job_races :
      (job_id created_at user_id : String) (type : AiJobType) (key : String) (s : State)
      (other_id later : String) (other_type : AiJobType)
      → IsFree user_id key job_id s
      → (let (mine, claimed) = claim redis (idempotency_key user_id key) job_id s in
          let (theirs, after) = create_job redis other_id later user_id other_type key claimed in
          (mine ≡ none)
          × (theirs.is_new ≡ true)
          × ((store_job redis job_id (new_meta job_id created_at user_id type) after).0.is_new
              ≡ true))
  unfolding create_job store_job get_job
  create_job_races job_id created_at user_id type key s other_id later other_type free =
      let (keyed, named, apart, unused, empty, fresh) = free in
      let k = idempotency_key user_id key in
      let r = set k job_id s in
      let gone : existing_job redis (some job_id) r ≡ none =
        rw named (ap some_fields (redis.hgetall-set (job_key job_id) k job_id s apart ∙ fresh)) in
      let lost : claim redis k other_id r ≡ (none, r) =
        claim_taken k other_id job_id r (redis.get-set k job_id s) ∙ ap (λ o. (o, r)) gone in
      rw (claim_free user_id key job_id s free, keyed, lost) (refl, refl, refl)

module _ (redis : Redis) {E W D : Type 0} (publish : AskJobRequested D → Action E W ⊤) where
  open redis use {State}

  job_answer-IsAnswer :
      (job_id created_at uuid : String) (type : AiJobType) (p : Result E ⊤ × W) (s : State)
      → (let (answer, after) =
            job_answer redis publish (new_meta job_id created_at uuid type) p s in
          (after ≡ (s, p.1)) × IsAnswer job_id (p.0) answer)
  unfolding lookup
  job_answer-IsAnswer job_id created_at uuid type (ok t, w) s = (refl, refl)
  job_answer-IsAnswer job_id created_at uuid type (err e, w) s = (refl, refl)

  abbrev pub request_of : String → String → D → AskJobRequested D
  request_of job_id uuid body = record { job_id = job_id; user_id = uuid; body = body }

  create_ask_job_new :
      (job_id created_at uuid : String) (request : AskJob D) (s : State) (w : W)
      → IsFree redis uuid request.idempotency_key job_id s
      → create_ask_job redis publish job_id created_at uuid request (s, w)
        ≡ job_answer redis publish
            (new_meta job_id created_at uuid rag_ask)
            (publish (request_of job_id uuid request.body) w)
            (after_new redis job_id created_at uuid rag_ask request.idempotency_key s)
  unfolding create_ask_job
  create_ask_job_new job_id created_at uuid request s w free =
      rw (create_job_new redis job_id created_at uuid rag_ask request.idempotency_key s free) refl

  create_ask_job_found :
      (job_id created_at uuid : String) (request : AskJob D) (s : State) (other_id later : String)
      (again : D) (w : W)
      → IsFree redis uuid request.idempotency_key job_id s
      → (let after : State × W =
            (after_new redis job_id created_at uuid rag_ask request.idempotency_key s, w) in
          create_ask_job redis publish other_id later uuid (record request { body = again }) after
          ≡ (ok job_id, after))
  unfolding create_ask_job
  create_ask_job_found job_id created_at uuid request s other_id later again w free =
      rw
        (create_job_found redis job_id created_at uuid rag_ask request.idempotency_key s other_id
          later rag_ask free)
        refl

  -- A request with a free key is published once, as a job of the account that asks. Whether or not
  -- that throws, every later request of the account with this key is answered with the id of the
  -- job and published no more, so that a job whose publication threw is never worked on.
  pub create_ask_job_once :
      (job_id created_at uuid : String) (request : AskJob D) (s : State) (w : W)
      (other_id later : String) (again : D)
      → IsFree redis uuid request.idempotency_key job_id s
      → (let call = publish (request_of job_id uuid request.body) w in
          let (answer, after) =
            create_ask_job redis publish job_id created_at uuid request (s, w) in
          IsAnswer job_id (call.0) answer
          × (after.1 ≡ call.1)
          × (create_ask_job redis publish other_id later uuid
                (record request { body = again })
                after
              ≡ (ok job_id, after)))
  create_ask_job_once job_id created_at uuid request s w other_id later again free =
      let call = publish (request_of job_id uuid request.body) w in
      let r = after_new redis job_id created_at uuid rag_ask request.idempotency_key s in
      let ends = job_answer-IsAnswer job_id created_at uuid rag_ask call r in
      let first = create_ask_job_new job_id created_at uuid request s w free in
      let state : (create_ask_job redis publish job_id created_at uuid request (s, w)).1
          ≡ (r, call.1) =
        ap (λ p. p.1) first ∙ ends.0 in
      (
        subst (λ p. IsAnswer job_id (call.0) (p.0)) (sym first) (ends.1),
        ap (λ t. t.1) state,
        subst
            (λ t.
              create_ask_job redis publish other_id later uuid (record request { body = again }) t
              ≡ (ok job_id, t))
            (sym state)
            (create_ask_job_found job_id created_at uuid request s other_id later again (call.1)
              free),
      )
