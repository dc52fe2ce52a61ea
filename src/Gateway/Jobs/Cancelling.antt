-- ===== src/Gateway/Jobs/Cancelling.antt =====
-- Who may cancel which job.
use Prim.Native.String
use public_nest_server.Base.{
  length-codes, length, codes, eq_iff, Option, none, some, [], ◌∷◌, String, true, false, text_eq,
  Result, ok, err, ⊤, ◌≡◌, refl, sym, ap, ◌∙◌, arith, Bool-cases, inl, inr,
}
use public_nest_server.Gateway.Redis.{Redis, Hash, put, lookup-put, lookup-put_other}
use public_nest_server.Gateway.Jobs.{
  job_key, cancel_key, some_fields, get_job, cancel_job, JobError, forbidden, is_value, has_field,
  is_over, cancel_found, cancel_owned,
}

some_fields-put :
    (field value : String) (h : Hash) → some_fields (put field value h) ≡ some (put field value h)
unfolding put
some_fields-put field value [] = refl
some_fields-put field value ((k, v) ∷ h) = ground arith

-- The fields of a job that was cancelled.
abbrev marked : Hash → Hash
marked h = put "cancelled" "true" (put "status" "cancelled" h)

cancel_key_apart : (job_id : String) → text_eq (cancel_key job_id) (job_key job_id) ≡ false
cancel_key_apart job_id = elim (Bool-cases (text_eq (cancel_key job_id) (job_key job_id))) [
  | inr differ ↦ differ
  | inl same ↦
      let equal =
        ap (λ s. length (codes s)) ((eq_iff (cancel_key job_id) (job_key job_id)).0 same) in
      let long = length-codes "job:" (String.◌++◌ job_id ":cancelled") in
      let middle = length-codes job_id ":cancelled" in
      let short = length-codes "job:" job_id in absurd (omega arith)
]

marked_owner :
    (uuid : String) (h : Hash) → has_field "userId" uuid (marked h) ≡ has_field "userId" uuid h
marked_owner uuid h = ap (is_value uuid) (
    lookup-put_other "userId" "cancelled" "true" (put "status" "cancelled" h) refl
    ∙ lookup-put_other "userId" "status" "cancelled" h refl)

marked_cancelled : (h : Hash) → has_field "status" "cancelled" (marked h) ≡ true
marked_cancelled h =
    let status =
      lookup-put_other "status" "cancelled" "true" (put "status" "cancelled" h) refl
      ∙ lookup-put "status" "cancelled" h in
    ap (is_value "cancelled") status

fields_of : (h job : Hash) → some_fields h ≡ some job → h ≡ job
fields_of [] job e = absurd (ground arith)
fields_of (f ∷ h) job e = ground arith

module _ (redis : Redis) where
  open redis use {State, get, hgetall, set, hset}

  get_job_fields :
      (job_id : String) (s : State)
      → get_job redis job_id s ≡ some_fields (hgetall (job_key job_id) s)
  unfolding get_job
  get_job_fields job_id s = refl

  get_job_cancelled :
      (job_id : String) (s : State)
      → get_job redis job_id (cancel_job redis job_id s)
        ≡ some (marked (hgetall (job_key job_id) s))
  unfolding get_job cancel_job
  get_job_cancelled job_id s =
      let key = job_key job_id in
      let s₁ = hset key (("status", "cancelled") ∷ []) s in
      let s₂ = hset key (("cancelled", "true") ∷ []) s₁ in
      ap some_fields (
        redis.hgetall-set key (cancel_key job_id) "1" s₂ (cancel_key_apart job_id)
        ∙ redis.hgetall-hset key (("cancelled", "true") ∷ []) s₁
        ∙ ap (put "cancelled" "true") (redis.hgetall-hset key (("status", "cancelled") ∷ []) s))
      ∙ some_fields-put "cancelled" "true" (put "status" "cancelled" (hgetall key s))

  get_job_other :
      (job_id other : String) (s : State)
      → text_eq (job_key job_id) (job_key other) ≡ false
      → text_eq (cancel_key job_id) (job_key other) ≡ false
      → get_job redis other (cancel_job redis job_id s) ≡ get_job redis other s
  unfolding get_job cancel_job
  get_job_other job_id other s differ apart =
      let key = job_key job_id in
      let s₁ = hset key (("status", "cancelled") ∷ []) s in
      let s₂ = hset key (("cancelled", "true") ∷ []) s₁ in
      ap some_fields (
        redis.hgetall-set (job_key other) (cancel_key job_id) "1" s₂ apart
        ∙ redis.hgetall-hset_other (job_key other) key (("cancelled", "true") ∷ []) s₁ differ
        ∙ redis.hgetall-hset_other (job_key other) key (("status", "cancelled") ∷ []) s differ)

  -- The job that a store has under an id after it was cancelled, with the sign for its worker.
  abbrev pub IsStopped : String → String → State → Type 0
  IsStopped uuid job_id s =
      (get (cancel_key job_id) s ≡ some "1")
      × ((job : Hash) × (get_job redis job_id s ≡ some job)
          × (has_field "userId" uuid job ≡ true)
          × (has_field "status" "cancelled" job ≡ true))

  -- What a request to cancel answers and leaves, by the job that there is.
  abbrev pub IsCancelled :
      {E : Type 0} → String → String → State → Option Hash → Result (JobError E) ⊤ × State → Type 0
  IsCancelled uuid job_id s none p = p ≡ (ok tt, s)
  IsCancelled uuid job_id s (some job) p =
      (has_field "userId" uuid job ≡ false → p ≡ (err forbidden, s))
      × (has_field "userId" uuid job ≡ true → is_over job ≡ true → p ≡ (ok tt, s))
      × (has_field "userId" uuid job ≡ true
          → is_over job ≡ false
          → (p.0 ≡ ok tt) × IsStopped uuid job_id p.1)

  cancel_job-IsStopped :
      (uuid job_id : String) (s : State) (job : Hash)
      → get_job redis job_id s ≡ some job
      → has_field "userId" uuid job ≡ true
      → IsStopped uuid job_id (cancel_job redis job_id s)
  unfolding cancel_job
  cancel_job-IsStopped uuid job_id s job here own =
      let old = hgetall (job_key job_id) s in
      let same : old ≡ job = fields_of old job (sym (get_job_fields job_id s) ∙ here) in
      (
        redis.get-set (cancel_key job_id) "1" _,
        (
          marked old,
          get_job_cancelled job_id s,
          marked_owner uuid old ∙ ap (has_field "userId" uuid) same ∙ own,
          marked_cancelled old,
        ),
      )

  cancel_found-IsCancelled :
      (E : Type 0) (uuid job_id : String) (s : State) (o : Option Hash)
      → get_job redis job_id s ≡ o
      → IsCancelled {E = E} uuid job_id s o (cancel_found redis {E = E} uuid job_id o s)
  cancel_found-IsCancelled E uuid job_id s none here = refl
  cancel_found-IsCancelled E uuid job_id s (some job) here = (
    λ other. rw other refl,
    λ own over. rw (own, over) refl,
    λ own going. rw (own, going) (refl, cancel_job-IsStopped uuid job_id s job here own),
  )

  cancel_found_others :
      (E : Type 0) (uuid job_id other : String) (s : State) (o : Option Hash)
      → text_eq (job_key job_id) (job_key other) ≡ false
      → text_eq (cancel_key job_id) (job_key other) ≡ false
      → get_job redis other (cancel_found redis {E = E} uuid job_id o s).1 ≡ get_job redis other s
  cancel_found_others E uuid job_id other s none differ apart = refl
  cancel_found_others E uuid job_id other s (some job) differ apart =
      elim (Bool-cases (has_field "userId" uuid job)) [
        | inr other_owner ↦ rw other_owner refl
        | inl own ↦ elim (Bool-cases (is_over job)) [
          | inl over ↦ rw (own, over) refl
          | inr going ↦ rw (own, going) (get_job_other job_id other s differ apart)
        ]
      ]

  -- A request to cancel a job that is not there changes nothing and is answered; one for a job of
  -- another account is refused and changes nothing; one for a job of the account that is over changes
  -- nothing and is answered; and one for a job of the account that is not over leaves it cancelled,
  -- still the account's own, with the sign for its worker. No other job is changed.
  pub cancel_owned-IsCancelled :
      (E : Type 0) (uuid job_id : String) (s : State)
      → IsCancelled {E = E} uuid job_id s
          (get_job redis job_id s)
          (cancel_owned redis {E = E} uuid job_id s)
        × ((other : String)
            → text_eq (job_key job_id) (job_key other) ≡ false
            → text_eq (cancel_key job_id) (job_key other) ≡ false
            → get_job redis other (cancel_owned redis {E = E} uuid job_id s).1
              ≡ get_job redis other s)
  unfolding cancel_owned
  cancel_owned-IsCancelled E uuid job_id s = (
    cancel_found-IsCancelled E uuid job_id s (get_job redis job_id s) refl,
    λ other differ apart.
        cancel_found_others E uuid job_id other s (get_job redis job_id s) differ apart,
  )
