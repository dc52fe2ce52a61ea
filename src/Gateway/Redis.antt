-- ===== src/Gateway/Redis.antt =====
-- What JobStoreService (apps/gateway/src/ai/job/job-store.service.ts) calls of Redis, as a parameter:
-- texts and hashes under keys, with the laws of the commands. A hash is the list of its fields with
-- their values, and a missing one has none. A call answers, and no key expires meanwhile.
use public_nest_server.Base.{
  Option, none, some, List, [], ◌∷◌, String, Bool, true, false, text_eq, if◌then◌else◌, ◌≡◌, refl,
  ap, arith, eq_refl, eq_iff, Bool-cases, inl, inr, ◌∙◌,
}

module _ {A : Type 0} where
  unfoldable pub lookup : String → List (String × A) → Option A
  lookup key [] = none
  lookup key ((k, a) ∷ entries) = if text_eq k key then some a else lookup key entries

  unfoldable pub put : String → A → List (String × A) → List (String × A)
  put key a [] = (key, a) ∷ []
  put key a ((k, b) ∷ entries) =
      let rest = put key a entries in if text_eq k key then (k, a) ∷ entries else (k, b) ∷ rest

  pub lookup-put :
      (key : String) (a : A) (entries : List (String × A)) → lookup key (put key a entries) ≡ some a
  unfolding lookup put
  lookup-put key a [] = rw (eq_refl key) refl
  lookup-put key a ((k, b) ∷ entries) = let rest = lookup-put key a entries in ground arith

  pub lookup-put_other :
      (key other : String) (a : A) (entries : List (String × A))
      → text_eq other key ≡ false
      → lookup key (put other a entries) ≡ lookup key entries
  unfolding lookup put
  lookup-put_other key other a [] differ = rw differ refl
  lookup-put_other key other a ((k, b) ∷ entries) differ =
      let rest = lookup-put_other key other a entries differ in
      elim (Bool-cases (text_eq k other)) [
        | inl here ↦
            let same : k ≡ other = (eq_iff k other).0 here in
            let apart : text_eq k key ≡ false = ap (λ x. text_eq x key) same ∙ differ in
            rw (here, apart) refl
        | inr there ↦ rw there (ground arith)
      ]

abbrev pub Hash : Type 0
Hash = List (String × String)

abbrev pub put_fields : Hash → Hash → Hash
put_fields [] hash = hash
put_fields ((field, value) ∷ fields) hash = put_fields fields (put field value hash)

pub record Redis : Type 1 where
  pub State : Type 0
  pub get : String → State → Option String
  pub hgetall : String → State → Hash
  pub set : String → String → State → State
  -- `SET … NX`: whether the key was set
  pub set_nx : String → String → State → Bool × State
  pub hset : String → Hash → State → State
  pub get-set : (key value : String) (s : State) → get key (set key value s) ≡ some value
  pub hgetall-set :
      (key other value : String) (s : State)
      → text_eq other key ≡ false
      → hgetall key (set other value s) ≡ hgetall key s
  pub set_nx_taken :
      (key value old : String) (s : State) → get key s ≡ some old → set_nx key value s ≡ (false, s)
  pub set_nx_free :
      (key value : String) (s : State)
      → get key s ≡ none
      → hgetall key s ≡ []
      → set_nx key value s ≡ (true, set key value s)
  pub get-hset :
      (key other : String) (fields : Hash) (s : State)
      → text_eq other key ≡ false
      → get key (hset other fields s) ≡ get key s
  pub hgetall-hset :
      (key : String) (fields : Hash) (s : State)
      → hgetall key (hset key fields s) ≡ put_fields fields (hgetall key s)
  pub hgetall-hset_other :
      (key other : String) (fields : Hash) (s : State)
      → text_eq other key ≡ false
      → hgetall key (hset other fields s) ≡ hgetall key s
