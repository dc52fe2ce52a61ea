-- ===== src/Payment/Cache.antt =====
-- What the idempotency store takes from Redis: string keys with values, `GET`, `SETEX` and
-- `SET … EX … NX`, each of which may fail. Redis is a parameter; the laws are those of keys that do
-- not expire meanwhile.
use public_nest_server.Base.{
  ℕ, ◌≡◌, Option, some, String, Bool, not, ◌&&◌, is_some, text_eq, if◌then◌else◌, Result, ok,
  Action, ⊤,
}
use public_nest_server.Payment.Model.{PaymentError}

pub record Redis (Value : Type 0) : Type 1 where
  pub Store : Type 0
  -- what is stored under a key
  pub content : String → Store → Option Value
  pub get : String → Store → Result PaymentError (Option Value)
  pub setex : String → ℕ → Value → Action PaymentError Store ⊤
  -- whether the reply is OK
  pub set_nx : String → Value → ℕ → Action PaymentError Store Bool
  pub get-ok : (k : String) (r : Option Value) (s : Store) → get k s ≡ ok r → r ≡ content k s
  pub setex-ok :
      (k j : String) (ttl : ℕ) (v : Value) (u : ⊤) (s : Store)
      → (setex k ttl v s).0 ≡ ok u
      → content j (setex k ttl v s).1 ≡ (if text_eq k j then some v else content j s)
  pub set_nx-ok :
      (k j : String) (v : Value) (ttl : ℕ) (reply : Bool) (s : Store)
      → (set_nx k v ttl s).0 ≡ ok reply
      → (reply ≡ not (is_some (content k s)))
        × (content j (set_nx k v ttl s).1 ≡ (if reply && text_eq k j then some v else content j s))
