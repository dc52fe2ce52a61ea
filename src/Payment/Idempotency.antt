-- ===== src/Payment/Idempotency.antt =====
-- PaymentIdempotencyRepositoryImpl
-- (infrastructure/idempotency/payment-idempotency.repository-impl.ts). A value is a text: the
-- processing marker, or the JSON of a stored payment, which `JSON.parse` reads back.
pub mod Laws
use Prim.Native.String
use public_nest_server.Base.{
  ℕ, Option, none, some, String, Bool, ◌||◌, Result, ok, err, Action, result_map, result_bind,
  text_eq, ⊤, if◌then◌else◌,
}
use public_nest_server.Payment.Model.{Payment, PaymentError, StoredPayment, invalid_json, restore}
use public_nest_server.Payment.Cache.{Redis}

pub data CachedText : Type 0 where
  text : String → CachedText
  -- `JSON.stringify(stored)`
  json : StoredPayment → CachedText

abbrev pub key_prefix : String
key_prefix = "payment:idempotency:"

abbrev pub processing_marker : String
processing_marker = "__PROCESSING__"

-- `buildKey`
unfoldable pub build_key : String → String
build_key idempotency_key = String.◌++◌ key_prefix idempotency_key

-- Any text but the marker and a stored payment is no JSON that the service wrote.
unfoldable pub read_cached : Option CachedText → Result PaymentError (Option Payment)
read_cached none = ok none
read_cached (some (text raw)) =
    if text_eq raw "" || text_eq raw processing_marker then ok none else err invalid_json
read_cached (some (json stored)) = result_map some (restore stored)

-- the object that `save` writes: it has no `createdAt`
unfoldable pub stored_payment : Payment → StoredPayment
stored_payment p = record {
  id = p.id;
  user_id = p.user_id;
  amount = p.money.amount;
  currency = p.money.currency;
  payment_method = p.payment_method;
  product_id = p.product_id;
  quantity = p.quantity;
  status = p.status;
  created_at = none;
}

module _ (redis : Redis CachedText) where
  open redis use {Store, get, setex, set_nx}

  unfoldable pub find_by_key : String → Action PaymentError Store (Option Payment)
  find_by_key idempotency_key s = (result_bind (get (build_key idempotency_key) s) read_cached, s)

  unfoldable pub try_claim : String → ℕ → Action PaymentError Store Bool
  try_claim idempotency_key ttl_seconds =
      set_nx (build_key idempotency_key) (text processing_marker) ttl_seconds

  unfoldable pub save : String → Payment → ℕ → Action PaymentError Store ⊤
  save idempotency_key payment ttl_seconds =
      setex (build_key idempotency_key) ttl_seconds (json (stored_payment payment))
