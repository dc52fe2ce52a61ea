-- ===== src/Payment/Idempotency/Laws.antt =====
-- The idempotency store: a saved payment is found again, a claim is exclusive, and a claimed key
-- shows no payment.
use public_nest_server.Base.{
  ℕ, ◌≡◌, refl, ap, ⊤, Option, Bool, false, none, some, [], String, ℤ, true, false, ok, arith,
  eq_refl, ◌∙◌, inl, inr, Result-cases,
}
use public_nest_server.Payment.Model.{Payment, StoredPayment, Money, restore, money_of}
use public_nest_server.Payment.Cache.{Redis}
use public_nest_server.Payment.Idempotency.{
  CachedText, text, json, processing_marker, build_key, read_cached, stored_payment, find_by_key,
  try_claim, save,
}
use public_nest_server.Payment.Repository.Laws.{IsPayable}

-- The payment as the store gives it back: without `createdAt`.
abbrev pub replayed : Payment → Payment
replayed p = record p { created_at = none; domain_events = [] }

pub restore-stored_payment :
    (p : Payment) → IsPayable p → restore (stored_payment p) ≡ ok (replayed p)
unfolding restore stored_payment
restore-stored_payment p valid = rw valid

pub money_of-fields :
    (amount : ℤ) (currency : String) (m : Money)
    → money_of amount currency ≡ ok m
    → (m.amount ≡ amount) × (m.currency ≡ currency)
unfolding money_of
money_of-fields amount currency m h = ground arith

-- Whatever is restored has valid money.
pub restore-IsPayable : (s : StoredPayment) (q : Payment) → restore s ≡ ok q → IsPayable q
unfolding restore
restore-IsPayable s q h = elim (Result-cases (money_of s.amount s.currency)) [
  | inl (m, e) ↦ let (a, c) = money_of-fields s.amount s.currency m e in ground arith
  | inr (x, e) ↦ absurd (ground arith)
]

module _ (redis : Redis CachedText) where
  open redis use {Store, content, get, setex, set_nx, get-ok, setex-ok, set_nx-ok}

  -- The key holds a payment, as `save` stores it.
  abbrev pub Holds : String → Payment → Store → Type 0
  Holds key p s = content (build_key key) s ≡ some (json (stored_payment p))

  pub save-Holds :
      (key : String) (p : Payment) (ttl : ℕ) (u : ⊤) (s : Store)
      → (save redis key p ttl s).0 ≡ ok u
      → Holds key p (save redis key p ttl s).1
  unfolding save
  save-Holds key p ttl u s done =
      let k : String = build_key key in
      setex-ok k k ttl (json (stored_payment p)) u s done ∙ rw (eq_refl k) refl

  pub find_by_key-Holds :
      (key : String) (p : Payment) (r : Option CachedText) (s : Store)
      → IsPayable p
      → Holds key p s
      → get (build_key key) s ≡ ok r
      → find_by_key redis key s ≡ (ok (some (replayed p)), s)
  unfolding find_by_key read_cached
  find_by_key-Holds key p r s valid held answered =
      let same : r ≡ some (json (stored_payment p)) = get-ok (build_key key) r s answered ∙ held in
      let read : get (build_key key) s ≡ ok (some (json (stored_payment p))) =
        answered ∙ ap ok same in
      rw (read, restore-stored_payment p valid) refl

  -- What was saved under a key without an error is found under it if Redis answers, with every
  -- field but the creation time.
  pub find_by_key-save :
      (key : String) (p : Payment) (ttl : ℕ) (u : ⊤) (r : Option CachedText) (s : Store)
      → IsPayable p
      → (save redis key p ttl s).0 ≡ ok u
      → let s' = (save redis key p ttl s).1 in
        get (build_key key) s' ≡ ok r → find_by_key redis key s' ≡ (ok (some (replayed p)), s')
  find_by_key-save key p ttl u r s valid done answered =
      find_by_key-Holds key p r _ valid (save-Holds key p ttl u s done) answered

  pub try_claim-content :
      (key : String) (ttl : ℕ) (s : Store)
      → (try_claim redis key ttl s).0 ≡ ok true
      → content (build_key key) (try_claim redis key ttl s).1 ≡ some (text processing_marker)
  unfolding try_claim
  try_claim-content key ttl s h =
      let k : String = build_key key in
      (set_nx-ok k k (text processing_marker) ttl true s h).1 ∙ ground (arith, eq_refl k)

  -- After a claim that succeeded, whoever looks the key up and gets an answer finds no payment, and
  -- whoever tries to claim it and gets an answer is refused.
  pub try_claim_exclusive :
      (key : String) (ttl : ℕ) (s : Store)
      → (try_claim redis key ttl s).0 ≡ ok true
      → let s' = (try_claim redis key ttl s).1 in
        ((r : Option CachedText)
          → get (build_key key) s' ≡ ok r
          → find_by_key redis key s' ≡ (ok none, s'))
        × ((reply : Bool) → (try_claim redis key ttl s').0 ≡ ok reply → reply ≡ false)
  unfolding find_by_key try_claim read_cached
  try_claim_exclusive key ttl s h =
      let k : String = build_key key in
      let s' : Store = (set_nx k (text processing_marker) ttl s).1 in
      let marked : content k s' ≡ some (text processing_marker) = try_claim-content key ttl s h in
      (
        λ r answered.
            let read : get k s' ≡ ok (some (text processing_marker)) =
              answered ∙ ap ok (get-ok k r s' answered ∙ marked) in
            rw read refl,
        λ reply answered.
            (set_nx-ok k k (text processing_marker) ttl reply s' answered).0 ∙ rw marked refl,
      )
