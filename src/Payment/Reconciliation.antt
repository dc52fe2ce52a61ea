-- ===== src/Payment/Reconciliation.antt =====
-- PaymentReconciliationService (infrastructure/reconciliation/payment-reconciliation.service.ts):
-- `reconcileOnce`. A mismatch is the data that its text is made of; the log is left out.
pub mod Laws
use public_nest_server.Base.{
  ℕ, ◌-◌, ◌*◌, ◌≡◌, ◌↔◌, refl, sym, ap, ◌∙◌, Option, none, some, List, [], ◌∷◌, ◌++◌, String, Bool,
  true, false, Result, ok, err, Action, pure, ◌>>=◌, length, All, if◌then◌else◌, arith, inl, inr,
  ◌⊎◌, Option-cases, Result-cases, Bool-cases,
}
use public_nest_server.Payment.Model.{
  Payment, PaymentStatus, pending, completed, failed, status_eq, PaymentError,
}
use public_nest_server.Payment.Database.{Database, PaymentOrmEntity}
use public_nest_server.Payment.Repository.{to_domain, row_to_domain, find_payment_by_id}
use public_nest_server.Payment.Gateway.{PgAdapter, PgTransactionRecord}

abbrev pub lookback_ms : ℕ
lookback_ms = 24 * 60 * 60 * 1000

pub data Mismatch : Type 0 where
  missing : Option ℕ → String → Mismatch
  differs : Option ℕ → PaymentStatus → PaymentStatus → Mismatch

pub record ReconciliationResult : Type 0 where
  pub checked : ℕ
  pub mismatches : List Mismatch

abbrev pub expected_status : PgTransactionRecord → PaymentStatus
expected_status tx = if tx.approved then completed else failed

-- the body of the loop, once the payment was looked up
unfoldable pub compare_payment : PgTransactionRecord → Option Payment → List Mismatch
compare_payment tx none = missing tx.payment_id tx.pg_transaction_id ∷ []
compare_payment tx (some payment) =
    if status_eq payment.status (expected_status tx)
    then []
    else differs tx.payment_id payment.status (expected_status tx) ∷ []

module _ (base : Database) where
  open base use {Db, find_payment}

  -- an undefined id is found under no row
  unfoldable pub find_of_tx : Option ℕ → Action PaymentError Db (Option Payment)
  find_of_tx none = pure none
  find_of_tx (some i) = find_payment_by_id base i

  unfoldable pub compare_all : List PgTransactionRecord → Action PaymentError Db (List Mismatch)
  compare_all [] = pure []
  compare_all (tx ∷ txs) = do
    payment ← find_of_tx tx.payment_id
    mismatches ← compare_all txs
    pure (compare_payment tx payment ++ mismatches)

  module _ (pg : PgAdapter) where
    pub record Reconciling : Type 0 where
      pub db : Db
      pub ledger : pg.Pg

    unfoldable pub compare_listed :
        Result PaymentError (List PgTransactionRecord)
        → Reconciling
        → Result PaymentError ReconciliationResult × Reconciling
    compare_listed (err e) w = (err e, w)
    compare_listed (ok txs) w =
        let (r, db) = compare_all txs w.db in
        let w' : Reconciling = record w { db = db } in
        elim r [
          | err e ↦ (err e, w')
          | ok mismatches ↦ (ok (record { checked = length txs; mismatches = mismatches }), w')
        ]

    unfoldable pub reconcile_once : ℕ → Action PaymentError Reconciling ReconciliationResult
    reconcile_once to w =
        let (r, ledger) = pg.list_transactions (to - lookback_ms) to w.ledger in
        compare_listed r (record w { ledger = ledger })
