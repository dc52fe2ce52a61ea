-- ===== src/Payment/Reconciliation/Laws.antt =====
-- What a reconciliation without mismatches means.
use mathlib.Core.Path.{ap₂}
use public_nest_server.Base.{
  ℕ, ◌-◌, ◌≡◌, ◌↔◌, refl, sym, ap, ◌∙◌, Option, none, some, List, [], ◌∷◌, ◌++◌, true, ok, length,
  All, arith, inl, inr, Option-cases, Result-cases,
}
use public_nest_server.Payment.Model.{Payment, PaymentStatus, pending, completed, failed, status_eq}
use public_nest_server.Payment.Database.{Database, PaymentOrmEntity}
use public_nest_server.Payment.Repository.{to_domain, row_to_domain, find_payment_by_id}
use public_nest_server.Payment.Gateway.{PgAdapter, PgTransactionRecord}
use public_nest_server.Payment.Reconciliation.{
  Mismatch, ReconciliationResult, expected_status, compare_payment, find_of_tx, compare_all,
  Reconciling, lookback_ms, compare_listed, reconcile_once,
}

module _ (base : Database) where
  open base use {Db, find_payment, query_payment, query_payment-ok}

  -- The payment of a transaction is stored with the status that the gateway's answer gives it.
  pub record Agrees (db : Db) (tx : PgTransactionRecord) : Type 0 where
    pub id : ℕ
    pub named : tx.payment_id ≡ some id
    pub row : PaymentOrmEntity
    pub stored : find_payment id db ≡ some row
    pub payment : Payment
    pub read : to_domain row ≡ ok payment
    pub same_status : payment.status ≡ expected_status tx

  status_eq-true : (s t : PaymentStatus) → status_eq s t ≡ true → s ≡ t
  status_eq-true pending pending h = refl
  status_eq-true completed completed h = refl
  status_eq-true failed failed h = refl
  status_eq-true pending completed h = cc
  status_eq-true pending failed h = cc
  status_eq-true completed pending h = cc
  status_eq-true completed failed h = cc
  status_eq-true failed pending h = cc
  status_eq-true failed completed h = cc

  status_eq_refl : (s : PaymentStatus) → status_eq s s ≡ true
  status_eq_refl pending = refl
  status_eq_refl completed = refl
  status_eq_refl failed = refl

  find_of_tx-state : (id : Option ℕ) (db : Db) → (find_of_tx base id db).1 ≡ db
  unfolding find_of_tx find_payment_by_id
  find_of_tx-state none db = refl
  find_of_tx-state (some i) db = refl

  find_of_tx-found :
      (id : Option ℕ) (payment : Payment) (db : Db)
      → (find_of_tx base id db).0 ≡ ok (some payment)
      → (i : ℕ) × (id ≡ some i)
        × (row : PaymentOrmEntity) × (find_payment i db ≡ some row)
        × (to_domain row ≡ ok payment)
  unfolding find_of_tx find_payment_by_id row_to_domain
  find_of_tx-found none payment db h = absurd (ground arith)
  find_of_tx-found (some i) payment db h = elim (Result-cases (query_payment i db)) [
    | inr (x, e) ↦ absurd (ground arith)
    | inl (r, answered) ↦ elim (Option-cases r) [
      | inl absent ↦ absurd (ground arith)
      | inr (row, here) ↦ elim (Result-cases (to_domain row)) [
        | inr (x, e) ↦ absurd (ground arith)
        | inl (p, e) ↦ (i, refl, row, sym (query_payment-ok i r db answered) ∙ here, ground arith)
      ]
    ]
  ]

  query_found :
      (i : ℕ) (row : PaymentOrmEntity) (payment : Payment) (found : Option Payment) (db : Db)
      → find_payment i db ≡ some row
      → to_domain row ≡ ok payment
      → (find_of_tx base (some i) db).0 ≡ ok found
      → found ≡ some payment
  unfolding find_of_tx find_payment_by_id row_to_domain
  query_found i row payment found db stored read h = elim (Result-cases (query_payment i db)) [
    | inr (x, e) ↦ absurd (ground arith)
    | inl (r, answered) ↦
        let here : r ≡ some row = query_payment-ok i r db answered ∙ stored in ground arith
  ]

  found-find_of_tx :
      (tx : PgTransactionRecord) (found : Option Payment) (db : Db) (a : Agrees db tx)
      → (find_of_tx base tx.payment_id db).0 ≡ ok found
      → found ≡ some a.payment
  found-find_of_tx tx found db a h =
      query_found a.id a.row a.payment found db a.stored a.read
        (ap (λ k. (find_of_tx base k db).0) (sym a.named) ∙ h)

  compare_payment-Agrees :
      (tx : PgTransactionRecord) (found : Option Payment) (db : Db)
      → (find_of_tx base tx.payment_id db).0 ≡ ok found
      → (compare_payment tx found ≡ []) ↔ Agrees db tx
  unfolding compare_payment
  compare_payment-Agrees tx none db h =
      (λ e. cc, λ a. let found = found-find_of_tx tx none db a h in absurd (ground arith))
  compare_payment-Agrees tx (some payment) db h = (
    λ e.
        let (i, named, row, stored, read) = find_of_tx-found tx.payment_id payment db h in
        record {
          id = i;
          named = named;
          row = row;
          stored = stored;
          payment = payment;
          read = read;
          same_status = status_eq-true payment.status (expected_status tx) (ground arith);
        },
    λ a.
        let found = found-find_of_tx tx (some payment) db a h in
        let same : payment ≡ a.payment = ground arith in
        let status : payment.status ≡ expected_status tx =
          ap (λ p. p.status) same ∙ a.same_status in
        rw (status, status_eq_refl) refl,
  )

  append-nil_both {ℓ} : {A : Type ℓ} (xs ys : List A) → xs ++ ys ≡ [] → (xs ≡ []) × (ys ≡ [])
  append-nil_both [] ys h = (refl, h)
  append-nil_both (x ∷ xs) ys h = cc

  compare_all-state : (txs : List PgTransactionRecord) (db : Db) → (compare_all base txs db).1 ≡ db
  unfolding compare_all
  compare_all-state [] db = refl
  compare_all-state (tx ∷ txs) db =
      ground (arith, find_of_tx-state tx.payment_id db, compare_all-state txs db)

  compare_all-Agrees :
      (txs : List PgTransactionRecord) (ms : List Mismatch) (db : Db)
      → (compare_all base txs db).0 ≡ ok ms
      → (ms ≡ []) ↔ All (Agrees db) txs
  unfolding compare_all
  compare_all-Agrees [] ms db h = (λ e. tt, λ a. ground arith)
  compare_all-Agrees (tx ∷ txs) ms db h = elim (Result-cases (find_of_tx base tx.payment_id db).0) [
    | inr (x, e) ↦ absurd (ground arith)
    | inl (found, e) ↦
        let kept : (find_of_tx base tx.payment_id db).1 ≡ db = find_of_tx-state tx.payment_id db in
        elim (Result-cases (compare_all base txs db).0) [
          | inr (x, e₂) ↦ absurd (ground arith)
          | inl (rest, e₂) ↦
              let whole : ms ≡ compare_payment tx found ++ rest = ground arith in
              let first = compare_payment-Agrees tx found db e in
              let others = compare_all-Agrees txs rest db e₂ in
              (
                λ none_at_all.
                    let (a, b) =
                      append-nil_both (compare_payment tx found) rest (sym whole ∙ none_at_all) in
                    (first.0 a, others.0 b),
                λ (a, b). whole ∙ ap₂ ◌++◌ (first.1 a) (others.1 b),
              )
        ]
  ]

  -- A reconciliation that does not throw has checked every transaction that the gateway listed, has
  -- changed no payment, and reports no mismatch exactly if each transaction names a stored payment
  -- that is COMPLETED where the gateway approved and FAILED where it did not.
  pub reconcile_once-Agrees :
      (pg : PgAdapter) (to : ℕ) (result : ReconciliationResult) (w : Reconciling base pg)
      → (reconcile_once base pg to w).0 ≡ ok result
      → (txs : List PgTransactionRecord) × ((pg.list_transactions (to - lookback_ms) to w.ledger).0
          ≡ ok txs)
        × (result.checked ≡ length txs)
        × ((reconcile_once base pg to w).1.db ≡ w.db)
        × ((result.mismatches ≡ []) ↔ All (Agrees w.db) txs)
  unfolding reconcile_once compare_listed
  reconcile_once-Agrees pg to result w h =
      let listed = pg.list_transactions (to - lookback_ms) to w.ledger in
      elim (Result-cases listed.0) [
        | inr (x, e) ↦ absurd (ground arith)
        | inl (txs, e) ↦ elim (Result-cases (compare_all base txs w.db).0) [
          | inr (x, e₂) ↦ absurd (ground arith)
          | inl (ms, e₂) ↦
              let kept : (compare_all base txs w.db).1 ≡ w.db = compare_all-state txs w.db in
              let end : result ≡ record { checked = length txs; mismatches = ms } = ground arith in
              let agrees : (ms ≡ []) ↔ All (Agrees w.db) txs = compare_all-Agrees txs ms w.db e₂ in
              (txs, e, ap (λ r. r.checked) end, ground arith, rw end agrees)
        ]
      ]
