-- ===== src/Payment/Repository/Laws.antt =====
-- PaymentMapper and PaymentRepositoryImpl: what is stored is what is given, and a payment and its
-- events are stored together or not at all.
use public_nest_server.Base.{
  Action, Result, ℕ, ◌≡◌, refl, sym, ap, ◌∙◌, ◌≢◌, Option, none, some, List, [], ◌∷◌, ◌++◌, ok, err,
  arith, map, ⊤, Result-cases, inl, inr,
}
use mathlib.Core.Path.{ap₂}
use mathlib.Core.List.{append-nil}
use public_nest_server.Payment.Model.{Payment, PaymentError, DomainEvent, money_of, restore}
use public_nest_server.Payment.Database.{
  PaymentOrmEntity, PaymentOutboxOrmEntity, SameColumns, IsSaved, Database, without_id,
}
use public_nest_server.Payment.Repository.{
  to_domain, to_orm_entity, to_outbox_entity, save_events, save_all, persist, persist_with_events,
}

-- The payment's money has passed `Money.validate`, as every `Money` has.
abbrev pub IsPayable : Payment → Type 0
IsPayable p = money_of p.money.amount p.money.currency ≡ ok p.money

-- What a payment read back from its row agrees with: all but the generated columns.
abbrev pub SamePayment : Payment → Payment → Type 0
SamePayment p q =
    (q.user_id ≡ p.user_id)
    × (q.money ≡ p.money)
    × (q.payment_method ≡ p.payment_method)
    × (q.product_id ≡ p.product_id)
    × (q.quantity ≡ p.quantity)
    × (q.status ≡ p.status)
    × (q.domain_events ≡ [])

-- Reading back a row that has the columns of a payment's entity gives the payment, with the id and
-- the time of creation of the row.
pub to_domain-to_orm_entity :
    (p : Payment) (row : PaymentOrmEntity)
    → IsPayable p
    → SameColumns (to_orm_entity p) row
    → (q : Payment) × (to_domain row ≡ ok q)
      × SamePayment p q
      × (q.id ≡ row.id)
      × (q.created_at ≡ row.created_at)
unfolding to_domain to_orm_entity restore
to_domain-to_orm_entity p row valid same = (
  record p { id = row.id; created_at = row.created_at; domain_events = [] },
  ground arith,
  (refl, refl, refl, refl, refl, refl, refl),
  refl,
  refl,
)

module _ (base : Database) where
  open base use {
    Db, find_payment, outbox, save_payment, save_outbox, transaction, save_payment-ok,
    save_payment-outbox, save_payment-err, save_outbox-ok, save_outbox-payments, transaction-ok,
    transaction-err,
  }

  -- What a payment and its events are once they are stored under the id `key`.
  pub record IsStored (p : Payment) (events : List DomainEvent) (saved : PaymentOrmEntity)
      (db db' : Db) : Type 0 where
    pub key : ℕ
    pub saved_key : saved.id ≡ some key
    pub saved_columns : SameColumns (to_orm_entity p) saved
    pub row : PaymentOrmEntity
    pub stored : find_payment key db' ≡ some row
    pub row_key : row.id ≡ some key
    pub row_columns : SameColumns (to_orm_entity p) row
    pub others : (i : ℕ) → i ≢ key → find_payment i db' ≡ find_payment i db
    pub kept_key : (i : ℕ) → p.id ≡ some i → i ≡ key
    pub new_key : p.id ≡ none → find_payment key db ≡ none
    pub added : List PaymentOutboxOrmEntity
    pub appended : outbox db' ≡ outbox db ++ added
    pub recorded : map without_id added ≡ map (to_outbox_entity (some key)) events

  abbrev Adds : Option ℕ → List DomainEvent → Db → Db → Type 0
  Adds key events db db' =
      (added : List PaymentOutboxOrmEntity) × (outbox db' ≡ outbox db ++ added)
      × (map without_id added ≡ map (to_outbox_entity key) events)

  map-without_id :
      (key : Option ℕ) (events : List DomainEvent)
      → map without_id (map (to_outbox_entity key) events) ≡ map (to_outbox_entity key) events
  unfolding to_outbox_entity
  map-without_id key [] = refl
  map-without_id key (e ∷ events) = ap₂ ◌∷◌ refl (map-without_id key events)

  save_events-Adds :
      (key : Option ℕ) (events : List DomainEvent) (u : ⊤) (db : Db)
      → (save_events base key events db).0 ≡ ok u
      → Adds key events db (save_events base key events db).1
  unfolding save_events to_outbox_entity
  save_events-Adds key [] u db h = ([], sym (append-nil _), refl)
  save_events-Adds key (e ∷ events) u db h =
      let (added, appended, same) = save_outbox-ok _ u db h in
      (added, appended, same ∙ map-without_id key (e ∷ events))

  save_events-payments :
      (key : Option ℕ) (events : List DomainEvent) (db : Db) (i : ℕ)
      → find_payment i (save_events base key events db).1 ≡ find_payment i db
  unfolding save_events
  save_events-payments key [] db i = refl
  save_events-payments key (e ∷ events) db i = save_outbox-payments _ db i

  -- The rows that `save` and then `save` of the events have left.
  IsStored-both :
      (p : Payment) (events : List DomainEvent) (saved : PaymentOrmEntity) (db db' : Db)
      → IsSaved (to_orm_entity p) saved (λ i. find_payment i db) (λ i. find_payment i db')
      → outbox db' ≡ outbox db
      → Adds saved.id events db' (save_events base saved.id events db').1
      → IsStored p events saved db (save_events base saved.id events db').1
  unfolding to_orm_entity
  IsStored-both p events saved db db' s same (added, appended, recorded) = record {
    key = s.key;
    saved_key = s.saved_key;
    saved_columns = s.saved_columns;
    row = s.row;
    stored = save_events-payments saved.id events db' s.key ∙ s.stored;
    row_key = s.row_key;
    row_columns = s.row_columns;
    others = λ i ne. save_events-payments saved.id events db' i ∙ s.others i ne;
    kept_key = s.kept_key;
    new_key = s.new_key;
    added = added;
    appended = appended ∙ ap (λ l. l ++ added) same;
    recorded = recorded ∙ ap (λ k. map (to_outbox_entity k) events) s.saved_key;
  }

  save_all-IsStored :
      (p : Payment) (events : List DomainEvent) (saved : PaymentOrmEntity) (db : Db)
      → (save_all base (to_orm_entity p) events db).0 ≡ ok saved
      → IsStored p events saved db (save_all base (to_orm_entity p) events db).1
  unfolding save_all
  save_all-IsStored p events saved db h =
      let orm : PaymentOrmEntity = to_orm_entity p in
      elim (Result-cases (save_payment orm db).0) [
        | inr (x, e) ↦ absurd (ground arith)
        | inl (first, e) ↦
            let mid : Db = (save_payment orm db).1 in
            elim (Result-cases (save_events base first.id events mid).0) [
              | inr (x, e₂) ↦ absurd (ground arith)
              | inl (u, e₂) ↦
                  let same : first ≡ saved = ground arith in
                  let end : (save_all base (to_orm_entity p) events db).1
                      ≡ (save_events base first.id events mid).1 =
                    ground arith in
                  rw (end, ← same)
                    (IsStored-both p events first db mid (save_payment-ok orm first db e)
                      (save_payment-outbox orm db) (save_events-Adds first.id events u mid e₂))
            ]
      ]

  -- How a call that stores a payment with its events may end: both are stored, and the payment
  -- read back is returned, or the call throws and the database is as it was.
  abbrev pub Persisted : Payment → List DomainEvent → Db → Result PaymentError Payment × Db → Type 0
  Persisted p events db (ok q, db') =
      (saved : PaymentOrmEntity) × IsStored p events saved db db'
      × SamePayment p q
      × (q.id ≡ saved.id)
  Persisted p events db (err x, db') = db' ≡ db

  -- The two ways it may end, told by its result.
  pub Persisted-ok :
      (p q : Payment) (events : List DomainEvent) (db : Db) (r : Result PaymentError Payment × Db)
      → Persisted p events db r
      → r.0 ≡ ok q
      → (saved : PaymentOrmEntity) × IsStored p events saved db r.1
        × SamePayment p q
        × (q.id ≡ saved.id)
  Persisted-ok p q events db (ok q', db') h e = let same : q' ≡ q = cc in rw (← same) h
  Persisted-ok p q events db (err x, db') h e = cc

  pub Persisted-err :
      (p : Payment) (x : PaymentError) (events : List DomainEvent) (db : Db)
      (r : Result PaymentError Payment × Db)
      → Persisted p events db r
      → r.0 ≡ err x
      → r.1 ≡ db
  Persisted-err p x events db (ok q, db') h e = cc
  Persisted-err p x events db (err y, db') h e = h

  read_back :
      (p : Payment) (events : List DomainEvent) (saved : PaymentOrmEntity) (db db' : Db)
      → IsPayable p
      → IsStored p events saved db db'
      → Persisted p events db (to_domain saved, db')
  read_back p events saved db db' valid s =
      let (q, read, same, key, _) = to_domain-to_orm_entity p saved valid s.saved_columns in
      rw read (saved, s, same, key)

  -- `persistWithEvents` of a payment with valid money is atomic: if it returns, the payment's row
  -- and one outbox row for each event, in order and under the payment's id, are stored, no other
  -- payment has changed, and the payment is returned as stored; if it throws, nothing is stored.
  pub persist_with_events-Persisted :
      (p : Payment) (events : List DomainEvent) (db : Db)
      → IsPayable p
      → Persisted p events db (persist_with_events base p events db)
  unfolding persist_with_events
  persist_with_events-Persisted p events db valid =
      let all : Action PaymentError Db PaymentOrmEntity = save_all base (to_orm_entity p) events in
      elim (Result-cases (transaction all db).0) [
        | inr (x, e) ↦
            let end : persist_with_events base p events db ≡ (err x, (transaction all db).1) =
              ground arith in
            rw end (transaction-err all x db e)
        | inl (saved, e) ↦
            let same : transaction all db ≡ all db = transaction-ok all saved db e in
            let done : (all db).0 ≡ ok saved = ap (λ r. r.0) (sym same) ∙ e in
            let end : persist_with_events base p events db ≡ (to_domain saved, (all db).1) =
              ground arith in
            rw end (
              read_back p events saved db (all db).1 valid
                (save_all-IsStored p events saved db done))
      ]

  -- The same of `persist`, which stores a payment without an event.
  pub persist-Persisted :
      (p : Payment) (db : Db) → IsPayable p → Persisted p [] db (persist base p db)
  unfolding persist save_events
  persist-Persisted p db valid =
      let orm : PaymentOrmEntity = to_orm_entity p in
      elim (Result-cases (save_payment orm db).0) [
        | inr (x, e) ↦
            let end : persist base p db ≡ (err x, (save_payment orm db).1) = ground arith in
            rw end (save_payment-err orm x db e)
        | inl (saved, e) ↦
            let mid : Db = (save_payment orm db).1 in
            let end : persist base p db ≡ (to_domain saved, mid) = ground arith in
            rw end (
              read_back p [] saved db mid valid (
                IsStored-both p [] saved db mid (save_payment-ok orm saved db e)
                  (save_payment-outbox orm db) (save_events-Adds saved.id [] tt mid refl)))
      ]
