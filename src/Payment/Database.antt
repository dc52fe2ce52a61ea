-- ===== src/Payment/Database.antt =====
-- What the payment service takes from TypeORM (infrastructure/orm/*.ts declare the tables): the
-- database is a parameter, with the documented behaviour of `save`, of `transaction` and of the
-- queries that the repositories build.
use public_nest_server.Base.{
  ℕ, ◌≡◌, ◌≢◌, ◌≤◌, ◌==◌, Option, none, some, List, ◌++◌, String, Bool, false, ℤ, Result, Action,
  ok, err, keep, take, map, length, any, All, if◌then◌else◌, ⊤,
}
use public_nest_server.Payment.Model.{PaymentStatus, PaymentError, DomainEvent}

-- `PaymentOrmEntity`
pub record PaymentOrmEntity : Type 0 where
  pub id : Option ℕ
  pub user_id : ℕ
  pub amount : ℤ
  pub currency : String
  pub payment_method : String
  pub product_id : String
  pub quantity : String
  pub status : PaymentStatus
  pub created_at : Option ℕ

-- `OutboxStatus`
pub data OutboxStatus : Type 0 where
  pending published failed : OutboxStatus

-- `PaymentOutboxOrmEntity`. The column `payload` is the JSON text of an event, and the event
-- itself here.
pub record PaymentOutboxOrmEntity : Type 0 where
  pub id : Option ℕ
  pub aggregate_id : Option ℕ
  pub event_type : String
  pub payload : DomainEvent
  pub status : OutboxStatus
  pub attempts : ℕ
  pub published_at : Option ℕ

abbrev pub id_is : ℕ → Option ℕ → Bool
id_is i none = false
id_is i (some j) = i == j

-- Two payments agree in every column that the service writes.
abbrev pub SameColumns : PaymentOrmEntity → PaymentOrmEntity → Type 0
SameColumns a b =
    (a.user_id ≡ b.user_id)
    × (a.amount ≡ b.amount)
    × (a.currency ≡ b.currency)
    × (a.payment_method ≡ b.payment_method)
    × (a.product_id ≡ b.product_id)
    × (a.quantity ≡ b.quantity)
    × (a.status ≡ b.status)

-- What `save(entity)` has done when it resolves with `saved`: the table holds the entity's
-- columns under its id, which is new if the entity had none, and no other payment has changed.
pub record IsSaved (entity saved : PaymentOrmEntity) (before after : ℕ → Option PaymentOrmEntity)
    : Type 0 where
  pub key : ℕ
  pub saved_key : saved.id ≡ some key
  pub saved_columns : SameColumns entity saved
  pub row : PaymentOrmEntity
  pub stored : after key ≡ some row
  pub row_key : row.id ≡ some key
  pub row_columns : SameColumns entity row
  pub others : (i : ℕ) → i ≢ key → after i ≡ before i
  pub kept_key : (i : ℕ) → entity.id ≡ some i → i ≡ key
  pub new_key : entity.id ≡ none → before key ≡ none

-- Two outbox rows agree in every column but the generated id.
abbrev pub without_id : PaymentOutboxOrmEntity → PaymentOutboxOrmEntity
without_id r = record r { id = none }

-- `WHERE id = i`
abbrev pub has_id : ℕ → PaymentOutboxOrmEntity → Bool
has_id i r = id_is i r.id

abbrev pub update_row :
    ℕ
    → (PaymentOutboxOrmEntity → PaymentOutboxOrmEntity)
    → PaymentOutboxOrmEntity
    → PaymentOutboxOrmEntity
update_row i f r = if has_id i r then f r else r

pub record Database : Type 1 where
  pub Db : Type 0
  -- The payment with an id, and the rows of `payment_outbox` in the order of their ids.
  pub find_payment : ℕ → Db → Option PaymentOrmEntity
  pub outbox : Db → List PaymentOutboxOrmEntity
  -- `where(id).getOne()`, which may fail
  pub query_payment : ℕ → Db → Result PaymentError (Option PaymentOrmEntity)
  -- `save`, of a payment and of new outbox rows; `transaction(callback)`
  pub save_payment : PaymentOrmEntity → Action PaymentError Db PaymentOrmEntity
  pub save_outbox : List PaymentOutboxOrmEntity → Action PaymentError Db ⊤
  pub transaction : {A : Type 0} → Action PaymentError Db A → Action PaymentError Db A
  -- the rows of a user from newest to oldest, `take` of them after `skip`, and the number of all
  pub select_of_user : ℕ → ℕ → ℕ → Action PaymentError Db (List PaymentOrmEntity × ℕ)
  -- `where(test).orderBy(id, 'ASC').take(limit)`; `update().set(change).where(id)`, which says
  -- whether a row was affected
  pub select_outbox :
      (PaymentOutboxOrmEntity → Bool) → ℕ → Action PaymentError Db (List PaymentOutboxOrmEntity)
  pub update_outbox :
      ℕ → (PaymentOutboxOrmEntity → PaymentOutboxOrmEntity) → Action PaymentError Db Bool
  pub query_payment-ok :
      (i : ℕ) (r : Option PaymentOrmEntity) (db : Db)
      → query_payment i db ≡ ok r
      → r ≡ find_payment i db
  pub find_payment-key :
      (i : ℕ) (db : Db) (row : PaymentOrmEntity) → find_payment i db ≡ some row → row.id ≡ some i
  pub save_payment-ok :
      (e e' : PaymentOrmEntity) (db : Db)
      → (save_payment e db).0 ≡ ok e'
      → IsSaved e e' (λ i. find_payment i db) (λ i. find_payment i (save_payment e db).1)
  pub save_payment-outbox :
      (e : PaymentOrmEntity) (db : Db) → outbox (save_payment e db).1 ≡ outbox db
  pub save_payment-err :
      (e : PaymentOrmEntity) (x : PaymentError) (db : Db)
      → (save_payment e db).0 ≡ err x
      → (save_payment e db).1 ≡ db
  -- New rows get ids, and hold the entities' other columns.
  pub save_outbox-ok :
      (rows : List PaymentOutboxOrmEntity) (u : ⊤) (db : Db)
      → (save_outbox rows db).0 ≡ ok u
      → (added : List PaymentOutboxOrmEntity) × (outbox (save_outbox rows db).1
          ≡ outbox db ++ added)
        × (map without_id added ≡ map without_id rows)
  pub save_outbox-payments :
      (rows : List PaymentOutboxOrmEntity) (db : Db) (i : ℕ)
      → find_payment i (save_outbox rows db).1 ≡ find_payment i db
  -- A transaction that resolves has done what its callback did; one that throws, nothing.
  pub transaction-ok :
      {A : Type 0} (f : Action PaymentError Db A) (a : A) (db : Db)
      → (transaction f db).0 ≡ ok a
      → transaction f db ≡ f db
  pub transaction-err :
      {A : Type 0} (f : Action PaymentError Db A) (x : PaymentError) (db : Db)
      → (transaction f db).0 ≡ err x
      → (transaction f db).1 ≡ db
  pub select_of_user-state :
      (user limit skip : ℕ) (db : Db) → (select_of_user user limit skip db).1 ≡ db
  pub select_of_user-ok :
      (user limit skip count : ℕ) (rows : List PaymentOrmEntity) (db : Db)
      → (select_of_user user limit skip db).0 ≡ ok (rows, count)
      → All (λ r. r.user_id ≡ user) rows × (length rows ≤ limit)
  pub select_outbox-state :
      (test : PaymentOutboxOrmEntity → Bool) (limit : ℕ) (db : Db)
      → (select_outbox test limit db).1 ≡ db
  pub select_outbox-ok :
      (test : PaymentOutboxOrmEntity → Bool) (limit : ℕ) (rows : List PaymentOutboxOrmEntity)
      (db : Db)
      → (select_outbox test limit db).0 ≡ ok rows
      → rows ≡ take limit (keep test (outbox db))
  pub update_outbox-ok :
      (i : ℕ) (f : PaymentOutboxOrmEntity → PaymentOutboxOrmEntity) (affected : Bool) (db : Db)
      → (update_outbox i f db).0 ≡ ok affected
      → (outbox (update_outbox i f db).1 ≡ map (update_row i f) (outbox db))
        × (affected ≡ any (has_id i) (outbox db))
  pub update_outbox-payments :
      (i j : ℕ) (f : PaymentOutboxOrmEntity → PaymentOutboxOrmEntity) (db : Db)
      → find_payment j (update_outbox i f db).1 ≡ find_payment j db
  pub update_outbox-err :
      (i : ℕ) (f : PaymentOutboxOrmEntity → PaymentOutboxOrmEntity) (x : PaymentError) (db : Db)
      → (update_outbox i f db).0 ≡ err x
      → (update_outbox i f db).1 ≡ db
