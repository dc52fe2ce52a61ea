-- ===== src/Payment/Outbox/Rows.antt =====
-- The rows of the outbox table under the repository's updates.
use public_nest_server.Base.{
  ℕ, ◌+◌, ◌≤◌, ◌<◌, ◌≡◌, ◌≢◌, refl, sym, ap, ◌∙◌, Option, none, some, List, [], ◌∷◌, true, ok, err,
  arith, inl, inr, Bool-cases, Result-cases, keep, take, map, find, any, All, ⊤,
}
use public_nest_server.Payment.Model.{PaymentError}
use public_nest_server.Payment.Database.{
  Database, PaymentOutboxOrmEntity, OutboxStatus, has_id, update_row,
}
use public_nest_server.Payment.Outbox.{
  published_row, failed_row, max_attempts, update_by_id, mark_published, find_row, mark_row,
  mark_failed_attempt,
}

-- A row is PENDING only below the limit of attempts, and FAILED only at or above it.
abbrev pub IsWithinAttempts : PaymentOutboxOrmEntity → Type 0
IsWithinAttempts r =
    (r.status ≡ OutboxStatus.pending → r.attempts < max_attempts)
    × (r.status ≡ OutboxStatus.failed → max_attempts ≤ r.attempts)

-- An update that keeps the ids.
abbrev KeepsId : (PaymentOutboxOrmEntity → PaymentOutboxOrmEntity) → Type 0
KeepsId f = (r : PaymentOutboxOrmEntity) → (f r).id ≡ r.id

keep-update_row :
    (i j : ℕ) (f : PaymentOutboxOrmEntity → PaymentOutboxOrmEntity)
    (rows : List PaymentOutboxOrmEntity)
    → KeepsId f
    → i ≢ j
    → keep (has_id i) (map (update_row j f) rows) ≡ keep (has_id i) rows
keep-update_row i j f [] same ne = refl
keep-update_row i j f (r ∷ rows) same ne =
    ground (arith, keep-update_row i j f rows same ne, same r)

find-update_row :
    (i : ℕ) (f : PaymentOutboxOrmEntity → PaymentOutboxOrmEntity) (row : PaymentOutboxOrmEntity)
    (rows : List PaymentOutboxOrmEntity)
    → KeepsId f
    → find (has_id i) rows ≡ some row
    → find (has_id i) (map (update_row i f) rows) ≡ some (f row)
find-update_row i f row [] same h = cc
find-update_row i f row (r ∷ rows) same h =
    ground (arith, find-update_row i f row rows same, same r)

All-update_row :
    (i : ℕ) (f : PaymentOutboxOrmEntity → PaymentOutboxOrmEntity)
    (rows : List PaymentOutboxOrmEntity)
    → ((r : PaymentOutboxOrmEntity) → IsWithinAttempts (f r))
    → All IsWithinAttempts rows
    → All IsWithinAttempts (map (update_row i f) rows)
All-update_row i f [] good h = tt
All-update_row i f (r ∷ rows) good (p, h) = (
  elim (Bool-cases (has_id i r)) [ inl here ↦ rw here (good r) | inr away ↦ rw away p ],
  All-update_row i f rows good h,
)

failed_row-IsWithinAttempts :
    (n : ℕ) (r : PaymentOutboxOrmEntity) → IsWithinAttempts (failed_row n max_attempts r)
failed_row-IsWithinAttempts n r = ground arith

published_row-IsWithinAttempts :
    (now : ℕ) (r : PaymentOutboxOrmEntity) → IsWithinAttempts (published_row now r)
published_row-IsWithinAttempts now r = (λ e. cc, λ e. cc)

find-keep :
    (i : ℕ) (row : PaymentOutboxOrmEntity) (rows : List PaymentOutboxOrmEntity)
    → find (has_id i) rows ≡ some row
    → take 1 (keep (has_id i) rows) ≡ row ∷ []
find-keep i row [] h = cc
find-keep i row (r ∷ rows) h = ground (arith, find-keep i row rows)

any-find :
    (i : ℕ) (row : PaymentOutboxOrmEntity) (rows : List PaymentOutboxOrmEntity)
    → find (has_id i) rows ≡ some row
    → any (has_id i) rows ≡ true
any-find i row [] h = cc
any-find i row (r ∷ rows) h = ground (arith, any-find i row rows)

module _ (base : Database) where
  open base use {Db, outbox, select_outbox, update_outbox}

  -- What a call about the row `id` may do to the table: nothing, or one update of that row that
  -- keeps the ids and leaves the row within its attempts.
  pub data Updates (id : Option ℕ) (db db' : Db) : Type 0 where
    unchanged : outbox db' ≡ outbox db → Updates id db db'
    updated :
        (j : ℕ) (f : PaymentOutboxOrmEntity → PaymentOutboxOrmEntity)
        → id ≡ some j
        → KeepsId f
        → ((r : PaymentOutboxOrmEntity) → IsWithinAttempts (f r))
        → outbox db' ≡ map (update_row j f) (outbox db)
        → Updates id db db'

  pub Updates-IsWithinAttempts :
      (id : Option ℕ) (db db' : Db)
      → Updates id db db'
      → All IsWithinAttempts (outbox db)
      → All IsWithinAttempts (outbox db')
  Updates-IsWithinAttempts id db db' (unchanged e) h = rw e h
  Updates-IsWithinAttempts id db db' (updated j f _ _ good e) h =
      rw e (All-update_row j f (outbox db) good h)

  pub Updates-others :
      (id : Option ℕ) (i : ℕ) (db db' : Db)
      → Updates id db db'
      → id ≢ some i
      → keep (has_id i) (outbox db') ≡ keep (has_id i) (outbox db)
  Updates-others id i db db' (unchanged e) ne = rw e
  Updates-others id i db db' (updated j f at same _ e) ne =
      rw e (keep-update_row i j f (outbox db) same (λ c. ne (at ∙ ap some (sym c))))

  update_by_id-Updates :
      (id : Option ℕ) (f : PaymentOutboxOrmEntity → PaymentOutboxOrmEntity) (db : Db)
      → KeepsId f
      → ((r : PaymentOutboxOrmEntity) → IsWithinAttempts (f r))
      → Updates id db (update_by_id base id f db).1
  unfolding update_by_id
  update_by_id-Updates none f db same good = unchanged refl
  update_by_id-Updates (some j) f db same good = elim (Result-cases (update_outbox j f db).0) [
    | inl (affected, e) ↦
        let end : (update_by_id base (some j) f db).1 ≡ (update_outbox j f db).1 = ground arith in
        updated j f refl same good (ap outbox end ∙ (base.update_outbox-ok j f affected db e).0)
    | inr (x, e) ↦
        let end : (update_by_id base (some j) f db).1 ≡ (update_outbox j f db).1 = ground arith in
        unchanged (ap outbox (end ∙ base.update_outbox-err j f x db e))
  ]

  pub mark_published-Updates :
      (now : ℕ) (id : Option ℕ) (db : Db) → Updates id db (mark_published base now id db).1
  unfolding mark_published
  mark_published-Updates now id db =
      update_by_id-Updates id (published_row now) db (λ r. refl)
        (published_row-IsWithinAttempts now)

  find_row-state : (id : Option ℕ) (db : Db) → (find_row base id db).1 ≡ db
  unfolding find_row
  find_row-state none db = refl
  find_row-state (some i) db = base.select_outbox-state (has_id i) 1 db

  mark_row-Updates :
      (id : Option ℕ) (rows : List PaymentOutboxOrmEntity) (db : Db)
      → Updates id db (mark_row base id max_attempts rows db).1
  unfolding mark_row
  mark_row-Updates id [] db = unchanged refl
  mark_row-Updates id (r ∷ rows) db =
      update_by_id-Updates id (failed_row (r.attempts + 1) max_attempts) db (λ r. refl)
        (failed_row-IsWithinAttempts (r.attempts + 1))

  pub mark_failed_attempt-Updates :
      (id : Option ℕ) (db : Db) → Updates id db (mark_failed_attempt base id max_attempts db).1
  unfolding mark_failed_attempt
  mark_failed_attempt-Updates id db = elim (Result-cases (find_row base id db).0) [
    | inr (x, e) ↦
        let end : (mark_failed_attempt base id max_attempts db).1 ≡ (find_row base id db).1 =
          ground arith in
        unchanged (ap outbox (end ∙ find_row-state id db))
    | inl (rows, e) ↦
        let end : (mark_failed_attempt base id max_attempts db).1
            ≡ (mark_row base id max_attempts rows db).1 =
          ground (arith, find_row-state id db) in
        rw end (mark_row-Updates id rows db)
  ]

  -- The row of an id after an update that did not throw.
  update_by_id-find :
      (i : ℕ) (f : PaymentOutboxOrmEntity → PaymentOutboxOrmEntity) (row : PaymentOutboxOrmEntity)
      (u : ⊤) (db : Db)
      → KeepsId f
      → find (has_id i) (outbox db) ≡ some row
      → (update_by_id base (some i) f db).0 ≡ ok u
      → find (has_id i) (outbox (update_by_id base (some i) f db).1) ≡ some (f row)
  unfolding update_by_id
  update_by_id-find i f row u db same h e = elim (Result-cases (update_outbox i f db).0) [
    | inr (x, thrown) ↦ absurd (ground arith)
    | inl (affected, done) ↦
        let end : (update_by_id base (some i) f db).1 ≡ (update_outbox i f db).1 = ground arith in
        rw (end, (base.update_outbox-ok i f affected db done).0)
          (find-update_row i f row (outbox db) same h)
  ]

  pub mark_published-find :
      (now i : ℕ) (row : PaymentOutboxOrmEntity) (u : ⊤) (db : Db)
      → find (has_id i) (outbox db) ≡ some row
      → (mark_published base now (some i) db).0 ≡ ok u
      → find (has_id i) (outbox (mark_published base now (some i) db).1)
        ≡ some (published_row now row)
  unfolding mark_published
  mark_published-find now i row u db h e =
      update_by_id-find i (published_row now) row u db (λ r. refl) h e

  pub mark_failed_attempt-find :
      (i : ℕ) (row : PaymentOutboxOrmEntity) (u : ⊤) (db : Db)
      → find (has_id i) (outbox db) ≡ some row
      → (mark_failed_attempt base (some i) max_attempts db).0 ≡ ok u
      → find (has_id i) (outbox (mark_failed_attempt base (some i) max_attempts db).1)
        ≡ some (failed_row (row.attempts + 1) max_attempts row)
  unfolding mark_failed_attempt find_row mark_row
  mark_failed_attempt-find i row u db h e = elim (Result-cases (select_outbox (has_id i) 1 db).0) [
    | inr (x, thrown) ↦ absurd (ground arith)
    | inl (rows, got) ↦
        let one : rows ≡ row ∷ [] =
          base.select_outbox-ok (has_id i) 1 rows db got ∙ find-keep i row (outbox db) h in
        let change = failed_row (row.attempts + 1) max_attempts in
        let end : mark_failed_attempt base (some i) max_attempts db
            ≡ update_by_id base (some i) change db =
          ground (arith, base.select_outbox-state (has_id i) 1 db) in
        rw end (update_by_id-find i change row u db (λ r. refl) h (ap (λ r. r.0) (sym end) ∙ e))
  ]

  -- An update of a row that is there throws only if the database does, and then changes nothing.
  pub mark_published-err :
      (now i : ℕ) (row : PaymentOutboxOrmEntity) (x : PaymentError) (db : Db)
      → find (has_id i) (outbox db) ≡ some row
      → (mark_published base now (some i) db).0 ≡ err x
      → (mark_published base now (some i) db).1 ≡ db
  unfolding mark_published update_by_id
  mark_published-err now i row x db h e =
      let write = update_outbox i (published_row now) db in
      elim (Result-cases write.0) [
        | inr (y, thrown) ↦
            let kept : write.1 ≡ db = base.update_outbox-err i (published_row now) y db thrown in
            ground arith
        | inl (affected, done) ↦
            let hit : affected ≡ true =
              (base.update_outbox-ok i (published_row now) affected db done).1
              ∙ any-find i row (outbox db) h in
            absurd (ground arith)
      ]
