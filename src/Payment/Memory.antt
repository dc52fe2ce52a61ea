-- ===== src/Payment/Memory.antt =====
-- A database and a store that are kept in memory and never fail: values of the parameters that
-- meet all of their laws, for the tests.
use mathlib.Core.Path.{subst}
use public_nest_server.Base.{
  ℕ, zero, suc, ◌+◌, ◌≤◌, ◌<◌, ◌≡◌, refl, sym, ap, Option, none, some, List, [], ◌∷◌, ◌++◌, String,
  Bool, true, false, not, ◌&&◌, is_some, or_else, Result, ok, err, Action, arith, keep, take, drop,
  find, any, map, length, All, All-take, length-take-le, text_eq, if◌then◌else◌, ⊤, inl, inr,
  Option-cases, ==_refl, ◌==◌,
}
use public_nest_server.Payment.Model.{PaymentError}
use public_nest_server.Payment.Database.{
  Database, PaymentOrmEntity, PaymentOutboxOrmEntity, IsSaved, id_is, has_id, update_row,
  without_id,
}
use public_nest_server.Payment.Cache.{Redis}

pub record Tables : Type 0 where
  pub rows : List PaymentOrmEntity
  pub events : List PaymentOutboxOrmEntity

abbrev row_has_id : ℕ → PaymentOrmEntity → Bool
row_has_id i r = id_is i r.id

abbrev lookup : ℕ → Tables → Option PaymentOrmEntity
lookup i t = find (row_has_id i) t.rows

-- a number above every id
abbrev above : List PaymentOrmEntity → ℕ
above [] = 1
above (r ∷ rows) = or_else r.id 0 + above rows

abbrev key_of : PaymentOrmEntity → Tables → ℕ
key_of e t = or_else e.id (above t.rows)

abbrev row_of : PaymentOrmEntity → Tables → PaymentOrmEntity
row_of e t = record e { id = some (key_of e t); created_at = some 0 }

abbrev save_row : PaymentOrmEntity → Action PaymentError Tables PaymentOrmEntity
save_row e t = (ok (row_of e t), record t { rows = row_of e t ∷ t.rows })

abbrev number : ℕ → List PaymentOutboxOrmEntity → List PaymentOutboxOrmEntity
number n [] = []
number n (e ∷ events) = record e { id = some n } ∷ number (suc n) events

abbrev append_events : List PaymentOutboxOrmEntity → Action PaymentError Tables ⊤
append_events l t = (ok tt, record t { events = t.events ++ number (suc (length t.events)) l })

abbrev or_roll_back :
    {A : Type 0} → Tables → Result PaymentError A × Tables → Result PaymentError A × Tables
or_roll_back t (ok a, t') = (ok a, t')
or_roll_back t (err x, t') = (err x, t)

abbrev of_user : ℕ → List PaymentOrmEntity → List PaymentOrmEntity
of_user user rows = keep (λ r. r.user_id == user) rows

pub lookup-key :
    (i : ℕ) (rows : List PaymentOrmEntity) (row : PaymentOrmEntity)
    → find (row_has_id i) rows ≡ some row
    → row.id ≡ some i
lookup-key i [] row h = cc
lookup-key i (r ∷ rows) row h = elim (Option-cases r.id) [
  | inl e ↦ ground (arith, lookup-key i rows row)
  | inr (j, e) ↦ ground (arith, lookup-key i rows row)
]

above_pos : (rows : List PaymentOrmEntity) → 0 < above rows
above_pos [] = omega arith
above_pos (r ∷ rows) = omega (arith, above_pos rows)

lookup-above :
    (n : ℕ) (rows : List PaymentOrmEntity) → above rows ≤ n → find (row_has_id n) rows ≡ none
lookup-above n [] h = refl
lookup-above n (r ∷ rows) h = elim (Option-cases r.id) [
  | inl e ↦ ground (arith, lookup-above n rows)
  | inr (j, e) ↦ ground (arith, lookup-above n rows, above_pos rows)
]

pub number-without_id :
    (n : ℕ) (l : List PaymentOutboxOrmEntity) → map without_id (number n l) ≡ map without_id l
number-without_id n [] = refl
number-without_id n (e ∷ l) = ap (λ t. without_id e ∷ t) (number-without_id (suc n) l)

pub save_row-IsSaved :
    (e : PaymentOrmEntity) (t : Tables)
    → IsSaved e (row_of e t) (λ i. lookup i t) (λ i. lookup i (save_row e t).1)
save_row-IsSaved e t = record {
  key = key_of e t;
  saved_key = refl;
  saved_columns = (refl, refl, refl, refl, refl, refl, refl);
  row = row_of e t;
  stored = ground (arith, ==_refl (key_of e t));
  row_key = refl;
  row_columns = (refl, refl, refl, refl, refl, refl, refl);
  others = λ i ne. ground arith;
  kept_key = λ i same. ground arith;
  new_key = λ new. rw new (lookup-above (above t.rows) t.rows (omega arith));
}

pub ok-injective : {A : Type 0} {a b : A} → ◌≡◌ {A = Result PaymentError A} (ok a) (ok b) → a ≡ b
ok-injective h = cc

pub never_err :
    {A : Type 0} (a : A) (x : PaymentError) → ◌≡◌ {A = Result PaymentError A} (ok a) (err x) → ⊥
never_err a x h = cc

pub ok-row :
    (a b : Option PaymentOrmEntity)
    → ◌≡◌ {A = Result PaymentError (Option PaymentOrmEntity)} (ok a) (ok b)
    → a ≡ b
ok-row a b h = cc

pub transaction-kept :
    {A : Type 0} (r : Result PaymentError A × Tables) (a : A) (t : Tables)
    → (or_roll_back t r).0 ≡ ok a
    → or_roll_back t r ≡ r
transaction-kept (ok b, t') a t h = refl
transaction-kept (err x, t') a t h = cc

pub transaction-undone :
    {A : Type 0} (r : Result PaymentError A × Tables) (x : PaymentError) (t : Tables)
    → (or_roll_back t r).0 ≡ err x
    → (or_roll_back t r).1 ≡ t
transaction-undone (ok b, t') x t h = cc
transaction-undone (err y, t') x t h = refl

of_user-All :
    (user : ℕ) (rows : List PaymentOrmEntity) → All (λ r. r.user_id ≡ user) (of_user user rows)
of_user-All user [] = tt
of_user-All user (r ∷ rows) = ground (arith, of_user-All user rows)

All-drop :
    (P : PaymentOrmEntity → Type 0) (n : ℕ) (rows : List PaymentOrmEntity)
    → All P rows
    → All P (drop n rows)
All-drop P zero rows h = h
All-drop P (suc n) [] h = tt
All-drop P (suc n) (r ∷ rows) (p, h) = All-drop P n rows h

pub select_of_user_sound :
    (user limit skip count : ℕ) (rows : List PaymentOrmEntity) (t : Tables)
    → ◌≡◌ {A = Result PaymentError (List PaymentOrmEntity × ℕ)}
        (ok (take limit (drop skip (of_user user t.rows)), length (of_user user t.rows)))
        (ok (rows, count))
    → All (λ r. r.user_id ≡ user) rows × (length rows ≤ limit)
select_of_user_sound user limit skip count rows t h =
    let same : take limit (drop skip (of_user user t.rows)) ≡ rows = cc in
    rw (← same) (
      All-take (λ r. r.user_id ≡ user) limit _
          (All-drop (λ r. r.user_id ≡ user) skip _ (of_user-All user t.rows)),
      length-take-le limit _,
    )

abbrev pub memory : Database
memory = record {
  Db = Tables;
  find_payment = lookup;
  outbox = λ t. t.events;
  query_payment = λ i t. ok (lookup i t);
  save_payment = save_row;
  save_outbox = append_events;
  transaction = λ {A} f t. or_roll_back t (f t);
  select_of_user = λ user limit skip t.
      (ok (take limit (drop skip (of_user user t.rows)), length (of_user user t.rows)), t);
  select_outbox = λ test limit t. (ok (take limit (keep test t.events)), t);
  update_outbox =
      λ i f t. (ok (any (has_id i) t.events), record t { events = map (update_row i f) t.events });
  query_payment-ok = λ i r t h. sym (ok-row (lookup i t) r h);
  find_payment-key = λ i t row h. lookup-key i t.rows row h;
  save_payment-ok = λ e e' t h.
      subst (λ x. IsSaved e x (λ i. lookup i t) (λ i. lookup i (save_row e t).1)) (ok-injective h)
        (save_row-IsSaved e t);
  save_payment-outbox = λ e t. refl;
  save_payment-err = λ e x t h. absurd (never_err _ x h);
  save_outbox-ok = λ l u t h. (number (suc (length t.events)) l, refl, number-without_id _ l);
  save_outbox-payments = λ l t i. refl;
  transaction-ok = λ {A} f a t h. transaction-kept (f t) a t h;
  transaction-err = λ {A} f x t h. transaction-undone (f t) x t h;
  select_of_user-state = λ user limit skip t. refl;
  select_of_user-ok =
      λ user limit skip count rows t h. select_of_user_sound user limit skip count rows t h;
  select_outbox-state = λ test limit t. refl;
  select_outbox-ok = λ test limit rows t h. sym (ok-injective h);
  update_outbox-ok = λ i f affected t h. (refl, sym (ok-injective h));
  update_outbox-payments = λ i j f t. refl;
  update_outbox-err = λ i f x t h. absurd (never_err _ x h);
}

-- A store as a list of keys and values.
module _ {V : Type 0} where
  abbrev find_value : String → List (String × V) → Option V
  find_value k [] = none
  find_value k ((j, v) ∷ s) = if text_eq j k then some v else find_value k s

  abbrev set_value : String → ℕ → V → Action PaymentError (List (String × V)) ⊤
  set_value k ttl v s = (ok tt, (k, v) ∷ s)

  abbrev claim_value : String → V → ℕ → Action PaymentError (List (String × V)) Bool
  claim_value k v ttl s = if is_some (find_value k s) then (ok false, s) else (ok true, (k, v) ∷ s)

  pub ok-value : (a b : Option V) → ◌≡◌ {A = Result PaymentError (Option V)} (ok a) (ok b) → a ≡ b
  ok-value a b h = cc

  pub claim_value-ok :
      (k j : String) (v : V) (ttl : ℕ) (reply : Bool) (s : List (String × V))
      → (claim_value k v ttl s).0 ≡ ok reply
      → (reply ≡ not (is_some (find_value k s)))
        × (find_value j (claim_value k v ttl s).1
            ≡ (if reply && text_eq k j then some v else find_value j s))
  claim_value-ok k j v ttl reply s h = (ground arith, ground arith)

  abbrev pub memory_store : Redis V
  memory_store = record {
    Store = List (String × V);
    content = find_value;
    get = λ k s. ok (find_value k s);
    setex = set_value;
    set_nx = claim_value;
    get-ok = λ k r s h. sym (ok-value (find_value k s) r h);
    setex-ok = λ k j ttl v u s h. refl;
    set_nx-ok = claim_value-ok;
  }
