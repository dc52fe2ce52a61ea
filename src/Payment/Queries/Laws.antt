-- ===== src/Payment/Queries/Laws.antt =====
-- What the queries of payments show, and to whom.
use native.Mathlib.Nat.{mul-le-mul_right}
use public_nest_server.Base.{
  ℕ, suc, ◌-◌, ◌*◌, ◌≤◌, ◌<◌, ◌≡◌, ◌≢◌, refl, ap, ◌∙◌, Option, none, some, List, [], ◌∷◌, map, ltb,
  ℤ, pos, negsuc, ok, Result-cases, Bool-cases, inl, inr, arith, All, length,
}
use public_nest_server.Payment.Model.{Payment, money_of, restore}
use public_nest_server.Payment.Database.{Database, PaymentOrmEntity}
use public_nest_server.Payment.Repository.{to_domain, row_to_domain, find_payment_by_id}
use public_nest_server.Payment.Queries.{
  GetPaymentRequest, ListPaymentsRequest, PaymentReply, ListPaymentsResponse, to_reply, positive_or,
  ceil_div, at_least_one, to_domain_all, find_payments_by_user_id, reply_to_owner, get_payment,
  page_of_replies, list_payments,
}

to_domain-fields :
    (row : PaymentOrmEntity) (p : Payment)
    → to_domain row ≡ ok p
    → (p.user_id ≡ row.user_id) × (p.id ≡ row.id)
unfolding to_domain restore
to_domain-fields row p h = elim (Result-cases (money_of row.amount row.currency)) [
  | inl (m, e) ↦ (ground arith, ground arith)
  | inr (x, e) ↦ absurd (ground arith)
]

-- Every reply is of one account.
abbrev pub OwnedBy : ℕ → List PaymentReply → Type 0
OwnedBy account replies = All (λ r. r.account_id ≡ account) replies

to_domain_all-OwnedBy :
    (account : ℕ) (rows : List PaymentOrmEntity) (ps : List Payment)
    → to_domain_all rows ≡ ok ps
    → All (λ r. r.user_id ≡ account) rows
    → OwnedBy account (map to_reply ps) × (length (map to_reply ps) ≡ length rows)
unfolding to_domain_all to_reply
to_domain_all-OwnedBy account [] [] h owned = (tt, refl)
to_domain_all-OwnedBy account [] (p ∷ ps) h owned = cc
to_domain_all-OwnedBy account (row ∷ rows) ps h (first, owned) =
    elim (Result-cases (to_domain row)) [
      | inr (x, e) ↦ absurd (ground arith)
      | inl (p, e) ↦ elim (Result-cases (to_domain_all rows)) [
        | inr (x, e₂) ↦ absurd (ground arith)
        | inl (qs, e₂) ↦
            let same : ps ≡ p ∷ qs = ground arith in
            let (all, count) = to_domain_all-OwnedBy account rows qs e₂ owned in
            rw same (((to_domain-fields row p e).0 ∙ first, all), ap suc count)
      ]
    ]

positive_or-pos : (d : ℕ) (n : ℤ) → 0 < d → 0 < positive_or d n
unfolding positive_or
positive_or-pos d (pos n) h = ground arith
positive_or-pos d (negsuc n) h = h

ceil_div-lt : (n d k : ℕ) → 0 < d → k < ceil_div n d → k * d < n
ceil_div-lt n d k some_d h =
    let more : suc k * d ≤ ceil_div n d * d = mul-le-mul_right d h in omega (arith, more)

lt-ceil_div : (n d k : ℕ) → 0 < d → k * d < n → k < ceil_div n d
lt-ceil_div n d k some_d h = elim (Bool-cases (ltb k (ceil_div n d))) [
  | inl more ↦ ground arith
  | inr few ↦
      let less : ceil_div n d * d ≤ k * d = mul-le-mul_right d (ground arith) in
      absurd (omega (arith, less))
]

-- A page number is below the number of pages exactly if there are items after the page.
ltb-ceil_div : (n d k : ℕ) → 0 < d → 0 < k → ltb k (at_least_one (ceil_div n d)) ≡ ltb (k * d) n
ltb-ceil_div n d k some_d some_k =
    ground (arith, ceil_div-lt n d k some_d, lt-ceil_div n d k some_d)

le-ceil_div : (n d : ℕ) → 0 < d → n ≤ at_least_one (ceil_div n d) * d
le-ceil_div n d some_d = elim (Bool-cases (ltb (at_least_one (ceil_div n d) * d) n)) [
  | inl short ↦
      let more : at_least_one (ceil_div n d) < ceil_div n d =
        lt-ceil_div n d (at_least_one (ceil_div n d)) some_d (ground arith) in
      absurd (ground arith)
  | inr covered ↦ ground arith
]

module _ (base : Database) where
  open base use {Db, find_payment, query_payment, query_payment-ok}

  -- The owner check tells nothing, where the database answers the query: a payment of another
  -- account is answered, by the same error, like a payment that is not there, and what is answered
  -- is a payment of the account that asks.
  pub get_payment_hides_others :
      (request : GetPaymentRequest) (row : PaymentOrmEntity) (p : Payment)
      (r r' : Option PaymentOrmEntity) (db without : Db)
      → find_payment request.payment_id db ≡ some row
      → to_domain row ≡ ok p
      → find_payment request.payment_id without ≡ none
      → query_payment request.payment_id db ≡ ok r
      → query_payment request.payment_id without ≡ ok r'
      → (p.user_id ≢ request.account_id
          → (get_payment base request db).0 ≡ (get_payment base request without).0)
        × ((reply : PaymentReply)
            → (get_payment base request db).0 ≡ ok reply
            → (reply.account_id ≡ request.account_id)
              × (reply.payment_id ≡ some request.payment_id))
  unfolding get_payment reply_to_owner find_payment_by_id row_to_domain to_reply
  get_payment_hides_others request row p r r' db without stored read missing answered answered' =
      let found : query_payment request.payment_id db ≡ ok (some row) =
        answered ∙ ap ok (query_payment-ok request.payment_id r db answered ∙ stored) in
      let absent : query_payment request.payment_id without ≡ ok none =
        answered' ∙ ap ok (query_payment-ok request.payment_id r' without answered' ∙ missing) in
      (
        λ other. ground arith,
        λ reply h.
            let (owner, id) = to_domain-fields row p read in
            let key = base.find_payment-key request.payment_id db row stored in
            (ground arith, ground arith),
      )

  -- A page of payments: its number and size are positive; it shows payments of the account that
  -- asks and at most `take` of them; `hasPreviousPage` says that it is not the first page and
  -- `hasNextPage` that there are payments after it.
  pub record IsPage (request : ListPaymentsRequest) (reply : ListPaymentsResponse) : Type 0 where
    pub page_pos : 0 < reply.page
    pub take_pos : 0 < reply.take
    pub owned : OwnedBy request.account_id reply.payments
    pub bounded : length reply.payments ≤ reply.take
    pub previous : reply.has_previous_page ≡ ltb 1 reply.page
    pub next : reply.has_next_page ≡ ltb (reply.page * reply.take) reply.item_count
    pub last : reply.item_count ≤ reply.page_count * reply.take

  -- A list of payments that does not throw is a page of the payments of the account that asks.
  pub list_payments-IsPage :
      (request : ListPaymentsRequest) (reply : ListPaymentsResponse) (db : Db)
      → (list_payments base request db).0 ≡ ok reply
      → IsPage request reply
  unfolding list_payments find_payments_by_user_id
  list_payments-IsPage request reply db h =
      let page : ℕ = positive_or 1 request.page in
      let limit : ℕ = positive_or 20 request.take in
      let read = base.select_of_user request.account_id limit ((page - 1) * limit) db in
      let page_pos : 0 < page = positive_or-pos 1 request.page (omega arith) in
      let take_pos : 0 < limit = positive_or-pos 20 request.take (omega arith) in
      elim (Result-cases read.0) [
        | inr (x, e) ↦ absurd (ground arith)
        | inl (found, e) ↦ elim (Result-cases (to_domain_all found.0)) [
          | inr (x, e₂) ↦ absurd (ground arith)
          | inl (ps, e₂) ↦
              let end : reply ≡ page_of_replies base page limit (ps, found.1) = ground arith in
              let (owned, bounded) =
                base.select_of_user-ok request.account_id limit ((page - 1) * limit) found.1 found.0
                  db e in
              let (all, count) = to_domain_all-OwnedBy request.account_id found.0 ps e₂ owned in
              rw end record {
                page_pos = page_pos;
                take_pos = take_pos;
                owned = all;
                bounded = rw count bounded;
                previous = refl;
                next = ltb-ceil_div found.1 limit page take_pos page_pos;
                last = le-ceil_div found.1 limit take_pos;
              }
        ]
      ]
