-- ===== src/Payment/Retry/Laws.antt =====
-- What `retryWithBackoff` does, told without its loop: the runs of a call that is tried again, and
-- how long it sleeps in all.
use public_nest_server.Base.{
  ℕ, zero, suc, ◌+◌, ◌*◌, ◌-◌, ◌^◌, ◌≤◌, ◌<◌, ◌≡◌, refl, sym, ap, ◌∙◌, Option, none, some, Result,
  ok, err, Action, Result-cases, inl, inr, arith,
}
use native.Mathlib.Decide.{ℕ_discrete}
use native.Mathlib.Nat.{pow-suc, pow-le-pow_right}
use native.Mathlib.Numerals.{add-one}
use public_nest_server.Payment.Retry.{RetryOptions, retry_from, retry_with_backoff}

doubled_delay : (d k : ℕ) → 0 < k → d * 2 ^ (suc k - 1) ≡ d * 2 ^ (k - 1) + d * 2 ^ (k - 1)
doubled_delay d zero h = absurd (omega arith)
doubled_delay d (suc j) h =
    let e : 2 ^ (suc (suc j) - 1) ≡ 2 ^ (suc j - 1) * 2 =
      ap (λ i. 2 ^ i) (omega arith) ∙ pow-suc 2 j ∙ ap (λ i. 2 ^ i * 2) (omega arith) in
    rw e (omega arith)

longer_delay : (d k m : ℕ) → k ≤ m → d * 2 ^ (k - 1) ≤ d * 2 ^ (m - 1)
longer_delay d k m h =
    let p : 2 ^ (k - 1) ≤ 2 ^ (m - 1) = pow-le-pow_right (omega arith) (omega arith) in grind arith

module _ {E S A : Type 0} (fn : Action E S A) (sleep : ℕ → S → S) (options : RetryOptions) where
  -- `Attempts k s r s'`: from the state `s` on, with the `k`-th attempt to come, the attempts end
  -- with the result `r` in the state `s'`.
  pub data Attempts : ℕ → S → Result (Option E) A → S → Type 0 where
    succeeds : {k : ℕ} {s s' : S} (a : A) → fn s ≡ (ok a, s') → Attempts k s (ok a) s'
    gives_up :
        {k : ℕ} {s s' : S} (e : E)
        → k ≡ options.max_attempts
        → fn s ≡ (err e, s')
        → Attempts k s (err (some e)) s'
    tries_again :
        {k : ℕ} {s s' s'' : S} {r : Result (Option E) A} (e : E)
        → k < options.max_attempts
        → fn s ≡ (err e, s')
        → Attempts (suc k) (sleep (options.base_delay_ms * 2 ^ (k - 1)) s') r s''
        → Attempts k s r s''

  retry_from-Attempts :
      (rounds k : ℕ) (last : Option E) (s : S)
      → k + rounds ≡ suc options.max_attempts
      → 0 < rounds
      → let (r, s') = retry_from fn sleep options rounds k last s in Attempts k s r s'
  unfolding retry_from
  retry_from-Attempts zero k last s total some_left = absurd (omega arith)
  retry_from-Attempts (suc rounds) k last s total some_left = elim (Result-cases (fn s).0) [
    | inl (a, e) ↦
        let end : retry_from fn sleep options (suc rounds) k last s ≡ (ok a, (fn s).1) =
          ground arith in
        rw end (succeeds a (ground arith))
    | inr (x, e) ↦ elim (ℕ_discrete k options.max_attempts) [
      | yes full ↦
          let end : retry_from fn sleep options (suc rounds) k last s ≡ (err (some x), (fn s).1) =
            ground arith in
          rw end (gives_up x full (ground arith))
      | no more ↦
          let next : S = sleep (options.base_delay_ms * 2 ^ (k - 1)) (fn s).1 in
          let end : retry_from fn sleep options (suc rounds) k last s
              ≡ retry_from fn sleep options rounds (k + 1) (some x) next =
            ground arith in
          rw (end, add-one)
            (tries_again x (omega arith) (ground arith)
              (retry_from-Attempts rounds (suc k) (some x) next (omega arith) (omega arith)))
    ]
  ]

  -- With at least one attempt allowed, `retryWithBackoff` runs as `Attempts` says: it calls the
  -- function until it succeeds and returns that value, sleeps base * 2^(k-1) after a failed k-th
  -- attempt that is not the last, and throws the error of the last attempt.
  pub retry_with_backoff-Attempts :
      (s : S)
      → 0 < options.max_attempts
      → Attempts 1 s
          (retry_with_backoff fn sleep options s).0
          (retry_with_backoff fn sleep options s).1
  unfolding retry_with_backoff
  retry_with_backoff-Attempts s h =
      retry_from-Attempts options.max_attempts 1 none s (omega arith) h

  -- A part of the state that neither the call nor the sleep touches is as it was.
  module _ {B : Type 0} (part : S → B) (fn_keeps : (s : S) → part (fn s).1 ≡ part s)
      (sleep_keeps : (d : ℕ) (s : S) → part (sleep d s) ≡ part s) where
    retry_from-keeps :
        (rounds k : ℕ) (last : Option E) (s : S)
        → part (retry_from fn sleep options rounds k last s).1 ≡ part s
    unfolding retry_from
    retry_from-keeps zero k last s = refl
    retry_from-keeps (suc rounds) k last s =
        let next : S = sleep (options.base_delay_ms * 2 ^ (k - 1)) (fn s).1 in
        let kept : part next ≡ part s = sleep_keeps _ (fn s).1 ∙ fn_keeps s in
        elim (Result-cases (fn s).0) [
          | inl (a, e) ↦ ground (arith, fn_keeps s)
          | inr (x, e) ↦ ground (arith, fn_keeps s, retry_from-keeps rounds (k + 1) (some x) next)
        ]

    pub retry_with_backoff-keeps : (s : S) → part (retry_with_backoff fn sleep options s).1 ≡ part s
    unfolding retry_with_backoff
    retry_with_backoff-keeps s = retry_from-keeps options.max_attempts 1 none s

  -- The time slept and the calls made, kept in the state by whoever counts them.
  module _ (slept calls : S → ℕ) (fn_sleeps : (s : S) → slept (fn s).1 ≡ slept s)
      (fn_calls : (s : S) → calls (fn s).1 ≡ calls s + 1)
      (sleep_sleeps : (d : ℕ) (s : S) → slept (sleep d s) ≡ slept s + d)
      (sleep_calls : (d : ℕ) (s : S) → calls (sleep d s) ≡ calls s) where
    -- What is true of the rest of a run whose `k`-th attempt is to come.
    abbrev pub Costs : ℕ → S → Result (Option E) A → S → Type 0
    Costs k s (ok a) s' =
        (calls s' + k ≤ calls s + options.max_attempts + 1)
        × (slept s' + options.base_delay_ms * 2 ^ (k - 1)
            ≤ slept s + options.base_delay_ms * 2 ^ (options.max_attempts - 1))
    Costs k s (err e) s' =
        (calls s' + k ≡ calls s + options.max_attempts + 1)
        × (slept s' + options.base_delay_ms * 2 ^ (k - 1)
            ≡ slept s + options.base_delay_ms * 2 ^ (options.max_attempts - 1))

    -- One more failed attempt and one more sleep in front of a run.
    Costs-again :
        (k : ℕ) (s next s' : S) (r : Result (Option E) A)
        → 0 < k
        → calls next ≡ calls s + 1
        → slept next ≡ slept s + options.base_delay_ms * 2 ^ (k - 1)
        → Costs (suc k) next r s'
        → Costs k s r s'
    Costs-again k s next s' (ok a) pos c t (m, n) =
        (omega arith, omega (arith, n, t, doubled_delay options.base_delay_ms k pos))
    Costs-again k s next s' (err e) pos c t (m, n) =
        (omega arith, omega (arith, n, t, doubled_delay options.base_delay_ms k pos))

    Attempts-Costs :
        {k : ℕ} {s s' : S} {r : Result (Option E) A}
        → Attempts k s r s'
        → 0 < k
        → k ≤ options.max_attempts
        → Costs k s r s'
    Attempts-Costs {k} {s} (succeeds {s' = s'} a e) pos le =
        let c : calls s' ≡ calls s + 1 = ap (λ r. calls r.1) (sym e) ∙ fn_calls s in
        let t : slept s' ≡ slept s = ap (λ r. slept r.1) (sym e) ∙ fn_sleeps s in
        (
          omega arith,
          omega (arith, t, longer_delay options.base_delay_ms k options.max_attempts le),
        )
    Attempts-Costs {k} {s} (gives_up {s' = s'} x full e) pos le =
        let c : calls s' ≡ calls s + 1 = ap (λ r. calls r.1) (sym e) ∙ fn_calls s in
        let t : slept s' ≡ slept s = ap (λ r. slept r.1) (sym e) ∙ fn_sleeps s in
        (omega arith, rw (full, t))
    Attempts-Costs {k} {s} {s'} {r} (tries_again {s' = mid} x more e rest) pos le =
        let delay : ℕ = options.base_delay_ms * 2 ^ (k - 1) in
        let c : calls mid ≡ calls s + 1 = ap (λ r. calls r.1) (sym e) ∙ fn_calls s in
        let t : slept mid ≡ slept s = ap (λ r. slept r.1) (sym e) ∙ fn_sleeps s in
        Costs-again k s (sleep delay mid) s' r pos (sleep_calls delay mid ∙ c)
          (sleep_sleeps delay mid ∙ ap (λ n. n + delay) t) (Attempts-Costs rest (omega arith) more)

    -- With at least one attempt allowed, `retryWithBackoff` makes at most maxAttempts calls and
    -- sleeps at most base * (2^(maxAttempts - 1) - 1) in all; both bounds are met when it throws.
    pub retry_with_backoff-Costs :
        (s : S)
        → 0 < options.max_attempts
        → let (r, s') = retry_with_backoff fn sleep options s in Costs 1 s r s'
    retry_with_backoff-Costs s h = Attempts-Costs (retry_with_backoff-Attempts s h) (omega arith) h
