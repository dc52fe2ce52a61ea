-- ===== src/Qa/Agentic/Answers.antt =====
-- How the agentic loop ends: within its budget, with one masked answer.
use native.Mathlib.Numerals.{add-one}
use public_nest_server.Base.{
  or_else, ℕ, zero, suc, ◌+◌, ◌-◌, ◌≤◌, ◌<◌, ◌≡◌, ◌≢◌, refl, sym, ap, ◌∙◌, List, [], ◌∷◌, ◌++◌,
  String, Bool, true, false, Result, ok, err, ◌==◌, ⊤, inl, inr, Result-cases, Bool-cases, arith,
  if◌then◌else◌,
}
use public_nest_server.Qa.Budget.{IterationBudget, is_exhausted, Critique, is_satisfied, refine}
use public_nest_server.Qa.Chunks.{SimilaritySearchResult}
use public_nest_server.Qa.Agentic.{
  AgenticAskCommand, Services, thrown, out_of_fuel, Asked, ended, preceded, awaiting, answer,
  tokens_of, judge, sources, round, rounds_from, execute_agentic,
}

not_exhausted :
    (budget : IterationBudget) (i used elapsed : ℕ)
    → is_exhausted budget i used elapsed ≡ false
    → i < budget.max_iterations
unfolding is_exhausted
not_exhausted budget i used elapsed h = ground arith

module _ (services : Services) (command : AgenticAskCommand) where
  open services use {State, Failure}

  -- The search and the answer of one round.
  pub record Attempt (i : ℕ) (query : String) (s : State) (chunks : List SimilaritySearchResult)
      (raw : String) (answered_at : State) : Type 0 where
    pub found_at : State
    pub found :
        services.hybrid_search query command.top_k (if i == 0 then command.use_hyde else true) s
        ≡ (ok chunks, found_at)
    pub answered : answer services command chunks found_at ≡ (ok raw, answered_at)

  abbrev is_final : ℕ → ℕ → ℕ → String → State → Bool
  is_final start_time i used raw s =
      is_exhausted command.budget (i + 1) (used + tokens_of services raw)
        (services.now s - start_time)

  abbrev critique_of :
      List SimilaritySearchResult → String → State → Result Failure Critique × State
  critique_of chunks raw s =
      services.generate_critique command.question raw chunks (or_else command.tenant "default") s

  -- The rounds from one on, with a query and the tokens that were used before, up to the last, whose
  -- answer is given out: because the budget is then used up, or because the critique of this very
  -- answer is satisfied. Each round before it had some budget left and a critique that was not
  -- satisfied, from which the next query is made.
  pub data Run (start_time : ℕ)
      : ℕ → String → ℕ → State → List SimilaritySearchResult → ℕ → String → Type 0 where
    used_up :
        {i used : ℕ} {query raw : String} {s answered_at : State}
        {chunks : List SimilaritySearchResult}
        → Attempt i query s chunks raw answered_at
        → is_final start_time i used raw answered_at ≡ true
        → Run start_time i query used s chunks i raw
    satisfied :
        {i used : ℕ} {query raw : String} {s answered_at judged_at : State}
        {chunks : List SimilaritySearchResult} {critique : Critique}
        → Attempt i query s chunks raw answered_at
        → is_final start_time i used raw answered_at ≡ false
        → critique_of chunks raw answered_at ≡ (ok critique, judged_at)
        → is_satisfied command.confidence_threshold critique ≡ true
        → Run start_time i query used s chunks i raw
    again :
        {i used last : ℕ} {query raw final : String} {s answered_at judged_at : State}
        {chunks later : List SimilaritySearchResult} {critique : Critique}
        → Attempt i query s chunks raw answered_at
        → is_final start_time i used raw answered_at ≡ false
        → critique_of chunks raw answered_at ≡ (ok critique, judged_at)
        → is_satisfied command.confidence_threshold critique ≡ false
        → Run start_time
            (i + 1)
            (refine command.question critique)
            (used + tokens_of services raw)
            judged_at
            later
            last
            final
        → Run start_time i query used s chunks last final

  -- How one round may end.
  data Round (start_time i : ℕ) (query : String) (used : ℕ) (s : State)
      (next : ℕ → String → State → Asked services) (out : Asked services) : Type 0 where
    finishes :
        (chunks : List SimilaritySearchResult) (raw : String)
        → out.yields ≡ sources services i chunks ++ services.mask raw ∷ []
        → out.result ≡ ok tt
        → Run start_time i query used s chunks i raw
        → Round start_time i query used s next out
    throws : (e : Failure) → out.result ≡ err (thrown e) → Round start_time i query used s next out
    goes_on :
        (chunks : List SimilaritySearchResult) (now_used : ℕ) (refined : String) (judged_at : State)
        → i + 1 < command.budget.max_iterations
        → ((later : List SimilaritySearchResult) (last : ℕ) (final : String)
            → Run start_time (i + 1) refined now_used judged_at later last final
            → Run start_time i query used s chunks last final)
        → out ≡ preceded services (sources services i chunks) (next now_used refined judged_at)
        → Round start_time i query used s next out

  judge-Round :
      (start_time i : ℕ) (query : String) (used : ℕ) (s at : State)
      (chunks : List SimilaritySearchResult) (raw : String)
      (next : ℕ → String → State → Asked services)
      → Attempt i query s chunks raw at
      → let now_used = used + tokens_of services raw in
        Round start_time i query used s next (
          preceded services
            (sources services i chunks)
            (judge services command start_time i now_used chunks raw at (next now_used)))
  unfolding judge awaiting preceded ended
  judge-Round start_time i query used s at chunks raw next attempt =
      let now_used : ℕ = used + tokens_of services raw in
      elim (Bool-cases (is_final start_time i used raw at)) [
        | inl over ↦ finishes chunks raw (ground arith) (ground arith) (used_up attempt over)
        | inr left ↦
            let more : i + 1 < command.budget.max_iterations =
              not_exhausted command.budget (i + 1) now_used (services.now at - start_time) left in
            let critic = critique_of chunks raw at in
            elim (Result-cases critic.0) [
              | inr (x, e) ↦ throws x (ground arith)
              | inl (critique, e) ↦
                  let judged : critic ≡ (ok critique, critic.1) = ap (λ r. (r, critic.1)) e in
                  elim (Bool-cases (is_satisfied command.confidence_threshold critique)) [
                    | inl content ↦
                        finishes chunks raw (ground arith) (ground arith)
                          (satisfied attempt left judged content)
                    | inr wanting ↦
                        goes_on chunks now_used (refine command.question critique) critic.1 more
                          (λ later last final run. again attempt left judged wanting run)
                          (ground arith)
                  ]
            ]
      ]

  round-Round :
      (start_time i : ℕ) (query : String) (used : ℕ) (s : State)
      (next : ℕ → String → State → Asked services)
      → Round start_time i query used s next (round services command start_time i query used s next)
  unfolding round awaiting preceded ended
  round-Round start_time i query used s next =
      let search =
        services.hybrid_search query command.top_k (if i == 0 then command.use_hyde else true) s in
      elim (Result-cases search.0) [
        | inr (x, e) ↦ throws x (ground arith)
        | inl (chunks, e) ↦
            let answering = answer services command chunks search.1 in
            elim (Result-cases answering.0) [
              | inr (x, e₂) ↦ throws x (ground arith)
              | inl (raw, e₂) ↦
                  let now_used : ℕ = used + tokens_of services raw in
                  let end : round services command start_time i query used s next
                      ≡ preceded services (sources services i chunks) (
                          judge services command start_time i now_used chunks raw answering.1
                            (next now_used)) =
                    ground arith in
                  let attempt : Attempt i query s chunks raw answering.1 = record {
                    found_at = search.1;
                    found = ap (λ r. (r, search.1)) e;
                    answered = ap (λ r. (r, answering.1)) e₂;
                  } in
                  rw end (judge-Round start_time i query used s answering.1 chunks raw next attempt)
            ]
      ]

  -- What the client has got from a loop that ended without an exception.
  pub record IsAnswer (start_time first : ℕ) (query : String) (used : ℕ) (s : State)
      (out : Asked services) : Type 0 where
    -- the chunks of the first search, and the answer that was given out after `last + 1` rounds
    pub chunks : List SimilaritySearchResult
    pub raw : String
    pub yields : out.yields ≡ sources services first chunks ++ services.mask raw ∷ []
    pub last : ℕ
    pub in_budget : last < command.budget.max_iterations
    pub run : Run start_time first query used s chunks last raw

  sources-suc :
      (i : ℕ) (chunks : List SimilaritySearchResult) → sources services (i + 1) chunks ≡ []
  sources-suc i chunks = rw add-one refl

  rounds_from-IsAnswer :
      (fuel start_time i : ℕ) (query : String) (used : ℕ) (u : ⊤) (s : State)
      → i < command.budget.max_iterations
      → (rounds_from services fuel command start_time i query used s).result ≡ ok u
      → IsAnswer start_time i query used s
          (rounds_from services fuel command start_time i query used s)
  unfolding rounds_from ended preceded
  rounds_from-IsAnswer zero start_time i query used u s below h = absurd (ground arith)
  rounds_from-IsAnswer (suc fuel) start_time i query used u s below h =
      let next : ℕ → String → State → Asked services =
        λ used query s'. rounds_from services fuel command start_time (i + 1) query used s' in
      elim (round-Round start_time i query used s next) [
        | throws e r ↦ absurd (ground arith)
        | finishes chunks raw yields r run ↦ record {
          chunks = chunks;
          raw = raw;
          yields = yields;
          last = i;
          in_budget = below;
          run = run;
        }
        | goes_on chunks used' query' s' more step end ↦
            let a =
              rounds_from-IsAnswer fuel start_time (i + 1) query' used' u s' more
                (ap (λ o. o.result) (sym end) ∙ h) in
            record {
              chunks = chunks;
              raw = a.raw;
              yields =
                  ap (λ o. o.yields) end
                  ∙ ap (λ l. sources services i chunks ++ l)
                      (a.yields ∙ ap (λ l. l ++ services.mask a.raw ∷ []) (sources-suc i a.chunks));
              last = a.last;
              in_budget = a.in_budget;
              run = step a.chunks a.last a.raw a.run;
            }
      ]

  rounds_from_ends :
      (fuel start_time i : ℕ) (query : String) (used : ℕ) (s : State)
      → i < command.budget.max_iterations
      → command.budget.max_iterations ≤ i + fuel
      → (rounds_from services fuel command start_time i query used s).result ≢ err out_of_fuel
  unfolding rounds_from ended preceded
  rounds_from_ends zero start_time i query used s below enough = absurd (omega arith)
  rounds_from_ends (suc fuel) start_time i query used s below enough =
      let next : ℕ → String → State → Asked services =
        λ used query s'. rounds_from services fuel command start_time (i + 1) query used s' in
      elim (round-Round start_time i query used s next) [
        | throws e r ↦ λ h. ground arith
        | finishes chunks raw yields r run ↦ λ h. ground arith
        | goes_on chunks used' query' s' more step end ↦ λ h.
            rounds_from_ends fuel start_time (i + 1) query' used' s' more (omega arith)
              (ap (λ o. o.result) (sym end) ∙ h)
      ]

  -- With a budget of at least one round the loop ends, by an answer or by an exception, within as
  -- many rounds as the budget allows.
  pub execute_agentic_ends :
      (s : State)
      → 0 < command.budget.max_iterations
      → (execute_agentic services command s).result ≢ err out_of_fuel
  unfolding execute_agentic
  execute_agentic_ends s some_rounds =
      rounds_from_ends command.budget.max_iterations (services.now s) 0 command.question 0 s
        some_rounds (omega arith)

  -- A question that is answered without an exception gets, after the sources of the first search if
  -- it found any, exactly one answer, masked: that of the last round, with which the critique of
  -- this answer was satisfied, or after which the budget was used up by the rounds, the tokens of
  -- all answers or the time. Every round before it had budget left and a critique that was not
  -- satisfied, from which the next query was made.
  pub execute_agentic-IsAnswer :
      (u : ⊤) (s : State)
      → 0 < command.budget.max_iterations
      → (execute_agentic services command s).result ≡ ok u
      → IsAnswer (services.now s) 0 command.question 0 s (execute_agentic services command s)
  unfolding execute_agentic
  execute_agentic-IsAnswer u s some_rounds h =
      rounds_from-IsAnswer command.budget.max_iterations (services.now s) 0 command.question 0 u s
        some_rounds h
