-- ===== src/Qa/Budget.antt =====
-- IterationBudget and Critique (domain/vo/*.ts) and QueryRefinerService
-- (application/query-refiner.service.ts). A confidence is a whole number of millionths.
use Prim.Native.String
use public_nest_server.Base.{
  ℕ, List, [], ◌∷◌, String, Bool, not, ◌&&◌, ◌||◌, ltb, leb, Result, ok, err, is_blank, text_eq,
  if◌then◌else◌,
}

pub data BudgetError : Type 0 where
  max_iterations_out_of_range token_budget_not_positive timeout_not_positive : BudgetError

pub record IterationBudget : Type 0 where
  pub max_iterations : ℕ
  pub token_budget : ℕ
  pub timeout_ms : ℕ

-- `IterationBudget.of`, with `validate`
unfoldable pub budget_of : ℕ → ℕ → ℕ → Result BudgetError IterationBudget
budget_of max_iterations token_budget timeout_ms =
    if ltb max_iterations 1 || ltb 10 max_iterations
    then err max_iterations_out_of_range
    else (if leb token_budget 0
        then err token_budget_not_positive
        else (if leb timeout_ms 0
            then err timeout_not_positive
            else ok (record {
              max_iterations = max_iterations;
              token_budget = token_budget;
              timeout_ms = timeout_ms;
            })))

unfoldable pub is_exhausted : IterationBudget → ℕ → ℕ → ℕ → Bool
is_exhausted budget iterations_completed tokens_used elapsed_ms =
    leb budget.max_iterations iterations_completed
    || leb budget.token_budget tokens_used
    || leb budget.timeout_ms elapsed_ms

pub record Critique : Type 0 where
  pub answered : Bool
  pub missing : List String
  pub next_query : String
  pub confidence : ℕ

unfoldable pub is_satisfied : ℕ → Critique → Bool
is_satisfied threshold critique = critique.answered && leb threshold critique.confidence

-- `missing.join(', ')`
unfoldable pub join : String → List String → String
join separator [] = ""
join separator (s ∷ []) = s
join separator (s ∷ t ∷ rest) = String.◌++◌ s (String.◌++◌ separator (join separator (t ∷ rest)))

unfoldable pub refine : String → Critique → String
unfolding join
refine original_question critique =
    if not (text_eq critique.next_query "") && not (is_blank critique.next_query)
    then critique.next_query
    else elim critique.missing [
      | [] ↦ original_question
      | m ∷ missing ↦
          String.◌++◌ original_question
            (String.◌++◌ " (특히: " (String.◌++◌ (join ", " (m ∷ missing)) ")"))
    ]
