-- ===== src/Llm/Calls.antt =====
-- LlmGatewayService (application/llm-gateway.service.ts), TokenUsage (domain/vo/token-usage.vo.ts)
-- and CostTrackingService (application/cost-tracking.service.ts). Prices are whole numbers of some
-- unit for a million tokens; a cost is left as the number of millionths of that unit.
pub mod Accounts
use Prim.Native.String
use public_nest_server.Base.{
  ℕ, ◌+◌, ◌*◌, ◌/◌, Option, none, some, List, [], ◌∷◌, ◌++◌, String, Bool, true, false, not, leb,
  codes, text_eq, Result, ok, err, Action, ⊤, if◌then◌else◌, map,
}
use public_nest_server.Llm.Models.{is_in}
use public_nest_server.Llm.Routing.{resolve_chain}
use public_nest_server.Llm.Fallback.{
  LlmMessage, YieldedToken, Providers, FallbackError, Streamed, stream_with_fallback,
}

pub record GatewayCallCommand : Type 0 where
  pub feature : String
  pub tenant : String
  pub messages : List LlmMessage
  pub preferred_model : Option String

pub record TokenUsage : Type 0 where
  pub prompt_tokens : ℕ
  pub completion_tokens : ℕ

abbrev pub total : TokenUsage → ℕ
total usage = usage.prompt_tokens + usage.completion_tokens

pub record ModelCostEntry : Type 0 where
  pub prompt : ℕ
  pub completion : ℕ

-- `LlmCostLog`; the model is `undefined` if nothing was yielded and the chain is empty
pub record LlmCostLog : Type 0 where
  pub model : Option String
  pub feature : String
  pub tenant : String
  pub prompt_tokens : ℕ
  pub completion_tokens : ℕ
  pub cost_usd : ℕ
  pub fallback_used : Bool
  pub attempted_models : List String
  pub created_at : ℕ

-- `content.length`: the UTF-16 code units of a text
unfoldable pub utf16_length : List ℕ → ℕ
utf16_length [] = 0
utf16_length (c ∷ cs) = (if leb 65536 c then 2 else 1) + utf16_length cs

-- the sum of `Math.ceil(m.content.length / 4)`
unfoldable pub prompt_tokens_of : List LlmMessage → ℕ
unfolding utf16_length
prompt_tokens_of [] = 0
prompt_tokens_of (m ∷ messages) =
    (utf16_length (codes m.content) + 3) / 4 + prompt_tokens_of messages

-- `Set.add`
abbrev pub add_model : String → List String → List String
add_model m models = if is_in m models then models else models ++ m ∷ []

-- the variables of the loop
pub record Tally : Type 0 where
  pub used_model : Option String
  pub completion_tokens : ℕ
  pub attempted_models : List String

abbrev pub count_token : YieldedToken → Tally → Tally
count_token t tally = record {
  used_model = some t.model;
  completion_tokens = tally.completion_tokens + 1;
  attempted_models = add_model t.model tally.attempted_models;
}

-- `for await (const { token, model } of iter)`
unfoldable pub count_tokens : List YieldedToken → Tally → Tally
count_tokens [] tally = tally
count_tokens (t ∷ tokens) tally = count_tokens tokens (count_token t tally)

abbrev pub first_model : List String → Option String
first_model [] = none
first_model (m ∷ chain) = some m

-- `usedModel !== chain[0]`
abbrev pub same_model : Option String → Option String → Bool
same_model none none = true
same_model (some m) (some n) = text_eq m n
same_model _ _ = false

-- `calcCost`
unfoldable pub calc_cost : (String → Option ModelCostEntry) → Option String → TokenUsage → ℕ
calc_cost cost_table none usage = 0
calc_cost cost_table (some model) usage = elim (cost_table model) [
  | none ↦ 0
  | some entry ↦ usage.prompt_tokens * entry.prompt + usage.completion_tokens * entry.completion
]

module _ (providers : Providers) (cost_table : String → Option ModelCostEntry) {Logs : Type 0}
    (persist : LlmCostLog → Action providers.Failure Logs ⊤) where
  pub record GatewayState : Type 0 where
    pub state : providers.State
    pub logs : Logs

  pub record Called : Type 0 where
    pub tokens : List String
    pub result : Result (FallbackError providers.Failure) ⊤
    pub after : GatewayState

  -- `track`: an error of the repository is only logged
  unfoldable pub track : LlmCostLog → Logs → Logs
  track log logs = (persist log logs).1

  abbrev pub start : List String → Tally
  start chain = record {
    used_model = first_model chain;
    completion_tokens = 0;
    attempted_models = [];
  }

  -- what `stream` hands to `track`
  unfoldable pub log_of : ℕ → GatewayCallCommand → List String → List YieldedToken → LlmCostLog
  unfolding calc_cost prompt_tokens_of count_tokens
  log_of now command chain tokens =
      let tally = count_tokens tokens (start chain) in
      let usage : TokenUsage = record {
        prompt_tokens = prompt_tokens_of command.messages;
        completion_tokens = tally.completion_tokens;
      } in
      record {
        model = tally.used_model;
        feature = command.feature;
        tenant = command.tenant;
        prompt_tokens = usage.prompt_tokens;
        completion_tokens = usage.completion_tokens;
        cost_usd = calc_cost cost_table tally.used_model usage;
        fallback_used = not (same_model tally.used_model (first_model chain));
        attempted_models = tally.attempted_models;
        created_at = now;
      }

  -- `stream`, of a service with a configured chain
  unfoldable pub stream_call : List String → ℕ → GatewayCallCommand → GatewayState → Called
  unfolding resolve_chain log_of track
  stream_call configured now command s =
      let chain = resolve_chain configured command.preferred_model in
      let out = stream_with_fallback providers command.messages chain s.state in
      elim out.result [
        | ok u ↦ record {
          tokens = map (λ t. t.token) out.tokens;
          result = ok u;
          after = record {
            state = out.state;
            logs = track (log_of now command chain out.tokens) s.logs;
          };
        }
        | err e ↦ record {
          tokens = map (λ t. t.token) out.tokens;
          result = err e;
          after = record { state = out.state; logs = s.logs };
        }
      ]
