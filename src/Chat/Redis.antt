-- ===== src/Chat/Redis.antt =====
-- What the chat takes from Redis: sorted sets of messages, where each call may fail. A message
-- stands for its FlatBuffers bytes, which generated code writes and reads. Members with equal
-- scores are ordered in a way that the laws leave open.
use public_nest_server.Base.{
  ℕ, ◌-◌, ◌≤◌, ◌≡◌, ◌≢◌, List, [], ◌∷◌, ◌++◌, map, String, Result, ok, Action, ltb, keep, take,
  drop, length, text_eq, All, ℤ, negsuc, false, ⊤,
}
use mathlib.Core.List.{reverse}

-- `buildChatMessage`
pub record ChatMessage : Type 0 where
  pub id : String
  pub sender_id : String
  pub content : String
  pub metadata : String
  pub timestamp : ℕ
  pub event_timestamp : ℕ

-- A member of a sorted set with its score.
pub record Entry : Type 0 where
  pub score : ℕ
  pub member : ChatMessage

abbrev pub members : List Entry → List ChatMessage
members entries = map (λ e. e.member) entries

-- The entries with a score after `since`, and before `before`.
abbrev pub after : ℕ → List Entry → List Entry
after since entries = keep (λ e. ltb since e.score) entries

abbrev pub before : ℕ → List Entry → List Entry
before limit entries = keep (λ e. ltb e.score limit) entries

-- No score falls along the set.
abbrev pub IsOrdered : List Entry → Type 0
IsOrdered [] = Unit
IsOrdered (e ∷ entries) = All (λ d. e.score ≤ d.score) entries × IsOrdered entries

-- A new member stands behind all lower scores and before all higher ones.
pub record IsPlaced (score : ℕ) (member : ChatMessage) (old new : List Entry) : Type 0 where
  pub lower : List Entry
  pub higher : List Entry
  pub split : old ≡ lower ++ higher
  pub placed : new ≡ lower ++ record { score = score; member = member } ∷ higher
  pub lower_scores : All (λ e. e.score ≤ score) lower
  pub higher_scores : All (λ e. score ≤ e.score) higher

pub record ZSets : Type 1 where
  pub Failure : Type 0
  pub State : Type 0
  -- the set under a key, in the order of its scores
  pub content : String → State → List Entry
  pub zadd : String → ℕ → ChatMessage → Action Failure State ⊤
  -- with an exclusive lower bound, no upper bound and a limit
  pub zrangebyscore : String → ℕ → ℕ → State → Result Failure (List ChatMessage)
  -- with an exclusive upper bound, no lower bound and a limit
  pub zrevrangebyscore : String → ℕ → ℕ → State → Result Failure (List ChatMessage)
  -- the ranks from 0 to the given one
  pub zremrangebyrank : String → ℤ → Action Failure State ⊤
  pub content-IsOrdered : (k : String) (s : State) → IsOrdered (content k s)
  pub zadd-ok :
      (k : String) (score : ℕ) (m : ChatMessage) (u : ⊤) (s : State)
      → All (λ e. e.member ≢ m) (content k s)
      → (zadd k score m s).0 ≡ ok u
      → IsPlaced score m (content k s) (content k (zadd k score m s).1)
  pub zadd-others :
      (k j : String) (score : ℕ) (m : ChatMessage) (s : State)
      → text_eq k j ≡ false
      → content j (zadd k score m s).1 ≡ content j s
  pub zrangebyscore-ok :
      (k : String) (since limit : ℕ) (ms : List ChatMessage) (s : State)
      → zrangebyscore k since limit s ≡ ok ms
      → ms ≡ members (take limit (after since (content k s)))
  pub zrevrangebyscore-ok :
      (k : String) (bound limit : ℕ) (ms : List ChatMessage) (s : State)
      → zrevrangebyscore k bound limit s ≡ ok ms
      → ms ≡ members (take limit (reverse (before bound (content k s))))
  -- rank -(n + 1) is the last before the n best
  pub zremrangebyrank-ok :
      (k : String) (n : ℕ) (u : ⊤) (s : State)
      → (zremrangebyrank k (negsuc n) s).0 ≡ ok u
      → content k (zremrangebyrank k (negsuc n) s).1 ≡ drop (length (content k s) - n) (content k s)
  pub zremrangebyrank-others :
      (k j : String) (rank : ℤ) (s : State)
      → text_eq k j ≡ false
      → content j (zremrangebyrank k rank s).1 ≡ content j s
