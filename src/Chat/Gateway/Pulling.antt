-- ===== src/Chat/Gateway/Pulling.antt =====
-- Lists of stored messages, in the order of their times: what is newer than a time.
use public_nest_server.Base.{
  ℕ, zero, suc, ◌≤◌, ◌<◌, ◌≡◌, refl, sym, ap, ◌∙◌, Option, none, some, List, [], ◌∷◌, ◌++◌, All,
  arith, take, drop, ltb, if◌then◌else◌,
}
use public_nest_server.Chat.Redis.{ChatMessage, Entry, members, after}
use public_nest_server.Chat.Gateway.{max_pull_count, Batch, latest_of}

-- No two messages have the same time.
abbrev pub IsStrict : List Entry → Type 0
IsStrict [] = Unit
IsStrict (e ∷ entries) = All (λ d. e.score < d.score) entries × IsStrict entries

-- The scores are the times of the messages.
abbrev pub IsScored : List Entry → Type 0
IsScored entries = All (λ e. e.member.event_timestamp ≡ e.score) entries

All-keep : (P : Entry → Type 0) (since : ℕ) (l : List Entry) → All P l → All P (after since l)
All-keep P since [] h = tt
All-keep P since (e ∷ l) (p, h) = let rest = All-keep P since l h in ground arith

after-IsStrict : (since : ℕ) (l : List Entry) → IsStrict l → IsStrict (after since l)
after-IsStrict since [] h = tt
after-IsStrict since (e ∷ l) (p, h) =
    let rest = after-IsStrict since l h in
    let above = All-keep (λ d. e.score < d.score) since l p in ground arith

after_above : (since : ℕ) (l : List Entry) → All (λ e. since < e.score) (after since l)
after_above since [] = tt
after_above since (e ∷ l) = let rest = after_above since l in ground arith

after_after : (since t : ℕ) (l : List Entry) → since ≤ t → after t (after since l) ≡ after t l
after_after since t [] h = refl
after_after since t (e ∷ l) h = let rest = after_after since t l h in ground arith

after_all : (since : ℕ) (l : List Entry) → All (λ e. since < e.score) l → after since l ≡ l
after_all since [] h = refl
after_all since (e ∷ l) (p, h) = let rest = after_all since l h in ground arith

pub le-latest_of : (since : ℕ) (ms : List ChatMessage) → since ≤ latest_of since ms
unfolding latest_of
le-latest_of since [] = omega arith
le-latest_of since (m ∷ ms) =
    let rest = le-latest_of (if ltb since m.event_timestamp then m.event_timestamp else since) ms in
    ground arith

-- After the newest of what was taken comes exactly what was left.
after-latest_of :
    (n since : ℕ) (l : List Entry)
    → IsStrict l
    → IsScored l
    → All (λ e. since < e.score) l
    → after (latest_of since (members (take n l))) l ≡ drop n l
unfolding latest_of
after-latest_of zero since l strict scored above = after_all since l above
after-latest_of (suc n) since [] strict scored above = refl
after-latest_of (suc n) since (e ∷ l) (first, strict) (score, scored) (newer, above) =
    let rest = after-latest_of n e.score l strict scored first in
    let top = le-latest_of e.score (members (take n l)) in ground arith

members-take-drop : (n : ℕ) (l : List Entry) → members l ≡ members (take n l) ++ members (drop n l)
members-take-drop zero l = refl
members-take-drop (suc n) [] = refl
members-take-drop (suc n) (e ∷ l) = ap (λ r. e.member ∷ r) (members-take-drop n l)

pub flushed_rest :
    (since : ℕ) (l : List Entry)
    → IsStrict l
    → IsScored l
    → let taken = members (take max_pull_count (after since l)) in
      members (after since l) ≡ taken ++ members (after (latest_of since taken) l)
flushed_rest since l strict scored =
    let newer : List Entry = after since l in
    let taken : List ChatMessage = members (take max_pull_count newer) in
    let left : after (latest_of since taken) newer ≡ drop max_pull_count newer =
      after-latest_of max_pull_count since newer (after-IsStrict since l strict)
        (All-keep (λ e. e.member.event_timestamp ≡ e.score) since l scored) (after_above since l) in
    members-take-drop max_pull_count newer
    ∙ ap (λ r. taken ++ members r)
        (sym left ∙ after_after since (latest_of since taken) l (le-latest_of since taken))

abbrev pub messages_of : Option Batch → List ChatMessage
messages_of none = []
messages_of (some batch) = batch.messages
