-- ===== src/Chat/Memory.antt =====
-- Sorted sets and sockets that are kept in memory and never fail: values of the chat's parameters.
use mathlib.Core.Path.{subst}
use mathlib.Core.List.{reverse}
use public_nest_server.Base.{
  ℕ, zero, suc, ◌+◌, ◌-◌, ◌≤◌, ◌<◌, ◌≡◌, ◌==◌, refl, sym, ap, List, [], ◌∷◌, String, Bool, true,
  false, not, ◌&&◌, ok, Result, Action, arith, leb, keep, take, drop, length, text_eq, any, All,
  Bool-cases, inl, inr, if◌then◌else◌, ℤ, pos, negsuc, ⊤, eq_iff, eq_refl,
}
use public_nest_server.Chat.Redis.{
  ZSets, ChatMessage, Entry, members, after, before, IsOrdered, IsPlaced,
}
use public_nest_server.Chat.Gateway.{Sockets}

abbrev pub place : Entry → List Entry → List Entry
place e [] = e ∷ []
place e (d ∷ l) = if leb d.score e.score then d ∷ place e l else e ∷ d ∷ l

place-All : (P : Entry → Type 0) (e : Entry) (l : List Entry) → P e → All P l → All P (place e l)
place-All P e [] p h = (p, tt)
place-All P e (d ∷ l) p (q, h) = let rest = place-All P e l p h in ground arith

le-All : (s t : ℕ) (l : List Entry) → s ≤ t → All (λ d. t ≤ d.score) l → All (λ d. s ≤ d.score) l
le-All s t [] le h = tt
le-All s t (d ∷ l) le (p, h) = (omega arith, le-All s t l le h)

pub place-IsOrdered : (e : Entry) (l : List Entry) → IsOrdered l → IsOrdered (place e l)
place-IsOrdered e [] h = (tt, tt)
place-IsOrdered e (d ∷ l) (p, h) =
    let rest = place-IsOrdered e l h in
    let all = place-All (λ x. d.score ≤ x.score) e l in
    let behind = le-All e.score d.score l in ground (arith, all)

pub place-IsPlaced :
    (score : ℕ) (m : ChatMessage) (l : List Entry)
    → IsOrdered l
    → IsPlaced score m l (place (record { score = score; member = m }) l)
place-IsPlaced score m [] h = record {
  lower = [];
  higher = [];
  split = refl;
  placed = refl;
  lower_scores = tt;
  higher_scores = tt;
}
place-IsPlaced score m (d ∷ l) (p, h) = elim (Bool-cases (leb d.score score)) [
  | inl lower ↦
      let rest = place-IsPlaced score m l h in
      rw lower record {
        lower = d ∷ rest.lower;
        higher = rest.higher;
        split = ap (λ x. d ∷ x) rest.split;
        placed = ap (λ x. d ∷ x) rest.placed;
        lower_scores = (ground arith, rest.lower_scores);
        higher_scores = rest.higher_scores;
      }
  | inr higher ↦ rw higher record {
    lower = [];
    higher = d ∷ l;
    split = refl;
    placed = refl;
    lower_scores = tt;
    higher_scores = (ground arith, le-All score d.score l (ground arith) p);
  }
]

drop-All : (P : Entry → Type 0) (n : ℕ) (l : List Entry) → All P l → All P (drop n l)
drop-All P zero l h = h
drop-All P (suc n) [] h = tt
drop-All P (suc n) (e ∷ l) (p, h) = drop-All P n l h

pub drop-IsOrdered : (n : ℕ) (l : List Entry) → IsOrdered l → IsOrdered (drop n l)
drop-IsOrdered zero l h = h
drop-IsOrdered (suc n) [] h = tt
drop-IsOrdered (suc n) (e ∷ l) (p, h) = drop-IsOrdered n l h

abbrev pub Ordered : Type 0
Ordered = (l : List Entry) × IsOrdered l

abbrev pub set_key : String → Ordered → (String → Ordered) → String → Ordered
set_key k v s = λ j. if text_eq j k then v else s j

-- how many entries are removed
abbrev pub removed : ℤ → List Entry → ℕ
removed (pos rank) l = rank + 1
removed (negsuc n) l = length l - n

abbrev pub add_entry : String → ℕ → ChatMessage → Action String (String → Ordered) ⊤
add_entry k score m s =
    let e : Entry = record { score = score; member = m } in
    (ok tt, set_key k (place e (s k).0, place-IsOrdered e (s k).0 (s k).1) s)

abbrev pub remove_ranks : String → ℤ → Action String (String → Ordered) ⊤
remove_ranks k rank s =
    let n : ℕ = removed rank (s k).0 in
    (ok tt, set_key k (drop n (s k).0, drop-IsOrdered n (s k).0 (s k).1) s)

pub set_key_self : (k : String) (v : Ordered) (s : String → Ordered) → set_key k v s k ≡ v
set_key_self k v s = rw (eq_refl k) refl

pub set_key_other :
    (k j : String) (v : Ordered) (s : String → Ordered)
    → text_eq k j ≡ false
    → set_key k v s j ≡ s j
set_key_other k j v s h =
    let other : text_eq j k ≡ false = ground (arith, eq_iff j k, eq_iff k j) in rw other refl

pub ok-list :
    (a b : List ChatMessage) → ◌≡◌ {A = Result String (List ChatMessage)} (ok a) (ok b) → b ≡ a
ok-list a b h = cc

abbrev pub memory : ZSets
memory = record {
  Failure = String;
  State = String → Ordered;
  content = λ k s. (s k).0;
  zadd = add_entry;
  zrangebyscore = λ k since limit s. ok (members (take limit (after since (s k).0)));
  zrevrangebyscore = λ k bound limit s. ok (members (take limit (reverse (before bound (s k).0))));
  zremrangebyrank = remove_ranks;
  content-IsOrdered = λ k s. (s k).1;
  zadd-ok = λ k score m u s fresh h.
      subst (λ x. IsPlaced score m (s k).0 x.0) (sym (set_key_self k _ s))
        (place-IsPlaced score m (s k).0 (s k).1);
  zadd-others = λ k j score m s h. ap (λ x. x.0) (set_key_other k j _ s h);
  zrangebyscore-ok = λ k since limit ms s h. ok-list _ ms h;
  zrevrangebyscore-ok = λ k bound limit ms s h. ok-list _ ms h;
  zremrangebyrank-ok = λ k n u s h. ap (λ x. x.0) (set_key_self k _ s);
  zremrangebyrank-others = λ k j rank s h. ap (λ x. x.0) (set_key_other k j _ s h);
}

-- who is in which room
abbrev pub Io : Type 0
Io = List (ℕ × String)

abbrev pub in_room : String → ℕ × String → Bool
in_room room (c, r) = text_eq r room

abbrev pub is_member : ℕ → String → ℕ × String → Bool
is_member client room (c, r) = c == client && text_eq r room

pub enters :
    (c : ℕ) (room : String) (io : Io)
    → (any (is_member c room) ((c, room) ∷ io) ≡ true)
      × (0 < length (keep (in_room room) ((c, room) ∷ io)))
enters c room io = (ground (arith, eq_refl room), ground (arith, eq_refl room))

abbrev pub sockets : Sockets String
sockets = record {
  Io = Io;
  Client = ℕ;
  size = λ room io. length (keep (in_room room) io);
  has = λ c room io. any (is_member c room) io;
  join = λ c room io. (ok tt, (c, room) ∷ io);
  leave = λ c room io. (ok tt, keep (λ m. not (is_member c room m)) io);
  join-ok = λ c room u io h. enters c room io;
}
