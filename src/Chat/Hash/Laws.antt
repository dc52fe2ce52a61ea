-- ===== src/Chat/Hash/Laws.antt =====
-- The hash of a room is a polynomial, and its channel is one that every pod subscribes to.
use native.Mathlib.Nat.{mod-lt}
use public_nest_server.Base.{
  Bool-cases, inl, inr, ◌==◌, ℕ, zero, suc, ◌+◌, ◌*◌, ◌%◌, ◌≤◌, ◌<◌, ◌≡◌, sym, ap, ◌∙◌, List, [],
  ◌∷◌, String, true, text_eq, codes, arith, eq_refl,
}
use public_nest_server.Llm.Models.{is_in}
use public_nest_server.Chat.Hash.{
  word, djb2_step, djb2, utf16_units, fmix32, shard_index, channel_of_index, channel_of_room,
  channels_from, subscribed,
}

-- The value of the characters as the digits of a number to the base 31, behind a leading `h`.
abbrev pub polynomial : ℕ → List ℕ → ℕ
polynomial h [] = h
polynomial h (c ∷ cs) = polynomial (31 * h + c) cs

djb2_step_lem : (h c : ℕ) → h < word → djb2_step h c ≡ (31 * h + c) % word
djb2_step_lem h c small = omega arith

polynomial-mod : (h : ℕ) (cs : List ℕ) → polynomial (h % word) cs % word ≡ polynomial h cs % word
polynomial-mod h [] = omega arith
polynomial-mod h (c ∷ cs) =
    sym (polynomial-mod (31 * (h % word) + c) cs)
    ∙ ap (λ k. polynomial k cs % word) (omega arith)
    ∙ polynomial-mod (31 * h + c) cs

djb2-polynomial : (h : ℕ) (cs : List ℕ) → h < word → djb2 h cs ≡ polynomial h cs % word
unfolding djb2
djb2-polynomial h [] small = omega arith
djb2-polynomial h (c ∷ cs) small =
    djb2-polynomial (djb2_step h c) cs (omega arith)
    ∙ ap (λ k. polynomial k cs % word) (djb2_step_lem h c small)
    ∙ polynomial-mod (31 * h + c) cs

is_in-channels_from :
    (show : ℕ → String) (i j n : ℕ)
    → i ≤ j
    → j < i + n
    → is_in (channel_of_index show j) (channels_from show i n) ≡ true
unfolding channels_from
is_in-channels_from show i j zero above below = absurd (omega arith)
is_in-channels_from show i j (suc n) above below = elim (Bool-cases (i == j)) [
  | inl same ↦
      let here : j ≡ i = ground arith in
      let equal = ap (λ k. text_eq (channel_of_index show k) (channel_of_index show i)) here in
      ground (arith, eq_refl (channel_of_index show i))
  | inr other ↦
      let rest = is_in-channels_from show (i + 1) j n (ground arith) (omega arith) in ground arith
]

shard_index-lt :
    (room_id : String) (shard_count : ℕ)
    → 0 < shard_count
    → shard_index room_id shard_count < shard_count
unfolding shard_index
shard_index-lt room_id shard_count h = mod-lt (fmix32 (djb2 0 (utf16_units (codes room_id)))) h

-- A room's hash before the final mixing is the polynomial of its UTF-16 code units to the base 31,
-- modulo 2 ^ 32; with at least one shard, the room's index is below the number of shards, and the
-- channel of its notifications is one of those that `subscribeAll` subscribes to.
pub channel_of_room-subscribed :
    (show : ℕ → String) (room_id : String) (shard_count : ℕ)
    → 0 < shard_count
    → (djb2 0 (utf16_units (codes room_id)) ≡ polynomial 0 (utf16_units (codes room_id)) % word)
      × (shard_index room_id shard_count < shard_count)
      × (is_in (channel_of_room show room_id shard_count) (subscribed show shard_count) ≡ true)
unfolding channel_of_room
channel_of_room-subscribed show room_id shard_count some_shards =
    let below = shard_index-lt room_id shard_count some_shards in
    (
      djb2-polynomial 0 (utf16_units (codes room_id)) (omega arith),
      below,
      is_in-channels_from show 0 (shard_index room_id shard_count) shard_count (omega arith)
          (omega (arith, below)),
    )
