-- ===== src/Chat/Hash.antt =====
-- `shardIndex` (libs/rpc/src/chat-realtime/chat.hash.ts), `getChatShardChannel` (chat.keys.ts) and
-- ShardedPubSubService (sharded-pubsub.service.ts). A 32-bit integer is its bit pattern, a number
-- below 2 ^ 32; the text of a number is a parameter.
pub mod Laws
use Prim.Native.Nat.{bit_xor}
use Prim.Native.String
use public_nest_server.Base.{
  ℕ, zero, suc, ◌+◌, ◌-◌, ◌*◌, ◌/◌, ◌%◌, ◌^◌, List, [], ◌∷◌, ◌++◌, map, String, codes, Option, none,
  some, leb, if◌then◌else◌, Result, Action, pure, ◌>>=◌, ◌>>◌, ⊤, Bool,
}

abbrev pub word : ℕ
word = 4294967296

-- The code units that `charCodeAt` reads.
unfoldable pub utf16_units : List ℕ → List ℕ
utf16_units [] = []
utf16_units (c ∷ cs) =
    let rest = utf16_units cs in
    if leb 65536 c
    then (0xd800 + (c - 65536) / 1024) ∷ (0xdc00 + (c - 65536) % 1024) ∷ rest
    else c ∷ rest

-- `((h << 5) - h + c) | 0`
abbrev pub djb2_step : ℕ → ℕ → ℕ
djb2_step h c = (h * 32 % word + word - h + c) % word

-- the loop over the characters
unfoldable pub djb2 : ℕ → List ℕ → ℕ
djb2 h [] = h
djb2 h (c ∷ cs) = djb2 (djb2_step h c) cs

-- `Math.imul`
abbrev pub imul : ℕ → ℕ → ℕ
imul a b = a * b % word

-- `h >>> k`
abbrev pub shift_right : ℕ → ℕ → ℕ
shift_right h k = h / 2 ^ k

unfoldable pub fmix32 : ℕ → ℕ
fmix32 h =
    let h = bit_xor h (shift_right h 16) in
    let h = imul h 0x85ebca6b in
    let h = bit_xor h (shift_right h 13) in
    let h = imul h 0xc2b2ae35 in bit_xor h (shift_right h 16)

unfoldable pub shard_index : String → ℕ → ℕ
unfolding djb2 fmix32 utf16_units
shard_index room_id shard_count = fmix32 (djb2 0 (utf16_units (codes room_id))) % shard_count

module _ (show : ℕ → String) where
  -- `getChatShardChannel` of an index, and of a room
  unfoldable pub channel_of_index : ℕ → String
  channel_of_index index = String.◌++◌ "chat:ws:shard:" (show index)

  unfoldable pub channel_of_room : String → ℕ → String
  unfolding shard_index channel_of_index
  channel_of_room room_id shard_count = channel_of_index (shard_index room_id shard_count)

  -- `Array.from({ length: n }, (_, i) => …)`, from the index `i` on
  unfoldable pub channels_from : ℕ → ℕ → List String
  unfolding channel_of_index
  channels_from i zero = []
  channels_from i (suc n) = channel_of_index i ∷ channels_from (i + 1) n

  abbrev pub subscribed : ℕ → List String
  subscribed shard_count = channels_from 0 shard_count
