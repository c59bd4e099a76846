-- ===== src/Redis.antt =====
-- AsgiHandlerLib/RedisChannelLayer.cpp: messages on the channels of a Redis server. hiredis and the
-- server are a parameter, with the commands that the code issues.
pub mod Delivery
pub mod Represents
pub mod Refinement
pub mod Reply
pub mod Commands
use iis_asgi_handler.Prelude.{
  ℕ, ◌+◌, List, [], ◌∷◌, ◌++◌, map, Option, none, some, Bytes, length, drop, replicate, ltb,
  if◌then◌else◌, Result, ok, err, Error, ◌>>=◌,
}
use iis_asgi_handler.Channels.{Engine, generate_random_ascii}

pub record Redis : Type 1 where
  pub World : Type 0
  pub set : (key value : Bytes) → World → World
  pub expire : (key : Bytes) (seconds : ℕ) → World → World
  pub rpush : (key value : Bytes) → World → World
  -- A reply to BLPOP is nil or a key and what was popped from it; one to GET is nil or a text.
  pub blpop : (keys : List Bytes) → World → Option (Bytes × Bytes) × World
  pub get : (key : Bytes) → World → Option Bytes

-- `m_expiry`
abbrev pub expiry : ℕ
expiry = 60

-- The keys of ReceiveMany(): the vector is made with as many empty texts as there are channels,
-- and the channels' keys are appended to them.
unfoldable pub prefixed_channels : (prefix : Bytes) → List Bytes → List Bytes
prefixed_channels prefix channels =
    replicate (length channels) [] ++ map (λ channel. prefix ++ channel) channels

-- The text behind the prefix. A shorter key makes its length wrap, and the constructor throws.
unfoldable pub without_prefix : (prefix key : Bytes) → Result Bytes
without_prefix prefix key =
    if ltb (length key) (length prefix)
    then err Error.logic_error
    else ok (drop (length prefix) key)

-- The reply to GET, with the channel. Data that has expired is nothing.
unfoldable pub data_of : (channel : Bytes) → Option Bytes → Bytes × Bytes
data_of channel none = ([], [])
data_of channel (some value) = (channel, value)

module _ (redis : Redis) (prefix : Bytes) where
  -- Send(), with the random name of the key that holds the data.
  unfoldable pub send_to : (name : Bytes) → (channel buffer : Bytes) → redis.World → redis.World
  send_to name channel buffer w =
      let data_key = prefix ++ name in
      let channel_key = prefix ++ channel in
      redis.expire channel_key (expiry + 10) (
        redis.rpush channel_key data_key
          (redis.expire data_key expiry (redis.set data_key buffer w)))

  unfoldable pub send :
      (engine : Engine)
      → (channel buffer : Bytes) → engine.State
      → redis.World
      → redis.World × engine.State
  send engine channel buffer s w =
      let (name, s') = generate_random_ascii engine 10 s in (send_to name channel buffer w, s')

  -- What ReceiveMany() makes of the reply to BLPOP. A pair of empty texts stands for nothing.
  unfoldable pub received : Option (Bytes × Bytes) → redis.World → Result (Bytes × Bytes)
  received none w = ok ([], [])
  received (some (key, data_key)) w =
      without_prefix prefix key >>= λ channel. ok (data_of channel (redis.get data_key w))

  -- ReceiveMany(), with the order that std::shuffle() gives. It always blocks.
  unfoldable pub receive_many :
      (shuffle : List Bytes → List Bytes)
      → (channels : List Bytes) → redis.World
      → Result ((Bytes × Bytes) × redis.World)
  receive_many shuffle channels w =
      let (reply, w') = redis.blpop (shuffle (prefixed_channels prefix channels)) w in
      received reply w' >>= λ answer. ok (answer, w')
