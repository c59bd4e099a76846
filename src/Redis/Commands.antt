-- ===== src/Redis/Commands.antt =====
-- AsgiHandlerLib/RedisChannelLayer.h and .cpp, one level down: the commands as hiredis sends them,
-- and its replies, those of a broken connection and of a failed command too. Keys have no zero
-- byte.
use iis_asgi_handler.Prelude.{
  ℕ, ◌+◌, ◌≡◌, refl, ◌⊎◌, inl, inr, Bool, true, false, List, [], ◌∷◌, ◌++◌, Option, none, some,
  Bytes, codes, Result, ok, err, Error, ◌>>=◌,
}
use iis_asgi_handler.Request.{to_string}
use iis_asgi_handler.Redis.{
  Redis, expiry, prefixed_channels, without_prefix, data_of, send_to, received, receive_many,
}

-- A `redisReply` that is not null. The elements of an array are texts here.
pub data RedisReply : Type 0 where
  nil : RedisReply
  string status error : Bytes → RedisReply
  integer : ℕ → RedisReply
  array : List Bytes → RedisReply

-- redisCommand() and redisCommandArgv() give null if the connection is lost.
pub record Server : Type 1 where
  pub World : Type 0
  pub command : List Bytes → World → Option RedisReply × World

-- redisConnectWithTimeout() gives no context, or one that may have an error.
pub data Started : Type 0 where
  ready exited : Started

-- RedisChannelLayer::RedisChannelLayer(), which reads the text of an error that is not there.
unfoldable pub connect : (context : Option Bool) → Result Started
connect none = err Error.null_pointer
connect (some true) = ok exited
connect (some false) = ok ready

module _ (server : Server) (prefix : Bytes) where
  open server use {World, command}

  -- ExecuteRedisCommand() for its effect.
  abbrev pub execute : List Bytes → World → World
  execute arguments w = (command arguments w).1

  -- Send(), with the random name of the data's key. `%i` prints the expiry.
  unfoldable pub send_commands : (name : Bytes) → (channel buffer : Bytes) → World → World
  send_commands name channel buffer w =
      let data_key = prefix ++ name in
      let channel_key = prefix ++ channel in
      let w₁ = execute (codes "SET" ∷ data_key ∷ buffer ∷ []) w in
      let w₂ = execute (codes "EXPIRE" ∷ data_key ∷ to_string expiry ∷ []) w₁ in
      let w₃ = execute (codes "RPUSH" ∷ channel_key ∷ data_key ∷ []) w₂ in
      execute (codes "EXPIRE" ∷ channel_key ∷ to_string (expiry + 10) ∷ []) w₃

  -- `reply->str` of the reply to GET, whatever its type is.
  unfoldable pub get_reply : (channel : Bytes) → Option RedisReply → Result (Bytes × Bytes)
  get_reply channel none = err Error.null_pointer
  get_reply channel (some nil) = ok ([], [])
  get_reply channel (some (string text)) = ok (channel, text)
  get_reply channel (some (status text)) = ok (channel, text)
  get_reply channel (some (error text)) = ok (channel, text)
  get_reply channel (some (integer n)) = ok (channel, [])
  get_reply channel (some (array texts)) = ok (channel, [])

  -- What follows the BLPOP. `reply->element` is null unless the reply is an array.
  unfoldable pub blpop_reply : Option RedisReply → World → Result ((Bytes × Bytes) × World)
  unfolding get_reply
  blpop_reply none w = err Error.null_pointer
  blpop_reply (some nil) w = ok (([], []), w)
  blpop_reply (some (array (key ∷ data_key ∷ texts))) w = do
    channel ← without_prefix prefix key
    answer ← get_reply channel (command (codes "GET" ∷ data_key ∷ []) w).0
    ok (answer, execute (codes "GET" ∷ data_key ∷ []) w)
  blpop_reply (some (array (key ∷ []))) w = err Error.overrun
  blpop_reply (some (array [])) w = err Error.overrun
  blpop_reply (some _) w = err Error.null_pointer

  unfoldable pub receive_many_commands :
      (shuffle : List Bytes → List Bytes)
      → (channels : List Bytes) → World
      → Result ((Bytes × Bytes) × World)
  receive_many_commands shuffle channels w =
      let (reply, w') =
        command (codes "BLPOP" ∷ shuffle (prefixed_channels prefix channels) ++ codes "1" ∷ []) w in
      blpop_reply reply w'

-- The server's operations, as the rest of the model has them.
abbrev pub popped : Option RedisReply → Option (Bytes × Bytes)
popped (some (array (key ∷ data_key ∷ texts))) = some (key, data_key)
popped _ = none

abbrev pub text_of : Option RedisReply → Option Bytes
text_of (some (string text)) = some text
text_of _ = none

abbrev pub redis_of : Server → Redis
redis_of server = record {
  World = server.World;
  set = λ key value w. (server.command (codes "SET" ∷ key ∷ value ∷ []) w).1;
  expire = λ key seconds w. (server.command (codes "EXPIRE" ∷ key ∷ to_string seconds ∷ []) w).1;
  rpush = λ key value w. (server.command (codes "RPUSH" ∷ key ∷ value ∷ []) w).1;
  blpop = λ keys w.
      let (reply, w') = server.command (codes "BLPOP" ∷ keys ++ codes "1" ∷ []) w in
      (popped reply, w');
  get = λ key w. text_of (server.command (codes "GET" ∷ key ∷ []) w).0;
}

-- What Redis documents of the two replies that are looked at, while the connection holds and no
-- command fails.
pub record Answers (server : Server) : Type 0 where
  pub blpop_answers :
      (keys : List Bytes) (w : server.World)
      → let reply = (server.command (codes "BLPOP" ∷ keys ++ codes "1" ∷ []) w).0 in
        (reply ≡ some nil)
        ⊎ ((key : Bytes) × (data_key : Bytes) × (reply ≡ some (array (key ∷ data_key ∷ []))))
  pub get_answers :
      (key : Bytes) (w : server.World)
      → let reply = (server.command (codes "GET" ∷ key ∷ []) w).0 in
        (reply ≡ some nil) ⊎ ((text : Bytes) × (reply ≡ some (string text)))
  pub get_reads :
      (key : Bytes) (w : server.World) → (server.command (codes "GET" ∷ key ∷ []) w).1 ≡ w

module _ (server : Server) (prefix : Bytes) (answers : Answers server) where
  get_reply-data_of :
      (channel : Bytes) (reply : Option RedisReply)
      → (reply ≡ some nil) ⊎ ((text : Bytes) × (reply ≡ some (string text)))
      → get_reply server prefix channel reply ≡ ok (data_of channel (text_of reply))
  unfolding get_reply data_of
  get_reply-data_of channel reply (inl e) = rw e refl
  get_reply-data_of channel reply (inr (text, e)) = rw e refl

  popped-received :
      (reply : Option RedisReply) (w : server.World)
      → (reply ≡ some nil)
        ⊎ ((key : Bytes) × (data_key : Bytes) × (reply ≡ some (array (key ∷ data_key ∷ []))))
      → blpop_reply server prefix reply w
        ≡ received (redis_of server) prefix (popped reply) w >>= λ answer. ok (answer, w)
  unfolding blpop_reply received
  popped-received reply w (inl e) = rw e refl
  popped-received reply w (inr (key, data_key, e)) = rw e (named (without_prefix prefix key))
    where
      after_get : server.World
      after_get = (server.command (codes "GET" ∷ data_key ∷ []) w).1

      reply_to_get : Option RedisReply
      reply_to_get = (server.command (codes "GET" ∷ data_key ∷ []) w).0

      in_world : server.World → Bytes × Bytes → Result ((Bytes × Bytes) × server.World)
      in_world v answer = ok (answer, v)

      named :
          (channel : Result Bytes)
          → (channel >>= λ c. get_reply server prefix c reply_to_get >>= in_world after_get)
            ≡ (channel >>= λ c. ok (data_of c (text_of reply_to_get))) >>= in_world w
      named (err x) = refl
      named (ok c) =
          rw (get_reply-data_of c _ (answers.get_answers data_key w), answers.get_reads data_key w)
            refl

  -- Where the connection holds and the server answers as documented, the commands that Send() and
  -- ReceiveMany() issue, and what they make of the replies, are the operations on the server that
  -- the channel layer is proved with.
  pub commands-Same :
      (shuffle : List Bytes → List Bytes) (channels : List Bytes) (name channel buffer : Bytes)
      (w : server.World)
      → (receive_many_commands server prefix shuffle channels w
          ≡ receive_many (redis_of server) prefix shuffle channels w)
        × (send_commands server prefix name channel buffer w
            ≡ send_to (redis_of server) prefix name channel buffer w)
  unfolding receive_many_commands receive_many send_commands send_to
  commands-Same shuffle channels name channel buffer w =
      let keys = shuffle (prefixed_channels prefix channels) in
      (popped-received _ _ (answers.blpop_answers keys w), refl)
