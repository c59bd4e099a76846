-- ===== src/System/OverRedis.antt =====
-- The system over a Redis server: what the pump's thread does in a round, and what Send() does, are
-- steps of the system, whose channels the server's state represents.
use iis_asgi_handler.Prelude.{
  ℕ, ◌<◌, ◌≡◌, refl, inl, inr, List, [], ◌++◌, Option, Bytes, length, Returns,
}
use iis_asgi_handler.Iis.{Iis, Lawful}
use iis_asgi_handler.Channels.{Engine}
use iis_asgi_handler.Messages.{AsgiHttpResponseMsg}
use iis_asgi_handler.Request.{RawRequest}
use iis_asgi_handler.Pump.{Phase, top, receiving, exited, ResponsePump, take_names, reply, step}
use iis_asgi_handler.Pump.Round.{ask, round}
use iis_asgi_handler.Redis.{Redis, send_to}
use iis_asgi_handler.Redis.Delivery.{Usable, Among, Stores}
use iis_asgi_handler.Redis.Represents.{Represents, Unused, send_to-Represents}
use iis_asgi_handler.Redis.Refinement.{receive_many-Takes}
use iis_asgi_handler.System.{
  System, sends, looks, receives, receives_nothing, Reachable, after, sent, received_from,
}

module _ (iis : Iis) (law : Lawful iis) (engine : Engine) (to_bytes : List ℕ → Bytes) (fuel : ℕ)
    (unpack : Bytes → Option AsgiHttpResponseMsg) (raw : ℕ → RawRequest) (random : ℕ → engine.State)
    (world : ℕ → iis.World) (count : ℕ) (redis : Redis) (stores : Stores redis) (prefix : Bytes)
    (shuffle : List Bytes → List Bytes) where
  abbrev Reaches : System iis → Type 0
  Reaches = Reachable iis law engine to_bytes fuel unpack raw random world count

  -- The system has come to a state with this pump, in which the server's state represents the
  -- channels. No connection has changed, and no message was sent.
  abbrev pub Simulates : System iis → ResponsePump ℕ × redis.World → Type 0
  Simulates s (p, w) =
      (s' : System iis) × Reaches s'
      × (s'.pump ≡ p)
      × Represents redis stores prefix w s'.layer
      × (s'.connections ≡ s.connections)
      × (s'.history ≡ s.history)

  -- Where the server's state represents the channels and the prefix is not empty, Send() is a step of
  -- the system, if the data's key is in no list's way and no text is in the channel's.
  pub send_to-Reaches :
      (s : System iis) (w : redis.World) (name channel buffer : Bytes)
      → Reaches s
      → 0 < length prefix
      → Represents redis stores prefix w s.layer
      → Unused redis stores prefix (prefix ++ name) w
      → Usable redis stores prefix name channel w
      → Reaches (sent channel buffer s)
        × Represents redis stores prefix
            (send_to redis prefix name channel buffer w)
            (sent channel buffer s).layer
  unfolding sent
  send_to-Reaches s w name channel buffer r nonempty rep unused usable = (
    after r (sends channel buffer),
    send_to-Represents redis stores prefix name channel buffer w s.layer nonempty rep unused usable,
  )

  module _ (keeps : (k : Bytes) (ks : List Bytes) → Among k ks → Among k (shuffle ks))
      (back : (k : Bytes) (ks : List Bytes) → Among k (shuffle ks) → Among k ks)
      (nonempty : 0 < length prefix) where
    ask-Simulates :
        (s : System iis) (w : redis.World) (phase : Phase)
        → s.pump.phase ≡ phase
        → Reaches s
        → Represents redis stores prefix w s.layer
        → Returns (Simulates s) (ask redis prefix shuffle phase s.pump w)
    unfolding ask received_from
    ask-Simulates s w top at r rep = (s, r, refl, rep, refl, refl)
    ask-Simulates s w exited at r rep = (s, r, refl, rep, refl, refl)
    ask-Simulates s w (receiving ns) at r rep =
        elim (receive_many-Takes redis stores prefix shuffle ns w s.layer keeps back nonempty rep) [
          | inl (_, result, rep') ↦ rw result (
            record s { pump = step (reply [] []) s.pump },
            after r (receives_nothing ns at),
            refl,
            rep',
            refl,
            refl,
          )
          | inr (c, m, rest, among, oldest, result, rep') ↦ rw result (
            received_from c m rest s,
            after r (receives ns c m rest at among oldest),
            refl,
            rep',
            refl,
            refl,
          )
        ]

    -- A round of the pump's thread over the Redis layer returns, and what it does to the pump and to
    -- the channels is what the system can do, so that all that holds of the system's states holds of
    -- it. The server's state represents the channels, the prefix is not empty, and the shuffle gives
    -- just the keys it is given.
    pub round-Simulates :
        (s : System iis) (w : redis.World)
        → Reaches s
        → s.pump.phase ≡ top
        → Represents redis stores prefix w s.layer
        → Returns (Simulates s) (round redis prefix shuffle s.pump w)
    unfolding round
    round-Simulates s w r at_top rep =
        ask-Simulates (record s { pump = step take_names s.pump }) w (step take_names s.pump).phase
          refl (after r (looks at_top)) rep
