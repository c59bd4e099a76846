-- ===== src/Pump/Round.antt =====
-- The response pump over the Redis channel layer: one round of its thread, in which no handler gets
-- between.
use mathlib.Core.Logic.{if_pos, if_neg}
use iis_asgi_handler.Prelude.{
  ◌<◌, ◌≡◌, ◌≢◌, refl, sym, subst, ◌∙◌, ◌⊎◌, inl, inr, false, List, [], ◌∷◌, ◌++◌, some, Bytes,
  Bytes-discrete, length, Result, ok, ◌>>=◌, Returns,
}
use iis_asgi_handler.Pump.{
  Phase, top, receiving, ResponsePump, take_names, reply, find_callback, erase_callback, names,
  look, receive, thread_step, step,
}
use iis_asgi_handler.Pump.Dispatch.{reply_found}
use iis_asgi_handler.Redis.{Redis, prefixed_channels, receive_many}
use iis_asgi_handler.Redis.Delivery.{Among, Stores}
use iis_asgi_handler.Redis.Represents.{Channels, put, Represents}
use iis_asgi_handler.Redis.Refinement.{receive_many-Takes}

module _ {Callback : Type 0} where
  -- The names are those of the channels that have a callback.
  pub named :
      (c : Bytes) (m : List (Bytes × Callback))
      → Among c (names m)
      → (callback : Callback) × (find_callback c m ≡ some callback)
  unfolding find_callback
  named c [] h = elim h [ ]
  named c ((k, callback) ∷ m) h = elim (Bytes-discrete k c) [
    | yes same ↦ (callback, if_pos (Bytes-discrete k c) same (some callback) (find_callback c m))
    | no other ↦ elim h [
      | inl e ↦ absurd (other (sym e))
      | inr a ↦
          let (found, e) = named c m a in
          (found, if_neg (Bytes-discrete k c) other (some callback) (find_callback c m) ∙ e)
    ]
  ]

  pub found-Among :
      (c : Bytes) (m : List (Bytes × Callback)) {callback : Callback}
      → find_callback c m ≡ some callback
      → Among c (names m)
  unfolding find_callback
  found-Among c [] e = absurd (cc)
  found-Among c ((k, callback) ∷ m) e = elim (Bytes-discrete k c) [
    | yes same ↦ inl (sym same)
    | no other ↦ inr (
        found-Among c m
          (sym (if_neg (Bytes-discrete k c) other (some callback) (find_callback c m)) ∙ e))
  ]

module _ (redis : Redis) (prefix : Bytes) {Callback : Type 0}
    (shuffle : List Bytes → List Bytes) where
  -- ReceiveMany() on the names that were taken, and what follows it.
  unfoldable pub ask :
      Phase → ResponsePump Callback → redis.World → Result (ResponsePump Callback × redis.World)
  ask (receiving channel_names) p w =
      receive_many redis prefix shuffle channel_names w >>= λ (answer, w').
      ok (step (reply answer.0 answer.1) p, w')
  ask _ p w = ok (p, w)

  -- The body of ThreadMain()'s loop, and the look at the stop flag before it.
  unfoldable pub round :
      ResponsePump Callback → redis.World → Result (ResponsePump Callback × redis.World)
  round p w = let p' = step take_names p in ask p'.phase p' w

  module _ (law : Stores redis) where
    -- Nothing has come for anyone.
    pub record Idle (p : ResponsePump Callback) (layer : Channels) (p' : ResponsePump Callback)
        (w' : redis.World) : Type 0 where
      pub all_empty :
          (c : Bytes) (callback : Callback)
          → find_callback c p.callbacks ≡ some callback
          → layer c ≡ []
      pub same_callbacks : p'.callbacks ≡ p.callbacks
      pub same_tasks : p'.tasks ≡ p.tasks
      pub same_dropped : p'.dropped ≡ p.dropped
      pub same_layer : Represents redis law prefix w' layer

    -- The oldest message of a channel goes to the channel's callback.
    pub record Served (p : ResponsePump Callback) (layer : Channels) (p' : ResponsePump Callback)
        (w' : redis.World) : Type 0 where
      pub channel : Bytes
      pub callback : Callback
      pub message : Bytes
      pub rest : List Bytes
      pub registered : find_callback channel p.callbacks ≡ some callback
      pub oldest : layer channel ≡ message ∷ rest
      pub unregistered : p'.callbacks ≡ erase_callback channel p.callbacks
      pub handed_over : p'.tasks ≡ p.tasks ++ (channel, callback, message) ∷ []
      pub same_dropped : p'.dropped ≡ p.dropped
      pub taken : Represents redis law prefix w' (put channel rest layer)

    abbrev pub Round :
        ResponsePump Callback → Channels → ResponsePump Callback × redis.World → Type 0
    Round p layer (p', w') = Idle p layer p' w' ⊎ Served p layer p' w'

    module _ (p : ResponsePump Callback) (w : redis.World) (layer : Channels)
        (named_all : (c : Bytes) → Among c (names p.callbacks) → c ≢ []) where
      served :
          (c m : Bytes) (rest : List Bytes) (w' : redis.World) (ns : List Bytes)
          → Among c (names p.callbacks)
          → layer c ≡ m ∷ rest
          → Represents redis law prefix w' (put c rest layer)
          → Round p layer (step (reply c m) (record p { phase = receiving ns }), w')
      served [] m rest w' ns among oldest rep = absurd (named_all [] among refl)
      served (x ∷ c) m rest w' ns among oldest rep =
          let (callback, found) = named (x ∷ c) p.callbacks among in
          rw (reply_found x c m ns (record p { phase = receiving ns }) refl found) (
            inr (record {
              channel = x ∷ c;
              callback = callback;
              message = m;
              rest = rest;
              registered = found;
              oldest = oldest;
              unregistered = refl;
              handed_over = refl;
              same_dropped = refl;
              taken = rep;
            }))

      module _ (keeps : (k : Bytes) (ks : List Bytes) → Among k ks → Among k (shuffle ks))
          (back : (k : Bytes) (ks : List Bytes) → Among k (shuffle ks) → Among k ks)
          (nonempty : 0 < length prefix) (r : Represents redis law prefix w layer) where
        looked :
            (ns : List Bytes)
            → names p.callbacks ≡ ns
            → Returns (Round p layer) (ask (look false ns p).phase (look false ns p) w)
        unfolding look ask step thread_step receive
        looked [] e = inl (record {
          all_empty = λ c callback found.
              let among = rw e at (found-Among c p.callbacks found) in elim among [ ];
          same_callbacks = refl;
          same_tasks = refl;
          same_dropped = refl;
          same_layer = r;
        })
        looked (n ∷ ns) e =
            let w' = (redis.blpop (shuffle (prefixed_channels prefix (n ∷ ns))) w).1 in
            elim (receive_many-Takes redis law prefix shuffle (n ∷ ns) w layer keeps back nonempty
              r) [
                | inl (empty, result, rep) ↦ rw result (
                    inl (record {
                      all_empty =
                          λ c callback found. empty c (rw e at (found-Among c p.callbacks found));
                      same_callbacks = refl;
                      same_tasks = refl;
                      same_dropped = refl;
                      same_layer = rep;
                    }))
                | inr (c, m, rest, among, oldest, result, rep) ↦
                    rw result
                      (served c m rest w' (n ∷ ns) (subst (Among c) (sym e) among) oldest rep)
              ]

    -- A round of a thread that is not to stop returns, where the server's state represents
    -- channels, the prefix is not empty, the shuffle gives just the keys it is given, and no
    -- channel that is registered has an empty name. If there is no message for any of the
    -- registered channels, nothing changes. Otherwise the oldest message of one of them is taken
    -- from the channel and handed to the callback registered for it, which no longer is; nothing is
    -- dropped.
    pub round-Delivers :
        (p : ResponsePump Callback) (w : redis.World) (layer : Channels)
        → p.phase ≡ top
        → p.thread_stop ≡ false
        → ((c : Bytes) → Among c (names p.callbacks) → c ≢ [])
        → ((k : Bytes) (ks : List Bytes) → Among k ks → Among k (shuffle ks))
        → ((k : Bytes) (ks : List Bytes) → Among k (shuffle ks) → Among k ks)
        → 0 < length prefix
        → Represents redis law prefix w layer
        → Returns (Round p layer) (round p w)
    unfolding round step thread_step
    round-Delivers p w layer at_top goes_on named_all keeps back nonempty r =
        simp (at_top, goes_on)
          (looked p w layer named_all keeps back nonempty r (names p.callbacks) refl)
