-- ===== src/Redis/Delivery.antt =====
-- Send() and then ReceiveMany() of AsgiHandlerLib/RedisChannelLayer.cpp.
use iis_asgi_handler.Prelude.{
  ℕ, ◌≡◌, ◌≢◌, refl, sym, ap, ap₂, get_or, ◌<◌, ◌∙◌, ◌⊎◌, inl, inr, true, false, Option-cases, List,
  [], ◌∷◌, ◌++◌, map, Option, none, some, Bytes, Bytes-discrete, length, length-append, drop-append,
  replicate, ltb, ok, err, Error, arith,
}
use iis_asgi_handler.Redis.{
  Redis, prefixed_channels, without_prefix, data_of, send_to, received, receive_many,
}

abbrev pub Among : Bytes → List Bytes → Type 0
Among k [] = ⊥
Among k (x ∷ xs) = (k ≡ x) ⊎ Among k xs

-- What the commands' documentation says of texts and lists, while nothing expires: a key holds a text
-- or a list. SET replaces either, and RPUSH fails on a text.
pub record Stores (redis : Redis) : Type 0 where
  pub text : redis.World → Bytes → Option Bytes
  pub queue : redis.World → Bytes → List Bytes
  pub text-set : (k v : Bytes) (w : redis.World) → text (redis.set k v w) k ≡ some v
  pub text-set_other :
      (k v j : Bytes) (w : redis.World) → j ≢ k → text (redis.set k v w) j ≡ text w j
  pub queue-set : (k v : Bytes) (w : redis.World) → queue (redis.set k v w) k ≡ []
  pub queue-set_other :
      (k v j : Bytes) (w : redis.World) → j ≢ k → queue (redis.set k v w) j ≡ queue w j
  pub text-expire : (k j : Bytes) (n : ℕ) (w : redis.World) → text (redis.expire k n w) j ≡ text w j
  pub queue-expire :
      (k j : Bytes) (n : ℕ) (w : redis.World) → queue (redis.expire k n w) j ≡ queue w j
  pub text-rpush : (k v j : Bytes) (w : redis.World) → text (redis.rpush k v w) j ≡ text w j
  pub queue-rpush :
      (k v : Bytes) (w : redis.World)
      → text w k ≡ none
      → queue (redis.rpush k v w) k ≡ queue w k ++ v ∷ []
  pub queue-rpush_other :
      (k v j : Bytes) (w : redis.World) → j ≢ k → queue (redis.rpush k v w) j ≡ queue w j
  pub get_text : (k : Bytes) (w : redis.World) → redis.get k w ≡ text w k
  pub text-blpop :
      (keys : List Bytes) (j : Bytes) (w : redis.World) → text (redis.blpop keys w).1 j ≡ text w j
  -- It gives the first entry of one of the keys, or nothing if all are empty.
  pub blpop_some :
      (keys : List Bytes) (w : redis.World) (k v : Bytes)
      → (redis.blpop keys w).0 ≡ some (k, v)
      → queue w k ≡ v ∷ queue (redis.blpop keys w).1 k
  pub blpop_other :
      (keys : List Bytes) (w : redis.World) (k v j : Bytes)
      → (redis.blpop keys w).0 ≡ some (k, v)
      → j ≢ k
      → queue (redis.blpop keys w).1 j ≡ queue w j
  pub blpop_nothing :
      (keys : List Bytes) (w : redis.World) (j : Bytes)
      → (redis.blpop keys w).0 ≡ none
      → queue (redis.blpop keys w).1 j ≡ queue w j
  pub blpop_asked :
      (keys : List Bytes) (w : redis.World) (k v : Bytes)
      → (redis.blpop keys w).0 ≡ some (k, v)
      → Among k keys
  pub blpop_none :
      (keys : List Bytes) (w : redis.World)
      → (redis.blpop keys w).0 ≡ none
      → (k : Bytes) → Among k keys
      → queue w k ≡ []

Among-append : (k : Bytes) (xs ys : List Bytes) → Among k ys → Among k (xs ++ ys)
Among-append k [] ys h = h
Among-append k (x ∷ xs) ys h = inr (Among-append k xs ys h)

Among-map :
    (prefix channel : Bytes) (channels : List Bytes)
    → Among channel channels
    → Among (prefix ++ channel) (map (λ c. prefix ++ c) channels)
Among-map prefix channel [] h = elim h [ ]
Among-map prefix channel (x ∷ xs) (inl e) = inl (ap (λ c. prefix ++ c) e)
Among-map prefix channel (x ∷ xs) (inr h) = inr (Among-map prefix channel xs h)

pub without-append :
    (prefix channel : Bytes) → without_prefix prefix (prefix ++ channel) ≡ ok channel
unfolding without_prefix
without-append prefix channel =
    let long : ltb (length (prefix ++ channel)) (length prefix) ≡ false =
      ground (arith, length-append prefix channel) in
    rw (long, drop-append prefix channel 0 (length prefix) (omega arith))

module _ (redis : Redis) (law : Stores redis) (prefix : Bytes) where
  open law use {text, queue}

  pub sent_text :
      (name channel buffer : Bytes) (w : redis.World)
      → text (send_to redis prefix name channel buffer w) (prefix ++ name) ≡ some buffer
  unfolding send_to
  sent_text name channel buffer w =
      law.text-expire _ _ _ _
      ∙ law.text-rpush _ _ _ _
      ∙ law.text-expire _ _ _ _
      ∙ law.text-set _ _ _

  -- What Send() needs of the keys: neither list nor text is in its way.
  pub record Usable (name channel : Bytes) (w : redis.World) : Type 0 where
    pub other_name : (prefix ++ channel) ≢ (prefix ++ name)
    pub no_list : queue w (prefix ++ name) ≡ []
    pub no_text : text w (prefix ++ channel) ≡ none

  -- SET on a key without a list leaves every list as it is.
  set_lists :
      (k v j : Bytes) (w : redis.World) → queue w k ≡ [] → queue (redis.set k v w) j ≡ queue w j
  set_lists k v j w empty = elim (Bytes-discrete j k) [
    | yes same ↦
        ap (queue (redis.set k v w)) same ∙ law.queue-set k v w ∙ sym (ap (queue w) same ∙ empty)
    | no other ↦ law.queue-set_other k v j w other
  ]

  pub sent_queue :
      (name channel buffer : Bytes) (w : redis.World)
      → Usable name channel w
      → queue (send_to redis prefix name channel buffer w) (prefix ++ channel)
        ≡ queue w (prefix ++ channel) ++ (prefix ++ name) ∷ []
  unfolding send_to
  sent_queue name channel buffer w usable =
      law.queue-expire _ _ _ _
      ∙ law.queue-rpush _ _ _
          (law.text-expire _ _ _ _ ∙ law.text-set_other _ _ _ _ usable.other_name ∙ usable.no_text)
      ∙ ap (λ q. q ++ (prefix ++ name) ∷ [])
          (law.queue-expire _ _ _ _ ∙ set_lists _ _ _ _ usable.no_list)

  pub sent_other :
      (name channel buffer j : Bytes) (w : redis.World)
      → queue w (prefix ++ name) ≡ []
      → j ≢ (prefix ++ channel)
      → queue (send_to redis prefix name channel buffer w) j ≡ queue w j
  unfolding send_to
  sent_other name channel buffer j w no_list h =
      law.queue-expire _ _ _ _
      ∙ law.queue-rpush_other _ _ _ _ h
      ∙ (law.queue-expire _ _ _ _ ∙ set_lists _ _ _ _ no_list)

  pub received_sent :
      (channel data_key buffer : Bytes) (w : redis.World)
      → redis.get data_key w ≡ some buffer
      → received redis prefix (some (prefix ++ channel, data_key)) w ≡ ok (channel, buffer)
  unfolding received data_of
  received_sent channel data_key buffer w h = rw (without-append prefix channel, h) refl

  pub asked_key :
      (channel : Bytes) (channels : List Bytes)
      → Among channel channels
      → Among (prefix ++ channel) (prefixed_channels prefix channels)
  unfolding prefixed_channels
  asked_key channel channels h =
      Among-append (prefix ++ channel) (replicate (length channels) [])
        (map (λ c. prefix ++ c) channels) (Among-map prefix channel channels h)

  -- Of the keys asked for, which were empty, only the channel's gives something: the data's key.
  popped :
      (name channel buffer : Bytes) (keys : List Bytes) (w : redis.World)
      → Among (prefix ++ channel) keys
      → ((k : Bytes) → Among k keys → queue w k ≡ [])
      → Usable name channel w
      → (redis.blpop keys (send_to redis prefix name channel buffer w)).0
        ≡ some (prefix ++ channel, prefix ++ name)
  popped name channel buffer keys w asked quiet usable =
      elim (Option-cases (redis.blpop keys w').0) [
        | inl e ↦
            let nothing = sym filled ∙ law.blpop_none keys w' e (prefix ++ channel) asked in
            absurd (cc)
        | inr ((k, v), e) ↦
            let first = law.blpop_some keys w' k v e in
            elim (Bytes-discrete k (prefix ++ channel)) [
              | yes same ↦
                  e
                  ∙ ap₂ (λ a b. some (a, b)) same
                      (ap (λ l. get_or l 0 []) (sym first ∙ ap (queue w') same ∙ filled))
              | no other ↦
                  let before = sent_other name channel buffer k w usable.no_list other in
                  let none_there = quiet k (law.blpop_asked keys w' k v e) in absurd (cc)
            ]
      ]
    where
      w' : redis.World
      w' = send_to redis prefix name channel buffer w

      filled : queue w' (prefix ++ channel) ≡ (prefix ++ name) ∷ []
      filled =
          sent_queue name channel buffer w usable
          ∙ ap (λ q. q ++ (prefix ++ name) ∷ []) (quiet (prefix ++ channel) asked)

  -- A message that is sent on a channel, when nothing waits on any of the keys asked for, is what
  -- the next ReceiveMany() on channels with this one among them gives, with its channel.
  pub receive_many-send :
      (shuffle : List Bytes → List Bytes)
      → ((k : Bytes) (ks : List Bytes) → Among k ks → Among k (shuffle ks))
      → (name channel buffer : Bytes) (channels : List Bytes) (w : redis.World)
      → Among channel channels
      → ((k : Bytes) → Among k (shuffle (prefixed_channels prefix channels)) → queue w k ≡ [])
      → Usable name channel w
      → let w' = send_to redis prefix name channel buffer w in
        receive_many redis prefix shuffle channels w'
        ≡ ok ((channel, buffer), (redis.blpop (shuffle (prefixed_channels prefix channels)) w').1)
  unfolding receive_many
  receive_many-send shuffle keeps name channel buffer channels w asked quiet usable =
      let keys = shuffle (prefixed_channels prefix channels) in
      let w' = send_to redis prefix name channel buffer w in
      let stored =
        law.get_text (prefix ++ name) (redis.blpop keys w').1
        ∙ law.text-blpop keys (prefix ++ name) w'
        ∙ sent_text name channel buffer w in
      rw
        (
          popped name channel buffer keys w
              (keeps (prefix ++ channel) (prefixed_channels prefix channels)
                (asked_key channel channels asked))
              quiet usable,
          received_sent channel (prefix ++ name) buffer (redis.blpop keys w').1 stored,
        )
        refl

-- The first keys asked for are empty texts, one for each channel. A reply on such a key, where the
-- prefix is not empty, ends ReceiveMany() with an exception.
pub empty_key_throws :
    (redis : Redis) (prefix data_key : Bytes) (channels : List Bytes)
    (shuffle : List Bytes → List Bytes) (w : redis.World)
    → 0 < length prefix
    → (redis.blpop (shuffle (prefixed_channels prefix channels)) w).0 ≡ some ([], data_key)
    → (prefixed_channels prefix channels
        ≡ replicate (length channels) [] ++ map (λ c. prefix ++ c) channels)
      × (receive_many redis prefix shuffle channels w ≡ err Error.logic_error)
unfolding prefixed_channels receive_many received without_prefix
empty_key_throws redis prefix data_key channels shuffle w h e =
    let short : ltb 0 (length prefix) ≡ true = ground arith in (refl, rw (e, short) refl)
