-- ===== src/Redis/Represents.antt =====
-- The Redis channel layer as an implementation of channels, a queue of messages for each name: how
-- the server's state represents them, and Send().
use mathlib.Core.Logic.{ite}
use iis_asgi_handler.Prelude.{
  ◌≡◌, ◌≢◌, refl, ap, ◌∙◌, inl, inr, List, [], ◌∷◌, ◌++◌, some, Bytes, Bytes-discrete, length,
  length-append, ◌<◌, drop, arith,
}
use iis_asgi_handler.Redis.{Redis, send_to}
use iis_asgi_handler.Redis.Delivery.{Among, Stores, Usable, sent_text, sent_queue, sent_other}

-- The abstract channels, and what the two operations do to them.
abbrev pub Channels : Type 0
Channels = Bytes → List Bytes

abbrev pub put : Bytes → List Bytes → Channels → Channels
put channel messages layer = λ c. ite (Bytes-discrete c channel) messages (layer c)

-- A key after the prefix determines the channel.
pub prefix_cancel : (prefix c d : Bytes) → (prefix ++ c) ≡ (prefix ++ d) → c ≡ d
prefix_cancel [] c d h = h
prefix_cancel (x ∷ prefix) c d h = prefix_cancel prefix c d (ap (drop 1) h)

pub empty_key : (prefix channel : Bytes) → 0 < length prefix → [] ≢ (prefix ++ channel)
empty_key prefix channel h e = let l = ap length e in omega (arith, length-append prefix channel)

module _ (redis : Redis) (law : Stores redis) (prefix : Bytes) where
  open law use {text, queue}

  -- Each key of a queue holds the message in its place.
  abbrev pub Hold : redis.World → List Bytes → List Bytes → Type 0
  Hold w [] [] = Unit {0}
  Hold w (k ∷ ks) (m ∷ ms) = (text w k ≡ some m) × Hold w ks ms
  Hold w _ _ = ⊥

  -- The server's state stands for the channels: the queue of each channel's key holds its
  -- messages, and nothing was pushed on the empty key.
  pub record Represents (w : redis.World) (layer : Channels) : Type 0 where
    pub holds : (c : Bytes) → Hold w (queue w (prefix ++ c)) (layer c)
    pub no_empty_key : queue w [] ≡ []

  -- No channel's list has the data's key.
  abbrev pub Unused : Bytes → redis.World → Type 0
  Unused key w = (c k : Bytes) → Among k (queue w (prefix ++ c)) → k ≢ key

  Hold-append :
      (w : redis.World) (ks ms : List Bytes) (k m : Bytes)
      → Hold w ks ms
      → text w k ≡ some m
      → Hold w (ks ++ k ∷ []) (ms ++ m ∷ [])
  Hold-append w [] [] k m h e = (e, tt)
  Hold-append w (x ∷ ks) (y ∷ ms) k m h e = (h.0, Hold-append w ks ms k m h.1 e)
  Hold-append w [] (y ∷ ms) k m h e = elim h [ ]
  Hold-append w (x ∷ ks) [] k m h e = elim h [ ]

  -- Only the texts of the keys matter.
  pub Hold-same :
      (w w' : redis.World) (ks ms : List Bytes)
      → ((k : Bytes) → Among k ks → text w' k ≡ text w k)
      → Hold w ks ms
      → Hold w' ks ms
  Hold-same w w' [] [] same h = tt
  Hold-same w w' (k ∷ ks) (m ∷ ms) same h =
      (same k (inl refl) ∙ h.0, Hold-same w w' ks ms (λ j a. same j (inr a)) h.1)
  Hold-same w w' [] (m ∷ ms) same h = h
  Hold-same w w' (k ∷ ks) [] same h = h

  sent_text_other :
      (name channel buffer j : Bytes) (w : redis.World)
      → j ≢ (prefix ++ name)
      → text (send_to redis prefix name channel buffer w) j ≡ text w j
  unfolding send_to
  sent_text_other name channel buffer j w h =
      law.text-expire _ _ _ _
      ∙ law.text-rpush _ _ _ _
      ∙ law.text-expire _ _ _ _
      ∙ law.text-set_other _ _ _ _ h

  -- Send() is the append to the abstract channel, where the prefix is not empty, the name of the data
  -- is not the channel's, no channel's list has the data's key and no list is on it, and no text is on
  -- the channel's key.
  pub send_to-Represents :
      (name channel buffer : Bytes) (w : redis.World) (layer : Channels)
      → 0 < length prefix
      → Represents w layer
      → Unused (prefix ++ name) w
      → Usable redis law prefix name channel w
      → Represents
          (send_to redis prefix name channel buffer w)
          (put channel (layer channel ++ buffer ∷ []) layer)
  send_to-Represents name channel buffer w layer nonempty r unused usable = record {
    holds = λ c.
        elim (Bytes-discrete c channel)
          as (λ d.
            Hold w' (queue w' (prefix ++ c)) (ite d (layer channel ++ buffer ∷ []) (layer c))) [
              | yes same ↦
                  let filled =
                    ap (λ d. queue w' (prefix ++ d)) same
                    ∙ sent_queue redis law prefix name channel buffer w usable in
                  rw filled (
                    Hold-append w' (queue w (prefix ++ channel)) (layer channel) (prefix ++ name)
                      buffer (kept channel) (sent_text redis law prefix name channel buffer w))
              | no other ↦
                  rw
                    (sent_other redis law prefix name channel buffer (prefix ++ c) w usable.no_list
                      (λ e. other (prefix_cancel prefix c channel e)))
                    (kept c)
            ];
    no_empty_key =
        sent_other redis law prefix name channel buffer [] w usable.no_list
          (empty_key prefix channel nonempty)
        ∙ r.no_empty_key;
  }
    where
      w' : redis.World
      w' = send_to redis prefix name channel buffer w

      kept : (c : Bytes) → Hold w' (queue w (prefix ++ c)) (layer c)
      kept c =
          Hold-same w w' (queue w (prefix ++ c)) (layer c)
            (λ k a. sent_text_other name channel buffer k w (unused c k a)) (r.holds c)
