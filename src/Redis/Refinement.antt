-- ===== src/Redis/Refinement.antt =====
-- ReceiveMany() as what the abstract channels allow.
use mathlib.Core.Logic.{ite}
use iis_asgi_handler.Prelude.{
  ℕ, zero, suc, ◌≡◌, refl, sym, ap, ◌∙◌, ◌⊎◌, inl, inr, Option-cases, List, [], ◌∷◌, ◌++◌, map,
  none, some, Bytes, Bytes-discrete, length, ◌<◌, replicate, Result, ok,
}
use iis_asgi_handler.Redis.{Redis, prefixed_channels, received, receive_many}
use iis_asgi_handler.Redis.Delivery.{Among, Stores, received_sent, asked_key}
use iis_asgi_handler.Redis.Represents.{
  Channels, put, empty_key, prefix_cancel, Hold, Represents, Hold-same,
}

-- What is asked for, apart from the empty keys, are the channels' keys.
asked_channel :
    (prefix k : Bytes) (channels : List Bytes)
    → Among k (map (λ c. prefix ++ c) channels)
    → (c : Bytes) × Among c channels × (k ≡ prefix ++ c)
asked_channel prefix k [] h = elim h [ ]
asked_channel prefix k (c ∷ channels) (inl e) = (c, inl refl, e)
asked_channel prefix k (c ∷ channels) (inr h) =
    let (d, among, e) = asked_channel prefix k channels h in (d, inr among, e)

asked_empty :
    (n : ℕ) (k : Bytes) (ks : List Bytes) → Among k (replicate n [] ++ ks) → (k ≡ []) ⊎ Among k ks
asked_empty zero k ks h = inr h
asked_empty (suc n) k ks (inl e) = inl e
asked_empty (suc n) k ks (inr h) = asked_empty n k ks h

module _ (redis : Redis) (law : Stores redis) (prefix : Bytes) where
  open law use {text, queue}

  Hold-nil : (w : redis.World) (ms : List Bytes) → Hold redis law prefix w [] ms → ms ≡ []
  Hold-nil w [] h = refl
  Hold-nil w (m ∷ ms) h = elim h [ ]

  Hold-cons :
      (w : redis.World) (k : Bytes) (ks ms : List Bytes)
      → Hold redis law prefix w (k ∷ ks) ms
      → (m : Bytes) × (rest : List Bytes) × (ms ≡ m ∷ rest)
        × (text w k ≡ some m)
        × Hold redis law prefix w ks rest
  Hold-cons w k ks [] h = elim h [ ]
  Hold-cons w k ks (m ∷ ms) h = (m, ms, refl, h.0, h.1)

  -- What ReceiveMany() may give, in the abstract.
  abbrev pub Takes :
      List Bytes → Channels → redis.World → Result ((Bytes × Bytes) × redis.World) → Type 0
  Takes channels layer w' result =
      (((c : Bytes) → Among c channels → layer c ≡ [])
        × (result ≡ ok (([], []), w'))
        × Represents redis law prefix w' layer)
      ⊎ ((c : Bytes) × (m : Bytes) × (rest : List Bytes) × Among c channels
          × (layer c ≡ m ∷ rest)
          × (result ≡ ok ((c, m), w'))
          × Represents redis law prefix w' (put c rest layer))

  module _ (keys : List Bytes) (w : redis.World) (layer : Channels)
      (r : Represents redis law prefix w layer) where
    text_kept :
        (ks ms : List Bytes)
        → Hold redis law prefix w ks ms
        → Hold redis law prefix (redis.blpop keys w).1 ks ms
    text_kept ks ms h =
        Hold-same redis law prefix w (redis.blpop keys w).1 ks ms (λ k a. law.text-blpop keys k w) h

    nothing-Represents :
        (redis.blpop keys w).0 ≡ none → Represents redis law prefix (redis.blpop keys w).1 layer
    nothing-Represents e = record {
      holds = λ c.
          rw (law.blpop_nothing keys w (prefix ++ c) e)
            (text_kept (queue w (prefix ++ c)) (layer c) (r.holds c));
      no_empty_key = law.blpop_nothing keys w [] e ∙ r.no_empty_key;
    }

    popped-Represents :
        (c v : Bytes) (rest : List Bytes)
        → 0 < length prefix
        → (redis.blpop keys w).0 ≡ some (prefix ++ c, v)
        → Hold redis law prefix w (queue (redis.blpop keys w).1 (prefix ++ c)) rest
        → Represents redis law prefix (redis.blpop keys w).1 (put c rest layer)
    popped-Represents c v rest nonempty e h = record {
      holds = λ d.
          elim (Bytes-discrete d c)
            as (λ b.
              Hold redis law prefix (redis.blpop keys w).1
                (queue (redis.blpop keys w).1 (prefix ++ d)) (ite b rest (layer d))) [
                  | yes same ↦
                      rw (ap (λ x. queue (redis.blpop keys w).1 (prefix ++ x)) same)
                        (text_kept (queue (redis.blpop keys w).1 (prefix ++ c)) rest h)
                  | no other ↦
                      rw
                        (law.blpop_other keys w (prefix ++ c) v (prefix ++ d) e
                          (λ eq. other (prefix_cancel prefix d c eq)))
                        (text_kept (queue w (prefix ++ d)) (layer d) (r.holds d))
                ];
      no_empty_key =
          law.blpop_other keys w (prefix ++ c) v [] e (empty_key prefix c nonempty)
          ∙ r.no_empty_key;
    }

  received_nothing : (w : redis.World) → received redis prefix none w ≡ ok ([], [])
  unfolding received
  received_nothing w = refl

  -- The key of a reply is the key of a channel that was asked for.
  popped_channel :
      (channels : List Bytes) (w : redis.World) (k v : Bytes) (rest : List Bytes)
      → queue w [] ≡ []
      → queue w k ≡ v ∷ rest
      → Among k (prefixed_channels prefix channels)
      → (c : Bytes) × Among c channels × (k ≡ prefix ++ c)
  unfolding prefixed_channels
  popped_channel channels w k v rest none_empty first among =
      elim (asked_empty (length channels) k (map (λ c. prefix ++ c) channels) among) [
        | inl e ↦ let nothing = sym first ∙ ap (queue w) e ∙ none_empty in absurd (cc)
        | inr h ↦ asked_channel prefix k channels h
      ]

  -- Where the server's state represents channels, the prefix is not empty and the shuffle gives just
  -- the keys it is given, ReceiveMany() takes the oldest message of one of the channels asked for,
  -- or gives nothing if they are all empty.
  pub receive_many-Takes :
      (shuffle : List Bytes → List Bytes) (channels : List Bytes) (w : redis.World)
      (layer : Channels)
      → ((k : Bytes) (ks : List Bytes) → Among k ks → Among k (shuffle ks))
      → ((k : Bytes) (ks : List Bytes) → Among k (shuffle ks) → Among k ks)
      → 0 < length prefix
      → Represents redis law prefix w layer
      → Takes channels layer
          (redis.blpop (shuffle (prefixed_channels prefix channels)) w).1
          (receive_many redis prefix shuffle channels w)
  unfolding receive_many
  receive_many-Takes shuffle channels w layer keeps back nonempty r =
      elim (Option-cases (redis.blpop keys w).0) [
        | inl e ↦ inl (
          λ c a. Hold-nil w (layer c) (
              rw
                (law.blpop_none keys w e (prefix ++ c) (
                  keeps (prefix ++ c) (prefixed_channels prefix channels)
                    (asked_key redis law prefix c channels a)))
                at (r.holds c)),
          rw (e, received_nothing (redis.blpop keys w).1),
          nothing-Represents keys w layer r e,
        )
        | inr ((k, v), e) ↦
            let first = law.blpop_some keys w k v e in
            let (c, among, at_channel) =
              popped_channel channels w k v (queue (redis.blpop keys w).1 k) r.no_empty_key first
                (back k (prefixed_channels prefix channels) (law.blpop_asked keys w k v e)) in
            let e' = e ∙ ap (λ j. some (j, v)) at_channel in
            let first' = law.blpop_some keys w (prefix ++ c) v e' in
            let (m, rest, oldest, stored, held) =
              Hold-cons w v (queue (redis.blpop keys w).1 (prefix ++ c)) (layer c)
                (rw first' at (r.holds c)) in
            let got = law.get_text v (redis.blpop keys w).1 ∙ law.text-blpop keys v w ∙ stored in
            inr (
              c,
              m,
              rest,
              among,
              oldest,
              rw (e', received_sent redis law prefix c v m (redis.blpop keys w).1 got),
              popped-Represents keys w layer r c v rest nonempty e' held,
            )
      ]
    where
      keys : List Bytes
      keys = shuffle (prefixed_channels prefix channels)
