-- ===== src/System/Sound.antt =====
-- Every request of the system, over any interleaving: the invariant, and what it says of the
-- application's messages.
use mathlib.Core.Logic.{if_pos, if_neg}
use iis_asgi_handler.Prelude.{
  ℕ, ◌<◌, ◌≡◌, ◌⊎◌, inl, ◌≢◌, refl, sym, ap, subst, ◌∙◌, List, [], ◌∷◌, map, Option, some, Bytes,
  Bytes-discrete, ℕ_discrete,
}
use iis_asgi_handler.Iis.{Iis, Lawful}
use iis_asgi_handler.Channels.{Engine}
use iis_asgi_handler.Messages.{AsgiHttpResponseMsg}
use iis_asgi_handler.Request.{RawRequest}
use iis_asgi_handler.Pump.{Phase, top, receiving, exited, add_channel, find_callback, step}
use iis_asgi_handler.Pump.Dispatch.{find-set}
use iis_asgi_handler.Redis.Delivery.{Among}
use iis_asgi_handler.Http.{awaiting}
use iis_asgi_handler.Http.Connection.{Connection}
use iis_asgi_handler.Http.Reach.{Reach, asgi_request}
use iis_asgi_handler.System.{System, IsInitial, IsOthers, set}
use iis_asgi_handler.System.Requests.{IsQuiet}
use iis_asgi_handler.System.Views.{tasks_of, received_of, QuietOr}
use iis_asgi_handler.System.Moves.{View, stays-View, joins-View}

-- The thread waits only for channels that are registered.
abbrev pub Taken : Phase → List (Bytes × ℕ) → Type 0
Taken (receiving ns) m = (k : Bytes) → Among k ns → (i : ℕ) × (find_callback k m ≡ some i)
Taken _ m = Unit {0}

pub Taken-grows :
    (phase : Phase) (m m' : List (Bytes × ℕ))
    → ((k : Bytes) (i : ℕ) → find_callback k m ≡ some i → (j : ℕ) × (find_callback k m' ≡ some j))
    → Taken phase m
    → Taken phase m'
Taken-grows top m m' g t = tt
Taken-grows exited m m' g t = tt
Taken-grows (receiving ns) m m' g t = λ k a. let (i, e) = t k a in g k i e

pub by_request :
    (P : ℕ → Type 0) (count i : ℕ)
    → P i
    → ((j : ℕ) → j < count → j ≢ i → P j)
    → (j : ℕ) → j < count
    → P j
by_request P count i p q j lt = elim (ℕ_discrete j i) [
  | yes same ↦ subst P (sym same) p
  | no other ↦ q j lt other
]

module _ {iis : Iis} (i : ℕ) (c : Connection iis) (s : System iis) where
  pub set_same : set i c s i ≡ some c
  set_same = if_pos (ℕ_discrete i i) refl _ _

  pub set_other : {j : ℕ} → j ≢ i → set i c s j ≡ s.connections j
  set_other {j} other = if_neg (ℕ_discrete j i) other _ _

  pub came_too :
      {count : ℕ}
      → ((j : ℕ) (c' : Connection iis) → s.connections j ≡ some c' → j < count)
      → i < count
      → (j : ℕ) (c' : Connection iis) → set i c s j ≡ some c'
      → j < count
  came_too {count} came lt j c' e = elim (ℕ_discrete j i) [
    | yes same ↦ subst (λ n. n < count) (sym same) lt
    | no other ↦ came j c' (sym (set_other other) ∙ e)
  ]

module _ (iis : Iis) (law : Lawful iis) (engine : Engine) (to_bytes : List ℕ → Bytes) (fuel : ℕ)
    (unpack : Bytes → Option AsgiHttpResponseMsg) (raw : ℕ → RawRequest) (random : ℕ → engine.State)
    (world : ℕ → iis.World) (count : ℕ) where
  abbrev pub Reached : ℕ → Connection iis → Type 0
  Reached i = Reach iis law engine to_bytes fuel (raw i) (random i) (world i)

  -- The reply channel of the request.
  abbrev pub channel_of : ℕ → Bytes
  channel_of i =
      (asgi_request iis law engine to_bytes fuel (raw i) (random i) (world i)).reply_channel

  pub record Sound (s : System iis) : Type 0 where
    pub views :
        (i : ℕ)
        → i < count
        → View unpack
            (Reached i)
            i
            (channel_of i)
            (s.connections i)
            (find_callback (channel_of i) s.pump.callbacks)
            (tasks_of i s.pump.tasks)
            (s.layer (channel_of i))
            (s.history (channel_of i))
    pub came : (i : ℕ) (c : Connection iis) → s.connections i ≡ some c → i < count
    pub owned :
        (k : Bytes) (i : ℕ)
        → find_callback k s.pump.callbacks ≡ some i
        → ((i < count) × (k ≡ channel_of i))
          ⊎ IsOthers iis law engine to_bytes fuel unpack raw random world count i k
    pub taken : Taken s.pump.phase s.pump.callbacks
    pub none_dropped : s.pump.dropped ≡ []

  pub initial-Sound :
      (s : System iis)
      → IsInitial iis law engine to_bytes fuel unpack raw random world count s
      → Sound s
  unfolding tasks_of find_callback
  initial-Sound s init = record {
    views = λ i lt.
        rw (init.no_connections i, init.no_callbacks, init.no_tasks)
          (record {
            reached = λ c e. absurd (cc);
            mode = inl (tt, refl, refl);
            kept = ap (map unpack) (init.all_there (channel_of i));
          });
    came = λ i c e. absurd (none_came (sym (init.no_connections i) ∙ e));
    owned = λ k i e. absurd (cc);
    taken = rw init.at_top tt;
    none_dropped = init.none_dropped;
  }
    where
      none_came : {c : Connection iis} → Option.none ≢ some c
      none_came e = cc

  module _
      (distinct : (i j : ℕ) → i < count → j < count → channel_of i ≡ channel_of j → i ≡ j) where
    other_channel : {i j : ℕ} → i < count → j < count → j ≢ i → channel_of i ≢ channel_of j
    other_channel {i} {j} p q other e = other (sym (distinct i j p q e))

    module _ (s : System iis) (h : Sound s) (i : ℕ) (lt : i < count) (c : Connection iis) where
      module _ (q : QuietOr (s.connections i)) (r : Reached i c)
          (same : c.received ≡ received_of (s.connections i)) where
        pub stays-Sound : IsQuiet c → Sound (record s { connections = set i c s })
        stays-Sound quiet = record {
          views =
              by_request _ count i
                (rw (set_same i c s)
                  (stays-View unpack (Reached i) i (channel_of i) (h.views i lt) c q r same quiet))
                λ j lt' other. rw (set_other i c s other) (h.views j lt');
          came = came_too i c s h.came lt;
          owned = h.owned;
          taken = h.taken;
          none_dropped = h.none_dropped;
        }

        pub joins-Sound :
            c.env.waiting ≡ awaiting (channel_of i) ∷ []
            → Sound (record s {
              connections = set i c s;
              pump = step (add_channel (channel_of i) i) s.pump;
            })
        unfolding step
        joins-Sound w = record {
          views =
              by_request _ count i
                (rw
                  (
                    set_same i c s,
                    find-set (channel_of i) (channel_of i) i s.pump.callbacks,
                    if_pos (Bytes-discrete (channel_of i) (channel_of i)) refl,
                  )
                  (joins-View unpack (Reached i) i (channel_of i) (h.views i lt) c q r same w))
                λ j lt' other.
                  rw
                    (
                      set_other i c s other,
                      find-set (channel_of j) (channel_of i) i s.pump.callbacks,
                      if_neg (Bytes-discrete (channel_of i) (channel_of j))
                          (other_channel lt lt' other),
                    )
                    (h.views j lt');
          came = came_too i c s h.came lt;
          owned = λ k j e. elim (Bytes-discrete (channel_of i) k) [
            | yes own ↦
                let e' =
                  rw
                    (
                      find-set k (channel_of i) i s.pump.callbacks,
                      if_pos (Bytes-discrete (channel_of i) k) own,
                    )
                    at e in
                inl (subst (λ n. (n < count) × (k ≡ channel_of n)) (the_same e') (lt, sym own))
            | no other ↦ h.owned k j (
                rw
                  (
                    find-set k (channel_of i) i s.pump.callbacks,
                    if_neg (Bytes-discrete (channel_of i) k) other,
                  )
                  at e)
          ];
          taken =
              Taken-grows s.pump.phase s.pump.callbacks _
                (λ k j e. elim (Bytes-discrete (channel_of i) k) [
                  | yes own ↦ (
                    i,
                    rw
                        (
                          find-set k (channel_of i) i s.pump.callbacks,
                          if_pos (Bytes-discrete (channel_of i) k) own,
                        )
                        refl,
                  )
                  | no other ↦ (
                    j,
                    rw
                        (
                          find-set k (channel_of i) i s.pump.callbacks,
                          if_neg (Bytes-discrete (channel_of i) k) other,
                        )
                        e,
                  )
                ])
                h.taken;
          none_dropped = h.none_dropped;
        }
          where
            the_same : {j : ℕ} → some i ≡ some j → i ≡ j
            the_same e = cc
