-- ===== src/System/Handing.antt =====
-- The system's pump as every request sees it when it takes a message: the callback is handed over,
-- and its task runs.
use mathlib.Core.Logic.{if_pos, if_neg}
use iis_asgi_handler.Prelude.{
  ℕ, ◌<◌, ◌≡◌, inl, inr, ◌≢◌, refl, sym, ap, subst, ◌∙◌, List, [], ◌∷◌, ◌++◌, append-nil, Option,
  length, codes, arith, some, Bytes, Bytes-discrete,
}
use iis_asgi_handler.Iis.{Iis, Lawful}
use iis_asgi_handler.Channels.{Engine}
use iis_asgi_handler.Channels.Names.{new_channel-prefix}
use iis_asgi_handler.Http.Start.{http_request_msg}
use iis_asgi_handler.Messages.{AsgiHttpResponseMsg}
use iis_asgi_handler.Request.{RawRequest}
use iis_asgi_handler.Pump.{top, receiving, ResponsePump, reply, find_callback, erase_callback, step}
use iis_asgi_handler.Pump.Dispatch.{find-erase, reply_found}
use iis_asgi_handler.Redis.Delivery.{Among}
use iis_asgi_handler.Redis.Represents.{put}
use iis_asgi_handler.Http.Connection.{Connection}
use iis_asgi_handler.System.{System, received_from, called}
use iis_asgi_handler.System.Requests.{IsQuiet}
use iis_asgi_handler.System.Views.{
  tasks_of, tasks_of-append, tasks_of-own, tasks_of-other, received_of,
}
use iis_asgi_handler.System.Moves.{handed-View, called-View}
use iis_asgi_handler.System.Sound.{
  Reached, channel_of, Sound, Taken, by_request, came_too, set_same, set_other,
}
use iis_asgi_handler.System.Others.{others_handed-Sound}
use iis_asgi_handler.System.Dispatching.{put_own, put_other}

pub handed :
    (channel m : Bytes) (ns : List Bytes) (q : ResponsePump ℕ) {i : ℕ}
    → channel ≢ []
    → q.phase ≡ receiving ns
    → find_callback channel q.callbacks ≡ some i
    → step (reply channel m) q ≡ record q {
      callbacks = erase_callback channel q.callbacks;
      phase = top;
      delay = 0;
      tasks = q.tasks ++ (channel, i, m) ∷ [];
    }
handed [] m ns q ne at_reply found = absurd (ne refl)
handed (x ∷ channel) m ns q ne at_reply found = reply_found x channel m ns q at_reply found

module _ (iis : Iis) (law : Lawful iis) (engine : Engine) (to_bytes : List ℕ → Bytes) (fuel : ℕ)
    (unpack : Bytes → Option AsgiHttpResponseMsg) (raw : ℕ → RawRequest) (random : ℕ → engine.State)
    (world : ℕ → iis.World) (count : ℕ) where
  abbrev IsSound : System iis → Type 0
  IsSound = Sound iis law engine to_bytes fuel unpack raw random world count

  abbrev chan : ℕ → Bytes
  chan = channel_of iis law engine to_bytes fuel unpack raw random world count

  abbrev Reaches : ℕ → Connection iis → Type 0
  Reaches = Reached iis law engine to_bytes fuel unpack raw random world count

  pub chan_not_empty : (i : ℕ) → chan i ≢ []
  unfolding http_request_msg
  chan_not_empty i e =
      let (_, n, _) = new_channel-prefix engine (codes "http.request!") (random i) in
      let z = ap length e in omega arith

  module _ (distinct : (i j : ℕ) → i < count → j < count → chan i ≡ chan j → i ≡ j) (s : System iis)
      (h : IsSound s) where
    handed-Sound :
        (i : ℕ) (lt : i < count) (m : Bytes) (rest : List Bytes)
        → find_callback (chan i) s.pump.callbacks ≡ some i
        → s.layer (chan i) ≡ m ∷ rest
        → IsSound (record s {
          pump = record s.pump {
            callbacks = erase_callback (chan i) s.pump.callbacks;
            phase = top;
            delay = 0;
            tasks = s.pump.tasks ++ (chan i, i, m) ∷ [];
          };
          layer = put (chan i) rest s.layer;
        })
    unfolding tasks_of
    handed-Sound i lt m rest found oldest = record {
      views =
          by_request _ count i
            (rw
              (
                tasks_of-own i (chan i) m s.pump.tasks [],
                find-erase (chan i) (chan i) s.pump.callbacks,
                if_pos (Bytes-discrete (chan i) (chan i)) refl,
                put_own (chan i) rest s.layer (chan i) refl,
              )
              (handed-View unpack (Reaches i) i (chan i) (h.views i lt) m rest found oldest))
            λ j lt' other.
              rw
                (
                  tasks_of-other j i (chan i) m s.pump.tasks [] (λ e. other (sym e)),
                  append-nil s.pump.tasks,
                  find-erase (chan j) (chan i) s.pump.callbacks,
                  if_neg (Bytes-discrete (chan i) (chan j))
                      (λ e. other (sym (distinct i j lt lt' e))),
                  put_other (chan i) rest s.layer (chan j) (λ e. other (distinct j i lt' lt e)),
                )
                (h.views j lt');
      came = h.came;
      owned = λ k j e. elim (Bytes-discrete (chan i) k) [
        | yes own ↦ absurd (
            gone (
              rw (find-erase k (chan i) s.pump.callbacks, if_pos (Bytes-discrete (chan i) k) own) at
                e))
        | no other ↦ h.owned k j (
            rw (find-erase k (chan i) s.pump.callbacks, if_neg (Bytes-discrete (chan i) k) other) at
              e)
      ];
      taken = tt;
      none_dropped = h.none_dropped;
    }
      where
        gone : {j : ℕ} → Option.none ≢ some j
        gone e = cc

    pub received-Sound :
        (ns : List Bytes) (channel m : Bytes) (rest : List Bytes)
        → s.pump.phase ≡ receiving ns
        → Among channel ns
        → s.layer channel ≡ m ∷ rest
        → IsSound (received_from channel m rest s)
    unfolding received_from
    received-Sound ns channel m rest at_reply among oldest =
        let (i, found) = subst (λ p. Taken p s.pump.callbacks) at_reply h.taken channel among in
        elim (h.owned channel i found) [
          | inl (lt, same) ↦
              let found' = rw same at found in
              subst (λ k. IsSound (received_from k m rest s)) (sym same)
                (subst (λ q. IsSound (record s { pump = q; layer = put (chan i) rest s.layer }))
                  (sym (handed (chan i) m ns s.pump (chan_not_empty i) at_reply found'))
                  (handed-Sound i lt m rest found' (rw same at oldest)))
          | inr (high, ne, apart) ↦
              subst (λ q. IsSound (record s { pump = q; layer = put channel rest s.layer }))
                (sym (handed channel m ns s.pump ne at_reply found))
                (others_handed-Sound iis law engine to_bytes fuel unpack raw random world count s h
                  i channel m rest (high, ne, apart))
        ]

    pub called-Sound :
        (i : ℕ) (lt : i < count) (c : Connection iis) (channel message : Bytes)
        (m : AsgiHttpResponseMsg) (before after : List (Bytes × ℕ × Bytes))
        → s.pump.tasks ≡ before ++ (channel, i, message) ∷ after
        → unpack message ≡ some m
        → Reaches i c
        → c.received ≡ received_of (s.connections i) ++ m ∷ []
        → IsQuiet c
        → IsSound (called i c (before ++ after) s)
    unfolding called
    called-Sound i lt c channel message m before after at unpacked r got quiet = record {
      views =
          by_request _ count i
            (rw (set_same i c s, tasks_of-append i before after)
              (called-View unpack (Reaches i) i (chan i) (h.views i lt) c channel message m
                (tasks_of i before) (tasks_of i after) r
                (ap (tasks_of i) at ∙ tasks_of-own i channel message before after) unpacked got
                quiet))
            λ j lt' other.
              rw
                (
                  set_other i c s other,
                  ← tasks_of-other j i channel message before after (λ e. other (sym e)),
                  ← at,
                )
                (h.views j lt');
      came = came_too i c s h.came lt;
      owned = h.owned;
      taken = h.taken;
      none_dropped = h.none_dropped;
    }
