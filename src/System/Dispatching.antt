-- ===== src/System/Dispatching.antt =====
-- The channels of the system, and its pump where no request is answered, as every request sees them:
-- a message is sent, the thread looks and finds nothing, and it is told to stop.
use mathlib.Core.Logic.{if_pos, if_neg}
use iis_asgi_handler.Prelude.{
  ℕ, ◌≡◌, ◌≢◌, refl, sym, ap, subst, ◌∙◌, true, false, Bool, List, [], ◌∷◌, ◌++◌, Option, Bytes,
  Bytes-discrete,
}
use iis_asgi_handler.Iis.{Iis, Lawful}
use iis_asgi_handler.Channels.{Engine}
use iis_asgi_handler.Messages.{AsgiHttpResponseMsg}
use iis_asgi_handler.Request.{RawRequest}
use iis_asgi_handler.Pump.{
  top, receiving, take_names, reply, stop, names, look, receive, thread_step, step,
}
use iis_asgi_handler.Pump.Round.{named}
use iis_asgi_handler.Redis.Delivery.{Among}
use iis_asgi_handler.Redis.Represents.{Channels, put}
use iis_asgi_handler.Http.Connection.{Connection}
use iis_asgi_handler.System.{System, sent}
use iis_asgi_handler.System.Moves.{sent-View}
use iis_asgi_handler.System.Sound.{Reached, channel_of, Sound}

pub put_other :
    (channel : Bytes) (ms : List Bytes) (layer : Channels) (k : Bytes)
    → k ≢ channel
    → put channel ms layer k ≡ layer k
put_other channel ms layer k other = if_neg (Bytes-discrete k channel) other _ _

pub put_own :
    (channel : Bytes) (ms : List Bytes) (layer : Channels) (k : Bytes)
    → k ≡ channel
    → put channel ms layer k ≡ ms
put_own channel ms layer k same = if_pos (Bytes-discrete k channel) same _ _

pub appended :
    (channel m : Bytes) (layer : Channels) (k : Bytes)
    → k ≡ channel
    → put channel (layer channel ++ m ∷ []) layer k ≡ layer k ++ m ∷ []
appended channel m layer k same =
    put_own channel _ layer k same ∙ ap (λ c. layer c ++ m ∷ []) (sym same)

module _ (iis : Iis) (law : Lawful iis) (engine : Engine) (to_bytes : List ℕ → Bytes) (fuel : ℕ)
    (unpack : Bytes → Option AsgiHttpResponseMsg) (raw : ℕ → RawRequest) (random : ℕ → engine.State)
    (world : ℕ → iis.World) (count : ℕ) where
  abbrev IsSound : System iis → Type 0
  IsSound = Sound iis law engine to_bytes fuel unpack raw random world count

  abbrev chan : ℕ → Bytes
  chan = channel_of iis law engine to_bytes fuel unpack raw random world count

  abbrev Reaches : ℕ → Connection iis → Type 0
  Reaches = Reached iis law engine to_bytes fuel unpack raw random world count

  module _ (s : System iis) (h : IsSound s) where
    pub sent-Sound : (channel m : Bytes) → IsSound (sent channel m s)
    unfolding sent
    sent-Sound channel m = record {
      views = λ i lt. elim (Bytes-discrete (chan i) channel) [
        | yes same ↦
            rw
              (appended channel m s.layer (chan i) same, appended channel m s.history (chan i) same)
              (sent-View unpack (Reaches i) i (chan i) (h.views i lt) m)
        | no other ↦
            rw
              (
                put_other channel _ s.layer (chan i) other,
                put_other channel _ s.history (chan i) other,
              )
              (h.views i lt)
      ];
      came = h.came;
      owned = h.owned;
      taken = h.taken;
      none_dropped = h.none_dropped;
    }

    look-Sound :
        (b : Bool) (ns : List Bytes)
        → names s.pump.callbacks ≡ ns
        → IsSound (record s { pump = look b ns s.pump })
    unfolding look
    look-Sound true ns e = record {
      views = h.views;
      came = h.came;
      owned = h.owned;
      taken = tt;
      none_dropped = h.none_dropped;
    }
    look-Sound false [] e = record {
      views = h.views;
      came = h.came;
      owned = h.owned;
      taken = tt;
      none_dropped = h.none_dropped;
    }
    look-Sound false (n ∷ ns) e = record {
      views = h.views;
      came = h.came;
      owned = h.owned;
      taken = λ k a. named k s.pump.callbacks (subst (Among k) (sym e) a);
      none_dropped = h.none_dropped;
    }

    pub looks-Sound : s.pump.phase ≡ top → IsSound (record s { pump = step take_names s.pump })
    unfolding step thread_step
    looks-Sound at_top = simp (at_top) (look-Sound s.pump.thread_stop (names s.pump.callbacks) refl)

    pub nothing-Sound :
        (ns : List Bytes)
        → s.pump.phase ≡ receiving ns
        → IsSound (record s { pump = step (reply [] []) s.pump })
    unfolding step thread_step receive
    nothing-Sound ns at_reply = simp (at_reply) (record {
      views = h.views;
      came = h.came;
      owned = h.owned;
      taken = tt;
      none_dropped = h.none_dropped;
    })

    pub stop-Sound : IsSound (record s { pump = step stop s.pump })
    unfolding step
    stop-Sound = record {
      views = h.views;
      came = h.came;
      owned = h.owned;
      taken = h.taken;
      none_dropped = h.none_dropped;
    }
