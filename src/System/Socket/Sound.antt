-- ===== src/System/Socket/Sound.antt =====
-- The writer with its pump, over any interleaving.
use mathlib.Core.Logic.{if_pos, if_neg}
use iis_asgi_handler.Prelude.{
  ℕ, ◌≡◌, ◌≢◌, refl, sym, subst, true, false, Bool, List, [], ◌∷◌, Option, some, Bytes,
  Bytes-discrete,
}
use iis_asgi_handler.Messages.{AsgiWsSendMsg}
use iis_asgi_handler.Pump.{
  ResponsePump, top, receiving, add_channel, take_names, reply, stop, find_callback, names, look,
  receive, thread_step, step,
}
use iis_asgi_handler.Pump.Dispatch.{find-set}
use iis_asgi_handler.Pump.Round.{named}
use iis_asgi_handler.Redis.Delivery.{Among}
use iis_asgi_handler.System.Dispatching.{put_other, appended}
use iis_asgi_handler.System.Sound.{Taken, Taken-grows}
use iis_asgi_handler.System.Socket.{Socket, answered}
use iis_asgi_handler.System.Socket.Views.{View, answered-View}
use iis_asgi_handler.System.Views.{tasks_of}
use iis_asgi_handler.WebSocket.{WebSocketContext}

-- A channel more leaves those that the thread waits for registered.
pub added-Taken :
    (p : ResponsePump ℕ) (j : ℕ) (channel : Bytes)
    → Taken p.phase p.callbacks
    → Taken p.phase (step (add_channel channel j) p).callbacks
unfolding step
added-Taken p j channel taken =
    Taken-grows p.phase p.callbacks _
      (λ c i e. elim (Bytes-discrete channel c) [
        | yes own ↦
            (j, rw (find-set c channel j p.callbacks, if_pos (Bytes-discrete channel c) own) refl)
        | no other ↦
            (i, rw (find-set c channel j p.callbacks, if_neg (Bytes-discrete channel c) other) e)
      ])
      taken

module _ (ws : WebSocketContext) (k : Bytes) (unpack : Bytes → Option AsgiWsSendMsg) where
  pub record Sound (s : Socket ws) : Type 0 where
    pub view :
        View ws k unpack s.turn
          (find_callback k s.pump.callbacks)
          (tasks_of 0 s.pump.tasks)
          (s.layer k)
          (s.history k)
    pub owned : (c : Bytes) → find_callback c s.pump.callbacks ≡ some 0 → c ≡ k
    pub taken : Taken s.pump.phase s.pump.callbacks

  module _ (s : Socket ws) (h : Sound s) where
    pub answered-Sound : (channel m : Bytes) → Sound (answered channel m s)
    unfolding answered
    answered-Sound channel m = record {
      view = elim (Bytes-discrete k channel) [
        | yes same ↦
            rw (appended channel m s.layer k same, appended channel m s.history k same)
              (answered-View ws k unpack h.view m)
        | no other ↦
            rw (put_other channel _ s.layer k other, put_other channel _ s.history k other) h.view
      ];
      owned = h.owned;
      taken = h.taken;
    }

    look-Sound :
        (b : Bool) (ns : List Bytes)
        → names s.pump.callbacks ≡ ns
        → Sound (record s { pump = look b ns s.pump })
    unfolding look
    look-Sound true ns e = record { view = h.view; owned = h.owned; taken = tt }
    look-Sound false [] e = record { view = h.view; owned = h.owned; taken = tt }
    look-Sound false (n ∷ ns) e = record {
      view = h.view;
      owned = h.owned;
      taken = λ c a. named c s.pump.callbacks (subst (Among c) (sym e) a);
    }

    pub looks-Sound : s.pump.phase ≡ top → Sound (record s { pump = step take_names s.pump })
    unfolding step thread_step
    looks-Sound at_top = simp (at_top) (look-Sound s.pump.thread_stop (names s.pump.callbacks) refl)

    pub nothing-Sound :
        (ns : List Bytes) (layer : Bytes → List Bytes)
        → s.pump.phase ≡ receiving ns
        → layer k ≡ s.layer k
        → (m : Bytes) → Sound (record s { pump = step (reply [] m) s.pump; layer = layer })
    unfolding step thread_step receive
    nothing-Sound ns layer at_reply same m =
        simp (at_reply) (record { view = rw same h.view; owned = h.owned; taken = tt })

    pub stop-Sound : Sound (record s { pump = step stop s.pump })
    unfolding step
    stop-Sound = record { view = h.view; owned = h.owned; taken = h.taken }

    pub others_registered-Sound :
        (j : ℕ) (channel : Bytes)
        → j ≢ 0
        → channel ≢ k
        → Sound (record s { pump = step (add_channel channel j) s.pump })
    unfolding step
    others_registered-Sound j channel high apart = record {
      view =
          rw
            (
              find-set k channel j s.pump.callbacks,
              if_neg (Bytes-discrete channel k) apart (some j) (find_callback k s.pump.callbacks),
            )
            h.view;
      owned = λ c e. elim (Bytes-discrete channel c) [
        | yes own ↦ absurd (
            high (
              the_same (
                rw (find-set c channel j s.pump.callbacks, if_pos (Bytes-discrete channel c) own) at
                  e)))
        | no other ↦ h.owned c (
            rw (find-set c channel j s.pump.callbacks, if_neg (Bytes-discrete channel c) other) at
              e)
      ];
      taken = added-Taken s.pump j channel h.taken;
    }
      where
        the_same : {i : ℕ} → some j ≡ some i → j ≡ i
        the_same e = cc
