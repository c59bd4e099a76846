-- ===== src/System/Socket/Handing.antt =====
-- A message taken by the pump, and the tasks that run: the writer's and others'.
use mathlib.Core.Logic.{if_pos, if_neg}
use iis_asgi_handler.Prelude.{
  ℕ, ◌≡◌, ◌≢◌, refl, sym, ap, subst, ◌∙◌, List, [], ◌∷◌, ◌++◌, append-nil, Option, some, Bytes,
  Bytes-discrete,
}
use iis_asgi_handler.Messages.{AsgiWsSendMsg}
use iis_asgi_handler.Pump.{ResponsePump, top, receiving, find_callback, erase_callback}
use iis_asgi_handler.Pump.Dispatch.{find-erase, reply_found}
use iis_asgi_handler.Redis.Delivery.{Among}
use iis_asgi_handler.Redis.Represents.{put}
use iis_asgi_handler.System.Dispatching.{put_other, put_own}
use iis_asgi_handler.System.Sound.{Taken}
use iis_asgi_handler.System.Socket.{Socket, taken_from}
use iis_asgi_handler.System.Socket.Views.{handed-View, registered}
use iis_asgi_handler.System.Socket.Sound.{Sound, nothing-Sound}
use iis_asgi_handler.System.Views.{tasks_of, tasks_of-own, tasks_of-other}
use iis_asgi_handler.WebSocket.{WebSocketContext}

erased_owner :
    (c channel k : Bytes) (p : ResponsePump ℕ)
    → ((d : Bytes) → find_callback d p.callbacks ≡ some 0 → d ≡ k)
    → find_callback c (erase_callback channel p.callbacks) ≡ some 0
    → c ≡ k
erased_owner c channel k p owned e = elim (Bytes-discrete channel c) [
  | yes own ↦
      absurd
        (gone (rw (find-erase c channel p.callbacks, if_pos (Bytes-discrete channel c) own) at e))
  | no other ↦
      owned c (rw (find-erase c channel p.callbacks, if_neg (Bytes-discrete channel c) other) at e)
]
  where
    gone : {i : ℕ} → Option.none ≢ some i
    gone e = cc

module _ (ws : WebSocketContext) (k : Bytes) (unpack : Bytes → Option AsgiWsSendMsg) where
  module _ (s : Socket ws) (h : Sound ws k unpack s) where
    -- The pump hands the message to the callback of its channel.
    handed-Sound :
        (channel m : Bytes) (rest : List Bytes) (j : ℕ)
        → find_callback channel s.pump.callbacks ≡ some j
        → s.layer channel ≡ m ∷ rest
        → Sound ws k unpack (record s {
          pump = record s.pump {
            callbacks = erase_callback channel s.pump.callbacks;
            phase = top;
            delay = 0;
            tasks = s.pump.tasks ++ (channel, j, m) ∷ [];
          };
          layer = put channel rest s.layer;
        })
    unfolding tasks_of
    handed-Sound channel m rest j found oldest = record {
      view = elim (Bytes-discrete channel k) [
        | yes own ↦
            let found' = rw own at found in
            let (_, e, _) = registered ws k unpack h.view found' in
            rw
              (
                own,
                e,
                tasks_of-own 0 k m s.pump.tasks [],
                find-erase k k s.pump.callbacks,
                if_pos (Bytes-discrete k k) refl,
                put_own k rest s.layer k refl,
              )
              (handed-View ws k unpack h.view m rest found' (rw own at oldest))
        | no other ↦
            rw
              (
                tasks_of-other 0 j channel m s.pump.tasks []
                    (λ e. other (h.owned channel (found ∙ ap some e))),
                append-nil s.pump.tasks,
                find-erase k channel s.pump.callbacks,
                if_neg (Bytes-discrete channel k) other,
                put_other channel rest s.layer k (λ e. other (sym e)),
              )
              h.view
      ];
      owned = λ c e. erased_owner c channel k s.pump h.owned e;
      taken = tt;
    }

    pub receives-Sound :
        (ns : List Bytes) (channel m : Bytes) (rest : List Bytes)
        → k ≢ []
        → s.pump.phase ≡ receiving ns
        → Among channel ns
        → s.layer channel ≡ m ∷ rest
        → Sound ws k unpack (taken_from channel m rest s)
    unfolding taken_from
    receives-Sound ns [] m rest ne at_reply among oldest =
        nothing-Sound ws k unpack s h ns (put [] rest s.layer) at_reply
          (put_other [] rest s.layer k ne) m
    receives-Sound ns (x ∷ channel) m rest ne at_reply among oldest =
        let (j, found) =
          (subst (λ p. Taken p s.pump.callbacks) at_reply h.taken) (x ∷ channel) among in
        rw (reply_found x channel m ns s.pump at_reply found)
          (handed-Sound (x ∷ channel) m rest j found oldest)

    pub others_ran-Sound :
        (j : ℕ) (channel m : Bytes) (before later : List (Bytes × ℕ × Bytes))
        → j ≢ 0
        → s.pump.tasks ≡ before ++ (channel, j, m) ∷ later
        → Sound ws k unpack (record s { pump = record s.pump { tasks = before ++ later } })
    others_ran-Sound j channel m before later high at = record {
      view = rw (← tasks_of-other 0 j channel m before later high, ← at) h.view;
      owned = h.owned;
      taken = h.taken;
    }
