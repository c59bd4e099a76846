-- ===== src/System/Socket/Calls.antt =====
-- The writer is called, by its task or by a completion.
use mathlib.Core.Logic.{if_pos, if_neg}
use iis_asgi_handler.Prelude.{
  ℕ, zero, suc, ◌^◌, ◌<◌, ◌≡◌, refl, sym, ap, subst, ◌∙◌, inl, inr, List, [], ◌∷◌, ◌++◌, false,
  Option, some, Bytes, Bytes-discrete, length, ok, Returns,
}
use iis_asgi_handler.Messages.{AsgiWsSendMsg}
use iis_asgi_handler.Pump.{ResponsePump, add_channel, find_callback, step}
use iis_asgi_handler.Pump.Dispatch.{find-set}
use iis_asgi_handler.System.Sound.{Taken}
use iis_asgi_handler.System.Socket.{Socket, call_returned, add_new_one, add_new_none}
use iis_asgi_handler.System.Socket.Views.{
  View, registered, restarted-View, in_task, is_busy, ended-View, begun-View, written-View,
}
use iis_asgi_handler.System.Socket.Sound.{Sound, added-Taken}
use iis_asgi_handler.System.Views.{tasks_of, tasks_of-append, tasks_of-own}
use iis_asgi_handler.WebSocket.{WebSocketContext}
use iis_asgi_handler.WebSocket.Writer.{
  WsWriter, send_message, write_callback, writer_start, register_channels_callback,
}
use iis_asgi_handler.WebSocket.Written.{Taking}
use iis_asgi_handler.WebSocket.Turns.{Turn, after, Ends, Begins, Goes}
use iis_asgi_handler.WebSocket.Calls.{arrives-Goes, completes-Ends, needs_fuel}

module _ (ws : WebSocketContext) (k : Bytes) (unpack : Bytes → Option AsgiWsSendMsg) where
  -- The pump when the writer's channel was registered.
  pub registered-Sound :
      (turn : Turn ws) (p : ResponsePump ℕ) (layer history : Bytes → List Bytes)
      → View ws k unpack turn (some 0) (tasks_of 0 p.tasks) (layer k) (history k)
      → ((c : Bytes) → find_callback c p.callbacks ≡ some 0 → c ≡ k)
      → Taken p.phase p.callbacks
      → Sound ws k unpack (record {
        turn = turn;
        pump = step (add_channel k 0) p;
        layer = layer;
        history = history;
      })
  unfolding step
  registered-Sound turn p layer history v owned taken = record {
    view = rw (find-set k k 0 p.callbacks, if_pos (Bytes-discrete k k) refl) v;
    owned = λ c e. elim (Bytes-discrete k c) [
      | yes own ↦ sym own
      | no other ↦ owned c (rw (find-set c k 0 p.callbacks, if_neg (Bytes-discrete k c) other) at e)
    ];
    taken = added-Taken p 0 k taken;
  }

  module _ (s : Socket ws) (h : Sound ws k unpack s) (arrived : List AsgiWsSendMsg)
      (writer : WsWriter) (world : ws.World) (tasks : List (Bytes × ℕ × Bytes)) where
    abbrev turn' : Turn ws
    turn' = after ws arrived writer world

    Ends-Sound :
        Ends s.turn turn'
        → View ws k unpack turn' (some 0) (tasks_of 0 tasks) (s.layer k) (s.history k)
        → Sound ws k unpack (call_returned arrived writer world tasks s)
    unfolding call_returned
    Ends-Sound ends v =
        rw
          (add_new_one s.turn.writer.added writer.added k (record s.pump { tasks = tasks })
            (ends.added ∙ ap (λ c. s.turn.writer.added ++ c ∷ []) h.view.same_channel))
          (registered-Sound turn' (record s.pump { tasks = tasks }) s.layer s.history v h.owned
            h.taken)

    Begins-Sound :
        {m : AsgiWsSendMsg}
        → Begins m s.turn turn'
        → View ws k unpack turn'
            (find_callback k s.pump.callbacks)
            (tasks_of 0 tasks)
            (s.layer k)
            (s.history k)
        → Sound ws k unpack (call_returned arrived writer world tasks s)
    unfolding call_returned
    Begins-Sound begins v =
        rw
          (add_new_none s.turn.writer.added writer.added (record s.pump { tasks = tasks })
            begins.added)
          (record { view = v; owned = h.owned; taken = h.taken })

  -- The writer is started once more.
  pub restarts-Sound :
      (s : Socket ws)
      → Sound ws k unpack s
      → find_callback k s.pump.callbacks ≡ some 0
      → Sound ws k unpack
          (call_returned s.turn.arrived (writer_start k s.turn.writer) s.turn.world s.pump.tasks s)
  unfolding writer_start register_channels_callback
  restarts-Sound s h found =
      let (idle, _, _) = registered ws k unpack h.view found in
      let ends : Ends s.turn (after ws s.turn.arrived (writer_start k s.turn.writer) s.turn.world) =
        record {
          idle = record { no_message = idle.no_message; start = idle.start };
          same_channel = sym h.view.same_channel;
          added = ap (λ c. s.turn.writer.added ++ c ∷ []) (sym h.view.same_channel);
        } in
      Ends-Sound s h s.turn.arrived (writer_start k s.turn.writer) s.turn.world s.pump.tasks ends
        (restarted-View ws k unpack h.view _ found refl ends)

  module _ (law : Taking ws)
      (whole : (bytes : Bytes) (w : ws.World)
        → (ws.write_fragment bytes w).0.completion_expected ≡ false
        → (ws.write_fragment bytes w).0.num_bytes ≡ length bytes) where
    open law use {written}

    module _ (s : Socket ws) (h : Sound ws k unpack s) (writer : WsWriter) (world : ws.World) where
      -- The writer's task runs.
      pub runs_task-Sound :
          (fuel : ℕ) (m : AsgiWsSendMsg) (channel message : Bytes)
          (before later : List (Bytes × ℕ × Bytes))
          → s.pump.tasks ≡ before ++ (channel, 0, message) ∷ later
          → unpack message ≡ some m
          → length m.bytes < 2 ^ 32
          → send_message ws fuel m s.turn.writer s.turn.world ≡ ok (writer, world)
          → (written world ≡ written s.turn.world ++ m.bytes)
            × Sound ws k unpack
                (call_returned (s.turn.arrived ++ m ∷ []) writer world (before ++ later) s)
      runs_task-Sound zero m channel message before later at unpacked small e =
          absurd (needs_fuel ws law whole m s.turn.writer s.turn.world (writer, world) e)
      runs_task-Sound (suc fuel) m channel message before later at unpacked small e =
          let at' = ap (tasks_of 0) at ∙ tasks_of-own 0 channel message before later in
          let (idle, _, _, _, _) =
            in_task ws k unpack h.view channel message (tasks_of 0 before) (tasks_of 0 later) at' in
          let (out, goes) =
            subst
              (Returns (λ (s', w').
                (written w' ≡ written s.turn.world ++ m.bytes)
                × Goes s.turn (after ws (s.turn.arrived ++ m ∷ []) s' w')))
              e (arrives-Goes ws law whole fuel m s.turn idle small) in
          (
            out,
            elim goes [
              | inl ends ↦
                  Ends-Sound s h (s.turn.arrived ++ m ∷ []) writer world (before ++ later) ends (
                    rw (tasks_of-append 0 before later) (
                      ended-View ws k unpack h.view _ channel message m (tasks_of 0 before)
                        (tasks_of 0 later) at' unpacked refl ends))
              | inr (_, begins) ↦
                  Begins-Sound s h (s.turn.arrived ++ m ∷ []) writer world (before ++ later) begins
                    (rw (tasks_of-append 0 before later) (
                      begun-View ws k unpack h.view _ channel message m (tasks_of 0 before)
                        (tasks_of 0 later) at' unpacked refl begins))
            ],
          )

      -- The message that the writer has was written.
      pub completes-Sound :
          (fuel hr : ℕ) (m : AsgiWsSendMsg)
          → s.turn.writer.asgi_send_msg ≡ some m
          → write_callback ws fuel hr (length m.bytes) s.turn.writer s.turn.world
            ≡ ok (writer, world)
          → (world ≡ s.turn.world)
            × Sound ws k unpack (call_returned s.turn.arrived writer world s.pump.tasks s)
      completes-Sound fuel hr m has e =
          let (same, ends) =
            subst
              (Returns
                (λ (s', w'). (w' ≡ s.turn.world) × Ends s.turn (after ws s.turn.arrived s' w')))
              e (completes-Ends ws law whole fuel hr m s.turn (is_busy ws k unpack h.view m has)) in
          (
            same,
            Ends-Sound s h s.turn.arrived writer world s.pump.tasks ends
                (written-View ws k unpack h.view _ m has refl ends),
          )
