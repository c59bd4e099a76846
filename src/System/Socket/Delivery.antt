-- ===== src/System/Socket/Delivery.antt =====
-- What becomes of every message that the application sends to a WebSocket, whatever happens and in
-- whatever order.
use iis_asgi_handler.Prelude.{
  ℕ, ◌≡◌, ◌≢◌, refl, sym, ap, ◌∙◌, inl, false, [], ◌∷◌, ◌++◌, map, append-nil, Option, none, some,
  Bytes, length,
}
use iis_asgi_handler.Messages.{AsgiWsSendMsg}
use iis_asgi_handler.Pump.{find_callback}
use iis_asgi_handler.System.Views.{tasks_of, messages}
use iis_asgi_handler.System.Socket.{
  Socket, Step, sends, looks, receives, receives_nothing, stops, runs_task, completes, restarts,
  others_register, runs_others, IsOpened, Reachable, begin, next, add_new_one, call_returned,
  answered, taken_from,
}
use iis_asgi_handler.System.Socket.Views.{Mode}
use iis_asgi_handler.System.Socket.Sound.{
  Sound, answered-Sound, looks-Sound, nothing-Sound, stop-Sound, others_registered-Sound,
}
use iis_asgi_handler.System.Socket.Handing.{receives-Sound, others_ran-Sound}
use iis_asgi_handler.System.Socket.Calls.{
  registered-Sound, restarts-Sound, runs_task-Sound, completes-Sound,
}
use iis_asgi_handler.WebSocket.{WebSocketContext}
use iis_asgi_handler.WebSocket.Writer.{WsWriter, register_channels_callback, writer_start}
use iis_asgi_handler.WebSocket.Written.{Taking}
use iis_asgi_handler.WebSocket.Turns.{contents}
use iis_asgi_handler.WebSocket.Calls.{written_next}

module _ (ws : WebSocketContext) (law : Taking ws)
    (whole : (bytes : Bytes) (w : ws.World)
      → (ws.write_fragment bytes w).0.completion_expected ≡ false
      → (ws.write_fragment bytes w).0.num_bytes ≡ length bytes)
    (k : Bytes) (unpack : Bytes → Option AsgiWsSendMsg) where
  open law use {written}

  opened-Sound :
      (writer : WsWriter) (w : ws.World) (s : Socket ws)
      → IsOpened ws k unpack writer w s
      → Sound ws k unpack s
  unfolding writer_start register_channels_callback tasks_of find_callback
  opened-Sound writer w s o =
      let (p, e, no_callbacks, at_top, no_tasks) = o.pump in
      let added : s.turn.writer.added ≡ k ∷ [] = simp (o.turn, o.none_added) refl in
      rw (e, add_new_one [] s.turn.writer.added k p added)
        (registered-Sound ws k unpack s.turn p s.layer s.history
          (record {
            same_channel = simp o.turn refl;
            mode = inl (
              record { no_message = simp o.turn o.no_message; start = simp o.turn o.start },
              refl,
              rw no_tasks refl,
            );
            kept = simp (o.turn, no_tasks) (ap (map unpack) (o.all_there k));
          })
          (λ c found. absurd (gone (rw no_callbacks at found))) (rw at_top tt))
    where
      gone : ◌≢◌ {A = Option ℕ} none (some 0)
      gone e = cc

  pub record Serves (w : ws.World) (s : Socket ws) : Type 0 where
    pub sound : Sound ws k unpack s
    pub out : written s.turn.world ≡ written w ++ contents s.turn.arrived

  Step-Serves :
      (w : ws.World) {s t : Socket ws} → k ≢ [] → Step ws k unpack s t → Serves w s → Serves w t
  unfolding answered taken_from call_returned
  Step-Serves w ne (sends {s} channel m) h = record {
    sound = answered-Sound ws k unpack s h.sound channel m;
    out = h.out;
  }
  Step-Serves w ne (looks {s} at) h = record {
    sound = looks-Sound ws k unpack s h.sound at;
    out = h.out;
  }
  Step-Serves w ne (receives {s} ns channel m rest at among oldest) h = record {
    sound = receives-Sound ws k unpack s h.sound ns channel m rest ne at among oldest;
    out = h.out;
  }
  Step-Serves w ne (receives_nothing {s} ns at) h = record {
    sound = nothing-Sound ws k unpack s h.sound ns s.layer at refl [];
    out = h.out;
  }
  Step-Serves w ne (stops {s}) h = record { sound = stop-Sound ws k unpack s h.sound; out = h.out }
  Step-Serves w ne
        (runs_task {s} {writer} {world} {m} fuel channel message before later at u small e) h =
      let (out, sound) =
        runs_task-Sound ws k unpack law whole s h.sound writer world fuel m channel message before
          later at u small e in
      record {
        sound = sound;
        out = written_next ws law whole w s.turn.world world s.turn.arrived m h.out out;
      }
  Step-Serves w ne (completes {s} {writer} {world} fuel hr m has e) h =
      let (same, sound) =
        completes-Sound ws k unpack law whole s h.sound writer world fuel hr m has e in
      record { sound = sound; out = ap written same ∙ h.out }
  Step-Serves w ne (restarts {s} found) h = record {
    sound = restarts-Sound ws k unpack s h.sound found;
    out = h.out;
  }
  Step-Serves w ne (others_register {s} j channel high apart) h = record {
    sound = others_registered-Sound ws k unpack s h.sound j channel high apart;
    out = h.out;
  }
  Step-Serves w ne (runs_others {s} j channel m before later high at) h = record {
    sound = others_ran-Sound ws k unpack s h.sound j channel m before later high at;
    out = h.out;
  }

  pub Reachable-Serves :
      (writer : WsWriter) (w : ws.World) {s : Socket ws}
      → k ≢ []
      → Reachable ws k unpack writer w s
      → Serves w s
  unfolding writer_start
  Reachable-Serves writer w ne (begin {s} o) = record {
    sound = opened-Sound writer w s o;
    out = simp o.turn (sym (append-nil (written w)));
  }
  Reachable-Serves writer w ne (next r st) = Step-Serves w ne st (Reachable-Serves writer w ne r)

  -- In whatever order the pump's thread, its tasks, the completions of the writer, whoever sends
  -- messages and others that use the pump act: the WebSocket has written the messages that arrived,
  -- whole and in their order, and these, then the one in the writer's task if it has one, then those
  -- still on its reply channel are just the messages that were ever put on that channel, in the
  -- order in which they were: none is lost, doubled or overtaken. No message is forgotten: the
  -- writer is idle and its channel registered, or idle with just one task, on its channel, or busy
  -- with a message, with neither. The writer is started once, or again only while its channel is
  -- registered: before the pump takes a message that would be the first one since it was registered.
  -- The module takes each message in one call, the reply channel is not empty and nobody else
  -- registers it, a message does not expire on its channel, and every task of the writer so far
  -- could unpack its message, of less than 4 GB.
  pub socket_messages_kept :
      (writer : WsWriter) (w : ws.World) {s : Socket ws}
      → k ≢ []
      → Reachable ws k unpack writer w s
      → (written s.turn.world ≡ written w ++ contents s.turn.arrived)
        × (map some s.turn.arrived ++ map unpack (messages (tasks_of 0 s.pump.tasks) ++ s.layer k)
            ≡ map unpack (s.history k))
        × Mode ws k unpack s.turn (find_callback k s.pump.callbacks) (tasks_of 0 s.pump.tasks)
  socket_messages_kept writer w ne r =
      let h = Reachable-Serves writer w ne r in (h.out, h.sound.view.kept, h.sound.view.mode)
