-- ===== src/System/Socket/Progress.antt =====
-- From a message on a WebSocket's channel to the message written: the steps of the writer, of the
-- pump's thread and of the writer's task.
use iis_asgi_handler.Prelude.{
  ℕ, ◌^◌, ◌<◌, ◌≡◌, ◌≢◌, refl, sym, ap, subst, ◌∙◌, inl, inr, false, List, [], ◌∷◌, ◌++◌, Option,
  some, Bytes, length, ok, err, Result, Returns,
}
use iis_asgi_handler.Messages.{AsgiWsSendMsg}
use iis_asgi_handler.Pump.{Phase, top, receiving, exited, ResponsePump, find_callback, names, step}
use iis_asgi_handler.Pump.Round.{found-Among}
use iis_asgi_handler.System.Handing.{handed}
use iis_asgi_handler.System.Progress.{take_names-receiving, reply-nothing}
use iis_asgi_handler.System.Views.{tasks_of, tasks_of-own}
use iis_asgi_handler.System.Socket.{
  Socket, looks, receives, receives_nothing, runs_task, completes, Reachable, next, add_new_one,
  call_returned, taken_from,
}
use iis_asgi_handler.System.Socket.Views.{in_task}
use iis_asgi_handler.System.Socket.Sound.{Sound}
use iis_asgi_handler.System.Socket.Delivery.{Reachable-Serves}
use iis_asgi_handler.WebSocket.{WebSocketContext}
use iis_asgi_handler.WebSocket.Writer.{WsWriter, send_message, write_callback}
use iis_asgi_handler.WebSocket.Written.{Taking}
use iis_asgi_handler.WebSocket.Turns.{Turn, Idle, Busy}
use iis_asgi_handler.WebSocket.Calls.{arrives-Goes, completes-Ends}

returned_with :
    {A : Type 0} (P : A → Type 0) (m : Result A) → Returns P m → (a : A) × (m ≡ ok a) × P a
returned_with P (ok a) r = (a, refl, r)
returned_with P (err e) r = absurd r

module _ (ws : WebSocketContext) (law : Taking ws)
    (whole : (bytes : Bytes) (w : ws.World)
      → (ws.write_fragment bytes w).0.completion_expected ≡ false
      → (ws.write_fragment bytes w).0.num_bytes ≡ length bytes)
    (k : Bytes) (unpack : Bytes → Option AsgiWsSendMsg) (writer : WsWriter) (w : ws.World) where
  open law use {written}

  abbrev Reaches : Socket ws → Type 0
  Reaches = Reachable ws k unpack writer w

  -- There are steps after which the message has arrived and was given to the module.
  abbrev pub Writes : Turn ws → AsgiWsSendMsg → Type 0
  Writes turn m =
      (s' : Socket ws) × Reaches s'
      × (s'.turn.arrived ≡ turn.arrived ++ m ∷ [])
      × (written s'.turn.world ≡ written turn.world ++ m.bytes)

  module _ (ne : k ≢ []) (message : Bytes) (m : AsgiWsSendMsg) (unpacked : unpack message ≡ some m)
      (short : length m.bytes < 2 ^ 32) where
    sound : {s : Socket ws} → Reaches s → Sound ws k unpack s
    sound r = (Reachable-Serves ws law whole k unpack writer w ne r).sound

    task-Writes :
        (s : Socket ws) (before : List (Bytes × ℕ × Bytes))
        → Reaches s
        → s.pump.tasks ≡ before ++ (k, 0, message) ∷ []
        → Writes s.turn m
    unfolding call_returned
    task-Writes s before r at =
        let (idle, _, _, _, _) =
          in_task ws k unpack (sound r).view k message (tasks_of 0 before) (tasks_of 0 [])
            (ap (tasks_of 0) at ∙ tasks_of-own 0 k message before []) in
        let ((writer', world'), e, o) =
          returned_with _ (send_message ws 1 m s.turn.writer s.turn.world)
            (arrives-Goes ws law whole 0 m s.turn idle short) in
        (
          call_returned (s.turn.arrived ++ m ∷ []) writer' world' (before ++ []) s,
          next r (runs_task 1 k message before [] at unpacked short e),
          refl,
          o.0,
        )

    module _ (rest : List Bytes) where
      top-Writes :
          (s : Socket ws)
          → Reaches s
          → s.pump.phase ≡ top
          → s.pump.thread_stop ≡ false
          → find_callback k s.pump.callbacks ≡ some 0
          → s.layer k ≡ message ∷ rest
          → Writes s.turn m
      unfolding taken_from
      top-Writes s r at_top goes_on found oldest =
          let among = found-Among k s.pump.callbacks found in
          let p = record s.pump { phase = receiving (names s.pump.callbacks) } in
          let r₁ =
            subst (λ q. Reaches (record s { pump = q }))
              (take_names-receiving s.pump k at_top goes_on among) (next r (looks at_top)) in
          task-Writes (taken_from k message rest (record s { pump = p })) s.pump.tasks
            (next r₁ (receives (names s.pump.callbacks) k message rest refl among oldest))
            (ap (λ (q : ResponsePump ℕ). q.tasks)
              (handed k message (names s.pump.callbacks) p ne refl found))

      registered-Writes :
          (s : Socket ws) (phase : Phase)
          → s.pump.phase ≡ phase
          → Reaches s
          → phase ≢ exited
          → s.pump.thread_stop ≡ false
          → find_callback k s.pump.callbacks ≡ some 0
          → s.layer k ≡ message ∷ rest
          → Writes s.turn m
      registered-Writes s top at r goes_on not_stopped found oldest =
          top-Writes s r at not_stopped found oldest
      registered-Writes s exited at r goes_on not_stopped found oldest = absurd (goes_on refl)
      registered-Writes s (receiving ns) at r goes_on not_stopped found oldest =
          let r₁ =
            subst (λ q. Reaches (record s { pump = q })) (reply-nothing s.pump ns at)
              (next r (receives_nothing ns at)) in
          top-Writes (record s { pump = record s.pump { phase = top; delay = 10 } }) r₁ refl
            not_stopped found oldest

      -- The message that the writer is busy with is completed first.
      busy-Writes :
          (s : Socket ws) (m' : AsgiWsSendMsg)
          → Reaches s
          → Busy m' s.turn
          → s.pump.phase ≢ exited
          → s.pump.thread_stop ≡ false
          → tasks_of 0 s.pump.tasks ≡ []
          → s.layer k ≡ message ∷ rest
          → Writes s.turn m
      unfolding call_returned step
      busy-Writes s m' r busy goes_on not_stopped free oldest =
          let ((writer', world'), e, o) =
            returned_with _ (write_callback ws 0 0 (length m'.bytes) s.turn.writer s.turn.world)
              (completes-Ends ws law whole 0 0 m' s.turn busy) in
          let (same, ends) = o in
          let s₁ = call_returned s.turn.arrived writer' world' s.pump.tasks s in
          let r₁ = next r (completes 0 0 m' busy.message e) in
          let added =
            add_new_one s.turn.writer.added writer'.added s.turn.writer.reply_channel s.pump
              ends.added in
          let (s', r', arrived, out) =
            registered-Writes s₁ s₁.pump.phase refl r₁
              (λ e'. goes_on (sym (ap (λ (q : ResponsePump ℕ). q.phase) added) ∙ e'))
              (ap (λ (q : ResponsePump ℕ). q.thread_stop) added ∙ not_stopped)
              (found s₁ r₁ ends.idle (ap (λ (q : ResponsePump ℕ). tasks_of 0 q.tasks) added ∙ free))
              oldest in
          (s', r', arrived, out ∙ ap (λ x. written x ++ m.bytes) same)
        where
          found :
              (s₁ : Socket ws)
              → Reaches s₁
              → Idle s₁.turn
              → tasks_of 0 s₁.pump.tasks ≡ []
              → find_callback k s₁.pump.callbacks ≡ some 0
          found s₁ r₁ idle none_left = elim (sound r₁).view.mode [
            | inl (_, e, _) ↦ e
            | inr (inl (_, _, _, e)) ↦ absurd (cc (e, none_left))
            | inr (inr (_, busy', _, _)) ↦ absurd (cc (idle.no_message, busy'.message))
          ]

  -- The oldest message on a WebSocket's channel can always be written, unless the pump is stopping:
  -- if it can be unpacked, has less than 4 GB, and no task of the writer is under way already, then
  -- there are steps after which the writer was called with just this message more, and its bytes
  -- were given to the module after those written before. The writer was started once, or again only
  -- while its channel was registered, and every task of the writer so far could unpack its message,
  -- of less than 4 GB. The module takes each message in one call, the reply channel is not empty and
  -- nobody else registers it, and a message does not expire on its channel.
  pub can_be_written :
      {s : Socket ws} (message : Bytes) (rest : List Bytes) {m : AsgiWsSendMsg}
      → k ≢ []
      → Reaches s
      → s.pump.thread_stop ≡ false
      → s.pump.phase ≢ exited
      → tasks_of 0 s.pump.tasks ≡ []
      → s.layer k ≡ message ∷ rest
      → unpack message ≡ some m
      → length m.bytes < 2 ^ 32
      → Writes s.turn m
  can_be_written {s} message rest {m} ne r not_stopped goes_on free oldest unpacked short =
      elim (sound ne message m unpacked short r).view.mode [
        | inl (_, found, _) ↦
            registered-Writes ne message m unpacked short rest s s.pump.phase refl r goes_on
              not_stopped found oldest
        | inr (inl (_, _, _, e)) ↦ absurd (cc (e, free))
        | inr (inr (m', busy, _, _)) ↦
            busy-Writes ne message m unpacked short rest s m' r busy goes_on not_stopped free oldest
      ]
