-- ===== src/Tests/Socket.antt =====
-- A WebSocket that the application sends one message: it is put on the channel, taken by the pump,
-- written by the task, and completed.
use mathlib.Core.Logic.{if_pos}
use iis_asgi_handler.Prelude.{
  ◌≡◌, ◌≢◌, refl, inl, true, false, [], ◌∷◌, ◌++◌, map, Option, some, Bytes, Bytes-discrete,
  ℕ_discrete, length, take, codes, arith,
}
use iis_asgi_handler.Messages.{AsgiWsSendMsg}
use iis_asgi_handler.Pump.{
  exited, take_names, find_callback, set_callback, erase_callback, dispatch, look, receive,
  thread_step, step,
}
use iis_asgi_handler.System.Views.{tasks_of, messages}
use iis_asgi_handler.System.Socket.{
  Socket, sends, looks, receives, runs_task, completes, Reachable, begin, next, add_channels,
  add_new, answered, taken_from, call_returned,
}
use iis_asgi_handler.System.Socket.Views.{Mode}
use iis_asgi_handler.System.Socket.Progress.{Writes, can_be_written}
use iis_asgi_handler.System.Socket.Delivery.{socket_messages_kept}
use iis_asgi_handler.WebSocket.Writer.{
  WsWriter, register_channels_callback, write_async_complete, write_chunk, write_async,
  send_message, write_callback, writer_start,
}
use iis_asgi_handler.WebSocket.{WebSocketContext}
use iis_asgi_handler.WebSocket.Written.{Taking}
use iis_asgi_handler.WebSocket.Turns.{contents, started}
use iis_asgi_handler.Tests.Pump.{idle}
use iis_asgi_handler.Tests.WebSocket.{fragment, idle_writer}

-- The module takes all of each message, and completes it later.
abbrev later : WebSocketContext
later = record {
  World = Bytes;
  read_fragment = λ size w. (record (fragment [] false) { completion_expected = true }, w);
  write_fragment = λ bytes w.
      (record { hr = 0; num_bytes = length bytes; completion_expected = true }, w ++ bytes);
}

takes_later : (bytes w : Bytes) → true ≡ false → w ++ bytes ≡ w ++ take (length bytes) bytes
takes_later bytes w c = absurd (cc)

abbrev taking_later : Taking later
taking_later = record {
  written = λ w. w;
  takes = λ bytes w c. takes_later bytes w c;
  takes_all = λ bytes w c. refl;
}

abbrev fresh_writer : WsWriter
fresh_writer = record idle_writer { added = [] }

abbrev channel : Bytes
channel = codes "websocket.send!a"

-- A message is its own bytes.
abbrev as_message : Bytes → AsgiWsSendMsg
as_message b = record { bytes = b; close = false }

abbrev unpack : Bytes → Option AsgiWsSendMsg
unpack b = some (as_message b)

abbrev Reaches : Socket later → Type 0
Reaches = Reachable later channel unpack fresh_writer []

abbrev hi : Bytes
hi = codes "hi"

abbrev opened : Socket later
opened = record {
  turn = started later channel fresh_writer [];
  pump = add_new [] (channel ∷ []) idle;
  layer = λ c. [];
  history = λ c. [];
}

abbrev looked : Socket later
looked = record (answered channel hi opened) { pump = step take_names opened.pump }

abbrev handed : Socket later
handed = taken_from channel hi [] looked

abbrev busy_writer : WsWriter
busy_writer = record idle_writer { asgi_send_msg = some (as_message hi) }

abbrev ran : Socket later
ran = call_returned (as_message hi ∷ []) busy_writer hi [] handed

abbrev finished : Socket later
finished =
    call_returned (as_message hi ∷ []) (record idle_writer { added = channel ∷ channel ∷ [] }) hi []
      ran

answered_holds : looked.layer channel ≡ hi ∷ []
unfolding answered
answered_holds = if_pos (Bytes-discrete channel channel) refl _ _

reach_handed : Reaches handed
unfolding step answered add_new add_channels writer_start register_channels_callback set_callback
    look thread_step Bytes-discrete
reach_handed =
    next
      (next
        (next
          (begin {s = opened} (record {
            no_message = refl;
            start = refl;
            none_added = refl;
            turn = refl;
            pump = (idle, refl, refl, refl, refl);
            all_there = λ c. refl;
          }))
          (sends channel hi))
        (looks refl))
      (receives (channel ∷ []) channel hi [] refl (inl refl) answered_holds)

reach_ran : Reaches ran
unfolding step answered taken_from add_new add_channels writer_start register_channels_callback
    set_callback erase_callback find_callback look thread_step receive dispatch Bytes-discrete
    ℕ_discrete send_message write_async write_chunk
reach_ran = next reach_handed (runs_task 1 channel hi [] [] refl refl (omega arith) refl)

reach_finished : Reaches finished
unfolding call_returned taken_from answered write_callback write_async_complete
    register_channels_callback add_new writer_start
reach_finished = next reach_ran (completes 1 0 (as_message hi) refl refl)

not_empty : channel ≢ []
not_empty e = cc

socket_messages_kept_example :
    (hi ≡ contents (as_message hi ∷ []))
    × (map some (as_message hi ∷ [])
          ++ map unpack (messages (tasks_of 0 finished.pump.tasks) ++ finished.layer channel)
        ≡ map unpack (finished.history channel))
    × Mode later channel unpack finished.turn
        (find_callback channel finished.pump.callbacks)
        (tasks_of 0 finished.pump.tasks)
unfolding call_returned
socket_messages_kept_example =
    socket_messages_kept later taking_later (λ bytes w c. refl) channel unpack fresh_writer []
      not_empty reach_finished

-- Another message comes while the first is written.
abbrev bye_waits : Socket later
bye_waits = answered channel (codes "bye") ran

reach_bye_waits : Reaches bye_waits
reach_bye_waits = next reach_ran (sends channel (codes "bye"))

bye_is_there : bye_waits.layer channel ≡ codes "bye" ∷ []
unfolding answered call_returned taken_from Bytes-discrete ℕ_discrete
bye_is_there = refl

not_exited : bye_waits.pump.phase ≢ exited
unfolding step answered taken_from add_new add_channels writer_start register_channels_callback
    set_callback erase_callback find_callback look thread_step receive dispatch Bytes-discrete
    ℕ_discrete call_returned
not_exited e = cc

can_be_written_example :
    Writes later taking_later
      (λ bytes w c. refl)
      channel
      unpack
      fresh_writer
      []
      ran.turn
      (as_message (codes "bye"))
unfolding answered call_returned taken_from add_new writer_start step set_callback find_callback
    Bytes-discrete ℕ_discrete tasks_of
can_be_written_example =
    can_be_written later taking_later (λ bytes w c. refl) channel unpack fresh_writer []
      (codes "bye") [] not_empty reach_bye_waits refl not_exited refl bye_is_there refl
      (omega arith)
