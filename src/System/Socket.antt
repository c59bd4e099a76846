-- ===== src/System/Socket.antt =====
-- AsgiHandlerLib/WsWriter.cpp over ResponsePump.cpp: a WebSocket's writer with the pump that it
-- shares with whoever else, and the channel layer. The writer's callback has the number 0.
pub mod Views
pub mod Sound
pub mod Handing
pub mod Calls
pub mod Delivery
pub mod Progress
use iis_asgi_handler.Prelude.{
  ℕ, ◌<◌, ◌^◌, ◌≡◌, ◌≢◌, refl, ap, ◌∙◌, List, [], ◌∷◌, ◌++◌, Option, none, some, Bytes, length,
  drop, drop-append, ok, arith,
}
use iis_asgi_handler.Messages.{AsgiWsSendMsg}
use iis_asgi_handler.Pump.{
  ResponsePump, top, receiving, add_channel, take_names, reply, stop, find_callback, step,
}
use iis_asgi_handler.Redis.Delivery.{Among}
use iis_asgi_handler.Redis.Represents.{Channels, put}
use iis_asgi_handler.WebSocket.{WebSocketContext}
use iis_asgi_handler.WebSocket.Writer.{WsWriter, send_message, write_callback, writer_start}
use iis_asgi_handler.WebSocket.Turns.{Turn, after, started}

-- `history` is what was ever put on each channel.
pub record Socket (ws : WebSocketContext) : Type 0 where
  pub turn : Turn ws
  pub pump : ResponsePump ℕ
  pub layer : Channels
  pub history : Channels

-- The calls of ResponsePump::AddChannel() that a call of the writer's made: those that `added` has
-- more than before.
unfoldable pub add_channels : List Bytes → ResponsePump ℕ → ResponsePump ℕ
add_channels [] p = p
add_channels (channel ∷ channels) p = add_channels channels (step (add_channel channel 0) p)

unfoldable pub add_new : (old new : List Bytes) → ResponsePump ℕ → ResponsePump ℕ
unfolding add_channels
add_new old new p = add_channels (drop (length old) new) p

module _ {ws : WebSocketContext} where
  -- A call of the writer's returned.
  unfoldable pub call_returned :
      List AsgiWsSendMsg → WsWriter → ws.World → List (Bytes × ℕ × Bytes) → Socket ws → Socket ws
  call_returned arrived writer world tasks s = record s {
    turn = after ws arrived writer world;
    pump = add_new s.turn.writer.added writer.added (record s.pump { tasks = tasks });
  }

  -- Send() of whoever answers.
  unfoldable pub answered : (channel message : Bytes) → Socket ws → Socket ws
  answered channel message s = record s {
    layer = put channel (s.layer channel ++ message ∷ []) s.layer;
    history = put channel (s.history channel ++ message ∷ []) s.history;
  }

  -- ReceiveMany() gives the pump the channel's oldest message.
  unfoldable pub taken_from : (channel message : Bytes) (rest : List Bytes) → Socket ws → Socket ws
  taken_from channel message rest s = record s {
    pump = step (reply channel message) s.pump;
    layer = put channel rest s.layer;
  }

module _ (ws : WebSocketContext) (reply_channel : Bytes)
    (unpack : Bytes → Option AsgiWsSendMsg) where
  -- What may happen next, in any order: somebody sends a message on any channel; the pump's thread
  -- takes the names, and ReceiveMany() gives it a message of one of them or nothing; the writer's
  -- task runs, with a message of less than 4 GB that it can unpack; all bytes of the message that
  -- the writer has are written; WsRequestHandler's OnAsyncCompletion(), which is called once, or
  -- twice if the flush of the upgrade response completes later, starts the writer again, here only
  -- while its channel is registered; or others use the pump, on channels of their own.
  pub data Step : Socket ws → Socket ws → Type 0 where
    sends : {s : Socket ws} (channel message : Bytes) → Step s (answered channel message s)
    looks :
        {s : Socket ws} → s.pump.phase ≡ top → Step s (record s { pump = step take_names s.pump })
    receives :
        {s : Socket ws} (names : List Bytes) (channel message : Bytes) (rest : List Bytes)
        → s.pump.phase ≡ receiving names
        → Among channel names
        → s.layer channel ≡ message ∷ rest
        → Step s (taken_from channel message rest s)
    receives_nothing :
        {s : Socket ws} (names : List Bytes)
        → s.pump.phase ≡ receiving names
        → Step s (record s { pump = step (reply [] []) s.pump })
    stops : {s : Socket ws} → Step s (record s { pump = step stop s.pump })
    runs_task :
        {s : Socket ws} {writer : WsWriter} {world : ws.World} {m : AsgiWsSendMsg} (fuel : ℕ)
        (channel message : Bytes) (before later : List (Bytes × ℕ × Bytes))
        → s.pump.tasks ≡ before ++ (channel, 0, message) ∷ later
        → unpack message ≡ some m
        → length m.bytes < 2 ^ 32
        → send_message ws fuel m s.turn.writer s.turn.world ≡ ok (writer, world)
        → Step s (call_returned (s.turn.arrived ++ m ∷ []) writer world (before ++ later) s)
    completes :
        {s : Socket ws} {writer : WsWriter} {world : ws.World} (fuel hr : ℕ) (m : AsgiWsSendMsg)
        → s.turn.writer.asgi_send_msg ≡ some m
        → write_callback ws fuel hr (length m.bytes) s.turn.writer s.turn.world ≡ ok (writer, world)
        → Step s (call_returned s.turn.arrived writer world s.pump.tasks s)
    restarts :
        {s : Socket ws}
        → find_callback reply_channel s.pump.callbacks ≡ some 0
        → Step s (
            call_returned s.turn.arrived
              (writer_start reply_channel s.turn.writer)
              s.turn.world
              s.pump.tasks
              s)
    others_register :
        {s : Socket ws} (j : ℕ) (channel : Bytes)
        → j ≢ 0
        → channel ≢ reply_channel
        → Step s (record s { pump = step (add_channel channel j) s.pump })
    runs_others :
        {s : Socket ws} (j : ℕ) (channel message : Bytes) (before later : List (Bytes × ℕ × Bytes))
        → j ≢ 0
        → s.pump.tasks ≡ before ++ (channel, j, message) ∷ later
        → Step s (record s { pump = record s.pump { tasks = before ++ later } })

  -- The writer was started, and registered its channel; nothing else has happened. The channels may
  -- hold messages already.
  pub record IsOpened (writer : WsWriter) (w : ws.World) (s : Socket ws) : Type 0 where
    pub no_message : writer.asgi_send_msg ≡ none
    pub start : writer.bytes_written ≡ 0
    pub none_added : writer.added ≡ []
    pub turn : s.turn ≡ started ws reply_channel writer w
    pub pump :
        (p : ResponsePump ℕ) × (s.pump ≡ add_new [] s.turn.writer.added p)
        × (p.callbacks ≡ [])
        × (p.phase ≡ top)
        × (p.tasks ≡ [])
    pub all_there : (c : Bytes) → s.layer c ≡ s.history c

  pub data Reachable (writer : WsWriter) (w : ws.World) : Socket ws → Type 0 where
    begin : {s : Socket ws} → IsOpened writer w s → Reachable writer w s
    next : {s s' : Socket ws} → Reachable writer w s → Step s s' → Reachable writer w s'

pub add_new_one :
    (old new : List Bytes) (channel : Bytes) (p : ResponsePump ℕ)
    → new ≡ old ++ channel ∷ []
    → add_new old new p ≡ step (add_channel channel 0) p
unfolding add_new
add_new_one old new channel p e =
    ap (λ l. add_channels l p)
      (ap (drop (length old)) e ∙ drop-append old (channel ∷ []) 0 (length old) (omega arith))

none_left : (l : List Bytes) → drop (length l) l ≡ []
none_left [] = refl
none_left (x ∷ l) = none_left l

pub add_new_none : (old new : List Bytes) (p : ResponsePump ℕ) → new ≡ old → add_new old new p ≡ p
unfolding add_new
add_new_none old new p e = ap (λ l. add_channels l p) (ap (drop (length old)) e ∙ none_left old)
