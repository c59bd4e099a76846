-- ===== src/WebSocket/Turns.antt =====
-- WsWriter over any number of messages: where it stands before and after each of its calls, by the
-- pump or by the module.
use iis_asgi_handler.Prelude.{
  ◌≡◌, sym, ap, ◌∙◌, ◌⊎◌, List, [], ◌∷◌, ◌++◌, append-nil, append_assoc, none, some, Bytes,
}
use iis_asgi_handler.Messages.{AsgiWsSendMsg}
use iis_asgi_handler.WebSocket.{WebSocketContext}
use iis_asgi_handler.WebSocket.Writer.{WsWriter, writer_start}

-- The writer, the module's state, and the messages that the pump called it with, oldest first.
pub record Turn (ws : WebSocketContext) : Type 0 where
  pub writer : WsWriter
  pub world : ws.World
  pub arrived : List AsgiWsSendMsg

abbrev pub contents : List AsgiWsSendMsg → Bytes
contents [] = []
contents (m ∷ ms) = m.bytes ++ contents ms

pub contents-append :
    (ms : List AsgiWsSendMsg) (m : AsgiWsSendMsg) → contents (ms ++ m ∷ []) ≡ contents ms ++ m.bytes
contents-append [] m = append-nil m.bytes
contents-append (n ∷ ms) m =
    ap (λ b. n.bytes ++ b) (contents-append ms m) ∙ sym (append_assoc n.bytes (contents ms) m.bytes)

-- Between two messages.
pub record Idle {ws : WebSocketContext} (s : Turn ws) : Type 0 where
  pub no_message : s.writer.asgi_send_msg ≡ none
  pub start : s.writer.bytes_written ≡ 0

-- While a message is written.
pub record Busy {ws : WebSocketContext} (msg : AsgiWsSendMsg) (s : Turn ws) : Type 0 where
  pub message : s.writer.asgi_send_msg ≡ some msg

-- The writer after Start(), before any message.
abbrev pub started : (ws : WebSocketContext) (reply_channel : Bytes) → WsWriter → ws.World → Turn ws
started ws reply_channel s w = record {
  writer = writer_start reply_channel s;
  world = w;
  arrived = [];
}

-- The turn that an arrival or a completion gives.
abbrev pub after : (ws : WebSocketContext) → List AsgiWsSendMsg → WsWriter → ws.World → Turn ws
after ws arrived s w = record { writer = s; world = w; arrived = arrived }

-- A call of the writer's ended a message: it registered its channel once more.
pub record Ends {ws : WebSocketContext} (s t : Turn ws) : Type 0 where
  pub idle : Idle t
  pub same_channel : t.writer.reply_channel ≡ s.writer.reply_channel
  pub added : t.writer.added ≡ s.writer.added ++ s.writer.reply_channel ∷ []

-- A call of the writer's began a message: it registered nothing.
pub record Begins {ws : WebSocketContext} (msg : AsgiWsSendMsg) (s t : Turn ws) : Type 0 where
  pub busy : Busy msg t
  pub same_channel : t.writer.reply_channel ≡ s.writer.reply_channel
  pub added : t.writer.added ≡ s.writer.added

abbrev pub Goes : {ws : WebSocketContext} → Turn ws → Turn ws → Type 0
Goes s t = Ends s t ⊎ ((m : AsgiWsSendMsg) × Begins m s t)
