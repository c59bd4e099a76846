-- ===== src/WebSocket/Calls.antt =====
-- What one call of WsWriter's does to its turn.
use iis_asgi_handler.Prelude.{
  ℕ, zero, suc, ◌^◌, ◌<◌, ◌≡◌, refl, ap, ◌∙◌, inl, inr, false, List, [], ◌∷◌, ◌++◌, append_assoc,
  Bytes, length, ok, Returns, Returns-mono,
}
use iis_asgi_handler.Messages.{AsgiWsSendMsg}
use iis_asgi_handler.WebSocket.{WebSocketContext}
use iis_asgi_handler.WebSocket.Writer.{WsWriter, send_message, write_async, write_callback}
use iis_asgi_handler.WebSocket.Written.{Taking, send_message_begins, write_callback_ends}
use iis_asgi_handler.WebSocket.Turns.{
  Turn, contents, contents-append, Idle, Busy, after, Ends, Goes,
}

module _ (ws : WebSocketContext) (law : Taking ws)
    (whole : (bytes : Bytes) (w : ws.World)
      → (ws.write_fragment bytes w).0.completion_expected ≡ false
      → (ws.write_fragment bytes w).0.num_bytes ≡ length bytes) where
  open law use {written}

  pub arrives-Goes :
      (fuel : ℕ) (msg : AsgiWsSendMsg) (s : Turn ws)
      → Idle s
      → length msg.bytes < 2 ^ 32
      → Returns
          (λ (s', w').
            (written w' ≡ written s.world ++ msg.bytes)
            × Goes s (after ws (s.arrived ++ msg ∷ []) s' w'))
          (send_message ws (suc fuel) msg s.writer s.world)
  arrives-Goes fuel msg s idle small =
      Returns-mono _ _ (send_message ws (suc fuel) msg s.writer s.world)
        (λ (s', w') (out, turn). (
          out,
          elim turn [
            | inl waits ↦
                let (gone, start, same, added) = waits in
                inl (record {
                  idle = record { no_message = gone; start = start };
                  same_channel = same;
                  added = added;
                })
            | inr e ↦ inr (
              msg,
              record {
                busy = record { message = ap (λ x. x.asgi_send_msg) e };
                same_channel = ap (λ x. x.reply_channel) e;
                added = ap (λ x. x.added) e;
              },
            )
          ],
        ))
        (send_message_begins ws law fuel msg s.writer s.world idle.start small
          (whole msg.bytes s.world))

  pub completes-Ends :
      (fuel hr : ℕ) (msg : AsgiWsSendMsg) (s : Turn ws)
      → Busy msg s
      → Returns
          (λ (s', w'). (w' ≡ s.world) × Ends s (after ws s.arrived s' w'))
          (write_callback ws fuel hr (length msg.bytes) s.writer s.world)
  completes-Ends fuel hr msg s busy =
      Returns-mono _ _ (write_callback ws fuel hr (length msg.bytes) s.writer s.world)
        (λ (s', w') (waits, same_world).
          let (gone, start, same, added) = waits in
          (
            same_world,
            record {
              idle = record { no_message = gone; start = start };
              same_channel = same;
              added = added;
            },
          ))
        (write_callback_ends ws law fuel hr msg s.writer s.writer s.world busy.message (refl, refl))

  pub written_next :
      (w w₁ w' : ws.World) (ms : List AsgiWsSendMsg) (msg : AsgiWsSendMsg)
      → written w₁ ≡ written w ++ contents ms
      → written w' ≡ written w₁ ++ msg.bytes
      → written w' ≡ written w ++ contents (ms ++ msg ∷ [])
  written_next w w₁ w' ms msg before more =
      rw (contents-append ms msg)
        (more ∙ ap (λ b. b ++ msg.bytes) before ∙ append_assoc (written w) (contents ms) msg.bytes)

  pub needs_fuel :
      (msg : AsgiWsSendMsg) (s : WsWriter) (w : ws.World) (r : WsWriter × ws.World)
      → ¬ (send_message ws zero msg s w ≡ ok r)
  unfolding send_message write_async
  needs_fuel msg s w r e = absurd (cc)
