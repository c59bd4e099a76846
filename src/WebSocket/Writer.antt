-- ===== src/WebSocket/Writer.antt =====
-- AsgiHandlerLib/WsWriter.h and .cpp: the loop that writes a message of the application to the
-- WebSocket, and the callback that waits for the next one.
use iis_asgi_handler.Prelude.{
  ℕ, zero, suc, ◌+◌, ◌-◌, ◌%◌, ◌^◌, Bool, true, false, List, [], ◌∷◌, ◌++◌, Option, none, some,
  Bytes, length, take, leb, if◌then◌else◌, Result, ok, err, Error, ◌>>=◌,
}
use iis_asgi_handler.Iis.{s_ok}
use iis_asgi_handler.Messages.{AsgiWsSendMsg}
use iis_asgi_handler.WebSocket.{WebSocketContext}

-- `added` are the channels that were given to ResponsePump::AddChannel(), oldest first.
pub record WsWriter : Type 0 where
  pub reply_channel : Bytes
  pub asgi_send_msg : Option AsgiWsSendMsg
  pub bytes_written : ℕ
  pub added : List Bytes

unfoldable pub register_channels_callback : WsWriter → WsWriter
register_channels_callback s = record s { added = s.added ++ s.reply_channel ∷ [] }

-- WriteAsyncComplete(): whether there is more to write, and the writer.
unfoldable pub write_async_complete :
    (hr num_bytes : ℕ) → Option AsgiWsSendMsg → WsWriter → Result (Bool × WsWriter)
unfolding register_channels_callback
write_async_complete hr num_bytes none s = err Error.null_pointer
write_async_complete hr num_bytes (some msg) s =
    let n = s.bytes_written + num_bytes in
    if leb (length msg.bytes) n
    then ok
        (false, register_channels_callback (record s { asgi_send_msg = none; bytes_written = 0 }))
    else ok (true, record s { bytes_written = n })

-- The bytes of one call of WriteFragment(): from the message's start, as many as are left.
unfoldable pub write_chunk : AsgiWsSendMsg → ℕ → Bytes
write_chunk msg written = take ((length msg.bytes - written) % 2 ^ 32) msg.bytes

module _ (ws : WebSocketContext) where
  -- The loop of WriteAsync(), on fuel.
  unfoldable pub write_async :
      ℕ → Option AsgiWsSendMsg → WsWriter → ws.World → Result (WsWriter × ws.World)
  write_async zero msg s w = err Error.out_of_fuel
  write_async (suc fuel) none s w = err Error.null_pointer
  write_async (suc fuel) (some msg) s w =
      let (r, w') = ws.write_fragment (write_chunk msg s.bytes_written) w in
      let completed = write_async_complete s_ok r.num_bytes (some msg) s in
      let rest = completed >>= λ (more, s').
      let again = write_async fuel (some msg) s' w' in if more then again else ok (s', w') in
      if r.completion_expected then ok (s, w') else rest

  -- The callback of RegisterChannelsCallback(), with the message unpacked.
  unfoldable pub send_message :
      ℕ → AsgiWsSendMsg → WsWriter → ws.World → Result (WsWriter × ws.World)
  send_message fuel msg s w = write_async fuel (some msg) (record s { asgi_send_msg = some msg }) w

  unfoldable pub write_callback :
      ℕ → (hr num_bytes : ℕ) → WsWriter → ws.World → Result (WsWriter × ws.World)
  write_callback fuel hr num_bytes s w = do
    (more, s') ← write_async_complete hr num_bytes s.asgi_send_msg s
    if more then write_async fuel s'.asgi_send_msg s' w else ok (s', w)

unfoldable pub writer_start : (reply_channel : Bytes) → WsWriter → WsWriter
unfolding register_channels_callback
writer_start reply_channel s =
    register_channels_callback (record s { reply_channel = reply_channel })
