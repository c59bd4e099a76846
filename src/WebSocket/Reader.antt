-- ===== src/WebSocket/Reader.antt =====
-- AsgiHandlerLib/WsReader.h and .cpp: the loop that reads fragments into one buffer and sends each
-- message to the application.
use iis_asgi_handler.Prelude.{
  ℕ, zero, suc, ◌+◌, ◌-◌, ◌/◌, ◌%◌, ◌^◌, Bool, List, [], ◌∷◌, ◌++◌, Bytes, length, take, replicate,
  write_at, leb, if◌then◌else◌, Result, ok, err, Error, ◌>>=◌, or_err,
}
use iis_asgi_handler.Iis.{s_ok}
use iis_asgi_handler.Messages.{AsgiWsReceiveMsg}
use iis_asgi_handler.WebSocket.{Fragment, WebSocketContext}

abbrev pub buffer_chunk_size : ℕ
buffer_chunk_size = 4096

abbrev pub buffer_chunk_increase_threshold : ℕ
buffer_chunk_increase_threshold = buffer_chunk_size / 4

-- The fields of a message that was packed for `websocket.receive`.
pub record Packed : Type 0 where
  pub reply_channel : Bytes
  pub path : Bytes
  pub order : ℕ
  pub bytes : Bytes

-- `m_msg`, and what the channel layer was given on `websocket.receive`, oldest first.
pub record WsReader : Type 0 where
  pub msg : AsgiWsReceiveMsg
  pub sent : List Packed

-- vector::resize()
abbrev pub resize : ℕ → Bytes → Bytes
resize n buffer = take n (buffer ++ replicate n 0)

abbrev pub packed : AsgiWsReceiveMsg → Packed
packed msg = record {
  reply_channel = msg.reply_channel;
  path = msg.path;
  order = msg.order;
  bytes = take msg.data_size msg.contents;
}

-- Packing reads `data_size` bytes from the buffer's start, which must be there.
unfoldable pub send_to_application : WsReader → Result WsReader
send_to_application r =
    if leb r.msg.data_size (length r.msg.contents)
    then ok (record r {
      msg = record r.msg {
        contents = resize buffer_chunk_size r.msg.contents;
        data_size = 0;
        order = r.msg.order + 1;
      };
      sent = r.sent ++ packed r.msg ∷ [];
    })
    else err Error.overrun

abbrev pub counted : ℕ → Bool → WsReader → WsReader
counted num_bytes utf8 r = record r {
  msg = record r.msg { data_size = r.msg.data_size + num_bytes; utf8 = utf8 };
}

abbrev pub grown : WsReader → WsReader
grown r = record r {
  msg = record r.msg {
    contents = resize (length r.msg.contents + buffer_chunk_size) r.msg.contents;
  };
}

-- ReadAsyncComplete(): neither a failure nor a close changes what it does.
unfoldable pub read_async_complete :
    (hr num_bytes : ℕ) (utf8 final_fragment close : Bool) → WsReader → Result WsReader
read_async_complete hr num_bytes utf8 final_fragment close r =
    let r' = counted num_bytes utf8 r in
    if final_fragment
    then send_to_application r'
    else if leb (length r'.msg.contents - buffer_chunk_increase_threshold) r'.msg.data_size
    then ok (grown r')
    else ok r'

-- The module fills the buffer that it was given.
unfoldable pub fill : Bytes → WsReader → Result WsReader
fill bytes r = do
  contents ← or_err (write_at r.msg.contents 0 bytes) Error.overrun
  ok (record r { msg = record r.msg { contents = contents } })

-- A fragment arrives in the buffer and is completed.
unfoldable pub complete_fragment : (hr : ℕ) → Fragment → WsReader → Result WsReader
complete_fragment hr f r = do
  r' ← fill f.bytes r
  read_async_complete hr f.num_bytes f.utf8 f.final_fragment f.close r'

module _ (ws : WebSocketContext) where
  -- The loop of ReadAsync(), on fuel. The size is passed as a DWORD.
  unfoldable pub read_async : ℕ → WsReader → ws.World → Result (WsReader × ws.World)
  read_async zero r w = err Error.out_of_fuel
  read_async (suc fuel) r w =
      let (f, w') = ws.read_fragment (length r.msg.contents % 2 ^ 32) w in
      let rest = complete_fragment s_ok f r >>= λ r'. read_async fuel r' w' in
      if f.completion_expected then ok (r, w') else rest

  unfoldable pub read_callback : ℕ → Fragment → WsReader → ws.World → Result (WsReader × ws.World)
  read_callback fuel f r w = complete_fragment f.hr f r >>= λ r'. read_async fuel r' w

  -- Start(), with the context that it looks up.
  unfoldable pub reader_start :
      ℕ → (reply_channel request_path : Bytes) → WsReader → ws.World → Result (WsReader × ws.World)
  reader_start fuel reply_channel request_path r w =
      read_async fuel
        (record r { msg = record r.msg { reply_channel = reply_channel; path = request_path } }) w
