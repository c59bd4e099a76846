-- ===== src/WebSocket/Opening.antt =====
-- How a WebSocket is opened: each completion of the handler's runs, and what it starts.
use iis_asgi_handler.Prelude.{
  ℕ, suc, ◌+◌, ◌^◌, ◌<◌, ◌≡◌, refl, ap, ◌∙◌, ◌⊎◌, inl, inr, true, Bool-cases, [], ◌∷◌, ◌++◌, Bytes,
  length, if◌then◌else◌, ok, ◌>>=◌, Returns, Returns-bind, Returns-mono, arith,
}
use iis_asgi_handler.Iis.{Iis, failed, s_ok}
use iis_asgi_handler.Messages.{AsgiWsConnectMsg}
use iis_asgi_handler.StateMachine.{
  Notification, pending, finished, handler_state_machine, handler_on_async_completion,
}
use iis_asgi_handler.WebSocket.{WebSocketContext}
use iis_asgi_handler.WebSocket.Reader.{WsReader, reader_start}
use iis_asgi_handler.WebSocket.Received.{
  Fresh, Unfragmented, Delivered, numbered, read_async_delivers,
}
use iis_asgi_handler.WebSocket.Writer.{writer_start, register_channels_callback}
use iis_asgi_handler.WebSocket.Handler.{
  WsStep, accept_web_socket, send_connect_to_application, flushing, sending, WsEnv,
  ws_get_next_step, ws_on_async_completion_step, ws_enter, ws_methods, start_reader_writer,
  ws_on_async_completion, ws_start,
}

module _ (iis : Iis) (ws : WebSocketContext) where
  -- How starting the connection may end.
  abbrev pub Started :
      AsgiWsConnectMsg → WsEnv iis ws → Notification × WsStep × WsEnv iis ws → Type 0
  Started msg e (n, s, e') =
      ((failed (iis.flush (iis.set_status 101 e.world)).0.hr ≡ true)
        × (n ≡ finished)
        × (e'.waiting ≡ e.waiting))
      ⊎ ((n ≡ pending) × (s ≡ accept_web_socket msg) × (e'.waiting ≡ flushing ∷ e.waiting))
      ⊎ ((n ≡ pending)
          × (s ≡ send_connect_to_application msg)
          × (e'.waiting ≡ sending msg ∷ e.waiting))

  -- Starting a connection never fails: it ends only if the flush fails, and otherwise waits either
  -- for the flush or, if that completed at once, for the task that sends the connect message.
  pub ws_start-Started :
      (fuel : ℕ) (msg : AsgiWsConnectMsg) (e : WsEnv iis ws)
      → Returns (Started msg e) (ws_start iis ws (suc fuel) (accept_web_socket msg) e)
  unfolding ws_start ws_enter ws_methods ws_on_async_completion_step handler_state_machine
      ws_get_next_step
  ws_start-Started fuel msg e =
      elim (Bool-cases (failed (iis.flush (iis.set_status 101 e.world)).0.hr)) [
        | inl f ↦ simp f (inl (refl, refl, refl))
        | inr f ↦ elim (Bool-cases (iis.flush (iis.set_status 101 e.world)).0.completion_expected) [
          | inl c ↦ simp (f, c) (inr (inl (refl, refl, refl)))
          | inr c ↦ simp (f, c) (inr (inr (refl, refl, refl)))
        ]
      ]

  module _ (law : Unfragmented ws) where
    open law use {incoming, reads_pending}

    -- What starting the reader and the writer does: the reader sends what comes in, on the channel
    -- and the path that it is given, and leaves one read more pending; the channel is added.
    pub record Running (c p : Bytes) (e e' : WsEnv iis ws) : Type 0 where
      pub fresh : Fresh e'.reader
      pub all_sent :
          e'.reader.sent ≡ e.reader.sent ++ numbered c p e.reader.msg.order (incoming e.socket)
      pub none_left : incoming e'.socket ≡ []
      pub waits : reads_pending e'.socket ≡ reads_pending e.socket + 1
      pub added : e'.writer.added ≡ e.writer.added ++ c ∷ []
      pub same_waiting : e'.waiting ≡ e.waiting

    start-Running :
        (fuel : ℕ) (c p : Bytes) (e : WsEnv iis ws)
        → Fresh e.reader
        → length (incoming e.socket) < fuel
        → Returns (Running c p e) (start_reader_writer iis ws fuel c p e)
    unfolding start_reader_writer reader_start writer_start register_channels_callback
    start-Running fuel c p e fresh enough =
        Returns-bind (λ (r', w'). Delivered ws law reader e.socket r' w') (Running c p e)
          (reader_start ws fuel c p e.reader e.socket)
          (λ (r', w'). ok (record e { reader = r'; socket = w'; writer = writer_start c e.writer }))
          (read_async_delivers ws law fuel reader e.socket
            (record { whole_chunk = fresh.whole_chunk; no_data = fresh.no_data }) enough)
          λ (r', w') d. record {
            fresh = d.fresh;
            all_sent = d.all_sent;
            none_left = d.none_left;
            waits = d.waits;
            added = refl;
            same_waiting = refl;
          }
      where
        reader : WsReader
        reader = record e.reader { msg = record e.reader.msg { reply_channel = c; path = p } }

    -- What a completion of the handler's does, apart from starting the reader and the writer.
    abbrev pub Moved : WsStep → ℕ → WsEnv iis ws → Notification × WsStep × WsEnv iis ws → Type 0
    Moved (accept_web_socket msg) hr e (n, s, e') =
        (n ≡ pending)
        × (s ≡ send_connect_to_application msg)
        × (e'.waiting ≡ sending msg ∷ e.waiting)
    Moved (send_connect_to_application msg) hr e (n, s, e') =
        (n ≡ (if failed hr then finished else pending))
        × (s ≡ send_connect_to_application msg)
        × (e'.waiting ≡ e.waiting)

    abbrev pub Completed :
        (c p : Bytes) → WsStep → ℕ → WsEnv iis ws → Notification × WsStep × WsEnv iis ws → Type 0
    Completed c p step hr e (n, s, e') =
        Moved step hr e (n, s, e')
        × Fresh e'.reader
        × (e'.reader.sent ≡ e.reader.sent ++ numbered c p e.reader.msg.order (incoming e.socket))
        × (incoming e'.socket ≡ [])
        × (reads_pending e'.socket ≡ reads_pending e.socket + 1)
        × (e'.writer.added ≡ e.writer.added ++ c ∷ [])

    moves :
        (fuel : ℕ) (c p : Bytes) (step : WsStep) (hr num_bytes : ℕ) (e e' : WsEnv iis ws)
        → Running c p e e'
        → Returns
            (Completed c p step hr e)
            (handler_on_async_completion (ws_methods iis ws) (suc fuel) step hr num_bytes e')
    unfolding handler_on_async_completion ws_methods ws_enter ws_on_async_completion_step
        handler_state_machine ws_get_next_step
    moves fuel c p (accept_web_socket msg) hr num_bytes e e' r = (
      (refl, refl, ap (◌∷◌ (sending msg)) r.same_waiting),
      r.fresh,
      r.all_sent,
      r.none_left,
      r.waits,
      r.added,
    )
    moves fuel c p (send_connect_to_application msg) hr num_bytes e e' r =
        elim (Bool-cases (failed hr)) [
          | inl f ↦
              simp f
                ((refl, refl, r.same_waiting), r.fresh, r.all_sent, r.none_left, r.waits, r.added)
          | inr f ↦
              simp f
                ((refl, refl, r.same_waiting), r.fresh, r.all_sent, r.none_left, r.waits, r.added)
        ]

    -- While messages of one fragment come in, every completion is handled without an exception:
    -- the accepting step goes on to send the connect message once, and the sending step stays unless
    -- the completion failed. Each time the reader is started, which sends all messages that come in,
    -- on the handler's channel and path, and leaves one read more pending, and the writer, which
    -- adds the channel. The orders, which are ints, stay below 2 ^ 31.
    pub ws_on_async_completion-Completed :
        (fuel : ℕ) (c p : Bytes) (step : WsStep) (hr num_bytes : ℕ) (e : WsEnv iis ws)
        → Fresh e.reader
        → length (incoming e.socket) < suc fuel
        → e.reader.msg.order + length (incoming e.socket) < 2 ^ 31
        → Returns
            (Completed c p step hr e)
            (ws_on_async_completion iis ws (suc fuel) c p step hr num_bytes e)
    unfolding ws_on_async_completion
    ws_on_async_completion-Completed fuel c p step hr num_bytes e fresh enough in_range =
        Returns-bind (Running c p e) (Completed c p step hr e)
          (start_reader_writer iis ws (suc fuel) c p e) _
          (start-Running (suc fuel) c p e fresh enough) (moves fuel c p step hr num_bytes e)

    -- Where the flush completes later, the handler is called back twice before the connection is
    -- open: two reads are pending on the one reader and its one buffer, and the channel is added
    -- twice. The messages that come in are of one fragment, and their orders, which are ints, stay
    -- below 2 ^ 31.
    pub started_twice :
        (fuel : ℕ) (c p : Bytes) (msg : AsgiWsConnectMsg) (hr num_bytes : ℕ) (e : WsEnv iis ws)
        → Fresh e.reader
        → length (incoming e.socket) < suc fuel
        → e.reader.msg.order + length (incoming e.socket) < 2 ^ 31
        → Returns
            (λ (n, s, e').
              (n ≡ pending)
              × (s ≡ send_connect_to_application msg)
              × (reads_pending e'.socket ≡ reads_pending e.socket + 2)
              × (e'.writer.added ≡ (e.writer.added ++ c ∷ []) ++ c ∷ []))
            (ws_on_async_completion iis ws (suc fuel) c p (accept_web_socket msg) hr num_bytes e
              >>= λ (n, s, e'). ws_on_async_completion iis ws (suc fuel) c p s s_ok 0 e')
    unfolding ws_on_async_completion
    started_twice fuel c p msg hr num_bytes e fresh enough in_range =
        Returns-bind (Completed c p (accept_web_socket msg) hr e) _
          (ws_on_async_completion iis ws (suc fuel) c p (accept_web_socket msg) hr num_bytes e) _
          (ws_on_async_completion-Completed fuel c p (accept_web_socket msg) hr num_bytes e fresh
            enough in_range)
          λ (n, s, e₁) ((_, at_send, _), fresh₁, _, none_left, waits₁, added₁). rw at_send (
            Returns-bind (Running c p e₁) _ (start_reader_writer iis ws (suc fuel) c p e₁) _
              (start-Running (suc fuel) c p e₁ fresh₁ (omega (arith, ap length none_left)))
              λ e₂ r.
                Returns-mono (Completed c p (send_connect_to_application msg) s_ok e₁) _ _
                  (λ (n', s', e₃) ((stays, same, _), _, _, _, waits₂, added₂). (
                    stays,
                    same,
                    omega (arith, waits₁, waits₂),
                    added₂ ∙ ap (λ l. l ++ c ∷ []) added₁,
                  ))
                  (moves fuel c p (send_connect_to_application msg) s_ok 0 e₁ e₂ r))
