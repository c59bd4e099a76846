-- ===== src/WebSocket/Handler.antt =====
-- AsgiHandlerLib/WsRequestHandler.cpp and WsRequestHandlerSteps.h and .cpp: the two steps that
-- accept a WebSocket and tell the application of it, and the start of the reader and the writer.
use mathlib.Core.Logic.{ite}
use iis_asgi_handler.Prelude.{
  ℕ, List, [], ◌∷◌, Bytes, Bytes-discrete, codes, if◌then◌else◌, Result, ok, err, Error, ◌>>=◌,
}
use iis_asgi_handler.Iis.{Iis, failed, s_ok}
use iis_asgi_handler.Messages.{AsgiWsConnectMsg}
use iis_asgi_handler.Channels.{Engine, new_channel}
use iis_asgi_handler.Request.{
  RawRequest, get_request_scheme, get_request_path, get_request_query_string, get_request_headers,
}
use iis_asgi_handler.StateMachine.{
  StepResult, async_pending, goto_next, finish_request, StepMethods, Notification,
  handler_state_machine, handler_on_async_completion,
}
use iis_asgi_handler.WebSocket.{WebSocketContext}
use iis_asgi_handler.WebSocket.Reader.{WsReader, reader_start}
use iis_asgi_handler.WebSocket.Writer.{WsWriter, writer_start}

pub data WsStep : Type 0 where
  accept_web_socket : (asgi_connect_msg : AsgiWsConnectMsg) → WsStep
  send_connect_to_application : (asgi_connect_msg : AsgiWsConnectMsg) → WsStep

-- What will call the handler back: the flush of the response, the task that sends the message, or
-- the completion that it posts.
pub data WsWaiting : Type 0 where
  flushing posted : WsWaiting
  sending : AsgiWsConnectMsg → WsWaiting

-- The state of IIS and of its WebSocket module, and the members `m_reader` and `m_writer`.
pub record WsEnv (iis : Iis) (ws : WebSocketContext) : Type 0 where
  pub world : iis.World
  pub socket : ws.World
  pub waiting : List WsWaiting
  pub reader : WsReader
  pub writer : WsWriter

unfoldable pub ws_get_next_step : WsStep → Result WsStep
ws_get_next_step (accept_web_socket msg) = ok (send_connect_to_application msg)
ws_get_next_step (send_connect_to_application msg) = err Error.runtime_error

module _ (iis : Iis) (ws : WebSocketContext) where
  unfoldable pub ws_on_async_completion_step :
      WsStep → (hr num_bytes : ℕ) → WsEnv iis ws → Result (StepResult × WsStep × WsEnv iis ws)
  ws_on_async_completion_step (accept_web_socket msg) hr num_bytes e =
      ok (goto_next, accept_web_socket msg, e)
  ws_on_async_completion_step (send_connect_to_application msg) hr num_bytes e =
      if failed hr
      then ok (finish_request, send_connect_to_application msg, e)
      else ok (async_pending, send_connect_to_application msg, e)

  unfoldable pub ws_enter : WsStep → WsEnv iis ws → Result (StepResult × WsStep × WsEnv iis ws)
  unfolding ws_on_async_completion_step
  ws_enter (accept_web_socket msg) e =
      let (r, w) = iis.flush (iis.set_status 101 e.world) in
      let e' : WsEnv iis ws = record e { world = w } in
      if failed r.hr
      then ok (finish_request, accept_web_socket msg, e')
      else if r.completion_expected
      then ok (async_pending, accept_web_socket msg, record e' { waiting = flushing ∷ e.waiting })
      else ws_on_async_completion_step (accept_web_socket msg) s_ok r.num_bytes e'
  ws_enter (send_connect_to_application msg) e = ok (
    async_pending,
    send_connect_to_application msg,
    record e { waiting = sending msg ∷ e.waiting },
  )

  unfoldable pub ws_methods : StepMethods WsStep (WsEnv iis ws)
  ws_methods = record {
    enter = ws_enter;
    on_async_completion = ws_on_async_completion_step;
    get_next_step = ws_get_next_step;
  }

  module _ (fuel : ℕ) (reply_channel request_path : Bytes) where
    -- StartReaderWriter()
    unfoldable pub start_reader_writer : WsEnv iis ws → Result (WsEnv iis ws)
    start_reader_writer e = do
      (r, w) ← reader_start ws fuel reply_channel request_path e.reader e.socket
      ok (record e { reader = r; socket = w; writer = writer_start reply_channel e.writer })

    -- WsRequestHandler::OnAsyncCompletion()
    unfoldable pub ws_on_async_completion :
        WsStep → (hr num_bytes : ℕ) → WsEnv iis ws → Result (Notification × WsStep × WsEnv iis ws)
    ws_on_async_completion step hr num_bytes e = do
      e' ← start_reader_writer e
      handler_on_async_completion ws_methods fuel step hr num_bytes e'

  -- The end of OnExecuteRequestHandler(), from the first step on.
  unfoldable pub ws_start :
      ℕ → WsStep → WsEnv iis ws → Result (Notification × WsStep × WsEnv iis ws)
  ws_start fuel step e = do
    (r, step', e') ← ws_enter step e
    handler_state_machine ws_methods fuel r step' e'

-- The scheme of a WebSocket, from that of the URL.
unfoldable pub ws_scheme : Bytes → Bytes
ws_scheme scheme = ite (Bytes-discrete scheme (codes "https")) (codes "wss") (codes "ws")

module _ (to_bytes : List ℕ → Bytes) where
  unfoldable pub ws_connect_msg : RawRequest → (reply_channel : Bytes) → AsgiWsConnectMsg
  ws_connect_msg r reply_channel = record {
    reply_channel = reply_channel;
    scheme = ws_scheme (get_request_scheme to_bytes r);
    path = get_request_path to_bytes r;
    query_string = get_request_query_string to_bytes r;
    root_path = [];
    headers = get_request_headers r;
  }

  -- WsRequestHandler::OnExecuteRequestHandler()
  unfoldable pub ws_on_execute_request_handler :
      (iis : Iis) (ws : WebSocketContext) (engine : Engine)
      → ℕ
      → RawRequest
      → engine.State
      → WsEnv iis ws
      → Result (Notification × WsStep × WsEnv iis ws)
  ws_on_execute_request_handler iis ws engine fuel r random e =
      let channel = (new_channel engine (codes "websocket.send!") random).0 in
      ws_start iis ws fuel (accept_web_socket (ws_connect_msg r channel)) e
