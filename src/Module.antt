-- ===== src/Module.antt =====
-- AsgiHandlerLib/HttpModule.cpp: which handler a request gets, and whom its completions go to.
pub mod Dispatch
pub mod Completions
pub mod Factory
use iis_asgi_handler.Prelude.{
  ℕ, ◌<◌, Bool, List, [], Bytes, length, get_or, codes, ltb, if◌then◌else◌, Result, ok, err, Error,
  ◌>>=◌,
}
use iis_asgi_handler.Iis.{Iis}
use iis_asgi_handler.Channels.{Engine, new_channel}
use iis_asgi_handler.Request.{RawRequest, get_request_path}
use iis_asgi_handler.StateMachine.{Notification}
use iis_asgi_handler.Http.{HttpStep}
use iis_asgi_handler.Http.Connection.{Connection, http_on_async_completion}
use iis_asgi_handler.Http.Start.{http_on_execute_request_handler}
use iis_asgi_handler.WebSocket.{WebSocketContext}
use iis_asgi_handler.WebSocket.Reader.{WsReader}
use iis_asgi_handler.WebSocket.Writer.{WsWriter}
use iis_asgi_handler.WebSocket.Handler.{
  WsStep, WsEnv, ws_on_execute_request_handler, ws_on_async_completion,
}

-- HTTP_HEADER_ID of the Upgrade header, and what GetHeader() gives as its length.
abbrev pub http_header_upgrade : ℕ
http_header_upgrade = 7

abbrev pub upgrade_header_length : RawRequest → ℕ
upgrade_header_length r = length (get_or r.known_headers http_header_upgrade [])

module _ (iis : Iis) (ws : WebSocketContext) where
  -- A WsRequestHandler, with what IIS has of its request.
  pub record WsConnection : Type 0 where
    pub status : Notification
    pub step : WsStep
    pub env : WsEnv iis ws
    pub reply_channel : Bytes
    pub request_path : Bytes

  -- The RequestHandler that is stored in the request's module context.
  pub data RequestHandler : Type 0 where
    http_request_handler : Connection iis → RequestHandler
    ws_request_handler : WsConnection → RequestHandler

  module _ (engine : Engine) (to_bytes : List ℕ → Bytes) (fuel : ℕ) where
    open engine use {State}

    -- HttpModule::OnExecuteRequestHandler(), with the WebSocket and the new reader and writer.
    unfoldable pub on_execute_request_handler :
        RawRequest → State → iis.World → ws.World → WsReader → WsWriter → Result RequestHandler
    on_execute_request_handler r random w socket reader writer =
        if ltb 0 (upgrade_header_length r)
        then (ws_on_execute_request_handler to_bytes iis ws engine fuel r random (record {
          world = w;
          socket = socket;
          waiting = [];
          reader = reader;
          writer = writer;
        })
            >>= λ (status, step, env). ok (
                ws_request_handler (record {
                  status = status;
                  step = step;
                  env = env;
                  reply_channel = (new_channel engine (codes "websocket.send!") random).0;
                  request_path = get_request_path to_bytes r;
                })))
        else (http_on_execute_request_handler iis engine to_bytes fuel r random w >>= λ c.
            ok (http_request_handler c))

  -- HttpModule::OnAsyncCompletion(): the virtual call of the handler's, which is given here as the one
  -- that the request's module context holds.
  unfoldable pub on_async_completion :
      (fuel hr num_bytes : ℕ) → RequestHandler → Result RequestHandler
  on_async_completion fuel hr num_bytes (http_request_handler c) =
      http_on_async_completion iis fuel c.step hr num_bytes c.env >>= λ (status, step, env).
      ok (http_request_handler (record c { status = status; step = step; env = env }))
  on_async_completion fuel hr num_bytes (ws_request_handler c) =
      ws_on_async_completion iis ws fuel c.reply_channel c.request_path c.step hr num_bytes c.env
      >>= λ (status, step, env).
          ok (ws_request_handler (record c { status = status; step = step; env = env }))
