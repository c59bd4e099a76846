-- ===== src/Http/Start.antt =====
-- HttpRequestHandler::OnExecuteRequestHandler(): from the request to the first return.
use iis_asgi_handler.Prelude.{
  ℕ, ◌<◌, ◌^◌, ◌≡◌, refl, ◌∙◌, Bool, false, List, [], Bytes, length, length-replicate, replicate,
  codes, Result, ok, ◌>>=◌, Returns, Returns-bind,
}
use iis_asgi_handler.Iis.{Iis, Lawful}
use iis_asgi_handler.Channels.{Engine, new_channel}
use iis_asgi_handler.Messages.{AsgiHttpRequestMsg}
use iis_asgi_handler.Request.{
  RawRequest, get_request_http_version, get_request_scheme, get_request_path,
  get_request_query_string, get_request_headers,
}
use iis_asgi_handler.Http.{read_body, Env, enter}
use iis_asgi_handler.Http.Connection.{Connection, http_start}
use iis_asgi_handler.Http.Invariant.{IsReading, Keeps, Inv}
use iis_asgi_handler.Http.Loop.{machine-Post}
use iis_asgi_handler.Http.Response.{read_body_enter-Keeps}

-- The message that OnExecuteRequestHandler() fills in, with its buffer for the body.
unfoldable pub http_request_msg :
    (to_bytes : List ℕ → Bytes) → RawRequest → (reply_channel body : Bytes) → AsgiHttpRequestMsg
http_request_msg to_bytes r reply_channel body = record {
  reply_channel = reply_channel;
  http_version = get_request_http_version r;
  method = r.http_method;
  scheme = get_request_scheme to_bytes r;
  path = get_request_path to_bytes r;
  query_string = get_request_query_string to_bytes r;
  root_path = [];
  headers = get_request_headers r;
  body = body;
}

-- HttpRequestHandler::ReturnError(), which nothing calls: whether something is pending, and the
-- response. The reason is a text of the status line, which `set_status` leaves out.
unfoldable pub return_error : (iis : Iis) → (status : ℕ) → iis.World → Bool × iis.World
return_error iis status w = (false, iis.set_status status (iis.clear w))

module _ (iis : Iis) (engine : Engine) (to_bytes : List ℕ → Bytes) (fuel : ℕ) where
  unfoldable pub http_on_execute_request_handler :
      RawRequest → engine.State → iis.World → Result (Connection iis)
  http_on_execute_request_handler r random w = do
    let channel = (new_channel engine (codes "http.request!") random).0
    let body : Bytes = replicate (iis.remaining_entity_bytes w) 0
    let msg = http_request_msg to_bytes r channel body
    (status, step, e) ← http_start iis fuel (read_body msg 0) (record { world = w; waiting = [] })
    ok (record { status = status; step = step; env = e; sent = []; received = [] })

  -- A request with a body of less than 4 GB is started without an error, and its connection has the
  -- invariant: the application is to see the request's own fields, and all of its body.
  pub http_on_execute_request_handler-Inv :
      (law : Lawful iis) (r : RawRequest) (random : engine.State) (w : iis.World)
      → law.written w ≡ []
      → length (law.entity w) < 2 ^ 32
      → length (law.entity w) < fuel
      → 3 < fuel
      → let channel = (new_channel engine (codes "http.request!") random).0 in
        Returns
          (Inv iis law (http_request_msg to_bytes r channel (law.entity w)))
          (http_on_execute_request_handler r random w)
  unfolding http_on_execute_request_handler http_start enter http_request_msg
  http_on_execute_request_handler-Inv law r random w fresh small enough rounds =
      Returns-bind _ (Inv iis law req) (http_start iis fuel (read_body msg 0) e) _
        (Returns-bind (Keeps iis law req [] [] 2) _ (enter iis fuel (read_body msg 0) e) _
          (read_body_enter-Keeps iis law req [] [] fuel msg 0 e enough refl start)
          λ (result, s', e') (p, _).
            machine-Post iis law req [] [] fuel enough rounds result s' e' p)
        λ (status, s', e') p. p
    where
      channel : Bytes
      channel = (new_channel engine (codes "http.request!") random).0

      req : AsgiHttpRequestMsg
      req = http_request_msg to_bytes r channel (law.entity w)

      msg : AsgiHttpRequestMsg
      msg = http_request_msg to_bytes r channel (replicate (iis.remaining_entity_bytes w) 0)

      e : Env iis
      e = record { world = w; waiting = [] }

      start : IsReading iis law req [] [] msg 0 w
      start = record {
        same = refl;
        buffer = record {
          filled = [];
          room = msg.body;
          split = refl;
          count = refl;
          fits = length-replicate (iis.remaining_entity_bytes w) 0 ∙ law.remaining w;
          whole = refl;
          small = small;
        };
        unsent = refl;
        unanswered = refl;
        unwritten = fresh;
      }
