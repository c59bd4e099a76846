-- ===== src/Http/Connection.antt =====
-- One HTTP request from the handler's first return to its last:
-- AsgiHandlerLib/HttpRequestHandler.cpp with what calls it back. IIS, the thread pool and the
-- response pump run in any order; each call of theirs is an event, with what the server chose to do
-- as its arguments.
use iis_asgi_handler.Prelude.{
  ℕ, List, [], ◌∷◌, ◌++◌, some, Bytes, length, write_at, Result, ok, err, Error, ◌>>=◌, or_err,
}
use iis_asgi_handler.Iis.{Iis, s_ok}
use iis_asgi_handler.Messages.{AsgiHttpRequestMsg, AsgiHttpResponseMsg}
use iis_asgi_handler.StateMachine.{Notification, handler_state_machine, handler_on_async_completion}
use iis_asgi_handler.Http.{
  HttpStep, read_body, wait_for_response, Waiting, reading, writing, flushing, posted, sending,
  awaiting, Env, http_methods, enter,
}

-- `sent` are the messages on the channel "http.request", `received` those of the application.
pub record Connection (iis : Iis) : Type 0 where
  pub status : Notification
  pub step : HttpStep
  pub env : Env iis
  pub sent : List AsgiHttpRequestMsg
  pub received : List AsgiHttpResponseMsg

pub data Event (iis : Iis) : Type 0 where
  -- An operation of IIS completes, with the state of the server after it.
  read_completed : (hr : ℕ) (bytes : Bytes) (w : iis.World) → Event iis
  write_completed flush_completed : (hr num_bytes : ℕ) (w : iis.World) → Event iis
  -- The task of SendToApplicationStep runs.
  request_sent : AsgiHttpRequestMsg → Event iis
  -- The callback of WaitForResponseStep runs, on the message that it unpacks.
  response_received : (channel : Bytes) → AsgiHttpResponseMsg → Event iis
  -- The completion of PostCompletion(0) is delivered.
  post_completed : Event iis

-- What has to be waiting for an event to happen.
abbrev pub cause : {iis : Iis} → Event iis → Waiting
cause (read_completed hr bytes w) = reading
cause (write_completed hr num_bytes w) = writing
cause (flush_completed hr num_bytes w) = flushing
cause (request_sent msg) = sending msg
cause (response_received channel msg) = awaiting channel
cause post_completed = posted

-- An asynchronous read fills the buffer of the step behind the bytes that were there when it was
-- started. A step that is gone has no buffer.
unfoldable pub fill_body : HttpStep → Bytes → Result HttpStep
fill_body (read_body msg n) bytes = or_err (write_at msg.body n bytes) Error.overrun >>= λ body.
    ok (read_body (record msg { body = body }) n)
fill_body _ bytes = err Error.overrun

-- The callback writes through the `this` that it captured. Its last line, which logs after it has
-- posted the completion, is not here.
unfoldable pub set_response : HttpStep → AsgiHttpResponseMsg → Result HttpStep
set_response (wait_for_response channel _) msg = ok (wait_for_response channel (some msg))
set_response _ msg = err Error.null_pointer

module _ (iis : Iis) (fuel : ℕ) where
  -- HttpRequestHandler::OnAsyncCompletion()
  unfoldable pub http_on_async_completion :
      HttpStep → (hr num_bytes : ℕ) → Env iis → Result (Notification × HttpStep × Env iis)
  http_on_async_completion = handler_on_async_completion (http_methods iis fuel) fuel

  -- The end of HttpRequestHandler::OnExecuteRequestHandler(), from the first step on.
  unfoldable pub http_start : HttpStep → Env iis → Result (Notification × HttpStep × Env iis)
  http_start step e = do
    (r, step', e') ← enter iis fuel step e
    handler_state_machine (http_methods iis fuel) fuel r step' e'

  -- `rest` is what waits besides the cause of the event.
  unfoldable pub handle :
      Event iis → (rest : List Waiting) → Connection iis → Result (Connection iis)
  handle (read_completed hr bytes w) rest c = do
    step ← fill_body c.step bytes
    (status, step', e) ←
        http_on_async_completion step hr (length bytes) (record { world = w; waiting = rest })
    ok (record c { status = status; step = step'; env = e })
  handle (write_completed hr num_bytes w) rest c = do
    (status, step', e) ←
        http_on_async_completion c.step hr num_bytes (record { world = w; waiting = rest })
    ok (record c { status = status; step = step'; env = e })
  handle (flush_completed hr num_bytes w) rest c = do
    (status, step', e) ←
        http_on_async_completion c.step hr num_bytes (record { world = w; waiting = rest })
    ok (record c { status = status; step = step'; env = e })
  handle (request_sent msg) rest c = ok (record c {
    env = record { world = c.env.world; waiting = posted ∷ rest };
    sent = c.sent ++ msg ∷ [];
  })
  handle (response_received channel msg) rest c = do
    step ← set_response c.step msg
    ok (record c {
      step = step;
      env = record { world = c.env.world; waiting = posted ∷ rest };
      received = c.received ++ msg ∷ [];
    })
  handle post_completed rest c = do
    (status, step', e) ←
        http_on_async_completion c.step s_ok 0 (record { world = c.env.world; waiting = rest })
    ok (record c { status = status; step = step'; env = e })
