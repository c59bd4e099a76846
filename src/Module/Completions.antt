-- ===== src/Module/Completions.antt =====
-- HttpModule::OnAsyncCompletion(): the completions of a request, and the handler stored for it.
use iis_asgi_handler.Prelude.{
  ℕ, ◌<◌, ◌≡◌, Option, some, none, List, length, subst, Result, ok, err, ◌>>=◌, Returns,
}
use iis_asgi_handler.Iis.{Iis, Lawful, s_ok}
use iis_asgi_handler.Http.{HttpStep, Env, Waiting}
use iis_asgi_handler.Messages.{AsgiHttpRequestMsg}
use iis_asgi_handler.StateMachine.{Notification}
use iis_asgi_handler.Http.Connection.{
  Connection, Event, read_completed, write_completed, flush_completed, request_sent,
  response_received, post_completed, handle,
}
use iis_asgi_handler.Http.Called.{IsEnabled}
use iis_asgi_handler.Http.Invariant.{Inv}
use iis_asgi_handler.Http.Lifecycle.{handle-Inv}
use iis_asgi_handler.WebSocket.{WebSocketContext}
use iis_asgi_handler.Module.{http_request_handler, on_async_completion}
use iis_asgi_handler.Module.Dispatch.{IsHttp}

module _ (iis : Iis) (ws : WebSocketContext) (fuel : ℕ) where
  through-IsHttp :
      (P : Connection iis → Type 0) (c : Connection iis)
      (m : Result (Notification × HttpStep × Env iis))
      → Returns P
          (m >>= λ (status, step, env). ok (record c { status = status; step = step; env = env }))
      → Returns (IsHttp iis ws P) (
          m >>= λ (status, step, env).
          ok (http_request_handler (record c { status = status; step = step; env = env })))
  through-IsHttp P c (ok (status, step, env)) h = h
  through-IsHttp P c (err e) h = h

  -- What OnAsyncCompletion() is given for an event: the HRESULT, the number of bytes, and the state
  -- of the server.
  abbrev pub completion : Event iis → iis.World → Option (ℕ × ℕ × iis.World)
  completion (write_completed hr num_bytes w) w₀ = some (hr, num_bytes, w)
  completion (flush_completed hr num_bytes w) w₀ = some (hr, num_bytes, w)
  completion post_completed w₀ = some (s_ok, 0, w₀)
  completion _ w₀ = none

  delivered :
      (P : Connection iis → Type 0) (rest : List Waiting) (c : Connection iis)
      {a b : ℕ × ℕ × iis.World}
      → some a ≡ some b
      → let sees : ℕ × ℕ × iis.World → Type 0 = λ (hr, num_bytes, w). Returns (IsHttp iis ws P) (
          on_async_completion iis ws fuel hr num_bytes
            (http_request_handler (record c { env = record { world = w; waiting = rest } }))) in
        sees a → sees b
  delivered P rest c {a = a} {b = b} given h =
      let same : a ≡ b = cc in
      subst
        (λ (t : ℕ × ℕ × iis.World). Returns (IsHttp iis ws P) (
          on_async_completion iis ws fuel t.0 t.1
            (http_request_handler (record c { env = record { world = t.2; waiting = rest } }))))
        same h

  as_handled :
      (P : Connection iis → Type 0) (event : Event iis) (rest : List Waiting) (c : Connection iis)
      {hr num_bytes : ℕ} {w : iis.World}
      → completion event c.env.world ≡ some (hr, num_bytes, w)
      → Returns P (handle iis fuel event rest c)
      → Returns (IsHttp iis ws P) (
          on_async_completion iis ws fuel hr num_bytes
            (http_request_handler (record c { env = record { world = w; waiting = rest } })))
  unfolding on_async_completion handle
  as_handled P (write_completed hr n w) rest c given h =
      delivered P rest c given (through-IsHttp P c _ h)
  as_handled P (flush_completed hr n w) rest c given h =
      delivered P rest c given (through-IsHttp P c _ h)
  as_handled P post_completed rest c given h = delivered P rest c given (through-IsHttp P c _ h)
  as_handled P (read_completed hr bytes w) rest c given h = absurd (cc)
  as_handled P (request_sent msg) rest c given h = absurd (cc)
  as_handled P (response_received channel msg) rest c given h = absurd (cc)

  -- A completion that IIS may deliver to the handler of a plain request, which satisfies the
  -- invariant, is handled without an error by this handler, which satisfies the invariant of
  -- the same request then.
  pub completion-IsHttp :
      (law : Lawful iis) (req : AsgiHttpRequestMsg) (event : Event iis) (rest : List Waiting)
      (c : Connection iis) (hr num_bytes : ℕ) (w : iis.World)
      → length req.body < fuel
      → 3 < fuel
      → Inv iis law req c
      → IsEnabled iis law event rest c.env
      → completion event c.env.world ≡ some (hr, num_bytes, w)
      → Returns (IsHttp iis ws (Inv iis law req)) (
          on_async_completion iis ws fuel hr num_bytes
            (http_request_handler (record c { env = record { world = w; waiting = rest } })))
  completion-IsHttp law req event rest c hr num_bytes w enough rounds inv en given =
      as_handled (Inv iis law req) event rest c given
        (handle-Inv iis law req fuel enough rounds event rest c inv en)
