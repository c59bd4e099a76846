-- ===== src/Http/Lifecycle.antt =====
-- HttpRequestHandler under every event that can happen to a connection, and the invariant.
use iis_asgi_handler.Prelude.{ℕ, ◌<◌, ◌≡◌, refl, sym, subst, ◌∙◌, List, [], length, Returns}
use iis_asgi_handler.Iis.{Iis, Lawful}
use iis_asgi_handler.Messages.{AsgiHttpRequestMsg}
use iis_asgi_handler.StateMachine.{pending}
use iis_asgi_handler.Http.{Waiting}
use iis_asgi_handler.Http.Connection.{
  Connection, Event, read_completed, write_completed, flush_completed, request_sent,
  response_received, post_completed, cause, handle,
}
use iis_asgi_handler.Http.Invariant.{Live, Inv}
use iis_asgi_handler.Http.Called.{Allowed, IsEnabled, Calls, Live-Calls, Post-Live}
use iis_asgi_handler.Http.Events.{
  returns, deliver-Post, write_completed-Post, flush_completed-Post, read_completed-Post,
  request_sent-Live, response_received-Live,
}

module _ (iis : Iis) (law : Lawful iis) (req : AsgiHttpRequestMsg) (fuel : ℕ)
    (enough : length req.body < fuel) (rounds : 3 < fuel) where
  handle_called :
      (event : Event iis) (c : Connection iis) (before after : List Waiting)
      → c.status ≡ pending
      → Live iis law req c.sent c.received c.step c.env
      → Calls (cause event) c.step c.env.waiting before after
      → Allowed iis law event c.env.world
      → Returns (Inv iis law req) (handle iis fuel event [] c)
  unfolding handle
  handle_called (read_completed hr bytes w) c before after st l (f, p, _) a =
      let (s', eq, h) =
        read_completed-Post iis law req c.sent c.received fuel enough rounds c.step c.env hr bytes w
          f a l in
      rw eq (returns iis law req c.sent c.received fuel enough rounds c _ refl refl h)
  handle_called (write_completed hr n w) c before after st l (f, p, _) a =
      returns iis law req c.sent c.received fuel enough rounds c _ refl refl (
        write_completed-Post iis law req c.sent c.received fuel enough rounds c.step c.env hr n w f
          a l)
  handle_called (flush_completed hr n w) c before after st l (f, p, _) a =
      returns iis law req c.sent c.received fuel enough rounds c _ refl refl (
        flush_completed-Post iis law req c.sent c.received fuel enough rounds c.step c.env hr n w f
          a l)
  handle_called (request_sent msg) c before after st l (f, p, _) a =
      rw st
        (request_sent-Live iis law req c.sent c.received fuel enough rounds c.step c.env msg f p l)
  handle_called (response_received channel m) c before after st l (f, p, _) a =
      let (s', eq, h) =
        response_received-Live iis law req c.sent c.received fuel enough rounds c.step c.env channel
          m f a l in
      rw (eq, st) h
  handle_called post_completed c before after st l (f, p, _) a =
      returns iis law req c.sent c.received fuel enough rounds c _ refl refl
        (deliver-Post iis law req c.sent c.received fuel enough rounds c.step c.env f p l)

  -- Whatever happens to a connection that satisfies the invariant is handled without an error (no
  -- exception, no empty message, no access outside the body's buffer, no loop that does not end),
  -- and leaves the connection with the invariant.
  pub handle-Inv :
      (event : Event iis) (rest : List Waiting) (c : Connection iis)
      → Inv iis law req c
      → IsEnabled iis law event rest c.env
      → Returns (Inv iis law req) (handle iis fuel event rest c)
  handle-Inv event rest c inv en =
      let (st, l) =
        Post-Live iis law req c.sent c.received c.status c.step c.env (cause event) en.before
          en.after inv en.waits in
      let called =
        Live-Calls iis law req c.sent c.received c.step c.env (cause event) en.before en.after l
          en.waits in
      subst (λ r. Returns (Inv iis law req) (handle iis fuel event r c))
        (sym (en.others ∙ called.2))
        (handle_called event c en.before en.after st l called en.allowed)
