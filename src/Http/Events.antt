-- ===== src/Http/Events.antt =====
-- Each event, at a live connection whose step it calls back.
use iis_asgi_handler.Prelude.{
  ℕ, ◌<◌, ◌^◌, ◌≡◌, refl, sym, ap, subst₂, ap₂, ◌∙◌, inl, inr, List, [], ◌∷◌, ◌++◌, none, some,
  Bytes, length, arith, Returns, Returns-bind, ok, Result, ◌>>=◌, write_at, write_at-append,
}
use mathlib.Core.Bool.{false≢true}
use iis_asgi_handler.Iis.{Iis, Lawful, s_ok}
use iis_asgi_handler.Messages.{AsgiHttpRequestMsg, AsgiHttpResponseMsg}
use iis_asgi_handler.StateMachine.{Notification, handler_on_async_completion}
use iis_asgi_handler.Http.{
  HttpStep, read_body, send_to_application, wait_for_response, write_response, flush_response, Env,
  reading, writing, flushing, posted, sending, awaiting, on_async_completion, http_methods,
}
use iis_asgi_handler.Http.Body.{write_at-Reading}
use iis_asgi_handler.Http.Connection.{
  Connection, read_completed, fill_body, set_response, http_on_async_completion,
}
use iis_asgi_handler.Http.Invariant.{IsAnswering-same, Live, Post, Inv}
use iis_asgi_handler.Http.Loop.{machine-Post}
use iis_asgi_handler.Http.Completion.{
  Before, read_completion-Pre, wait_completion-Pre, write_completion-Pre,
}
use iis_asgi_handler.Http.Called.{Allowed, Fits}

module _ (iis : Iis) (law : Lawful iis) (req : AsgiHttpRequestMsg) (sent : List AsgiHttpRequestMsg)
    (received : List AsgiHttpResponseMsg) where
  open law use {entity, written}

  module _ (fuel : ℕ) (enough : length req.body < fuel) (rounds : 3 < fuel) where
    -- The handler, called back, runs its loop to the end.
    completion-Post :
        (s : HttpStep) (hr n : ℕ) (e : Env iis)
        → Returns (Before iis law req sent received) (on_async_completion iis s hr n e)
        → Returns
            (λ (status, s', e'). Post iis law req sent received status s' e')
            (http_on_async_completion iis fuel s hr n e)
    unfolding http_on_async_completion handler_on_async_completion http_methods
    completion-Post s hr n e h =
        Returns-bind (Before iis law req sent received) _ (on_async_completion iis s hr n e) _ h
          λ (r, s', e') p. machine-Post iis law req sent received fuel enough rounds r s' e' p

    restate :
        {sent' : List AsgiHttpRequestMsg} {received' : List AsgiHttpResponseMsg}
        (status : Notification) (s : HttpStep) (e : Env iis)
        → sent' ≡ sent
        → received' ≡ received
        → Post iis law req sent received status s e
        → Post iis law req sent' received' status s e
    restate status s e es er p = subst₂ (λ a b. Post iis law req a b status s e) (sym es) (sym er) p

    pub returns :
        (c : Connection iis) (r : Result (Notification × HttpStep × Env iis))
        → c.sent ≡ sent
        → c.received ≡ received
        → Returns (λ (status, s', e'). Post iis law req sent received status s' e') r
        → Returns
            (Inv iis law req)
            (r >>= λ (status, s', e'). ok (record c { status = status; step = s'; env = e' }))
    returns c r es er h =
        Returns-bind _ (Inv iis law req) r _ h λ (status, s', e') p. restate status s' e' es er p

    -- PostCompletion(0), posted by the task that sends the request or by the pump's callback.
    pub deliver-Post :
        (s : HttpStep) (e : Env iis)
        → Fits posted s
        → e.waiting ≡ posted ∷ []
        → Live iis law req sent received s e
        → Returns
            (λ (status, s', e'). Post iis law req sent received status s' e')
            (http_on_async_completion iis fuel s s_ok 0 (record { world = e.world; waiting = [] }))
    unfolding on_async_completion
    deliver-Post (send_to_application msg) e f p (same, unanswered, unwritten, inl (w, _)) =
        absurd (cc)
    deliver-Post (send_to_application msg) e f p (same, unanswered, unwritten, inr (_, once)) =
        completion-Post (send_to_application msg) s_ok 0 _ (refl, same, once, unanswered, unwritten)
    deliver-Post (wait_for_response channel (some m)) e f p (w, h) =
        completion-Post (wait_for_response channel (some m)) s_ok 0 _
          (wait_completion-Pre iis law req sent received channel m s_ok 0 _ refl h)
    deliver-Post (wait_for_response channel none) e f p l = absurd f
    deliver-Post (read_body msg n) e f p l = absurd f
    deliver-Post (write_response m channel n) e f p l = absurd f
    deliver-Post (flush_response channel) e f p l = absurd f

    -- WriteEntityChunks() and Flush() complete.
    pub write_completed-Post :
        (s : HttpStep) (e : Env iis) (hr n : ℕ) (w : iis.World)
        → Fits writing s
        → written w ≡ written e.world
        → Live iis law req sent received s e
        → Returns
            (λ (status, s', e'). Post iis law req sent received status s' e')
            (http_on_async_completion iis fuel s hr n (record { world = w; waiting = [] }))
    write_completed-Post (write_response m channel k) e hr n w f same (_, i, l) =
        completion-Post (write_response m channel k) hr n _ (
          write_completion-Pre iis law req sent received m channel k hr n _ refl
            (IsAnswering-same iis law req sent received same i) l)
    write_completed-Post (send_to_application msg) e hr n w f same l = absurd f
    write_completed-Post (read_body msg k) e hr n w f same l = absurd f
    write_completed-Post (wait_for_response channel none) e hr n w f same l = absurd f
    write_completed-Post (wait_for_response channel (some m)) e hr n w f same l = absurd f
    write_completed-Post (flush_response channel) e hr n w f same l = absurd f

    pub flush_completed-Post :
        (s : HttpStep) (e : Env iis) (hr n : ℕ) (w : iis.World)
        → Fits flushing s
        → written w ≡ written e.world
        → Live iis law req sent received s e
        → Returns
            (λ (status, s', e'). Post iis law req sent received status s' e')
            (http_on_async_completion iis fuel s hr n (record { world = w; waiting = [] }))
    unfolding on_async_completion
    flush_completed-Post (flush_response channel) e hr n w f same (_, i, more) =
        completion-Post (flush_response channel) hr n _
          (refl, IsAnswering-same iis law req sent received same i, more)
    flush_completed-Post (write_response m channel k) e hr n w f same l = absurd f
    flush_completed-Post (send_to_application msg) e hr n w f same l = absurd f
    flush_completed-Post (read_body msg k) e hr n w f same l = absurd f
    flush_completed-Post (wait_for_response channel none) e hr n w f same l = absurd f
    flush_completed-Post (wait_for_response channel (some m)) e hr n w f same l = absurd f

    -- An asynchronous ReadEntityBody() completes: its bytes fit into the buffer.
    pub read_completed-Post :
        (s : HttpStep) (e : Env iis) (hr : ℕ) (bytes : Bytes) (w : iis.World)
        → Fits reading s
        → Allowed iis law (read_completed hr bytes w) e.world
        → Live iis law req sent received s e
        → (s' : HttpStep) × (fill_body s bytes ≡ ok s')
          × Returns
              (λ (status, s'', e'). Post iis law req sent received status s'' e')
              (http_on_async_completion iis fuel s' hr
                (length bytes)
                (record { world = w; waiting = [] }))
    unfolding fill_body
    read_completed-Post (read_body msg n) e hr bytes w f (same, inr (good, left)) (_, i) =
        let (body, fills, r) =
          write_at-Reading iis law req.body msg.body bytes n e.world w i.buffer left in
        let msg' : AsgiHttpRequestMsg = record msg { body = body } in
        (
          read_body msg' n,
          rw fills,
          completion-Post (read_body msg' n) hr (length bytes) _ (
              read_completion-Pre iis law req sent received msg' n (length bytes) hr _ refl
                (λ _. record {
                  same = ap (λ (m : AsgiHttpRequestMsg). record m { body = body }) i.same;
                  buffer = r;
                  unsent = i.unsent;
                  unanswered = i.unanswered;
                  unwritten = same ∙ i.unwritten;
                })
                (i.unsent, same ∙ i.unwritten)),
        )
    read_completed-Post (read_body msg n) e hr bytes w f (same, inl (bad, empty)) (_, i) =
        let body : Bytes = (i.buffer.filled ++ []) ++ i.buffer.room in
        let fills : write_at msg.body n [] ≡ some body =
          ap (λ b. write_at b n []) i.buffer.split
          ∙ write_at-append i.buffer.filled i.buffer.room [] n i.buffer.count (omega arith) in
        let msg' : AsgiHttpRequestMsg = record msg { body = body } in
        (
          read_body msg' n,
          rw (empty, fills),
          completion-Post (read_body msg' n) hr (length bytes) _ (
              read_completion-Pre iis law req sent received msg' n (length bytes) hr _ refl
                (λ good. absurd (false≢true (sym good ∙ bad))) (i.unsent, same ∙ i.unwritten)),
        )
    read_completed-Post (write_response m channel k) e hr bytes w f a l = absurd f
    read_completed-Post (send_to_application msg) e hr bytes w f a l = absurd f
    read_completed-Post (wait_for_response channel none) e hr bytes w f a l = absurd f
    read_completed-Post (wait_for_response channel (some m)) e hr bytes w f a l = absurd f
    read_completed-Post (flush_response channel) e hr bytes w f a l = absurd f

    -- The task of SendToApplicationStep, and the callback of WaitForResponseStep.
    pub request_sent-Live :
        (s : HttpStep) (e : Env iis) (msg : AsgiHttpRequestMsg)
        → Fits (sending msg) s
        → e.waiting ≡ sending msg ∷ []
        → Live iis law req sent received s e
        → Live iis law req
            (sent ++ msg ∷ [])
            received
            s
            (record { world = e.world; waiting = posted ∷ [] })
    request_sent-Live (send_to_application msg') e msg f p
          (same, unanswered, unwritten, inl (_, unsent)) =
        (same, unanswered, unwritten, inr (refl, ap₂ (λ l m. l ++ m ∷ []) unsent (f ∙ same)))
    request_sent-Live (send_to_application msg') e msg f p (_, _, _, inr (w, _)) = absurd (cc)
    request_sent-Live (write_response m channel k) e msg f p l = absurd f
    request_sent-Live (read_body m n) e msg f p l = absurd f
    request_sent-Live (wait_for_response channel none) e msg f p l = absurd f
    request_sent-Live (wait_for_response channel (some m)) e msg f p l = absurd f
    request_sent-Live (flush_response channel) e msg f p l = absurd f

    pub response_received-Live :
        (s : HttpStep) (e : Env iis) (channel : Bytes) (m : AsgiHttpResponseMsg)
        → Fits (awaiting channel) s
        → length m.content < 2 ^ 32
        → Live iis law req sent received s e
        → (s' : HttpStep) × (set_response s m ≡ ok s')
          × Live iis law req sent
              (received ++ m ∷ [])
              s'
              (record { world = e.world; waiting = posted ∷ [] })
    unfolding set_response
    response_received-Live (wait_for_response channel none) e _ m f short (_, i, more) = (
      wait_for_response channel (some m),
      refl,
      (
        refl,
        record {
          reply = i.reply;
          sent_once = i.sent_once;
          last = record { before = received; split = refl; more = more; short = short };
          others_written = i.all_written;
        },
      ),
    )
    response_received-Live (wait_for_response channel (some _)) e _ m f short l = absurd f
    response_received-Live (write_response _ channel k) e _ m f short l = absurd f
    response_received-Live (read_body _ n) e _ m f short l = absurd f
    response_received-Live (send_to_application _) e _ m f short l = absurd f
    response_received-Live (flush_response channel) e _ m f short l = absurd f
