-- ===== src/Http/Reach.antt =====
-- All that can come of one request: the states that its connection reaches by any events, in any
-- order, and what the client and the application have seen by then.
use iis_asgi_handler.Prelude.{
  ℕ, ◌<◌, ◌^◌, ◌≡◌, ◌≢◌, sym, ap, subst, ◌∙◌, append-nil, ◌⊎◌, inl, inr, false, List, [], ◌∷◌, ◌++◌,
  none, some, Bytes, length, codes, ok, Returns,
}
use mathlib.Core.Bool.{false≢true}
use iis_asgi_handler.Iis.{Iis, Lawful, failed}
use iis_asgi_handler.Channels.{Engine, new_channel}
use iis_asgi_handler.Messages.{AsgiHttpRequestMsg, AsgiHttpResponseMsg}
use iis_asgi_handler.Request.{RawRequest}
use iis_asgi_handler.StateMachine.{Notification, pending, finished}
use iis_asgi_handler.Http.{
  HttpStep, read_body, send_to_application, wait_for_response, write_response, flush_response,
  Waiting, Env,
}
use iis_asgi_handler.Http.Called.{IsEnabled}
use iis_asgi_handler.Http.Connection.{Connection, Event, handle}
use iis_asgi_handler.Http.Invariant.{
  contents, AllMore, Last, IsAnswering, Live, Done, Post, Inv, contents-append, contents-nil,
}
use iis_asgi_handler.Http.Lifecycle.{handle-Inv}
use iis_asgi_handler.Http.Start.{
  http_request_msg, http_on_execute_request_handler, http_on_execute_request_handler-Inv,
}

Returns-ok {ℓ} : {A : Type ℓ} (P : A → Type 0) (m : _) {a : A} → m ≡ ok a → Returns P m → P a
Returns-ok P m e h = subst (Returns P) e h

-- No call that the handler makes to write or to flush fails.
pub record IsReliable (iis : Iis) : Type 0 where
  pub writes :
      (chunk : Bytes) (w : iis.World) → failed (iis.write_entity_chunks chunk w).0.hr ≡ false
  pub flushes : (w : iis.World) → failed (iis.flush w).0.hr ≡ false

-- The invariant, read off for each of the four questions below.
module _ (iis : Iis) (law : Lawful iis) (req : AsgiHttpRequestMsg) (sent : List AsgiHttpRequestMsg)
    (received : List AsgiHttpResponseMsg) where
  abbrev pub WaitsOnce : Notification → Env iis → Type 0
  WaitsOnce finished e = e.waiting ≡ []
  WaitsOnce pending e = (x : Waiting) × (e.waiting ≡ x ∷ [])

  Post-WaitsOnce :
      (n : Notification) (s : HttpStep) (e : Env iis)
      → Post iis law req sent received n s e
      → WaitsOnce n e
  Post-WaitsOnce finished s e (w, _) = w
  Post-WaitsOnce pending (read_body msg n) e (w, _) = (_, w)
  Post-WaitsOnce pending (send_to_application msg) e (_, _, _, inl (w, _)) = (_, w)
  Post-WaitsOnce pending (send_to_application msg) e (_, _, _, inr (w, _)) = (_, w)
  Post-WaitsOnce pending (wait_for_response channel none) e (w, _, _) = (_, w)
  Post-WaitsOnce pending (wait_for_response channel (some m)) e (w, _) = (_, w)
  Post-WaitsOnce pending (write_response m channel n) e (w, _, _) = (_, w)
  Post-WaitsOnce pending (flush_response channel) e (w, _, _) = (_, w)

  Post-sent :
      (n : Notification) (s : HttpStep) (e : Env iis)
      → Post iis law req sent received n s e
      → (sent ≡ []) ⊎ (sent ≡ req ∷ [])
  Post-sent pending (read_body msg n) e (_, i) = inl i.unsent
  Post-sent pending (send_to_application msg) e (_, _, _, inl (_, u)) = inl u
  Post-sent pending (send_to_application msg) e (_, _, _, inr (_, u)) = inr u
  Post-sent pending (wait_for_response channel none) e (_, i, _) = inr i.sent_once
  Post-sent pending (wait_for_response channel (some m)) e (_, i) = inr i.sent_once
  Post-sent pending (write_response m channel n) e (_, i, _) = inr i.sent_once
  Post-sent pending (flush_response channel) e (_, i, _) = inr i.sent_once
  Post-sent finished (read_body msg n) e (_, (u, _)) = inl u
  Post-sent finished (send_to_application msg) e (_, d) = absurd d
  Post-sent finished (wait_for_response channel none) e (_, d) = absurd d
  Post-sent finished (wait_for_response channel (some m)) e (_, (i, _, _)) = inr i.sent_once
  Post-sent finished (write_response m channel n) e (_, (u, _)) = inr u
  Post-sent finished (flush_response channel) e (_, (u, _, _)) = inr u

  abbrev Written : Env iis → Bytes
  Written e = law.written e.world

  Live-written :
      (s : HttpStep) (e : Env iis)
      → Live iis law req sent received s e
      → (rest : Bytes) × (Written e ++ rest ≡ contents received)
  Live-written (read_body msg n) e (_, i) =
      ([], append-nil _ ∙ i.unwritten ∙ sym contents-nil ∙ ap contents (sym i.unanswered))
  Live-written (send_to_application msg) e (_, none_received, unwritten, _) =
      ([], append-nil _ ∙ unwritten ∙ sym contents-nil ∙ ap contents (sym none_received))
  Live-written (wait_for_response channel none) e (_, i, _) = ([], append-nil _ ∙ i.all_written)
  Live-written (wait_for_response channel (some m)) e (_, h) = (
    m.content,
    ap (λ (b : Bytes). b ++ m.content) h.others_written
        ∙ sym (contents-append h.last.before m)
        ∙ ap contents (sym h.last.split),
  )
  Live-written (write_response m channel n) e (_, i, _) = ([], append-nil _ ∙ i.all_written)
  Live-written (flush_response channel) e (_, i, _) = ([], append-nil _ ∙ i.all_written)

  -- All messages are written, and only the last of them says that none follows.
  pub record IsAnswered (w : iis.World) : Type 0 where
    pub earlier : List AsgiHttpResponseMsg
    pub last : AsgiHttpResponseMsg
    pub split : received ≡ earlier ++ last ∷ []
    pub more : AllMore earlier
    pub ended : last.more_content ≡ false
    pub all_written : law.written w ≡ contents received

  answered :
      (channel : Bytes) (m : AsgiHttpResponseMsg) (w : iis.World)
      → IsAnswering iis law req sent received channel w
      → Last received m
      → m.more_content ≡ false
      → IsAnswered w
  answered channel m w i l e = record {
    earlier = l.before;
    last = m;
    split = l.split;
    more = l.more;
    ended = e;
    all_written = i.all_written;
  }

  Done-IsAnswered :
      (s : HttpStep) (e : Env iis)
      → IsReliable iis
      → sent ≢ []
      → Done iis law req sent received s e
      → IsAnswered e.world
  Done-IsAnswered (read_body msg n) e ok_calls u (v, _) = absurd (u v)
  Done-IsAnswered (send_to_application msg) e ok_calls u d = absurd d
  Done-IsAnswered (wait_for_response channel none) e ok_calls u d = absurd d
  Done-IsAnswered (wait_for_response channel (some m)) e ok_calls u (i, l, f) =
      answered channel m e.world i l f
  Done-IsAnswered (write_response m channel n) e ok_calls u (_, inl (i, l, f)) =
      answered channel m e.world i l f
  Done-IsAnswered (write_response m channel n) e ok_calls u (_, inr (w, f)) =
      absurd (false≢true (sym (ok_calls.writes m.content w) ∙ f))
  Done-IsAnswered (flush_response channel) e ok_calls u (_, w, f) =
      absurd (false≢true (sym (ok_calls.flushes w) ∙ f))

module _ (iis : Iis) (law : Lawful iis) (engine : Engine) (to_bytes : List ℕ → Bytes) (fuel : ℕ)
    (raw : RawRequest) (random : engine.State) (world : iis.World) where
  -- The request as the application is to see it.
  abbrev pub asgi_request : AsgiHttpRequestMsg
  asgi_request =
      http_request_msg to_bytes raw (new_channel engine (codes "http.request!") random).0
        (law.entity world)

  pub data Reach : Connection iis → Type 0 where
    start :
        {c : Connection iis}
        → http_on_execute_request_handler iis engine to_bytes fuel raw random world ≡ ok c
        → Reach c
    next :
        {c c' : Connection iis} (event : Event iis) (rest : List Waiting)
        → Reach c
        → IsEnabled iis law event rest c.env
        → handle iis fuel event rest c ≡ ok c'
        → Reach c'

  module _ (fresh : law.written world ≡ []) (small : length (law.entity world) < 2 ^ 32)
      (enough : length (law.entity world) < fuel) (rounds : 3 < fuel) where
    pub Reach-Inv : {c : Connection iis} → Reach c → Inv iis law asgi_request c
    unfolding http_request_msg
    Reach-Inv (start e) = Returns-ok (Inv iis law asgi_request) _ e (
        http_on_execute_request_handler-Inv iis engine to_bytes fuel law raw random world fresh
          small enough rounds)
    Reach-Inv (next {c} event rest r en e) =
        Returns-ok (Inv iis law asgi_request) _ e
          (handle-Inv iis law asgi_request fuel enough rounds event rest c (Reach-Inv r) en)

    -- A connection that has returned "pending" has exactly one thing waiting to call it back, and a
    -- finished one has none: it is never forgotten, and never called after its end.
    pub waits_once :
        {c : Connection iis}
        → Reach c
        → WaitsOnce iis law asgi_request c.sent c.received c.status c.env
    waits_once {c} r =
        Post-WaitsOnce iis law asgi_request c.sent c.received c.status c.step c.env (Reach-Inv r)

    -- The application is sent nothing, or one message: the request, with the whole body.
    pub sent_at_most_once :
        {c : Connection iis} → Reach c → (c.sent ≡ []) ⊎ (c.sent ≡ asgi_request ∷ [])
    sent_at_most_once {c} r =
        Post-sent iis law asgi_request c.sent c.received c.status c.step c.env (Reach-Inv r)

    -- While the request is pending, the response's body is the contents of the messages received so
    -- far, in order, up to some point.
    pub written_in_order :
        {c : Connection iis}
        → Reach c
        → c.status ≡ pending
        → (rest : Bytes) × (law.written c.env.world ++ rest ≡ contents c.received)
    written_in_order {c} r p =
        Live-written iis law asgi_request c.sent c.received c.step c.env
          (subst (λ n. Post iis law asgi_request c.sent c.received n c.step c.env) p (Reach-Inv r))

    -- If no call to write or to flush fails, a request that was sent to the application finishes
    -- only with every message written, after the first that says that none follows.
    pub finished-IsAnswered :
        {c : Connection iis}
        → IsReliable iis
        → Reach c
        → c.status ≡ finished
        → c.sent ≢ []
        → IsAnswered iis law asgi_request c.sent c.received c.env.world
    finished-IsAnswered {c} ok_calls r f u =
        Done-IsAnswered iis law asgi_request c.sent c.received c.step c.env ok_calls u
          (subst (λ n. Post iis law asgi_request c.sent c.received n c.step c.env) f
            (Reach-Inv r)).1
