-- ===== src/Http/Invariant.antt =====
-- What holds of a connection between two events, and inside the handler's loop.
use iis_asgi_handler.Prelude.{
  ℕ, ◌<◌, ◌≤◌, arith, ◌^◌, ◌≡◌, refl, ap, sym, ◌∙◌, append-nil, append_assoc, ◌⊎◌, true, false,
  List, [], ◌∷◌, ◌++◌, none, some, Bytes, length,
}
use iis_asgi_handler.Iis.{Iis, Lawful, failed}
use iis_asgi_handler.Messages.{AsgiHttpRequestMsg, AsgiHttpResponseMsg}
use iis_asgi_handler.StateMachine.{
  StepResult, async_pending, rerun, goto_next, finish_request, Notification, pending, finished,
}
use iis_asgi_handler.Http.{
  HttpStep, read_body, send_to_application, wait_for_response, write_response, flush_response,
  reading, writing, flushing, posted, sending, awaiting, Env,
}
use iis_asgi_handler.Http.Body.{Reading}
use iis_asgi_handler.Http.Connection.{Connection}

-- The bytes of the messages, in order.
pub contents : List AsgiHttpResponseMsg → Bytes
contents [] = []
contents (m ∷ ms) = m.content ++ contents ms

-- Each of the messages says that there are more to come, and has a length that fits a ULONG.
abbrev pub AllMore : List AsgiHttpResponseMsg → Type 0
AllMore [] = Unit {0}
AllMore (m ∷ ms) = (m.more_content ≡ true) × AllMore ms

-- The messages that have come are those before `m`, and `m`.
pub record Last (received : List AsgiHttpResponseMsg) (m : AsgiHttpResponseMsg) : Type 0 where
  pub before : List AsgiHttpResponseMsg
  pub split : received ≡ before ++ m ∷ []
  pub more : AllMore before
  pub short : length m.content < 2 ^ 32

pub contents-nil : contents [] ≡ []
unfolding contents
contents-nil = refl

pub contents-append :
    (ms : List AsgiHttpResponseMsg) (m : AsgiHttpResponseMsg)
    → contents (ms ++ m ∷ []) ≡ contents ms ++ m.content
unfolding contents
contents-append [] m = append-nil m.content
contents-append (x ∷ ms) m =
    ap (◌++◌ x.content) (contents-append ms m)
    ∙ sym (append_assoc x.content (contents ms) m.content)

pub AllMore-append :
    (ms : List AsgiHttpResponseMsg) (m : AsgiHttpResponseMsg)
    → AllMore ms
    → m.more_content ≡ true
    → AllMore (ms ++ m ∷ [])
AllMore-append [] m h e = (e, tt)
AllMore-append (x ∷ ms) m h e = (h.0, AllMore-append ms m h.1 e)

-- `req` is the request as the application is to see it, with the whole body.
module _ (iis : Iis) (law : Lawful iis) (req : AsgiHttpRequestMsg) (sent : List AsgiHttpRequestMsg)
    (received : List AsgiHttpResponseMsg) where
  open law use {entity, written}

  -- The body is being read: nothing has been sent, and nothing written.
  pub record IsReading (msg : AsgiHttpRequestMsg) (n : ℕ) (w : iis.World) : Type 0 where
    pub same : msg ≡ record req { body = msg.body }
    pub buffer : Reading iis law req.body msg.body n w
    pub unsent : sent ≡ []
    pub unanswered : received ≡ []
    pub unwritten : written w ≡ []

  -- The request has been sent, once, and all that was received is written.
  pub record IsAnswering (channel : Bytes) (w : iis.World) : Type 0 where
    pub reply : channel ≡ req.reply_channel
    pub sent_once : sent ≡ req ∷ []
    pub all_written : written w ≡ contents received

  -- A message has come and is not written yet.
  pub record HasMessage (channel : Bytes) (m : AsgiHttpResponseMsg) (w : iis.World) : Type 0 where
    pub reply : channel ≡ req.reply_channel
    pub sent_once : sent ≡ req ∷ []
    pub last : Last received m
    pub others_written : written w ≡ contents last.before

  pub IsAnswering-same :
      {channel : Bytes} {w w' : iis.World}
      → written w' ≡ written w
      → IsAnswering channel w
      → IsAnswering channel w'
  IsAnswering-same e i = record {
    reply = i.reply;
    sent_once = i.sent_once;
    all_written = e ∙ i.all_written;
  }

  -- The handler has returned and will be called back: exactly one thing is waiting to do so.
  abbrev pub Live : HttpStep → Env iis → Type 0
  Live (read_body msg n) e = (e.waiting ≡ reading ∷ []) × IsReading msg n e.world
  Live (send_to_application msg) e =
      (msg ≡ req)
      × (received ≡ [])
      × (written e.world ≡ [])
      × (((e.waiting ≡ sending req ∷ []) × (sent ≡ []))
          ⊎ ((e.waiting ≡ posted ∷ []) × (sent ≡ req ∷ [])))
  Live (wait_for_response channel none) e =
      (e.waiting ≡ awaiting channel ∷ []) × IsAnswering channel e.world × AllMore received
  Live (wait_for_response channel (some m)) e =
      (e.waiting ≡ posted ∷ []) × HasMessage channel m e.world
  Live (write_response m channel n) e =
      (e.waiting ≡ writing ∷ []) × IsAnswering channel e.world × Last received m
  Live (flush_response channel) e =
      (e.waiting ≡ flushing ∷ []) × IsAnswering channel e.world × AllMore received

  -- The step is left for the next one.
  abbrev pub Leaves : HttpStep → Env iis → Type 0
  Leaves (read_body msg n) e =
      (e.waiting ≡ []) × (msg ≡ req) × (sent ≡ []) × (received ≡ []) × (written e.world ≡ [])
  Leaves (send_to_application msg) e =
      (e.waiting ≡ []) × (msg ≡ req) × (sent ≡ req ∷ []) × (received ≡ []) × (written e.world ≡ [])
  Leaves (wait_for_response channel none) e = ⊥
  Leaves (wait_for_response channel (some m)) e =
      (e.waiting ≡ []) × HasMessage channel m e.world × ((m.content ≡ []) → m.more_content ≡ true)
  Leaves (write_response m channel n) e =
      (e.waiting ≡ []) × IsAnswering channel e.world × AllMore received × (m.more_content ≡ true)
  Leaves (flush_response channel) e =
      (e.waiting ≡ []) × IsAnswering channel e.world × AllMore received

  -- The request is finished and nothing will call the handler back. Either the body could not be
  -- read, and the application was sent nothing; or the last message has come and all messages are
  -- written; or a call of IIS failed.
  abbrev pub Done : HttpStep → Env iis → Type 0
  Done (read_body msg n) e = (sent ≡ []) × (written e.world ≡ [])
  Done (send_to_application msg) e = ⊥
  Done (wait_for_response channel none) e = ⊥
  Done (wait_for_response channel (some m)) e =
      IsAnswering channel e.world × Last received m × (m.more_content ≡ false)
  Done (write_response m channel n) e =
      (sent ≡ req ∷ [])
      × ((IsAnswering channel e.world × Last received m × (m.more_content ≡ false))
          ⊎ ((w : iis.World) × (failed (iis.write_entity_chunks m.content w).0.hr ≡ true)))
  Done (flush_response channel) e =
      (sent ≡ req ∷ []) × (w : iis.World) × (failed (iis.flush w).0.hr ≡ true)

  -- The state before each `switch` of the loop.
  abbrev pub Pre : StepResult → HttpStep → Env iis → Type 0
  Pre async_pending s e = Live s e
  Pre finish_request s e = (e.waiting ≡ []) × Done s e
  Pre goto_next s e = Leaves s e
  Pre rerun (read_body msg n) e = (e.waiting ≡ []) × IsReading msg n e.world
  Pre rerun _ e = ⊥

  -- The state after it.
  abbrev pub Post : Notification → HttpStep → Env iis → Type 0
  Post pending s e = Live s e
  Post finished s e = (e.waiting ≡ []) × Done s e

abbrev pub Inv : (iis : Iis) → Lawful iis → AsgiHttpRequestMsg → Connection iis → Type 0
Inv iis law req c = Post iis law req c.sent c.received c.status c.step c.env

-- How many rounds of the loop are left, at most.
abbrev pub rank : StepResult → HttpStep → ℕ
rank async_pending s = 0
rank finish_request s = 0
rank rerun s = 2
rank goto_next (read_body msg n) = 1
rank goto_next (send_to_application msg) = 1
rank goto_next (wait_for_response channel msg) = 3
rank goto_next (write_response msg channel n) = 2
rank goto_next (flush_response channel) = 1

-- A step that was entered keeps the loop going for fewer than `k` rounds.
abbrev pub Keeps :
    (iis : Iis)
    → Lawful iis
    → AsgiHttpRequestMsg
    → List AsgiHttpRequestMsg
    → List AsgiHttpResponseMsg
    → ℕ
    → StepResult × HttpStep × Env iis
    → Type 0
Keeps iis law req sent received k (r, s, e) = Pre iis law req sent received r s e × (rank r s < k)

pub rank-le : (r : StepResult) (s : HttpStep) → rank r s ≤ 3
rank-le r s = ground arith
