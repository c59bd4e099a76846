-- ===== src/Http/Liveness.antt =====
-- HttpRequestHandler, from the sending of the request to the end of its response: what can come
-- after whatever the application answers.
use iis_asgi_handler.Prelude.{
  ℕ, suc, ◌<◌, ◌^◌, ◌≡◌, refl, ap, ◌∙◌, ◌⊎◌, inl, inr, false, List, [], ◌∷◌, ◌++◌, none, some,
  Bytes, length,
}
use iis_asgi_handler.Iis.{Iis, Lawful}
use iis_asgi_handler.Channels.{Engine}
use iis_asgi_handler.Messages.{AsgiHttpRequestMsg, AsgiHttpResponseMsg}
use iis_asgi_handler.Request.{RawRequest}
use iis_asgi_handler.StateMachine.{pending, finished}
use iis_asgi_handler.Http.{
  HttpStep, read_body, send_to_application, wait_for_response, write_response, flush_response, Env,
  awaiting, sending, Waiting,
}
use iis_asgi_handler.Http.Called.{Post-Live}
use iis_asgi_handler.Http.Connection.{Connection}
use iis_asgi_handler.Http.Invariant.{AllMore, Live, contents}
use iis_asgi_handler.Http.Reach.{Reach, IsReliable, asgi_request, Reach-Inv, finished-IsAnswered}
use iis_asgi_handler.Http.Answering.{AllShort, all_answered}
use iis_asgi_handler.Http.Sending.{sent_waits}

-- What waits for the channel's message is the step that asked for it.
pub Live-waits :
    (iis : Iis) (law : Lawful iis) (req : AsgiHttpRequestMsg) (sent : List AsgiHttpRequestMsg)
    (received : List AsgiHttpResponseMsg) (channel : Bytes) (s : HttpStep) (e : Env iis)
    → Live iis law req sent received s e
    → e.waiting ≡ awaiting channel ∷ []
    → (s ≡ wait_for_response channel none) × (sent ≡ req ∷ [])
Live-waits iis law req sent received channel (wait_for_response channel' none) e (w, i, _) p =
    (cc, i.sent_once)
Live-waits iis law req sent received channel (wait_for_response channel' (some m)) e (w, _) p =
    absurd (cc)
Live-waits iis law req sent received channel (read_body msg n) e (w, _) p = absurd (cc)
Live-waits iis law req sent received channel (send_to_application msg) e (_, _, _, inl (w, _)) p =
    absurd (cc)
Live-waits iis law req sent received channel (send_to_application msg) e (_, _, _, inr (w, _)) p =
    absurd (cc)
Live-waits iis law req sent received channel (write_response m channel' n) e (w, _, _) p =
    absurd (cc)
Live-waits iis law req sent received channel (flush_response channel') e (w, _, _) p = absurd (cc)

-- What waits to be sent is the step's message, which is the request.
Live-sends :
    (iis : Iis) (law : Lawful iis) (req : AsgiHttpRequestMsg) (sent : List AsgiHttpRequestMsg)
    (received : List AsgiHttpResponseMsg) (msg : AsgiHttpRequestMsg) (s : HttpStep) (e : Env iis)
    → Live iis law req sent received s e
    → e.waiting ≡ sending msg ∷ []
    → (s ≡ send_to_application msg) × (msg ≡ req)
Live-sends iis law req sent received msg (send_to_application msg') e (same, _, _, inl (w, _)) p =
    (cc, cc)
Live-sends iis law req sent received msg (send_to_application msg') e (_, _, _, inr (w, _)) p =
    absurd (cc)
Live-sends iis law req sent received msg (wait_for_response channel none) e (w, _, _) p =
    absurd (cc)
Live-sends iis law req sent received msg (wait_for_response channel (some m)) e (w, _) p =
    absurd (cc)
Live-sends iis law req sent received msg (read_body msg' n) e (w, _) p = absurd (cc)
Live-sends iis law req sent received msg (write_response m channel n) e (w, _, _) p = absurd (cc)
Live-sends iis law req sent received msg (flush_response channel) e (w, _, _) p = absurd (cc)

module _ (iis : Iis) (law : Lawful iis) (engine : Engine) (to_bytes : List ℕ → Bytes) (more : ℕ)
    (raw : RawRequest) (random : engine.State) (world : iis.World) (fresh : law.written world ≡ [])
    (small : length (law.entity world) < 2 ^ 32)
    (enough : length (law.entity world) < suc (suc (suc more))) (rounds : 3 < suc (suc (suc more)))
    (calls : IsReliable iis) where
  abbrev Reached : Connection iis → Type 0
  Reached = Reach iis law engine to_bytes (suc (suc (suc more))) raw random world

  req : AsgiHttpRequestMsg
  req = asgi_request iis law engine to_bytes (suc (suc (suc more))) raw random world

  live :
      (c : Connection iis) (x : Waiting)
      → Reached c
      → c.env.waiting ≡ x ∷ []
      → (c.status ≡ pending) × Live iis law req c.sent c.received c.step c.env
  unfolding req
  live c x r w =
      Post-Live iis law req c.sent c.received c.status c.step c.env x [] []
        (Reach-Inv iis law engine to_bytes (suc (suc (suc more))) raw random world fresh small
          enough rounds r)
        w

  abbrev Ends : Connection iis → List AsgiHttpResponseMsg → Type 0
  Ends c ms =
      (c' : Connection iis) × Reached c'
      × (c'.status ≡ finished)
      × (c'.received ≡ c.received ++ ms)
      × (law.written c'.env.world ≡ contents c'.received)

  waiting-Ends :
      (c : Connection iis) (channel : Bytes) (ms : List AsgiHttpResponseMsg)
      (last : AsgiHttpResponseMsg)
      → Reached c
      → c.env.waiting ≡ awaiting channel ∷ []
      → AllMore ms
      → AllShort (ms ++ last ∷ [])
      → last.more_content ≡ false
      → Ends c (ms ++ last ∷ [])
  unfolding req
  waiting-Ends c channel ms last r w goes_on short ends =
      let (pends, l) = live c (awaiting channel) r w in
      let (at_wait, once) = Live-waits iis law req c.sent c.received channel c.step c.env l w in
      let (c', (r', f, recv, sent)) =
        all_answered iis law engine to_bytes more raw random world calls channel ms last c r
          (pends, at_wait, w) goes_on short ends in
      let answered =
        finished-IsAnswered iis law engine to_bytes (suc (suc (suc more))) raw random world fresh
          small enough rounds calls r' f (λ none_sent. cc) in
      (c', r', f, recv, answered.all_written)

  -- If no call to write or to flush fails, a request that is about to be sent, or of which the
  -- response is waited for, can be brought to its end by whatever the application answers: for any
  -- messages of less than 4 GB each, of which only the last says that none follows, there are events
  -- after which the request is finished, has received just these messages more, and has written all
  -- that it received. Nothing was written before the request; its body is smaller than 4 GB and than
  -- the fuel, which is more than three.
  pub can_be_answered :
      (c : Connection iis) (msg : AsgiHttpRequestMsg) (channel : Bytes)
      (ms : List AsgiHttpResponseMsg) (last : AsgiHttpResponseMsg)
      → Reached c
      → (c.env.waiting ≡ sending msg ∷ []) ⊎ (c.env.waiting ≡ awaiting channel ∷ [])
      → AllMore ms
      → AllShort (ms ++ last ∷ [])
      → last.more_content ≡ false
      → Ends c (ms ++ last ∷ [])
  can_be_answered c msg channel ms last r (inl w) goes_on short ends =
      let (_, l) = live c (sending msg) r w in
      let (at_send, _) = Live-sends iis law req c.sent c.received msg c.step c.env l w in
      let (c₁, r₁, w₁, recv₁) =
        sent_waits iis law engine to_bytes more raw random world calls msg.reply_channel msg c r
          at_send refl w in
      let (c₂, r₂, f, recv₂, written) =
        waiting-Ends c₁ msg.reply_channel ms last r₁ w₁ goes_on short ends in
      (c₂, r₂, f, recv₂ ∙ ap (λ l. l ++ (ms ++ last ∷ [])) recv₁, written)
  can_be_answered c msg channel ms last r (inr w) goes_on short ends =
      waiting-Ends c channel ms last r w goes_on short ends
