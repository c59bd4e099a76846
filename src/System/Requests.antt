-- ===== src/System/Requests.antt =====
-- One request of many: what its handler's calls leave in place, and what they register.
use iis_asgi_handler.Prelude.{
  ℕ, ◌≡◌, ◌≢◌, refl, sym, ap, ◌⊎◌, inl, inr, List, [], ◌∷◌, ◌++◌, none, some, Bytes, Result, ok,
  err, ◌>>=◌,
}
use iis_asgi_handler.Iis.{Iis, Lawful}
use iis_asgi_handler.Channels.{Engine}
use iis_asgi_handler.Request.{RawRequest}
use iis_asgi_handler.Messages.{AsgiHttpRequestMsg, AsgiHttpResponseMsg}
use iis_asgi_handler.Pump.{ResponsePump, add_channel, step}
use iis_asgi_handler.StateMachine.{Notification, pending, finished}
use iis_asgi_handler.Http.{
  HttpStep, read_body, send_to_application, wait_for_response, write_response, flush_response,
  Waiting, awaiting, posted,
}
use iis_asgi_handler.Http.Called.{IsEnabled, alone}
use iis_asgi_handler.Http.Connection.{
  Connection, Event, read_completed, write_completed, flush_completed, request_sent,
  response_received, post_completed, cause, handle, fill_body, set_response,
  http_on_async_completion, http_start,
}
use iis_asgi_handler.Http.Invariant.{Live, Post, Inv}
use iis_asgi_handler.Http.Start.{http_on_execute_request_handler}
use iis_asgi_handler.System.{IsLocal, register}

bind_ok {ℓ κ} :
    {A : Type ℓ} {B : Type κ} {b : B} (m : Result A) (f : A → Result B)
    → m >>= f ≡ ok b
    → (a : A) × (m ≡ ok a) × (f a ≡ ok b)
bind_ok (ok a) f e = (a, refl, e)
bind_ok (err x) f e = absurd (cc)

value {ℓ} : {A : Type ℓ} {a b : A} → Result.ok a ≡ ok b → a ≡ b
value e = cc

module _ (iis : Iis) (fuel : ℕ) where
  -- Only the application's messages are received.
  pub handle-received :
      (event : Event iis) (c c' : Connection iis)
      → IsLocal event
      → handle iis fuel event [] c ≡ ok c'
      → c'.received ≡ c.received
  unfolding handle
  handle-received (read_completed hr bytes w) c c' is_local e =
      let (_, _, f) = bind_ok (fill_body c.step bytes) _ e in
      let (_, _, g) = bind_ok (http_on_async_completion iis fuel _ hr _ _) _ f in
      sym (ap (λ (x : Connection iis). x.received) (value g))
  handle-received (write_completed hr n w) c c' is_local e =
      let (_, _, g) = bind_ok (http_on_async_completion iis fuel c.step hr n _) _ e in
      sym (ap (λ (x : Connection iis). x.received) (value g))
  handle-received (flush_completed hr n w) c c' is_local e =
      let (_, _, g) = bind_ok (http_on_async_completion iis fuel c.step hr n _) _ e in
      sym (ap (λ (x : Connection iis). x.received) (value g))
  handle-received (request_sent msg) c c' is_local e =
      sym (ap (λ (x : Connection iis). x.received) (value e))
  handle-received (response_received channel m) c c' is_local e = absurd is_local
  handle-received post_completed c c' is_local e =
      let (_, _, g) = bind_ok (http_on_async_completion iis fuel c.step _ 0 _) _ e in
      sym (ap (λ (x : Connection iis). x.received) (value g))

  pub response-received :
      (channel : Bytes) (m : AsgiHttpResponseMsg) (c c' : Connection iis)
      → handle iis fuel (response_received channel m) [] c ≡ ok c'
      → (c'.received ≡ c.received ++ m ∷ []) × (c'.env.waiting ≡ posted ∷ [])
  unfolding handle
  response-received channel m c c' e =
      let (_, _, g) = bind_ok (set_response c.step m) _ e in
      (
        sym (ap (λ (x : Connection iis). x.received) (value g)),
        sym (ap (λ (x : Connection iis). x.env.waiting) (value g)),
      )

pub start-received :
    (iis : Iis) (engine : Engine) (to_bytes : List ℕ → Bytes) (fuel : ℕ) (r : RawRequest)
    (random : engine.State) (w : iis.World) (c : Connection iis)
    → http_on_execute_request_handler iis engine to_bytes fuel r random w ≡ ok c
    → c.received ≡ []
unfolding http_on_execute_request_handler
start-received iis engine to_bytes fuel r random w c e =
    let (_, _, g) = bind_ok (http_start iis fuel _ _) _ e in
    sym (ap (λ (x : Connection iis). x.received) (value g))

-- Nothing in the connection waits for a message of the application's.
abbrev pub IsQuiet : {iis : Iis} → Connection iis → Type 0
IsQuiet c = (channel : Bytes) → c.env.waiting ≢ (awaiting channel ∷ [])

-- What the handler's call leaves in the pump: nothing new, or the registration of the reply channel.
abbrev pub Registers : {iis : Iis} → ℕ → Bytes → Connection iis → ResponsePump ℕ → Type 0
Registers i channel c p =
    (IsQuiet c × (register i c.env.waiting p ≡ p))
    ⊎ ((c.env.waiting ≡ awaiting channel ∷ [])
        × (register i c.env.waiting p ≡ step (add_channel channel i) p))

module _ (iis : Iis) (law : Lawful iis) (req : AsgiHttpRequestMsg) (i : ℕ)
    (p : ResponsePump ℕ) where
  quiet :
      (c : Connection iis) (x : Waiting)
      → c.env.waiting ≡ x ∷ []
      → ((channel : Bytes) → x ≢ awaiting channel)
      → register i (x ∷ []) p ≡ p
      → Registers i req.reply_channel c p
  quiet c x w other nothing = inl (λ channel e. other channel (cc), rw w nothing)

  Live-Registers :
      (c : Connection iis) (s : HttpStep)
      → c.step ≡ s
      → Live iis law req c.sent c.received s c.env
      → Registers i req.reply_channel c p
  unfolding register
  Live-Registers c (read_body msg n) at (w, _) = quiet c _ w (λ k e. cc) refl
  Live-Registers c (send_to_application msg) at (_, _, _, inl (w, _)) = quiet c _ w (λ k e. cc) refl
  Live-Registers c (send_to_application msg) at (_, _, _, inr (w, _)) = quiet c _ w (λ k e. cc) refl
  Live-Registers c (wait_for_response channel none) at (w, a, _) =
      inr (rw (← a.reply) w, rw (w, a.reply) refl)
  Live-Registers c (wait_for_response channel (some m)) at (w, _) = quiet c _ w (λ k e. cc) refl
  Live-Registers c (write_response m channel n) at (w, _, _) = quiet c _ w (λ k e. cc) refl
  Live-Registers c (flush_response channel) at (w, _, _) = quiet c _ w (λ k e. cc) refl

  Post-Registers :
      (c : Connection iis) (n : Notification)
      → Post iis law req c.sent c.received n c.step c.env
      → Registers i req.reply_channel c p
  unfolding register
  Post-Registers c pending l = Live-Registers c c.step refl l
  Post-Registers c finished (w, _) = inl (λ channel e. cc, rw w refl)

  pub Inv-Registers : (c : Connection iis) → Inv iis law req c → Registers i req.reply_channel c p
  Inv-Registers c inv = Post-Registers c c.status inv

-- An event of the handler's own does not come while the application's message is waited for.
pub local-IsQuiet :
    (iis : Iis) (law : Lawful iis) (event : Event iis) (c : Connection iis)
    → IsLocal event
    → IsEnabled iis law event [] c.env
    → IsQuiet c
local-IsQuiet iis law event c is_local en channel w =
    not_awaiting event is_local (alone c.env.waiting en.before en.after w en.waits).0
  where
    not_awaiting : (event : Event iis) → IsLocal event → {k : Bytes} → awaiting k ≢ cause event
    not_awaiting (read_completed hr bytes w) l e = cc
    not_awaiting (write_completed hr n w) l e = cc
    not_awaiting (flush_completed hr n w) l e = cc
    not_awaiting (request_sent msg) l e = cc
    not_awaiting (response_received channel m) l e = absurd l
    not_awaiting post_completed l e = cc
