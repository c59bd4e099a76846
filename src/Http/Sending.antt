-- ===== src/Http/Sending.antt =====
-- How a request whose body has been read comes to wait for its response.
use iis_asgi_handler.Prelude.{ℕ, suc, ◌≡◌, refl, ap, ◌∙◌, List, [], ◌∷◌, none, Bytes, Returns}
use iis_asgi_handler.Iis.{Iis, Lawful, s_ok}
use iis_asgi_handler.Channels.{Engine}
use iis_asgi_handler.Messages.{AsgiHttpRequestMsg}
use iis_asgi_handler.Request.{RawRequest}
use iis_asgi_handler.StateMachine.{
  Notification, pending, handler_state_machine, handler_on_async_completion,
}
use iis_asgi_handler.Http.{
  HttpStep, send_to_application, wait_for_response, Env, posted, sending, awaiting, enter,
  get_next_step, http_methods, on_async_completion, wait_for_response_enter,
}
use iis_asgi_handler.Http.Connection.{
  Connection, request_sent, post_completed, handle, http_on_async_completion,
}
use iis_asgi_handler.Http.Reach.{IsReliable}
use iis_asgi_handler.Http.Answering.{Reached, happens, Moved, moves}

-- The completion that follows the task.
sent-Awaiting :
    (iis : Iis) (inner fuel : ℕ) (msg : AsgiHttpRequestMsg) (w : iis.World)
    → Returns
        (λ (n, s, e).
          (n ≡ pending)
          × (s ≡ wait_for_response msg.reply_channel none)
          × (e.waiting ≡ awaiting msg.reply_channel ∷ []))
        (handler_on_async_completion
          (http_methods iis (suc inner))
          (suc (suc (suc fuel)))
          (send_to_application msg)
          s_ok
          0
          (record { world = w; waiting = [] }))
unfolding handler_on_async_completion handler_state_machine http_methods get_next_step
    on_async_completion enter wait_for_response_enter
sent-Awaiting iis inner fuel msg w = (refl, refl, refl)

module _ (iis : Iis) (law : Lawful iis) (engine : Engine) (to_bytes : List ℕ → Bytes) (more : ℕ)
    (raw : RawRequest) (random : engine.State) (world : iis.World) (calls : IsReliable iis)
    (channel : Bytes) where
  -- The task of the step has run.
  abbrev Sent : AsgiHttpRequestMsg → Connection iis → Connection iis → Type 0
  Sent msg c c' =
      (c'.step ≡ send_to_application msg)
      × (c'.env.waiting ≡ posted ∷ [])
      × (c'.received ≡ c.received)

  -- A request that is about to be sent comes to wait for its response.
  pub sent_waits :
      (msg : AsgiHttpRequestMsg) (c : Connection iis)
      → Reached iis law engine to_bytes more raw random world calls channel c
      → c.step ≡ send_to_application msg
      → msg.reply_channel ≡ channel
      → c.env.waiting ≡ sending msg ∷ []
      → (c' : Connection iis) × Reached iis law engine to_bytes more raw random world calls channel
          c'
        × (c'.env.waiting ≡ awaiting channel ∷ [])
        × (c'.received ≡ c.received)
  unfolding handle http_on_async_completion
  sent_waits msg c r at_send replies w =
      let (c₁, r₁, (at_send₁, w₁, recv₁)) =
        happens iis law engine to_bytes more raw random world calls channel (Sent msg c)
          (request_sent msg) r w tt (at_send, refl, refl) in
      let P : Notification × HttpStep × Env iis → Type 0 = λ (n, s, e).
        (n ≡ pending)
        × (s ≡ wait_for_response msg.reply_channel none)
        × (e.waiting ≡ awaiting msg.reply_channel ∷ []) in
      let (c₂, r₂, ((_, _, w₂), recv₂, _)) =
        happens iis law engine to_bytes more raw random world calls channel
          (Moved iis law engine to_bytes more raw random world calls channel P c₁) post_completed r₁
          w₁ tt
          (rw at_send₁ (
            moves iis law engine to_bytes more raw random world calls channel P c₁ _
              (sent-Awaiting iis (suc (suc more)) more msg c₁.env.world))) in
      (c₂, r₂, w₂ ∙ ap (λ l. awaiting l ∷ []) replies, recv₂ ∙ recv₁)
