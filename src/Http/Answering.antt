-- ===== src/Http/Answering.antt =====
-- The events by which a connection that waits for its response gets through the application's
-- messages, one by one.
use iis_asgi_handler.Prelude.{
  ℕ, suc, ◌<◌, ◌^◌, ◌≡◌, refl, ap, ◌∙◌, append_assoc, inl, inr, false, List, [], ◌∷◌, ◌++◌, none,
  some, Bytes, length, Result, ok, err, ◌>>=◌, Returns,
}
use iis_asgi_handler.Iis.{Iis, Lawful, s_ok}
use iis_asgi_handler.Channels.{Engine}
use iis_asgi_handler.Messages.{AsgiHttpResponseMsg}
use iis_asgi_handler.Request.{RawRequest}
use iis_asgi_handler.StateMachine.{Notification, pending, finished}
use iis_asgi_handler.Http.{HttpStep, wait_for_response, Env, posted, awaiting}
use iis_asgi_handler.Http.Called.{Allowed}
use iis_asgi_handler.Http.Connection.{
  Connection, Event, write_completed, flush_completed, response_received, post_completed, cause,
  handle, set_response, http_on_async_completion,
}
use iis_asgi_handler.Http.Invariant.{AllMore}
use iis_asgi_handler.Http.Progress.{
  Settled, Flushing, Writing, posted-Writing, written-Flushing, flushed-Settled,
}
use iis_asgi_handler.Http.Reach.{Reach, next, IsReliable}

-- A ULONG holds the length of each message's content.
abbrev pub AllShort : List AsgiHttpResponseMsg → Type 0
AllShort [] = Unit {0}
AllShort (m ∷ ms) = (length m.content < 2 ^ 32) × AllShort ms

-- What a call returned.
returned {ℓ} :
    {A : Type ℓ} (Q : A → Type 0) (m : Result A) → Returns Q m → (a : A) × (m ≡ ok a) × Q a
returned Q (ok a) h = (a, refl, h)
returned Q (err e) h = absurd h

module _ (iis : Iis) (law : Lawful iis) (engine : Engine) (to_bytes : List ℕ → Bytes) (more : ℕ)
    (raw : RawRequest) (random : engine.State) (world : iis.World) (calls : IsReliable iis)
    (channel : Bytes) where
  abbrev pub fuel : ℕ
  fuel = suc (suc (suc more))

  abbrev pub Reached : Connection iis → Type 0
  Reached = Reach iis law engine to_bytes fuel raw random world

  abbrev pub state : Connection iis → Notification × HttpStep × Env iis
  state c = (c.status, c.step, c.env)

  -- A connection reached from another without a message in between, at such a state.
  record Later (P : Notification × HttpStep × Env iis → Type 0) (c c' : Connection iis)
      : Type 0 where
    reached : Reached c'
    at : P (state c')
    same_received : c'.received ≡ c.received
    same_sent : c'.sent ≡ c.sent

  pub happens :
      (Q : Connection iis → Type 0) (event : Event iis) {c : Connection iis}
      → Reached c
      → c.env.waiting ≡ cause event ∷ []
      → Allowed iis law event c.env.world
      → Returns Q (handle iis fuel event [] c)
      → (c' : Connection iis) × Reached c' × Q c'
  happens Q event {c} r w a h =
      let (c', e, q) = returned Q (handle iis fuel event [] c) h in
      (
        c',
        next event [] r (record { before = []; after = []; waits = w; others = refl; allowed = a })
            e,
        q,
      )

  -- What a completion does to the connection besides.
  abbrev pub Moved :
      (Notification × HttpStep × Env iis → Type 0) → Connection iis → Connection iis → Type 0
  Moved P c c' = P (state c') × (c'.received ≡ c.received) × (c'.sent ≡ c.sent)

  pub moves :
      (P : Notification × HttpStep × Env iis → Type 0) (c : Connection iis)
      (m : Result (Notification × HttpStep × Env iis))
      → Returns P m
      → Returns
          (Moved P c)
          (m >>= λ (status, step, e). ok (record c { status = status; step = step; env = e }))
  moves P c (ok a) h = (h, refl, refl)
  moves P c (err e) h = h

  -- A connection that waits for its response.
  abbrev pub Waits : Connection iis → Type 0
  Waits c =
      (c.status ≡ pending)
      × (c.step ≡ wait_for_response channel none)
      × (c.env.waiting ≡ awaiting channel ∷ [])

  module _ (m : AsgiHttpResponseMsg) where
    after_flush :
        (c : Connection iis)
        → Reached c
        → Flushing iis channel m (state c)
        → (c' : Connection iis) × Later (Settled iis channel m) c c'
    unfolding handle http_on_async_completion
    after_flush c r (inl settled) =
        (c, record { reached = r; at = settled; same_received = refl; same_sent = refl })
    after_flush c r (inr (goes_on, _, at_flush, w)) =
        let (c', r', (settled, recv, sent)) =
          happens (Moved (Settled iis channel m) c) (flush_completed s_ok 0 c.env.world) r w refl (
            rw at_flush (
              moves (Settled iis channel m) c _ (
                flushed-Settled iis channel m calls (suc (suc more)) more s_ok 0 c.env.world
                  goes_on))) in
        (c', record { reached = r'; at = settled; same_received = recv; same_sent = sent })

    after_write :
        (c : Connection iis)
        → Reached c
        → Writing iis channel m (state c)
        → (c' : Connection iis) × Later (Settled iis channel m) c c'
    unfolding handle http_on_async_completion
    after_write c r (inl flushed) = after_flush c r flushed
    after_write c r (inr (_, at_write, w)) =
        let (c₁, r₁, (flushed, recv₁, sent₁)) =
          happens (Moved (Flushing iis channel m) c)
            (write_completed s_ok (length m.content) c.env.world) r w refl
            (rw at_write (
              moves (Flushing iis channel m) c _ (
                written-Flushing iis channel m calls (suc (suc more)) more s_ok (length m.content) 0
                  c.env.world))) in
        let (c₂, l) = after_flush c₁ r₁ flushed in
        (
          c₂,
          record {
            reached = l.reached;
            at = l.at;
            same_received = l.same_received ∙ recv₁;
            same_sent = l.same_sent ∙ sent₁;
          },
        )

    -- The callback of `m` has run.
    abbrev Answered : Connection iis → Connection iis → Type 0
    Answered c c' =
        (c'.step ≡ wait_for_response channel (some m))
        × (c'.env.waiting ≡ posted ∷ [])
        × (c'.received ≡ c.received ++ m ∷ [])
        × (c'.sent ≡ c.sent)

    answer :
        (c : Connection iis)
        → Reached c
        → Waits c
        → length m.content < 2 ^ 32
        → (c' : Connection iis) × Reached c'
          × Settled iis channel m (state c')
          × (c'.received ≡ c.received ++ m ∷ [])
          × (c'.sent ≡ c.sent)
    unfolding handle http_on_async_completion set_response
    answer c r (_, at_wait, w) short =
        let (c₁, r₁, (at_message, w₁, recv₁, sent₁)) =
          happens (Answered c) (response_received channel m) r w short
            (rw at_wait (refl, refl, refl, refl)) in
        let (c₂, r₂, (written, recv₂, sent₂)) =
          happens (Moved (Writing iis channel m) c₁) post_completed r₁ w₁ tt (
            rw at_message (
              moves (Writing iis channel m) c₁ _
                (posted-Writing iis channel m calls (suc (suc more)) more c₁.env.world))) in
        let (c₃, l) = after_write c₂ r₂ written in
        (c₃, l.reached, l.at, l.same_received ∙ recv₂ ∙ recv₁, l.same_sent ∙ sent₂ ∙ sent₁)

  abbrev pub Finishes : List AsgiHttpResponseMsg → Connection iis → Connection iis → Type 0
  Finishes ms c c' =
      Reached c' × (c'.status ≡ finished) × (c'.received ≡ c.received ++ ms) × (c'.sent ≡ c.sent)

  pub all_answered :
      (ms : List AsgiHttpResponseMsg) (last : AsgiHttpResponseMsg) (c : Connection iis)
      → Reached c
      → Waits c
      → AllMore ms
      → AllShort (ms ++ last ∷ [])
      → last.more_content ≡ false
      → (c' : Connection iis) × Finishes (ms ++ last ∷ []) c c'
  all_answered [] last c r w goes_on (short, _) ends =
      let (c', r', settled, recv, sent) = answer last c r w short in
      elim settled [
        | inl (_, f) ↦ (c', (r', f, recv, sent))
        | inr (one_more, _, _, _) ↦ absurd (cc)
      ]
  all_answered (m ∷ ms) last c r w (one_more, goes_on) (short, rest) ends =
      let (c₁, r₁, settled, recv₁, sent₁) = answer m c r w short in
      elim settled [
        | inl (none_more, _) ↦ absurd (cc)
        | inr (_, pends, at_wait, w₁) ↦
            let (c₂, (r₂, f, recv₂, sent₂)) =
              all_answered ms last c₁ r₁ (pends, at_wait, w₁) goes_on rest ends in
            (
              c₂,
              (
                r₂,
                f,
                recv₂
                    ∙ ap (λ l. l ++ (ms ++ last ∷ [])) recv₁
                    ∙ append_assoc c.received (m ∷ []) (ms ++ last ∷ []),
                sent₂ ∙ sent₁,
              ),
            )
      ]
