-- ===== src/Http/Loop.antt =====
-- HandlerStateMachine() over the steps of an HTTP request.
use iis_asgi_handler.Prelude.{
  ℕ, suc, ◌<◌, ◌≡◌, refl, sym, ap, subst, ◌∙◌, inl, inr, ◌&&◌, List, [], ◌∷◌, none, some, Bytes,
  length, length-zero, arith, Bool-cases, ◌==◌, Returns, Returns-mono, ok,
}
use iis_asgi_handler.Iis.{Iis, Lawful}
use iis_asgi_handler.Messages.{AsgiHttpRequestMsg, AsgiHttpResponseMsg}
use iis_asgi_handler.StateMachine.{
  StepResult, rerun, goto_next, handler_state_machine, handler_state_machine-Returns,
}
use iis_asgi_handler.Http.{
  HttpStep, read_body, send_to_application, wait_for_response, write_response, flush_response, Env,
  sending, enter, get_next_step, http_methods, wait_for_response_next, write_response_next,
  send_to_application_enter,
}
use iis_asgi_handler.Http.Invariant.{
  contents, AllMore, Leaves, Pre, Post, Keeps, rank, rank-le, contents-nil,
}
use iis_asgi_handler.Http.Response.{
  read_body_enter-Keeps, wait_for_response_enter-Keeps, flush_response_enter-Keeps,
  write_response_enter-Keeps, all_more, no_content,
}

module _ (iis : Iis) (law : Lawful iis) (req : AsgiHttpRequestMsg) (sent : List AsgiHttpRequestMsg)
    (received : List AsgiHttpResponseMsg) (fuel : ℕ) (enough : length req.body < fuel)
    (rounds : 3 < fuel) where
  open law use {entity, written}

  abbrev K : ℕ → StepResult × HttpStep × Env iis → Type 0
  K = Keeps iis law req sent received

  Keeps-mono : (k : ℕ) (out : StepResult × HttpStep × Env iis) → K k out → K (suc k) out
  Keeps-mono k (r, s, e) (p, h) = (p, omega arith)

  again :
      (s : HttpStep) (e : Env iis)
      → Pre iis law req sent received rerun s e
      → Returns (K 2) (enter iis fuel s e)
  unfolding enter
  again (read_body msg n) e (none_waiting, i) =
      read_body_enter-Keeps iis law req sent received fuel msg n e enough none_waiting i
  again (send_to_application msg) e h = absurd h
  again (wait_for_response channel msg) e h = absurd h
  again (write_response m channel n) e h = absurd h
  again (flush_response channel) e h = absurd h

  -- GetNextStep() never throws, and the step that it gives is entered where it may be.
  abbrev Goes : HttpStep → Env iis → Type 0
  Goes s e =
      (next : HttpStep) × (get_next_step s ≡ ok next)
      × Returns (K (rank goto_next s)) (enter iis fuel next e)

  after_message :
      (channel : Bytes) (m : AsgiHttpResponseMsg) (e : Env iis)
      → Leaves iis law req sent received (wait_for_response channel (some m)) e
      → Goes (wait_for_response channel (some m)) e
  unfolding enter get_next_step wait_for_response_next
  after_message channel m e (none_waiting, h, ended) =
      elim (Bool-cases (length m.content == 0 && m.more_content)) [
        | inl b ↦ (
          flush_response channel,
          simp b,
          Returns-mono _ _ _ (Keeps-mono 2) (
              flush_response_enter-Keeps iis law req sent received fuel channel e (omega arith)
                none_waiting
                (no_content iis law req sent received channel m e.world h
                  (length-zero m.content (ground arith)))
                (all_more iis law req sent received m h.last (ground arith))),
        )
        | inr b ↦ (
          write_response m channel 0,
          simp b,
          write_response_enter-Keeps iis law req sent received fuel m channel e (omega arith)
              none_waiting h,
        )
      ]

  next : (s : HttpStep) (e : Env iis) → Pre iis law req sent received goto_next s e → Goes s e
  unfolding enter get_next_step send_to_application_enter write_response_next
  next (read_body msg n) e (none_waiting, same, unsent, unanswered, unwritten) = (
    send_to_application msg,
    refl,
    (
      (
        same,
        unanswered,
        unwritten,
        inl (
          (ap (◌∷◌ (sending msg)) none_waiting
              ∙ ap (λ (m : AsgiHttpRequestMsg). sending m ∷ []) same),
          unsent,
        ),
      ),
      omega arith,
    ),
  )
  next (send_to_application msg) e (none_waiting, same, sent_once, unanswered, unwritten) = (
    wait_for_response msg.reply_channel none,
    refl,
    wait_for_response_enter-Keeps iis law req sent received msg.reply_channel e none_waiting
        (record {
          reply = ap (λ (m : AsgiHttpRequestMsg). m.reply_channel) same;
          sent_once = sent_once;
          all_written = unwritten ∙ sym contents-nil ∙ ap contents (sym unanswered);
        })
        (subst AllMore (sym unanswered) tt),
  )
  next (wait_for_response channel none) e h = absurd h
  next (wait_for_response channel (some m)) e h = after_message channel m e h
  next (write_response m channel n) e (none_waiting, i, more, says_more) = (
    flush_response channel,
    simp says_more,
    flush_response_enter-Keeps iis law req sent received fuel channel e (omega arith) none_waiting i
        more,
  )
  next (flush_response channel) e (none_waiting, i, more) = (
    wait_for_response channel none,
    refl,
    wait_for_response_enter-Keeps iis law req sent received channel e none_waiting i more,
  )

  pub machine-Post :
      (r : StepResult) (s : HttpStep) (e : Env iis)
      → Pre iis law req sent received r s e
      → Returns
          (λ (n, s', e'). Post iis law req sent received n s' e')
          (handler_state_machine (http_methods iis fuel) fuel r s e)
  unfolding http_methods
  machine-Post r s e h =
      handler_state_machine-Returns (http_methods iis fuel) (Pre iis law req sent received)
        (Post iis law req sent received) (λ r s e. rank r s) (λ s e p. p) (λ s e p. p)
        (λ s e p. again s e p) (λ s e p. next s e p) fuel r s e (omega (arith, rank-le r s)) h
