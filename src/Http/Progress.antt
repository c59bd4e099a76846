-- ===== src/Http/Progress.antt =====
-- How far a response message gets by one completion, where no call of IIS fails.
use iis_asgi_handler.Prelude.{
  ℕ, suc, ◌==◌, ◌≡◌, refl, ◌⊎◌, inl, inr, true, false, Bool-cases, [], ◌∷◌, none, some, Bytes,
  length, Result, ◌>>=◌, Returns, Returns-mono,
}
use iis_asgi_handler.Iis.{Iis, s_ok}
use iis_asgi_handler.Messages.{AsgiHttpResponseMsg}
use iis_asgi_handler.StateMachine.{
  Notification, pending, finished, StepResult, handler_state_machine, handler_on_async_completion,
}
use iis_asgi_handler.Http.{
  HttpStep, wait_for_response, write_response, flush_response, writing, flushing, awaiting, Env,
  enter, get_next_step, http_methods, on_async_completion, write_response_enter,
  flush_response_enter, wait_for_response_enter, wait_for_response_completion,
  write_response_completion, resp_chunk, wait_for_response_next, write_response_next,
}
use iis_asgi_handler.Http.Reach.{IsReliable}

module _ (iis : Iis) (channel : Bytes) (m : AsgiHttpResponseMsg) where
  abbrev pub After : Type 0
  After = Notification × HttpStep × Env iis

  -- The message is dealt with: the request is finished, or waits for the next message.
  abbrev pub Settled : After → Type 0
  Settled (n, s, e) =
      ((m.more_content ≡ false) × (n ≡ finished))
      ⊎ ((m.more_content ≡ true)
          × (n ≡ pending)
          × (s ≡ wait_for_response channel none)
          × (e.waiting ≡ awaiting channel ∷ []))

  -- It is, or waits for the flush behind it.
  abbrev pub Flushing : After → Type 0
  Flushing (n, s, e) =
      Settled (n, s, e)
      ⊎ ((m.more_content ≡ true)
          × (n ≡ pending)
          × (s ≡ flush_response channel)
          × (e.waiting ≡ flushing ∷ []))

  -- It is, or waits for the flush, or for its own write.
  abbrev pub Writing : After → Type 0
  Writing (n, s, e) =
      Flushing (n, s, e)
      ⊎ ((n ≡ pending) × (s ≡ write_response m channel 0) × (e.waiting ≡ writing ∷ []))

  module _ (calls : IsReliable iis) (inner : ℕ) where
    abbrev runs : ℕ → StepResult → HttpStep → Env iis → Result After
    runs = handler_state_machine (http_methods iis (suc inner))

    flush_runs :
        (fuel : ℕ) (w : iis.World)
        → m.more_content ≡ true
        → Returns Flushing (
            enter iis (suc inner) (flush_response channel) (record { world = w; waiting = [] })
            >>= λ (r, s, e). runs (suc fuel) r s e)
    unfolding enter flush_response_enter handler_state_machine http_methods get_next_step
        wait_for_response_enter
    flush_runs fuel w more = elim (Bool-cases (iis.flush w).0.completion_expected) [
      | inl c ↦ simp (calls.flushes w, c) (inr (more, refl, refl, refl))
      | inr c ↦ simp (calls.flushes w, c) (inl (inr (more, refl, refl, refl)))
    ]

    write_runs :
        (fuel : ℕ) (w : iis.World)
        → Returns Writing (
            enter iis (suc inner) (write_response m channel 0) (record { world = w; waiting = [] })
            >>= λ (r, s, e). runs (suc (suc fuel)) r s e)
    unfolding enter write_response_enter handler_state_machine http_methods get_next_step
        write_response_completion write_response_next
    write_runs fuel w =
        elim (Bool-cases
          (iis.write_entity_chunks (resp_chunk m.content 0) w).0.completion_expected) [
            | inl c ↦ simp (calls.writes (resp_chunk m.content 0) w, c) (inr (refl, refl, refl))
            | inr c ↦ elim (Bool-cases m.more_content) [
              | inl more ↦
                  simp (calls.writes (resp_chunk m.content 0) w, c, more)
                    (Returns-mono Flushing Writing _ (λ a h. inl h) (flush_runs _ _ more))
              | inr last ↦
                  simp (calls.writes (resp_chunk m.content 0) w, c, last)
                    (inl (inl (inl (refl, refl))))
            ]
          ]

    abbrev pub completes : ℕ → HttpStep → (hr num_bytes : ℕ) → iis.World → Result After
    completes rounds s hr num_bytes w =
        handler_on_async_completion (http_methods iis (suc inner)) rounds s hr num_bytes
          (record { world = w; waiting = [] })

    -- The completion of PostCompletion(0) that the message's callback posts.
    pub posted-Writing :
        (fuel : ℕ) (w : iis.World)
        → Returns Writing
            (completes (suc (suc (suc fuel))) (wait_for_response channel (some m)) s_ok 0 w)
    unfolding handler_on_async_completion handler_state_machine http_methods get_next_step
        on_async_completion wait_for_response_completion wait_for_response_next
    posted-Writing fuel w = elim (Bool-cases (length m.content == 0)) [
      | inl empty ↦ elim (Bool-cases m.more_content) [
        | inl more ↦
            simp (empty, more)
              (Returns-mono Flushing Writing _ (λ a h. inl h) (flush_runs (suc fuel) _ more))
        | inr last ↦ simp (empty, last) (inl (inl (inl (refl, refl))))
      ]
      | inr some_bytes ↦ simp some_bytes (write_runs fuel _)
    ]

    -- The completion of the write, and that of the flush.
    pub written-Flushing :
        (fuel hr num_bytes n : ℕ) (w : iis.World)
        → Returns Flushing
            (completes (suc (suc (suc fuel))) (write_response m channel n) hr num_bytes w)
    unfolding handler_on_async_completion handler_state_machine http_methods get_next_step
        on_async_completion write_response_completion write_response_next
    written-Flushing fuel hr num_bytes n w = elim (Bool-cases m.more_content) [
      | inl more ↦ simp more (flush_runs (suc fuel) _ more)
      | inr last ↦ simp last (inl (inl (refl, refl)))
    ]

    pub flushed-Settled :
        (fuel hr num_bytes : ℕ) (w : iis.World)
        → m.more_content ≡ true
        → Returns Settled (completes (suc (suc (suc fuel))) (flush_response channel) hr num_bytes w)
    unfolding handler_on_async_completion handler_state_machine http_methods get_next_step
        on_async_completion enter wait_for_response_enter
    flushed-Settled fuel hr num_bytes w more = inr (more, refl, refl, refl)
