-- ===== src/Http/Completion.antt =====
-- OnAsyncCompletion() of each step of an HTTP request, and the loop's invariant.
use iis_asgi_handler.Prelude.{
  ℕ, zero, suc, ℤ, pos, negsuc, ◌+◌, ◌≡◌, refl, ap, ◌∙◌, inl, inr, false, not, ◌&&◌, List, [], ◌∷◌,
  some, Bytes, length, length-zero, arith, Bool-cases, ◌==◌, Returns,
}
use iis_asgi_handler.Iis.{Iis, Lawful, failed}
use iis_asgi_handler.Messages.{Header, AsgiHttpRequestMsg, AsgiHttpResponseMsg}
use iis_asgi_handler.StateMachine.{StepResult}
use iis_asgi_handler.Http.{
  HttpStep, read_body, wait_for_response, write_response, Env, u32, on_async_completion,
  read_body_completion, wait_for_response_completion, set_headers, set_status_if,
}
use iis_asgi_handler.Http.Body.{Reading-done}
use iis_asgi_handler.Http.Invariant.{Last, IsReading, IsAnswering, HasMessage, Pre}
use iis_asgi_handler.Http.Response.{completes_more, completes_last, all_more, no_content}

module _ (iis : Iis) (law : Lawful iis) (req : AsgiHttpRequestMsg) (sent : List AsgiHttpRequestMsg)
    (received : List AsgiHttpResponseMsg) where
  open law use {entity, written}

  abbrev pub Before : StepResult × HttpStep × Env iis → Type 0
  Before (r, s, e) = Pre iis law req sent received r s e

  -- The buffer holds the bytes that a read has brought, and `hr` says how it went.
  pub read_completion-Pre :
      (msg : AsgiHttpRequestMsg) (n k hr : ℕ) (e : Env iis)
      → e.waiting ≡ []
      → ((failed hr ≡ false) → IsReading iis law req sent received msg (u32 (n + k)) e.world)
      → (sent ≡ []) × (written e.world ≡ [])
      → Returns Before (on_async_completion iis (read_body msg n) hr k e)
  unfolding on_async_completion read_body_completion
  read_completion-Pre msg n k hr e none_waiting i quiet = elim (Bool-cases (failed hr)) [
    | inl f ↦ simp f (none_waiting, quiet)
    | inr f ↦
        let i' = i f in
        elim (Bool-cases (iis.remaining_entity_bytes e.world == 0)) [
          | inl z ↦
              simp (f, z)
                (
                  none_waiting,
                  i'.same
                      ∙ ap (λ (b : Bytes). record req { body = b })
                          (Reading-done iis law req.body msg.body (u32 (n + k)) e.world i'.buffer
                            (ground (arith, law.remaining e.world))),
                  i'.unsent,
                  i'.unanswered,
                  i'.unwritten,
                )
          | inr m ↦ simp (f, m) (none_waiting, i')
        ]
  ]

  written-set_headers :
      (headers : List Header) (w : iis.World) → written (set_headers iis headers w) ≡ written w
  unfolding set_headers
  written-set_headers [] w = refl
  written-set_headers ((name, value) ∷ headers) w =
      written-set_headers headers _ ∙ law.written-set_header _ _ w

  written-set_status_if :
      (status : ℤ) (w : iis.World) → written (set_status_if iis status w) ≡ written w
  unfolding set_status_if
  written-set_status_if (pos zero) w = refl
  written-set_status_if (pos (suc n)) w = law.written-set_status _ w
  written-set_status_if (negsuc n) w = refl

  pub wait_completion-Pre :
      (channel : Bytes) (m : AsgiHttpResponseMsg) (hr n : ℕ) (e : Env iis)
      → e.waiting ≡ []
      → HasMessage iis law req sent received channel m e.world
      → Returns Before (on_async_completion iis (wait_for_response channel (some m)) hr n e)
  unfolding on_async_completion wait_for_response_completion
  wait_completion-Pre channel m hr n e none_waiting h =
      elim (Bool-cases (length m.content == 0 && not m.more_content)) [
        | inl b ↦ simp b (
          none_waiting,
          (
            no_content iis law req sent received channel m _ h'
                (length-zero m.content (ground arith)),
            h.last,
            ground arith,
          ),
        )
        | inr b ↦ simp b (none_waiting, h', λ empty. ground (arith, ap length empty))
      ]
    where
      w : iis.World
      w = set_headers iis m.headers (set_status_if iis m.status e.world)

      h' : HasMessage iis law req sent received channel m w
      h' = record {
        reply = h.reply;
        sent_once = h.sent_once;
        last = h.last;
        others_written =
            written-set_headers m.headers _
            ∙ written-set_status_if m.status e.world
            ∙ h.others_written;
      }

  pub write_completion-Pre :
      (m : AsgiHttpResponseMsg) (channel : Bytes) (k hr n : ℕ) (e : Env iis)
      → e.waiting ≡ []
      → IsAnswering iis law req sent received channel e.world
      → Last received m
      → Returns Before (on_async_completion iis (write_response m channel k) hr n e)
  unfolding on_async_completion
  write_completion-Pre m channel k hr n e none_waiting i l = elim (Bool-cases m.more_content) [
    | inl more ↦
        simp (completes_more m more)
          (none_waiting, i, all_more iis law req sent received m l more, more)
    | inr last ↦ simp (completes_last m last) (none_waiting, (i.sent_once, inl (i, l, last)))
  ]
