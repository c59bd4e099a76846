-- ===== src/Http/Response.antt =====
-- Enter() of each step of an HTTP request, and the loop's invariant.
use iis_asgi_handler.Prelude.{
  ℕ, zero, suc, ◌<◌, ◌^◌, ◌≡◌, refl, sym, ap, subst, ◌∙◌, append-nil, inl, inr, true, false, List,
  [], ◌∷◌, ◌++◌, none, Bytes, length, length-append, take, arith, Bool-cases, Returns, Returns-mono,
  ◌-◌,
}
use iis_asgi_handler.Iis.{Iis, Lawful, failed}
use iis_asgi_handler.Messages.{AsgiHttpRequestMsg, AsgiHttpResponseMsg}
use iis_asgi_handler.StateMachine.{StepResult, async_pending, rerun, goto_next, finish_request}
use iis_asgi_handler.Http.{
  HttpStep, reading, writing, flushing, awaiting, u32, Env, resp_chunk, read_body_enter,
  wait_for_response_enter, write_response_completion, write_response_enter, flush_response_enter,
}
use iis_asgi_handler.Http.Body.{ReadsTo, read_body_enter-ReadsTo}
use iis_asgi_handler.Http.Invariant.{
  contents, AllMore, Last, IsReading, IsAnswering, HasMessage, Keeps, AllMore-append,
  contents-append,
}

take_all {ℓ} : {A : Type ℓ} (xs : List A) → take (length xs) xs ≡ xs
take_all [] = refl
take_all (x ∷ xs) = ap (◌∷◌ x) (take_all xs)

-- The chunk of a step that has written nothing is the content.
pub resp_chunk_all : (content : Bytes) → length content < 2 ^ 32 → resp_chunk content 0 ≡ content
unfolding resp_chunk
resp_chunk_all content h =
    let e : u32 (length content - 0) ≡ length content = omega arith in rw e (take_all content)

pub completes_more :
    (m : AsgiHttpResponseMsg) → m.more_content ≡ true → write_response_completion m ≡ goto_next
unfolding write_response_completion
completes_more m h = rw h

pub completes_last :
    (m : AsgiHttpResponseMsg)
    → m.more_content ≡ false
    → write_response_completion m ≡ finish_request
unfolding write_response_completion
completes_last m h = rw h

module _ (iis : Iis) (law : Lawful iis) (req : AsgiHttpRequestMsg) (sent : List AsgiHttpRequestMsg)
    (received : List AsgiHttpResponseMsg) where
  open law use {entity, written}

  abbrev K : ℕ → StepResult × HttpStep × Env iis → Type 0
  K = Keeps iis law req sent received

  ReadsTo-Keeps :
      (msg : AsgiHttpRequestMsg) (n : ℕ) (e : Env iis) (out : StepResult × HttpStep × Env iis)
      → e.waiting ≡ []
      → IsReading iis law req sent received msg n e.world
      → ReadsTo iis law req.body msg e out
      → K 2 out
  ReadsTo-Keeps msg n e (goto_next, s, e') none_waiting i (n', eq, q) =
      subst (λ s'. K 2 (goto_next, s', e')) (sym eq)
        (
          (
            q.same_waiting ∙ none_waiting,
            whole,
            i.unsent,
            i.unanswered,
            q.same_written ∙ i.unwritten,
          ),
          omega arith,
        )
    where
      whole : record msg { body = req.body } ≡ req
      whole = ap (λ (m : AsgiHttpRequestMsg). record m { body = req.body }) i.same
  ReadsTo-Keeps msg n e (async_pending, s, e') none_waiting i (b, n', eq, r, q) =
      subst (λ s'. K 2 (async_pending, s', e')) (sym eq)
        (
          (
            q.same_waiting ∙ ap (◌∷◌ reading) none_waiting,
            record {
              same = ap (λ (m : AsgiHttpRequestMsg). record m { body = b }) i.same;
              buffer = r;
              unsent = i.unsent;
              unanswered = i.unanswered;
              unwritten = q.same_written ∙ i.unwritten;
            },
          ),
          omega arith,
        )
  ReadsTo-Keeps msg n e (finish_request, s, e') none_waiting i (b, n', eq, q) =
      subst (λ s'. K 2 (finish_request, s', e')) (sym eq)
        ((q.same_waiting ∙ none_waiting, (i.unsent, q.same_written ∙ i.unwritten)), omega arith)
  ReadsTo-Keeps msg n e (rerun, s, e') none_waiting i h = absurd h

  -- ReadBodyStep
  pub read_body_enter-Keeps :
      (fuel : ℕ) (msg : AsgiHttpRequestMsg) (n : ℕ) (e : Env iis)
      → length req.body < fuel
      → e.waiting ≡ []
      → IsReading iis law req sent received msg n e.world
      → Returns (K 2) (read_body_enter iis fuel msg n e)
  read_body_enter-Keeps fuel msg n e enough none_waiting i =
      Returns-mono _ _ _ (λ out. ReadsTo-Keeps msg n e out none_waiting i)
        (read_body_enter-ReadsTo iis law fuel req.body msg n e
          (omega (arith, ap length i.buffer.whole, length-append i.buffer.filled (entity e.world)))
          i.buffer)

  -- WaitForResponseStep, entered for the first message or after one that was flushed.
  pub wait_for_response_enter-Keeps :
      (channel : Bytes) (e : Env iis)
      → e.waiting ≡ []
      → IsAnswering iis law req sent received channel e.world
      → AllMore received
      → Returns (K 1) (wait_for_response_enter iis channel none e)
  unfolding wait_for_response_enter
  wait_for_response_enter-Keeps channel e none_waiting i more =
      ((ap (◌∷◌ (awaiting channel)) none_waiting, i, more), omega arith)

  -- FlushResponseStep
  pub flush_response_enter-Keeps :
      (fuel : ℕ) (channel : Bytes) (e : Env iis)
      → 0 < fuel
      → e.waiting ≡ []
      → IsAnswering iis law req sent received channel e.world
      → AllMore received
      → Returns (K 2) (flush_response_enter iis fuel channel e)
  unfolding flush_response_enter
  flush_response_enter-Keeps zero channel e some_fuel none_waiting i more = absurd (omega arith)
  flush_response_enter-Keeps (suc fuel) channel e some_fuel none_waiting i more =
      elim (Bool-cases (failed (iis.flush e.world).0.hr)) [
        | inl f ↦ rw f ((none_waiting, (i.sent_once, e.world, f)), omega arith)
        | inr f ↦ elim (Bool-cases (iis.flush e.world).0.completion_expected) [
          | inl c ↦ rw (f, c) ((ap (◌∷◌ flushing) none_waiting, flushed, more), omega arith)
          | inr c ↦ rw (f, c) ((none_waiting, flushed, more), omega arith)
        ]
      ]
    where
      flushed : IsAnswering iis law req sent received channel (iis.flush e.world).1
      flushed = record {
        reply = i.reply;
        sent_once = i.sent_once;
        all_written = law.written-flush e.world ∙ i.all_written;
      }

  -- With a message that is not written yet, the chunk brings the response up to date.
  wrote :
      (channel : Bytes) (m : AsgiHttpResponseMsg) (w : iis.World)
      → HasMessage iis law req sent received channel m w
      → failed (iis.write_entity_chunks m.content w).0.hr ≡ false
      → IsAnswering iis law req sent received channel (iis.write_entity_chunks m.content w).1
  wrote channel m w h f = record {
    reply = h.reply;
    sent_once = h.sent_once;
    all_written =
        law.written-write m.content w f
        ∙ ap (λ (b : Bytes). b ++ m.content) h.others_written
        ∙ sym (contents-append h.last.before m)
        ∙ ap contents (sym h.last.split);
  }

  -- A message without content is flushed as if it had been written.
  pub no_content :
      (channel : Bytes) (m : AsgiHttpResponseMsg) (w : iis.World)
      → HasMessage iis law req sent received channel m w
      → m.content ≡ []
      → IsAnswering iis law req sent received channel w
  no_content channel m w h e = record {
    reply = h.reply;
    sent_once = h.sent_once;
    all_written =
        h.others_written
        ∙ sym (append-nil _)
        ∙ ap (◌++◌ (contents h.last.before)) (sym e)
        ∙ sym (contents-append h.last.before m)
        ∙ ap contents (sym h.last.split);
  }

  pub all_more :
      (m : AsgiHttpResponseMsg) → Last received m → m.more_content ≡ true → AllMore received
  all_more m l e = subst AllMore (sym l.split) (AllMore-append l.before m l.more e)

  -- WriteResponseStep, entered with a message of which nothing is written.
  pub write_response_enter-Keeps :
      (fuel : ℕ) (m : AsgiHttpResponseMsg) (channel : Bytes) (e : Env iis)
      → 0 < fuel
      → e.waiting ≡ []
      → HasMessage iis law req sent received channel m e.world
      → Returns (K 3) (write_response_enter iis fuel m channel 0 e)
  unfolding write_response_enter
  write_response_enter-Keeps zero m channel e some_fuel none_waiting h = absurd (omega arith)
  write_response_enter-Keeps (suc fuel) m channel e some_fuel none_waiting h =
      elim (Bool-cases (failed (iis.write_entity_chunks m.content e.world).0.hr)) [
        | inl f ↦ simp (whole, f) ((none_waiting, (h.sent_once, inr (e.world, f))), omega arith)
        | inr f ↦
            elim (Bool-cases (iis.write_entity_chunks m.content e.world).0.completion_expected) [
              | inl c ↦
                  simp (whole, f, c)
                    (
                      (ap (◌∷◌ writing) none_waiting, wrote channel m e.world h f, h.last),
                      omega arith,
                    )
              | inr c ↦ elim (Bool-cases m.more_content) [
                | inl more ↦
                    simp (whole, f, c, completes_more m more)
                      (
                        (none_waiting, wrote channel m e.world h f, all_more m h.last more, more),
                        omega arith,
                      )
                | inr last ↦
                    simp (whole, f, c, completes_last m last)
                      (
                        (
                          none_waiting,
                          (h.sent_once, inl (wrote channel m e.world h f, h.last, last)),
                        ),
                        omega arith,
                      )
              ]
            ]
      ]
    where
      whole : resp_chunk m.content 0 ≡ m.content
      whole = resp_chunk_all m.content h.last.short
