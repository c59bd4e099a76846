-- ===== src/Http.antt =====
-- AsgiHandlerLib/HttpRequestHandlerSteps.h and .cpp: the steps of an HTTP request. A step is a
-- value of `HttpStep`, with the members of its class; what it does to its surroundings is in `Env`.
pub mod Body
pub mod Connection
pub mod Invariant
pub mod Response
pub mod Loop
pub mod Completion
pub mod Called
pub mod Events
pub mod Lifecycle
pub mod Start
pub mod Reach
pub mod Progress
pub mod Answering
pub mod Sending
pub mod Liveness
use iis_asgi_handler.Prelude.{
  ℕ, zero, suc, ◌+◌, ◌-◌, ◌%◌, ◌^◌, ◌&&◌, not, List, [], ◌∷◌, Option, none, some, Bytes, length,
  take, drop, write_at, ◌==◌, if◌then◌else◌, ℤ, pos, negsuc, Result, ok, err, Error, ◌>>=◌, or_err,
}
use iis_asgi_handler.Iis.{Iis, failed, s_ok}
use iis_asgi_handler.Messages.{Header, AsgiHttpRequestMsg, AsgiHttpResponseMsg}
use iis_asgi_handler.StateMachine.{
  StepResult, async_pending, rerun, goto_next, finish_request, StepMethods,
}

-- A message held through `unique_ptr` is an `Option` where the code can find it empty.
pub data HttpStep : Type 0 where
  read_body : (asgi_request_msg : AsgiHttpRequestMsg) (body_bytes_read : ℕ) → HttpStep
  send_to_application : (asgi_request_msg : AsgiHttpRequestMsg) → HttpStep
  wait_for_response :
      (reply_channel : Bytes) (asgi_response_msg : Option AsgiHttpResponseMsg) → HttpStep
  write_response :
      (asgi_response_msg : AsgiHttpResponseMsg) (reply_channel : Bytes) (resp_bytes_written : ℕ)
      → HttpStep
  flush_response : (reply_channel : Bytes) → HttpStep

-- What will call the handler back: an operation of IIS that did not complete at once, the task that
-- sends the request, the callback that a channel's message runs, or a completion posted by either.
pub data Waiting : Type 0 where
  reading writing flushing posted : Waiting
  sending : AsgiHttpRequestMsg → Waiting
  awaiting : (channel : Bytes) → Waiting

pub record Env (iis : Iis) : Type 0 where
  pub world : iis.World
  pub waiting : List Waiting

-- DWORD and USHORT arithmetic wraps.
abbrev pub u32 : ℕ → ℕ
u32 n = n % 2 ^ 32

abbrev pub u16 : ℕ → ℕ
u16 n = n % 2 ^ 16

-- WriteResponseStep::OnAsyncCompletion()
unfoldable pub write_response_completion : AsgiHttpResponseMsg → StepResult
write_response_completion msg = if msg.more_content then goto_next else finish_request

-- The bytes that one round of WriteResponseStep::Enter() puts into `m_resp_chunk`. Its
-- BufferLength is a ULONG.
unfoldable pub resp_chunk : Bytes → ℕ → Bytes
resp_chunk content written = take (u32 (length content - written)) (drop written content)

-- What `c_str()` gives of a text.
abbrev pub until_zero : Bytes → Bytes
until_zero [] = []
until_zero (c ∷ cs) = let rest = until_zero cs in if c == 0 then [] else c ∷ rest

module _ (iis : Iis) where
  open iis use {
    World, remaining_entity_bytes, read_entity_body, set_status, set_header, write_entity_chunks,
    flush,
  }

  abbrev pub Outcome : Type 0
  Outcome = Result (StepResult × HttpStep × Env iis)

  abbrev pub await : Waiting → Env iis → Env iis
  await c e = record e { waiting = c ∷ e.waiting }

  -- ReadBodyStep::OnAsyncCompletion(): the result and the new `m_body_bytes_read`.
  unfoldable pub read_body_completion : (hr num_bytes body_bytes_read : ℕ) → World → StepResult × ℕ
  read_body_completion hr num_bytes body_bytes_read w =
      if failed hr
      then (finish_request, body_bytes_read)
      else if remaining_entity_bytes w == 0
      then (goto_next, u32 (body_bytes_read + num_bytes))
      else (rerun, u32 (body_bytes_read + num_bytes))

  -- The loop of ReadBodyStep::Enter(), at the top of its body.
  unfoldable pub read_body_loop :
      ℕ → (remaining_bytes : ℕ) → AsgiHttpRequestMsg → (body_bytes_read : ℕ) → Env iis → Outcome
  read_body_loop zero remaining_bytes msg n e = err Error.out_of_fuel
  read_body_loop (suc fuel) remaining_bytes msg n e =
      let (r, w) = read_entity_body remaining_bytes e.world in
      let e' : Env iis = record e { world = w } in
      if failed r.hr
      then ok (finish_request, read_body msg n, e')
      else if r.completion_expected
      then ok (async_pending, read_body msg n, await reading e')
      else (or_err (write_at msg.body n r.bytes) Error.overrun >>= λ body.
          let msg' : AsgiHttpRequestMsg = record msg { body = body } in
          let (result, n') = read_body_completion s_ok (length r.bytes) n w in
          let again = read_body_loop fuel (remaining_entity_bytes w) msg' n' e' in
          elim result [ rerun ↦ again | other ↦ ok (other, read_body msg' n', e') ])

  -- ReadBodyStep::Enter()
  unfoldable pub read_body_enter : ℕ → AsgiHttpRequestMsg → ℕ → Env iis → Outcome
  read_body_enter fuel msg n e =
      let remaining_bytes = remaining_entity_bytes e.world in
      if remaining_bytes == 0
      then ok (goto_next, read_body msg n, e)
      else read_body_loop fuel remaining_bytes msg n e

  -- SendToApplicationStep::Enter()
  unfoldable pub send_to_application_enter : AsgiHttpRequestMsg → Env iis → Outcome
  send_to_application_enter msg e =
      ok (async_pending, send_to_application msg, await (sending msg) e)

  -- WaitForResponseStep::Enter()
  unfoldable pub wait_for_response_enter : Bytes → Option AsgiHttpResponseMsg → Env iis → Outcome
  wait_for_response_enter channel msg e =
      ok (async_pending, wait_for_response channel msg, await (awaiting channel) e)

  -- `SetHeader()` takes a USHORT for the length of the value, and the name up to its first zero.
  unfoldable pub set_headers : List Header → World → World
  set_headers [] w = w
  set_headers ((name, value) ∷ headers) w =
      set_headers headers (set_header (until_zero name) (take (u16 (length value)) value) w)

  -- `SetStatus()` takes a USHORT.
  unfoldable pub set_status_if : ℤ → World → World
  set_status_if (pos zero) w = w
  set_status_if (pos (suc n)) w = set_status (u16 (suc n)) w
  set_status_if (negsuc n) w = w

  -- WaitForResponseStep::OnAsyncCompletion()
  unfoldable pub wait_for_response_completion :
      Bytes → Option AsgiHttpResponseMsg → Env iis → Outcome
  wait_for_response_completion channel none e = err Error.null_pointer
  wait_for_response_completion channel (some msg) e =
      let e' : Env iis = record e {
        world = set_headers msg.headers (set_status_if msg.status e.world);
      } in
      let step = wait_for_response channel (some msg) in
      if length msg.content == 0 && not msg.more_content
      then ok (finish_request, step, e')
      else ok (goto_next, step, e')

  -- WriteResponseStep::Enter()
  unfoldable pub write_response_enter : ℕ → AsgiHttpResponseMsg → Bytes → ℕ → Env iis → Outcome
  write_response_enter zero msg channel n e = err Error.out_of_fuel
  write_response_enter (suc fuel) msg channel n e =
      let (r, w) = write_entity_chunks (resp_chunk msg.content n) e.world in
      let e' : Env iis = record e { world = w } in
      let step = write_response msg channel n in
      let again = write_response_enter fuel msg channel n e' in
      if failed r.hr
      then ok (finish_request, step, e')
      else if r.completion_expected
      then ok (async_pending, step, await writing e')
      else elim (write_response_completion msg) [ rerun ↦ again | other ↦ ok (other, step, e') ]

  -- FlushResponseStep::OnAsyncCompletion()
  abbrev pub flush_response_completion : StepResult
  flush_response_completion = goto_next

  -- FlushResponseStep::Enter()
  unfoldable pub flush_response_enter : ℕ → Bytes → Env iis → Outcome
  flush_response_enter zero channel e = err Error.out_of_fuel
  flush_response_enter (suc fuel) channel e =
      let (r, w) = flush e.world in
      let e' : Env iis = record e { world = w } in
      let again = flush_response_enter fuel channel e' in
      if failed r.hr
      then ok (finish_request, flush_response channel, e')
      else if r.completion_expected
      then ok (async_pending, flush_response channel, await flushing e')
      else elim flush_response_completion [
        | rerun ↦ again
        | other ↦ ok (other, flush_response channel, e')
      ]

  unfoldable pub enter : ℕ → HttpStep → Env iis → Outcome
  enter fuel (read_body msg n) e = read_body_enter fuel msg n e
  enter fuel (send_to_application msg) e = send_to_application_enter msg e
  enter fuel (wait_for_response channel msg) e = wait_for_response_enter channel msg e
  enter fuel (write_response msg channel n) e = write_response_enter fuel msg channel n e
  enter fuel (flush_response channel) e = flush_response_enter fuel channel e

  unfoldable pub on_async_completion : HttpStep → (hr num_bytes : ℕ) → Env iis → Outcome
  on_async_completion (read_body msg n) hr num_bytes e =
      let (result, n') = read_body_completion hr num_bytes n e.world in
      ok (result, read_body msg n', e)
  on_async_completion (send_to_application msg) hr num_bytes e =
      ok (goto_next, send_to_application msg, e)
  on_async_completion (wait_for_response channel msg) hr num_bytes e =
      wait_for_response_completion channel msg e
  on_async_completion (write_response msg channel n) hr num_bytes e =
      ok (write_response_completion msg, write_response msg channel n, e)
  on_async_completion (flush_response channel) hr num_bytes e =
      ok (flush_response_completion, flush_response channel, e)

-- WaitForResponseStep::GetNextStep()
unfoldable pub wait_for_response_next : Bytes → Option AsgiHttpResponseMsg → Result HttpStep
wait_for_response_next channel none = err Error.null_pointer
wait_for_response_next channel (some msg) =
    if length msg.content == 0 && msg.more_content
    then ok (flush_response channel)
    else ok (write_response msg channel 0)

-- WriteResponseStep::GetNextStep()
unfoldable pub write_response_next : AsgiHttpResponseMsg → Bytes → Result HttpStep
write_response_next msg channel =
    if msg.more_content then ok (flush_response channel) else err Error.runtime_error

unfoldable pub get_next_step : HttpStep → Result HttpStep
get_next_step (read_body msg n) = ok (send_to_application msg)
get_next_step (send_to_application msg) = ok (wait_for_response msg.reply_channel none)
get_next_step (wait_for_response channel msg) = wait_for_response_next channel msg
get_next_step (write_response msg channel n) = write_response_next msg channel
get_next_step (flush_response channel) = ok (wait_for_response channel none)

unfoldable pub http_methods : (iis : Iis) → ℕ → StepMethods HttpStep (Env iis)
http_methods iis fuel = record {
  enter = enter iis fuel;
  on_async_completion = on_async_completion iis;
  get_next_step = get_next_step;
}
