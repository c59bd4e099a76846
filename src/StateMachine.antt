-- ===== src/StateMachine.antt =====
-- AsgiHandlerLib/RequestHandler.h and .cpp: the steps of a handler and the loop that runs them.
use iis_asgi_handler.Prelude.{
  ℕ, zero, suc, ◌<◌, ◌≡◌, Result, ok, err, Error, ◌>>=◌, Returns, Returns-bind, arith,
}

pub data StepResult : Type 0 where
  async_pending rerun goto_next finish_request : StepResult

-- REQUEST_NOTIFICATION_STATUS, as far as the handlers return it.
pub data Notification : Type 0 where
  pending finished : Notification

-- The virtual methods of `RequestHandlerStep`, for steps `S` that act on the surroundings `E`.
pub record StepMethods (S E : Type 0) : Type 0 where
  pub enter : S → E → Result (StepResult × S × E)
  pub on_async_completion : S → (hr num_bytes : ℕ) → E → Result (StepResult × S × E)
  pub get_next_step : S → Result S

module _ {S E : Type 0} (methods : StepMethods S E) where
  open methods use {enter, on_async_completion, get_next_step}

  -- `while (true) { switch (result) … }`, on fuel.
  unfoldable pub handler_state_machine : ℕ → StepResult → S → E → Result (Notification × S × E)
  handler_state_machine fuel async_pending s e = ok (pending, s, e)
  handler_state_machine fuel finish_request s e = ok (finished, s, e)
  handler_state_machine zero rerun s e = err Error.out_of_fuel
  handler_state_machine zero goto_next s e = err Error.out_of_fuel
  handler_state_machine (suc fuel) rerun s e =
      enter s e >>= λ (r, s', e'). handler_state_machine fuel r s' e'
  handler_state_machine (suc fuel) goto_next s e = do
    next ← get_next_step s
    (r, s', e') ← enter next e
    handler_state_machine fuel r s' e'

  -- OnAsyncCompletion() of the handlers: the step's own, then the loop.
  unfoldable pub handler_on_async_completion :
      ℕ → S → (hr num_bytes : ℕ) → E → Result (Notification × S × E)
  handler_on_async_completion fuel s hr num_bytes e = do
    (r, s', e') ← on_async_completion s hr num_bytes e
    handler_state_machine fuel r s' e'

  -- Total correctness of the loop: what holds before each switch, what holds on return, and a
  -- number that falls on each round.
  pub handler_state_machine-Returns :
      (Pre : StepResult → S → E → Type 0) (Post : Notification → S → E → Type 0)
      (rank : StepResult → S → E → ℕ)
      → ((s : S) (e : E) → Pre async_pending s e → Post pending s e)
      → ((s : S) (e : E) → Pre finish_request s e → Post finished s e)
      → ((s : S) (e : E)
          → Pre rerun s e
          → Returns (λ (r, s', e'). Pre r s' e' × (rank r s' e' < rank rerun s e)) (enter s e))
      → ((s : S) (e : E)
          → Pre goto_next s e
          → (next : S) × (get_next_step s ≡ ok next)
            × Returns
                (λ (r, s', e'). Pre r s' e' × (rank r s' e' < rank goto_next s e))
                (enter next e))
      → (fuel : ℕ) (r : StepResult) (s : S) (e : E) → rank r s e < fuel
      → Pre r s e
      → Returns (λ (n, s', e'). Post n s' e') (handler_state_machine fuel r s e)
  unfolding handler_state_machine
  handler_state_machine-Returns Pre Post rank pend fin again next fuel async_pending s e h p =
      pend s e p
  handler_state_machine-Returns Pre Post rank pend fin again next fuel finish_request s e h p =
      fin s e p
  handler_state_machine-Returns Pre Post rank pend fin again next zero rerun s e h p =
      absurd (omega arith)
  handler_state_machine-Returns Pre Post rank pend fin again next zero goto_next s e h p =
      absurd (omega arith)
  handler_state_machine-Returns Pre Post rank pend fin again next (suc fuel) rerun s e h p =
      Returns-bind _ _ (enter s e) _ (again s e p) λ (r', s', e') (q, lower).
        handler_state_machine-Returns Pre Post rank pend fin again next fuel r' s' e' (omega arith)
          q
  handler_state_machine-Returns Pre Post rank pend fin again next (suc fuel) goto_next s e h p =
      let (s₁, eq, run) = next s e p in
      rw (eq, handler_state_machine)
        (Returns-bind _ _ (enter s₁ e) _ run λ (r', s', e') (q, lower).
          handler_state_machine-Returns Pre Post rank pend fin again next fuel r' s' e'
            (omega arith) q)
