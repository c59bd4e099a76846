-- ===== src/Pump/Stopped.antt =====
-- The destructor of ResponsePump: the end of its thread, and what it still does.
use iis_asgi_handler.Prelude.{
  ◌≡◌, refl, ap, ◌∙◌, ◌⊎◌, inl, inr, true, false, Bool, List, [], ◌∷◌, ◌++◌, Option-cases, Bytes,
}
use iis_asgi_handler.Pump.{
  Phase, top, receiving, exited, ResponsePump, Action, add_channel, remove_channel, take_names,
  reply, stop, find_callback, names, dispatch, look, receive, thread_step, step, run,
}

module _ {ℓ} {Callback : Type ℓ} where
  dispatch-same :
      (c m : Bytes) (p : ResponsePump Callback)
      → ((dispatch c m p).thread_stop ≡ p.thread_stop) × ((dispatch c m p).phase ≡ top)
  unfolding dispatch
  dispatch-same c m p = elim (Option-cases (find_callback c p.callbacks)) [
    | inl missing ↦ rw (missing, dispatch) (refl, refl)
    | inr (_, found) ↦ rw (found, dispatch) (refl, refl)
  ]

  receive-same :
      (c m : Bytes) (p : ResponsePump Callback)
      → ((receive c m p).thread_stop ≡ p.thread_stop) × ((receive c m p).phase ≡ top)
  unfolding receive
  receive-same [] m p = (refl, refl)
  receive-same (x ∷ c) m p = dispatch-same (x ∷ c) m p

  look-stops :
      (ns : List Bytes) (p : ResponsePump Callback) (b : Bool)
      → b ≡ true
      → (look b ns p).phase ≡ exited
  unfolding look
  look-stops ns p true e = refl
  look-stops ns p false e = absurd (cc)

  look-thread_stop :
      (ns : List Bytes) (p : ResponsePump Callback) (b : Bool)
      → (look b ns p).thread_stop ≡ p.thread_stop
  unfolding look
  look-thread_stop ns p true = refl
  look-thread_stop [] p false = refl
  look-thread_stop (n ∷ ns) p false = refl

  -- The thread has returned, or is at the top of its loop and told to stop.
  abbrev IsEnding : ResponsePump Callback → Type 0
  IsEnding p = (p.phase ≡ exited) ⊎ ((p.phase ≡ top) × (p.thread_stop ≡ true))

  step-thread_stop :
      (a : Action Callback) (p : ResponsePump Callback) (phase : Phase)
      → p.phase ≡ phase
      → p.thread_stop ≡ true
      → (step a p).thread_stop ≡ true
  unfolding step thread_step
  step-thread_stop (add_channel c callback) p phase at s = s
  step-thread_stop (remove_channel c) p phase at s = s
  step-thread_stop stop p phase at s = refl
  step-thread_stop take_names p top at s =
      simp at (look-thread_stop (names p.callbacks) p p.thread_stop ∙ s)
  step-thread_stop take_names p (receiving ns) at s = simp at s
  step-thread_stop take_names p exited at s = simp at s
  step-thread_stop (reply c m) p top at s = simp at s
  step-thread_stop (reply c m) p (receiving ns) at s = simp at ((receive-same c m p).0 ∙ s)
  step-thread_stop (reply c m) p exited at s = simp at s

  run-thread_stop :
      (actions : List (Action Callback)) (p : ResponsePump Callback)
      → p.thread_stop ≡ true
      → (run actions p).thread_stop ≡ true
  unfolding run
  run-thread_stop [] p s = s
  run-thread_stop (a ∷ actions) p s =
      run-thread_stop actions (step a p) (step-thread_stop a p p.phase refl s)

  run-append :
      (xs ys : List (Action Callback)) (p : ResponsePump Callback)
      → run (xs ++ ys) p ≡ run ys (run xs p)
  unfolding run
  run-append [] ys p = refl
  run-append (a ∷ xs) ys p = run-append xs ys (step a p)

  -- A thread that has returned does nothing more.
  abbrev pub IsOver : ResponsePump Callback → ResponsePump Callback → Type ℓ
  IsOver p q = (q.phase ≡ exited) × (q.tasks ≡ p.tasks) × (q.dropped ≡ p.dropped)

  step-IsOver :
      (a : Action Callback) (p : ResponsePump Callback) → p.phase ≡ exited → IsOver p (step a p)
  unfolding step thread_step
  step-IsOver (add_channel c callback) p at = (at, refl, refl)
  step-IsOver (remove_channel c) p at = (at, refl, refl)
  step-IsOver stop p at = (at, refl, refl)
  step-IsOver take_names p at = simp at (refl, refl, refl)
  step-IsOver (reply c m) p at = simp at (refl, refl, refl)

  run-IsOver :
      (actions : List (Action Callback)) (p : ResponsePump Callback)
      → p.phase ≡ exited
      → IsOver p (run actions p)
  unfolding run
  run-IsOver [] p at = (at, refl, refl)
  run-IsOver (a ∷ actions) p at =
      let (at', t, d) = step-IsOver a p at in
      let (over, ts, ds) = run-IsOver actions (step a p) at' in (over, ts ∙ t, ds ∙ d)

  take_names-exits : (p : ResponsePump Callback) → IsEnding p → (step take_names p).phase ≡ exited
  unfolding step thread_step
  take_names-exits p (inl at) = simp at refl
  take_names-exits p (inr (at, s)) = simp at (look-stops (names p.callbacks) p p.thread_stop s)

  step-IsEnding :
      (a : Action Callback) (p : ResponsePump Callback) → IsEnding p → IsEnding (step a p)
  unfolding step thread_step
  step-IsEnding (add_channel c callback) p e = e
  step-IsEnding (remove_channel c) p e = e
  step-IsEnding stop p (inl at) = inl at
  step-IsEnding stop p (inr (at, s)) = inr (at, refl)
  step-IsEnding take_names p e = inl (take_names-exits p e)
  step-IsEnding (reply c m) p (inl at) = inl (simp at refl)
  step-IsEnding (reply c m) p (inr (at, s)) = inr (simp at refl, simp at s)

  run-IsEnding :
      (actions : List (Action Callback)) (p : ResponsePump Callback)
      → IsEnding p
      → IsEnding (run actions p)
  unfolding run
  run-IsEnding [] p e = e
  run-IsEnding (a ∷ actions) p e = run-IsEnding actions (step a p) (step-IsEnding a p e)

  reply-IsEnding :
      (c m : Bytes) (p : ResponsePump Callback) (phase : Phase)
      → p.phase ≡ phase
      → p.thread_stop ≡ true
      → IsEnding (step (reply c m) p)
  unfolding step thread_step
  reply-IsEnding c m p top at s = inr (simp at refl, simp at s)
  reply-IsEnding c m p exited at s = inl (simp at refl)
  reply-IsEnding c m p (receiving ns) at s =
      let (same, at_top) = receive-same c m p in inr (simp at at_top, simp at (same ∙ s))

  -- After the destructor has asked the thread to stop, whatever the handlers do meanwhile, the
  -- thread returns when it next looks at its flag once a ReceiveMany() that was under way has
  -- returned; from then on it hands no callback over and drops no message. The loop, and with it
  -- the join, ends.
  pub stop_ends :
      (before middle after : List (Action Callback)) (c m : Bytes) (p : ResponsePump Callback)
      → let q = run (stop ∷ (before ++ (reply c m ∷ (middle ++ (take_names ∷ []))))) p in
        (q.phase ≡ exited) × IsOver q (run after q)
  unfolding run step
  stop_ends before middle after c m p =
      let p₀ = step stop p in
      let p₁ = run before p₀ in
      let p₂ = run middle (step (reply c m) p₁) in
      let e₁ = reply-IsEnding c m p₁ p₁.phase refl (run-thread_stop before p₀ refl) in
      let ends = take_names-exits p₂ (run-IsEnding middle (step (reply c m) p₁) e₁) in
      let same =
        run-append before (reply c m ∷ (middle ++ (take_names ∷ []))) p₀
        ∙ run-append middle (take_names ∷ []) (step (reply c m) p₁) in
      let at = ap (λ (q : ResponsePump Callback). q.phase) same ∙ ends in
      (at, run-IsOver after _ at)
