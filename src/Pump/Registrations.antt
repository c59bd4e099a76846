-- ===== src/Pump/Registrations.antt =====
-- How often ResponsePump calls the callbacks of a channel, over any run.
use mathlib.Core.Logic.{ite}
use iis_asgi_handler.Prelude.{
  ℕ, ◌+◌, ◌≤◌, ◌≡◌, sym, ap, ◌∙◌, inl, inr, true, false, Bool, List, [], ◌∷◌, ◌++◌, Option,
  Option-cases, none, some, Bytes, Bytes-discrete, arith,
}
use iis_asgi_handler.Pump.{
  Phase, top, receiving, ResponsePump, Action, add_channel, remove_channel, take_names, reply, stop,
  find_callback, erase_callback, names, dispatch, look, receive, thread_step, step, run,
}
use iis_asgi_handler.Pump.Dispatch.{find-set, find-erase}

module _ {ℓ} {Callback : Type ℓ} where
  -- How often the channel was registered, and how often a callback of its was called.
  pub adds : Bytes → List (Action Callback) → ℕ
  adds c [] = 0
  adds c (add_channel k callback ∷ actions) =
      let n = adds c actions in ite (Bytes-discrete k c) (n + 1) n
  adds c (a ∷ actions) = adds c actions

  pub calls : Bytes → List (Bytes × Callback × Bytes) → ℕ
  calls c [] = 0
  calls c ((k, callback, message) ∷ tasks) =
      let n = calls c tasks in ite (Bytes-discrete k c) (n + 1) n

  -- 1 if the channel is registered, 0 if not.
  abbrev pub is_registered : Option Callback → ℕ
  is_registered none = 0
  is_registered (some callback) = 1

  calls-append :
      (c : Bytes) (ts us : List (Bytes × Callback × Bytes))
      → calls c (ts ++ us) ≡ calls c ts + calls c us
  unfolding calls
  calls-append c [] us = omega arith
  calls-append c ((k, callback, message) ∷ ts) us = ground (arith, calls-append c ts us)

  abbrev credit : Bytes → ResponsePump Callback → ℕ
  credit c p = calls c p.tasks + is_registered (find_callback c p.callbacks)

  erased_credit :
      {P : Type 0} (d : Dec P) (o : Option Callback)
      → is_registered (ite d none o) ≤ is_registered o
  erased_credit (yes same) o = omega arith
  erased_credit (no other) o = omega arith

  used_credit :
      {P : Type 0} (d : Dec P) (o : Option Callback)
      → (P → is_registered o ≡ 1)
      → ite d 1 0 + is_registered (ite d none o) ≤ is_registered o
  used_credit (yes same) o h = let e = h same in omega arith
  used_credit (no other) o h = omega arith

  added_credit :
      {P : Type 0} (d : Dec P) (callback : Callback) (o : Option Callback)
      → is_registered (ite d (some callback) o) ≤ is_registered o + ite d 1 0
  added_credit (yes same) callback o = omega arith
  added_credit (no other) callback o = omega arith

  handed_over :
      (c k message : Bytes) (callback : Callback) (p : ResponsePump Callback)
      → find_callback k p.callbacks ≡ some callback
      → calls c (p.tasks ++ (k, callback, message) ∷ [])
          + is_registered (find_callback c (erase_callback k p.callbacks))
        ≤ credit c p
  unfolding calls
  handed_over c k message callback p found =
      let h = used_credit (Bytes-discrete k c) (find_callback c p.callbacks) (λ same.
        ap (λ (b : Bytes). is_registered (find_callback b p.callbacks)) (sym same)
        ∙ ap is_registered found) in
      rw (calls-append c p.tasks ((k, callback, message) ∷ []), find-erase c k p.callbacks)
        (omega arith)

  credit-dispatch :
      (c k message : Bytes) (p : ResponsePump Callback)
      → credit c (dispatch k message p) ≤ credit c p
  unfolding dispatch
  credit-dispatch c k message p = elim (Option-cases (find_callback k p.callbacks)) [
    | inl missing ↦ rw (missing, dispatch) (omega arith)
    | inr (callback, found) ↦ rw (found, dispatch) (handed_over c k message callback p found)
  ]

  credit-look :
      (c : Bytes) (b : Bool) (ns : List Bytes) (p : ResponsePump Callback)
      → credit c (look b ns p) ≤ credit c p
  unfolding look
  credit-look c true ns p = omega arith
  credit-look c false [] p = omega arith
  credit-look c false (n ∷ ns) p = omega arith

  credit-thread_step :
      (c : Bytes) (phase : Phase) (a : Action Callback) (p : ResponsePump Callback)
      → credit c (thread_step phase a p) ≤ credit c p
  unfolding thread_step receive
  credit-thread_step c top take_names p = credit-look c p.thread_stop (names p.callbacks) p
  credit-thread_step c (receiving ns) (reply [] message) p = omega arith
  credit-thread_step c (receiving ns) (reply (x ∷ k) message) p =
      credit-dispatch c (x ∷ k) message p
  credit-thread_step c _ _ p = omega arith

  credit-step :
      (c : Bytes) (a : Action Callback) (p : ResponsePump Callback)
      → credit c (step a p) ≤ credit c p + adds c (a ∷ [])
  unfolding step adds
  credit-step c (add_channel k callback) p = rw (find-set c k callback p.callbacks) (
      let h = added_credit (Bytes-discrete k c) callback (find_callback c p.callbacks) in
      omega arith)
  credit-step c (remove_channel k) p =
      rw (find-erase c k p.callbacks)
        (let h = erased_credit (Bytes-discrete k c) (find_callback c p.callbacks) in omega arith)
  credit-step c stop p = omega arith
  credit-step c take_names p = let h = credit-thread_step c p.phase take_names p in omega arith
  credit-step c (reply k message) p =
      let h = credit-thread_step c p.phase (reply k message) p in omega arith

  adds-cons :
      (c : Bytes) (a : Action Callback) (actions : List (Action Callback))
      → adds c (a ∷ actions) ≡ adds c (a ∷ []) + adds c actions
  unfolding adds
  adds-cons c (add_channel k callback) actions = ground arith
  adds-cons c (remove_channel k) actions = omega arith
  adds-cons c take_names actions = omega arith
  adds-cons c (reply k message) actions = omega arith
  adds-cons c stop actions = omega arith

  credit-run :
      (c : Bytes) (actions : List (Action Callback)) (p : ResponsePump Callback)
      → credit c (run actions p) ≤ credit c p + adds c actions
  unfolding run adds
  credit-run c [] p = omega arith
  credit-run c (a ∷ actions) p =
      let h = credit-run c actions (step a p) in
      let k = credit-step c a p in let e = adds-cons c a actions in omega arith

  -- From a pump without registrations, whatever the handlers and the application do, a channel's
  -- callbacks are called no more often than the channel was added; a registration that is still
  -- in place was not used.
  pub called_once_per_registration :
      (c : Bytes) (actions : List (Action Callback)) (p : ResponsePump Callback)
      → p.callbacks ≡ []
      → p.tasks ≡ []
      → let q = run actions p in
        calls c q.tasks + is_registered (find_callback c q.callbacks) ≤ adds c actions
  unfolding calls find_callback
  called_once_per_registration c actions p none_yet no_tasks =
      let h = credit-run c actions p in
      let e = ap (λ (m : List (Bytes × Callback)). is_registered (find_callback c m)) none_yet in
      let f = ap (calls c) no_tasks in omega arith
