-- ===== src/Pump/Dispatch.antt =====
-- What a reply does to the callbacks, and when a reply is lost.
use mathlib.Core.Logic.{ite, if_pos, if_neg}
use iis_asgi_handler.Prelude.{
  ℕ, Bool, ◌≡◌, ◌≢◌, refl, ap, ◌∙◌, inl, inr, true, false, List, [], ◌∷◌, ◌++◌, none, some, Bytes,
  Bytes-discrete, Option-cases, arith,
}
use iis_asgi_handler.Pump.{
  Phase, top, receiving, ResponsePump, Action, add_channel, remove_channel, take_names, reply, stop,
  find_callback, set_callback, erase_callback, names, dispatch, look, receive, thread_step, step,
  run,
}

module _ {ℓ} {Callback : Type ℓ} where
  -- The laws of the map.
  pub find-set :
      (c k : Bytes) (callback : Callback) (m : List (Bytes × Callback))
      → find_callback c (set_callback k callback m)
        ≡ ite (Bytes-discrete k c) (some callback) (find_callback c m)
  unfolding find_callback set_callback
  find-set c k callback [] = refl
  find-set c k callback ((j, old) ∷ m) = ground (arith, find-set c k callback m)

  pub find-erase :
      (c k : Bytes) (m : List (Bytes × Callback))
      → find_callback c (erase_callback k m) ≡ ite (Bytes-discrete k c) none (find_callback c m)
  unfolding find_callback erase_callback
  find-erase c k [] = ground arith
  find-erase c k ((j, old) ∷ m) = ground (arith, find-erase c k m)

  -- The action neither removes the channel nor brings a reply on it.
  abbrev pub Spares : Bytes → Action Callback → Type 0
  Spares c (remove_channel k) = k ≢ c
  Spares c (reply k message) = k ≢ c
  Spares c _ = Unit {0}

  abbrev pub AllSpare : Bytes → List (Action Callback) → Type 0
  AllSpare c [] = Unit {0}
  AllSpare c (a ∷ actions) = Spares c a × AllSpare c actions

  abbrev pub Registered : Bytes → ResponsePump Callback → Type ℓ
  Registered c p = (callback : Callback) × (find_callback c p.callbacks ≡ some callback)

  set-Registered :
      (c k : Bytes) (callback : Callback) (p : ResponsePump Callback)
      → Registered c p
      → Registered c (record p { callbacks = set_callback k callback p.callbacks })
  set-Registered c k callback p (old, e) = elim (Bytes-discrete k c) [
    | yes same ↦ (
      callback,
      find-set c k callback p.callbacks
          ∙ if_pos (Bytes-discrete k c) same (some callback) (find_callback c p.callbacks),
    )
    | no other ↦ (
      old,
      find-set c k callback p.callbacks
          ∙ if_neg (Bytes-discrete k c) other (some callback) (find_callback c p.callbacks)
          ∙ e,
    )
  ]

  erase-Registered :
      (c k : Bytes) (m : List (Bytes × Callback)) {callback : Callback}
      → k ≢ c
      → find_callback c m ≡ some callback
      → find_callback c (erase_callback k m) ≡ some callback
  erase-Registered c k m other e =
      find-erase c k m ∙ if_neg (Bytes-discrete k c) other none (find_callback c m) ∙ e

  look_callbacks :
      (b : Bool) (ns : List Bytes) (p : ResponsePump Callback)
      → (look b ns p).callbacks ≡ p.callbacks
  unfolding look
  look_callbacks true ns p = refl
  look_callbacks false [] p = refl
  look_callbacks false (n ∷ ns) p = refl

  receive-Registered :
      (c k message : Bytes) (p : ResponsePump Callback)
      → k ≢ c
      → Registered c p
      → Registered c (receive k message p)
  unfolding receive dispatch
  receive-Registered c [] message p other r = r
  receive-Registered c (x ∷ k) message p other (callback, e) =
      elim (Option-cases (find_callback (x ∷ k) p.callbacks)) [
        | inl missing ↦ rw (missing, dispatch) (callback, e)
        | inr (_, found) ↦
            rw (found, dispatch) (callback, erase-Registered c (x ∷ k) p.callbacks other e)
      ]

  thread_step-Registered :
      (c : Bytes) (phase : Phase) (a : Action Callback) (p : ResponsePump Callback)
      → Spares c a
      → Registered c p
      → Registered c (thread_step phase a p)
  unfolding thread_step
  thread_step-Registered c top take_names p h (callback, e) =
      (callback, ap (find_callback c) (look_callbacks p.thread_stop (names p.callbacks) p) ∙ e)
  thread_step-Registered c (receiving ns) (reply k message) p h r =
      receive-Registered c k message p h r
  thread_step-Registered c _ _ p h r = r

  -- A registration stays until its channel is removed or replied on.
  step-Registered :
      (c : Bytes) (a : Action Callback) (p : ResponsePump Callback)
      → Spares c a
      → Registered c p
      → Registered c (step a p)
  unfolding step
  step-Registered c (add_channel k callback) p h r = set-Registered c k callback p r
  step-Registered c (remove_channel k) p h (callback, e) =
      (callback, erase-Registered c k p.callbacks h e)
  step-Registered c stop p h r = r
  step-Registered c take_names p h r = thread_step-Registered c p.phase take_names p h r
  step-Registered c (reply k message) p h r =
      thread_step-Registered c p.phase (reply k message) p h r

  pub run-Registered :
      (c : Bytes) (actions : List (Action Callback)) (p : ResponsePump Callback)
      → AllSpare c actions
      → Registered c p
      → Registered c (run actions p)
  unfolding run
  run-Registered c [] p h r = r
  run-Registered c (a ∷ actions) p h r =
      run-Registered c actions (step a p) h.1 (step-Registered c a p h.0 r)

  -- A reply that finds a callback while the thread receives.
  pub reply_found :
      (x : ℕ) (c message : Bytes) (ns : List Bytes) (q : ResponsePump Callback)
      {callback : Callback}
      → q.phase ≡ receiving ns
      → find_callback (x ∷ c) q.callbacks ≡ some callback
      → step (reply (x ∷ c) message) q ≡ record q {
        callbacks = erase_callback (x ∷ c) q.callbacks;
        phase = top;
        delay = 0;
        tasks = q.tasks ++ (x ∷ c, callback, message) ∷ [];
      }
  unfolding step dispatch
  reply_found x c message ns q at_reply found = at q.phase at_reply ∙ rw (found, dispatch) refl
    where
      at :
          (phase : Phase)
          → phase ≡ receiving ns
          → thread_step phase (reply (x ∷ c) message) q ≡ dispatch (x ∷ c) message q
      at phase e = rw e refl

  -- A channel that was registered, and since then neither removed nor replied on, has a callback
  -- when a reply comes while the thread receives: the callback is handed to the thread pool with
  -- the message, nothing is dropped, and of all registrations just this one is gone.
  pub reply_reaches_callback :
      (c message : Bytes) (ns : List Bytes) (actions : List (Action Callback))
      (p : ResponsePump Callback)
      → c ≢ []
      → Registered c p
      → AllSpare c actions
      → (run actions p).phase ≡ receiving ns
      → let q = run actions p in
        let q' = step (reply c message) q in
        (callback : Callback) × (find_callback c q.callbacks ≡ some callback)
        × (q'.tasks ≡ q.tasks ++ (c, callback, message) ∷ [])
        × (q'.dropped ≡ q.dropped)
        × ((k : Bytes)
            → find_callback k q'.callbacks
              ≡ ite (Bytes-discrete c k) none (find_callback k q.callbacks))
  reply_reaches_callback [] message ns actions p ne r h at_reply = absurd (ne refl)
  reply_reaches_callback (x ∷ c) message ns actions p ne r h at_reply =
      let (callback, e) = run-Registered (x ∷ c) actions p h r in
      let eq = reply_found x c message ns (run actions p) at_reply e in
      (
        callback,
        e,
        ap (λ (q : ResponsePump Callback). q.tasks) eq,
        ap (λ (q : ResponsePump Callback). q.dropped) eq,
        λ k.
            ap (λ (q : ResponsePump Callback). find_callback k q.callbacks) eq
            ∙ find-erase k (x ∷ c) (run actions p).callbacks,
      )
