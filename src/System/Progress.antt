-- ===== src/System/Progress.antt =====
-- From a message on the channel of a request that waits for it, to the request that has it: the
-- steps of the pump's thread and of its task.
use iis_asgi_handler.Prelude.{
  ℕ, ◌<◌, ◌^◌, ◌≡◌, ◌≢◌, refl, sym, ap, subst, ◌∙◌, inl, inr, Bool, true, false, List, [], ◌∷◌,
  ◌++◌, Option, some, Bytes, length, ok, err, Result, Returns,
}
use iis_asgi_handler.Iis.{Iis, Lawful}
use iis_asgi_handler.Channels.{Engine}
use iis_asgi_handler.Messages.{AsgiHttpResponseMsg}
use iis_asgi_handler.Request.{RawRequest}
use iis_asgi_handler.Pump.{
  Phase, top, receiving, exited, ResponsePump, take_names, reply, find_callback, names, look,
  receive, thread_step, step,
}
use iis_asgi_handler.Pump.Round.{found-Among}
use iis_asgi_handler.Redis.Delivery.{Among}
use iis_asgi_handler.Http.{awaiting}
use iis_asgi_handler.Http.Connection.{Connection, response_received, handle}
use iis_asgi_handler.System.{
  System, looks, receives, receives_nothing, runs_task, Reachable, after, received_from, called,
}
use iis_asgi_handler.System.Requests.{response-received}
use iis_asgi_handler.System.Views.{tasks_of}
use iis_asgi_handler.System.Sound.{set_same}
use iis_asgi_handler.System.Handing.{handed, chan_not_empty}
use iis_asgi_handler.System.Reached.{AreRequests, reachable-Sound}
use iis_asgi_handler.System.Delivery.{none_forgotten, task_finds_its_step}

-- The thread finds the channel's name.
looking :
    (k : Bytes) (ns : List Bytes) (p : ResponsePump ℕ) (b : Bool)
    → b ≡ false
    → Among k ns
    → look b ns p ≡ record p { phase = receiving ns }
unfolding look
looking k [] p b e a = absurd a
looking k (n ∷ ns) p true e a = absurd (cc)
looking k (n ∷ ns) p false e a = refl

pub take_names-receiving :
    (p : ResponsePump ℕ) (k : Bytes)
    → p.phase ≡ top
    → p.thread_stop ≡ false
    → Among k (names p.callbacks)
    → step take_names p ≡ record p { phase = receiving (names p.callbacks) }
unfolding step thread_step
take_names-receiving p k at_top goes_on a =
    simp (at_top) (looking k (names p.callbacks) p p.thread_stop goes_on a)

pub reply-nothing :
    (p : ResponsePump ℕ) (ns : List Bytes)
    → p.phase ≡ receiving ns
    → step (reply [] []) p ≡ record p { phase = top; delay = 10 }
unfolding step thread_step receive
reply-nothing p ns at_reply = simp (at_reply) refl

returned_value : {A : Type 0} (P : A → Type 0) (m : Result A) → Returns P m → (a : A) × (m ≡ ok a)
returned_value P (ok a) r = (a, refl)
returned_value P (err e) r = absurd r

module _ (iis : Iis) (law : Lawful iis) (engine : Engine) (to_bytes : List ℕ → Bytes) (fuel : ℕ)
    (unpack : Bytes → Option AsgiHttpResponseMsg) (raw : ℕ → RawRequest) (random : ℕ → engine.State)
    (world : ℕ → iis.World) (count : ℕ)
    (requests : AreRequests iis law engine to_bytes fuel unpack raw random world count) where
  abbrev Reaches : System iis → Type 0
  Reaches = Reachable iis law engine to_bytes fuel unpack raw random world count

  -- The task runs.
  abbrev pub Ends : ℕ → Connection iis → AsgiHttpResponseMsg → Type 0
  Ends i c m =
      (s' : System iis) × (c' : Connection iis) × Reaches s'
      × (s'.connections i ≡ some c')
      × (c'.received ≡ c.received ++ m ∷ [])

  module _ (i : ℕ) (channel message : Bytes) (m : AsgiHttpResponseMsg) (c : Connection iis)
      (lt : i < count) (unpacked : unpack message ≡ some m)
      (short : length m.content < 2 ^ 32) where
    task-Ends :
        (s : System iis) (before : List (Bytes × ℕ × Bytes))
        → Reaches s
        → s.connections i ≡ some c
        → s.pump.tasks ≡ before ++ (channel, i, message) ∷ []
        → Ends i c m
    unfolding called
    task-Ends s before r has at =
        let (d, has', _, en, runs) =
          task_finds_its_step iis law engine to_bytes fuel unpack raw random world count requests i
            channel message m before [] lt r at short in
        let (c', e) = returned_value _ (handle iis fuel (response_received channel m) [] d) runs in
        let same : d ≡ c = cc in
        (
          called i c' (before ++ []) s,
          c',
          after r (runs_task i channel message before [] at has' unpacked short en e),
          set_same i c' s,
          (response-received iis fuel channel m d c' e).0
              ∙ ap (λ (x : Connection iis). x.received ++ m ∷ []) same,
        )

    module _ (rest : List Bytes) where
      -- The thread is at the top of its loop.
      top-Ends :
          (s : System iis)
          → Reaches s
          → s.connections i ≡ some c
          → channel ≢ []
          → s.pump.phase ≡ top
          → s.pump.thread_stop ≡ false
          → find_callback channel s.pump.callbacks ≡ some i
          → s.layer channel ≡ message ∷ rest
          → Ends i c m
      unfolding received_from
      top-Ends s r has ne at_top goes_on found oldest =
          let among = found-Among channel s.pump.callbacks found in
          let p = record s.pump { phase = receiving (names s.pump.callbacks) } in
          let r₁ =
            subst (λ q. Reaches (record s { pump = q }))
              (take_names-receiving s.pump channel at_top goes_on among) (after r (looks at_top)) in
          let r₂ =
            after r₁ (receives (names s.pump.callbacks) channel message rest refl among oldest) in
          task-Ends (received_from channel message rest (record s { pump = p })) s.pump.tasks r₂ has
            (ap (λ (q : ResponsePump ℕ). q.tasks)
              (handed channel message (names s.pump.callbacks) p ne refl found))

      from-Ends :
          (s : System iis) (phase : Phase)
          → s.pump.phase ≡ phase
          → Reaches s
          → s.connections i ≡ some c
          → channel ≢ []
          → phase ≢ exited
          → s.pump.thread_stop ≡ false
          → find_callback channel s.pump.callbacks ≡ some i
          → s.layer channel ≡ message ∷ rest
          → Ends i c m
      from-Ends s top at r has ne goes_on not_stopped found oldest =
          top-Ends s r has ne at not_stopped found oldest
      from-Ends s exited at r has ne goes_on not_stopped found oldest = absurd (goes_on refl)
      from-Ends s (receiving ns) at r has ne goes_on not_stopped found oldest =
          let r₁ =
            subst (λ q. Reaches (record s { pump = q })) (reply-nothing s.pump ns at)
              (after r (receives_nothing ns at)) in
          top-Ends (record s { pump = record s.pump { phase = top; delay = 10 } }) r₁ has ne refl
            not_stopped found oldest

  -- A message on the channel that a request waits for can always be delivered, unless the pump is
  -- stopping: if it can be unpacked, has less than 4 GB, and no task of the request is under way
  -- already, then there are steps of the system after which the request has received just this
  -- message more. The requests have bodies smaller than 4 GB and than the fuel, and different reply
  -- channels.
  pub can_be_delivered :
      {s : System iis} (i : ℕ) (channel message : Bytes) (rest : List Bytes)
      {m : AsgiHttpResponseMsg} {c : Connection iis}
      → Reaches s
      → s.pump.thread_stop ≡ false
      → s.pump.phase ≢ exited
      → s.connections i ≡ some c
      → c.env.waiting ≡ awaiting channel ∷ []
      → tasks_of i s.pump.tasks ≡ []
      → s.layer channel ≡ message ∷ rest
      → unpack message ≡ some m
      → length m.content < 2 ^ 32
      → Ends i c m
  can_be_delivered {s} i channel message rest {m} {c} r not_stopped goes_on has w free oldest
        unpacked short =
      let (same, _, state) =
        none_forgotten iis law engine to_bytes fuel unpack raw random world count requests i channel
          r has w in
      let lt =
        (reachable-Sound iis law engine to_bytes fuel unpack raw random world count requests r).came
          i c has in
      elim state [
        | inl (found, _) ↦
            from-Ends i channel message m c lt unpacked short rest s s.pump.phase refl r has
              (λ e.
                chan_not_empty iis law engine to_bytes fuel unpack raw random world count i
                  (sym same ∙ e))
              goes_on not_stopped found oldest
        | inr (_, _, busy) ↦ absurd (cc)
      ]
