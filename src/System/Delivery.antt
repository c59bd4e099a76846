-- ===== src/System/Delivery.antt =====
-- What becomes of every message that the application sends to any of the requests, whatever happens
-- in the system and in whatever order.
use iis_asgi_handler.Prelude.{
  ℕ, ◌<◌, ◌^◌, ◌≡◌, refl, sym, ap, ◌∙◌, ◌⊎◌, inl, inr, List, [], ◌∷◌, ◌++◌, map, Option, none, some,
  Bytes, length, Returns,
}
use iis_asgi_handler.Iis.{Iis, Lawful}
use iis_asgi_handler.Channels.{Engine}
use iis_asgi_handler.Messages.{AsgiHttpResponseMsg}
use iis_asgi_handler.Request.{RawRequest}
use iis_asgi_handler.Pump.{find_callback}
use iis_asgi_handler.Http.{Waiting, awaiting}
use iis_asgi_handler.Http.Called.{IsEnabled}
use iis_asgi_handler.Http.Connection.{Connection, response_received, handle}
use iis_asgi_handler.Http.Invariant.{Inv}
use iis_asgi_handler.Http.Lifecycle.{handle-Inv}
use iis_asgi_handler.Http.Reach.{asgi_request}
use iis_asgi_handler.Http.Start.{http_request_msg}
use iis_asgi_handler.System.{System, Reachable}
use iis_asgi_handler.System.Views.{tasks_of, received_of, Waits, messages, tasks_of-own, task-Mode}
use iis_asgi_handler.System.Sound.{Sound}
use iis_asgi_handler.System.Reached.{channel_of, AreRequests, Reached-Inv, reachable-Sound}

module _ (iis : Iis) (law : Lawful iis) (engine : Engine) (to_bytes : List ℕ → Bytes) (fuel : ℕ)
    (unpack : Bytes → Option AsgiHttpResponseMsg) (raw : ℕ → RawRequest) (random : ℕ → engine.State)
    (world : ℕ → iis.World) (count : ℕ)
    (requests : AreRequests iis law engine to_bytes fuel unpack raw random world count) where
  abbrev chan : ℕ → Bytes
  chan = channel_of iis law engine to_bytes fuel unpack raw random world count

  abbrev Reaches : System iis → Type 0
  Reaches = Reachable iis law engine to_bytes fuel unpack raw random world count

  sound :
      {s : System iis}
      → Reaches s
      → Sound iis law engine to_bytes fuel unpack raw random world count s
  sound r = reachable-Sound iis law engine to_bytes fuel unpack raw random world count requests r

  -- Whatever happens, and in whatever order, the messages that a request has received, then the one
  -- in its task if it has one, then those still on its reply channel, are just the messages that
  -- were ever put on that channel, in the order in which they were: none is lost, doubled,
  -- overtaken or given to another request. The requests have bodies smaller than 4 GB and than the
  -- fuel and different reply channels, which nobody else registers, a message does not expire on its
  -- channel, and every task of a request so far could unpack its message.
  pub messages_kept :
      {s : System iis} (i : ℕ)
      → i < count
      → Reaches s
      → map some (received_of (s.connections i))
          ++ map unpack (messages (tasks_of i s.pump.tasks) ++ s.layer (chan i))
        ≡ map unpack (s.history (chan i))
  messages_kept i lt r = ((sound r).views i lt).kept

  -- What the task of a callback finds: the connection of the request that registered it, waiting for
  -- just this message, and its call, up to the post, leaves the connection's invariant.
  abbrev pub IsCalledBack : System iis → ℕ → Bytes → AsgiHttpResponseMsg → Type 0
  IsCalledBack s i channel m =
      (c : Connection iis) × (s.connections i ≡ some c)
      × (channel ≡ chan i)
      × IsEnabled iis law (response_received channel m) [] c.env
      × Returns
          (Inv iis law (asgi_request iis law engine to_bytes fuel (raw i) (random i) (world i)))
          (handle iis fuel (response_received channel m) [] c)

  -- A callback that is handed to the thread pool captured its step by a bare pointer. Whenever the
  -- task starts, with a message of less than 4 GB, the step is still there: its connection waits for
  -- a message on the task's channel, which is its reply channel, and the step takes the message and
  -- the completion is posted without an error. What the callback does once it has posted, a line of
  -- the log that still reads the step, is not part of this. The requests have bodies smaller than
  -- 4 GB and than the fuel, and different reply channels.
  pub task_finds_its_step :
      {s : System iis} (i : ℕ) (channel message : Bytes) (m : AsgiHttpResponseMsg)
      (before later : List (Bytes × ℕ × Bytes))
      → i < count
      → Reaches s
      → s.pump.tasks ≡ before ++ (channel, i, message) ∷ later
      → length m.content < 2 ^ 32
      → IsCalledBack s i channel m
  unfolding http_request_msg
  task_finds_its_step {s} i channel message m before later lt r at short =
      let v = (sound r).views i lt in
      let (w, _, _, _, same) =
        task-Mode i (chan i) (s.connections i) _ _ channel message (tasks_of i before)
          (tasks_of i later) v.mode
          (ap (tasks_of i) at ∙ tasks_of-own i channel message before later) in
      found (s.connections i) refl same w
    where
      found :
          (o : Option (Connection iis))
          → s.connections i ≡ o
          → channel ≡ chan i
          → Waits (chan i) o
          → IsCalledBack s i channel m
      found none e same w = absurd w
      found (some c) e same w =
          let en : IsEnabled iis law (response_received channel m) [] c.env = record {
            before = [];
            after = [];
            waits = w ∙ ap (λ k. awaiting k ∷ []) (sym same);
            others = refl;
            allowed = short;
          } in
          (
            c,
            e,
            same,
            en,
            handle-Inv iis law _ fuel (requests.enough i) requests.rounds
                (response_received channel m) [] c
                (Reached-Inv iis law engine to_bytes fuel unpack raw random world count requests i
                  (((sound r).views i lt).reached c e))
                en,
          )

  -- A request that waits for a message is never forgotten: its channel is registered for it and it
  -- has no task, or it is not and the request has just one task, on that channel. The pump has not
  -- dropped any message. The requests have bodies smaller than 4 GB and than the fuel, and different
  -- reply channels.
  pub none_forgotten :
      {s : System iis} (i : ℕ) (channel : Bytes) {c : Connection iis}
      → Reaches s
      → s.connections i ≡ some c
      → c.env.waiting ≡ awaiting channel ∷ []
      → (channel ≡ chan i)
        × (s.pump.dropped ≡ [])
        × (((find_callback channel s.pump.callbacks ≡ some i) × (tasks_of i s.pump.tasks ≡ []))
            ⊎ ((find_callback channel s.pump.callbacks ≡ none)
                × (message : Bytes) × (tasks_of i s.pump.tasks ≡ (channel, message) ∷ [])))
  none_forgotten {s} i channel {c} r at w =
      let h = sound r in
      elim ((h.views i (h.came i c at)).mode) [
        | inl (q, _, _) ↦ absurd ((rw at at q) channel w)
        | inr (inl (w', f, t)) ↦
            let same = same_channel (w) (rw at at w') in (same, h.none_dropped, inl (rw same f, t))
        | inr (inr (w', f, m, t)) ↦
            let same = same_channel w (rw at at w') in
            (same, h.none_dropped, inr (rw same f, m, rw same t))
      ]
    where
      same_channel :
          {k : Bytes} {l : List Waiting}
          → l ≡ awaiting channel ∷ []
          → l ≡ awaiting k ∷ []
          → channel ≡ k
      same_channel p q = cc
