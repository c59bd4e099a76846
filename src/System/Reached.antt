-- ===== src/System/Reached.antt =====
-- Every state that the system reaches, from before the first request on.
use iis_asgi_handler.Prelude.{
  ℕ, ◌<◌, ◌^◌, ◌≡◌, refl, ◌∙◌, inl, inr, List, [], Option, Bytes, length,
}
use iis_asgi_handler.Iis.{Iis, Lawful}
use iis_asgi_handler.Channels.{Engine}
use iis_asgi_handler.Messages.{AsgiHttpResponseMsg}
use iis_asgi_handler.Request.{RawRequest}
use iis_asgi_handler.Http.Connection.{Connection, response_received}
use iis_asgi_handler.Http.Invariant.{Inv}
use iis_asgi_handler.Http.Reach.{Reach, asgi_request, Reach-Inv}
use iis_asgi_handler.System.{
  System, Step, arrives, happens, sends, looks, receives, receives_nothing, stops, runs_task,
  others_register, runs_others, Reachable, begin, after, returned,
}
use iis_asgi_handler.System.Requests.{
  Inv-Registers, handle-received, response-received, start-received, local-IsQuiet,
}
use iis_asgi_handler.System.Views.{received_of, QuietOr}
use iis_asgi_handler.System.Sound.{Sound, initial-Sound, stays-Sound, joins-Sound}
use iis_asgi_handler.System.Dispatching.{sent-Sound, looks-Sound, nothing-Sound, stop-Sound}
use iis_asgi_handler.System.Others.{others_registered-Sound, others_ran-Sound}
use iis_asgi_handler.System.Handing.{received-Sound, called-Sound}

module _ (iis : Iis) (law : Lawful iis) (engine : Engine) (to_bytes : List ℕ → Bytes) (fuel : ℕ)
    (unpack : Bytes → Option AsgiHttpResponseMsg) (raw : ℕ → RawRequest) (random : ℕ → engine.State)
    (world : ℕ → iis.World) (count : ℕ) where
  abbrev pub Reached : ℕ → Connection iis → Type 0
  Reached i = Reach iis law engine to_bytes fuel (raw i) (random i) (world i)

  abbrev pub channel_of : ℕ → Bytes
  channel_of i =
      (asgi_request iis law engine to_bytes fuel (raw i) (random i) (world i)).reply_channel

  abbrev IsSound : System iis → Type 0
  IsSound = Sound iis law engine to_bytes fuel unpack raw random world count

  -- Every request comes with nothing written and a body that is smaller than 4 GB and than the fuel,
  -- and no two have the same reply channel.
  pub record AreRequests : Type 0 where
    pub fresh : (i : ℕ) → law.written (world i) ≡ []
    pub small : (i : ℕ) → length (law.entity (world i)) < 2 ^ 32
    pub enough : (i : ℕ) → length (law.entity (world i)) < fuel
    pub rounds : 3 < fuel
    pub distinct : (i j : ℕ) → i < count → j < count → channel_of i ≡ channel_of j → i ≡ j

  module _ (requests : AreRequests) where
    pub Reached-Inv :
        (i : ℕ) {c : Connection iis}
        → Reached i c
        → Inv iis law (asgi_request iis law engine to_bytes fuel (raw i) (random i) (world i)) c
    Reached-Inv i r =
        Reach-Inv iis law engine to_bytes fuel (raw i) (random i) (world i) (requests.fresh i)
          (requests.small i) (requests.enough i) requests.rounds r

    returned-Sound :
        (i : ℕ) (c : Connection iis) (s : System iis)
        → i < count
        → IsSound s
        → QuietOr (s.connections i)
        → Reached i c
        → c.received ≡ received_of (s.connections i)
        → IsSound (returned i c s)
    unfolding returned
    returned-Sound i c s lt h q r same =
        elim (Inv-Registers iis law _ i s.pump c (Reached-Inv i r)) [
          | inl (quiet, e) ↦ rw e (
              stays-Sound iis law engine to_bytes fuel unpack raw random world count
                requests.distinct s h i lt c q r same quiet)
          | inr (w, e) ↦ rw e (
              joins-Sound iis law engine to_bytes fuel unpack raw random world count
                requests.distinct s h i lt c q r same w)
        ]

    step-Sound :
        {s s' : System iis}
        → IsSound s
        → Step iis law engine to_bytes fuel unpack raw random world count s s'
        → IsSound s'
    step-Sound {s} h (arrives {c = c} i lt new e) =
        returned-Sound i c s lt h (rw new tt) (Reach.start e)
          (start-received iis engine to_bytes fuel (raw i) (random i) (world i) c e ∙ rw new refl)
    step-Sound {s} h (happens {c = c} {c' = c'} i event at is_local en e) =
        returned-Sound i c' s (h.came i _ at) h (rw at (local-IsQuiet iis law event c is_local en))
          (Reach.next event [] ((h.views i (h.came i _ at)).reached c at) en e)
          (handle-received iis fuel event c c' is_local e ∙ rw at refl)
    step-Sound {s} h (sends channel m) =
        sent-Sound iis law engine to_bytes fuel unpack raw random world count s h channel m
    step-Sound {s} h (looks at_top) =
        looks-Sound iis law engine to_bytes fuel unpack raw random world count s h at_top
    step-Sound {s} h (receives ns channel m rest at_reply among oldest) =
        received-Sound iis law engine to_bytes fuel unpack raw random world count requests.distinct
          s h ns channel m rest at_reply among oldest
    step-Sound {s} h (receives_nothing ns at_reply) =
        nothing-Sound iis law engine to_bytes fuel unpack raw random world count s h ns at_reply
    step-Sound {s} h stops =
        stop-Sound iis law engine to_bytes fuel unpack raw random world count s h
    step-Sound {s} h (others_register j channel others) =
        others_registered-Sound iis law engine to_bytes fuel unpack raw random world count s h j
          channel others
    step-Sound {s} h (runs_others j channel m before later high at) =
        others_ran-Sound iis law engine to_bytes fuel unpack raw random world count s h j channel m
          before later high at
    step-Sound {s} h
          (runs_task {c = c} {c' = c'} {m = m} i channel b before later at has unpacked short en
            e) =
        let (got, posts) = response-received iis fuel channel m c c' e in
        called-Sound iis law engine to_bytes fuel unpack raw random world count requests.distinct s
          h i (h.came i _ has) c' channel b m before later at unpacked
          (Reach.next (response_received channel m) [] ((h.views i (h.came i _ has)).reached c has)
            en e)
          (got ∙ rw has refl) (λ k w. cc)

    pub reachable-Sound :
        {s : System iis}
        → Reachable iis law engine to_bytes fuel unpack raw random world count s
        → IsSound s
    reachable-Sound (begin {s} init) =
        initial-Sound iis law engine to_bytes fuel unpack raw random world count s init
    reachable-Sound (after r st) = step-Sound (reachable-Sound r) st
