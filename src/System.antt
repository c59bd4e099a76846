-- ===== src/System.antt =====
-- HttpModuleFactory.h's one response pump, with the requests that share it:
-- AsgiHandlerLib/ResponsePump.cpp and HttpRequestHandlerSteps.cpp over any number of connections.
-- Each HttpModule has a RedisChannelLayer of its own, but the channels are the server's, and so
-- one. A request is a number, which is also the `this` that its callback captured.
pub mod Requests
pub mod Views
pub mod Moves
pub mod Sound
pub mod Dispatching
pub mod Others
pub mod Handing
pub mod Reached
pub mod Delivery
pub mod Progress
pub mod OverRedis
pub mod Socket
use mathlib.Core.Logic.{ite}
use iis_asgi_handler.Prelude.{
  ℕ, ◌<◌, ◌≤◌, ◌^◌, ◌≡◌, ◌≢◌, List, [], ◌∷◌, ◌++◌, Option, none, some, Bytes, length, ℕ_discrete,
  ok,
}
use iis_asgi_handler.Iis.{Iis, Lawful}
use iis_asgi_handler.Channels.{Engine}
use iis_asgi_handler.Messages.{AsgiHttpResponseMsg}
use iis_asgi_handler.Request.{RawRequest}
use iis_asgi_handler.Pump.{ResponsePump, top, receiving, add_channel, take_names, reply, stop, step}
use iis_asgi_handler.Redis.Delivery.{Among}
use iis_asgi_handler.Redis.Represents.{Channels, put}
use iis_asgi_handler.Http.{Waiting, awaiting}
use iis_asgi_handler.Http.Called.{IsEnabled}
use iis_asgi_handler.Http.Connection.{Connection, Event, response_received, handle}
use iis_asgi_handler.Http.Reach.{asgi_request}
use iis_asgi_handler.Http.Start.{http_on_execute_request_handler}

-- A request that has not come has no connection. `history` is what was ever put on each channel.
pub record System (iis : Iis) : Type 0 where
  pub connections : ℕ → Option (Connection iis)
  pub pump : ResponsePump ℕ
  pub layer : Channels
  pub history : Channels

-- WaitForResponseStep::Enter() of the handler's call that left this waiting.
unfoldable pub register : ℕ → List Waiting → ResponsePump ℕ → ResponsePump ℕ
register i [] p = p
register i (awaiting channel ∷ ws) p = register i ws (step (add_channel channel i) p)
register i (w ∷ ws) p = register i ws p

-- The callback of the pump is not an event of the handler's own.
abbrev pub IsLocal : {iis : Iis} → Event iis → Type 0
IsLocal (response_received channel m) = ⊥
IsLocal _ = Unit {0}

module _ {iis : Iis} where
  abbrev pub set : ℕ → Connection iis → System iis → ℕ → Option (Connection iis)
  set i c s = λ j. ite (ℕ_discrete j i) (some c) (s.connections j)

  -- A handler's call returned: its connection is `c`, and the channel it now waits for registered.
  unfoldable pub returned : ℕ → Connection iis → System iis → System iis
  returned i c s = record s { connections = set i c s; pump = register i c.env.waiting s.pump }

  -- Send() of whoever answers.
  unfoldable pub sent : (channel message : Bytes) → System iis → System iis
  sent channel message s = record s {
    layer = put channel (s.layer channel ++ message ∷ []) s.layer;
    history = put channel (s.history channel ++ message ∷ []) s.history;
  }

  -- ReceiveMany() gives the pump the channel's oldest message.
  unfoldable pub received_from :
      (channel message : Bytes) (rest : List Bytes) → System iis → System iis
  received_from channel message rest s = record s {
    pump = step (reply channel message) s.pump;
    layer = put channel rest s.layer;
  }

  -- A task of the thread pool has run the callback; the others are left.
  unfoldable pub called : ℕ → Connection iis → List (Bytes × ℕ × Bytes) → System iis → System iis
  called i c others s = record s {
    connections = set i c s;
    pump = record s.pump { tasks = others };
  }

module _ (iis : Iis) (law : Lawful iis) (engine : Engine) (to_bytes : List ℕ → Bytes) (fuel : ℕ)
    (unpack : Bytes → Option AsgiHttpResponseMsg) (raw : ℕ → RawRequest) (random : ℕ → engine.State)
    (world : ℕ → iis.World) (count : ℕ) where
  -- The reply channel of a request.
  abbrev pub channel_of : ℕ → Bytes
  channel_of i =
      (asgi_request iis law engine to_bytes fuel (raw i) (random i) (world i)).reply_channel

  -- A channel and a callback of somebody else's, as a WsWriter is to the requests.
  abbrev pub IsOthers : ℕ → Bytes → Type 0
  IsOthers j channel = (count ≤ j) × (channel ≢ []) × ((i : ℕ) → i < count → channel ≢ channel_of i)

  -- What may happen next, in any order: one of the `count` requests comes; a handler is called back
  -- by IIS or its own task; somebody sends a message on any channel; the pump's thread takes the
  -- names, and ReceiveMany() gives it a message of one of them or nothing; one of the pump's tasks
  -- runs, in no particular order, and unpacks its message. Others use the pump too, on channels of
  -- their own.
  pub data Step : System iis → System iis → Type 0 where
    arrives :
        {s : System iis} {c : Connection iis} (i : ℕ)
        → i < count
        → s.connections i ≡ none
        → http_on_execute_request_handler iis engine to_bytes fuel (raw i) (random i) (world i)
          ≡ ok c
        → Step s (returned i c s)
    happens :
        {s : System iis} {c c' : Connection iis} (i : ℕ) (event : Event iis)
        → s.connections i ≡ some c
        → IsLocal event
        → IsEnabled iis law event [] c.env
        → handle iis fuel event [] c ≡ ok c'
        → Step s (returned i c' s)
    sends : {s : System iis} (channel message : Bytes) → Step s (sent channel message s)
    looks :
        {s : System iis} → s.pump.phase ≡ top → Step s (record s { pump = step take_names s.pump })
    receives :
        {s : System iis} (names : List Bytes) (channel message : Bytes) (rest : List Bytes)
        → s.pump.phase ≡ receiving names
        → Among channel names
        → s.layer channel ≡ message ∷ rest
        → Step s (received_from channel message rest s)
    receives_nothing :
        {s : System iis} (names : List Bytes)
        → s.pump.phase ≡ receiving names
        → Step s (record s { pump = step (reply [] []) s.pump })
    stops : {s : System iis} → Step s (record s { pump = step stop s.pump })
    runs_task :
        {s : System iis} {c c' : Connection iis} {m : AsgiHttpResponseMsg} (i : ℕ)
        (channel message : Bytes) (before after : List (Bytes × ℕ × Bytes))
        → s.pump.tasks ≡ before ++ (channel, i, message) ∷ after
        → s.connections i ≡ some c
        → unpack message ≡ some m
        → length m.content < 2 ^ 32
        → IsEnabled iis law (response_received channel m) [] c.env
        → handle iis fuel (response_received channel m) [] c ≡ ok c'
        → Step s (called i c' (before ++ after) s)
    others_register :
        {s : System iis} (j : ℕ) (channel : Bytes)
        → IsOthers j channel
        → Step s (record s { pump = step (add_channel channel j) s.pump })
    runs_others :
        {s : System iis} (j : ℕ) (channel message : Bytes) (before after : List (Bytes × ℕ × Bytes))
        → count ≤ j
        → s.pump.tasks ≡ before ++ (channel, j, message) ∷ after
        → Step s (record s { pump = record s.pump { tasks = before ++ after } })

  -- Before the first request. The channels may hold messages already.
  pub record IsInitial (s : System iis) : Type 0 where
    pub no_connections : (i : ℕ) → s.connections i ≡ none
    pub no_callbacks : s.pump.callbacks ≡ []
    pub at_top : s.pump.phase ≡ top
    pub no_tasks : s.pump.tasks ≡ []
    pub none_dropped : s.pump.dropped ≡ []
    pub all_there : (c : Bytes) → s.layer c ≡ s.history c

  pub data Reachable : System iis → Type 0 where
    begin : {s : System iis} → IsInitial s → Reachable s
    after : {s s' : System iis} → Reachable s → Step s s' → Reachable s'
