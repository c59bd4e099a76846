-- ===== src/Pump.antt =====
-- AsgiHandlerLib/ResponsePump.h and .cpp: the thread that waits for the application's answers and
-- calls back who asked for them. The lock makes the actions below atomic; between two actions of
-- the thread any number of handlers may call AddChannel() and RemoveChannel().
pub mod Dispatch
pub mod Round
pub mod Registrations
pub mod Stopped
use mathlib.Core.Logic.{ite}
use iis_asgi_handler.Prelude.{
  ℕ, Bool, true, false, List, [], ◌∷◌, ◌++◌, Option, none, some, Bytes, Bytes-discrete,
  if◌then◌else◌,
}

-- Where ThreadMain() stands: at the top of its loop, in ReceiveMany() on the channels that were
-- registered when it looked, or returned.
pub data Phase : Type 0 where
  top : Phase
  receiving : (channel_names : List Bytes) → Phase
  exited : Phase

-- `m_callbacks`: no channel stands in it twice. `tasks` are the callbacks that were handed to the
-- thread pool, oldest first, and `dropped` the replies that found none.
pub record ResponsePump {ℓ} (Callback : Type ℓ) : Type ℓ where
  pub callbacks : List (Bytes × Callback)
  pub thread_stop : Bool
  pub phase : Phase
  pub delay : ℕ
  pub tasks : List (Bytes × Callback × Bytes)
  pub dropped : List (Bytes × Bytes)

pub data Action {ℓ} (Callback : Type ℓ) : Type ℓ where
  add_channel : Bytes → Callback → Action Callback
  remove_channel : Bytes → Action Callback
  -- The thread takes the names of the channels, and calls ReceiveMany() if there are any.
  take_names : Action Callback
  -- ReceiveMany() returns; an empty channel says that it has nothing.
  reply : (channel message : Bytes) → Action Callback
  -- The destructor asks the thread to stop.
  stop : Action Callback

module _ {ℓ} {Callback : Type ℓ} where
  unfoldable pub find_callback : Bytes → List (Bytes × Callback) → Option Callback
  find_callback c [] = none
  find_callback c ((k, callback) ∷ m) = ite (Bytes-discrete k c) (some callback) (find_callback c m)

  -- `m_callbacks[channel] = callback`
  unfoldable pub set_callback : Bytes → Callback → List (Bytes × Callback) → List (Bytes × Callback)
  set_callback c callback [] = (c, callback) ∷ []
  set_callback c callback ((k, old) ∷ m) =
      ite (Bytes-discrete k c) ((k, callback) ∷ m) ((k, old) ∷ set_callback c callback m)

  -- `m_callbacks.erase(channel)`
  unfoldable pub erase_callback : Bytes → List (Bytes × Callback) → List (Bytes × Callback)
  erase_callback c [] = []
  erase_callback c ((k, callback) ∷ m) =
      let rest = erase_callback c m in ite (Bytes-discrete k c) rest ((k, callback) ∷ rest)

  abbrev pub names : List (Bytes × Callback) → List Bytes
  names [] = []
  names ((k, callback) ∷ m) = k ∷ names m

  -- The part of the loop that holds the lock again, after a reply.
  unfoldable pub dispatch : Bytes → Bytes → ResponsePump Callback → ResponsePump Callback
  dispatch channel message p = elim (find_callback channel p.callbacks) [
    | some callback ↦ record p {
      callbacks = erase_callback channel p.callbacks;
      phase = top;
      delay = 0;
      tasks = p.tasks ++ (channel, callback, message) ∷ [];
    }
    | none ↦ record p { phase = top; delay = 0; dropped = p.dropped ++ (channel, message) ∷ [] }
  ]

  unfoldable pub look : Bool → List Bytes → ResponsePump Callback → ResponsePump Callback
  look true channel_names p = record p { phase = exited }
  look false [] p = record p { phase = top; delay = 50 }
  look false (n ∷ ns) p = record p { phase = receiving (n ∷ ns) }

  unfoldable pub receive : Bytes → Bytes → ResponsePump Callback → ResponsePump Callback
  unfolding dispatch
  receive [] message p = record p { phase = top; delay = 10 }
  receive (c ∷ channel) message p = dispatch (c ∷ channel) message p

  -- ThreadMain() acts only where it stands; a step that it does not make changes nothing.
  unfoldable pub thread_step :
      Phase → Action Callback → ResponsePump Callback → ResponsePump Callback
  unfolding look receive
  thread_step top take_names p = look p.thread_stop (names p.callbacks) p
  thread_step (receiving channel_names) (reply channel message) p = receive channel message p
  thread_step _ _ p = p

  unfoldable pub step : Action Callback → ResponsePump Callback → ResponsePump Callback
  unfolding thread_step
  step (add_channel channel callback) p = record p {
    callbacks = set_callback channel callback p.callbacks;
  }
  step (remove_channel channel) p = record p { callbacks = erase_callback channel p.callbacks }
  step stop p = record p { thread_stop = true }
  step take_names p = thread_step p.phase take_names p
  step (reply channel message) p = thread_step p.phase (reply channel message) p

  unfoldable pub run : List (Action Callback) → ResponsePump Callback → ResponsePump Callback
  run [] p = p
  run (a ∷ actions) p = run actions (step a p)
