-- ===== src/WebSocket.antt =====
-- AsgiHandlerLib/Ws*.h and .cpp: an accepted WebSocket. This file has what they call of IIS'
-- WebSocket module (iiswebsocket.h, which is not part of the repository), on an abstract state.
pub mod Reader
pub mod Received
pub mod Fragments
pub mod Buffered
pub mod Gathered
pub mod Callbacks
pub mod Failing
pub mod Writer
pub mod Written
pub mod Turns
pub mod Calls
pub mod Handler
pub mod Opening
use iis_asgi_handler.Prelude.{ℕ, Bool, Bytes}
use iis_asgi_handler.Iis.{Call}

-- What ReadFragment() or its callback gives: `bytes` is what the module put into the buffer, from
-- its start, and `num_bytes` the number that it reports.
pub record Fragment : Type 0 where
  pub hr : ℕ
  pub bytes : Bytes
  pub num_bytes : ℕ
  pub utf8 : Bool
  pub final_fragment : Bool
  pub close : Bool
  pub completion_expected : Bool

pub record WebSocketContext : Type 1 where
  pub World : Type 0
  pub read_fragment : (size : ℕ) → World → Fragment × World
  pub write_fragment : Bytes → World → Call × World
