-- ===== src/Iis.antt =====
-- What AsgiHandlerLib calls of IIS (httpserv.h, which is not part of the repository): the request
-- and the response of an `IHttpContext`, as operations on an abstract state of the server.
use iis_asgi_handler.Prelude.{ℕ, ◌≤◌, ◌<◌, ◌^◌, Bool, true, false, ◌≡◌, ◌++◌, Bytes, leb, length}

-- HRESULT: a 32-bit word whose top bit says that the call failed.
abbrev pub failed : ℕ → Bool
failed hr = leb (2 ^ 31) hr

abbrev pub s_ok : ℕ
s_ok = 0

-- The out-parameters of ReadEntityBody(); `bytes` is what it put into the buffer.
pub record Read : Type 0 where
  pub hr : ℕ
  pub bytes : Bytes
  pub completion_expected : Bool

-- Those of WriteEntityChunks() and Flush().
pub record Call : Type 0 where
  pub hr : ℕ
  pub num_bytes : ℕ
  pub completion_expected : Bool

pub record Iis : Type 1 where
  pub World : Type 0
  pub remaining_entity_bytes : World → ℕ
  pub read_entity_body : (size : ℕ) → World → Read × World
  pub clear : World → World
  pub set_status : ℕ → World → World
  pub set_header : Bytes → Bytes → World → World
  pub write_entity_chunks : Bytes → World → Call × World
  pub flush : World → Call × World

-- What MSDN documents of them, as far as the handler relies on it. `entity` is the part of the
-- request's body that is still to be read, `written` what the response's body holds so far.
pub record Lawful (iis : Iis) : Type 0 where
  pub entity : iis.World → Bytes
  pub written : iis.World → Bytes
  pub remaining : (w : iis.World) → iis.remaining_entity_bytes w ≡ length (entity w)
  -- A read that completes at once moves at least one byte, and no more than there is room for.
  pub read_some :
      (size : ℕ) (w : iis.World)
      → 0 < size
      → failed (iis.read_entity_body size w).0.hr ≡ false
      → (iis.read_entity_body size w).0.completion_expected ≡ false
      → (0 < length (iis.read_entity_body size w).0.bytes)
        × (length (iis.read_entity_body size w).0.bytes ≤ size)
        × (entity w
            ≡ (iis.read_entity_body size w).0.bytes ++ entity (iis.read_entity_body size w).1)
  -- One that does not leaves the entity as it is until it completes.
  pub read_pending :
      (size : ℕ) (w : iis.World)
      → (iis.read_entity_body size w).0.completion_expected ≡ true
      → entity (iis.read_entity_body size w).1 ≡ entity w
  pub written-read :
      (size : ℕ) (w : iis.World) → written (iis.read_entity_body size w).1 ≡ written w
  pub written-set_status : (s : ℕ) (w : iis.World) → written (iis.set_status s w) ≡ written w
  pub written-set_header :
      (n v : Bytes) (w : iis.World) → written (iis.set_header n v w) ≡ written w
  pub written-flush : (w : iis.World) → written (iis.flush w).1 ≡ written w
  -- IIS buffers the chunk before the call returns.
  pub written-write :
      (chunk : Bytes) (w : iis.World)
      → failed (iis.write_entity_chunks chunk w).0.hr ≡ false
      → written (iis.write_entity_chunks chunk w).1 ≡ written w ++ chunk
