-- ===== src/WebSocket/Failing.antt =====
-- What WsReader does once its reads fail, as they do on a connection that is closed.
use iis_asgi_handler.Prelude.{
  ℕ, zero, suc, ◌+◌, ◌-◌, ◌%◌, ◌^◌, ◌≡◌, refl, inl, inr, true, false, Bool-cases, [], length, leb,
  Result, ok, err, Error, ◌>>=◌, Returns, Returns-mono, arith,
}
use iis_asgi_handler.Iis.{s_ok, failed}
use iis_asgi_handler.WebSocket.{Fragment, WebSocketContext}
use iis_asgi_handler.WebSocket.Reader.{
  WsReader, buffer_chunk_increase_threshold, read_async_complete, complete_fragment, read_async,
}
use iis_asgi_handler.WebSocket.Received.{fill_start}

-- A fragment of a read that failed at once: nothing is in the buffer.
pub record Failure (f : Fragment) : Type 0 where
  pub call_failed : failed f.hr ≡ true
  pub nothing : f.bytes ≡ []
  pub not_final : f.final_fragment ≡ false
  pub at_once : f.completion_expected ≡ false

-- Such a fragment is completed without an exception.
Failure-Returns :
    (hr : ℕ) (f : Fragment) (r : WsReader)
    → Failure f
    → Returns (λ r'. Unit {0}) (complete_fragment hr f r)
unfolding complete_fragment read_async_complete
Failure-Returns hr f r fail =
    rw (fail.nothing, fill_start [] r (omega arith), fail.not_final)
      (elim (Bool-cases (
        leb (length r.msg.contents - buffer_chunk_increase_threshold)
          (r.msg.data_size + f.num_bytes))) [
            | inl grows ↦ simp grows tt
            | inr stays ↦ simp stays tt
          ])

fails_then :
    {A : Type 0} (m : Result WsReader) (k : WsReader → Result (WsReader × A)) (e : Error)
    → Returns (λ r'. k r' ≡ err e) m
    → (m >>= k) ≡ err e
fails_then (ok r) k e h = h
fails_then (err _) k e h = absurd h

-- Once every read fails at once, as the module's state allows for, the loop of ReadAsync() never
-- ends: no number of rounds is enough for it, whatever the reader holds.
pub failing_reads_spin :
    (ws : WebSocketContext) (Broken : ws.World → Type 0)
    → ((size : ℕ) (w : ws.World)
        → Broken w
        → Failure (ws.read_fragment size w).0 × Broken (ws.read_fragment size w).1)
    → (fuel : ℕ) (r : WsReader) (w : ws.World) → Broken w
    → read_async ws fuel r w ≡ err Error.out_of_fuel
unfolding read_async
failing_reads_spin ws Broken breaks zero r w b = refl
failing_reads_spin ws Broken breaks (suc fuel) r w b =
    let (fail, b') = breaks (length r.msg.contents % 2 ^ 32) w b in
    simp fail.at_once (
      fails_then _ _ Error.out_of_fuel (
        Returns-mono _ _
          (complete_fragment s_ok (ws.read_fragment (length r.msg.contents % 2 ^ 32) w).0 r)
          (λ r' _. failing_reads_spin ws Broken breaks fuel r' _ b')
          (Failure-Returns s_ok _ r fail)))
