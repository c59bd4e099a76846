-- ===== src/Tests/Failing.antt =====
-- A WebSocket that is closed: each of its reads fails at once.
use iis_asgi_handler.Prelude.{◌≡◌, refl, true, false, [], err, Error}
use iis_asgi_handler.WebSocket.{WebSocketContext}
use iis_asgi_handler.WebSocket.Reader.{read_async}
use iis_asgi_handler.WebSocket.Failing.{failing_reads_spin}
use iis_asgi_handler.Tests.WebSocket.{idle_reader}

-- ERROR_CONNECTION_ABORTED as an HRESULT. The size stays what it was given as.
abbrev closed : WebSocketContext
closed = record {
  World = Unit {0};
  read_fragment = λ size w. (
    record {
      hr = 0x800704d4;
      bytes = [];
      num_bytes = size;
      utf8 = false;
      final_fragment = false;
      close = true;
      completion_expected = false;
    },
    w,
  );
  write_fragment =
      λ bytes w. (record { hr = 0x800704d4; num_bytes = 0; completion_expected = false }, w);
}

failing_reads_spin_example : read_async closed 1000 idle_reader tt ≡ err Error.out_of_fuel
failing_reads_spin_example =
    failing_reads_spin closed (λ w. Unit {0})
      (λ size w b.
        (record { call_failed = refl; nothing = refl; not_final = refl; at_once = refl }, tt))
      1000 idle_reader tt tt
