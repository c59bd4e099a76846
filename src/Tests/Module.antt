-- ===== src/Tests/Module.antt =====
-- The handlers of a plain request and of a WebSocket's, over the server in memory.
use iis_asgi_handler.Prelude.{refl, [], ◌∷◌, ◌++◌, codes, replicate, Returns, arith}
use iis_asgi_handler.Request.{RawRequest}
use iis_asgi_handler.Http.Connection.{post_completed}
use iis_asgi_handler.Http.Invariant.{Inv}
use iis_asgi_handler.Http.Start.{http_request_msg}
use iis_asgi_handler.WebSocket.Handler.{WsEnv}
use iis_asgi_handler.Module.{http_request_handler, on_execute_request_handler, on_async_completion}
use iis_asgi_handler.Module.Dispatch.{IsHttp, IsChosen, on_execute_request_handler-IsChosen}
use iis_asgi_handler.Module.Completions.{completion-IsHttp}
use iis_asgi_handler.Tests.Host.{memory, memory_lawful}
use iis_asgi_handler.Tests.Http.{as_is, world, expected, was_sent, was_sent-Inv, after}
use iis_asgi_handler.Tests.Request.{counter, post}
use iis_asgi_handler.Tests.WebSocket.{socket, idle_reader, idle_writer, two_waiting}

abbrev upgrade : RawRequest
upgrade = record post { known_headers = replicate 7 [] ++ codes "websocket" ∷ replicate 33 [] }

abbrev opened : WsEnv memory socket
opened = record {
  world = world;
  socket = two_waiting;
  waiting = [];
  reader = idle_reader;
  writer = idle_writer;
}

on_execute_request_handler-IsChosen_example :
    Returns (IsChosen memory socket counter as_is memory_lawful upgrade 0 opened) (
      on_execute_request_handler memory socket counter as_is 9 upgrade 0 world two_waiting
        idle_reader idle_writer)
on_execute_request_handler-IsChosen_example =
    on_execute_request_handler-IsChosen memory socket counter as_is memory_lawful upgrade 0 opened 8
      refl refl (omega arith) (omega arith) (omega arith)

completion-IsHttp_run : Returns (IsHttp memory socket (Inv memory memory_lawful expected)) (
    on_async_completion memory socket 9 0 0
      (http_request_handler (record was_sent { env = record { world = after []; waiting = [] } })))
unfolding http_request_msg
completion-IsHttp_run =
    completion-IsHttp memory socket 9 memory_lawful expected post_completed [] was_sent 0 0
      (after []) (omega arith) (omega arith) was_sent-Inv
      (record { before = []; after = []; waits = refl; others = refl; allowed = tt }) refl
