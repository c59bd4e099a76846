-- ===== src/Tests/WebSocket.antt =====
-- A WebSocket in memory: it has messages of one byte, and takes a few bytes of each call.
use iis_asgi_handler.Prelude.{
  ℕ, ◌+◌, ◌≤◌, ◌≡◌, refl, ◌⊎◌, Bool, true, false, List, [], ◌∷◌, ◌++◌, map, none, Bytes, length,
  take, drop, replicate, leb, if◌then◌else◌, codes, err, Error, ◌>>=◌, Returns, arith,
  Bytes-discrete, ℕ_discrete,
}
use iis_asgi_handler.Messages.{AsgiWsConnectMsg, AsgiWsSendMsg}
use iis_asgi_handler.WebSocket.{Fragment, WebSocketContext}
use iis_asgi_handler.WebSocket.Reader.{WsReader, buffer_chunk_size, complete_fragment, read_async}
use iis_asgi_handler.WebSocket.Received.{
  Fresh, SentOne, Unfragmented, Delivered, read_async-Delivered,
}
use iis_asgi_handler.WebSocket.Fragments.{second_overwrites_first, sending_overruns}
use iis_asgi_handler.WebSocket.Writer.{WsWriter, send_message, write_callback}
use iis_asgi_handler.WebSocket.Written.{Taking, Waits, send_message-Waits, second_call_repeats}
use iis_asgi_handler.WebSocket.Handler.{
  accept_web_socket, send_connect_to_application, WsEnv, ws_start, ws_on_async_completion,
  ws_scheme,
}
use iis_asgi_handler.WebSocket.Opening.{
  Started, ws_start-Started, Completed, ws_on_async_completion-Completed, started_twice,
}
use iis_asgi_handler.StateMachine.{pending}
use iis_asgi_handler.Tests.Host.{memory}

pub record Socket : Type 0 where
  pub inbox : List ℕ
  pub out : Bytes
  pub limit : ℕ
  pub reads : ℕ

abbrev pub fragment : Bytes → Bool → Fragment
fragment bytes final = record {
  hr = 0;
  bytes = bytes;
  num_bytes = length bytes;
  utf8 = true;
  final_fragment = final;
  close = false;
  completion_expected = false;
}

abbrev read_inbox : List ℕ → Socket → Fragment × Socket
read_inbox [] w =
    (record (fragment [] false) { completion_expected = true }, record w { reads = w.reads + 1 })
read_inbox (b ∷ bs) w = (fragment (b ∷ []) true, record w { inbox = bs })

abbrev some_of : ℕ → ℕ → ℕ
some_of limit n = if leb n limit then n else limit

abbrev pub socket : WebSocketContext
socket = record {
  World = Socket;
  read_fragment = λ size w. read_inbox w.inbox w;
  write_fragment = λ bytes w. (
    record { hr = 0; num_bytes = some_of w.limit (length bytes); completion_expected = false },
    record w { out = w.out ++ take (some_of w.limit (length bytes)) bytes },
  );
}

abbrev one_byte : ℕ → Bytes
one_byte b = b ∷ []

read_inbox_pending :
    (inbox : List ℕ) (w : Socket)
    → w.inbox ≡ inbox
    → (read_inbox inbox w).0.completion_expected ≡ true
    → (map one_byte w.inbox ≡ [])
      × (map one_byte (read_inbox inbox w).1.inbox ≡ [])
      × ((read_inbox inbox w).1.reads ≡ w.reads + 1)
read_inbox_pending [] w e c = (simp e refl, simp e refl, refl)
read_inbox_pending (b ∷ bs) w e c = absurd (cc)

read_inbox_message :
    (inbox : List ℕ) (w : Socket)
    → w.inbox ≡ inbox
    → (read_inbox inbox w).0.completion_expected ≡ false
    → (map one_byte w.inbox
        ≡ (read_inbox inbox w).0.bytes ∷ map one_byte (read_inbox inbox w).1.inbox)
      × ((read_inbox inbox w).1.reads ≡ w.reads)
      × ((read_inbox inbox w).0.final_fragment ≡ true)
      × ((read_inbox inbox w).0.num_bytes ≡ length (read_inbox inbox w).0.bytes)
      × (length (read_inbox inbox w).0.bytes ≤ buffer_chunk_size)
read_inbox_message [] w e c = absurd (cc)
read_inbox_message (b ∷ bs) w e c = (simp e refl, refl, refl, refl, omega arith)

abbrev unfragmented : Unfragmented socket
unfragmented = record {
  incoming = λ w. map one_byte w.inbox;
  reads_pending = λ w. w.reads;
  read_pending = λ size w c. read_inbox_pending w.inbox w refl c;
  read_message = λ size w c. read_inbox_message w.inbox w refl c;
}

takes_now :
    (bytes : Bytes) (w : Socket)
    → false ≡ true
    → w.out ++ take (some_of w.limit (length bytes)) bytes ≡ w.out ++ bytes
takes_now bytes w c = absurd (cc)

abbrev taking : Taking socket
taking = record {
  written = λ w. w.out;
  takes = λ bytes w c. refl;
  takes_all = λ bytes w c. takes_now bytes w c;
}

abbrev pub idle_reader : WsReader
idle_reader = record {
  msg = record {
    order = 1;
    reply_channel = codes "websocket.send!a";
    path = codes "/ws";
    contents = replicate 4096 0;
    data_size = 0;
    utf8 = true;
  };
  sent = [];
}

abbrev pub idle_writer : WsWriter
idle_writer = record {
  reply_channel = codes "websocket.send!a";
  asgi_send_msg = none;
  bytes_written = 0;
  added = codes "websocket.send!a" ∷ [];
}

abbrev pub hello : AsgiWsSendMsg
hello = record { bytes = codes "hello"; close = false }

abbrev pub two_waiting : Socket
two_waiting = record { inbox = 65 ∷ 66 ∷ []; out = []; limit = 8; reads = 0 }

abbrev wide : Socket
wide = record { inbox = []; out = []; limit = 8; reads = 0 }

abbrev narrow : Socket
narrow = record { inbox = []; out = []; limit = 3; reads = 0 }

pub idle-Fresh : Fresh idle_reader
idle-Fresh = record { whole_chunk = refl; no_data = refl }

read_async-Delivered_example :
    Returns
      (λ (r', w'). Delivered socket unfragmented idle_reader two_waiting r' w')
      (read_async socket 3 idle_reader two_waiting)
read_async-Delivered_example =
    read_async-Delivered socket unfragmented 3 idle_reader two_waiting idle-Fresh (omega arith)
      (omega arith)

second_overwrites_first_example :
    Returns
      (SentOne
        (codes "de" ++ (drop 2 (codes "abc") ++ take 2 (drop 3 (replicate 4096 0))))
        idle_reader)
      (complete_fragment 0 (fragment (codes "abc") false) idle_reader
        >>= complete_fragment 0 (fragment (codes "de") true))
second_overwrites_first_example =
    second_overwrites_first 0 0 (fragment (codes "abc") false) (fragment (codes "de") true)
      idle_reader idle-Fresh refl refl refl refl (omega arith) (omega arith) (omega arith)

sending_overruns_example :
    (complete_fragment 0 (fragment (replicate 100 7) false) idle_reader
      >>= complete_fragment 0 (fragment (replicate 4000 8) true))
    ≡ err Error.overrun
sending_overruns_example =
    sending_overruns 0 0 (fragment (replicate 100 7) false) (fragment (replicate 4000 8) true)
      idle_reader idle-Fresh refl refl refl refl (omega arith) (omega arith) (omega arith)

send_message-Waits_run :
    Returns
      (λ (s', w').
        (w'.out ≡ codes "hello")
        × (Waits idle_writer s'
            ⊎ Returns
                (λ (s'', w''). Waits idle_writer s'' × (w'' ≡ w'))
                (write_callback socket 1 0 5 s' w')))
      (send_message socket 1 hello idle_writer wide)
send_message-Waits_run =
    send_message-Waits socket taking 0 1 0 hello idle_writer wide refl (omega arith) (λ c. refl)

second_call_repeats_example :
    Returns
      (λ (s', w'). (w'.out ≡ codes "helhe") × Waits idle_writer s')
      (send_message socket 2 hello idle_writer narrow)
second_call_repeats_example =
    second_call_repeats socket taking 0 hello idle_writer narrow refl (omega arith) refl refl
      (omega arith) refl

abbrev connect : AsgiWsConnectMsg
connect = record {
  reply_channel = codes "websocket.send!a";
  scheme = codes "ws";
  path = codes "/ws";
  query_string = [];
  root_path = [];
  headers = [];
}

abbrev opening : WsEnv memory socket
opening = record {
  world = record { entity = []; written = []; slow = true };
  socket = two_waiting;
  waiting = [];
  reader = idle_reader;
  writer = record idle_writer { added = [] };
}

scheme_runs : ws_scheme (codes "https") ≡ codes "wss"
unfolding ws_scheme Bytes-discrete ℕ_discrete
scheme_runs = refl

ws_start-Started_run :
    Returns
      (Started memory socket connect opening)
      (ws_start memory socket 1 (accept_web_socket connect) opening)
ws_start-Started_run = ws_start-Started memory socket 0 connect opening

ws_on_async_completion-Completed_example :
    Returns
      (Completed memory socket unfragmented
        (codes "websocket.send!a")
        (codes "/ws")
        (accept_web_socket connect)
        0
        opening)
      (ws_on_async_completion memory socket 3
        (codes "websocket.send!a")
        (codes "/ws")
        (accept_web_socket connect)
        0
        0
        opening)
ws_on_async_completion-Completed_example =
    ws_on_async_completion-Completed memory socket unfragmented 2 (codes "websocket.send!a")
      (codes "/ws") (accept_web_socket connect) 0 0 opening idle-Fresh (omega arith) (omega arith)

started_twice_example :
    Returns
      (λ (n, s, e').
        (n ≡ pending)
        × (s ≡ send_connect_to_application connect)
        × (e'.socket.reads ≡ 2)
        × (e'.writer.added ≡ codes "websocket.send!a" ∷ codes "websocket.send!a" ∷ []))
      (ws_on_async_completion memory socket 3
          (codes "websocket.send!a")
          (codes "/ws")
          (accept_web_socket connect)
          0
          0
          opening
        >>= λ (n, s, e').
            ws_on_async_completion memory socket 3
              (codes "websocket.send!a")
              (codes "/ws")
              s
              0
              0
              e')
started_twice_example =
    started_twice memory socket unfragmented 2 (codes "websocket.send!a") (codes "/ws") connect 0 0
      opening idle-Fresh (omega arith) (omega arith)
