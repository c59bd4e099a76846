-- ===== src/Module/Dispatch.antt =====
-- Which handler a request is given, and how it is started.
use iis_asgi_handler.Prelude.{
  ℕ, suc, ◌<◌, ◌^◌, ◌≡◌, refl, true, List, [], Bytes, length, codes, ltb, subst, Returns,
  Returns-bind, Returns-mono, zero, inl, inr, ◌⊎◌, sym, arith,
}
use iis_asgi_handler.Iis.{Iis, Lawful}
use iis_asgi_handler.Channels.{Engine, new_channel}
use iis_asgi_handler.Request.{RawRequest}
use iis_asgi_handler.Messages.{AsgiHttpRequestMsg, AsgiWsConnectMsg}
use iis_asgi_handler.Http.Connection.{Connection}
use iis_asgi_handler.Http.Invariant.{Inv}
use iis_asgi_handler.Http.Start.{
  http_request_msg, http_on_execute_request_handler, http_on_execute_request_handler-Inv,
}
use iis_asgi_handler.WebSocket.{WebSocketContext}
use iis_asgi_handler.WebSocket.Reader.{WsReader}
use iis_asgi_handler.WebSocket.Writer.{WsWriter}
use iis_asgi_handler.WebSocket.Handler.{
  accept_web_socket, WsEnv, ws_start, ws_connect_msg, ws_on_execute_request_handler,
}
use iis_asgi_handler.WebSocket.Opening.{Started, ws_start-Started}
use iis_asgi_handler.Module.{
  upgrade_header_length, WsConnection, RequestHandler, http_request_handler, ws_request_handler,
  on_execute_request_handler,
}

empty_or_not : (n : ℕ) → (n ≡ 0) ⊎ (0 < n)
empty_or_not zero = inl refl
empty_or_not (suc n) = inr (omega arith)

module _ (iis : Iis) (ws : WebSocketContext) where
  -- The handler of a plain request, with a connection that satisfies the predicate.
  abbrev pub IsHttp : (Connection iis → Type 0) → RequestHandler iis ws → Type 0
  IsHttp P (http_request_handler c) = P c
  IsHttp P (ws_request_handler c) = ⊥

  abbrev pub IsWs : (WsConnection iis ws → Type 0) → RequestHandler iis ws → Type 0
  IsWs P (http_request_handler c) = ⊥
  IsWs P (ws_request_handler c) = P c

module _ (iis : Iis) (ws : WebSocketContext) (engine : Engine) (to_bytes : List ℕ → Bytes) where
  -- A request with no Upgrade header, and a body of less than 4 GB, gets an HTTP handler whose
  -- connection has the invariant.
  plain-IsHttp :
      (fuel : ℕ) (law : Lawful iis) (r : RawRequest) (random : engine.State) (w : iis.World)
      (socket : ws.World) (reader : WsReader) (writer : WsWriter)
      → upgrade_header_length r ≡ 0
      → law.written w ≡ []
      → length (law.entity w) < 2 ^ 32
      → length (law.entity w) < fuel
      → 3 < fuel
      → Returns
          (IsHttp iis ws (
            Inv iis law (
              http_request_msg to_bytes r
                (new_channel engine (codes "http.request!") random).0
                (law.entity w))))
          (on_execute_request_handler iis ws engine to_bytes fuel r random w socket reader writer)
  unfolding on_execute_request_handler
  plain-IsHttp fuel law r random w socket reader writer plain fresh small enough rounds = rw plain (
      Returns-bind _ _ (http_on_execute_request_handler iis engine to_bytes fuel r random w) _
        (http_on_execute_request_handler-Inv iis engine to_bytes fuel law r random w fresh small
          enough rounds)
        λ c inv. inv)

  -- One with an Upgrade header gets a WebSocket handler, which is started as its connect message
  -- says and remembers the channel and the path of that message.
  upgrade-IsWs :
      (fuel : ℕ) (r : RawRequest) (random : engine.State) (w : iis.World) (socket : ws.World)
      (reader : WsReader) (writer : WsWriter)
      → 0 < upgrade_header_length r
      → let channel = (new_channel engine (codes "websocket.send!") random).0 in
        let msg = ws_connect_msg to_bytes r channel in
        let e : WsEnv iis ws = record {
          world = w;
          socket = socket;
          waiting = [];
          reader = reader;
          writer = writer;
        } in
        Returns
          (IsWs iis ws λ c.
            Started iis ws msg e (c.status, c.step, c.env)
            × (c.reply_channel ≡ msg.reply_channel)
            × (c.request_path ≡ msg.path))
          (on_execute_request_handler iis ws engine to_bytes
            (suc fuel)
            r
            random
            w
            socket
            reader
            writer)
  unfolding on_execute_request_handler ws_on_execute_request_handler ws_connect_msg
  upgrade-IsWs fuel r random w socket reader writer asks =
      let channel = (new_channel engine (codes "websocket.send!") random).0 in
      let msg = ws_connect_msg to_bytes r channel in
      let e : WsEnv iis ws = record {
        world = w;
        socket = socket;
        waiting = [];
        reader = reader;
        writer = writer;
      } in
      let yes : ltb 0 (upgrade_header_length r) ≡ true = ground arith in
      rw yes (
        Returns-bind (Started iis ws msg e) _ (ws_start iis ws (suc fuel) (accept_web_socket msg) e)
          _ (ws_start-Started iis ws fuel msg e) λ (n, s, e') st. (st, refl, refl))

module _ (iis : Iis) (ws : WebSocketContext) (engine : Engine) (to_bytes : List ℕ → Bytes)
    (law : Lawful iis) (r : RawRequest) (random : engine.State) (opening : WsEnv iis ws) where
  abbrev plain_request : AsgiHttpRequestMsg
  plain_request =
      http_request_msg to_bytes r (new_channel engine (codes "http.request!") random).0
        (law.entity opening.world)

  abbrev connect : AsgiWsConnectMsg
  connect = ws_connect_msg to_bytes r (new_channel engine (codes "websocket.send!") random).0

  -- The handler that the request's headers ask for, as it is to be after its start.
  abbrev pub IsChosen : RequestHandler iis ws → Type 0
  IsChosen (http_request_handler c) = (upgrade_header_length r ≡ 0) × Inv iis law plain_request c
  IsChosen (ws_request_handler c) =
      (0 < upgrade_header_length r)
      × Started iis ws connect opening (c.status, c.step, c.env)
      × (c.reply_channel ≡ connect.reply_channel)
      × (c.request_path ≡ connect.path)

  plain-IsChosen :
      (h : RequestHandler iis ws)
      → upgrade_header_length r ≡ 0
      → IsHttp iis ws (Inv iis law plain_request) h
      → IsChosen h
  plain-IsChosen (http_request_handler c) plain inv = (plain, inv)
  plain-IsChosen (ws_request_handler c) plain inv = absurd inv

  upgrade-IsChosen :
      (h : RequestHandler iis ws)
      → 0 < upgrade_header_length r
      → IsWs iis ws
          (λ c.
            Started iis ws connect opening (c.status, c.step, c.env)
            × (c.reply_channel ≡ connect.reply_channel)
            × (c.request_path ≡ connect.path))
          h
      → IsChosen h
  upgrade-IsChosen (http_request_handler c) asks st = absurd st
  upgrade-IsChosen (ws_request_handler c) asks (st, channel, path) = (asks, st, channel, path)

  -- A request without an Upgrade header is given an HTTP handler, whose connection has the
  -- invariant; one with such a header is given a WebSocket handler, which is started as its connect
  -- message says, and remembers the channel and the path of that message. Nothing was written
  -- before, the request's body is smaller than 4 GB and than the fuel, which is more than three.
  pub on_execute_request_handler-IsChosen :
      (fuel : ℕ)
      → opening.waiting ≡ []
      → law.written opening.world ≡ []
      → length (law.entity opening.world) < 2 ^ 32
      → length (law.entity opening.world) < suc fuel
      → 3 < suc fuel
      → Returns IsChosen (
          on_execute_request_handler iis ws engine to_bytes
            (suc fuel)
            r
            random
            opening.world
            opening.socket
            opening.reader
            opening.writer)
  on_execute_request_handler-IsChosen fuel idle fresh small enough rounds =
      elim (empty_or_not (upgrade_header_length r)) [
        | inl plain ↦
            Returns-mono (IsHttp iis ws (Inv iis law plain_request)) IsChosen _
              (λ h inv. plain-IsChosen h plain inv)
              (plain-IsHttp iis ws engine to_bytes (suc fuel) law r random opening.world
                opening.socket opening.reader opening.writer plain fresh small enough rounds)
        | inr asks ↦
            Returns-mono _ IsChosen _ (λ h st. upgrade-IsChosen h asks st)
              (subst
                (λ l.
                  Returns
                    (IsWs iis ws λ c.
                      Started iis ws connect (record opening { waiting = l })
                        (c.status, c.step, c.env)
                      × (c.reply_channel ≡ connect.reply_channel)
                      × (c.request_path ≡ connect.path))
                    (on_execute_request_handler iis ws engine to_bytes (suc fuel) r random
                      opening.world opening.socket opening.reader opening.writer))
                (sym idle)
                (upgrade-IsWs iis ws engine to_bytes fuel r random opening.world opening.socket
                  opening.reader opening.writer asks))
      ]
