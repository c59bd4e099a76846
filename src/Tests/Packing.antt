-- ===== src/Tests/Packing.antt =====
-- Messages that are packed and read back.
use iis_asgi_handler.Prelude.{◌≡◌, true, [], ◌∷◌, ◌++◌, some, codes, arith}
use iis_asgi_handler.Messages.{AsgiHttpRequestMsg, AsgiWsConnectMsg, AsgiWsReceiveMsg}
use iis_asgi_handler.WebSocket.Reader.{packed}
use iis_asgi_handler.Packing.{pack_int, http_request_pack, ws_connect_pack, ws_receive_pack}
use iis_asgi_handler.Packing.Wire.{read}
use iis_asgi_handler.Packing.Messages.{
  http_request_value, ws_connect_value, ws_receive_value, read-http_request_pack,
  read-ws_connect_pack, read-ws_receive_pack,
}

abbrev request : AsgiHttpRequestMsg
request = record {
  reply_channel = codes "http.request!0";
  http_version = codes "1.1";
  method = codes "PUT";
  scheme = codes "http";
  path = codes "/p";
  query_string = codes "a=b";
  root_path = codes "/lost";
  headers = (codes "Host", codes "h") ∷ (codes "X-A", []) ∷ [];
  body = 0 ∷ 255 ∷ [];
}

abbrev connect : AsgiWsConnectMsg
connect = record {
  reply_channel = codes "websocket.send!0";
  scheme = codes "wss";
  path = codes "/ws";
  query_string = [];
  root_path = [];
  headers = (codes "Upgrade", codes "websocket") ∷ [];
}

abbrev receive : AsgiWsReceiveMsg
receive = record {
  order = 3;
  reply_channel = codes "websocket.send!0";
  path = codes "/ws";
  contents = codes "hello old bytes";
  data_size = 5;
  utf8 = true;
}

read-http_request_pack_example :
    read 40 (http_request_pack request ++ pack_int 7 ∷ [])
    ≡ some (http_request_value request, pack_int 7 ∷ [])
read-http_request_pack_example =
    read-http_request_pack request 40 (pack_int 7 ∷ []) (omega arith) (ground arith)

read-ws_connect_pack_run :
    read 40 (ws_connect_pack connect ++ pack_int 7 ∷ [])
    ≡ some (ws_connect_value connect, pack_int 7 ∷ [])
read-ws_connect_pack_run =
    read-ws_connect_pack connect 40 (pack_int 7 ∷ []) (omega arith) (ground arith)

read-ws_receive_pack_run :
    read 40 (ws_receive_pack receive ++ pack_int 7 ∷ [])
    ≡ some (ws_receive_value (packed receive), pack_int 7 ∷ [])
read-ws_receive_pack_run =
    read-ws_receive_pack receive 40 (pack_int 7 ∷ []) (omega arith) (omega arith) (ground arith)
