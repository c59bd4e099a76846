-- ===== src/Packing/Messages.antt =====
-- What the application reads of each message: the maps that the ASGI documents describe.
use iis_asgi_handler.Prelude.{
  ℕ, suc, ◌≤◌, ◌≡◌, refl, ap, List, [], ◌∷◌, ◌++◌, append-nil, some, length, length-take, codes,
}
use iis_asgi_handler.Messages.{Header, AsgiHttpRequestMsg, AsgiWsConnectMsg, AsgiWsReceiveMsg}
use iis_asgi_handler.WebSocket.Reader.{Packed, packed}
use iis_asgi_handler.Packing.{
  Token, pack_headers, http_request_pack, ws_connect_pack, ws_receive_pack,
}
use iis_asgi_handler.Packing.Wire.{
  Value, str, bin, int, array, map, Values, nil, cons, end, entry, count, Sized, read,
}
use iis_asgi_handler.Packing.ReadBack.{tokens, tokens_values, weight, read-tokens}

-- A list of pairs of byte strings.
abbrev pub header_values : List Header → Values
header_values [] = nil
header_values ((name, value) ∷ headers) =
    cons (array (cons (bin name) (cons (bin value) nil))) (header_values headers)

abbrev pub http_request_value : AsgiHttpRequestMsg → Value
http_request_value m = map (
    entry (codes "reply_channel") (str m.reply_channel) (
      entry (codes "http_version") (str m.http_version) (
        entry (codes "method") (str m.method) (
          entry (codes "scheme") (str m.scheme) (
            entry (codes "path") (bin m.path) (
              entry (codes "query_string") (bin m.query_string) (
                entry (codes "headers") (array (header_values m.headers))
                  (entry (codes "body") (bin m.body) end))))))))

abbrev pub ws_connect_value : AsgiWsConnectMsg → Value
ws_connect_value m = map (
    entry (codes "reply_channel") (str m.reply_channel) (
      entry (codes "scheme") (str m.scheme) (
        entry (codes "path") (str m.path) (
          entry (codes "query_string") (bin m.query_string) (
            entry (codes "root_path") (bin m.root_path) (
              entry (codes "headers") (array (header_values m.headers))
                (entry (codes "order") (int 0) end)))))))

abbrev pub ws_receive_value : Packed → Value
ws_receive_value p = map (
    entry (codes "reply_channel") (str p.reply_channel) (
      entry (codes "path") (str p.path)
        (entry (codes "order") (int p.order) (entry (codes "bytes") (bin p.bytes) end))))

count-header_values : (headers : List Header) → count (header_values headers) ≡ length headers
count-header_values [] = refl
count-header_values ((name, value) ∷ headers) = ap suc (count-header_values headers)

pack_headers-tokens :
    (headers : List Header) → pack_headers headers ≡ tokens_values (header_values headers)
unfolding pack_headers tokens
pack_headers-tokens [] = refl
pack_headers-tokens ((name, value) ∷ headers) =
    rw (append-nil (pack_headers headers), pack_headers-tokens headers)

http_request_pack-tokens :
    (m : AsgiHttpRequestMsg) → http_request_pack m ≡ tokens (http_request_value m)
unfolding http_request_pack tokens
http_request_pack-tokens m = rw (count-header_values m.headers, pack_headers-tokens m.headers)

ws_connect_pack-tokens : (m : AsgiWsConnectMsg) → ws_connect_pack m ≡ tokens (ws_connect_value m)
unfolding ws_connect_pack tokens
ws_connect_pack-tokens m = rw (count-header_values m.headers, pack_headers-tokens m.headers)

ws_receive_pack-tokens :
    (m : AsgiWsReceiveMsg)
    → m.data_size ≤ length m.contents
    → ws_receive_pack m ≡ tokens (ws_receive_value (packed m))
unfolding ws_receive_pack tokens
ws_receive_pack-tokens m h = rw (length-take m.data_size m.contents h)

-- A request that is packed, with lengths below 4 GB, is read back as the map of its fields, where
-- the reader has as much fuel as the map has parts: texts for the names, byte strings for path,
-- query, headers and body. What follows it is left.
pub read-http_request_pack :
    (m : AsgiHttpRequestMsg) (fuel : ℕ) (rest : List Token)
    → weight (http_request_value m) ≤ fuel
    → Sized (http_request_value m)
    → read fuel (http_request_pack m ++ rest) ≡ some (http_request_value m, rest)
read-http_request_pack m fuel rest h sized =
    rw (http_request_pack-tokens m) (read-tokens (http_request_value m) fuel rest h sized)

-- So is a WebSocket's connect message, under the same conditions; its order is always 0.
pub read-ws_connect_pack :
    (m : AsgiWsConnectMsg) (fuel : ℕ) (rest : List Token)
    → weight (ws_connect_value m) ≤ fuel
    → Sized (ws_connect_value m)
    → read fuel (ws_connect_pack m ++ rest) ≡ some (ws_connect_value m, rest)
read-ws_connect_pack m fuel rest h sized =
    rw (ws_connect_pack-tokens m) (read-tokens (ws_connect_value m) fuel rest h sized)

-- A received message whose buffer holds `data_size` bytes is read back with these bytes, whatever
-- else the buffer holds, under the same conditions.
pub read-ws_receive_pack :
    (m : AsgiWsReceiveMsg) (fuel : ℕ) (rest : List Token)
    → m.data_size ≤ length m.contents
    → weight (ws_receive_value (packed m)) ≤ fuel
    → Sized (ws_receive_value (packed m))
    → read fuel (ws_receive_pack m ++ rest) ≡ some (ws_receive_value (packed m), rest)
read-ws_receive_pack m fuel rest fits h sized =
    rw (ws_receive_pack-tokens m fits) (read-tokens (ws_receive_value (packed m)) fuel rest h sized)
