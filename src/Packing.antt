-- ===== src/Packing.antt =====
-- AsgiHandlerLib/AsgiMsg.h and the msgpack_pack() of the messages that are sent: the calls that are
-- made of msgpack's packer (a third party's), in their order. Lengths are passed as uint32_t.
pub mod Wire
pub mod ReadBack
pub mod Messages
use iis_asgi_handler.Prelude.{ℕ, ◌%◌, ◌^◌, List, [], ◌∷◌, ◌++◌, Bytes, length, take, codes}
use iis_asgi_handler.Messages.{Header, AsgiHttpRequestMsg, AsgiWsConnectMsg, AsgiWsReceiveMsg}

-- A call of the packer.
pub data Token : Type 0 where
  pack_map pack_array pack_str pack_bin : ℕ → Token
  pack_str_body pack_bin_body : Bytes → Token
  pack_int : ℕ → Token

abbrev pub uint32 : ℕ → ℕ
uint32 n = n % 2 ^ 32

-- AsgiMsg::pack_string()
abbrev pub pack_string : Bytes → List Token
pack_string s = pack_str (uint32 (length s)) ∷ pack_str_body s ∷ []

-- AsgiMsg::pack_bytestring()
abbrev pub pack_bytestring : Bytes → List Token
pack_bytestring s = pack_bin (uint32 (length s)) ∷ pack_bin_body s ∷ []

-- One call, and calls in their order.
abbrev pub call : Token → List Token
call t = t ∷ []

abbrev pub calls : List (List Token) → List Token
calls [] = []
calls (c ∷ cs) = c ++ calls cs

-- The loop over the headers.
unfoldable pub pack_headers : List Header → List Token
pack_headers [] = []
pack_headers ((name, value) ∷ headers) =
    calls (
      call (pack_array 2)
      ∷ pack_bytestring name
      ∷ pack_bytestring value
      ∷ pack_headers headers
      ∷ [])

-- AsgiHttpRequestMsg::msgpack_pack()
unfoldable pub http_request_pack : AsgiHttpRequestMsg → List Token
http_request_pack m = calls (
    call (pack_map 8)
    ∷ pack_string (codes "reply_channel")
    ∷ pack_string m.reply_channel
    ∷ pack_string (codes "http_version")
    ∷ pack_string m.http_version
    ∷ pack_string (codes "method")
    ∷ pack_string m.method
    ∷ pack_string (codes "scheme")
    ∷ pack_string m.scheme
    ∷ pack_string (codes "path")
    ∷ pack_bytestring m.path
    ∷ pack_string (codes "query_string")
    ∷ pack_bytestring m.query_string
    ∷ pack_string (codes "headers")
    ∷ call (pack_array (uint32 (length m.headers)))
    ∷ pack_headers m.headers
    ∷ pack_string (codes "body")
    ∷ pack_bytestring m.body
    ∷ [])

-- AsgiWsConnectMsg::msgpack_pack()
unfoldable pub ws_connect_pack : AsgiWsConnectMsg → List Token
ws_connect_pack m = calls (
    call (pack_map 7)
    ∷ pack_string (codes "reply_channel")
    ∷ pack_string m.reply_channel
    ∷ pack_string (codes "scheme")
    ∷ pack_string m.scheme
    ∷ pack_string (codes "path")
    ∷ pack_string m.path
    ∷ pack_string (codes "query_string")
    ∷ pack_bytestring m.query_string
    ∷ pack_string (codes "root_path")
    ∷ pack_bytestring m.root_path
    ∷ pack_string (codes "headers")
    ∷ call (pack_array (uint32 (length m.headers)))
    ∷ pack_headers m.headers
    ∷ pack_string (codes "order")
    ∷ call (pack_int 0)
    ∷ [])

-- AsgiWsReceiveMsg::msgpack_pack(), of a message whose buffer holds `data_size` bytes at least.
unfoldable pub ws_receive_pack : AsgiWsReceiveMsg → List Token
ws_receive_pack m = calls (
    call (pack_map 4)
    ∷ pack_string (codes "reply_channel")
    ∷ pack_string m.reply_channel
    ∷ pack_string (codes "path")
    ∷ pack_string m.path
    ∷ pack_string (codes "order")
    ∷ call (pack_int m.order)
    ∷ pack_string (codes "bytes")
    ∷ call (pack_bin (uint32 m.data_size))
    ∷ call (pack_bin_body (take m.data_size m.contents))
    ∷ [])
