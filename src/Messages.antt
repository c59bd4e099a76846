-- ===== src/Messages.antt =====
-- AsgiHandlerLib/Asgi*Msg.h: the messages that go to and come from the application.
use iis_asgi_handler.Prelude.{ℕ, Bool, Bytes, List, ℤ}

-- A name and a value.
abbrev pub Header : Type 0
Header = Bytes × Bytes

pub record AsgiHttpRequestMsg : Type 0 where
  pub reply_channel : Bytes
  pub http_version : Bytes
  pub method : Bytes
  pub scheme : Bytes
  pub path : Bytes
  pub query_string : Bytes
  pub root_path : Bytes
  pub headers : List Header
  pub body : Bytes

pub record AsgiHttpResponseMsg : Type 0 where
  pub status : ℤ
  pub headers : List Header
  pub content : Bytes
  pub more_content : Bool

pub record AsgiWsConnectMsg : Type 0 where
  pub reply_channel : Bytes
  pub scheme : Bytes
  pub path : Bytes
  pub query_string : Bytes
  pub root_path : Bytes
  pub headers : List Header

-- `contents` is the field `data`: the buffer, of which `data_size` bytes are filled.
pub record AsgiWsReceiveMsg : Type 0 where
  -- An int, of which no message takes more than one: it stays below 2 ^ 31 for so many messages.
  pub order : ℕ
  pub reply_channel : Bytes
  pub path : Bytes
  pub contents : Bytes
  pub data_size : ℕ
  pub utf8 : Bool

pub record AsgiWsSendMsg : Type 0 where
  pub bytes : Bytes
  pub close : Bool
