-- ===== src/Http.antt =====
-- include/data_types.h, and the parts of include/connection_types.h that fill a request from the
-- parser's callbacks and turn a response into bytes.
pub mod Callbacks
pub mod Response
use async_event_loop.Base.{List, [], ◌∷◌, Bytes}
use async_event_loop.UnorderedMap.{UnorderedMap}

abbrev pub Headers : Type 0
Headers = UnorderedMap Bytes Bytes

-- `key` and `value` hold the header that is being read.
pub record HttpRequest : Type 0 where
  pub method : Bytes
  pub url : Bytes
  pub version : Bytes
  pub key : Bytes
  pub value : Bytes
  pub headers : Headers
  pub body : Bytes

abbrev pub new_request : HttpRequest
new_request = record {
  method = [];
  url = [];
  version = [];
  key = [];
  value = [];
  headers = [];
  body = [];
}

pub record HttpResponse : Type 0 where
  pub version : Bytes
  pub status_code : Bytes
  pub status_message : Bytes
  pub key : Bytes
  pub value : Bytes
  pub headers : Headers
  pub body : Bytes

abbrev pub new_response : HttpResponse
new_response = record {
  version = [];
  status_code = [];
  status_message = [];
  key = [];
  value = [];
  headers = [];
  body = [];
}
