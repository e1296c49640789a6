-- ===== src/Http/Callbacks.antt =====
-- include/connection_types.h, lines 96 to 160: the callbacks that the parser calls with a piece of
-- the message. Each returns 0. `on_message_complete` is in `Connection`: it calls the application.
pub mod Fragments
pub mod Messages
use async_event_loop.Base.{List, [], ◌∷◌, ◌++◌, Bytes, bytes_eq}
use async_event_loop.UnorderedMap.{assign}
use async_event_loop.Http.{HttpRequest}

-- A call of a callback, with the bytes from `at` to `at + length`.
pub data ParserCall : Type 0 where
  message_begin headers_complete header_value_complete message_complete : ParserCall
  method url version header_field header_value body : Bytes → ParserCall

unfoldable pub on_message_begin : HttpRequest → HttpRequest
on_message_begin r = r

unfoldable pub on_method : Bytes → HttpRequest → HttpRequest
on_method span r = record r { method = r.method ++ span }

unfoldable pub on_url : Bytes → HttpRequest → HttpRequest
on_url span r = record r { url = r.url ++ span }

unfoldable pub on_version : Bytes → HttpRequest → HttpRequest
on_version span r = record r { version = r.version ++ span }

unfoldable pub on_header_field : Bytes → HttpRequest → HttpRequest
on_header_field span r = record r { key = r.key ++ span }

unfoldable pub on_header_value : Bytes → HttpRequest → HttpRequest
on_header_value span r = record r { value = r.value ++ span }

unfoldable pub on_header_value_complete : HttpRequest → HttpRequest
on_header_value_complete r = record r {
  headers = assign r.key r.value r.headers;
  key = [];
  value = [];
}

unfoldable pub on_headers_complete : HttpRequest → HttpRequest
on_headers_complete r = r

unfoldable pub on_body : Bytes → HttpRequest → HttpRequest
on_body span r = record r { body = r.body ++ span }

-- The effect of a call on the request. `message_complete` leaves the request to the application.
unfoldable pub on_call : ParserCall → HttpRequest → HttpRequest
unfolding on_message_begin on_method on_url on_version on_header_field on_header_value
    on_header_value_complete on_headers_complete on_body
on_call message_begin r = on_message_begin r
on_call (method span) r = on_method span r
on_call (url span) r = on_url span r
on_call (version span) r = on_version span r
on_call (header_field span) r = on_header_field span r
on_call (header_value span) r = on_header_value span r
on_call header_value_complete r = on_header_value_complete r
on_call headers_complete r = on_headers_complete r
on_call (body span) r = on_body span r
on_call message_complete r = r

unfoldable pub on_calls : List ParserCall → HttpRequest → HttpRequest
on_calls [] r = r
on_calls (c ∷ cs) r = on_calls cs (on_call c r)
