-- ===== src/Tests/Messages.antt =====
-- The theorems on requests and responses at concrete inputs.
use async_event_loop.Base.{◌≡◌, none, some, List, [], ◌∷◌, ◌++◌, Bytes, arith, bytes_eq}
use async_event_loop.UnorderedMap.{find}
use async_event_loop.Http.{HttpResponse, Headers, new_request, new_response}
use async_event_loop.Http.Callbacks.{
  ParserCall, message_begin, headers_complete, header_value_complete, message_complete, method, url,
  version, header_field, header_value, body, on_calls,
}
use async_event_loop.Http.Callbacks.Fragments.{
  Cuts, done, keep, cut, in_method, in_header_value, on_calls-Cuts,
}
use async_event_loop.Http.Callbacks.Messages.{
  Message, calls_of, field_calls, last_value, message_received, second_message_appends,
}
use async_event_loop.Http.Response.{response_bytes}
use async_event_loop.Http.Response.Reader.{read_response}
use async_event_loop.Http.Response.Roundtrip.{read_response-response_bytes}
use async_event_loop.Application.{bytes}

abbrev get_page : Message
get_page = record {
  verb = bytes "GET";
  target = bytes "/";
  http_version = bytes "1.1";
  fields = (bytes "Host", bytes "a") ∷ (bytes "Host", bytes "bc") ∷ [];
  payload = [];
}

-- The same message, its method and a header in two pieces.
abbrev pieces : List ParserCall
pieces =
    message_begin
    ∷ method (bytes "G")
    ∷ method (bytes "ET")
    ∷ url (bytes "/")
    ∷ version (bytes "1.1")
    ∷ header_field (bytes "Host")
    ∷ header_value (bytes "a")
    ∷ header_value_complete
    ∷ header_field (bytes "Host")
    ∷ header_value (bytes "b")
    ∷ header_value (bytes "c")
    ∷ header_value_complete
    ∷ headers_complete
    ∷ body []
    ∷ message_complete
    ∷ []

pieces-Cuts : Cuts (calls_of get_page) pieces
unfolding calls_of field_calls
pieces-Cuts = keep _ (
    cut in_method (bytes "G") (bytes "ET") (
      keep _ (
        keep _ (
          keep _ (
            keep _ (
              keep _ (
                keep _ (
                  keep _ (
                    cut in_header_value (bytes "b") (bytes "c")
                      (keep _ (keep _ (keep _ (keep _ (keep _ done))))))))))))))

on_calls-Cuts_example : on_calls (calls_of get_page) new_request ≡ on_calls pieces new_request
on_calls-Cuts_example = on_calls-Cuts pieces-Cuts new_request

message_received_example :
    let r = on_calls pieces new_request in
    (r.method ≡ bytes "GET")
    × (r.url ≡ bytes "/")
    × (r.version ≡ bytes "1.1")
    × (r.body ≡ [])
    × (r.key ≡ [])
    × (r.value ≡ [])
    × ((k : Bytes) → find k r.headers ≡ last_value k get_page.fields)
message_received_example = message_received get_page pieces pieces-Cuts

second_message_appends_example :
    let r = on_calls (calls_of get_page ++ calls_of get_page) new_request in
    (r.method ≡ bytes "GETGET")
    × (r.url ≡ bytes "//")
    × (r.version ≡ bytes "1.11.1")
    × (r.body ≡ [])
    × ((k : Bytes)
        → find k r.headers ≡ elim (last_value k get_page.fields) [
          | some w ↦ some w
          | none ↦ last_value k get_page.fields
        ])
second_message_appends_example = second_message_appends get_page get_page

abbrev reply : HttpResponse
reply = record new_response {
  version = bytes "1.0";
  status_code = bytes "404";
  status_message = bytes "Not Found";
  headers = (bytes "A", bytes "b: c") ∷ (bytes "D", []) ∷ [];
  body = bytes "x";
}

abbrev same_order : Headers → Headers
same_order hs = hs

read_response-response_bytes_example :
    read_response (response_bytes same_order reply)
    ≡ some (record {
      version = bytes "1.0";
      status_code = bytes "404";
      status_message = bytes "Not Found";
      headers = (bytes "A", bytes "b: c") ∷ (bytes "D", []) ∷ [];
      body = bytes "x";
    })
read_response-response_bytes_example = read_response-response_bytes same_order reply (omega arith)
