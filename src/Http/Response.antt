-- ===== src/Http/Response.antt =====
-- include/connection_types.h, `serialize`: the bytes of a response.
pub mod Reader
pub mod Roundtrip
use async_event_loop.Base.{List, [], ◌∷◌, ◌++◌, foldl, Bytes}
use async_event_loop.Http.{Headers, HttpResponse}

-- `{ '\r', '\n' }`
abbrev pub crlf : Bytes
crlf = 13 ∷ 10 ∷ []

-- The body of the loop over the headers.
unfoldable pub append_header : Bytes → Bytes × Bytes → Bytes
append_header buffer (name, value) = ((buffer ++ name) ++ b':' ∷ b' ' ∷ []) ++ (value ++ crlf)

-- The bytes that `serialize` leaves in the cleared buffer. `order` is the list of the headers in the
-- order in which the hash map is iterated, which the standard leaves open.
unfoldable pub response_bytes : (Headers → Headers) → HttpResponse → Bytes
unfolding append_header
response_bytes order response =
    let status_line : Bytes =
      (b'H' ∷ b'T' ∷ b'T' ∷ b'P' ∷ b'/' ∷ [])
      ++ (response.version
          ++ (b' ' ∷ (response.status_code ++ (b' ' ∷ (response.status_message ++ crlf))))) in
    let head : Bytes = foldl append_header status_line (order response.headers) in
    (head ++ crlf) ++ response.body
