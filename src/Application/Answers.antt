-- ===== src/Application/Answers.antt =====
-- src/server.cpp: the answer to a request, as a client reads it.
use mathlib.Core.List.{Perm}
use mathlib.Core.List.Perm
use async_event_loop.Base.{
  ℕ, ◌≡◌, refl, some, List, [], ◌∷◌, Bytes, arith, All, All-perm, ℤ, bytes_eq,
}
use async_event_loop.Outcome.{ok}
use async_event_loop.UnorderedMap.{assign}
use async_event_loop.Heap.{object, object-put_self}
use async_event_loop.Kernel.{Kernel}
use async_event_loop.Reactor.{Reactor, helper_sock, EventPriority, finish_track, modify_track}
use async_event_loop.Http.{Headers, HttpRequest, HttpResponse}
use async_event_loop.Http.Response.{response_bytes}
use async_event_loop.Http.Response.Reader.{read_response}
use async_event_loop.Http.Response.Roundtrip.{
  IsField, IsField-prop, IsPrintable, read_response-response_bytes,
}
use async_event_loop.Connection.{
  Parser, Conn, World, handling, write_mask, load_live, store, serialize, conn_read, conn_write,
}
use async_event_loop.Application.{
  Handler, on_request, on_sent, on_send_error, call, response_of, page, bytes,
}

abbrev pub answer_headers : List (Bytes × Bytes)
answer_headers =
    (bytes "Content-Type", bytes "text/plain")
    ∷ (bytes "Connection", bytes "close")
    ∷ (bytes "Content-Length", bytes "25")
    ∷ []

module _ (k : Kernel) {Cb App : Type 0} where
  pub modify_track-app :
      (d : ℤ) (mask : ℕ) (p : EventPriority) (cb : Cb) (r : Reactor k Cb App)
      → (modify_track k d mask p cb r).1.app ≡ r.app
  unfolding modify_track finish_track
  modify_track-app d mask p cb r = ground arith

headers_lem : (request : HttpRequest) → (response_of request).headers ≡ answer_headers
unfolding response_of assign
headers_lem request = refl

answer_headers-IsField : All IsField answer_headers
answer_headers-IsField = omega arith

-- The response is fit to be written, in whatever order its headers are iterated.
response_of-IsPrintable :
    (order : Headers → Headers) (request : HttpRequest)
    → ((hs : Headers) → Perm (order hs) hs)
    → IsPrintable (response_of request) (order (response_of request).headers)
unfolding response_of
response_of-IsPrintable order request permutes = record {
  version_word = omega arith;
  code_word = omega arith;
  message_line = omega arith;
  fields =
      All-perm IsField IsField-prop (Perm.symm (permutes (response_of request).headers))
        (rw (headers_lem request) answer_headers-IsField);
}

pub read_back :
    (order : Headers → Headers) (request : HttpRequest)
    → ((hs : Headers) → Perm (order hs) hs)
    → read_response (response_bytes order (response_of request))
      ≡ some (record {
        version = bytes "1.1";
        status_code = bytes "200";
        status_message = bytes "OK";
        headers = order (response_of request).headers;
        body = page;
      })
unfolding response_of
read_back order request permutes =
    read_response-response_bytes order (response_of request)
      (response_of-IsPrintable order request permutes)

module _ (k : Kernel) (ps : Parser) (order : Headers → Headers)
    (permutes : (hs : Headers) → Perm (order hs) hs) where
  -- The world after the application's function on a request.
  pub record Answered (p : ℕ) (c : Conn k ps Handler) (w : World k ps Handler) : Type 0 where
    pub world : World k ps Handler
    pub conn : Conn k ps Handler
    pub headers : List (Bytes × Bytes)
    pub answers : call k ps order on_request p w ≡ ok world
    pub stored : object p world.app ≡ some conn
    pub counted : conn.sent_bytes ≡ c.sent_bytes
    pub reads :
        read_response conn.send_buffer
        ≡ some (record {
          version = bytes "1.1";
          status_code = bytes "200";
          status_message = bytes "OK";
          headers = headers;
          body = page;
        })
    pub permuted : Perm headers answer_headers

  -- For a request on a connection, the application puts a response into the connection's buffer that
  -- a client reads as version 1.1, status 200 OK, the page, and the three headers of the program in
  -- some order, the length of the page among them.
  pub request-Answered :
      (p : ℕ) (c : Conn k ps Handler) (w : World k ps Handler)
      → object p w.app ≡ some c
      → Answered p c w
  unfolding call conn_write conn_read serialize store
  request-Answered p c w o = record {
    world =
        (modify_track k conn.socket write_mask helper_sock (handling p on_sent on_send_error)
          (store k ps p conn w)).1;
    conn = conn;
    headers = order response.headers;
    answers = rw (load_live k ps p w o);
    stored =
        rw
          (modify_track-app k conn.socket write_mask helper_sock (handling p on_sent on_send_error)
            (store k ps p conn w))
          (object-put_self p (some conn) w.app o);
    counted = refl;
    reads = read_back order c.request permutes;
    permuted = rw (← headers_lem c.request) (permutes response.headers);
  }
    where
      response : HttpResponse
      response = response_of c.request

      conn : Conn k ps Handler
      conn = record c { response = some response; send_buffer = response_bytes order response }
