-- ===== src/Connection.antt =====
-- include/connection_types.h: `class Clientconnection`.
--
-- `Handler` is the type of the application's functions on a connection, and `call` what a call of
-- one does. llhttp is not in the repository: `Parser` is its interface.
pub mod Handling
pub mod Interface
pub mod Sending
pub mod Progress
pub mod Receiving
pub mod Isolation
use async_event_loop.Base.{
  ℕ, zero, suc, ℤ, pos, negsuc, ◌+◌, ◌≡◌, ◌||◌, Bool, true, false, Option, none, some, List, [],
  ◌∷◌, ◌++◌, Bytes, leb, ◌==◌, if◌then◌else◌, length, drop,
}
use async_event_loop.Outcome.{Outcome, ok, fault, use_after_free, out_of_fuel, ◌>>=◌}
use async_event_loop.Heap.{Heap, object, put}
use async_event_loop.Kernel.{
  Kernel, Event, Received, received, end_of_stream, recv_error, Sent, sent, send_error,
}
use async_event_loop.Kernel.Flags.{
  epollin, epollout, epollerr, epollhup, epollrdhup, epollet, has, ◌or◌, eagain, ewouldblock,
}
use async_event_loop.SocketUtilities.{close_connection}
use async_event_loop.Reactor.{Reactor, helper_sock, modify_track}
use async_event_loop.Http.{HttpRequest, HttpResponse, Headers, new_request}
use async_event_loop.Http.Callbacks.{ParserCall, message_complete, on_call}
use async_event_loop.Http.Response.{response_bytes}

-- `llhttp_execute` on a parser and a buffer: the callbacks that it calls, in order, its error code
-- (0 is HPE_OK) and the parser after it. The program's callbacks all return 0, so that what they do
-- has no influence on the rest of the call.
pub record Parser : Type 1 where
  pub State : Type 0
  pub init : State
  pub execute : State → Bytes → (List ParserCall × ℕ) × State

-- `Clientconnection`. `recvBuffer` is scratch space of `handleEvent`.
pub record Clientconnection (P Handler : Type 0) : Type 0 where
  pub socket : ℤ
  pub request : HttpRequest
  pub response : Option HttpResponse
  pub parser : P
  pub sent_bytes : ℕ
  pub send_buffer : Bytes
  pub cb : Handler
  pub err : Handler

abbrev pub recv_buffer_size : ℕ
recv_buffer_size = 1024

-- The mask of `write`.
abbrev pub write_mask : ℕ
write_mask = epollout or epollet or epollrdhup or epollerr or epollhup

-- The closures that the program gives to the reactor: the one of `HttpServer::listen`, and those
-- that call `handleEvent` of a connection.
pub data Callback (Handler : Type 0) : Type 0 where
  accepting : (cb err : Handler) → Callback Handler
  handling : (conn : ℕ) (success error : Handler) → Callback Handler

-- How the loop of `handleEvent` over `send` ends: by its `break`, or with a result of `send` that is
-- not positive.
pub data SendEnd : Type 0 where
  all_sent : SendEnd
  stopped : Sent → SendEnd

module _ (k : Kernel) (ps : Parser) (Handler : Type 0) where
  abbrev pub Conn : Type 0
  Conn = Clientconnection ps.State Handler

  -- The reactor, the system and the connections.
  abbrev pub World : Type 0
  World = Reactor k (Callback Handler) (Heap Conn)

module _ (k : Kernel) (ps : Parser) {Handler : Type 0} where
  -- A read through a pointer to a connection.
  unfoldable pub load : ℕ → World k ps Handler → Outcome (Conn k ps Handler)
  load p w = elim (object p w.app) [ some c ↦ ok c | none ↦ fault use_after_free ]

  pub load_live :
      (p : ℕ) (w : World k ps Handler) {c : Conn k ps Handler}
      → object p w.app ≡ some c
      → load p w ≡ ok c
  unfolding load
  load_live p w e = rw (e, load)

  pub load_freed :
      (p : ℕ) (w : World k ps Handler) → object p w.app ≡ none → load p w ≡ fault use_after_free
  unfolding load
  load_freed p w e = rw (e, load)

  unfoldable pub store : ℕ → Conn k ps Handler → World k ps Handler → World k ps Handler
  store p c w = record w { app = put p (some c) w.app }

  -- `new Clientconnection(sockfd, reactor, success, error)`
  unfoldable pub new_connection :
      ℤ → Handler → Handler → World k ps Handler → ℕ × World k ps Handler
  new_connection sockfd success error w =
      let c : Conn k ps Handler = record {
        socket = sockfd;
        request = new_request;
        response = none;
        parser = ps.init;
        sent_bytes = 0;
        send_buffer = [];
        cb = success;
        err = error;
      } in
      (length w.app, record w { app = w.app ++ (some c ∷ []) })

  -- `delete conn`: the destructor closes the socket. It does not free the response.
  unfoldable pub delete_connection : ℕ → World k ps Handler → Outcome (World k ps Handler)
  delete_connection p w = do
    c ← load p w
    ok (record w { kernel = (close_connection k c.socket w.kernel).1; app = put p none w.app })

  unfoldable pub conn_close : ℕ → World k ps Handler → Outcome (World k ps Handler)
  conn_close p w = do
    c ← load p w
    ok (record w { kernel = (close_connection k c.socket w.kernel).1 })

  unfoldable pub conn_read : ℕ → World k ps Handler → Outcome HttpRequest
  conn_read p w = do c ← load p w; ok c.request

  -- `order` is the order in which the headers of a response are iterated.
  unfoldable pub serialize : (Headers → Headers) → Conn k ps Handler → Conn k ps Handler
  serialize order c = elim c.response [
    | none ↦ c
    | some response ↦ record c { send_buffer = response_bytes order response }
  ]

  unfoldable pub conn_write :
      (Headers → Headers)
      → ℕ
      → HttpResponse
      → Handler
      → Handler
      → World k ps Handler
      → Outcome (World k ps Handler)
  conn_write order p response success error w = do
    c ← load p w
    let c' : Conn k ps Handler = serialize order (record c { response = some response })
    ok (modify_track k c'.socket write_mask helper_sock (handling p success error) (store p c' w)).1

  -- `while ((bytes_sent = send(…)) > 0)`, with the number of rounds as fuel; it works on the
  -- connection's own members and calls nobody, so it runs on them and the system alone.
  unfoldable pub send_loop :
      ℕ → Conn k ps Handler → k.State → Outcome (SendEnd × Conn k ps Handler × k.State)
  send_loop zero c s = fault out_of_fuel
  send_loop (suc fuel) c s =
      let (r, s') = k.send c.socket (drop c.sent_bytes c.send_buffer) s in
      elim r [
        | sent zero ↦ ok (stopped (sent zero), c, s')
        | sent (suc n) ↦
            let c' : Conn k ps Handler = record c { sent_bytes = c.sent_bytes + suc n } in
            let again = send_loop fuel c' s' in
            if leb (length c.send_buffer) c'.sent_bytes
            then ok (all_sent, record c { send_buffer = []; sent_bytes = 0 }, s')
            else again
        | send_error errno ↦ ok (stopped (send_error errno), c, s')
      ]
