-- ===== src/Application/Faults.antt =====
-- src/server.cpp over include/connection_types.h: a connection that the application deletes while
-- `handleEvent` still uses it.
use async_event_loop.Base.{
  ℕ, suc, ◌≡◌, ◌≢◌, true, false, some, none, List, ◌∷◌, Bytes, arith, All, ◌==◌,
}
use async_event_loop.Outcome.{ok, fault, use_after_free}
use async_event_loop.Heap.{object, put, object-put_self}
use async_event_loop.Kernel.{Kernel, Event, received}
use async_event_loop.Kernel.Flags.{has, epollerr, epollin}
use async_event_loop.Http.{Headers}
use async_event_loop.Http.Callbacks.{ParserCall, on_calls}
use async_event_loop.SocketUtilities.{close_connection}
use async_event_loop.Connection.{
  Parser, Conn, World, recv_buffer_size, load_live, load_freed, delete_connection,
}
use async_event_loop.Connection.Handling.{recv_loop, receive, handle_event}
use async_event_loop.Connection.Receiving.{IsPart, execute_parser_part}
use async_event_loop.Application.{Handler, on_client_error, call}

module _ (k : Kernel) (ps : Parser) (order : Headers → Headers) where
  -- After `delete` the connection is gone.
  deleted :
      (p : ℕ) (c : Conn k ps Handler) (w : World k ps Handler)
      → object p w.app ≡ some c
      → call k ps order on_client_error p w
        ≡ ok
            (record w { kernel = (close_connection k c.socket w.kernel).1; app = put p none w.app })
  unfolding call delete_connection
  deleted p c w o = rw (load_live k ps p w o)

  -- The next round of the loop reads the socket of a connection that is gone.
  recv_loop_freed :
      (fuel p : ℕ) (error : Handler) (w : World k ps Handler)
      → object p w.app ≡ none
      → recv_loop k ps (call k ps order) (suc fuel) p error w ≡ fault use_after_free
  unfolding recv_loop
  recv_loop_freed fuel p error w o = rw (load_freed k ps p w o)

  recv_loop_bad :
      (fuel p : ℕ) (c : Conn k ps Handler) (w : World k ps Handler) (b : ℕ) (bs : Bytes)
      (calls : List ParserCall) (llerror : ℕ) (parser : ps.State)
      → object p w.app ≡ some c
      → (k.recv c.socket recv_buffer_size w.kernel).0 ≡ received b bs
      → ps.execute c.parser (b ∷ bs) ≡ ((calls, llerror), parser)
      → All IsPart calls
      → llerror ≢ 0
      → recv_loop k ps (call k ps order) (suc (suc fuel)) p on_client_error w ≡ fault use_after_free
  unfolding recv_loop
  recv_loop_bad fuel p c w b bs calls llerror parser o r e q bad = rw (
    load_live k ps p w o,
    r,
    execute_parser_part k ps (call k ps order) p (b ∷ bs) calls llerror parser c w' o e q,
    is_error,
    deleted p after (record w' { app = put p (some after) w.app })
        (object-put_self p (some after) w.app o),
    recv_loop_freed fuel p on_client_error gone
        (object-put_self p none _ (object-put_self p (some after) w.app o)),
  )
    where
      w' : World k ps Handler
      w' = record w { kernel = (k.recv c.socket recv_buffer_size w.kernel).1 }

      after : Conn k ps Handler
      after = record c { request = on_calls calls c.request; parser = parser }

      gone : World k ps Handler
      gone = record w' {
        kernel = (close_connection k c.socket w'.kernel).1;
        app = put p none (put p (some after) w.app);
      }

      is_error : (llerror == 0) ≡ false
      is_error = ground arith

  -- On an event with EPOLLIN and without EPOLLERR the first piece of bytes is one at which the parser
  -- reports an error, and no end of a message before it: then the application's error function deletes
  -- the connection, and the loop in `handleEvent`, with a bound of two rounds or more, goes on to use it.
  pub parse_error_use_after_free :
      (fuel p : ℕ) (ev : Event) (success : Handler) (c : Conn k ps Handler) (w : World k ps Handler)
      (b : ℕ) (bs : Bytes) (calls : List ParserCall) (llerror : ℕ) (parser : ps.State)
      → has ev.events epollerr ≡ false
      → has ev.events epollin ≡ true
      → object p w.app ≡ some c
      → (k.recv c.socket recv_buffer_size w.kernel).0 ≡ received b bs
      → ps.execute c.parser (b ∷ bs) ≡ ((calls, llerror), parser)
      → All IsPart calls
      → llerror ≢ 0
      → handle_event k ps (call k ps order) (suc (suc fuel)) p ev success on_client_error w
        ≡ fault use_after_free
  unfolding handle_event receive
  parse_error_use_after_free fuel p ev success c w b bs calls llerror parser no_err in_ev o r e q
        bad =
      rw (
        load_live k ps p w o,
        no_err,
        in_ev,
        recv_loop_bad fuel p c w b bs calls llerror parser o r e q bad,
      )
