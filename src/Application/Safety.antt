-- ===== src/Application/Safety.antt =====
-- src/server.cpp over the whole of include/: no event leads to a connection that is gone.
use async_event_loop.Base.{int_eq, ℕ, ℤ, refl, ap, ◌∙◌, inl, inr, some, arith}
use async_event_loop.Outcome.{Safe, Safe-weaken}
use async_event_loop.Heap.{object, object-put_self}
use async_event_loop.Kernel.{Kernel, EpollLaws, InterestLaws}
use async_event_loop.SocketUtilities.Interest.{modify_epoll_interest-Watches}
use async_event_loop.Reactor.{helper_sock, modify_track}
use async_event_loop.Http.{Headers, HttpRequest}
use async_event_loop.Connection.{
  Parser, Conn, World, handling, write_mask, load_live, store, delete_connection, conn_read,
  conn_write, serialize,
}
use async_event_loop.Application.{
  Handler, on_request, on_client_error, on_sent, on_send_error, call, response_of,
}
use async_event_loop.Application.Serving.{Owns, Live, Serves}
use async_event_loop.Application.Serving.Steps.{store-Serves, finish_track-Serves, delete-Serves}
use async_event_loop.Application.Answers.{modify_track-app}

module _ (k : Kernel) (ps : Parser) (order : Headers → Headers) (laws : InterestLaws k) (least : ℕ)
    (due : ℤ → Type 0) where
  -- The server is in order, and `p` is live on `d`, of which no event waits in the queue.
  abbrev pub At : ℕ → ℤ → World k ps Handler → Type 0
  At p d w = Serves k ps order laws least due w × Live k ps order p d w × ¬ due d

module _ (k : Kernel) (epoll : EpollLaws k) (laws : InterestLaws k) (ps : Parser)
    (order : Headers → Headers) (least : ℕ) (due : ℤ → Type 0) where
  abbrev W : Type 0
  W = World k ps Handler

  -- The application's functions, on a live connection.
  delete-Safe :
      (p : ℕ) (d : ℤ) (w : W)
      → At k ps order laws least due p d w
      → Safe (Serves k ps order laws least due) (delete_connection k ps p w)
  unfolding delete_connection
  delete-Safe p d w (s, (c, o, (on, cb, fits)), done) =
      rw (load_live k ps p w o) (delete-Serves k ps order laws p c w o (rw on done) s)

  -- A response in the buffer.
  serialize-Owns :
      (c : Conn k ps Handler) (request : HttpRequest) (d : ℤ)
      → Owns k ps order d c
      → Owns k ps order d
          (serialize k ps order (record c { response = some (response_of request) }))
  unfolding serialize response_of
  serialize-Owns c request d (on, cb, inl (empty, zero)) = (on, cb, inr (refl, omega arith))
  serialize-Owns c request d (on, cb, inr (full, le)) = (on, cb, inr (refl, le))

  write-At :
      (p : ℕ) (d : ℤ) (w : W) (request : HttpRequest) (success error : Handler)
      → At k ps order laws least due p d w
      → Safe
          (At k ps order laws least due p d)
          (conn_write k ps order p (response_of request) success error w)
  unfolding conn_write modify_track store
  write-At p d w request success error (s, (c, o, own), done) = rw (load_live k ps p w o) (
    finish_track-Serves k ps order laws conn.socket write_mask helper_sock
        (handling p success error) w' _
        (modify_epoll_interest-Watches k epoll w'.epollfd_ conn.socket write_mask w'.kernel)
        (conn, object-put_self p (some conn) w.app o, (refl, owned.1, owned.2))
        (store-Serves k ps order laws p c conn w o (λ e. serialize-Owns c request e) s),
    (
      conn,
      ap (object p)
            (modify_track-app k conn.socket write_mask helper_sock (handling p success error) w')
          ∙ object-put_self p (some conn) w.app o,
      owned,
    ),
    done,
  )
    where
      conn : Conn k ps Handler
      conn = serialize k ps order (record c { response = some (response_of request) })

      owned : Owns k ps order d conn
      owned = serialize-Owns c request d own

      w' : W
      w' = store k ps p conn w

  pub request-At :
      (p : ℕ) (d : ℤ) (w : W)
      → At k ps order laws least due p d w
      → Safe (At k ps order laws least due p d) (call k ps order on_request p w)
  unfolding call conn_read
  request-At p d w (s, (c, o, own), done) =
      rw (load_live k ps p w o)
        (write-At p d w c.request on_sent on_send_error (s, (c, o, own), done))

  pub call-Safe :
      (h : Handler) (p : ℕ) (d : ℤ) (w : W)
      → At k ps order laws least due p d w
      → Safe (Serves k ps order laws least due) (call k ps order h p w)
  unfolding call
  call-Safe on_request p d w a =
      Safe-weaken (At k ps order laws least due p d) (Serves k ps order laws least due)
        (call k ps order on_request p w) (request-At p d w a) (λ w' b. b.0)
  call-Safe on_client_error p d w a = delete-Safe p d w a
  call-Safe on_sent p d w a = delete-Safe p d w a
  call-Safe on_send_error p d w a = delete-Safe p d w a
