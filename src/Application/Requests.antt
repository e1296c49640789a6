-- ===== src/Application/Requests.antt =====
-- src/server.cpp over include/connection_types.h: the answer that the application gives.
use async_event_loop.ThreadSafeMap.{insert}
use async_event_loop.Base.{
  failed, false, int_eq, ℕ, ℤ, ◌<◌, ◌≡◌, refl, ap, ◌∙◌, some, [], ◌++◌, bytes_eq, arith,
  length-append, foldl, length,
}
use async_event_loop.Outcome.{ok}
use async_event_loop.Heap.{object, object-put_self}
use async_event_loop.Kernel.{Kernel, SendLaws}
use async_event_loop.SocketUtilities.{modify_epoll_interest}
use async_event_loop.Http.{Headers}
use async_event_loop.Http.Response.{response_bytes, append_header, crlf}
use async_event_loop.Connection.{
  Parser, Conn, Callback, handling, write_mask, load_live, store, serialize, conn_read, conn_write,
}
use async_event_loop.Reactor.{EventPriority, helper_sock, finish_track, modify_track}
use async_event_loop.Application.Answers.{modify_track-app}
use async_event_loop.Kernel.Flags.{epoll_ctl_mod}
use async_event_loop.Application.{
  Handler, on_request, on_sent, on_send_error, call, response_of, page,
}
use async_event_loop.Application.Serving.{answer}
use async_event_loop.Application.Arrival.{W, IsSending}

module _ (k : Kernel) (sending : SendLaws k) (ps : Parser) (order : Headers → Headers) where
  modify_track-stream :
      (d c : ℤ) (mask : ℕ) (prio : EventPriority) (cb : Callback Handler) (w : W k ps order)
      → k.outgoing (modify_track k d mask prio cb w).1.kernel c ≡ k.outgoing w.kernel c
  unfolding modify_track finish_track modify_epoll_interest
  modify_track-stream d c mask prio cb w = ground (
    arith,
    sending.ctl_sends_nothing w.epollfd_ epoll_ctl_mod d c (some (record { events = mask; fd = d }))
        w.kernel,
  )

  -- The connection after the application has answered a request on it.
  abbrev pub answering : Conn k ps Handler → Conn k ps Handler
  answering c = serialize k ps order (record c { response = some (response_of c.request) })

  -- The world after that.
  abbrev pub answered : ℕ → Conn k ps Handler → W k ps order → W k ps order
  answered p c w =
      (modify_track k (answering c).socket write_mask helper_sock (handling p on_sent on_send_error)
        (store k ps p (answering c) w)).1

  answer-length : 0 < length (answer order)
  unfolding response_bytes response_of
  answer-length = omega (arith, length-append (foldl append_header _ (order _) ++ crlf) page)

  pub request_sends :
      (p : ℕ) (c : Conn k ps Handler) (w : W k ps order)
      → object p w.app ≡ some c
      → c.sent_bytes ≡ 0
      → k.outgoing w.kernel c.socket ≡ []
      → (call k ps order on_request p w ≡ ok (answered p c w))
        × IsSending k sending ps order p (answering c) (answer order) (answered p c w)
  unfolding call conn_read conn_write serialize store response_of
  request_sends p c w o zero_sent idle = (
    rw (load_live k ps p w o),
    record {
      live =
          ap (object p) (
            modify_track-app k c.socket write_mask helper_sock (handling p on_sent on_send_error)
              (store k ps p (answering c) w))
          ∙ object-put_self p (some (answering c)) w.app o;
      buffer = refl;
      part = rw zero_sent answer-length;
      out =
          modify_track-stream c.socket c.socket write_mask helper_sock
            (handling p on_sent on_send_error) (store k ps p (answering c) w)
          ∙ idle
          ∙ rw zero_sent;
    },
  )

  pub answered_kernel :
      (p : ℕ) (c : Conn k ps Handler) (w : W k ps order)
      → (answered p c w).kernel
        ≡ (modify_epoll_interest k w.epollfd_ c.socket write_mask w.kernel).1
  unfolding modify_track finish_track modify_epoll_interest serialize store
  answered_kernel p c w = ground arith

  -- If the registration of the event that the socket is writable is accepted, its closure is the
  -- application's for a response.
  pub answered_callbacks :
      (p : ℕ) (c : Conn k ps Handler) (w : W k ps order)
      → failed (modify_epoll_interest k w.epollfd_ c.socket write_mask w.kernel).0 ≡ false
      → (answered p c w).event_callback_
        ≡ insert c.socket (handling p on_sent on_send_error) w.event_callback_
  unfolding modify_track finish_track serialize store
  answered_callbacks p c w registered = ground (arith, registered)

  pub answered_reactor :
      (p : ℕ) (c : Conn k ps Handler) (w : W k ps order)
      → ((answered p c w).epollfd_ ≡ w.epollfd_) × ((answered p c w).max_events_ ≡ w.max_events_)
  unfolding modify_track finish_track serialize store
  answered_reactor p c w = ground arith
