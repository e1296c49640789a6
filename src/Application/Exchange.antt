-- ===== src/Application/Exchange.antt =====
-- src/server.cpp over include/connection_types.h: the event in which a request comes in.
use async_event_loop.Base.{
  int_eq, ℕ, suc, ◌≤◌, ◌≡◌, true, false, ap, some, none, refl, [], ◌∙◌, [], bytes_eq,
}
use async_event_loop.Outcome.{ok}
use async_event_loop.Heap.{object, put, put_same, object-put_self}
use async_event_loop.Kernel.{Kernel, SendLaws, Event, recv_error, end_of_stream}
use async_event_loop.Kernel.Flags.{has, epollin, epollerr}
use mathlib.Core.Path.{subst}
use async_event_loop.SocketUtilities.{close_connection}
use async_event_loop.Http.{Headers}
use async_event_loop.Connection.{Parser, Conn, load_live, delete_connection}
use async_event_loop.Connection.Handling.{recv_loop, receive, handle_event}
use async_event_loop.Connection.Receiving.{with}
use async_event_loop.Application.{Handler, on_request, on_client_error, call}
use async_event_loop.Application.Arrival.{W, Arrives}
use async_event_loop.Application.Incoming.{come-Answers}
use async_event_loop.Application.Message.{Comes}

module _ (k : Kernel) (sending : SendLaws k) (ps : Parser) (order : Headers → Headers) where
  pub handle_event-receives :
      (fuel p : ℕ) (ev : Event) (success error : Handler) (errno : ℕ) (c : Conn k ps Handler)
      (w w' : W k ps order)
      → object p w.app ≡ some c
      → has ev.events epollerr ≡ false
      → has ev.events epollin ≡ true
      → recv_loop k ps (call k ps order) fuel p error (with k ps (call k ps order) p c w.kernel w)
        ≡ ok (recv_error errno, w')
      → handle_event k ps (call k ps order) fuel p ev success error w ≡ ok w'
  unfolding handle_event receive
  handle_event-receives fuel p ev success error errno c w w' o no_err in_ev ran =
      let start : with k ps (call k ps order) p c w.kernel w ≡ w =
        ap (λ a. record w { app = a }) (put_same p c w.app o) in
      let ran_here : recv_loop k ps (call k ps order) fuel p error w ≡ ok (recv_error errno, w') =
        subst (λ x. recv_loop k ps (call k ps order) fuel p error x ≡ ok (recv_error errno, w'))
          start ran in
      rw (load_live k ps p w o, no_err, in_ev, ran_here)

  handle_event-ends :
      (fuel p : ℕ) (ev : Event) (success : Handler) (c : Conn k ps Handler) (w w' : W k ps order)
      → object p w.app ≡ some c
      → has ev.events epollerr ≡ false
      → has ev.events epollin ≡ true
      → recv_loop k ps
          (call k ps order)
          fuel
          p
          on_client_error
          (with k ps (call k ps order) p c w.kernel w)
        ≡ ok (end_of_stream, w')
      → handle_event k ps (call k ps order) fuel p ev success on_client_error w
        ≡ delete_connection k ps p w'
  unfolding handle_event receive call
  handle_event-ends fuel p ev success c w w' o no_err in_ev ran =
      let start : with k ps (call k ps order) p c w.kernel w ≡ w =
        ap (λ a. record w { app = a }) (put_same p c w.app o) in
      let ran_here : recv_loop k ps (call k ps order) fuel p on_client_error w
          ≡ ok (end_of_stream, w') =
        subst
          (λ x. recv_loop k ps (call k ps order) fuel p on_client_error x ≡ ok (end_of_stream, w'))
          start ran in
      rw (load_live k ps p w o, no_err, in_ev, ran_here)

  -- A client that stops sending right behind its request gets no answer. A message arrives on a
  -- connection that gives its requests to the application and has sent nothing, in any number of pieces
  -- without an error of the parser, and behind the last the client has closed its side. Then the
  -- connection is deleted and its socket closed in the same event, before a byte of the answer is sent.
  pub half_closed_unanswered :
      {n : ℕ} {c c' : Conn k ps Handler} {s' : k.State} {parser : ps.State} (p fuel : ℕ)
      (ev : Event) (success : Handler) (w : W k ps order)
      → object p w.app ≡ some c
      → c.cb ≡ on_request
      → c.sent_bytes ≡ 0
      → k.outgoing w.kernel c.socket ≡ []
      → has ev.events epollerr ≡ false
      → has ev.events epollin ≡ true
      → Comes k ps w.epollfd_ end_of_stream n c w.kernel c' s' parser
      → suc n ≤ fuel
      → Arrives k ps order p c.socket []
          (handle_event k ps (call k ps order) fuel p ev success on_client_error w)
  unfolding delete_connection
  half_closed_unanswered {c} p fuel ev success w o cb zero_sent idle no_err in_ev comes le =
      let come =
        come-Answers k sending ps order end_of_stream p on_client_error w o comes cb zero_sent idle
          fuel le in
      record {
        world = record come.world {
          kernel = (close_connection k c.socket come.world.kernel).1;
          app = put p none come.world.app;
        };
        kernel = come.world.kernel;
        ends =
            handle_event-ends fuel p ev success c w come.world o no_err in_ev come.ends
            ∙ rw (load_live k ps p come.world come.sends.live, come.same_socket);
        gone = object-put_self p none come.world.app come.sends.live;
        closed = refl;
        out =
            subst (λ d. k.outgoing come.world.kernel d ≡ []) come.same_socket
              (come.sends.out ∙ rw come.none_sent);
      }
