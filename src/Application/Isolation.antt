-- ===== src/Application/Isolation.antt =====
-- src/server.cpp: what an event of one client leaves alone.
use async_event_loop.Base.{int_eq, ℕ, ℤ, ◌≡◌, ◌∙◌, refl, sym, some}
use mathlib.Core.Path.{subst}
use async_event_loop.Outcome.{Returns, Returns-bind}
use async_event_loop.Heap.{object}
use async_event_loop.Kernel.{Kernel, Event, SendLaws, StreamLaws}
use async_event_loop.Http.{Headers, HttpRequest}
use async_event_loop.Reactor.{helper_sock, modify_track}
use async_event_loop.Connection.{
  Parser, Conn, World, handling, write_mask, store, serialize, conn_read, conn_write,
}
use async_event_loop.Connection.Isolation.{
  Others, load-Returns, store-Others, delete-Others, modify_track-Others,
}
use async_event_loop.Connection.Isolation.Events.{handle_event-Others}
use async_event_loop.Server.{run_closure}
use async_event_loop.Application.{
  clients, Handler, on_request, on_client_error, on_sent, on_send_error, call, response_of,
}

module _ (k : Kernel) (sending : SendLaws k) (streams : StreamLaws k) (ps : Parser)
    (order : Headers → Headers) where
  abbrev W : Type 0
  W = World k ps Handler

  module _ (p : ℕ) (d : ℤ) (w0 : W) where
    abbrev Kept : W → Type 0
    Kept = Others k ps p d w0

    write-Others :
        (request : HttpRequest) (w : W)
        → Kept w
        → Returns Kept (conn_write k ps order p (response_of request) on_sent on_send_error w)
    unfolding conn_write serialize
    write-Others request w o = load-Returns k ps p d w0 Kept w _ λ c live.
        let answered : Conn k ps Handler =
          serialize k ps order (record c { response = some (response_of request) }) in
        let on : answered.socket ≡ d = o.own c live in
        subst
          (λ e.
            Kept
              (modify_track k e write_mask helper_sock (handling p on_sent on_send_error)
                (store k ps p answered w)).1)
          (sym on)
          (modify_track-Others k ps sending streams p d w0 write_mask helper_sock
            (handling p on_sent on_send_error) (store k ps p answered w)
            (store-Others k ps p d w0 answered w live on o))

    call-Others : (h : Handler) (w : W) → Kept w → Returns Kept (call k ps order h p w)
    unfolding call conn_read conn_write serialize
    call-Others on_request w o =
        Returns-bind (λ request. Unit) Kept (conn_read k ps p w) _
          (load-Returns k ps p d w0 (λ request. Unit) w _ λ c live. tt)
          λ request _. write-Others request w o
    call-Others on_client_error w o = delete-Others k ps sending streams p d w0 w o
    call-Others on_sent w o = delete-Others k ps sending streams p d w0 w o
    call-Others on_send_error w o = delete-Others k ps sending streams p d w0 w o

  -- Clients do not get in each other's way. When the closure of a connection returns, whatever the event,
  -- what has arrived, what the parser says and how the calls of the system end, every other connection
  -- is as it was before, nothing has been sent on another socket, and the closures and priorities of
  -- other descriptors have not changed. The connection itself, if it is still there, is on its socket.
  pub run_closure-Others :
      (fuel p : ℕ) (ev : Event) (success error : Handler) (c : Conn k ps Handler) (w : W)
      → object p w.app ≡ some c
      → Returns
          (Others k ps p c.socket w)
          (run_closure k ps (clients k ps order fuel) (handling p success error) ev w)
  unfolding run_closure
  run_closure-Others fuel p ev success error c w live =
      handle_event-Others k sending streams ps (call k ps order) p c.socket w
        (call-Others p c.socket w) fuel ev success error w
        (record {
          own = λ b e.
              let same : some c ≡ some b = sym live ∙ e in let eq : c ≡ b = cc in rw (← eq) refl;
          connections = λ q other. refl;
          streams = λ e other. refl;
          closures = λ e other. refl;
          priorities = λ e other. refl;
        })
