-- ===== src/Application/Service.antt =====
-- src/server.cpp over the whole of include/: what running a closure leaves of the order of the server.
use async_event_loop.Base.{
  int_eq, ℕ, ℤ, failed, ◌≡◌, refl, sym, ◌∙◌, Bool-cases, inl, inr, none, some, [], Bytes, false,
  ◌≤◌, arith, length,
}
use async_event_loop.UnorderedMap.{find, assign}
use async_event_loop.ThreadSafeMap.{insert}
use async_event_loop.Heap.{object-new}
use async_event_loop.Kernel.{Kernel, Event, EpollLaws, InterestLaws, SendLaws}
use async_event_loop.Kernel.Flags.{has, epollin, epollout, epollerr}
use async_event_loop.SocketUtilities.{accept_connection, add_epoll_interest}
use async_event_loop.SocketUtilities.Interest.{add_epoll_interest-Watches}
use async_event_loop.Http.{Headers, new_request}
use async_event_loop.Reactor.{
  Reactor, EventPriority, listen_sock, new_sock, async_accept, add_track, finish_track,
}
use async_event_loop.Connection.{
  Parser, Conn, World, Callback, accepting, handling, load_live, new_connection,
}
use async_event_loop.Connection.Handling.{handle_event}
use async_event_loop.Server.{accept_mask, accept_one, run_closure}
use async_event_loop.Application.{clients, Handler, on_request, call}
use async_event_loop.Application.Serving.{Leads, IsServed, IsServing, Serves}
use async_event_loop.Application.Serving.Steps.{
  fewer-Serves, finish_track-Serves, new-Serves, more-Serves,
}
use async_event_loop.Outcome.{Safe}
use async_event_loop.Application.Safety.{At, call-Safe}
use async_event_loop.Application.Events.{receive-Safe}
use async_event_loop.Application.Transmitting.{transmit-Safe}

module _ (k : Kernel) (epoll : EpollLaws k) (laws : InterestLaws k) (sending : SendLaws k)
    (ps : Parser) (order : Headers → Headers) (least : ℕ) (due : ℤ → Type 0) where
  abbrev W : Type 0
  W = World k ps Handler

  module _ (content : (st : ps.State) (bs : Bytes) → (ps.execute st bs).0.1 ≡ 0) where
    handle_event-Safe :
        (fuel p : ℕ) (d : ℤ) (ev : Event) (success error : Handler) (w : W)
        → At k ps order laws least due p d w
        → Safe
            (Serves k ps order laws least due)
            (handle_event k ps (call k ps order) fuel p ev success error w)
    unfolding handle_event
    handle_event-Safe fuel p d ev success error w (s, (c, o, own), done) =
        rw (load_live k ps p w o) (elim (Bool-cases (has ev.events epollerr)) [
          | inl err ↦
              rw err (call-Safe k epoll laws ps order least due error p d w (s, (c, o, own), done))
          | inr no_err ↦ elim (Bool-cases (has ev.events epollin)) [
            | inl in_ev ↦
                rw (no_err, in_ev)
                  (receive-Safe k epoll laws ps order least due content fuel p d error w
                    (s, (c, o, own), done))
            | inr no_in ↦ elim (Bool-cases (has ev.events epollout)) [
              | inl out ↦
                  rw (no_err, no_in, out)
                    (transmit-Safe k epoll laws sending ps order least due p d success error w
                      (s, (c, o, own), done))
              | inr no_out ↦ rw (no_err, no_in, no_out) s
            ]
          ]
        ])

  -- `acceptConnection` puts nothing on the interest list.
  accept_connection-fewer :
      (l e d : ℤ) (mask : ℕ) (s : k.State)
      → k.interest (accept_connection k l s).1 e d ≡ some mask
      → k.interest s e d ≡ some mask
  unfolding accept_connection
  accept_connection-fewer l e d mask s i = ground (
    arith,
    laws.accept_keeps e l d s,
    laws.nonblock_keeps e (k.accept l s).0.0 d (k.accept l s).1,
    laws.close_forgets e (k.accept l s).0.0 d
        (k.set_nonblock (k.accept l s).0.0 (k.accept l s).1).1,
  )

  accept_one-Serves :
      (ev : Event) (err : Handler) (w : W)
      → Serves k ps order laws least due w
      → Serves k ps order laws least due (accept_one k ps ev on_request err w)
  unfolding accept_one new_connection add_track
  accept_one-Serves ev err w s = elim (Bool-cases (failed newfd)) [
    | inl bad ↦ rw bad accepted
    | inr good ↦ rw good (
        finish_track-Serves k ps order laws newfd accept_mask new_sock
          (handling conn on_request err) w'' _
          (add_epoll_interest-Watches k epoll w''.epollfd_ newfd accept_mask w''.kernel)
          (fresh, object-new fresh w.app, (refl, refl, inl (refl, refl)))
          (new-Serves k ps order laws fresh _ accepted))
  ]
    where
      accepted :
          Serves k ps order laws least due
            (record w { kernel = (accept_connection k ev.fd w.kernel).1 })
      accepted =
          fewer-Serves k ps order laws w _
            (λ d mask i. accept_connection-fewer ev.fd w.epollfd_ d mask w.kernel i) s

      newfd : ℤ
      newfd = (accept_connection k ev.fd w.kernel).0

      conn : ℕ
      conn = length w.app

      w'' : W
      w'' =
          (new_connection k ps newfd on_request err
            (record w { kernel = (accept_connection k ev.fd w.kernel).1 })).1

      fresh : Conn k ps Handler
      fresh = record {
        socket = newfd;
        request = new_request;
        response = none;
        parser = ps.init;
        sent_bytes = 0;
        send_buffer = [];
        cb = on_request;
        err = err;
      }

  pub closure-Safe :
      (content : (st : ps.State) (bs : Bytes) → (ps.execute st bs).0.1 ≡ 0) (fuel : ℕ)
      (cb : Callback Handler) (ev : Event) (w : W)
      → Leads k ps order ev.fd cb w
      → ¬ due ev.fd
      → Serves k ps order laws least due w
      → Safe (Serves k ps order laws least due) (run_closure k ps (clients k ps order fuel) cb ev w)
  unfolding run_closure
  closure-Safe content fuel (handling p success error) ev w l done s =
      handle_event-Safe content fuel p ev.fd ev success error w (s, l, done)
  closure-Safe content fuel (accepting cb err) ev w l done s =
      elim (Bool-cases (has ev.events epollerr)) [
        | inl bad ↦ rw bad s
        | inr good ↦ elim (Bool-cases (has ev.events epollin)) [
          | inl in_ev ↦ rw (good, in_ev, l) (accept_one-Serves ev err w s)
          | inr no_in ↦ rw (good, no_in) s
        ]
      ]

  -- While every descriptor that is watched or due leads to new clients or to a live connection of its
  -- own, and the parser reports no error, an event on such a descriptor, of which no other event
  -- waits in the queue, finds its closure. Running the closure uses no connection that is gone and
  -- deletes none twice, and afterwards every descriptor that is watched or due leads to new clients or
  -- to a live connection of its own again; all this as long as the loop over `recv` stays within its
  -- bound.
  pub event-Serves :
      (content : (st : ps.State) (bs : Bytes) → (ps.execute st bs).0.1 ≡ 0) (fuel : ℕ) (ev : Event)
      (w : W)
      → Serves k ps order laws least due w
      → IsServed k ps order ev.fd w
      → ¬ due ev.fd
      → (cb : Callback Handler) × (find ev.fd w.event_callback_.map_ ≡ some cb)
        × Safe
            (Serves k ps order laws least due)
            (run_closure k ps (clients k ps order fuel) cb ev w)
  event-Serves content fuel ev w s (cb, found, l) done =
      (cb, found, closure-Safe content fuel cb ev w l done s)

module _ (k : Kernel) {Cb App : Type 0} where
  first_closure :
      (d : ℤ) (prio : EventPriority) (cb : Cb) (r : Reactor k Cb App) (done : ℤ × k.State)
      → r.event_callback_.map_ ≡ []
      → failed (finish_track k d prio cb r done).0 ≡ false
      → 1 ≤ length (finish_track k d prio cb r done).1.event_callback_.map_
  unfolding finish_track insert assign
  first_closure d prio cb r (status, s') none_yet good = elim (Bool-cases (failed status)) [
    | inl bad ↦ absurd (ground arith)
    | inr up ↦ rw (up, none_yet) (omega arith)
  ]

module _ (k : Kernel) (epoll : EpollLaws k) (laws : InterestLaws k) (ps : Parser)
    (order : Headers → Headers) where
  -- When `listen` has registered the listening socket with a reactor that has no closure before, and
  -- whose epoll instance watches nothing before, every watched descriptor leads to new clients; and
  -- there is a closure, if the registration has not failed.
  pub listening-Serves :
      (d : ℤ) (err : Handler) (w : World k ps Handler)
      → ((c : ℤ) → k.interest w.kernel w.epollfd_ c ≡ none)
      → w.event_callback_.map_ ≡ []
      → let (status, w') = async_accept k d (accepting on_request err) w in
        IsServing k ps order laws 0 w' × (failed status ≡ false → IsServing k ps order laws 1 w')
  unfolding async_accept find
  listening-Serves d err w idle none_yet = (
    registered,
    λ good.
        more-Serves k ps order laws 1 _
          (first_closure k d listen_sock (accepting on_request err) w
            (add_epoll_interest k w.epollfd_ d epollin w.kernel) none_yet good)
          registered,
  )
    where
      no_mask : (c : ℤ) (mask : ℕ) → k.interest w.kernel w.epollfd_ c ≡ some mask → ⊥
      no_mask c mask i = let e : none ≡ some mask = sym (idle c) ∙ i in cc

      empty : (c : ℤ) → find c w.event_callback_.map_ ≡ none
      empty c = rw none_yet refl

      no_closure : (c : ℤ) (cb : Callback Handler) → find c w.event_callback_.map_ ≡ some cb → ⊥
      no_closure c cb found = let e : none ≡ some cb = sym (empty c) ∙ found in cc

      registered : IsServing k ps order laws 0 (async_accept k d (accepting on_request err) w).1
      registered =
          finish_track-Serves k ps order laws d epollin listen_sock (accepting on_request err) w _
            (add_epoll_interest-Watches k epoll w.epollfd_ d epollin w.kernel) refl
            (record {
              watched = λ c mask i. absurd (no_mask c mask i);
              queued = λ c x. absurd x;
              unique = rw none_yet tt;
              descriptors = λ c cb found. absurd (no_closure c cb found);
              enough = omega arith;
            })
