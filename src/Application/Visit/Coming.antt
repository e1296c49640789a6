-- ===== src/Application/Visit/Coming.antt =====
-- src/server.cpp over `reactorRun` of include/reactor.h: the rounds of the loop that accept a client and
-- read its request.
use async_event_loop.Base.{
  int_eq, failed, ℕ, suc, ℤ, ◌<◌, ◌≤◌, ◌^◌, ◌≡◌, refl, ap, true, false, some, [], ◌∷◌, ◌++◌, length,
}
use async_event_loop.UnorderedMap.{lookups}
use async_event_loop.ThreadSafeMap.{insert}
use async_event_loop.Outcome.{Outcome, ok}
use async_event_loop.Heap.{object}
use async_event_loop.Kernel.{Kernel, SendLaws, StreamLaws, Event, recv_error}
use async_event_loop.Kernel.Flags.{epollin, epollerr, has}
use async_event_loop.SocketUtilities.{accept_connection, add_epoll_interest, modify_epoll_interest}
use async_event_loop.Http.{Headers}
use async_event_loop.Reactor.{EventQueue, new_sock, finish_track, add_track}
use async_event_loop.Reactor.Single.{IsWaiting}
use async_event_loop.Connection.{
  Parser, Conn, Callback, accepting, handling, write_mask, new_connection,
}
use async_event_loop.Server.Accepting.{connection_on}
use async_event_loop.Server.{accept_mask, accept_one, run_closure}
use async_event_loop.Application.{Handler, on_request, on_client_error, on_sent, on_send_error}
use async_event_loop.Application.Exchange.{handle_event-receives}
use async_event_loop.Application.Serving.{answer}
use async_event_loop.Application.Arrival.{W, IsSending}
use async_event_loop.Application.Incoming.{come-Answers}
use async_event_loop.Application.Message.{Comes}
use async_event_loop.Application.Visit.Draining.{run, woke, Reports}

module _ (k : Kernel) (ps : Parser) (order : Headers → Headers) where
  -- The connection object of a new client.
  abbrev pub newcomer : ℤ → Conn k ps Handler
  newcomer d = connection_on k ps d on_request on_client_error

  -- The world with a new client on the descriptor `d`, after the registration of its socket in the
  -- state `s` of the system.
  abbrev pub accepted : ℤ → k.State → W k ps order → W k ps order
  accepted d s w = record w {
    kernel = (add_epoll_interest k w.epollfd_ d accept_mask s).1;
    event_callback_ =
        insert d (handling (length w.app) on_request on_client_error) w.event_callback_;
    event_priority_ = insert d new_sock w.event_priority_;
    app = w.app ++ (some (newcomer d) ∷ []);
  }

  pub accept_one-accepted :
      (ev : Event) (d : ℤ) (s : k.State) (w : W k ps order)
      → accept_connection k ev.fd w.kernel ≡ (d, s)
      → failed d ≡ false
      → failed (add_epoll_interest k w.epollfd_ d accept_mask s).0 ≡ false
      → accept_one k ps ev on_request on_client_error w ≡ accepted d s w
  unfolding accept_one new_connection add_track finish_track
  accept_one-accepted ev d s w a good registered = rw (a, good, registered)

module _ (k : Kernel) (ps : Parser) (order : Headers → Headers) (pq : EventQueue) (fuel : ℕ) where
  abbrev Woke : W k ps order → W k ps order
  Woke = woke k ps order pq fuel

  -- The event is that the descriptor is readable, without an error.
  abbrev pub IsReadable : ℤ → Event → Type 0
  IsReadable d ev = (ev.fd ≡ d) × (has ev.events epollerr ≡ false) × (has ev.events epollin ≡ true)

  -- A client connects: `epoll_wait` reports the listening socket `sock` and nothing else, `accept`
  -- succeeds, and so does the registration of the new socket `client`.
  pub record Connects (sock client : ℤ) (s : k.State) (w : W k ps order) : Type 0 where
    pub event : Event
    pub told : Reports k ps order pq fuel w event
    pub readable : IsReadable sock event
    pub accepts : accept_connection k sock (Woke w).kernel ≡ (client, s)
    pub good : failed client ≡ false
    pub registers : failed (add_epoll_interest k w.epollfd_ client accept_mask s).0 ≡ false

  -- The client sends a request: `epoll_wait` reports its socket and nothing else, on which nothing has
  -- been sent, `recv` reports a message in `n` pieces, and epoll accepts to watch for the event that
  -- the socket is writable.
  pub record Asks (client : ℤ) (n : ℕ) (w : W k ps order) : Type 0 where
    pub event : Event
    pub told : Reports k ps order pq fuel w event
    pub readable : IsReadable client event
    pub idle : k.outgoing (Woke w).kernel client ≡ []
    pub errno : ℕ
    pub asked : Conn k ps Handler
    pub system : k.State
    pub parser : ps.State
    pub comes :
        Comes k ps w.epollfd_
          (recv_error errno)
          n
          (newcomer k ps order client)
          (Woke w).kernel
          asked
          system
          parser
    pub registers : failed (modify_epoll_interest k w.epollfd_ client write_mask system).0 ≡ false

module _ (k : Kernel) (sending : SendLaws k) (ps : Parser) (order : Headers → Headers)
    (pq : EventQueue) (fuel : ℕ) (streams : StreamLaws k) where
  abbrev Runs : Callback Handler → Event → W k ps order → Outcome (W k ps order)
  Runs = run k ps order pq fuel

  abbrev Wakes : W k ps order → W k ps order
  Wakes = woke k ps order pq fuel

  pub Connects-accepted :
      (sock client : ℤ) (s : k.State) (w : W k ps order)
      (v : Connects k ps order pq fuel sock client s w)
      → Runs (accepting on_request on_client_error) v.event (Wakes w)
        ≡ ok (accepted k ps order client s (Wakes w))
  unfolding run_closure
  Connects-accepted sock client s w v =
      let (on, no_err, in_ev) = v.readable in
      rw (no_err, in_ev)
        (ap ok (
          accept_one-accepted k ps order v.event client s (Wakes w) (rw on v.accepts) v.good
            v.registers))

  pub accepted-IsWaiting :
      (client : ℤ) (s : k.State) (last : pq.Queue) (q : pq.Queue) (w : W k ps order)
      → IsWaiting k pq Runs q w
      → suc (length w.event_callback_.map_) < 2 ^ 31
      → pq.items last ≡ []
      → IsWaiting k pq Runs last (accepted k ps order client s (Wakes w))
  unfolding insert
  accepted-IsWaiting client s last q w waiting room empty = record {
    is_empty = empty;
    some_left = grind lookups;
    small = grind lookups;
  }

  -- The request is read, and answered.
  pub record Answered (client : ℤ) (n p : ℕ) (event : Event) (system : k.State) (w : W k ps order)
      : Type 0 where
    pub world : W k ps order
    pub conn : Conn k ps Handler
    pub runs : Runs (handling p on_request on_client_error) event (Wakes w) ≡ ok world
    pub on_socket : conn.socket ≡ client
    pub sends : IsSending k sending ps order p conn (answer order) world
    pub callbacks :
        world.event_callback_ ≡ insert client (handling p on_sent on_send_error) w.event_callback_

  pub Asks-Answered :
      (client : ℤ) (n p : ℕ) (w : W k ps order)
      → object p w.app ≡ some (newcomer k ps order client)
      → (v : Asks k ps order pq fuel client n w) → suc n ≤ fuel
      → Answered client n p v.event v.system w
  unfolding run_closure
  Asks-Answered client n p w o v le =
      let a =
        come-Answers k sending ps order (recv_error v.errno) p on_client_error (Wakes w) o v.comes
          refl refl v.idle fuel le in
      record {
        world = a.world;
        conn = a.conn;
        runs =
            handle_event-receives k sending ps order fuel p v.event on_request on_client_error
              v.errno (newcomer k ps order client) (Wakes w) a.world o v.readable.1 v.readable.2
              a.ends;
        on_socket = a.same_socket;
        sends = a.sends;
        callbacks = a.callbacks v.registers;
      }
