-- ===== src/Application/Visit/Draining.antt =====
-- src/server.cpp over `reactorRun` of include/reactor.h: rounds in which a socket is writable.
use async_event_loop.Base.{
  int_eq, ℕ, suc, ℤ, ◌+◌, ◌≤◌, ◌≡◌, true, false, some, none, [], ◌∷◌, Bytes,
}
use async_event_loop.Outcome.{Outcome, ok}
use async_event_loop.Heap.{object}
use async_event_loop.Kernel.{Kernel, Event, sent, ready}
use async_event_loop.Kernel.Flags.{epollin, epollout, epollerr, has}
use async_event_loop.SocketUtilities.{close_connection}
use async_event_loop.Http.{Headers}
use async_event_loop.Reactor.{EventQueue, reactor_run}
use async_event_loop.Reactor.Loop.{woken}
use async_event_loop.Connection.{Parser, Conn, Callback}
use async_event_loop.Connection.Handling.{transmit}
use async_event_loop.Connection.Sending.{unsent}
use async_event_loop.Server.{run_closure}
use async_event_loop.Application.{clients, Handler, on_sent, on_send_error, call}
use async_event_loop.Application.Arrival.{W}

module _ (k : Kernel) (ps : Parser) (order : Headers → Headers) (pq : EventQueue) (fuel : ℕ) where
  abbrev pub run : Callback Handler → Event → W k ps order → Outcome (W k ps order)
  run = run_closure k ps (clients k ps order fuel)

  abbrev pub woke : W k ps order → W k ps order
  woke = woken k pq run

  -- `epoll_wait` reports this event and nothing else.
  abbrev pub Reports : W k ps order → Event → Type 0
  Reports w ev = (k.epoll_wait w.epollfd_ w.max_events_ w.kernel).0 ≡ ready (ev ∷ [])

  -- The event is that the socket `d` is writable, without an error.
  abbrev pub IsWritable : ℤ → Event → Type 0
  IsWritable d ev =
      (ev.fd ≡ d)
      × (has ev.events epollerr ≡ false)
      × (has ev.events epollin ≡ false)
      × (has ev.events epollout ≡ true)

  -- What the system does in so many rounds of the loop, as long as the connection at `p` is there:
  -- `epoll_wait` reports that its socket `d` is writable, and the first `send` takes a byte at least.
  pub data Drains (p : ℕ) (d : ℤ) : ℕ → W k ps order → Type 0 where
    over : {w : W k ps order} → Drains p d 0 w
    gone : {n : ℕ} {w : W k ps order} → object p w.app ≡ none → Drains p d n w
    round :
        {n : ℕ} {w : W k ps order} (ev : Event)
        → Reports w ev
        → IsWritable d ev
        → ((c : Conn k ps Handler)
            → object p w.app ≡ some c
            → (m : ℕ) × ((k.send d (unsent k ps c) (woke w).kernel).0 ≡ sent (suc m)))
        → ((w' : W k ps order)
            → transmit k ps (call k ps order) p on_sent on_send_error (woke w) ≡ ok w'
            → Drains p d n w')
        → Drains p d (suc n) w

  -- After at most `n` rounds more the connection at `p`, on the socket `d`, has sent `bs` and is closed
  -- and gone, and the loop goes on with an empty queue.
  pub record Leaves (p : ℕ) (d : ℤ) (bs : Bytes) (n : ℕ) (q : pq.Queue) (w : W k ps order)
      : Type 0 where
    pub rounds : ℕ
    pub within : rounds ≤ n
    pub last : pq.Queue
    pub is_empty : pq.items last ≡ []
    pub world : W k ps order
    pub kernel : k.State
    pub continues :
        (more : ℕ)
        → reactor_run k pq run (suc (rounds + more)) q w
          ≡ reactor_run k pq run (suc more) last world
    pub gone : object p world.app ≡ none
    pub closed : world.kernel ≡ (close_connection k d kernel).1
    pub out : k.outgoing kernel d ≡ bs
